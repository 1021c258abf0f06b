-- ===== src/Compiler.antt =====
-- attic/gstaging.c: the compiler for the G language. Its parts are the stack of variables, the
-- tokens, the expressions and the blocks; code is emitted while the tokens are read.
pub mod Stack
pub mod Token
pub mod Words
pub mod Escapes
pub mod Expr
pub mod Block
pub mod Driver
pub mod Relative
pub mod Kept
pub mod Steady
pub mod Nameless
pub mod Measure
pub mod Machine
pub mod Codes
pub mod Pushes
pub mod Operands
pub mod Execution
pub mod Discard
pub mod Sequence
pub mod Postfix
pub mod Straight
pub mod Rounds
pub mod Nesting
pub mod Termination
pub mod Image
