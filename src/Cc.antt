-- ===== src/Cc.antt =====
-- cc/cc.c: the first C compiler, from the text of a file to the bytes of its image.
pub mod Text
pub mod Matching
pub mod Expressions
pub mod Eval
pub mod Statements
pub mod Blocks
pub mod Driver
pub mod Parentheses
pub mod Kept
pub mod Layout
pub mod Table
pub mod Literals
pub mod Protected
pub mod Operations
pub mod Pairs
pub mod Tables
pub mod Names
pub mod Numbers
pub mod Labels
pub mod Lookups
