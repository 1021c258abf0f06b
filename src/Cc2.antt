-- ===== src/Cc2.antt =====
-- cc/cc2.c: the second C compiler, which has one stage and no symbols. The functions that it shares
-- with cc/cc.c, letter for letter, are passed on by Shared.
pub mod Shared
pub mod Tables
pub mod Types
pub mod Eval
pub mod Blocks
pub mod Kept
pub mod Image
pub mod Termination
pub mod Declarations
