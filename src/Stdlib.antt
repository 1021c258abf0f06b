-- ===== src/Stdlib.antt =====
-- diskfs/stdlib: what the project wrote itself of the C library for compiled programs.
pub mod Ctype
pub mod Strings
pub mod Duplicate
