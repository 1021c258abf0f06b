-- ===== src/Tests.antt =====
-- Runs of the two programs at small inputs, and the theorems at inputs that meet their hypotheses.
mod Start
mod Cstrings
mod Tables
mod Programs
mod Compile
mod Encodings
mod Tokens
mod Running
mod CcTexts
mod CcTables
mod CcPrograms
mod Cc2Programs
mod Library
