-- ===== src/Assembler.antt =====
-- attic/staging.c: the assembler. Its parts are the operands, the encoding of an instruction, the
-- lines and the two passes over the file.
pub mod Operand
pub mod Encode
pub mod Opcodes
pub mod Instruction
pub mod Lines
pub mod Driver
pub mod ModRm
pub mod Kept
pub mod Fuel
pub mod Image
