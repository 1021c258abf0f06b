-- ===== src/Assembler/Opcodes.antt =====
-- The opcode tables that attic/staging.c reads through `get_opcode_names()` and the like: one row for
-- each opcode of its `enum`, with the data of asmasm/asmasm.asm. 0xf0 marks a form that is missing.
use Prim.Native.String.{String}
use asmc.Prelude.{ℕ, List, [], ◌∷◌, codes}
use asmc.Cstring.{Bytes}

-- The functions that `get_opcode_funcs()` points to.
pub data Handler : Type 0 where
  jmp_like push_like add_like interrupt ret in_like : Handler

pub record Row : Type 0 where
  pub name : Bytes
  pub handler : Handler
  pub rm32 : ℕ
  pub imm32 : ℕ
  pub rm8r8 : ℕ
  pub rm32r32 : ℕ
  pub r8rm8 : ℕ
  pub r32rm32 : ℕ
  pub rm8imm8 : ℕ
  pub rm32imm32 : ℕ

-- The indices that the handlers test for.
abbrev pub op_push : ℕ
op_push = 0

abbrev pub op_int : ℕ
op_int = 30

abbrev pub op_ret : ℕ
op_ret = 31

abbrev pub op_in : ℕ
op_in = 32

abbrev pub op_out : ℕ
op_out = 33

abbrev row : String → Handler → ℕ → ℕ → ℕ → ℕ → ℕ → ℕ → ℕ → ℕ → Row
row n h a b c d e f x y = record {
  name = codes n;
  handler = h;
  rm32 = a;
  imm32 = b;
  rm8r8 = c;
  rm32r32 = d;
  r8rm8 = e;
  r32rm32 = f;
  rm8imm8 = x;
  rm32imm32 = y;
}

unfoldable pub opcodes : List Row
opcodes =
    row "push" push_like 0x06ff 0xf0 0xf0 0xf0 0xf0 0xf0 0xf0 0xf0
    ∷ row "pop" push_like 0x008f 0xf0 0xf0 0xf0 0xf0 0xf0 0xf0 0xf0
    ∷ row "add" add_like 0xf0 0xf0 0x00 0x01 0x02 0x03 0x0080 0x0081
    ∷ row "sub" add_like 0xf0 0xf0 0x28 0x29 0x2a 0x2b 0x0580 0x0581
    ∷ row "mov" add_like 0xf0 0xf0 0x88 0x89 0x8a 0x8b 0x00c6 0x00c7
    ∷ row "cmp" add_like 0xf0 0xf0 0x38 0x39 0x3a 0x3b 0x0780 0x0781
    ∷ row "and" add_like 0xf0 0xf0 0x20 0x21 0x22 0x23 0x0480 0x0481
    ∷ row "or" add_like 0xf0 0xf0 0x08 0x09 0x0a 0x0b 0x0180 0x0181
    ∷ row "jmp" jmp_like 0x04ff 0xe9 0xf0 0xf0 0xf0 0xf0 0xf0 0xf0
    ∷ row "call" jmp_like 0x02ff 0xe8 0xf0 0xf0 0xf0 0xf0 0xf0 0xf0
    ∷ row "je" jmp_like 0xf0 0x1840f 0xf0 0xf0 0xf0 0xf0 0xf0 0xf0
    ∷ row "jne" jmp_like 0xf0 0x1850f 0xf0 0xf0 0xf0 0xf0 0xf0 0xf0
    ∷ row "ja" jmp_like 0xf0 0x1870f 0xf0 0xf0 0xf0 0xf0 0xf0 0xf0
    ∷ row "jna" jmp_like 0xf0 0x1860f 0xf0 0xf0 0xf0 0xf0 0xf0 0xf0
    ∷ row "jae" jmp_like 0xf0 0x1830f 0xf0 0xf0 0xf0 0xf0 0xf0 0xf0
    ∷ row "jnae" jmp_like 0xf0 0x1820f 0xf0 0xf0 0xf0 0xf0 0xf0 0xf0
    ∷ row "jb" jmp_like 0xf0 0x1820f 0xf0 0xf0 0xf0 0xf0 0xf0 0xf0
    ∷ row "jnb" jmp_like 0xf0 0x1830f 0xf0 0xf0 0xf0 0xf0 0xf0 0xf0
    ∷ row "jbe" jmp_like 0xf0 0x1860f 0xf0 0xf0 0xf0 0xf0 0xf0 0xf0
    ∷ row "jnbe" jmp_like 0xf0 0x1870f 0xf0 0xf0 0xf0 0xf0 0xf0 0xf0
    ∷ row "jg" jmp_like 0xf0 0x18f0f 0xf0 0xf0 0xf0 0xf0 0xf0 0xf0
    ∷ row "jng" jmp_like 0xf0 0x18e0f 0xf0 0xf0 0xf0 0xf0 0xf0 0xf0
    ∷ row "jge" jmp_like 0xf0 0x18d0f 0xf0 0xf0 0xf0 0xf0 0xf0 0xf0
    ∷ row "jnge" jmp_like 0xf0 0x18c0f 0xf0 0xf0 0xf0 0xf0 0xf0 0xf0
    ∷ row "jl" jmp_like 0xf0 0x18c0f 0xf0 0xf0 0xf0 0xf0 0xf0 0xf0
    ∷ row "jnl" jmp_like 0xf0 0x18d0f 0xf0 0xf0 0xf0 0xf0 0xf0 0xf0
    ∷ row "jle" jmp_like 0xf0 0x18e0f 0xf0 0xf0 0xf0 0xf0 0xf0 0xf0
    ∷ row "jnle" jmp_like 0xf0 0x18f0f 0xf0 0xf0 0xf0 0xf0 0xf0 0xf0
    ∷ row "mul" jmp_like 0x04f7 0xf0 0xf0 0xf0 0xf0 0xf0 0xf0 0xf0
    ∷ row "imul" jmp_like 0x05f7 0xf0 0xf0 0xf0 0xf0 0xf0 0xf0 0xf0
    ∷ row "int" interrupt 0xf0 0xf0 0xf0 0xf0 0xf0 0xf0 0xf0 0xf0
    ∷ row "ret" ret 0xf0 0xf0 0xf0 0xf0 0xf0 0xf0 0xf0 0xf0
    ∷ row "in" in_like 0xf0 0xf0 0xf0 0xf0 0xf0 0xf0 0xf0 0xf0
    ∷ row "out" in_like 0xf0 0xf0 0xf0 0xf0 0xf0 0xf0 0xf0 0xf0
    ∷ []
