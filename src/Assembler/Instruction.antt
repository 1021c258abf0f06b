-- ===== src/Assembler/Instruction.antt =====
-- attic/staging.c: the handlers of the instructions.
use asmc.Prelude.{
  ℕ, suc, ◌+◌, Bool, true, false, not, ◌||◌, Option, none, some, List, [], ◌∷◌, leb, ◌==◌,
  if◌then◌else◌, codes, take, drop,
}
use asmc.Cstring.{Bytes, minus_one, same, find_char, trimstr}
use asmc.Run.{pure, ◌>>=◌, ◌>>◌, halt, panic, assert, expect, gets}
use asmc.Globals.{M, sub_word, byte_at, emit, emit32}
use asmc.Numbers.{decode_number_or_symbol}
use asmc.Assembler.Operand.{Operand, decode_operand}
use asmc.Assembler.Encode.{emit_helper}
use asmc.Assembler.Opcodes.{
  Handler, jmp_like, push_like, add_like, interrupt, ret, in_like, Row, op_push, op_int, op_ret,
  op_in, op_out,
}

-- r/m32, or rel32 where the operand is neither a register nor memory.
unfoldable pub jmp_with : Row → Bytes → Option Operand → M (Unit {0})
jmp_with row text (some o) = do
  assert (not o.is8)
  emit_helper row.rm32 o.is_direct minus_one o.reg o.disp
jmp_with row text none = do
  emit_helper row.imm32 true minus_one minus_one 0
  res ← decode_number_or_symbol text false
  rel ← expect res
  current_loc ← gets (λ g. g.current_loc)
  emit32 (sub_word (sub_word rel current_loc) 4)

unfoldable pub process_jmp_like : Row → ℕ → Bytes → M (Unit {0})
unfolding jmp_with
process_jmp_like row op text = do d ← decode_operand text; jmp_with row d.text d.operand

unfoldable pub push_with : Row → ℕ → Bytes → Option Operand → M (Unit {0})
push_with row op text (some o) = do
  assert (not o.is8)
  emit_helper row.rm32 o.is_direct minus_one o.reg o.disp
push_with row op text none = do
  assert (op == op_push)
  res ← decode_number_or_symbol text false
  imm ← expect res
  emit 0x68
  emit32 imm

unfoldable pub process_push_like : Row → ℕ → Bytes → M (Unit {0})
unfolding push_with
process_push_like row op text = do d ← decode_operand text; push_with row op d.text d.operand

-- Both operands are decoded: the size, then the four forms.
unfoldable pub add_operands : Row → Operand → Operand → M (Unit {0})
add_operands row dest src = do
  let is8 = dest.is8 || src.is8
  let is32 = dest.is32 || src.is32
  assert (is8 || is32)
  assert (not is8 || not is32)
  if dest.is_direct
      then (if is8
          then emit_helper row.r8rm8 src.is_direct dest.reg src.reg src.disp
          else emit_helper row.r32rm32 src.is_direct dest.reg src.reg src.disp)
      else (if src.is_direct
          then (if is8
              then emit_helper row.rm8r8 false src.reg dest.reg dest.disp
              else emit_helper row.rm32r32 false src.reg dest.reg dest.disp)
          else halt panic)

unfoldable pub add_immediate : Row → Operand → Bytes → M (Unit {0})
add_immediate row dest src = do
  assert (dest.is8 || dest.is32)
  res ← decode_number_or_symbol src false
  imm ← expect res
  if dest.is8
      then (do
        emit_helper row.rm8imm8 dest.is_direct minus_one dest.reg dest.disp
        emit (byte_at imm 0))
      else (do emit_helper row.rm32imm32 dest.is_direct minus_one dest.reg dest.disp; emit32 imm)

unfoldable pub add_with : Row → Operand → Bytes → Option Operand → M (Unit {0})
unfolding add_operands add_immediate
add_with row dest text (some src) = add_operands row dest src
add_with row dest text none = add_immediate row dest text

unfoldable pub process_add_like : Row → ℕ → Bytes → M (Unit {0})
unfolding add_with
process_add_like row op text = do
  comma_pos ← expect (find_char text b',')
  dest_res ← decode_operand (take comma_pos text)
  dest ← expect dest_res.operand
  src_res ← decode_operand (drop (suc comma_pos) text)
  add_with row dest src_res.text src_res.operand

-- The result of a call that returns 1 or 0.
abbrev flag : Option ℕ → ℕ
flag none = 0
flag (some n) = 1

-- The range test reads `res`, the result of the call, and not `imm`.
unfoldable pub process_int : Row → ℕ → Bytes → M (Unit {0})
process_int row op text = do
  assert (op == op_int)
  decoded ← decode_number_or_symbol text false
  let res = flag decoded
  imm ← expect decoded
  assert (not (leb 0x100 res))
  emit 0xcd
  emit (byte_at imm 0)

unfoldable pub process_ret : Row → ℕ → Bytes → M (Unit {0})
process_ret row op text = do
  assert (op == op_ret)
  assert (elim text [ [] ↦ true | _ ↦ false ])
  emit 0xc3

unfoldable pub process_in_like : Row → ℕ → Bytes → M (Unit {0})
process_in_like row op text = do
  assert (op == op_in || op == op_out)
  comma_pos ← expect (find_char text b',')
  let left = take comma_pos text
  let right = drop (suc comma_pos) text
  let opcode = if op == op_in then 0xec else 0xee
  let port = trimstr (if op == op_in then right else left)
  let reg = trimstr (if op == op_in then left else right)
  assert (same port (codes "dx"))
  if same reg (codes "al")
      then emit opcode
      else if same reg (codes "ax")
      then (do emit 0x66; emit (opcode + 1))
      else if same reg (codes "eax")
      then emit (opcode + 1)
      else halt panic

-- `get_opcode_funcs()[idx](idx, data)`
unfoldable pub process_instruction : Handler → Row → ℕ → Bytes → M (Unit {0})
unfolding process_jmp_like process_push_like process_add_like process_int process_ret
    process_in_like
process_instruction jmp_like = process_jmp_like
process_instruction push_like = process_push_like
process_instruction add_like = process_add_like
process_instruction interrupt = process_int
process_instruction ret = process_ret
process_instruction in_like = process_in_like

-- The search through the opcode names; `idx` counts the names that are passed.
unfoldable pub process_text_line : List Row → ℕ → Bytes → Bytes → M Bool
process_text_line [] idx opcode text = pure false
process_text_line (row ∷ rows) idx opcode text =
    if same row.name opcode
    then (do process_instruction row.handler row idx text; pure true)
    else process_text_line rows (suc idx) opcode text
