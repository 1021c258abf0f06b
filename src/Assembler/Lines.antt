-- ===== src/Assembler/Lines.antt =====
-- attic/staging.c: the kinds of lines, and `process_line2`, which tries them in turn. A handler's
-- result says whether the line is of its kind.
use asmc.Prelude.{
  ℕ, suc, ◌+◌, ◌-◌, ◌%◌, ◌^◌, Bool, true, false, ◌&&◌, ◌||◌, List, [], ◌∷◌, leb, ltb, ◌==◌,
  if◌then◌else◌, option, codes, take, drop,
}
use asmc.Cstring.{Bytes, minus_one, same, strlen, find_char, trimstr}
use asmc.Run.{pure, ◌>>=◌, ◌>>◌, halt, fault, assert, expect, gets, repeat}
use asmc.Globals.{M, loop_count, byte_at, emit, emit32, emit_str}
use asmc.Symbols.{add_symbol_wrapper}
use asmc.Numbers.{decode_number_or_symbol}
use asmc.Assembler.Opcodes.{Row}
use asmc.Assembler.Instruction.{process_text_line}

unfoldable pub process_bss_line : Bytes → Bytes → M Bool
process_bss_line opcode text =
    if same opcode (codes "resb")
    then (do
      res ← decode_number_or_symbol text true
      val ← expect res
      repeat (loop_count val) (emit 0)
      pure true)
    else if same opcode (codes "resd")
    then (do
      res ← decode_number_or_symbol text true
      val ← expect res
      repeat (loop_count val) (emit32 0)
      pure true)
    else pure false

abbrev pub last_is : ℕ → Bytes → Bool
last_is c [] = false
last_is c (x ∷ []) = x == c
last_is c (x ∷ y ∷ s) = last_is c (y ∷ s)

abbrev pub starts_with : ℕ → Bytes → Bool
starts_with c [] = false
starts_with c (x ∷ s) = x == c

abbrev pub tail : Bytes → Bytes
tail [] = []
tail (x ∷ s) = s

unfoldable pub process_data_line : Bytes → Bytes → M Bool
process_data_line opcode text =
    if same opcode (codes "db")
    then (if starts_with b'\'' text
        then (do
          let len = strlen text
          assert (leb 2 len)
          assert (last_is b'\'' text)
          emit_str (tail (take (len - 1) text))
          pure true)
        else (do
          res ← decode_number_or_symbol text false
          val ← expect res
          emit (byte_at val 0)
          pure true))
    else if same opcode (codes "dd")
    then (do res ← decode_number_or_symbol text false; val ← expect res; emit32 val; pure true)
    else pure false

-- `val - (*get_current_loc() % val)` in `int`, where the `%` of C has the sign of the location.
abbrev pub align_skip : ℕ → ℕ → ℕ
align_skip loc val =
    if leb (2 ^ 31) val
    then 0
    else loop_count (if ltb loc (2 ^ 31) then val - loc % val else val + (2 ^ 32 - loc) % val)

-- `%` by 0 is a fault, and so is the overflow of -2 ^ 31 % -1.
unfoldable pub process_align : ℕ → M (Unit {0})
process_align val = do
  current_loc ← gets (λ g. g.current_loc)
  if val == 0 || (current_loc == 2 ^ 31 && val == minus_one)
      then halt fault
      else repeat (align_skip current_loc val) (emit 0)

unfoldable pub process_directive_line : Bytes → Bytes → M Bool
unfolding process_align
process_directive_line opcode text =
    if same opcode (codes "section")
    then pure true
    else if same opcode (codes "global")
    then pure true
    else if same opcode (codes "align")
    then (do
      res ← decode_number_or_symbol text true
      val ← expect res
      process_align val
      pure true)
    else if same opcode (codes "extern")
    then (do add_symbol_wrapper text 0 minus_one; pure true)
    else pure false

unfoldable pub process_equ_line : Bytes → Bytes → M Bool
process_equ_line opcode text = option (find_char text b' ') (pure false) λ data_space_pos.
    if same (take data_space_pos text) (codes "equ")
    then (do
      res ← decode_number_or_symbol (trimstr (drop (suc data_space_pos) text)) false
      val ← expect res
      add_symbol_wrapper opcode val minus_one
      pure true)
    else pure false

-- `if (!processed) processed = …`
abbrev pub or_else : M Bool → M Bool → M Bool
or_else m n = do processed ← m; if processed then pure true else n

module _ (table : List Row) where
  unfoldable pub process_parts : Bytes → Bytes → M (Unit {0})
  process_parts opcode text = do
    processed ← or_else (process_directive_line opcode text) (
        or_else (process_bss_line opcode text) (
          or_else (process_text_line table 0 opcode text)
            (or_else (process_data_line opcode text) (process_equ_line opcode text))))
    assert processed

  unfoldable pub process_line : Bytes → M (Unit {0})
  unfolding process_parts
  process_line line =
      option (find_char line b' ') (process_parts line [])
        λ opcode_len. process_parts (take opcode_len line) (trimstr (drop (suc opcode_len) line))
