-- ===== src/Assembler/Operand.antt =====
-- attic/staging.c: registers, and the operands of an instruction. The text is cut up in place, so an
-- operand is decoded together with what its buffer holds afterwards.
use asmc.Prelude.{
  ℕ, suc, ◌+◌, Bool, true, false, not, ◌||◌, Option, none, some, [], ◌∷◌, ◌++◌, ◌==◌, if◌then◌else◌,
  option, codes, take, drop,
}
use asmc.Cstring.{Bytes, same, isstrpref, find_char, remove_spaces}
use asmc.Run.{pure, ◌>>=◌, ◌>>◌, assert}
use asmc.Globals.{M}
use asmc.Numbers.{decode_number_or_symbol}

-- `none` for -1.
unfoldable pub decode_reg32 : Bytes → Option ℕ
decode_reg32 reg =
    if same reg (codes "eax")
    then some 0
    else if same reg (codes "ecx")
    then some 1
    else if same reg (codes "edx")
    then some 2
    else if same reg (codes "ebx")
    then some 3
    else if same reg (codes "esp")
    then some 4
    else if same reg (codes "ebp")
    then some 5
    else if same reg (codes "esi")
    then some 6
    else if same reg (codes "edi")
    then some 7
    else none

unfoldable pub decode_reg8 : Bytes → Option ℕ
decode_reg8 reg =
    if same reg (codes "al")
    then some 0
    else if same reg (codes "cl")
    then some 1
    else if same reg (codes "dl")
    then some 2
    else if same reg (codes "bl")
    then some 3
    else if same reg (codes "ah")
    then some 4
    else if same reg (codes "ch")
    then some 5
    else if same reg (codes "dh")
    then some 6
    else if same reg (codes "bh")
    then some 7
    else none

-- What the out parameters of `decode_operand` are set to where it returns 1.
pub record Operand : Type 0 where
  pub is_direct : Bool
  pub reg : ℕ
  pub disp : ℕ
  pub is8 : Bool
  pub is32 : Bool

-- `operand` is `none` for a result of 0; `text` is the buffer afterwards.
pub record Decoded : Type 0 where
  pub operand : Option Operand
  pub text : Bytes

-- Whether the string ends at position `i`.
abbrev pub ends_at : Bytes → ℕ → Bool
ends_at s i = elim (drop i s) [ [] ↦ true | _ ↦ false ]

-- The register of `[reg]`, or nothing.
abbrev pub indirect : Option ℕ → ℕ → Bool → Bool → Option Operand
indirect none disp is8 is32 = none
indirect (some r) disp is8 is32 =
    some (record { is_direct = false; reg = r; disp = disp; is8 = is8; is32 = is32 })

-- `[reg+disp]`: `head` is the text up to the '[', `reg` the cut name, `after` what follows the '+'.
unfoldable pub decode_displaced : Bytes → Bytes → Bytes → Bool → Bool → M Decoded
decode_displaced head reg after is8 is32 =
    let cut = head ++ reg in
    let refused : M Decoded = pure (record { operand = none; text = cut }) in
    option (decode_reg32 reg) refused λ r. option (find_char after b']') refused λ closed_pos.
      if not (ends_at after (suc closed_pos)) then refused else (do
        disp ← decode_number_or_symbol (take closed_pos after) false
        pure
            (record { operand = option disp none (λ d. indirect (some r) d is8 is32); text = cut }))

-- The branch of `decode_operand2` for a '['; `body` is what follows it.
unfoldable pub decode_indirect : Bytes → Bytes → Bytes → Bool → Bool → M Decoded
unfolding decode_displaced
decode_indirect whole head body is8 is32 =
    let refused : M Decoded = pure (record { operand = none; text = whole }) in
    option (find_char body b'+')
      (option (find_char body b']') refused λ closed_pos.
        if not (ends_at body (suc closed_pos))
        then refused
        else pure (record {
          operand = indirect (decode_reg32 (take closed_pos body)) 0 is8 is32;
          text = head ++ take closed_pos body;
        }))
      (λ plus_pos. decode_displaced head (take plus_pos body) (drop (suc plus_pos) body) is8 is32)

-- The branch for a plain register.
unfoldable pub decode_direct : Bytes → Bytes → Bool → Bool → M Decoded
decode_direct whole name is8 is32 =
    let refused : M Decoded = pure (record { operand = none; text = whole }) in
    if is32 || is8
    then refused
    else option (decode_reg32 name)
        (option (decode_reg8 name) refused λ r. do
          assert (not is32)
          pure (record {
            operand =
                some (record { is_direct = true; reg = r; disp = 0; is8 = true; is32 = is32 });
            text = whole;
          }))
        (λ r. do
          assert (not is8)
          pure (record {
            operand = some (record { is_direct = true; reg = r; disp = 0; is8 = is8; is32 = true });
            text = whole;
          }))

abbrev pub decode_body : Bytes → Bytes → Bytes → Bool → Bool → M Decoded
decode_body whole head [] is8 is32 = decode_direct whole [] is8 is32
decode_body whole head (c ∷ body) is8 is32 =
    if c == b'['
    then decode_indirect whole (head ++ c ∷ []) body is8 is32
    else decode_direct whole (c ∷ body) is8 is32

unfoldable pub decode_operand : Bytes → M Decoded
unfolding decode_direct decode_indirect
decode_operand operand = do
  let whole = remove_spaces operand
  let is8 = isstrpref (codes "BYTE") whole
  let rest = if is8 then drop 4 whole else whole
  let is32 = isstrpref (codes "DWORD") rest
  let body = if is32 then drop 5 rest else rest
  let skipped = (if is8 then 4 else 0) + (if is32 then 5 else 0)
  assert (not is8 || not is32)
  decode_body whole (take skipped whole) body is8 is32
