-- ===== src/Numbers.antt =====
-- attic/staging.c: numerals, and operands that are numerals or symbols. A result of 0 is `none`.
pub mod Numeral
use mathlib.Core.Option
use asmc.Prelude.{
  ℕ, ◌+◌, ◌-◌, ◌*◌, Bool, true, false, not, ◌&&◌, ◌||◌, Option, none, some, [], ◌∷◌, leb, ◌==◌,
  if◌then◌else◌, option,
}
use asmc.Cstring.{Bytes}
use asmc.Run.{pure, ◌>>=◌, halt, panic, gets}
use asmc.Globals.{Globals, M, word}
use asmc.Symbols.{find_symbol}

-- The value of a digit in the base that is read, or `none` where the loop returns 0.
unfoldable pub digit : Bool → ℕ → Option ℕ
digit is_decimal c =
    if leb b'0' c && leb c b'9'
    then some (c - b'0')
    else if not is_decimal && (leb b'a' c && leb c b'f')
    then some (c - b'a' + 10)
    else none

abbrev pub base : Bool → ℕ
base is_decimal = if is_decimal then 10 else 16

-- The loop of `decode_number2`.
unfoldable pub decode_digits : Bool → Bool → ℕ → Bytes → Option ℕ
decode_digits is_decimal digit_seen num [] = if digit_seen then some num else none
decode_digits is_decimal digit_seen num (c ∷ s) = elim (digit is_decimal c) [
  | none ↦ none
  | some d ↦ decode_digits is_decimal true (word (word (num * base is_decimal) + d)) s
]

unfoldable pub decode_number : Bytes → Option ℕ
unfolding decode_digits digit
decode_number [] = decode_digits true false 0 []
decode_number (c ∷ []) = decode_digits true false 0 (c ∷ [])
decode_number (c ∷ d ∷ s) =
    if c == b'0' && d == b'x'
    then decode_digits false false 0 s
    else decode_digits true false 0 (c ∷ d ∷ s)

-- A name that is not yet known counts as 0 in stage 0.
unfoldable pub decode_number_or_symbol : Bytes → Bool → M (Option ℕ)
decode_number_or_symbol operand force_symbol = do
  stage ← gets (λ g. g.stage)
  symbol ← gets (λ g. Option.map (λ r. r.0) (find_symbol operand g.symbols))
  option (decode_number operand)
      (if stage == 1 || force_symbol
        then pure symbol
        else if stage == 0
        then pure (some 0)
        else halt panic)
      (λ num. pure (some num))
