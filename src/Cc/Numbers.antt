-- ===== src/Cc/Numbers.antt =====
-- cc/cc.c: `decode_number` on a piece of the text. Its test for "0x" compares one byte with both
-- characters.
use asmc.Prelude.{
  ℕ, ◌+◌, ◌-◌, ◌*◌, Bool, true, false, not, ◌&&◌, Option, none, some, [], ◌∷◌, ◌≡◌, ◌↔◌, refl, ◌∙◌,
  sym, arith, leb, ◌==◌, if◌then◌else◌,
}
use asmc.Cstring.{Bytes}
use asmc.Globals.{word}
use asmc.Numbers.{decode_digits, digit}
use asmc.Numbers.Numeral.{IsNumeral, IsNumeral-decode_digits, decode_digits-IsNumeral}

-- The digit that is added to `*num`, or `none` where the loop returns 0.
unfoldable pub next_digit : Bool → ℕ → Option ℕ
next_digit is_decimal c =
    if leb b'0' c && leb c b'9'
    then some (c - b'0')
    else if not is_decimal && (leb b'a' c && leb c b'f')
    then some (c - b'a' + 10)
    else none

-- The loop, with the bytes from `begin` to `end`.
unfoldable pub number_from : Bool → Bool → ℕ → Bytes → Option ℕ
unfolding next_digit
number_from is_decimal digit_seen num [] = if digit_seen then some num else none
number_from is_decimal digit_seen num (c ∷ s) = elim (next_digit is_decimal c) [
  | none ↦ none
  | some d ↦ number_from is_decimal true (word (word (num * (if is_decimal then 10 else 16)) + d)) s
]

-- What `begin += 2` leaves.
abbrev pub behind_prefix : Bytes → Bytes
behind_prefix [] = []
behind_prefix (c ∷ []) = []
behind_prefix (c ∷ d ∷ s) = s

unfoldable pub decode_number : Bytes → Option ℕ
unfolding number_from
decode_number [] = number_from true false 0 []
decode_number (c ∷ s) =
    if c == b'0' && c == b'x'
    then number_from false false 0 (behind_prefix (c ∷ s))
    else number_from true false 0 (c ∷ s)

number_from-decode_digits :
    (seen : Bool) (num : ℕ) (s : Bytes)
    → number_from true seen num s ≡ decode_digits true seen num s
unfolding number_from next_digit decode_digits digit
number_from-decode_digits seen num [] = refl
number_from-decode_digits seen num (c ∷ s) =
    go (digit true c) (λ m. number_from-decode_digits true m s)
  where
    go :
        (o : Option ℕ)
        → ((m : ℕ) → number_from true true m s ≡ decode_digits true true m s)
        → (elim o [ none ↦ none | some d ↦ number_from true true (word (word (num * 10) + d)) s ])
          ≡ (elim o [
            | none ↦ none
            | some d ↦ decode_digits true true (word (word (num * 10) + d)) s
          ])
    go none h = refl
    go (some d) h = h (word (word (num * 10) + d))

decode_number-decode_digits : (s : Bytes) → decode_number s ≡ decode_digits true false 0 s
unfolding decode_number
decode_number-decode_digits [] = number_from-decode_digits false 0 []
decode_number-decode_digits (c ∷ s) = ground (arith, number_from-decode_digits false 0 (c ∷ s))

-- `decode_number` of the C compiler succeeds with `n` exactly on the decimal numerals whose value is
-- `n` modulo 2 ^ 32. It accepts no numeral in hexadecimal.
pub decode_number-IsNumeral_iff :
    (s : Bytes) (n : ℕ) → (decode_number s ≡ some n) ↔ IsNumeral true s n
decode_number-IsNumeral_iff s n = (
  λ e. decode_digits-IsNumeral true s n (sym (decode_number-decode_digits s) ∙ e),
  λ h. decode_number-decode_digits s ∙ IsNumeral-decode_digits true s n h,
)
