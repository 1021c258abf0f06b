-- ===== src/Cc/Literals.antt =====
-- cc/cc.c: `fix_strings`, which blanks the comments and marks the bytes of literals by 0x80.
use asmc.Prelude.{
  ℕ, ◌+◌, ◌%◌, Bool, false, ◌&&◌, Option, none, some, [], ◌∷◌, ltb, leb, ◌==◌, if◌then◌else◌,
}
use asmc.Cstring.{Bytes}
use asmc.Cc.Text.{is_whitespace}

-- The values 0 to 4 of `mode`.
pub data Mode : Type 0 where
  in_code char_literal string_literal line_comment block_comment : Mode

-- What a round of the loop does: it refuses the text, or goes on in a mode with one byte or two
-- written.
pub data Round : Type 0 where
  refuse : Round
  one : Mode → ℕ → Round
  two : Mode → ℕ → ℕ → Round

-- `+ 0x80` on `char`
abbrev pub mark : ℕ → ℕ
mark c = (c + 0x80) % 256

-- Whether `c` is the byte behind the current one.
abbrev pub followed_by : Option ℕ → ℕ → Bool
followed_by none c = false
followed_by (some d) c = d == c

unfoldable pub code_round : ℕ → Option ℕ → Round
code_round c next =
    if c == b'\''
    then one char_literal c
    else if c == b'"'
    then one string_literal c
    else if c == b'/' && followed_by next b'/'
    then two line_comment b' ' b' '
    else if c == b'/' && followed_by next b'*'
    then two block_comment b' ' b' '
    else if c == b'#'
    then one line_comment b' '
    else if is_whitespace c
    then one in_code b' '
    else one in_code c

abbrev pub escape_round : Mode → ℕ → Option ℕ → Round
escape_round mode c none = refuse
escape_round mode c (some d) = two mode (mark c) (mark d)

-- Inside of a literal that ends at `quote`.
unfoldable pub literal_round : Mode → ℕ → ℕ → Option ℕ → Round
literal_round mode quote c next =
    if c == quote
    then one in_code c
    else if c == b'\\'
    then escape_round mode c next
    else if leb 0x20 c
    then one mode (mark c)
    else refuse

unfoldable pub fix_round : Mode → ℕ → Option ℕ → Round
unfolding code_round literal_round
fix_round in_code c next = code_round c next
fix_round char_literal c next = literal_round char_literal b'\'' c next
fix_round string_literal c next = literal_round string_literal b'"' c next
fix_round line_comment c next = if c == b'\n' then one in_code b' ' else one line_comment b' '
fix_round block_comment c next =
    if c == b'*' && followed_by next b'/' then two in_code b' ' b' ' else one block_comment b' '

abbrev pub written : ℕ → Option Bytes → Option Bytes
written c none = none
written c (some s) = some (c ∷ s)

-- The loop of `fix_strings` from a mode; `none` where an assert fails. A round that writes two bytes
-- has read two.
unfoldable pub fix_from : Mode → Bytes → Option Bytes
fix_from mode [] = some []
fix_from mode (c ∷ []) =
    if ltb c 0x80
    then (elim (fix_round mode c none) [
      | refuse ↦ none
      | one mode' x ↦ some (x ∷ [])
      | two mode' x y ↦ none
    ])
    else none
fix_from mode (c ∷ d ∷ s) =
    if ltb c 0x80
    then (elim (fix_round mode c (some d)) [
      | refuse ↦ none
      | one mode' x ↦ written x (fix_from mode' (d ∷ s))
      | two mode' x y ↦ written x (written y (fix_from mode' s))
    ])
    else none

unfoldable pub fix_strings : Bytes → Option Bytes
unfolding fix_from
fix_strings s = fix_from in_code s
