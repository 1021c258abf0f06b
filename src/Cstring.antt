-- ===== src/Cstring.antt =====
-- attic/staging.c: the string helpers that the assembler and the G compiler share. A NUL-terminated
-- string is the list of its bytes before the NUL; a `char` is its byte, 0 to 255.
pub mod Compare
pub mod Find
pub mod Trim
use asmc.Prelude.{
  ℕ, suc, ◌+◌, ◌-◌, ◌%◌, ◌^◌, ◌<◌, Bool, true, false, ◌||◌, Option, none, some, List, [], ◌∷◌, ◌++◌,
  ◌≡◌, ltb, ◌==◌, if◌then◌else◌, All,
}

abbrev pub Bytes : Type 0
Bytes = List ℕ

-- The bytes that a string can hold before its terminator.
abbrev pub IsCbyte : ℕ → Type 0
IsCbyte c = (0 < c) × (c < 256)

abbrev pub IsCstring : Bytes → Type 0
IsCstring = All IsCbyte

-- -1, as the bit pattern of a 32-bit `int`.
abbrev pub minus_one : ℕ
minus_one = 2 ^ 32 - 1

-- `<` on `char`, which is signed on this platform.
abbrev pub char_lt : ℕ → ℕ → Bool
char_lt a b = ltb ((a + 128) % 256) ((b + 128) % 256)

-- One round of the loop of `strcmp2`; `rest` is what the later rounds return.
abbrev pub strcmp_round : ℕ → ℕ → ℕ → ℕ
strcmp_round a b rest =
    if char_lt a b then minus_one else if char_lt b a then 1 else if a == 0 then 0 else rest

unfoldable pub strcmp : Bytes → Bytes → ℕ
strcmp [] [] = 0
strcmp [] (y ∷ ys) = strcmp_round 0 y 0
strcmp (x ∷ xs) [] = strcmp_round x 0 0
strcmp (x ∷ xs) (y ∷ ys) = strcmp_round x y (strcmp xs ys)

-- `strcmp(s1, s2) == 0`
abbrev pub same : Bytes → Bytes → Bool
same s1 s2 = strcmp s1 s2 == 0

unfoldable pub isstrpref : Bytes → Bytes → Bool
isstrpref [] s2 = true
isstrpref (x ∷ s1) [] = false
isstrpref (x ∷ s1) (y ∷ s2) = if x == y then isstrpref s1 s2 else false

-- Up to a terminator; a `char` is a number modulo 256, as for `char_lt`.
abbrev pub strlen : Bytes → ℕ
strlen [] = 0
strlen (x ∷ xs) = if x % 256 == 0 then 0 else suc (strlen xs)

-- The position of the first `c`, or `none` for the -1 of the source.
unfoldable pub find_char : Bytes → ℕ → Option ℕ
find_char [] c = if c == 0 then some 0 else none
find_char (x ∷ xs) c =
    if x == c then some 0 else elim (find_char xs c) [ none ↦ none | some i ↦ some (suc i) ]

-- ' ' or '\t'
abbrev pub is_blank : ℕ → Bool
is_blank c = c == b' ' || c == b'\t'

unfoldable pub remove_spaces : Bytes → Bytes
remove_spaces [] = []
remove_spaces (x ∷ xs) = if is_blank x then remove_spaces xs else x ∷ remove_spaces xs

-- The first loop of `trimstr2`: where the read pointer stops.
unfoldable pub skip_blanks : Bytes → Bytes
skip_blanks [] = []
skip_blanks (x ∷ xs) = if is_blank x then skip_blanks xs else x ∷ xs

-- The last loop of `trimstr2`: from the end, blanks are overwritten by the terminator.
unfoldable pub drop_trailing : Bytes → Bytes
drop_trailing [] = []
drop_trailing (x ∷ xs) = elim (drop_trailing xs) [
  | [] ↦ if is_blank x then [] else x ∷ []
  | y ∷ ys ↦ x ∷ y ∷ ys
]

unfoldable pub trimstr : Bytes → Bytes
unfolding skip_blanks drop_trailing
trimstr buf = drop_trailing (skip_blanks buf)
