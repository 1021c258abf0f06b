-- ===== src/Cc/Text.antt =====
-- cc/cc.c: the helpers on pieces of the text. A piece from `begin` to `end` is the list of its bytes.
use asmc.Prelude.{
  ℕ, zero, suc, ◌+◌, Bool, ◌&&◌, ◌||◌, Option, none, some, [], ◌∷◌, leb, ◌==◌, if◌then◌else◌,
  option, get_elem?,
}
use asmc.Cstring.{Bytes}
use asmc.Globals.{word, sub_word}

abbrev pub is_whitespace : ℕ → Bool
is_whitespace x = x == b' ' || (x == b'\t' || x == b'\n')

abbrev pub is_id : ℕ → Bool
is_id x =
    (leb b'a' x && leb x b'z')
    || ((leb b'A' x && leb x b'Z') || ((leb b'0' x && leb x b'9') || x == b'_'))

-- The depth behind the byte `c`.
abbrev pub next_depth : ℕ → ℕ → ℕ → ℕ → ℕ
next_depth opening closing depth c =
    if c == opening then word (depth + 1) else if c == closing then sub_word depth 1 else depth

-- The loop of `find_matching`: the offset of its result from `begin`, or `none` for 0.
unfoldable pub match_from : ℕ → ℕ → ℕ → Bytes → Option ℕ
match_from opening closing depth [] = none
match_from opening closing depth (c ∷ s) =
    let depth' = next_depth opening closing depth c in
    let rest = match_from opening closing depth' s in
    if depth' == 0 then some 0 else option rest none (λ i. some (suc i))

unfoldable pub find_matching : ℕ → ℕ → Bytes → Option ℕ
unfolding match_from
find_matching opening closing s = match_from opening closing 0 s

-- The last position of `c` in the piece; -1 is `none`. The piece is not empty.
unfoldable pub find_char_back : Bytes → ℕ → Option ℕ
find_char_back [] c = none
find_char_back (x ∷ s) c =
    let later = find_char_back s c in
    option later (if x == c then some 0 else none) (λ i. some (suc i))

-- What the piece holds behind the removal, up to the terminator that is written or met.
unfoldable pub remove_spaces : Bytes → Bytes
remove_spaces [] = []
remove_spaces (x ∷ s) =
    let rest = remove_spaces s in if x == 0 then [] else if is_whitespace x then rest else x ∷ rest

-- The first position of `c` in the piece before a NUL; -1 is `none`.
unfoldable pub find_char : Bytes → ℕ → Option ℕ
find_char [] c = none
find_char (x ∷ s) c =
    let later = find_char s c in
    if x == c then some 0 else if x == 0 then none else option later none (λ i. some (suc i))

unfoldable pub escaped : ℕ → ℕ
escaped x =
    if x == b'n'
    then b'\n'
    else if x == b't'
    then b'\t'
    else if x == b'0'
    then 0
    else if x == b'\\'
    then b'\\'
    else if x == b'\''
    then b'\''
    else 0

-- What is left of `s2` behind the prefix `s1`.
unfoldable pub isstrpref : Bytes → Bytes → Option Bytes
isstrpref [] s2 = some s2
isstrpref (x ∷ s1) [] = none
isstrpref (x ∷ s1) (y ∷ s2) = let rest = isstrpref s1 s2 in if x == y then rest else none

-- The loops of `trimstr` from the front and from the back.
unfoldable pub skip_whitespace : Bytes → Bytes
skip_whitespace [] = []
skip_whitespace (x ∷ s) = if is_whitespace x then skip_whitespace s else x ∷ s

unfoldable pub drop_whitespace : Bytes → Bytes
drop_whitespace [] = []
drop_whitespace (x ∷ s) = elim (drop_whitespace s) [
  | [] ↦ if is_whitespace x then [] else x ∷ []
  | y ∷ rest ↦ x ∷ y ∷ rest
]

unfoldable pub trimstr : Bytes → Bytes
unfolding skip_whitespace drop_whitespace
trimstr buf = drop_whitespace (skip_whitespace buf)

-- The result of `find_matching_rev`: 0, a place, or a read in front of the text.
pub data RevMatch : Type 0 where
  missing : RevMatch
  at : ℕ → RevMatch
  outside : RevMatch

-- The byte at `i`; the terminator, and what is not written, read as 0.
abbrev pub byte_of : Bytes → ℕ → ℕ
byte_of text i = option (get_elem? text i) 0 (λ c. c)

-- The loop of `find_matching_rev` from the byte before `i` down, with its test of `begin` left out.
unfoldable pub rev_from : ℕ → ℕ → Bytes → ℕ → ℕ → RevMatch
rev_from opening closing text depth zero = outside
rev_from opening closing text depth (suc i) =
    let depth' = next_depth closing opening depth (byte_of text i) in
    let rest = rev_from opening closing text depth' i in if depth' == 0 then at i else rest

-- In a text, between `begin` and `end`. The loop runs while `begin >= end`: not at all when the piece
-- has two bytes or more, and with no lower bound when it has fewer.
unfoldable pub find_matching_rev : ℕ → ℕ → Bytes → ℕ → ℕ → RevMatch
unfolding rev_from
find_matching_rev opening closing text begin end =
    if leb end (begin + 1) then rev_from opening closing text 0 end else missing
