-- ===== src/Cc/Protected.antt =====
-- cc/cc.c: what `fix_strings` leaves of literals and of line breaks.
use mathlib.Core.List.{map}
use mathlib.Core.Path.{subst}
use asmc.Prelude.{
  ℕ, suc, ◌<◌, ◌≤◌, Option, none, some, [], ◌∷◌, ◌++◌, ◌≡◌, ◌≢◌, refl, ap, ◌∙◌, arith, lt→ltb,
  length, All,
}
use asmc.Cstring.{Bytes}
use asmc.Cc.Literals.{
  Mode, in_code, char_literal, string_literal, line_comment, block_comment, Round, refuse, one, two,
  mark, written, code_round, literal_round, fix_round, fix_from, fix_strings,
}

-- A byte of a literal that stands for itself.
abbrev pub IsPlain : ℕ → Type 0
IsPlain c = (0x20 ≤ c) × (c < 0x80) × (c ≢ b'"') × (c ≢ b'\\')

fix_from-one :
    (mode mode' : Mode) (c x : ℕ) (s : Bytes)
    → c < 0x80
    → ((next : Option ℕ) → fix_round mode c next ≡ one mode' x)
    → fix_from mode (c ∷ s) ≡ written x (fix_from mode' s)
unfolding fix_from
fix_from-one mode mode' c x [] h e = rw (e none) (ground arith)
fix_from-one mode mode' c x (d ∷ s) h e = rw (e (some d)) (ground arith)

plain_round :
    (c : ℕ) (next : Option ℕ)
    → IsPlain c
    → fix_round string_literal c next ≡ one string_literal (mark c)
unfolding fix_round literal_round
plain_round c next h = ground arith

quote_round : (next : Option ℕ) → fix_round string_literal b'"' next ≡ one in_code b'"'
unfolding fix_round literal_round
quote_round next = refl

quote_opens : (next : Option ℕ) → fix_round in_code b'"' next ≡ one string_literal b'"'
unfolding fix_round code_round
quote_opens next = refl

inside :
    (body rest t : Bytes)
    → All IsPlain body
    → fix_strings rest ≡ some t
    → fix_from string_literal (body ++ b'"' ∷ rest) ≡ some (map mark body ++ b'"' ∷ t)
unfolding fix_strings
inside [] rest t h e =
    fix_from-one string_literal in_code b'"' b'"' rest (omega arith) quote_round
    ∙ ap (written b'"') e
inside (c ∷ body) rest t (hc, h) e =
    fix_from-one string_literal string_literal c (mark c) (body ++ b'"' ∷ rest) hc.1
      (λ next. plain_round c next hc)
    ∙ ap (written (mark c)) (inside body rest t h e)

-- `fix_strings` marks every byte of a string literal without escapes by 0x80, keeps the quotes, and
-- treats the text behind the literal as it does by itself.
pub fix_strings-literal :
    (body rest t : Bytes)
    → All IsPlain body
    → fix_strings rest ≡ some t
    → fix_strings (b'"' ∷ body ++ b'"' ∷ rest) ≡ some (b'"' ∷ map mark body ++ b'"' ∷ t)
unfolding fix_strings
fix_strings-literal body rest t h e =
    fix_from-one in_code string_literal b'"' b'"' (body ++ b'"' ∷ rest) (omega arith) quote_opens
    ∙ ap (written b'"') (inside body rest t h e)

-- The byte does not break a line, nor is it a tab.
abbrev pub OnLine : ℕ → Type 0
OnLine c = (c ≢ b'\n') × (c ≢ b'\t')

abbrev RoundIsFine : Round → Type 0
RoundIsFine refuse = Unit
RoundIsFine (one mode x) = OnLine x
RoundIsFine (two mode x y) = OnLine x × OnLine y

abbrev IsAscii : Option ℕ → Type 0
IsAscii none = Unit
IsAscii (some d) = d < 0x80

round-IsFine :
    (mode : Mode) (c : ℕ) (next : Option ℕ)
    → c < 0x80
    → IsAscii next
    → RoundIsFine (fix_round mode c next)
unfolding fix_round code_round literal_round
round-IsFine in_code c next h k = ground arith
round-IsFine char_literal c none h k = ground arith
round-IsFine char_literal c (some d) h k = ground arith
round-IsFine string_literal c none h k = ground arith
round-IsFine string_literal c (some d) h k = ground arith
round-IsFine line_comment c next h k = ground arith
round-IsFine block_comment c next h k = ground arith

-- What is asked of a result: it has the length of the text, and no line breaks.
abbrev FixedTo : Bytes → Option Bytes → Type 0
FixedTo s none = Unit
FixedTo s (some t) = (length t ≡ length s) × All OnLine t

written-FixedTo :
    (c x : ℕ) (s : Bytes) (o : Option Bytes)
    → OnLine x
    → FixedTo s o
    → FixedTo (c ∷ s) (written x o)
written-FixedTo c x s none h k = tt
written-FixedTo c x s (some t) h (l, k) = (ap suc l, (h, k))

last-FixedTo :
    (c : ℕ) (r : Round)
    → RoundIsFine r
    → FixedTo (c ∷ []) (elim r [ refuse ↦ none | one mode x ↦ some (x ∷ []) | two mode x y ↦ none ])
last-FixedTo c refuse h = tt
last-FixedTo c (one mode x) h = (refl, (h, tt))
last-FixedTo c (two mode x y) h = tt

fix_from-FixedTo : (mode : Mode) (s : Bytes) → All (λ c. c < 0x80) s → FixedTo s (fix_from mode s)
unfolding fix_from
fix_from-FixedTo mode [] h = (refl, tt)
fix_from-FixedTo mode (c ∷ []) (hc, h) =
    rw (lt→ltb c 0x80 hc) (last-FixedTo c (fix_round mode c none) (round-IsFine mode c none hc tt))
fix_from-FixedTo mode (c ∷ d ∷ s) (hc, (hd, h)) = rw (lt→ltb c 0x80 hc) (
    step (fix_round mode c (some d)) (round-IsFine mode c (some d) hc hd)
      (λ m. fix_from-FixedTo m (d ∷ s) (hd, h)) (λ m. fix_from-FixedTo m s h))
  where
    step :
        (r : Round)
        → RoundIsFine r
        → ((m : Mode) → FixedTo (d ∷ s) (fix_from m (d ∷ s)))
        → ((m : Mode) → FixedTo s (fix_from m s))
        → FixedTo (c ∷ d ∷ s) (elim r [
          | refuse ↦ none
          | one m x ↦ written x (fix_from m (d ∷ s))
          | two m x y ↦ written x (written y (fix_from m s))
        ])
    step refuse k p q = tt
    step (one m x) k p q = written-FixedTo c x (d ∷ s) _ k (p m)
    step (two m x y) k p q = written-FixedTo c x (d ∷ s) _ k.0 (written-FixedTo d y s _ k.1 (q m))

-- A text of ASCII bytes that `fix_strings` accepts keeps its length, and has neither line breaks nor
-- tabs afterwards, in literals and comments either.
pub fix_strings-OnLine :
    (s t : Bytes)
    → All (λ c. c < 0x80) s
    → fix_strings s ≡ some t
    → (length t ≡ length s) × All OnLine t
unfolding fix_strings
fix_strings-OnLine s t h e = subst (FixedTo s) e (fix_from-FixedTo in_code s h)
