-- ===== src/Cc/Pairs.antt =====
-- cc/cc.c: `fix_operations` against the table of the operators of two characters.
use asmc.Prelude.{
  ℕ, ◌<◌, ◌≤◌, Option, none, some, [], ◌∷◌, ◌≡◌, refl, sym, ap, ◌∙◌, arith, inl, inr, ◌==◌,
  if◌then◌else◌, option, Option-cases, All,
}
use asmc.Cstring.{Bytes}
use asmc.Cc.Operations.{pair_token, fix_operations}

pub data Pair : Type 0 where
  shl shr le ge eq ne and or : Pair

abbrev pub first : Pair → ℕ
first shl = b'<'
first shr = b'>'
first le = b'<'
first ge = b'>'
first eq = b'='
first ne = b'!'
first and = b'&'
first or = b'|'

abbrev pub second : Pair → ℕ
second shl = b'<'
second shr = b'>'
second le = b'='
second ge = b'='
second eq = b'='
second ne = b'='
second and = b'&'
second or = b'|'

-- TOK_SHL to TOK_OR
abbrev pub token : Pair → ℕ
token shl = 0x82
token shr = 0x83
token le = 0x84
token ge = 0x85
token eq = 0x86
token ne = 0x87
token and = 0x88
token or = 0x89

abbrev pub Spells : ℕ → ℕ → Pair → Type 0
Spells x y p = (first p ≡ x) × (second p ≡ y)

-- No operator of two characters begins at `x`, in front of `s`.
abbrev pub Alone : ℕ → Bytes → Type 0
Alone x [] = Unit
Alone x (y ∷ s) = (p : Pair) → Spells x y p → ⊥

abbrev pub Free : Bytes → Type 0
Free [] = Unit
Free (x ∷ s) = Alone x s × Free s

-- A text and its tokens: from the left, an operator becomes its token and a blank, and every other
-- byte stays.
pub data Tokenized : Bytes → Bytes → Type 0 where
  nothing : Tokenized [] []
  operator :
      (p : Pair) (s r : Bytes)
      → Tokenized s r
      → Tokenized (first p ∷ second p ∷ s) (token p ∷ b' ' ∷ r)
  byte : (x : ℕ) (s r : Bytes) → Alone x s → Tokenized s r → Tokenized (x ∷ s) (x ∷ r)

-- The operator that a byte is the token of.
abbrev pair_of : ℕ → Option Pair
pair_of t =
    if t == 0x82
    then some shl
    else if t == 0x83
    then some shr
    else if t == 0x84
    then some le
    else if t == 0x85
    then some ge
    else if t == 0x86
    then some eq
    else if t == 0x87
    then some ne
    else if t == 0x88
    then some and
    else if t == 0x89
    then some or
    else none

-- The text with every token, and the byte behind it, written out again.
unfoldable pub expand : Bytes → Bytes
expand [] = []
expand (x ∷ []) = x ∷ []
expand (x ∷ y ∷ s) = option (pair_of x) (x ∷ expand (y ∷ s)) (λ p. first p ∷ second p ∷ expand s)

pair_of-token : (t : ℕ) (p : Pair) → pair_of t ≡ some p → token p ≡ t
pair_of-token t shl e = ground arith
pair_of-token t shr e = ground arith
pair_of-token t le e = ground arith
pair_of-token t ge e = ground arith
pair_of-token t eq e = ground arith
pair_of-token t ne e = ground arith
pair_of-token t and e = ground arith
pair_of-token t or e = ground arith

token-spelled : (x y : ℕ) (p : Pair) → pair_token x y ≡ some (token p) → Spells x y p
unfolding pair_token
token-spelled x y shl e = (ground arith, ground arith)
token-spelled x y shr e = (ground arith, ground arith)
token-spelled x y le e = (ground arith, ground arith)
token-spelled x y ge e = (ground arith, ground arith)
token-spelled x y eq e = (ground arith, ground arith)
token-spelled x y ne e = (ground arith, ground arith)
token-spelled x y and e = (ground arith, ground arith)
token-spelled x y or e = (ground arith, ground arith)

found_known : (x y t : ℕ) → pair_token x y ≡ some t → pair_of t ≡ none → ⊥
unfolding pair_token
found_known x y t e f = ground arith

token_found : (x y t : ℕ) → pair_token x y ≡ some t → (p : Pair) × Spells x y p × (token p ≡ t)
token_found x y t e = elim (Option-cases (pair_of t)) [
  | inl f ↦ absurd (found_known x y t e f)
  | inr (p, f) ↦ let q = pair_of-token t p f in (p, token-spelled x y p (e ∙ ap some (sym q)), q)
]

none_found : (x y : ℕ) → pair_token x y ≡ none → (p : Pair) → Spells x y p → ⊥
unfolding pair_token
none_found x y e shl (f, s) = ground arith
none_found x y e shr (f, s) = ground arith
none_found x y e le (f, s) = ground arith
none_found x y e ge (f, s) = ground arith
none_found x y e eq (f, s) = ground arith
none_found x y e ne (f, s) = ground arith
none_found x y e and (f, s) = ground arith
none_found x y e or (f, s) = ground arith

fix_operations-Tokenized : (s : Bytes) → Tokenized s (fix_operations s)
unfolding fix_operations
fix_operations-Tokenized [] = nothing
fix_operations-Tokenized (x ∷ []) = byte x [] [] tt nothing
fix_operations-Tokenized (x ∷ y ∷ s) = elim (Option-cases (pair_token x y)) [
  | inl e ↦ rw e (
      byte x (y ∷ s) (fix_operations (y ∷ s)) (none_found x y e) (fix_operations-Tokenized (y ∷ s)))
  | inr (t, e) ↦
      let (p, f, q) = token_found x y t e in
      rw (e, sym f.0, sym f.1, sym q) (operator p s (fix_operations s) (fix_operations-Tokenized s))
]

first_visible : (p : Pair) → (b' ' < first p) × (first p < 128)
first_visible shl = (omega arith, omega arith)
first_visible shr = (omega arith, omega arith)
first_visible le = (omega arith, omega arith)
first_visible ge = (omega arith, omega arith)
first_visible eq = (omega arith, omega arith)
first_visible ne = (omega arith, omega arith)
first_visible and = (omega arith, omega arith)
first_visible or = (omega arith, omega arith)

second_plain : (p : Pair) → second p < 128
second_plain shl = omega arith
second_plain shr = omega arith
second_plain le = omega arith
second_plain ge = omega arith
second_plain eq = omega arith
second_plain ne = omega arith
second_plain and = omega arith
second_plain or = omega arith

token_large : (p : Pair) → 128 ≤ token p
token_large shl = omega arith
token_large shr = omega arith
token_large le = omega arith
token_large ge = omega arith
token_large eq = omega arith
token_large ne = omega arith
token_large and = omega arith
token_large or = omega arith

token_known : (p : Pair) → pair_of (token p) ≡ some p
token_known shl = refl
token_known shr = refl
token_known le = refl
token_known ge = refl
token_known eq = refl
token_known ne = refl
token_known and = refl
token_known or = refl

blank-Alone : (r : Bytes) → Alone b' ' r
blank-Alone [] = tt
blank-Alone (y ∷ r) = λ q (f, s). let (v, w) = first_visible q in absurd (omega arith)

-- What begins no operator in front of a text begins none in front of its tokens.
Alone-Tokenized : (x : ℕ) (s r : Bytes) → Tokenized s r → Alone x s → Alone x r
Alone-Tokenized x s r nothing a = tt
Alone-Tokenized x s r (operator p s' r' h) a =
    λ q (f, e). absurd (omega (arith, second_plain q, token_large p, e))
Alone-Tokenized x s r (byte y s' r' b h) a = a

Tokenized-Free : (s r : Bytes) → Tokenized s r → Free r
Tokenized-Free s r nothing = tt
Tokenized-Free s r (operator p s' r' h) = (
  λ q (f, e). absurd (omega (arith, (first_visible q).1, token_large p, f)),
  (blank-Alone r', Tokenized-Free s' r' h),
)
Tokenized-Free s r (byte x s' r' a h) = (Alone-Tokenized x s' r' h a, Tokenized-Free s' r' h)

-- A byte that is not one of the tokens.
abbrev pub IsPlain : ℕ → Type 0
IsPlain c = pair_of c ≡ none

expand-cons : (x : ℕ) (r : Bytes) → IsPlain x → expand (x ∷ r) ≡ x ∷ expand r
unfolding expand
expand-cons x [] h = refl
expand-cons x (y ∷ r) h = rw h refl

expand-token : (p : Pair) (r : Bytes) → expand (token p ∷ b' ' ∷ r) ≡ first p ∷ second p ∷ expand r
unfolding expand
expand-token p r = rw (token_known p) refl

expand-Tokenized : (s r : Bytes) → Tokenized s r → All IsPlain s → expand r ≡ s
expand-Tokenized s r nothing a = unfold expand in refl
expand-Tokenized s r (operator p s' r' h) (b, (c, a)) =
    expand-token p r' ∙ ap (λ t. first p ∷ second p ∷ t) (expand-Tokenized s' r' h a)
expand-Tokenized s r (byte x s' r' b h) (c, a) =
    expand-cons x r' c ∙ ap (◌∷◌ x) (expand-Tokenized s' r' h a)

-- `fix_operations` replaces the operators of two characters from the left, each by its token and a
-- blank, and nothing else. No operator is left. The text, which has none of the tokens, comes back when
-- the tokens are written out.
pub fix_operations_lem :
    (s : Bytes)
    → All IsPlain s
    → Tokenized s (fix_operations s) × Free (fix_operations s) × (expand (fix_operations s) ≡ s)
fix_operations_lem s a =
    let h = fix_operations-Tokenized s in
    (h, Tokenized-Free s (fix_operations s) h, expand-Tokenized s (fix_operations s) h a)
