-- ===== src/Cstring/Find.antt =====
-- attic/staging.c: `find_char2` finds the first occurrence.
use asmc.Prelude.{
  ℕ, suc, ◌⊎◌, inl, inr, Bool-cases, some, [], ◌∷◌, ◌++◌, ◌≡◌, ◌≢◌, ◌↔◌, ap, arith, ◌==◌, length,
  All, Option-cases,
}
use asmc.Cstring.{Bytes, find_char}

-- `c` does not occur in the string.
abbrev pub Lacks : ℕ → Bytes → Type 0
Lacks c = All λ x. x ≢ c

-- `c` stands at position `i` of `s`, and nowhere before it.
abbrev pub FirstAt : Bytes → ℕ → ℕ → Type 0
FirstAt s c i =
    (before : Bytes) × (after : Bytes) × (s ≡ before ++ c ∷ after)
    × (length before ≡ i)
    × Lacks c before

pub find_char-append :
    (before after : Bytes) (c : ℕ)
    → Lacks c before
    → find_char (before ++ c ∷ after) c ≡ some (length before)
unfolding find_char
find_char-append [] after c h = ground arith
find_char-append (x ∷ before) after c (hx, h) = ground (arith, find_char-append before after c h)

FirstAt-cons : (x : ℕ) (s : Bytes) (c j : ℕ) → x ≢ c → FirstAt s c j → FirstAt (x ∷ s) c (suc j)
FirstAt-cons x s c j n (before, after, e, l, h) =
    (x ∷ before, after, ap (◌∷◌ x) e, ap suc l, (n, h))

find_char_cons :
    (x : ℕ) (s : Bytes) (c i : ℕ)
    → find_char (x ∷ s) c ≡ some i
    → ((x ≡ c) × (i ≡ 0)) ⊎ ((j : ℕ) × (x ≢ c) × (find_char s c ≡ some j) × (i ≡ suc j))
unfolding find_char
find_char_cons x s c i e = elim (Bool-cases (x == c)) [
  | inl p ↦ inl (ground arith)
  | inr p ↦ elim (Option-cases (find_char s c)) [
    | inl q ↦ absurd (ground arith)
    | inr (j, q) ↦ inr (j, ground arith, q, ground arith)
  ]
]

find_char-FirstAt : (s : Bytes) (c i : ℕ) → c ≢ 0 → find_char s c ≡ some i → FirstAt s c i
find_char-FirstAt [] c i n e = unfold find_char in absurd (ground arith)
find_char-FirstAt (x ∷ s) c i n e = elim (find_char_cons x s c i e) [
  | inl (p, q) ↦ ([], s, rw p, ground arith, tt)
  | inr (j, p, q, r) ↦ rw r (FirstAt-cons x s c j p (find_char-FirstAt s c j n q))
]

-- For a byte other than NUL, `find_char` returns `i` exactly when the byte stands at `i` and
-- nowhere before.
pub find_char_iff : (s : Bytes) (c i : ℕ) → c ≢ 0 → (find_char s c ≡ some i) ↔ FirstAt s c i
find_char_iff s c i n = (
  find_char-FirstAt s c i n,
  λ (before, after, e, l, h). rw (e, ← l) (find_char-append before after c h),
)
