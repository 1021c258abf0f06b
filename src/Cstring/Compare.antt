-- ===== src/Cstring/Compare.antt =====
-- attic/staging.c: `strcmp2` and `isstrpref2` against what they decide.
use asmc.Prelude.{
  ℕ, ◌<◌, true, false, [], ◌∷◌, ◌++◌, ◌≡◌, ◌≢◌, ◌↔◌, ◌⊎◌, inl, inr, refl, arith, Bool-cases,
}
use asmc.Cstring.{Bytes, IsCbyte, IsCstring, minus_one, strcmp_round, strcmp, same, isstrpref}

pub strcmp_refl : (s : Bytes) → strcmp s s ≡ 0
unfolding strcmp
strcmp_refl [] = refl
strcmp_refl (x ∷ s) = ground (arith, strcmp_refl s)

pub same_refl : (s : Bytes) → same s s ≡ true
same_refl s = ground (arith, strcmp_refl s)

strcmp_round-zero : (a b r : ℕ) → IsCbyte a → IsCbyte b → strcmp_round a b r ≡ 0 → (a ≡ b) × (r ≡ 0)
strcmp_round-zero a b r h k e = ground arith

strcmp-zero : (s1 s2 : Bytes) → IsCstring s1 → IsCstring s2 → strcmp s1 s2 ≡ 0 → s1 ≡ s2
unfolding strcmp
strcmp-zero [] [] h k e = refl
strcmp-zero [] (y ∷ s2) h (ky, k) e = ground arith
strcmp-zero (x ∷ s1) [] (hx, h) k e = ground arith
strcmp-zero (x ∷ s1) (y ∷ s2) (hx, h) (ky, k) e =
    let (p, q) = strcmp_round-zero x y (strcmp s1 s2) hx ky e in rw (p, strcmp-zero s1 s2 h k q)

-- On C strings `strcmp` returns 0 exactly when the two strings are equal.
pub strcmp-eq-zero_iff :
    (s1 s2 : Bytes) → IsCstring s1 → IsCstring s2 → (strcmp s1 s2 ≡ 0) ↔ (s1 ≡ s2)
strcmp-eq-zero_iff s1 s2 h k = (strcmp-zero s1 s2 h k, λ e. rw e (strcmp_refl s2))

pub same_iff : (s1 s2 : Bytes) → IsCstring s1 → IsCstring s2 → (same s1 s2 ≡ true) ↔ (s1 ≡ s2)
same_iff s1 s2 h k = (λ e. strcmp-zero s1 s2 h k (ground arith), λ e. rw e (same_refl s2))

pub same-false : (s1 s2 : Bytes) → IsCstring s1 → IsCstring s2 → s1 ≢ s2 → same s1 s2 ≡ false
same-false s1 s2 h k n = elim (Bool-cases (same s1 s2)) [
  | inl e ↦ absurd (n ((same_iff s1 s2 h k).0 e))
  | inr e ↦ e
]

strcmp_round-sign :
    (x y r r' : ℕ)
    → (r ≡ 0) × (r' ≡ 0) ⊎ ((r ≡ 1) × (r' ≡ minus_one) ⊎ (r ≡ minus_one) × (r' ≡ 1))
    → x < 256
    → y < 256
    → (strcmp_round x y r ≡ 0) × (strcmp_round y x r' ≡ 0)
      ⊎ ((strcmp_round x y r ≡ 1) × (strcmp_round y x r' ≡ minus_one)
          ⊎ (strcmp_round x y r ≡ minus_one) × (strcmp_round y x r' ≡ 1))
strcmp_round-sign x y r r' h hx hy = ground arith

-- On C strings the result of `strcmp` is one of -1, 0 and 1, and has the other sign when the
-- arguments are exchanged.
strcmp_sign :
    (s1 s2 : Bytes)
    → IsCstring s1
    → IsCstring s2
    → (strcmp s1 s2 ≡ 0) × (strcmp s2 s1 ≡ 0)
      ⊎ ((strcmp s1 s2 ≡ 1) × (strcmp s2 s1 ≡ minus_one)
          ⊎ (strcmp s1 s2 ≡ minus_one) × (strcmp s2 s1 ≡ 1))
unfolding strcmp
strcmp_sign [] [] h k = inl (refl, refl)
strcmp_sign [] (y ∷ s2) h (ky, k) = strcmp_round-sign 0 y 0 0 (inl (refl, refl)) (omega arith) ky.1
strcmp_sign (x ∷ s1) [] (hx, h) k = strcmp_round-sign x 0 0 0 (inl (refl, refl)) hx.1 (omega arith)
strcmp_sign (x ∷ s1) (y ∷ s2) (hx, h) (ky, k) =
    strcmp_round-sign x y _ _ (strcmp_sign s1 s2 h k) hx.1 ky.1

isstrpref→prefix : (s1 s2 : Bytes) → isstrpref s1 s2 ≡ true → (rest : Bytes) × (s2 ≡ s1 ++ rest)
unfolding isstrpref
isstrpref→prefix [] s2 e = (s2, refl)
isstrpref→prefix (x ∷ s1) [] e = cc
isstrpref→prefix (x ∷ s1) (y ∷ s2) e =
    let (rest, p) = isstrpref→prefix s1 s2 (ground arith) in (rest, ground arith)

isstrpref-append : (s1 rest : Bytes) → isstrpref s1 (s1 ++ rest) ≡ true
unfolding isstrpref
isstrpref-append [] rest = refl
isstrpref-append (x ∷ s1) rest = ground (arith, isstrpref-append s1 rest)

-- `isstrpref` accepts its second argument exactly when that begins with the first.
isstrpref_iff : (s1 s2 : Bytes) → (isstrpref s1 s2 ≡ true) ↔ ((rest : Bytes) × (s2 ≡ s1 ++ rest))
isstrpref_iff s1 s2 = (isstrpref→prefix s1 s2, λ (rest, e). rw e (isstrpref-append s1 rest))
