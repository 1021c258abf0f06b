-- ===== src/Cc/Matching.antt =====
-- cc/cc.c: `find_matching` on well nested text.
use asmc.Prelude.{
  ℕ, suc, ◌+◌, ◌<◌, ◌^◌, Option, none, some, [], ◌∷◌, ◌++◌, ◌≡◌, refl, sym, ap, ◌∙◌, ◌≢◌, arith,
  option, length, length-append,
}
use mathlib.Core.List.{append_assoc}
use asmc.Cstring.{Bytes}
use asmc.Cc.Text.{next_depth, match_from, find_matching}

-- Text in which every `opening` has its `closing`.
pub data Balanced (opening closing : ℕ) : Bytes → Type 0 where
  empty : Balanced opening closing []
  other :
      (c : ℕ) (s : Bytes)
      → c ≢ opening
      → c ≢ closing
      → Balanced opening closing s
      → Balanced opening closing (c ∷ s)
  group :
      (s t : Bytes)
      → Balanced opening closing s
      → Balanced opening closing t
      → Balanced opening closing (opening ∷ s ++ closing ∷ t)

abbrev shift : ℕ → Option ℕ → Option ℕ
shift k o = option o none (λ i. some (k + i))

module _ (opening closing : ℕ) (distinct : opening ≢ closing) where
  match_from_cons :
      (d d' c : ℕ) (s : Bytes)
      → next_depth opening closing d c ≡ d'
      → 0 < d'
      → match_from opening closing d (c ∷ s) ≡ shift 1 (match_from opening closing d' s)
  unfolding match_from
  match_from_cons d d' c s e h = ground arith

  shift-shift : (k l m : ℕ) (o : Option ℕ) → k + l ≡ m → shift k (shift l o) ≡ shift m o
  shift-shift k l m none e = refl
  shift-shift k l m (some i) e = ground arith

  shift-zero : (o : Option ℕ) → shift 0 o ≡ o
  shift-zero none = refl
  shift-zero (some i) = ground arith

  shifts :
      (k l m : ℕ) (o : Option ℕ)
      → m ≡ k + suc l
      → shift 1 (shift k (shift 1 (shift l o))) ≡ shift (suc m) o
  shifts k l m none e = refl
  shifts k l m (some i) e = ground arith

  opened_depth : (d : ℕ) → suc d < 2 ^ 32 → next_depth opening closing d opening ≡ suc d
  opened_depth d h = ground arith

  closed_depth : (d : ℕ) → d < 2 ^ 32 → next_depth opening closing (suc d) closing ≡ d
  closed_depth d h = ground arith

  ends : (rest : Bytes) → match_from opening closing 1 (closing ∷ rest) ≡ some 0
  unfolding match_from
  ends rest = ground arith

  -- Inside of a pair, text that is balanced is passed over.
  skip :
      {s : Bytes}
      → Balanced opening closing s
      → (t : Bytes) (d : ℕ) → 0 < d
      → d + length s < 2 ^ 32
      → match_from opening closing d (s ++ t) ≡ shift (length s) (match_from opening closing d t)
  skip empty t d h k = sym (shift-zero _)
  skip (other c s n m b) t d h k =
      match_from_cons d d c (s ++ t) (ground arith) h
      ∙ ap (shift 1) (skip b t d h (omega arith))
      ∙ shift-shift 1 (length s) (suc (length s)) _ (omega arith)
  skip (group s u b b') t d h k =
      let l : length (s ++ closing ∷ u) ≡ length s + suc (length u) =
        length-append s (closing ∷ u) in
      match_from_cons d (suc d) opening _ (opened_depth d (omega (arith, l))) (omega arith)
      ∙ ap (λ r. shift 1 (match_from opening closing (suc d) r)) (append_assoc s (closing ∷ u) t)
      ∙ ap (shift 1) (skip b (closing ∷ u ++ t) (suc d) (omega arith) (omega (arith, l)))
      ∙ ap (λ o. shift 1 (shift (length s) o))
          (match_from_cons (suc d) d closing (u ++ t) (closed_depth d (omega arith)) h)
      ∙ ap (λ o. shift 1 (shift (length s) (shift 1 o))) (skip b' t d h (omega (arith, l)))
      ∙ shifts (length s) (length u) _ _ l

  -- `find_matching` finds the byte that closes the pair which its piece begins with, when the text
  -- between the two is balanced and shorter than 2 ^ 31 bytes.
  pub find_matching-Balanced :
      (inner rest : Bytes)
      → Balanced opening closing inner
      → length inner < 2 ^ 31
      → find_matching opening closing (opening ∷ inner ++ closing ∷ rest)
        ≡ some (suc (length inner))
  unfolding find_matching
  find_matching-Balanced inner rest b k =
      match_from_cons 0 1 opening _ (ground arith) (omega arith)
      ∙ ap (shift 1) (skip b (closing ∷ rest) 1 (omega arith) (omega arith))
      ∙ ap (λ o. shift 1 (shift (length inner) o)) (ends rest)
      ∙ ground arith
