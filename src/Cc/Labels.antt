-- ===== src/Cc/Labels.antt =====
-- cc/cc.c: the search for a symbol in the table, and what `add_symbol` does to the table.
use asmc.Prelude.{
  ℕ, zero, suc, ◌<◌, ◌≤◌, Bool, true, false, some, List, [], ◌∷◌, ◌++◌, ◌⊎◌, ◌≢◌, ◌≡◌, refl, ap,
  ◌∙◌, arith, inl, inr, length, get_elem?, All,
}
use asmc.Cstring.{Bytes, IsCstring, strlen}
use asmc.Cc.Names.{equal, strncmp2, strncmp2-equal}
use asmc.Run.{done}
use asmc.Cc.Tables.{Label, CcGlobals, label_idx, find_symbol, append_label, add_symbol}

pub label_idx-strncmp2 :
    (piece : Bytes) (t : List Label)
    → All (λ s. IsCstring s.name) t
    → label_idx (strncmp2 piece) t ≡ label_idx (equal piece) t
unfolding label_idx
label_idx-strncmp2 piece [] h = refl
label_idx-strncmp2 piece (s ∷ t) (hs, h) =
    rw (strncmp2-equal piece s.name hs, label_idx-strncmp2 piece t h) refl

pub label_idx-le : (test : Bytes → Bool) (t : List Label) → label_idx test t ≤ length t
unfolding label_idx
label_idx-le test [] = omega arith
label_idx-le test (s ∷ t) = ground (arith, label_idx-le test t)

pub label_idx_cons-missing :
    (test : Bytes → Bool) (s : Label) (t : List Label)
    → label_idx test (s ∷ t) ≡ length (s ∷ t)
    → (test s.name ≡ false) × (label_idx test t ≡ length t)
unfolding label_idx
label_idx_cons-missing test s t e = ground (arith, label_idx-le test t)

pub label_idx_cons-skip :
    (test : Bytes → Bool) (s : Label) (t : List Label)
    → test s.name ≡ false
    → label_idx test (s ∷ t) ≡ suc (label_idx test t)
unfolding label_idx
label_idx_cons-skip test s t e = rw e refl

pub label_idx-append :
    (test : Bytes → Bool) (t : List Label) (x : Label)
    → label_idx test t ≡ length t
    → test x.name ≡ true
    → label_idx test (t ++ x ∷ []) ≡ length t
unfolding label_idx
label_idx-append test [] x e h = rw h refl
label_idx-append test (s ∷ t) x e h =
    let (p, q) = label_idx_cons-missing test s t e in
    label_idx_cons-skip test s (t ++ x ∷ []) p ∙ ap suc (label_idx-append test t x q h)

pub get_elem?-last : (t : List Label) (x : Label) → get_elem? (t ++ x ∷ []) (length t) ≡ some x
get_elem?-last [] x = refl
get_elem?-last (s ∷ t) x = get_elem?-last t x

pub add_symbol-done :
    (name : Bytes) (loc : ℕ) (g h : CcGlobals)
    → g.stage ≡ 0
    → add_symbol name loc g ≡ done tt h
    → (0 < strlen name)
      × (strlen name < 128)
      × (length g.labels < 1024)
      × (label_idx (equal name) g.labels ≡ length g.labels)
      × (h ≡ append_label name loc g)
unfolding add_symbol find_symbol
add_symbol-done name loc g h s e = ground (arith, label_idx-le (equal name) g.labels)

pub elem-append :
    (t : List Label) (x s : Label) (i : ℕ)
    → get_elem? (t ++ x ∷ []) i ≡ some s
    → ((get_elem? t i ≡ some s) × (i < length t)) ⊎ ((s ≡ x) × (i ≡ length t))
elem-append [] x s zero e = inr (ground arith, refl)
elem-append [] x s (suc i) e = absurd (ground arith)
elem-append (y ∷ t) x s zero e = inl (e, omega arith)
elem-append (y ∷ t) x s (suc i) e = elim (elem-append t x s i e) [
  | inl (p, q) ↦ inl (p, omega arith)
  | inr (p, q) ↦ inr (p, ap suc q)
]

pub label_idx-append_old :
    (name : Bytes) (t u : List Label)
    → label_idx (equal name) t < length t
    → label_idx (equal name) (t ++ u) ≡ label_idx (equal name) t
unfolding label_idx
label_idx-append_old name [] u h = elim h [ ]
label_idx-append_old name (s ∷ t) u h = ground (arith, label_idx-append_old name t u)

pub add_symbol-labels :
    (name : Bytes) (loc : ℕ) (g h : CcGlobals)
    → g.stage ≢ 0
    → add_symbol name loc g ≡ done tt h
    → h.labels ≡ g.labels
unfolding add_symbol
add_symbol-labels name loc g h z e = ground arith
