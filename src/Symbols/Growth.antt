-- ===== src/Symbols/Growth.antt =====
-- attic/staging.c: a symbol that has been added keeps its place and its arity, and its location
-- unless that was a placeholder.
use asmc.Prelude.{
  ℕ, Option, none, some, List, [], ◌∷◌, ◌++◌, ◌≡◌, refl, sym, ◌∙◌, ◌⊎◌, inl, inr, arith, Bool-cases,
}
use mathlib.Core.Path.{subst}
use asmc.Cstring.{Bytes, same}
use asmc.Globals.{Globals, Symbol, emit}
use asmc.Run.Keeps.{StepRelation, keeps}
use asmc.Symbols.{placeholder, get_symbol_idx, find_symbol, set_loc}
use asmc.Symbols.Lookup.{find_symbol_cons, find_symbol_nil}
use asmc.Symbols.Outcomes.{
  Primitives, IsQuiet, add_symbol_wrapper-Ends, add_symbol_placeholder-Ends,
  fix_symbol_placeholder-Ends,
}

-- The same symbol later: only a placeholder may have got its location.
pub record Settles (s s' : Symbol) : Type 0 where
  pub same_name : s'.name ≡ s.name
  pub same_arity : s'.arity ≡ s.arity
  pub same_loc : (s'.loc ≡ s.loc) ⊎ (s.loc ≡ placeholder)

abbrev pub Grows : List Symbol → List Symbol → Type 0
Grows [] u = Unit
Grows (s ∷ t) [] = ⊥
Grows (s ∷ t) (s' ∷ u) = Settles s s' × Grows t u

Settles-refl : (s : Symbol) → Settles s s
Settles-refl s = record { same_name = refl; same_arity = refl; same_loc = inl refl }

Settles-trans : (s t u : Symbol) → Settles s t → Settles t u → Settles s u
Settles-trans s t u p q = ground arith

pub Grows-refl : (t : List Symbol) → Grows t t
Grows-refl [] = tt
Grows-refl (s ∷ t) = (Settles-refl s, Grows-refl t)

pub Grows-trans : (t u v : List Symbol) → Grows t u → Grows u v → Grows t v
Grows-trans [] u v p q = tt
Grows-trans (s ∷ t) [] v p q = elim p [ ]
Grows-trans (s ∷ t) (s' ∷ u) [] p q = elim q [ ]
Grows-trans (s ∷ t) (s' ∷ u) (s'' ∷ v) (p, ps) (q, qs) =
    (Settles-trans s s' s'' p q, Grows-trans t u v ps qs)

Grows-append : (t u : List Symbol) → Grows t (t ++ u)
Grows-append [] u = tt
Grows-append (s ∷ t) u = (Settles-refl s, Grows-append t u)

Grows-set_loc :
    (name : Bytes) (t : List Symbol) (loc l a : ℕ)
    → find_symbol name t ≡ some (l, a)
    → (loc ≡ l) ⊎ (l ≡ placeholder)
    → Grows t (set_loc t (get_symbol_idx name t) loc)
unfolding get_symbol_idx set_loc
Grows-set_loc name [] loc l a e h = tt
Grows-set_loc name (s ∷ t) loc l a e h = elim (Bool-cases (same name s.name)) [
  | inl p ↦ rw p (first (ground (arith, find_symbol_cons name s t)), Grows-refl t)
  | inr p ↦
      rw p
        (Settles-refl s, Grows-set_loc name t loc l a (ground (arith, find_symbol_cons name s t)) h)
]
  where
    first : l ≡ s.loc → Settles s (record s { loc = loc })
    first e' = record { same_name = refl; same_arity = refl; same_loc = ground arith }

-- In a table that has grown, what was found is still found, with the same arity, and its location
-- has changed only if it was a placeholder.
pub find_symbol-Grows :
    (name : Bytes) (t u : List Symbol) (loc arity : ℕ)
    → Grows t u
    → find_symbol name t ≡ some (loc, arity)
    → (loc' : ℕ) × (find_symbol name u ≡ some (loc', arity)) × ((loc' ≡ loc) ⊎ (loc ≡ placeholder))
find_symbol-Grows name [] u loc arity g e =
    let p : ◌≡◌ {A = Option (ℕ × ℕ)} none (some (loc, arity)) = sym (find_symbol_nil name) ∙ e in
    absurd (ground arith)
find_symbol-Grows name (s ∷ t) [] loc arity g e = elim g [ ]
find_symbol-Grows name (s ∷ t) (s' ∷ u) loc arity (p, g) e = elim (Bool-cases (same name s.name)) [
  | inl q ↦ (
    s'.loc,
    ground (arith, find_symbol_cons name s t, find_symbol_cons name s' u),
    ground (arith, find_symbol_cons name s t),
  )
  | inr q ↦
      let (l, f, w) =
        find_symbol-Grows name t u loc arity g (ground (arith, find_symbol_cons name s t)) in
      (l, ground (arith, find_symbol_cons name s' u), w)
]

abbrev pub growth : StepRelation Globals
growth = record {
  Rel = λ g h. Grows g.symbols h.symbols;
  rel_refl = λ g. Grows-refl g.symbols;
  rel_trans = λ g h k. Grows-trans g.symbols h.symbols k.symbols;
  Allowed = λ e. Unit;
  panic_allowed = tt;
}

either : {A B C : Type 0} → (A ⊎ (B × C)) → A ⊎ C
either (inl a) = inl a
either (inr (b, c)) = inr c

pub growth-Primitives : Primitives growth
growth-Primitives = record {
  fault_allowed = tt;
  emit_kept = λ c. keeps λ g. unfold emit in Grows-refl g.symbols;
  wrapper_kept = λ name loc arity. keeps λ g.
      add_symbol_wrapper-Ends (growth.Rel g) (λ e. Unit) tt name loc arity g (Grows-refl g.symbols)
        (λ z c. Grows-append g.symbols _);
  placeholder_kept = λ name arity. keeps λ g.
      add_symbol_placeholder-Ends (growth.Rel g) (λ e. Unit) tt name arity g (Grows-refl g.symbols)
        (λ z c. Grows-append g.symbols _);
  fix_kept = λ name loc arity. keeps λ g.
      fix_symbol_placeholder-Ends (growth.Rel g) (λ e. Unit) tt name loc arity g
        (λ z c. Grows-append g.symbols _)
        (λ l e w. Grows-set_loc name g.symbols loc l arity e (either w));
}

pub growth-IsQuiet : IsQuiet growth
growth-IsQuiet g h s l o t = subst (Grows g.symbols) (sym t) (Grows-refl g.symbols)
