-- ===== src/Symbols/Outcomes.antt =====
-- attic/staging.c: the globals in which each symbol operation can end, as one rule for each, and the
-- interface that a relation on the globals has to meet to be kept by all that the programs do.
use asmc.Prelude.{
  ℕ, Bool, true, false, none, some, ◌≡◌, ◌≢◌, refl, ◌⊎◌, inl, inr, arith, ◌==◌, if◌then◌else◌,
  Bool-cases, ◌||◌, ◌&&◌,
}
use asmc.Cstring.{Bytes}
use asmc.Run.{Stop, done, stop, panic, fault}
use asmc.Globals.{Globals, Result, emit}
use asmc.Run.Keeps.{Ends, StepRelation, Keeps, keeps}
use asmc.Globals.Layout.{Lays, Lays_quiet, layout, layout-emit}
use asmc.Symbols.{
  placeholder, find_symbol, append_symbol, add_symbol, add_symbol_wrapper, add_symbol_placeholder,
  fix_loc, fix_symbol_placeholder,
}
use asmc.Symbols.Lookup.{missing, found, lookup_view}
use asmc.Symbols.Update.{CanAdd, added, refused, add_view}
use asmc.Symbols.Stages.{set_loc_self, fix-found, fix-missing, wrapper-found, wrapper-missing}

module _ (Q : Globals → Type 0) (E : Stop → Type 0) (may_panic : E panic) (name : Bytes) where
  add_symbol-Ends :
      (loc arity : ℕ) (g : Globals)
      → (CanAdd name g.symbols → Q (append_symbol name loc arity g))
      → Ends Q E (add_symbol name loc arity g)
  add_symbol-Ends loc arity g h = elim (add_view name loc arity g) [
    | added c e ↦ rw e (h c)
    | refused e ↦ rw e may_panic
  ]

  wrapper_zero :
      (loc arity : ℕ) (g : Globals)
      → g.stage ≡ 0
      → add_symbol_wrapper name loc arity g ≡ add_symbol name loc arity g
  unfolding add_symbol_wrapper
  wrapper_zero loc arity g s = rw s

  wrapper_other :
      (loc arity : ℕ) (g : Globals)
      → g.stage ≢ 0
      → g.stage ≢ 1
      → add_symbol_wrapper name loc arity g ≡ stop panic
  unfolding add_symbol_wrapper
  wrapper_other loc arity g s t = ground arith

  Ends-if :
      (b : Bool) (r : Result (Unit {0}))
      → (b ≡ true → Ends Q E r)
      → Ends Q E (if b then r else stop panic)
  Ends-if true r h = h refl
  Ends-if false r h = may_panic

  pub add_symbol_wrapper-Ends :
      (loc arity : ℕ) (g : Globals)
      → Q g
      → (g.stage ≡ 0 → CanAdd name g.symbols → Q (append_symbol name loc arity g))
      → Ends Q E (add_symbol_wrapper name loc arity g)
  add_symbol_wrapper-Ends loc arity g q h = elim (Bool-cases (g.stage == 0)) [
    | inl z ↦
        let z' : g.stage ≡ 0 = ground arith in
        rw (wrapper_zero loc arity g z') (add_symbol-Ends loc arity g (h z'))
    | inr z ↦ elim (Bool-cases (g.stage == 1)) [
      | inr o ↦ rw (wrapper_other loc arity g (ground arith) (ground arith)) may_panic
      | inl o ↦
          let o' : g.stage ≡ 1 = ground arith in
          elim (lookup_view name g.symbols) [
            | missing e i ↦ rw (wrapper-missing name loc arity g o' e) may_panic
            | found l a e i ↦
                rw (wrapper-found name loc arity l a g o' e)
                  (Ends-if (loc == l) _ (λ _. Ends-if (arity == a) _ (λ _. q)))
          ]
    ]
  ]

  placeholder-found :
      (arity l a : ℕ) (g : Globals)
      → find_symbol name g.symbols ≡ some (l, a)
      → add_symbol_placeholder name arity g ≡ (if arity == a then done tt g else stop panic)
  unfolding add_symbol_placeholder
  placeholder-found arity l a g e = ground arith

  placeholder-missing :
      (arity : ℕ) (g : Globals)
      → find_symbol name g.symbols ≡ none
      → add_symbol_placeholder name arity g
        ≡ (if g.stage == 0 then add_symbol name placeholder arity g else stop panic)
  unfolding add_symbol_placeholder
  placeholder-missing arity g e = ground arith

  pub add_symbol_placeholder-Ends :
      (arity : ℕ) (g : Globals)
      → Q g
      → (g.stage ≡ 0 → CanAdd name g.symbols → Q (append_symbol name placeholder arity g))
      → Ends Q E (add_symbol_placeholder name arity g)
  add_symbol_placeholder-Ends arity g q h = elim (lookup_view name g.symbols) [
    | missing e i ↦
        rw (placeholder-missing arity g e)
          (Ends-if (g.stage == 0) _ (λ z. add_symbol-Ends placeholder arity g (h (ground arith))))
    | found l a e i ↦ rw (placeholder-found arity l a g e) (Ends-if (arity == a) _ (λ _. q))
  ]

  -- The location that is written back is the old one, or replaces the placeholder in stage 0.
  pub fix_symbol_placeholder-Ends :
      (loc arity : ℕ) (g : Globals)
      → (g.stage ≡ 0 → CanAdd name g.symbols → Q (append_symbol name loc arity g))
      → ((l : ℕ)
          → find_symbol name g.symbols ≡ some (l, arity)
          → (loc ≡ l) ⊎ ((g.stage ≡ 0) × (l ≡ placeholder))
          → Q (fix_loc name loc g))
      → Ends Q E (fix_symbol_placeholder name loc arity g)
  fix_symbol_placeholder-Ends loc arity g h k = elim (lookup_view name g.symbols) [
    | missing e i ↦
        rw (fix-missing name loc arity g e)
          (Ends-if (g.stage == 0) _ (λ z. add_symbol-Ends loc arity g (h (ground arith))))
    | found l a e i ↦ rw (fix-found name loc arity l a g e i) (
        Ends-if (arity == a) _ (λ p.
          Ends-if (loc == l || (g.stage == 0 && l == placeholder)) _
            (λ q. k l (ground arith) (ground arith))))
  ]

-- What a relation must be kept by: the emission of a byte and the three symbol operations.
pub record Primitives (S : StepRelation Globals) : Type 0 where
  pub fault_allowed : S.Allowed fault
  pub emit_kept : (c : ℕ) → Keeps S (emit c)
  pub wrapper_kept : (name : Bytes) (loc arity : ℕ) → Keeps S (add_symbol_wrapper name loc arity)
  pub placeholder_kept : (name : Bytes) (arity : ℕ) → Keeps S (add_symbol_placeholder name arity)
  pub fix_kept : (name : Bytes) (loc arity : ℕ) → Keeps S (fix_symbol_placeholder name loc arity)

-- The relation holds between globals that agree in the stage, the location, the output and the
-- symbols.
abbrev pub IsQuiet : StepRelation Globals → Type 0
IsQuiet S =
    (g h : Globals)
    → h.stage ≡ g.stage
    → h.current_loc ≡ g.current_loc
    → h.output ≡ g.output
    → h.symbols ≡ g.symbols
    → S.Rel g h

fixed_in_stage_one :
    (g : Globals) (name : Bytes) (loc arity l : ℕ)
    → g.stage ≡ 1
    → find_symbol name g.symbols ≡ some (l, arity)
    → (loc ≡ l) ⊎ ((g.stage ≡ 0) × (l ≡ placeholder))
    → (fix_loc name loc g).symbols ≡ g.symbols
fixed_in_stage_one g name loc arity l o e (inl p) = rw p (set_loc_self name g.symbols l arity e)
fixed_in_stage_one g name loc arity l o e (inr (z, p)) = absurd (ground arith)

pub layout-Primitives : Primitives layout
layout-Primitives = record {
  fault_allowed = tt;
  emit_kept = layout-emit;
  wrapper_kept = λ name loc arity. keeps λ g.
      add_symbol_wrapper-Ends (Lays g) (λ e. Unit) tt name loc arity g (layout.rel_refl g)
        (λ z c. Lays_quiet g _ refl refl refl (λ o. absurd (ground arith)));
  placeholder_kept = λ name arity. keeps λ g.
      add_symbol_placeholder-Ends (Lays g) (λ e. Unit) tt name arity g (layout.rel_refl g)
        (λ z c. Lays_quiet g _ refl refl refl (λ o. absurd (ground arith)));
  fix_kept = λ name loc arity. keeps λ g.
      fix_symbol_placeholder-Ends (Lays g) (λ e. Unit) tt name loc arity g
        (λ z c. Lays_quiet g _ refl refl refl (λ o. absurd (ground arith)))
        (λ l e w. Lays_quiet g _ refl refl refl (λ o. fixed_in_stage_one g name loc arity l o e w));
}

pub layout-IsQuiet : IsQuiet layout
layout-IsQuiet g h s l o t = Lays_quiet g h s l o (λ _. t)
