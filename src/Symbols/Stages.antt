-- ===== src/Symbols/Stages.antt =====
-- attic/staging.c: the symbol operations of each stage. Stage 1 only checks.
use asmc.Prelude.{
  ℕ, ◌<◌, Option, none, some, List, [], ◌∷◌, ◌≡◌, ◌≢◌, sym, ap, ◌∙◌, ◌⊎◌, inl, inr, arith, ◌==◌,
  ◌||◌, ◌&&◌, if◌then◌else◌, length, Bool-cases,
}
use asmc.Cstring.{Bytes, same}
use asmc.Run.{done, stop, panic}
use asmc.Globals.{Globals, Symbol}
use asmc.Symbols.{
  placeholder, get_symbol_idx, find_symbol, add_symbol, add_symbol_wrapper, set_loc, fix_loc,
  fix_symbol_placeholder,
}
use asmc.Symbols.Lookup.{find_symbol_cons, find_symbol_nil, missing, found, lookup_view}

-- Writing back the location that is there changes nothing.
pub set_loc_self :
    (name : Bytes) (t : List Symbol) (l a : ℕ)
    → find_symbol name t ≡ some (l, a)
    → set_loc t (get_symbol_idx name t) l ≡ t
unfolding get_symbol_idx set_loc
set_loc_self name [] l a e =
    let p : ◌≡◌ {A = Option (ℕ × ℕ)} none (some (l, a)) = sym (find_symbol_nil name) ∙ e in
    absurd (ground arith)
set_loc_self name (s ∷ t) l a e = elim (Bool-cases (same name s.name)) [
  | inl p ↦ rw p (ground (arith, find_symbol_cons name s t))
  | inr p ↦ rw p (ap (◌∷◌ s) (set_loc_self name t l a (ground (arith, find_symbol_cons name s t))))
]

pub wrapper-found :
    (name : Bytes) (loc arity l a : ℕ) (g : Globals)
    → g.stage ≡ 1
    → find_symbol name g.symbols ≡ some (l, a)
    → add_symbol_wrapper name loc arity g
      ≡ (if loc == l then (if arity == a then done tt g else stop panic) else stop panic)
unfolding add_symbol_wrapper
wrapper-found name loc arity l a g s e = ground arith

pub wrapper-missing :
    (name : Bytes) (loc arity : ℕ) (g : Globals)
    → g.stage ≡ 1
    → find_symbol name g.symbols ≡ none
    → add_symbol_wrapper name loc arity g ≡ stop panic
unfolding add_symbol_wrapper
wrapper-missing name loc arity g s e = ground arith

-- In stage 1 `add_symbol_wrapper` either changes nothing or panics, and it goes on exactly when the
-- table has the symbol, with the same location and the same arity.
pub add_symbol_wrapper-stage_one :
    (name : Bytes) (loc arity : ℕ) (g : Globals)
    → g.stage ≡ 1
    → ((find_symbol name g.symbols ≡ some (loc, arity))
        × (add_symbol_wrapper name loc arity g ≡ done tt g))
      ⊎ ((find_symbol name g.symbols ≢ some (loc, arity))
          × (add_symbol_wrapper name loc arity g ≡ stop panic))
add_symbol_wrapper-stage_one name loc arity g s = elim (lookup_view name g.symbols) [
  | missing e i ↦ inr (ground arith, wrapper-missing name loc arity g s e)
  | found l a e i ↦ ground (arith, wrapper-found name loc arity l a g s e)
]

pub fix-found :
    (name : Bytes) (loc arity l a : ℕ) (g : Globals)
    → find_symbol name g.symbols ≡ some (l, a)
    → get_symbol_idx name g.symbols < length g.symbols
    → fix_symbol_placeholder name loc arity g ≡ (
        if arity == a
        then (if loc == l || (g.stage == 0 && l == placeholder)
            then done tt (fix_loc name loc g)
            else stop panic)
        else stop panic)
unfolding fix_symbol_placeholder
fix-found name loc arity l a g e i = ground arith

pub fix-missing :
    (name : Bytes) (loc arity : ℕ) (g : Globals)
    → find_symbol name g.symbols ≡ none
    → fix_symbol_placeholder name loc arity g
      ≡ (if g.stage == 0 then add_symbol name loc arity g else stop panic)
unfolding fix_symbol_placeholder
fix-missing name loc arity g e = ground arith

fix_loc_self :
    (name : Bytes) (l a : ℕ) (g : Globals)
    → find_symbol name g.symbols ≡ some (l, a)
    → fix_loc name l g ≡ g
fix_loc_self name l a g e = ap (λ t. record g { symbols = t }) (set_loc_self name g.symbols l a e)

-- In stage 1 `fix_symbol_placeholder` either changes nothing or panics, and it goes on exactly when
-- the table has the symbol, with the same location and the same arity.
pub fix_symbol_placeholder-stage_one :
    (name : Bytes) (loc arity : ℕ) (g : Globals)
    → g.stage ≡ 1
    → ((find_symbol name g.symbols ≡ some (loc, arity))
        × (fix_symbol_placeholder name loc arity g ≡ done tt g))
      ⊎ ((find_symbol name g.symbols ≢ some (loc, arity))
          × (fix_symbol_placeholder name loc arity g ≡ stop panic))
fix_symbol_placeholder-stage_one name loc arity g s = elim (lookup_view name g.symbols) [
  | missing e i ↦ inr (ground arith, ground (arith, fix-missing name loc arity g e))
  | found l a e i ↦ ground (arith, fix-found name loc arity l a g e i, fix_loc_self name l a g e)
]
