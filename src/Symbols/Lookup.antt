-- ===== src/Symbols/Lookup.antt =====
-- attic/staging.c: `get_symbol_idx2` and `find_symbol2`, and a table that grows at its end.
use asmc.Prelude.{
  ℕ, suc, ◌≤◌, ◌<◌, false, Option, none, some, List, [], ◌∷◌, ◌++◌, ◌≡◌, refl, ap, ◌∙◌, inl, inr,
  arith, if◌then◌else◌, length, Bool-cases,
}
use asmc.Cstring.{Bytes, same}
use asmc.Globals.{Symbol}
use asmc.Symbols.{get_symbol_idx, find_symbol}

pub get_symbol_idx-le : (name : Bytes) (t : List Symbol) → get_symbol_idx name t ≤ length t
unfolding get_symbol_idx
get_symbol_idx-le name [] = omega arith
get_symbol_idx-le name (s ∷ t) = ground (arith, get_symbol_idx-le name t)

-- The loop over the arrays is a search from the front.
pub find_symbol_cons :
    (name : Bytes) (s : Symbol) (t : List Symbol)
    → find_symbol name (s ∷ t)
      ≡ (if same name s.name then some (s.loc, s.arity) else find_symbol name t)
unfolding find_symbol
find_symbol_cons name s t = ground arith

pub find_symbol_nil : (name : Bytes) → find_symbol name [] ≡ none
unfolding find_symbol
find_symbol_nil name = refl

-- What `find_symbol` returns after a symbol is appended.
unfoldable pub or_last : Bytes → Symbol → Option (ℕ × ℕ) → Option (ℕ × ℕ)
or_last name s none = if same name s.name then some (s.loc, s.arity) else none
or_last name s (some r) = some r

pub or_last-ne :
    (name : Bytes) (s : Symbol) (o : Option (ℕ × ℕ))
    → same name s.name ≡ false
    → or_last name s o ≡ o
unfolding or_last
or_last-ne name s none p = rw p
or_last-ne name s (some r) p = refl

pub find_symbol-append :
    (name : Bytes) (t : List Symbol) (s : Symbol)
    → find_symbol name (t ++ s ∷ []) ≡ or_last name s (find_symbol name t)
unfolding or_last
find_symbol-append name [] s = rw (find_symbol_cons, find_symbol_nil) refl
find_symbol-append name (x ∷ t) s =
    find_symbol_cons name x (t ++ s ∷ [])
    ∙ rw (find_symbol_cons name x t) (ground (arith, find_symbol-append name t s))

-- The two ways in which a lookup can end.
pub data LookupView (name : Bytes) (t : List Symbol) : Type 0 where
  missing : find_symbol name t ≡ none → get_symbol_idx name t ≡ length t → LookupView name t
  found :
      (loc arity : ℕ)
      → find_symbol name t ≡ some (loc, arity)
      → get_symbol_idx name t < length t
      → LookupView name t

LookupView-cons :
    (name : Bytes) (s : Symbol) (t : List Symbol)
    → same name s.name ≡ false
    → LookupView name t
    → LookupView name (s ∷ t)
unfolding get_symbol_idx
LookupView-cons name s t p (missing e i) =
    missing (find_symbol_cons name s t ∙ rw p e) (rw p (ap suc i))
LookupView-cons name s t p (found loc arity e i) =
    found loc arity (find_symbol_cons name s t ∙ rw p e) (rw p (omega arith))

pub lookup_view : (name : Bytes) (t : List Symbol) → LookupView name t
lookup_view name [] = missing (find_symbol_nil name) (unfold get_symbol_idx in refl)
lookup_view name (s ∷ t) = elim (Bool-cases (same name s.name)) [
  | inl p ↦
      found s.loc s.arity (find_symbol_cons name s t ∙ rw p)
        (unfold get_symbol_idx in rw p (omega arith))
  | inr p ↦ LookupView-cons name s t p (lookup_view name t)
]

-- A symbol that is found is found at its index.
pub get_symbol_idx-found :
    (name : Bytes) (t : List Symbol) (loc arity : ℕ)
    → find_symbol name t ≡ some (loc, arity)
    → get_symbol_idx name t < length t
get_symbol_idx-found name t loc arity e = elim (lookup_view name t) [
  | missing f i ↦ absurd (ground arith)
  | found l a f i ↦ i
]
