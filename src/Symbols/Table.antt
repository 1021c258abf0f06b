-- ===== src/Symbols/Table.antt =====
-- attic/staging.c: the well-formedness of the symbol table, kept by every operation.
use mathlib.Core.Path.{subst}
use asmc.Prelude.{
  ℕ, zero, suc, ◌≤◌, ◌<◌, true, none, some, List, [], ◌∷◌, ◌++◌, ◌≡◌, refl, sym, ap, ◌∙◌, ◌⊎◌, inl,
  inr, arith, length, get_elem?, All, All-append, length-append,
}
use asmc.Cstring.{Bytes, same, strlen}
use asmc.Cstring.Compare.{same_refl}
use asmc.Globals.{Globals, Symbol, emit}
use asmc.Run.Keeps.{StepRelation, keeps}
use asmc.Symbols.{
  max_symbol_name_len, symbol_table_len, placeholder, get_symbol_idx, find_symbol, set_loc,
}
use asmc.Symbols.Lookup.{missing, found, lookup_view}
use asmc.Symbols.Update.{CanAdd}
use asmc.Symbols.Outcomes.{
  Primitives, IsQuiet, add_symbol_wrapper-Ends, add_symbol_placeholder-Ends,
  fix_symbol_placeholder-Ends,
}

abbrev pub FitsSlot : Symbol → Type 0
FitsSlot s = (0 < strlen s.name) × (strlen s.name < max_symbol_name_len)

-- Every name fits its slot of the array, and a search for the name of a symbol finds that symbol.
pub record IsTable (t : List Symbol) : Type 0 where
  pub bounded : length t ≤ symbol_table_len
  pub names_fit : All FitsSlot t
  pub indexed : (i : ℕ) (s : Symbol) → get_elem? t i ≡ some s → get_symbol_idx s.name t ≡ i

pub IsTable-nil : IsTable []
IsTable-nil = record {
  bounded = omega arith;
  names_fit = tt;
  indexed = λ i s e. absurd (ground arith);
}

get_elem?-append :
    (t : List Symbol) (x s : Symbol) (i : ℕ)
    → get_elem? (t ++ x ∷ []) i ≡ some s
    → (get_elem? t i ≡ some s) ⊎ ((s ≡ x) × (i ≡ length t))
get_elem?-append [] x s zero e = inr (ground arith, refl)
get_elem?-append [] x s (suc i) e = absurd (ground arith)
get_elem?-append (y ∷ t) x s zero e = inl e
get_elem?-append (y ∷ t) x s (suc i) e = elim (get_elem?-append t x s i e) [
  | inl p ↦ inl p
  | inr (p, q) ↦ inr (p, ap suc q)
]

get_elem?-lt : (t : List Symbol) (i : ℕ) (s : Symbol) → get_elem? t i ≡ some s → i < length t
get_elem?-lt [] i s e = absurd (ground arith)
get_elem?-lt (x ∷ t) zero s e = omega arith
get_elem?-lt (x ∷ t) (suc i) s e = omega (arith, get_elem?-lt t i s e)

idx-append_old :
    (name : Bytes) (t u : List Symbol)
    → get_symbol_idx name t < length t
    → get_symbol_idx name (t ++ u) ≡ get_symbol_idx name t
unfolding get_symbol_idx
idx-append_old name [] u h = elim h [ ]
idx-append_old name (s ∷ t) u h = ground (arith, idx-append_old name t u)

idx-append_new :
    (name : Bytes) (t : List Symbol) (s : Symbol)
    → get_symbol_idx name t ≡ length t
    → same name s.name ≡ true
    → get_symbol_idx name (t ++ s ∷ []) ≡ length t
unfolding get_symbol_idx
idx-append_new name [] s h p = rw p
idx-append_new name (x ∷ t) s h p = ground (arith, idx-append_new name t s)

fresh_idx :
    (name : Bytes) (t : List Symbol) → find_symbol name t ≡ none → get_symbol_idx name t ≡ length t
fresh_idx name t e = elim (lookup_view name t) [
  | missing f i ↦ i
  | found l a f i ↦ absurd (ground arith)
]

IsTable-append :
    (name : Bytes) (loc arity : ℕ) (t : List Symbol)
    → CanAdd name t
    → IsTable t
    → IsTable (t ++ (record { name = name; loc = loc; arity = arity }) ∷ [])
IsTable-append name loc arity t c v = record {
  bounded = omega (arith, length-append {0} t (new ∷ []), c.room);
  names_fit = All-append FitsSlot t (new ∷ []) v.names_fit ((c.nonempty, c.short), tt);
  indexed = λ i s e. elim (get_elem?-append t new s i e) [
    | inl p ↦
        idx-append_old s.name t (new ∷ []) (omega (arith, v.indexed i s p, get_elem?-lt t i s p))
        ∙ v.indexed i s p
    | inr (p, q) ↦ rw (p, q) (idx-append_new name t new (fresh_idx name t c.fresh) (same_refl name))
  ];
}
  where
    new : Symbol
    new = record { name = name; loc = loc; arity = arity }

length-set_loc : (t : List Symbol) (i loc : ℕ) → length (set_loc t i loc) ≡ length t
unfolding set_loc
length-set_loc [] i loc = refl
length-set_loc (s ∷ t) zero loc = refl
length-set_loc (s ∷ t) (suc i) loc = ap suc (length-set_loc t i loc)

names_fit-set_loc : (t : List Symbol) (i loc : ℕ) → All FitsSlot t → All FitsSlot (set_loc t i loc)
unfolding set_loc
names_fit-set_loc [] i loc h = h
names_fit-set_loc (s ∷ t) zero loc h = h
names_fit-set_loc (s ∷ t) (suc i) loc (p, h) = (p, names_fit-set_loc t i loc h)

idx-set_loc :
    (name : Bytes) (t : List Symbol) (i loc : ℕ)
    → get_symbol_idx name (set_loc t i loc) ≡ get_symbol_idx name t
unfolding get_symbol_idx set_loc
idx-set_loc name [] i loc = refl
idx-set_loc name (s ∷ t) zero loc = refl
idx-set_loc name (s ∷ t) (suc i) loc = rw (idx-set_loc name t i loc)

get_elem?-set_loc :
    (t : List Symbol) (i loc j : ℕ) (s : Symbol)
    → get_elem? (set_loc t i loc) j ≡ some s
    → (old : Symbol) × (get_elem? t j ≡ some old) × (old.name ≡ s.name)
unfolding set_loc
get_elem?-set_loc [] i loc j s e = absurd (ground arith)
get_elem?-set_loc (x ∷ t) zero loc zero s e = (x, refl, ground arith)
get_elem?-set_loc (x ∷ t) zero loc (suc j) s e = (s, e, refl)
get_elem?-set_loc (x ∷ t) (suc i) loc zero s e = (s, e, refl)
get_elem?-set_loc (x ∷ t) (suc i) loc (suc j) s e = get_elem?-set_loc t i loc j s e

IsTable-set_loc : (t : List Symbol) (i loc : ℕ) → IsTable t → IsTable (set_loc t i loc)
IsTable-set_loc t i loc v = record {
  bounded = rw length-set_loc v.bounded;
  names_fit = names_fit-set_loc t i loc v.names_fit;
  indexed = λ j s e.
      let (old, p, q) = get_elem?-set_loc t i loc j s e in
      idx-set_loc s.name t i loc ∙ rw (← q) (v.indexed j old p);
}

-- Well-formedness of the table, carried from before a step to after it.
abbrev pub table_kept : StepRelation Globals
table_kept = record {
  Rel = λ g h. IsTable g.symbols → IsTable h.symbols;
  rel_refl = λ g v. v;
  rel_trans = λ g h k p q v. q (p v);
  Allowed = λ e. Unit;
  panic_allowed = tt;
}

pub table_kept-Primitives : Primitives table_kept
table_kept-Primitives = record {
  fault_allowed = tt;
  emit_kept = λ c. keeps λ g. unfold emit in λ v. v;
  wrapper_kept = λ name loc arity. keeps λ g.
      add_symbol_wrapper-Ends (table_kept.Rel g) (λ e. Unit) tt name loc arity g (λ v. v)
        (λ z c v. IsTable-append name loc arity g.symbols c v);
  placeholder_kept = λ name arity. keeps λ g.
      add_symbol_placeholder-Ends (table_kept.Rel g) (λ e. Unit) tt name arity g (λ v. v)
        (λ z c v. IsTable-append name placeholder arity g.symbols c v);
  fix_kept = λ name loc arity. keeps λ g.
      fix_symbol_placeholder-Ends (table_kept.Rel g) (λ e. Unit) tt name loc arity g
        (λ z c v. IsTable-append name loc arity g.symbols c v)
        (λ l e w v. IsTable-set_loc g.symbols _ loc v);
}

pub table_kept-IsQuiet : IsQuiet table_kept
table_kept-IsQuiet g h s l o t v = subst IsTable (sym t) v
