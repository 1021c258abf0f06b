-- ===== src/Symbols/Update.antt =====
-- attic/staging.c: what adding a symbol and fixing a placeholder do to later lookups.
use asmc.Prelude.{
  ℕ, ◌<◌, Option, none, some, List, [], ◌∷◌, ◌≡◌, ap, ◌∙◌, ◌⊎◌, inl, inr, arith, ltb, if◌then◌else◌,
  length, Bool-cases, ltb→lt, sym,
}
use asmc.Cstring.{Bytes, IsCstring, same, strlen}
use asmc.Cstring.Compare.{same_refl, same_iff}
use asmc.Run.{done, stop, panic}
use asmc.Globals.{Globals, Symbol}
use asmc.Symbols.{
  max_symbol_name_len, symbol_table_len, get_symbol_idx, find_symbol, append_symbol, add_symbol,
  set_loc,
}
use asmc.Symbols.Lookup.{
  find_symbol_cons, find_symbol_nil, find_symbol-append, or_last, or_last-ne, missing, found,
  lookup_view,
}

-- What `add_symbol` demands of a new name and of the table.
pub record CanAdd (name : Bytes) (t : List Symbol) : Type 0 where
  pub nonempty : 0 < strlen name
  pub short : strlen name < max_symbol_name_len
  pub fresh : find_symbol name t ≡ none
  pub room : length t < symbol_table_len

pub add_symbol-done :
    (name : Bytes) (loc arity : ℕ) (g : Globals)
    → CanAdd name g.symbols
    → add_symbol name loc arity g ≡ done tt (append_symbol name loc arity g)
unfolding add_symbol
add_symbol-done name loc arity g c = ground arith

-- `add_symbol` either appends the symbol, all its conditions being met, or panics.
pub data AddView (name : Bytes) (loc arity : ℕ) (g : Globals) : Type 0 where
  added :
      CanAdd name g.symbols
      → add_symbol name loc arity g ≡ done tt (append_symbol name loc arity g)
      → AddView name loc arity g
  refused : add_symbol name loc arity g ≡ stop panic → AddView name loc arity g

add_symbol-CanAdd :
    (name : Bytes) (loc arity : ℕ) (g : Globals)
    → CanAdd name g.symbols ⊎ (add_symbol name loc arity g ≡ stop panic)
unfolding add_symbol
add_symbol-CanAdd name loc arity g = elim (Bool-cases (ltb 0 (strlen name))) [
  | inr a ↦ inr (rw a)
  | inl a ↦ elim (Bool-cases (ltb (strlen name) max_symbol_name_len)) [
    | inr b ↦ inr (rw (a, b))
    | inl b ↦ elim (lookup_view name g.symbols) [
      | found l r e i ↦ inr (rw (a, b, e))
      | missing e i ↦ elim (Bool-cases (ltb (length g.symbols) symbol_table_len)) [
        | inr d ↦ inr (rw (a, b, e, d))
        | inl d ↦ inl (record {
          nonempty = ltb→lt _ _ a;
          short = ltb→lt _ _ b;
          fresh = e;
          room = ltb→lt _ _ d;
        })
      ]
    ]
  ]
]

pub add_view : (name : Bytes) (loc arity : ℕ) (g : Globals) → AddView name loc arity g
add_view name loc arity g = elim (add_symbol-CanAdd name loc arity g) [
  | inl c ↦ added c (add_symbol-done name loc arity g c)
  | inr e ↦ refused e
]

or_last-added :
    (name other : Bytes) (loc arity : ℕ) (t : List Symbol)
    → IsCstring name
    → IsCstring other
    → find_symbol name t ≡ none
    → or_last other (record { name = name; loc = loc; arity = arity }) (find_symbol other t)
      ≡ (if same other name then some (loc, arity) else find_symbol other t)
unfolding or_last
or_last-added name other loc arity t hn ho fresh = elim (Bool-cases (same other name)) [
  | inl p ↦ rw ((same_iff other name ho hn).0 p, same_refl, fresh) (rw same_refl)
  | inr p ↦ rw p (or_last-ne other _ (find_symbol other t) p)
]

-- After `add_symbol` has added a symbol, a search for its name gives its location and arity, and
-- a search for another name gives what it gave before. The names are C strings.
pub find_symbol-add_symbol :
    (name : Bytes) (loc arity : ℕ) (g h : Globals)
    → IsCstring name
    → add_symbol name loc arity g ≡ done tt h
    → (other : Bytes) → IsCstring other
    → find_symbol other h.symbols
      ≡ (if same other name then some (loc, arity) else find_symbol other g.symbols)
find_symbol-add_symbol name loc arity g h hn e other ho = elim (add_view name loc arity g) [
  | refused r ↦ absurd (ground arith)
  | added c r ↦
      let same_h : h ≡ append_symbol name loc arity g = ground arith in
      ap (λ k. find_symbol other k.symbols) same_h
      ∙ find_symbol-append other g.symbols _
      ∙ or_last-added name other loc arity g.symbols hn ho c.fresh
]

pub find_symbol-set_loc :
    (name : Bytes) (t : List Symbol) (loc l a : ℕ)
    → find_symbol name t ≡ some (l, a)
    → find_symbol name (set_loc t (get_symbol_idx name t) loc) ≡ some (loc, a)
unfolding get_symbol_idx set_loc
find_symbol-set_loc name [] loc l a e =
    let p : ◌≡◌ {A = Option (ℕ × ℕ)} none (some (l, a)) = sym (find_symbol_nil name) ∙ e in
    absurd (ground arith)
find_symbol-set_loc name (s ∷ t) loc l a e = elim (Bool-cases (same name s.name)) [
  | inl p ↦ rw p (rw (find_symbol_cons, p) (ground (arith, find_symbol_cons name s t)))
  | inr p ↦ rw p (
      rw (find_symbol_cons, p)
        (find_symbol-set_loc name t loc l a (ground (arith, find_symbol_cons name s t))))
]
