-- ===== src/Symbols.antt =====
-- attic/staging.c: the symbol table, that the assembler and the G compiler share. Stage 0 collects
-- the symbols, stage 1 checks that each is met again at the same place.
pub mod Lookup
pub mod Update
pub mod Stages
pub mod Outcomes
pub mod Table
pub mod Growth
use mathlib.Core.Option
use asmc.Prelude.{
  ℕ, zero, suc, ◌-◌, ◌^◌, Bool, true, false, not, ◌&&◌, ◌||◌, Option, none, some, List, [], ◌∷◌,
  ◌++◌, ltb, ◌==◌, if◌then◌else◌, length, get_elem?,
}
use asmc.Cstring.{Bytes, same, strlen}
use asmc.Run.{pure, ◌>>=◌, ◌>>◌, halt, panic, assert, expect, gets, modify}
use asmc.Globals.{Globals, Symbol, M}

abbrev pub max_symbol_name_len : ℕ
max_symbol_name_len = 128

abbrev pub symbol_table_len : ℕ
symbol_table_len = 1024

-- The location of a function that is declared and not yet defined.
abbrev pub placeholder : ℕ
placeholder = 0xffffffff

unfoldable pub get_symbol_idx : Bytes → List Symbol → ℕ
get_symbol_idx name [] = 0
get_symbol_idx name (s ∷ t) = if same name s.name then 0 else suc (get_symbol_idx name t)

-- `none` for a result of 0, else what `*loc` and `*arity` are set to.
unfoldable pub find_symbol : Bytes → List Symbol → Option (ℕ × ℕ)
unfolding get_symbol_idx
find_symbol name t =
    let i = get_symbol_idx name t in
    if i == length t then none else Option.map (λ s. (s.loc, s.arity)) (get_elem? t i)

abbrev pub is_found : Option (ℕ × ℕ) → Bool
is_found none = false
is_found (some r) = true

abbrev pub append_symbol : Bytes → ℕ → ℕ → Globals → Globals
append_symbol name loc arity g = record g {
  symbols = g.symbols ++ (record { name = name; loc = loc; arity = arity }) ∷ [];
}

unfoldable pub add_symbol : Bytes → ℕ → ℕ → M (Unit {0})
add_symbol name loc arity = do
  assert (ltb 0 (strlen name))
  assert (ltb (strlen name) max_symbol_name_len)
  symbol_num ← gets (λ g. length g.symbols)
  found ← gets (λ g. is_found (find_symbol name g.symbols))
  assert (not found)
  assert (ltb symbol_num symbol_table_len)
  modify (append_symbol name loc arity)

unfoldable pub add_symbol_wrapper : Bytes → ℕ → ℕ → M (Unit {0})
add_symbol_wrapper name loc arity = do
  stage ← gets (λ g. g.stage)
  if stage == 0
      then add_symbol name loc arity
      else if stage == 1
      then (do
        res ← gets (λ g. find_symbol name g.symbols)
        (loc2, arity2) ← expect res
        assert (loc == loc2)
        assert (arity == arity2))
      else halt panic

unfoldable pub add_symbol_placeholder : Bytes → ℕ → M (Unit {0})
add_symbol_placeholder name arity = do
  stage ← gets (λ g. g.stage)
  res ← gets (λ g. find_symbol name g.symbols)
  assert (stage == 0 || is_found res)
  if not (is_found res)
      then add_symbol name placeholder arity
      else (do (loc2, arity2) ← expect res; assert (arity == arity2))

-- `get_symbol_locs()[idx] = loc`
unfoldable pub set_loc : List Symbol → ℕ → ℕ → List Symbol
set_loc [] i loc = []
set_loc (s ∷ t) zero loc = record s { loc = loc } ∷ t
set_loc (s ∷ t) (suc i) loc = s ∷ set_loc t i loc

abbrev pub fix_loc : Bytes → ℕ → Globals → Globals
fix_loc name loc g = record g { symbols = set_loc g.symbols (get_symbol_idx name g.symbols) loc }

unfoldable pub fix_symbol_placeholder : Bytes → ℕ → ℕ → M (Unit {0})
fix_symbol_placeholder name loc arity = do
  stage ← gets (λ g. g.stage)
  res ← gets (λ g. find_symbol name g.symbols)
  assert (stage == 0 || is_found res)
  if not (is_found res) then add_symbol name loc arity else (do
    (loc2, arity2) ← expect res
    assert (arity == arity2)
    assert (loc == loc2 || (stage == 0 && loc2 == placeholder))
    idx ← gets (λ g. get_symbol_idx name g.symbols)
    symbol_num ← gets (λ g. length g.symbols)
    assert (not (idx == symbol_num))
    modify (fix_loc name loc))
