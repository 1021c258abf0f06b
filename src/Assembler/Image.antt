-- ===== src/Assembler/Image.antt =====
-- attic/staging.c: what a run of `assemble2` writes. The first pass only fills the symbol table; the
-- second writes one byte for each step of the location and leaves the table alone.
use mathlib.Core.Path.{subst}
use asmc.Prelude.{ℕ, zero, suc, ◌+◌, List, ◌++◌, ◌≡◌, refl, ap, ◌∙◌, length}
use asmc.Cstring.{Bytes}
use asmc.Run.{◌>>◌, out_of_fuel, done, modify}
use asmc.Globals.{Globals, word}
use asmc.Run.Keeps.{
  modify-eq-done, StepRelation, Keeps, keeps, Keeps-apply, Keeps-pure, Keeps-halt, Keeps-gets,
  Keeps-bind, Keeps-if, Ends-done, bind-eq-done,
}
use asmc.Globals.Layout.{layout}
use asmc.Symbols.Outcomes.{Primitives, IsQuiet, layout-Primitives, layout-IsQuiet}
use asmc.Symbols.Table.{IsTable, table_kept, table_kept-Primitives, table_kept-IsQuiet}
use asmc.Symbols.Growth.{Grows, Grows-trans, growth, growth-Primitives, growth-IsQuiet}
use asmc.Assembler.Opcodes.{Row}
use asmc.Assembler.Driver.{
  end_passes, begin_pass, assemble_line, assemble_lines, assemble_pass, assemble,
}
use asmc.Assembler.Kept.{Keeps-expect, line-Keeps}

module _ (S : StepRelation Globals) (P : Primitives S) where
  -- A label or a line of code.
  pub assemble_line-Keeps : (table : List Row) (s : Bytes) → Keeps S (assemble_line table s)
  unfolding assemble_line
  assemble_line-Keeps table s =
      search (Keeps-if S, Keeps-bind S, Keeps-gets S, P.wrapper_kept, line-Keeps S P) depth 10

module _ (S : StepRelation Globals) (P : Primitives S) (quiet : IsQuiet S) where
  set_input-Keeps : (t : Bytes) → Keeps S (modify (λ g. record g { input = t }))
  set_input-Keeps t = keeps (λ g. quiet g _ refl refl refl refl)

  next_line-Keeps : Keeps S (modify (λ g. record g { line = g.line + 1 }))
  next_line-Keeps = keeps (λ g. quiet g _ refl refl refl refl)

  pub assemble_lines-Keeps :
      (table : List Row) (fuel : ℕ) → S.Allowed out_of_fuel → Keeps S (assemble_lines table fuel)
  unfolding assemble_lines
  assemble_lines-Keeps table zero h = Keeps-halt S out_of_fuel h
  assemble_lines-Keeps table (suc fuel) h =
      let rest = assemble_lines-Keeps table fuel h in
      search
        (
          Keeps-if S,
          Keeps-bind S,
          Keeps-gets S,
          Keeps-pure S,
          Keeps-expect S P,
          rest,
          assemble_line-Keeps S P,
          set_input-Keeps,
          next_line-Keeps,
        )
        depth 20

-- A relation that the primitives keep holds between the beginning and the end of a pass.
pub pass_kept :
    (S : StepRelation Globals) (P : Primitives S) (quiet : IsQuiet S)
    (starved : S.Allowed out_of_fuel)
    → (table : List Row) (file : Bytes) (start_loc stage : ℕ) (g h : Globals)
    → assemble_pass table file start_loc stage g ≡ done tt h
    → S.Rel (begin_pass file start_loc stage g) h
unfolding assemble_pass
pass_kept S P quiet starved table file start_loc stage g h e =
    Ends-done (S.Rel (begin_pass file start_loc stage g)) S.Allowed
      (assemble_lines table (length file + 2) (begin_pass file start_loc stage g)) tt h
      (Keeps-apply S (assemble_lines-Keeps S P quiet table (length file + 2) starved)
        (begin_pass file start_loc stage g))
      e

-- The result of a run that ends well. `mid` is the state between the passes, and `image` is what
-- the second pass appends to the output.
pub record Image (table : List Row) (file : Bytes) (start_loc : ℕ) (g h : Globals) : Type 0 where
  pub mid : Globals
  pub image : Bytes
  pub first_pass : assemble_pass table file start_loc 0 g ≡ done tt mid
  pub first_silent : mid.output ≡ g.output
  pub written : h.output ≡ g.output ++ image
  pub located : word h.current_loc ≡ word (start_loc + length image)
  pub settled : h.symbols ≡ mid.symbols

-- A run of `assemble` that ends well is an `Image`: the first pass writes nothing, the second leaves
-- the symbols as the first made them, and the location has moved by the length of the output.
pub assemble-Image :
    (table : List Row) (file : Bytes) (start_loc : ℕ) (g h : Globals)
    → assemble table file start_loc g ≡ done tt h
    → Image table file start_loc g h
unfolding assemble
assemble-Image table file start_loc g h e =
    let (_, mid, first, more) =
      bind-eq-done (assemble_pass table file start_loc 0 g)
        (λ _. assemble_pass table file start_loc 1 >> modify end_passes) e in
    let (last, second, ended) =
      modify-eq-done (assemble_pass table file start_loc 1 mid) end_passes more in
    let p =
      pass_kept layout layout-Primitives layout-IsQuiet tt table file start_loc 0 g mid first in
    let q =
      pass_kept layout layout-Primitives layout-IsQuiet tt table file start_loc 1 mid last second in
    subst (Image table file start_loc g) ended (record {
      mid = mid;
      image = q.chunk;
      first_pass = first;
      first_silent = p.written;
      written = q.written ∙ ap (λ t. t ++ q.chunk) p.written;
      located = q.counted;
      settled = q.same_symbols refl;
    })

-- After a run of `assemble` that ends well the symbol table is an `IsTable`, when it was one before:
-- it has room, every name fits its slot, and a search for a symbol's name finds that symbol.
pub assemble-IsTable :
    (table : List Row) (file : Bytes) (start_loc : ℕ) (g h : Globals)
    → IsTable g.symbols
    → assemble table file start_loc g ≡ done tt h
    → IsTable h.symbols
unfolding assemble
assemble-IsTable table file start_loc g h v e =
    let (_, mid, first, more) =
      bind-eq-done (assemble_pass table file start_loc 0 g)
        (λ _. assemble_pass table file start_loc 1 >> modify end_passes) e in
    let (last, second, ended) =
      modify-eq-done (assemble_pass table file start_loc 1 mid) end_passes more in
    let kept =
      pass_kept table_kept table_kept-Primitives table_kept-IsQuiet tt table file start_loc in
    subst (λ k. IsTable k.symbols) ended (kept 1 mid last second (kept 0 g mid first v))

-- The symbols that were there before a run are kept.
pub assemble-Grows :
    (table : List Row) (file : Bytes) (start_loc : ℕ) (g h : Globals)
    → assemble table file start_loc g ≡ done tt h
    → Grows g.symbols h.symbols
unfolding assemble
assemble-Grows table file start_loc g h e =
    let (_, mid, first, more) =
      bind-eq-done (assemble_pass table file start_loc 0 g)
        (λ _. assemble_pass table file start_loc 1 >> modify end_passes) e in
    let (last, second, ended) =
      modify-eq-done (assemble_pass table file start_loc 1 mid) end_passes more in
    let kept = pass_kept growth growth-Primitives growth-IsQuiet tt table file start_loc in
    subst (λ k. Grows g.symbols k.symbols) ended
      (Grows-trans g.symbols mid.symbols last.symbols (kept 0 g mid first) (kept 1 mid last second))
