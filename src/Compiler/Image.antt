-- ===== src/Compiler/Image.antt =====
-- attic/gstaging.c: what a run of `compile2` writes, as for the assembler: the first stage only fills
-- the symbol table, the second writes one byte for each step of the location.
use mathlib.Core.Path.{subst}
use asmc.Prelude.{ℕ, ◌+◌, Bool, ◌++◌, ◌≡◌, refl, ap, ◌∙◌, length}
use asmc.Cstring.{Bytes}
use asmc.Run.{modify, ◌>>◌, Stop, done}
use asmc.Globals.{Globals, word}
use asmc.Run.Keeps.{modify-eq-done, StepRelation, Keeps-apply, Ends-done, bind-eq-done}
use asmc.Globals.Layout.{layout}
use asmc.Symbols.Outcomes.{Primitives, IsQuiet, layout-Primitives, layout-IsQuiet}
use asmc.Symbols.Table.{IsTable, table_kept, table_kept-Primitives, table_kept-IsQuiet}
use asmc.Symbols.Growth.{Grows, Grows-trans, growth, growth-Primitives, growth-IsQuiet}
use asmc.Compiler.Expr.{Libc}
use asmc.Compiler.Driver.{end_stages, begin_stage, compile_file, compile_stage, compile}
use asmc.Compiler.Kept.Programs.{compile_file-Keeps}

module _ (libc : Libc) (file : Bytes) (start_loc : ℕ) (with_preamble : Bool) where
  -- A relation that the primitives keep holds between the beginning and the end of a stage.
  stage_kept :
      (S : StepRelation Globals) (P : Primitives S) (quiet : IsQuiet S)
      (starved : S.Allowed Stop.out_of_fuel)
      → (stage : ℕ) (g h : Globals)
      → compile_stage libc file start_loc with_preamble stage g ≡ done tt h
      → S.Rel (begin_stage file start_loc stage g) h
  unfolding compile_stage
  stage_kept S P quiet starved stage g h e =
      Ends-done (S.Rel (begin_stage file start_loc stage g)) S.Allowed
        (compile_file libc with_preamble (begin_stage file start_loc stage g)) tt h
        (Keeps-apply S (compile_file-Keeps P quiet starved libc with_preamble)
          (begin_stage file start_loc stage g))
        e

  abbrev fresh : Globals → Globals
  fresh g = record g { block_depth = 0; stack_depth = 0; temp_depth = 0 }

  -- The result of a run that ends well. `mid` is the state between the stages, and `image` is what
  -- the second stage appends to the output.
  pub record Image (g h : Globals) : Type 0 where
    pub mid : Globals
    pub image : Bytes
    pub first_stage : compile_stage libc file start_loc with_preamble 0 (fresh g) ≡ done tt mid
    pub first_silent : mid.output ≡ g.output
    pub written : h.output ≡ g.output ++ image
    pub located : word h.current_loc ≡ word (start_loc + length image)
    pub settled : h.symbols ≡ mid.symbols
    pub grown : Grows g.symbols h.symbols

  -- A run of `compile` that ends well is an `Image`: the first stage writes nothing, the second leaves
  -- the symbols as the first made them, the location has moved by the length of the output, and the
  -- symbols that were there before are kept.
  pub compile-Image :
      (g h : Globals) → compile libc file start_loc with_preamble g ≡ done tt h → Image g h
  unfolding compile
  compile-Image g h e =
      let (_, mid, first, more) =
        bind-eq-done (compile_stage libc file start_loc with_preamble 0 (fresh g))
          (λ _. compile_stage libc file start_loc with_preamble 1 >> modify end_stages) e in
      let (last, second, ended) =
        modify-eq-done (compile_stage libc file start_loc with_preamble 1 mid) end_stages more in
      let p = stage_kept layout layout-Primitives layout-IsQuiet tt 0 (fresh g) mid first in
      let q = stage_kept layout layout-Primitives layout-IsQuiet tt 1 mid last second in
      subst (Image g) ended (record {
        mid = mid;
        image = q.chunk;
        first_stage = first;
        first_silent = p.written;
        written = q.written ∙ ap (λ t. t ++ q.chunk) p.written;
        located = q.counted;
        settled = q.same_symbols refl;
        grown =
            Grows-trans g.symbols mid.symbols last.symbols
              (stage_kept growth growth-Primitives growth-IsQuiet tt 0 (fresh g) mid first)
              (stage_kept growth growth-Primitives growth-IsQuiet tt 1 mid last second);
      })

  -- After a run of `compile` that ends well the symbol table is an `IsTable`, when it was one before:
  -- it has room, every name fits its slot, and a search for a symbol's name finds that symbol.
  pub compile-IsTable :
      (g h : Globals)
      → IsTable g.symbols
      → compile libc file start_loc with_preamble g ≡ done tt h
      → IsTable h.symbols
  unfolding compile
  compile-IsTable g h v e =
      let (_, mid, first, more) =
        bind-eq-done (compile_stage libc file start_loc with_preamble 0 (fresh g))
          (λ _. compile_stage libc file start_loc with_preamble 1 >> modify end_stages) e in
      let (last, second, ended) =
        modify-eq-done (compile_stage libc file start_loc with_preamble 1 mid) end_stages more in
      subst (λ k. IsTable k.symbols) ended
        (stage_kept table_kept table_kept-Primitives table_kept-IsQuiet tt 1 mid last second (
          stage_kept table_kept table_kept-Primitives table_kept-IsQuiet tt 0 (fresh g) mid first
            v))
