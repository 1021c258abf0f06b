-- ===== src/Lookups.antt =====
-- attic/staging.c and attic/gstaging.c: what a run of the assembler or of the G compiler does to lookups
-- in the symbol table that they share.
use asmc.Prelude.{ℕ, Bool, some, List, ◌≡◌, ◌⊎◌, inl, inr}
use asmc.Cstring.{Bytes}
use asmc.Run.{done}
use asmc.Globals.{Globals}
use asmc.Symbols.{placeholder, find_symbol}
use asmc.Symbols.Growth.{Grows, find_symbol-Grows}
use asmc.Assembler.Opcodes.{Row}
use asmc.Assembler.Driver.{assemble}
use asmc.Assembler.Image.{assemble-Grows}
use asmc.Compiler.Expr.{Libc}
use asmc.Compiler.Driver.{compile}
use asmc.Compiler.Image.{compile-Image}

module _ (table : List Row) (libc : Libc) (file : Bytes) (start_loc : ℕ)
    (with_preamble : Bool) where
  -- A run of one of the two programs that ends well.
  abbrev pub RunsTo : Globals → Globals → Type 0
  RunsTo g h =
      (assemble table file start_loc g ≡ done tt h)
      ⊎ (compile libc file start_loc with_preamble g ≡ done tt h)

  RunsTo-Grows : (g h : Globals) → RunsTo g h → Grows g.symbols h.symbols
  RunsTo-Grows g h (inl e) = assemble-Grows table file start_loc g h e
  RunsTo-Grows g h (inr e) = (compile-Image libc file start_loc with_preamble g h e).grown

  -- After a run of the assembler or of the G compiler that ends well, a name that `find_symbol` found
  -- before is still found, with the same arity, and at the same location unless that was the
  -- placeholder of a function that is declared and not yet defined.
  pub find_symbol-RunsTo :
      (name : Bytes) (loc arity : ℕ) (g h : Globals)
      → RunsTo g h
      → find_symbol name g.symbols ≡ some (loc, arity)
      → (loc' : ℕ) × (find_symbol name h.symbols ≡ some (loc', arity))
        × ((loc' ≡ loc) ⊎ (loc ≡ placeholder))
  find_symbol-RunsTo name loc arity g h r e =
      find_symbol-Grows name g.symbols h.symbols loc arity (RunsTo-Grows g h r) e
