-- ===== src/Tests/Tables.antt =====
-- The symbol table at inputs that meet the hypotheses.
use asmc.Prelude.{ℕ, some, [], ◌∷◌, ◌≡◌, ◌≢◌, ◌⊎◌, refl, arith, codes, length, if◌then◌else◌}
use asmc.Cstring.{Bytes, same, strcmp}
use asmc.Run.{done, stop, panic}
use asmc.Globals.{Globals, Symbol, word, emit32}
use asmc.Globals.Emit.{emitted, from_le, emit32_lem}
use asmc.Symbols.{
  find_symbol, append_symbol, add_symbol, add_symbol_wrapper, fix_symbol_placeholder,
}
use asmc.Symbols.Update.{find_symbol-add_symbol}
use asmc.Symbols.Stages.{add_symbol_wrapper-stage_one, fix_symbol_placeholder-stage_one}
use asmc.Tests.Start.{start}

abbrev main_at : ℕ → Symbol
main_at loc = record { name = codes "main"; loc = loc; arity = 1 }

abbrev in_stage_one : Globals
in_stage_one = record start { stage = 1; symbols = main_at 64 ∷ [] }

find_symbol-add_symbol_example :
    find_symbol (codes "foo") (append_symbol (codes "bar") 7 0 in_stage_one).symbols ≡ (
      if same (codes "foo") (codes "bar")
      then some (7, 0)
      else find_symbol (codes "foo") in_stage_one.symbols)
unfolding add_symbol find_symbol strcmp
find_symbol-add_symbol_example =
    find_symbol-add_symbol (codes "bar") 7 0 in_stage_one
      (append_symbol (codes "bar") 7 0 in_stage_one) (omega arith) refl (codes "foo") (omega arith)

add_symbol_wrapper-stage_one_example :
    ((find_symbol (codes "main") in_stage_one.symbols ≡ some (64, 1))
      × (add_symbol_wrapper (codes "main") 64 1 in_stage_one ≡ done tt in_stage_one))
    ⊎ ((find_symbol (codes "main") in_stage_one.symbols ≢ some (64, 1))
        × (add_symbol_wrapper (codes "main") 64 1 in_stage_one ≡ stop panic))
add_symbol_wrapper-stage_one_example =
    add_symbol_wrapper-stage_one (codes "main") 64 1 in_stage_one refl

fix_symbol_placeholder-stage_one_example :
    ((find_symbol (codes "main") in_stage_one.symbols ≡ some (64, 1))
      × (fix_symbol_placeholder (codes "main") 64 1 in_stage_one ≡ done tt in_stage_one))
    ⊎ ((find_symbol (codes "main") in_stage_one.symbols ≢ some (64, 1))
        × (fix_symbol_placeholder (codes "main") 64 1 in_stage_one ≡ stop panic))
fix_symbol_placeholder-stage_one_example =
    fix_symbol_placeholder-stage_one (codes "main") 64 1 in_stage_one refl

emit32_lem_example :
    (s : Bytes) × (emit32 0x1f0 in_stage_one ≡ done tt (emitted s in_stage_one))
    × (length s ≡ 4)
    × (from_le s ≡ word 0x1f0)
emit32_lem_example = emit32_lem 0x1f0 in_stage_one (omega arith)
