-- ===== src/Tests/Compile.antt =====
-- The G compiler at a small file.
use asmc.Prelude.{false, ℕ, some, [], ◌∷◌, ◌⊎◌, inr, ◌+◌, true, ◌≡◌, ◌≢◌, refl, codes}
use asmc.Cstring.{Bytes, strcmp}
use asmc.Run.{done, stop, out_of_fuel, repeat}
use asmc.Globals.{Globals, Result, emit, emit32, emit_str}
use asmc.Lookups.{find_symbol-RunsTo}
use asmc.Assembler.Opcodes.{opcodes}
use asmc.Symbols.{
  placeholder, find_symbol, add_symbol, add_symbol_wrapper, add_symbol_placeholder,
  fix_symbol_placeholder, set_loc,
}
use asmc.Symbols.Table.{IsTable, IsTable-nil}
use asmc.Numbers.{decode_number}
use asmc.Compiler.Stack.{push_var, pop_var, pop_temps, find_in_stack}
use asmc.Compiler.Stack.View.{Implements, push, pop, position, view, stack-Implements}
use asmc.Compiler.Token.{get_token, give_back_token, emit_escaped_string, decode_number_or_char}
use asmc.Compiler.Expr.{
  push_operand, push_token, push_expr_until_brace, decode_number_or_symbol, gen_label,
  emit_label_rel, place_label,
}
use asmc.Compiler.Block.{parse_statement, parse_block_with, parse_statements, parse_block}
use asmc.Compiler.Driver.{
  parse_declaration, parse_declarations, parse, emit_preamble, compile_stage, compile,
}
use asmc.Compiler.Termination.{compile-terminates}
use asmc.Compiler.Image.{Image, compile-Image, compile-IsTable}
use asmc.Tests.Start.{start, libc}

abbrev source : Bytes
source = codes "const K 5 # five\nfun main 1 { $x x K + ; if x { \"hi\" ; } x ret ; }\n"

run : Result (Unit {0})
unfolding compile compile_stage emit_preamble parse parse_declarations parse_declaration parse_block
    parse_block_with parse_statements parse_statement push_expr_until_brace push_token push_operand
    decode_number_or_symbol gen_label emit_label_rel place_label get_token give_back_token
    emit_escaped_string decode_number_or_char push_var pop_var pop_temps find_in_stack decode_number
    find_symbol add_symbol add_symbol_wrapper add_symbol_placeholder fix_symbol_placeholder set_loc
    emit emit32 emit_str repeat strcmp
run = compile libc source 0x100000 true start

abbrev final : Result (Unit {0}) → Globals
final (done a h) = h
final (stop e) = start

run-done : compile libc source 0x100000 true start ≡ done tt (final run)
unfolding run
run-done = refl

size : (final run).current_loc ≡ 0x100000 + 146
unfolding run
size = refl

compile-Image_example : Image libc source 0x100000 true start (final run)
compile-Image_example = compile-Image libc source 0x100000 true start (final run) run-done

compile-IsTable_example : IsTable (final run).symbols
compile-IsTable_example =
    compile-IsTable libc source 0x100000 true start (final run) IsTable-nil run-done

compile-terminates_example : compile libc source 0x100000 true start ≢ stop out_of_fuel
compile-terminates_example = compile-terminates libc source 0x100000 true start tt

stack-Implements_example :
    Implements (push_var (codes "x") true) (push (codes "x") true)
    × Implements (pop_var true) (pop true)
    × ((g : Globals) → find_in_stack (codes "x") g ≡ position (codes "x") (view g).names)
stack-Implements_example = stack-Implements (codes "x") true

-- "f" is declared before the run, and the file defines it.
abbrev declared : Globals
declared = record start {
  symbols = (record { name = codes "f"; loc = placeholder; arity = 1 }) ∷ [];
}

abbrev definition : Bytes
definition = codes "fun f 1 { ret ; }\n"

definition_run : Result (Unit {0})
unfolding compile compile_stage parse parse_declarations parse_declaration parse_block
    parse_block_with parse_statements parse_statement get_token pop_temps find_symbol add_symbol
    fix_symbol_placeholder set_loc emit emit32 emit_str strcmp
definition_run = compile libc definition 0x100000 false declared

definition_run-done :
    compile libc definition 0x100000 false declared ≡ done tt (final definition_run)
unfolding definition_run
definition_run-done = refl

find_symbol-RunsTo_example :
    (loc' : ℕ) × (find_symbol (codes "f") (final definition_run).symbols ≡ some (loc', 1))
    × ((loc' ≡ placeholder) ⊎ (placeholder ≡ placeholder))
unfolding find_symbol strcmp
find_symbol-RunsTo_example =
    find_symbol-RunsTo opcodes libc definition 0x100000 false (codes "f") placeholder 1 declared
      (final definition_run) (inr definition_run-done) refl
