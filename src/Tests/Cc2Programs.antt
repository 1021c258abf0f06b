-- ===== src/Tests/Cc2Programs.antt =====
-- The second C compiler at a small file.
use asmc.Prelude.{some, ℕ, true, false, [], ◌∷◌, ◌++◌, ◌≡◌, ◌≢◌, refl, codes, arith}
use asmc.Cstring.{Bytes}
use asmc.Run.{Outcome, done, stop, out_of_fuel, repeat}
use asmc.Cc.Text.{
  find_char, find_char_back, find_matching, find_matching_rev, remove_spaces, trimstr,
}
use asmc.Cc.Names.{equal, strncmp2}
use asmc.Cc.Numbers.{decode_number}
use asmc.Cc.Literals.{fix_strings, fix_round}
use asmc.Cc.Operations.{pair_token}
use asmc.Cc.Tables.{slot_from}
use asmc.Cc.Blocks.{up_to_nul}
use asmc.Cc2.Tables.{
  Cc2Globals, push_var, pop_var, pop_to_depth, find_in_stack2, emit, emit32, emits,
}
use asmc.Cc2.Types.{find_id, is_type, interpret_from, interpret_type}
use asmc.Cc2.Eval.{compile_expression}
use asmc.Cc2.Blocks.{fix_operands, compile_statement, compile_block, main}
use asmc.Cc2.Declarations.{interpret_type-declaration}
use asmc.Cc2.Termination.{main-ends}
use asmc.Cc2.Image.{Image, main-Image}

abbrev before : Cc2Globals
before = record {
  block_depth = 0;
  stack_depth = 0;
  current_loc = 0;
  ret_depth = 0;
  stack_vars = λ i. [];
  output = [];
}

abbrev source : Bytes
source = codes "int f(a) { int x = 2; return x + a ; } "

run : Outcome Cc2Globals (Unit {0})
unfolding main compile_block compile_statement compile_expression interpret_type find_id push_var
    pop_var pop_to_depth find_in_stack2 emit emit32 emits fix_operands pair_token fix_strings
    fix_round decode_number equal strncmp2 find_char find_char_back find_matching find_matching_rev
    remove_spaces trimstr up_to_nul repeat
run = main source before

abbrev final : Outcome Cc2Globals (Unit {0}) → Cc2Globals
final (done a h) = h
final (stop e) = before

run-done : main source before ≡ done tt (final run)
unfolding run slot_from
run-done = refl

main-Image_example : Image before (final run)
main-Image_example = main-Image source before (final run) run-done

is_int : is_type (codes "int") ≡ true
unfolding strncmp2
is_int = refl

is_x : is_type (codes "x") ≡ false
unfolding strncmp2
is_x = refl

-- int x
interpret_type-declaration_example :
    (interpret_type (codes "int x") before ≡ done (codes "x") before)
    × ((fuel : ℕ) (rest : Bytes)
        → interpret_from fuel 0 [] (codes "int " ++ (b'x' ∷ b'[' ∷ rest)) before ≡ stop out_of_fuel)
interpret_type-declaration_example =
    interpret_type-declaration b'i' (codes "nt") b'x' [] before (refl, (refl, (refl, tt)))
      (refl, tt) is_int is_x

-- A variable of the program.
declared : fix_strings (codes "int x;") ≡ some (codes "int x;")
unfolding fix_strings fix_round
declared = refl

main-ends_example : main (codes "int x;") before ≢ stop out_of_fuel
main-ends_example =
    main-ends (codes "int x;") (codes "int x;") before declared
      (omega arith, (omega arith, (omega arith, (omega arith, (omega arith, (omega arith, tt))))))
