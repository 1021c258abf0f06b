-- ===== src/Tests/CcPrograms.antt =====
-- The C compiler at a small file.
use asmc.Prelude.{ℕ, ◌+◌, false, [], ◌∷◌, ◌≡◌, ◌≢◌, refl, codes, arith, length}
use asmc.Cstring.{Bytes}
use asmc.Run.{Outcome, done, stop, out_of_fuel, repeat}
use asmc.Cc.Text.{
  find_char, find_char_back, find_matching, find_matching_rev, remove_spaces, trimstr, isstrpref,
  escaped,
}
use asmc.Cc.Names.{equal, strncmp2}
use asmc.Cc.Numbers.{decode_number}
use asmc.Cc.Literals.{fix_strings, fix_round}
use asmc.Cc.Operations.{fix_operations, fix_operations2, pair_token}
use asmc.Cc.Tables.{
  CcGlobals, find_symbol, find_symbol2, get_symbol, get_symbol2, add_symbol, push_var, pop_var,
  pop_to_depth, find_in_stack2, emit, emit32, emits,
}
use asmc.Cc.Expressions.{is_in, gen_id, run_eval_expr}
use asmc.Cc.Eval.{try_pivots, eval_expr, compile_expression}
use asmc.Cc.Statements.{
  compile_statement, process_fi, process_if, process_else, process_elseif, process_if_end,
  add_label,
}
use asmc.Cc.Blocks.{up_to_nul, compile_block, create_strings}
use asmc.Cc.Driver.{main}
use asmc.Cc.Matching.{other, empty}
use asmc.Cc.Parentheses.{eval_expr-group_first}
use asmc.Cc.Layout.{main-terminates, CcImage, main-CcImage}
use asmc.Cc.Table.{CcTable, main-CcTable}

abbrev label_text : ℕ → Bytes
label_text n = b'.' ∷ (b'0' + n) ∷ []

abbrev before : CcGlobals
before = record {
  stage = 0;
  current_loc = 0;
  output = [];
  labels = [];
  stack_depth = 0;
  stack_vars = λ i. [];
  block_depth = 0;
  ret_depth = 0;
  char_op = false;
  literals = [];
  lab_id = 0;
}

abbrev source : Bytes
source = codes "int g;\nf(a) { if (a) { g = a + 2; } ; return g; } "

run : Outcome CcGlobals (Unit {0})
unfolding main compile_block create_strings up_to_nul compile_statement process_fi process_if
    process_else process_elseif process_if_end add_label try_pivots eval_expr compile_expression
    is_in gen_id run_eval_expr find_symbol find_symbol2 get_symbol get_symbol2 add_symbol push_var
    pop_var pop_to_depth find_in_stack2 emit emit32 emits fix_operations fix_operations2 pair_token
    fix_strings fix_round decode_number equal strncmp2 find_char find_char_back find_matching
    find_matching_rev remove_spaces trimstr isstrpref escaped repeat
run = main label_text source before

abbrev final : Outcome CcGlobals (Unit {0}) → CcGlobals
final (done a h) = h
final (stop e) = before

run-done : main label_text source before ≡ done tt (final run)
unfolding run
run-done = refl

main-CcImage_example : CcImage label_text source before (final run)
main-CcImage_example = main-CcImage label_text source before (final run) run-done

main-terminates_example : main label_text source before ≢ stop out_of_fuel
main-terminates_example = main-terminates label_text source before

-- (a)+b
eval_expr-group_first_example :
    eval_expr label_text (codes "(a)+b") 6 0 (length (codes "(a)+b")) false before ≡ done tt before
eval_expr-group_first_example =
    eval_expr-group_first label_text (codes "a") b'+' (codes "b") 5 false before
      (other b'a' [] (omega arith) (omega arith) empty) (omega arith)

main-CcTable_example : CcTable (final run).labels
main-CcTable_example = main-CcTable label_text source before (final run) run-done
