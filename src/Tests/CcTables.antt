-- ===== src/Tests/CcTables.antt =====
-- The tables of the C compiler at inputs that meet the hypotheses.
use asmc.Run.{done, stop, panic}
use asmc.Prelude.{
  false, suc, none, some, [], ◌∷◌, ◌≡◌, refl, arith, codes, ◌==◌, if◌then◌else◌, option,
}
use asmc.Cc.Names.{equal}
use asmc.Cc.Tables.{
  CcGlobals, append_label, add_symbol, find_symbol, find_symbol2, get_symbol, get_symbol2, push_var,
  pop_var, find_in_stack, find_in_stack2,
}
use asmc.Cc.Lookups.{searches-agree, find_in_stack-push_var, get_symbol-add_symbol, in_stage_one}

abbrev first : CcGlobals
first = record {
  stage = 0;
  current_loc = 0;
  output = [];
  labels = (record { name = codes "main"; loc = 12 }) ∷ [];
  stack_depth = 1;
  stack_vars = λ i. codes "x";
  block_depth = 1;
  ret_depth = 0;
  char_op = false;
  literals = [];
  lab_id = 1;
}

searches-agree_example :
    (find_symbol2 (codes "main") first ≡ find_symbol (codes "main") first)
    × (get_symbol2 (codes "main") first ≡ get_symbol (codes "main") first)
    × (find_in_stack2 (codes "main") first ≡ find_in_stack (codes "main") first)
searches-agree_example = searches-agree (codes "main") first (omega arith) (λ i. omega arith)

abbrev with_y : CcGlobals
with_y = record first { stack_vars = λ i. if i == 1 then codes "y" else codes "x"; stack_depth = 2 }

pushes : push_var (codes "y") first ≡ done tt with_y
unfolding push_var
pushes = refl

find_in_stack-push_var_example :
    (find_in_stack (codes "x") with_y ≡ (
      if equal (codes "x") (codes "y")
      then some 0
      else option (find_in_stack (codes "x") first) none (λ i. some (suc i))))
    × ((k : CcGlobals) × (pop_var with_y ≡ done tt k)
        × (find_in_stack (codes "x") k ≡ find_in_stack (codes "x") first))
find_in_stack-push_var_example = find_in_stack-push_var (codes "y") (codes "x") first with_y pushes

adds : add_symbol (codes "f") 40 first ≡ done tt (append_label (codes "f") 40 first)
unfolding add_symbol find_symbol equal
adds = refl

get_symbol-add_symbol_example :
    (get_symbol (codes "f") (in_stage_one (append_label (codes "f") 40 first))
      ≡ done 40 (in_stage_one (append_label (codes "f") 40 first)))
    × (add_symbol (codes "f") 41 (in_stage_one (append_label (codes "f") 40 first)) ≡ (
        if 40 == 41
        then done tt (in_stage_one (append_label (codes "f") 40 first))
        else stop panic))
get_symbol-add_symbol_example =
    get_symbol-add_symbol (codes "f") 40 41 first (append_label (codes "f") 40 first) refl adds
