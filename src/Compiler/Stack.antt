-- ===== src/Compiler/Stack.antt =====
-- attic/gstaging.c: the names of what is on the stack of the running program, an array of slots.
pub mod View
use asmc.Prelude.{
  ℕ, zero, suc, ◌+◌, ◌-◌, Bool, true, Option, none, some, ltb, ◌==◌, if◌then◌else◌, option,
}
use asmc.Cstring.{Bytes, same, strlen}
use asmc.Run.{pure, ◌>>=◌, ◌>>◌, assert, gets, modify}
use asmc.Globals.{Globals, M}

abbrev pub max_token_len : ℕ
max_token_len = 128

abbrev pub stack_len : ℕ
stack_len = 1024

-- `strcpy(get_stack_vars() + slot * MAX_TOKEN_LEN, name)`
abbrev pub set_slot : (ℕ → Bytes) → ℕ → Bytes → ℕ → Bytes
set_slot vars slot name i = if i == slot then name else vars i

unfoldable pub push_var : Bytes → Bool → M (Unit {0})
push_var var_name temp = do
  let len = strlen var_name
  assert (ltb 0 len)
  assert (ltb len max_token_len)
  stack_depth ← gets (λ g. g.stack_depth)
  assert (ltb stack_depth stack_len)
  modify (λ g. record g {
    stack_vars = set_slot g.stack_vars g.stack_depth var_name;
    stack_depth = g.stack_depth + 1;
  })
  if temp
      then modify (λ g. record g { temp_depth = g.temp_depth + 1 })
      else (do temp_depth ← gets (λ g. g.temp_depth); assert (temp_depth == 0))

unfoldable pub pop_var : Bool → M (Unit {0})
pop_var temp = do
  stack_depth ← gets (λ g. g.stack_depth)
  assert (ltb 0 stack_depth)
  modify (λ g. record g { stack_depth = g.stack_depth - 1 })
  if temp
      then (do
        temp_depth ← gets (λ g. g.temp_depth)
        assert (ltb 0 temp_depth)
        modify (λ g. record g { temp_depth = g.temp_depth - 1 }))
      else pure tt

-- `while (*get_temp_depth() > 0) pop_var(1);`, with as many rounds as there are temporaries.
unfoldable pub pop_while : ℕ → M (Unit {0})
pop_while zero = pure tt
pop_while (suc rounds) =
    let again = pop_while rounds in
    do
      temp_depth ← gets (λ g. g.temp_depth)
      if ltb 0 temp_depth then (do pop_var true; again) else pure tt

unfoldable pub pop_temps : M (Unit {0})
unfolding pop_while
pop_temps = do temp_depth ← gets (λ g. g.temp_depth); pop_while temp_depth

-- The loop of `find_in_stack2` from the top slot down; `none` for -1.
unfoldable pub find_from : (ℕ → Bytes) → Bytes → ℕ → Option ℕ
find_from vars name zero = none
find_from vars name (suc depth) =
    if same name (vars depth)
    then some 0
    else option (find_from vars name depth) none (λ i. some (suc i))

unfoldable pub find_in_stack : Bytes → Globals → Option ℕ
unfolding find_from
find_in_stack var_name g = find_from g.stack_vars var_name g.stack_depth
