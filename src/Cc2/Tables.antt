-- ===== src/Cc2/Tables.antt =====
-- cc/cc2.c: the globals, the stack of variables and the emitters.
use asmc.Prelude.{ℕ, ◌+◌, ◌^◌, Option, [], ◌∷◌, ◌++◌, ltb, ◌==◌, if◌then◌else◌}
use asmc.Cstring.{Bytes, strlen}
use asmc.Run.{Run, done, pure, ◌>>=◌, ◌>>◌, halt, panic, fault, assert, gets, modify}
use asmc.Globals.{word, sub_word, loop_count, byte_at}
use asmc.Cc2.Shared.{strncmp2}
use asmc.Cc.Tables.{max_id_len, max_depth, slot_from}

-- `output` is what is written to stdout.
pub record Cc2Globals : Type 0 where
  pub block_depth : ℕ
  pub stack_depth : ℕ
  pub current_loc : ℕ
  pub ret_depth : ℕ
  pub stack_vars : ℕ → Bytes
  pub output : Bytes

abbrev pub C2 : Type 0 → Type 0
C2 A = Run Cc2Globals A

abbrev pub put_var : Bytes → Cc2Globals → Cc2Globals
put_var var_name g = record g {
  stack_vars = λ i. if i == g.stack_depth then var_name else g.stack_vars i;
  stack_depth = g.stack_depth + 1;
}

-- A negative depth passes the last assert.
unfoldable pub push_var : Bytes → C2 (Unit {0})
push_var var_name = do
  assert (ltb 0 (strlen var_name))
  assert (ltb (strlen var_name) max_id_len)
  stack_depth ← gets (λ g. g.stack_depth)
  if ltb stack_depth max_depth
      then modify (put_var var_name)
      else if ltb stack_depth (2 ^ 31)
      then halt panic
      else halt fault

unfoldable pub pop_var : C2 (Unit {0})
pop_var = modify (λ g. record g { stack_depth = sub_word g.stack_depth 1 })

unfoldable pub pop_to_depth : ℕ → C2 (Unit {0})
pop_to_depth depth = modify (λ g. record g { stack_depth = depth })

unfoldable pub find_in_stack2 : Bytes → Cc2Globals → Option ℕ
find_in_stack2 piece g = slot_from (strncmp2 piece) g.stack_vars (loop_count g.stack_depth)

unfoldable pub emit : ℕ → C2 (Unit {0})
emit x g =
    done tt (record g { output = g.output ++ x ∷ []; current_loc = word (g.current_loc + 1) })

unfoldable pub emit32 : ℕ → C2 (Unit {0})
emit32 x = do emit (byte_at x 0); emit (byte_at x 8); emit (byte_at x 16); emit (byte_at x 24)

-- A run of `emit` calls.
unfoldable pub emits : Bytes → C2 (Unit {0})
emits [] = pure tt
emits (x ∷ s) = do emit x; emits s
