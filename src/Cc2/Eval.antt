-- ===== src/Cc2/Eval.antt =====
-- cc/cc2.c: expressions. A piece of the text lies from `begin` to `end`.
use asmc.Prelude.{
  ℕ, zero, suc, ◌+◌, ◌-◌, ◌*◌, Bool, true, false, not, ◌&&◌, List, [], ◌∷◌, leb, ltb, ◌==◌,
  if◌then◌else◌, option, codes, length, drop,
}
use asmc.Cstring.{Bytes}
use asmc.Run.{pure, ◌>>=◌, ◌>>◌, halt, panic, fault, out_of_fuel, assert, expect, gets}
use asmc.Cc2.Shared.{is_id, find_matching_rev, remove_spaces, decode_number}
use asmc.Cc.Text.{byte_of, RevMatch, missing, at, outside}
use asmc.Cc.Expressions.{slice, temp_name, match_at}
use asmc.Cc2.Tables.{C2, push_var, pop_var, find_in_stack2, emit, emit32, emits}
use asmc.Cc2.Types.{find_id}

-- An operator or an operand without code of its own.
abbrev pub placeholder : ℕ → C2 (Unit {0})
placeholder x = do push_var (codes "__placeholder"); emit x

-- `pop eax`, `pop ecx`, and the entries of the stack.
abbrev pub pop_two : C2 (Unit {0})
pop_two = do emit 0x58; pop_var; emit 0x59; pop_var

unfoldable pub eval_number : Bytes → Bool → C2 (Unit {0})
eval_number piece addr = do
  assert (not addr)
  val ← expect (decode_number piece)
  emit 0x68
  emit32 val
  push_var temp_name

unfoldable pub eval_name : Bytes → Bool → C2 (Unit {0})
eval_name piece addr = do
  found ← gets (find_in_stack2 piece)
  pos ← expect found
  emits (if addr then 0x89 ∷ 0xe0 ∷ 0x05 ∷ [] else 0x8b ∷ 0x84 ∷ 0x24 ∷ [])
  emit32 (4 * pos)
  emit 0x50
  push_var temp_name

-- `assert(p != 0)` on the result of `find_matching_rev`, and the end of the loop: the place that is
-- found does not lie behind `begin`, so that `p--` passes it.
unfoldable pub after_rev : RevMatch → C2 Bool
after_rev missing = halt panic
after_rev (at i) = pure false
after_rev outside = halt fault

-- The calls of `parse_expr`, the loosest operator first, with the direction of the search.
abbrev pub pivots : List (ℕ × ℕ)
pivots = (b'=', 1) ∷ (0x89, 0) ∷ (0x88, 0) ∷ (b'+', 0) ∷ (b'*', 0) ∷ []

module _ (text : Bytes) (eval : ℕ → ℕ → Bool → C2 (Unit {0})) (begin end : ℕ) (addr : Bool) where
  unfoldable pub run_eval_expr : ℕ → C2 (Unit {0})
  run_eval_expr op =
      if byte_of text op == b'='
      then (do
        eval (op + 1) end false
        eval begin op true
        pop_two
        emits (0x89 ∷ 0x08 ∷ [])
        push_var temp_name
        emit (if addr then 0x50 else 0x51))
      else if byte_of text op == b'+'
      then (do
        assert (not addr)
        eval (op + 1) end false
        eval begin op false
        pop_two
        emits (0x01 ∷ 0xc8 ∷ [])
        push_var temp_name
        emit 0x50)
      else placeholder 0x57

  -- The loop from the front: `p` grows in each round, so there are no more rounds than bytes.
  unfoldable pub scan_up : ℕ → ℕ → ℕ → C2 Bool
  unfolding run_eval_expr
  scan_up pivot zero p = pure false
  scan_up pivot (suc rounds) p =
      let again = scan_up pivot rounds in
      let c = byte_of text p in
      if ltb p end
      then (if c == pivot
          then (do run_eval_expr p; pure true)
          else if c == b'('
          then (do q ← expect (match_at b'(' b')' text p end); again (q + 1))
          else if c == b'['
          then (do q ← expect (match_at b'[' b']' text p end); again (q + 1))
          else again (p + 1))
      else pure false

  -- The loop from the back, with `p` at `begin + k` in a round.
  unfoldable pub scan_down : ℕ → ℕ → C2 Bool
  unfolding run_eval_expr after_rev
  scan_down pivot zero = pure false
  scan_down pivot (suc k) =
      let again = scan_down pivot k in
      let p = begin + k in
      let c = byte_of text p in
      if c == pivot
      then (do run_eval_expr p; pure true)
      else if c == b')'
      then after_rev (find_matching_rev b'(' b')' text begin (p + 1))
      else if c == b']'
      then after_rev (find_matching_rev b'[' b']' text begin (p + 1))
      else again

  unfoldable pub parse_expr : ℕ → ℕ → C2 Bool
  unfolding scan_up scan_down
  parse_expr pivot dir =
      if dir == 0 then scan_up pivot (end - begin) begin else scan_down pivot (end - begin)

  -- The chain of `else if`.
  unfoldable pub try_pivots : List (ℕ × ℕ) → C2 (Unit {0})
  unfolding parse_expr
  try_pivots [] = placeholder 0x56
  try_pivots ((pivot, dir) ∷ rest) =
      let next = try_pivots rest in do found ← parse_expr pivot dir; if found then pure tt else next

-- The pieces of the recursive calls are shorter, so that the length of the piece bounds their nesting.
unfoldable pub eval_expr : Bytes → ℕ → ℕ → ℕ → Bool → C2 (Unit {0})
unfolding eval_number eval_name try_pivots
eval_expr text zero begin end addr = halt out_of_fuel
eval_expr text (suc fuel) begin end addr =
    let eval = eval_expr text fuel in
    let c = byte_of text begin in
    if c == b'('
    then option (match_at b'(' b')' text begin end) (pure tt)
        (λ i. if i == end - 1 then eval (begin + 1) (end - 1) addr else pure tt)
    else if is_id c && begin + find_id (drop begin text) == end
    then (if leb b'0' c && leb c b'9'
        then eval_number (slice text begin end) addr
        else eval_name (slice text begin end) addr)
    else try_pivots text eval begin end addr pivots

unfoldable pub compile_expression : Bytes → C2 (Unit {0})
unfolding eval_expr
compile_expression exp =
    let text = remove_spaces exp in eval_expr text (length text + 1) 0 (length text) false
