-- ===== src/Cc2/Kept/Evaluation.antt =====
-- cc/cc2.c: `eval_expr` keeps what the primitives keep, and the length of its piece is enough fuel.
use asmc.Prelude.{
  ℕ, zero, suc, ◌+◌, ◌-◌, ◌<◌, ◌≤◌, Bool, true, false, arith, inl, inr, Option-cases, length, List,
  [], ◌∷◌, Bool-cases, ltb, ltb→lt,
}
use asmc.Cstring.{Bytes}
use asmc.Run.{pure, expect, ◌>>=◌}
use asmc.Run.Keeps.{StepRelation, Keeps}
use asmc.Run.Flow.{flow, pure_rule, if_rule, option_rule, panic_rule, bind_rule}
use asmc.Cc.Kept.Evaluation.{match_at-empty}
use asmc.Cc.Text.{RevMatch, missing, at, outside, find_matching, remove_spaces}
use asmc.Cc.Expressions.{match_at, slice}
use asmc.Cc2.Kept.{Cc2Primitives, steps, fault_rule}
use asmc.Cc2.Tables.{Cc2Globals, C2}
use asmc.Cc2.Eval.{
  eval_number, eval_name, after_rev, run_eval_expr, scan_up, scan_down, parse_expr, try_pivots,
  eval_expr, compile_expression, pivots,
}

module _ {S : StepRelation Cc2Globals} (P : Cc2Primitives S) where
  number-Keeps : (piece : Bytes) (addr : Bool) → Keeps S (eval_number piece addr)
  unfolding eval_number
  number-Keeps piece addr = search (steps, P) depth 30

  name-Keeps : (piece : Bytes) (addr : Bool) → Keeps S (eval_name piece addr)
  unfolding eval_name
  name-Keeps piece addr = search (steps, P) depth 30

  rev-Keeps : (m : RevMatch) → Keeps S (after_rev m)
  unfolding after_rev
  rev-Keeps missing = panic_rule
  rev-Keeps (at i) = pure_rule false
  rev-Keeps outside = fault_rule P

  matched-Keeps :
      (opening closing : ℕ) (text : Bytes) (p end : ℕ) (f : ℕ → C2 Bool)
      → ((i : ℕ) → Keeps S (f (p + i)))
      → Keeps S (expect (match_at opening closing text p end) >>= f)
  matched-Keeps opening closing text p end f h =
      elim (Option-cases (find_matching opening closing (slice text p end))) [
        | inl q ↦ rw q panic_rule
        | inr (i, q) ↦ rw q (h i)
      ]

  -- `eval` keeps the relation on the pieces of fewer than `n` bytes.
  abbrev Shorter : ℕ → (ℕ → ℕ → Bool → C2 (Unit {0})) → Type 0
  Shorter n eval = (begin end : ℕ) (addr : Bool) → end - begin < n → Keeps S (eval begin end addr)

  module _ (text : Bytes) (eval : ℕ → ℕ → Bool → C2 (Unit {0})) (begin end : ℕ) (addr : Bool)
      (shorter : Shorter (end - begin) eval) where
    run-Keeps :
        (op : ℕ) → begin ≤ op → op < end → Keeps S (run_eval_expr text eval begin end addr op)
    unfolding run_eval_expr
    run-Keeps op l r =
        let right = shorter (op + 1) end false (omega arith) in
        let place = shorter begin op true (omega arith) in
        let left = shorter begin op false (omega arith) in
        search (steps, P, right, place, left) depth 40

    found-Keeps :
        (op : ℕ)
        → begin ≤ op
        → op < end
        → Keeps S (run_eval_expr text eval begin end addr op >>= λ _. pure true)
    found-Keeps op l r = bind_rule (run-Keeps op l r) (λ _. pure_rule true)

    up-Keeps :
        (pivot rounds p : ℕ) → begin ≤ p → Keeps S (scan_up text eval begin end addr pivot rounds p)
    unfolding scan_up
    up-Keeps pivot zero p l = pure_rule false
    up-Keeps pivot (suc rounds) p l = elim (Bool-cases (ltb p end)) [
      | inl q ↦
          let ran = found-Keeps p l (ground arith) in
          let again = λ (i : ℕ). up-Keeps pivot rounds (p + i + 1) (omega arith) in
          let next = up-Keeps pivot rounds (p + 1) (omega arith) in
          let jump = λ (i : ℕ). scan_up text eval begin end addr pivot rounds (i + 1) in
          rw q (
            if_rule _ ran (
              if_rule _ (matched-Keeps b'(' b')' text p end jump again)
                (if_rule _ (matched-Keeps b'[' b']' text p end jump again) next)))
      | inr q ↦ rw q (pure_rule false)
    ]

    down-Keeps :
        (pivot k : ℕ) → k ≤ end - begin → Keeps S (scan_down text eval begin end addr pivot k)
    unfolding scan_down
    down-Keeps pivot zero l = pure_rule false
    down-Keeps pivot (suc k) l =
        let ran = found-Keeps (begin + k) (omega arith) (omega arith) in
        let again = down-Keeps pivot k (omega arith) in search (if_rule, ran, again, rev-Keeps)

    parse_expr-Keeps : (pivot dir : ℕ) → Keeps S (parse_expr text eval begin end addr pivot dir)
    unfolding parse_expr
    parse_expr-Keeps pivot dir =
        let up = up-Keeps pivot (end - begin) begin (omega arith) in
        let down = down-Keeps pivot (end - begin) (omega arith) in search (if_rule, up, down)

    pivots-Keeps : (sets : List (ℕ × ℕ)) → Keeps S (try_pivots text eval begin end addr sets)
    unfolding try_pivots
    pivots-Keeps [] = search (steps, P) depth 20
    pivots-Keeps ((pivot, dir) ∷ rest) =
        let next = pivots-Keeps rest in search (flow, parse_expr-Keeps, next) depth 20

  eval_expr-Keeps :
      (text : Bytes) (fuel begin end : ℕ) (addr : Bool)
      → end - begin < fuel
      → Keeps S (eval_expr text fuel begin end addr)
  unfolding eval_expr
  eval_expr-Keeps text zero begin end addr l = absurd (omega arith)
  eval_expr-Keeps text (suc fuel) begin end addr l =
      let shorter : Shorter (end - begin) (eval_expr text fuel) =
        λ b e a k. eval_expr-Keeps text fuel b e a (omega (arith, k)) in
      let chain = pivots-Keeps text (eval_expr text fuel) begin end addr shorter pivots in
      elim (Bool-cases (ltb begin end)) [
        | inl q ↦
            let inner =
              eval_expr-Keeps text fuel (begin + 1) (end - 1) addr
                (omega (arith, ltb→lt begin end q)) in
            search (if_rule, option_rule, pure_rule, inner, chain, number-Keeps, name-Keeps)
        | inr q ↦
            rw (match_at-empty b'(' b')' text begin end (ground arith))
              (search (if_rule, pure_rule, chain, number-Keeps, name-Keeps))
      ]

  pub compile_expression-Keeps : (exp : Bytes) → Keeps S (compile_expression exp)
  unfolding compile_expression
  compile_expression-Keeps exp =
      let text = remove_spaces exp in
      eval_expr-Keeps text (length text + 1) 0 (length text) false (omega arith)
