-- ===== src/Cc/Kept/Evaluation.antt =====
-- cc/cc.c: `eval_expr` keeps what the primitives keep, and the length of its piece is enough fuel.
use asmc.Prelude.{
  ℕ, zero, suc, ◌+◌, ◌-◌, ◌<◌, ◌≤◌, Bool, false, refl, arith, ◌≡◌, none, inl, inr, Option-cases,
  length, List, [], ◌∷◌, Bool-cases, ltb, ltb→lt,
}
use asmc.Cstring.{Bytes}
use asmc.Run.{expect, ◌>>=◌}
use asmc.Run.Keeps.{StepRelation, Keeps}
use asmc.Run.Flow.{flow, pure_rule, if_rule, option_rule, panic_rule}
use asmc.Cc.Kept.{CcPrimitives, code_flow, fault_rule}
use asmc.Cc.Kept.Operators.{Shorter, run_eval_expr-Keeps}
use asmc.Cc.Tables.{CcGlobals, C}
use asmc.Cc.Text.{RevMatch, missing, at, outside, find_matching}
use asmc.Cc.Expressions.{match_at, slice}
use asmc.Cc.Eval.{
  eval_number, eval_char, eval_name, eval_string, eval_leaf, after_rev, scan_up, scan_down,
  parse_expr, try_pivots, eval_expr, compile_expression, pivots,
}

pub match_at-empty :
    (opening closing : ℕ) (text : Bytes) (begin end : ℕ)
    → end - begin ≡ 0
    → match_at opening closing text begin end ≡ none
unfolding find_matching
match_at-empty opening closing text begin end e = rw e refl

module _ {S : StepRelation CcGlobals} (P : CcPrimitives S) where
  number-Keeps : (piece : Bytes) (addr : Bool) → Keeps S (eval_number piece addr)
  unfolding eval_number
  number-Keeps piece addr = search (code_flow, P) depth 30

  char-Keeps : (text : Bytes) (begin end : ℕ) → Keeps S (eval_char text begin end)
  unfolding eval_char
  char-Keeps text begin end = search (code_flow, P) depth 30

  name-Keeps : (piece : Bytes) (addr : Bool) → Keeps S (eval_name piece addr)
  unfolding eval_name
  name-Keeps piece addr = search (code_flow, P) depth 30

  string-Keeps :
      (label_text : ℕ → Bytes) (text : Bytes) (begin end : ℕ) (addr : Bool)
      → Keeps S (eval_string label_text text begin end addr)
  unfolding eval_string
  string-Keeps label_text text begin end addr = search (code_flow, P) depth 40

  leaf-Keeps :
      (label_text : ℕ → Bytes) (text : Bytes) (begin end : ℕ) (addr : Bool)
      → Keeps S (eval_leaf label_text text begin end addr)
  unfolding eval_leaf
  leaf-Keeps label_text text begin end addr =
      search (if_rule, number-Keeps, char-Keeps, name-Keeps, string-Keeps)

  rev-Keeps : (m : RevMatch) → Keeps S (after_rev m)
  unfolding after_rev
  rev-Keeps missing = panic_rule
  rev-Keeps (at i) = pure_rule false
  rev-Keeps outside = fault_rule P

  matched-Keeps :
      (opening closing : ℕ) (text : Bytes) (p end : ℕ) (f : ℕ → C Bool)
      → ((i : ℕ) → Keeps S (f (p + i)))
      → Keeps S (expect (match_at opening closing text p end) >>= f)
  matched-Keeps opening closing text p end f h =
      elim (Option-cases (find_matching opening closing (slice text p end))) [
        | inl q ↦ rw q panic_rule
        | inr (i, q) ↦ rw q (h i)
      ]

  module _ (text : Bytes) (eval : ℕ → ℕ → Bool → C (Unit {0})) (begin end : ℕ) (addr : Bool)
      (shorter : Shorter P (end - begin) eval) where
    up-Keeps :
        (set : Bytes) (rounds p : ℕ)
        → begin ≤ p
        → Keeps S (scan_up text eval begin end addr set rounds p)
    unfolding scan_up
    up-Keeps set zero p l = pure_rule false
    up-Keeps set (suc rounds) p l = elim (Bool-cases (ltb p end)) [
      | inl q ↦
          let ran = run_eval_expr-Keeps P text eval begin p end addr l (ground arith) shorter in
          let again = λ (i : ℕ). up-Keeps set rounds (p + i + 1) (omega arith) in
          let next = up-Keeps set rounds (p + 1) (omega arith) in
          let jump = λ (i : ℕ). scan_up text eval begin end addr set rounds (i + 1) in
          rw q (
            if_rule _ ran (
              if_rule _ (matched-Keeps b'(' b')' text p end jump again)
                (if_rule _ (matched-Keeps b'[' b']' text p end jump again) next)))
      | inr q ↦ rw q (pure_rule false)
    ]

    down-Keeps :
        (set : Bytes) (k : ℕ) → k ≤ end - begin → Keeps S (scan_down text eval begin end addr set k)
    unfolding scan_down
    down-Keeps set zero l = pure_rule false
    down-Keeps set (suc k) l =
        let ran =
          run_eval_expr-Keeps P text eval begin (begin + k) end addr (omega arith) (omega arith)
            shorter in
        let again = down-Keeps set k (omega arith) in search (if_rule, ran, again, rev-Keeps)

    parse_expr-Keeps :
        (set : Bytes) (dir : ℕ) → Keeps S (parse_expr text eval begin end addr set dir)
    unfolding parse_expr
    parse_expr-Keeps set dir =
        let up = up-Keeps set (end - begin) begin (omega arith) in
        let down = down-Keeps set (end - begin) (omega arith) in search (if_rule, up, down)

    pivots-Keeps :
        (label_text : ℕ → Bytes) (sets : List (Bytes × ℕ))
        → Keeps S (try_pivots text eval begin end addr label_text sets)
    unfolding try_pivots
    pivots-Keeps label_text [] = leaf-Keeps label_text text begin end addr
    pivots-Keeps label_text ((set, dir) ∷ rest) =
        let next = pivots-Keeps label_text rest in search (flow, parse_expr-Keeps, next) depth 20

  pub eval_expr-Keeps :
      (label_text : ℕ → Bytes) (text : Bytes) (fuel begin end : ℕ) (addr : Bool)
      → end - begin < fuel
      → Keeps S (eval_expr label_text text fuel begin end addr)
  unfolding eval_expr
  eval_expr-Keeps label_text text zero begin end addr l = absurd (omega arith)
  eval_expr-Keeps label_text text (suc fuel) begin end addr l =
      let shorter : Shorter P (end - begin) (eval_expr label_text text fuel) =
        λ b e a k. eval_expr-Keeps label_text text fuel b e a (omega (arith, k)) in
      let chain =
        pivots-Keeps text (eval_expr label_text text fuel) begin end addr shorter label_text
          pivots in
      elim (Bool-cases (ltb begin end)) [
        | inl q ↦
            let inner =
              eval_expr-Keeps label_text text fuel (begin + 1) (end - 1) addr
                (omega (arith, ltb→lt begin end q)) in
            search (if_rule, option_rule, pure_rule, inner, chain)
        | inr q ↦
            rw (match_at-empty b'(' b')' text begin end (ground arith))
              (search (if_rule, pure_rule, chain))
      ]

  pub compile_expression-Keeps :
      (label_text : ℕ → Bytes) (exp : Bytes) → Keeps S (compile_expression label_text exp)
  unfolding compile_expression
  compile_expression-Keeps label_text exp =
      let whole = λ (fixed : Bytes).
        eval_expr-Keeps label_text fixed (length fixed + 1) 0 (length fixed) false (omega arith) in
      search (code_flow, P, whole) depth 10
