-- ===== src/Cc/Kept/Operators.antt =====
-- cc/cc.c: the code of the operators keeps what the primitives keep, when the evaluation of shorter
-- pieces does.
use asmc.Prelude.{
  ℕ, zero, suc, ◌+◌, ◌-◌, ◌<◌, ◌≤◌, Bool, true, false, arith, ◌≡◌, some, inl, inr, Option-cases,
  length, [], ◌∷◌, drop, length-take-le,
}
use asmc.Cstring.{Bytes}
use asmc.Run.Keeps.{StepRelation, Keeps}
use asmc.Run.Flow.{if_rule}
use asmc.Cc.Kept.{CcPrimitives, code_flow}
use asmc.Cc.Tables.{CcGlobals, C}
use asmc.Cc.Text.{find_char_back}
use asmc.Cc.Expressions.{
  slice, emit_and, emit_or, emit_comparison, emit_operator, eval_assign, eval_params, eval_call,
  eval_deref, eval_addr, eval_unary, eval_binary, run_eval_expr,
}

pub find_char_back-lt : (s : Bytes) (c i : ℕ) → find_char_back s c ≡ some i → i < length s
unfolding find_char_back
find_char_back-lt [] c i e = absurd (ground arith)
find_char_back-lt (x ∷ s) c i e = elim (Option-cases (find_char_back s c)) [
  | inl p ↦ ground arith
  | inr (j, p) ↦ ground (arith, find_char_back-lt s c j p)
]

module _ {S : StepRelation CcGlobals} (P : CcPrimitives S) where
  and-Keeps : Keeps S emit_and
  unfolding emit_and
  and-Keeps = search (code_flow, P) depth 30

  or-Keeps : Keeps S emit_or
  unfolding emit_or
  or-Keeps = search (code_flow, P) depth 30

  comparison-Keeps : (op : ℕ) → Keeps S (emit_comparison op)
  unfolding emit_comparison
  comparison-Keeps op = search (code_flow, P) depth 30

  operator-Keeps : (op : ℕ) → Keeps S (emit_operator op)
  unfolding emit_operator
  operator-Keeps op = search (code_flow, P, and-Keeps, or-Keeps, comparison-Keeps) depth 30

  -- `eval` keeps the relation on the pieces of fewer than `n` bytes.
  abbrev pub Shorter : ℕ → (ℕ → ℕ → Bool → C (Unit {0})) → Type 0
  Shorter n eval = (begin end : ℕ) (addr : Bool) → end - begin < n → Keeps S (eval begin end addr)

  module _ (text : Bytes) (eval : ℕ → ℕ → Bool → C (Unit {0})) where
    assign-Keeps :
        (begin op end : ℕ) (addr : Bool)
        → begin ≤ op
        → op < end
        → Shorter (end - begin) eval
        → Keeps S (eval_assign text eval begin op end addr)
    unfolding eval_assign
    assign-Keeps begin op end addr l r h =
        let right = h (op + 1) end false (omega arith) in
        let left = h begin op true (omega arith) in search (code_flow, P, right, left) depth 40

    params-Keeps :
        (fuel params_begin params_end param_num n : ℕ)
        → params_end - params_begin < n
        → params_end - params_begin < fuel
        → Shorter n eval
        → Keeps S (eval_params text eval fuel params_begin params_end param_num)
    unfolding eval_params
    params-Keeps zero b e num n l f h = absurd (omega arith)
    params-Keeps (suc fuel) b e num n l f h =
        elim (Option-cases (find_char_back (slice text b e) b',')) [
          | inl q ↦ let whole = h b e false l in rw q (search (code_flow, whole) depth 20)
          | inr (pos, q) ↦
              let inside : pos < e - b = omega (
                arith,
                find_char_back-lt (slice text b e) b',' pos q,
                length-take-le (e - b) (drop b text),
              ) in
              let last = h (b + pos + 1) e false (omega arith) in
              let before =
                params-Keeps fuel b (b + pos) (num + 1) n (omega arith) (omega arith) h in
              rw q (search (code_flow, last, before) depth 20)
        ]

    call-Keeps :
        (begin op end : ℕ) (addr : Bool)
        → begin ≤ op
        → op < end
        → Shorter (end - begin) eval
        → Keeps S (eval_call text eval begin op end addr)
    unfolding eval_call
    call-Keeps begin op end addr l r h =
        let params =
          params-Keeps (end - op) (op + 1) (end - 1) 0 (end - begin) (omega arith) (omega arith)
            h in
        let left = h begin op true (omega arith) in search (code_flow, P, params, left) depth 40

    deref-Keeps :
        (begin op end : ℕ) (addr : Bool)
        → begin ≤ op
        → op < end
        → Shorter (end - begin) eval
        → Keeps S (eval_deref text eval begin op end addr)
    unfolding eval_deref
    deref-Keeps begin op end addr l r h =
        let right = h (op + 1) end false (omega arith) in search (code_flow, P, right) depth 40

    addr-Keeps :
        (begin op end : ℕ) (addr : Bool)
        → begin ≤ op
        → op < end
        → Shorter (end - begin) eval
        → Keeps S (eval_addr text eval begin op end addr)
    unfolding eval_addr
    addr-Keeps begin op end addr l r h =
        let right = h (op + 1) end true (omega arith) in search (code_flow, right) depth 40

    unary-Keeps :
        (begin op end : ℕ) (addr : Bool)
        → begin ≤ op
        → op < end
        → Shorter (end - begin) eval
        → Keeps S (eval_unary text eval begin op end addr)
    unfolding eval_unary
    unary-Keeps begin op end addr l r h =
        let right = h (op + 1) end false (omega arith) in search (code_flow, P, right) depth 40

    binary-Keeps :
        (begin op end : ℕ) (addr : Bool)
        → begin ≤ op
        → op < end
        → Shorter (end - begin) eval
        → Keeps S (eval_binary text eval begin op end addr)
    unfolding eval_binary
    binary-Keeps begin op end addr l r h =
        let right = h (op + 1) end false (omega arith) in
        let left = h begin op false (omega arith) in
        search (code_flow, P, right, left, operator-Keeps) depth 40

    pub run_eval_expr-Keeps :
        (begin op end : ℕ) (addr : Bool)
        → begin ≤ op
        → op < end
        → Shorter (end - begin) eval
        → Keeps S (run_eval_expr text eval begin op end addr)
    unfolding run_eval_expr
    run_eval_expr-Keeps begin op end addr l r h =
        let a = assign-Keeps begin op end addr l r h in
        let b = call-Keeps begin op end addr l r h in
        let c = deref-Keeps begin op end addr l r h in
        let d = addr-Keeps begin op end addr l r h in
        let e = unary-Keeps begin op end addr l r h in
        let f = binary-Keeps begin op end addr l r h in search (if_rule, a, b, c, d, e, f)
