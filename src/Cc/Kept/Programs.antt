-- ===== src/Cc/Kept/Programs.antt =====
-- cc/cc.c: statements, blocks and the whole program keep what the primitives keep, and the length of a
-- block is enough fuel.
use asmc.Prelude.{
  ℕ, zero, suc, ◌+◌, ◌-◌, ◌<◌, ◌≤◌, arith, ◌≡◌, some, inl, inr, Option-cases, length, List, [], ◌∷◌,
  take, drop, length-take-le, length-take-le_length, length-drop,
}
use asmc.Cstring.{Bytes}
use asmc.Run.Keeps.{StepRelation, Keeps}
use asmc.Run.Flow.{flow, bind_rule, pure_rule, if_rule, option_rule}
use asmc.Cc.Kept.{CcPrimitives, code_flow, fault_rule}
use asmc.Cc.Kept.Operators.{find_char_back-lt}
use asmc.Cc.Kept.Evaluation.{compile_expression-Keeps}
use asmc.Cc.Tables.{CcGlobals, C, Literal}
use asmc.Cc.Text.{find_char, find_char_back, find_matching}
use asmc.Cc.Statements.{
  next_string, compile_declaration, compile_return, compile_effect, compile_statement, emit_branch,
  add_label, process_fi, process_if, process_if_end, process_else, process_elseif,
}
use asmc.Cc.Blocks.{
  Head, Opened, read_head, push_params, begin_function, begin_if, begin_elseif, begin_else,
  open_block, close_block, compile_block_with_head, around_block, behind_byte, block_loop,
  compile_block, emit_literal, create_string, create_each, create_strings,
}
use asmc.Cc.Expressions.{slice}
use asmc.Cc.Driver.{stage_body}

pub find_char-lt : (s : Bytes) (c i : ℕ) → find_char s c ≡ some i → i < length s
unfolding find_char
find_char-lt [] c i e = absurd (ground arith)
find_char-lt (x ∷ s) c i e = elim (Option-cases (find_char s c)) [
  | inl p ↦ ground arith
  | inr (j, p) ↦ ground (arith, find_char-lt s c j p)
]

-- What is compiled of the block between `pos` and its brace.
abbrev pub body_of : ℕ → ℕ → Bytes → Bytes
body_of pos size text = let body = slice text (pos + 1) (pos + size) in take (length body - 1) body

pub body_of-le :
    (pos size : ℕ) (text : Bytes) → length (body_of pos size text) ≤ length text - (pos + 1)
body_of-le pos size text = omega (
  arith,
  length-take-le_length {0} (length (slice text (pos + 1) (pos + size)) - 1)
      (slice text (pos + 1) (pos + size)),
  length-take-le_length {0} (pos + size - (pos + 1)) (drop (pos + 1) text),
  length-drop {0} (pos + 1) text,
)

module _ {S : StepRelation CcGlobals} (P : CcPrimitives S) where
  next_string-Keeps : (s : Bytes) → Keeps S (next_string s)
  unfolding next_string
  next_string-Keeps [] = fault_rule P
  next_string-Keeps (c ∷ s) = pure_rule s

  declaration-Keeps : (p : Bytes) → Keeps S (compile_declaration p)
  unfolding compile_declaration
  declaration-Keeps p = search (code_flow, P, next_string-Keeps) depth 30

  params-Keeps :
      (fuel : ℕ) (inside : Bytes) (num : ℕ)
      → length inside < fuel
      → Keeps S (push_params fuel inside num)
  unfolding push_params
  params-Keeps zero inside num l = absurd (omega arith)
  params-Keeps (suc fuel) inside num l = elim (Option-cases (find_char_back inside b',')) [
    | inl q ↦ rw q (search (code_flow, P) depth 20)
    | inr (pos, q) ↦
        let before =
          params-Keeps fuel (take pos inside) (num + 1)
            (omega (arith, find_char_back-lt inside b',' pos q, length-take-le pos inside)) in
        rw q (search (code_flow, P, before) depth 20)
  ]

  function-Keeps :
      (head : Head) (else_lab fi_lab : ℕ) → Keeps S (begin_function head else_lab fi_lab)
  unfolding begin_function
  function-Keeps head else_lab fi_lab =
      let params = λ (inside : Bytes). params-Keeps (length inside + 1) inside 0 (omega arith) in
      search (code_flow, P, params) depth 30

  head-Keeps : (head : Bytes) → Keeps S (read_head head)
  unfolding read_head
  head-Keeps head = search (code_flow, P) depth 30

  module _ (label_text : ℕ → Bytes) where
    return-Keeps : (p : Bytes) → Keeps S (compile_return label_text p)
    unfolding compile_return
    return-Keeps p = search (code_flow, P, next_string-Keeps, compile_expression-Keeps) depth 40

    effect-Keeps : (p : Bytes) → Keeps S (compile_effect label_text p)
    unfolding compile_effect
    effect-Keeps p = search (code_flow, P, next_string-Keeps, compile_expression-Keeps) depth 40

    statement-Keeps : (piece : Bytes) → Keeps S (compile_statement label_text piece)
    unfolding compile_statement
    statement-Keeps piece = search (flow, return-Keeps, effect-Keeps, declaration-Keeps) depth 20

    branch-Keeps : (lab : ℕ) → Keeps S (emit_branch label_text lab)
    unfolding emit_branch
    branch-Keeps lab = search (code_flow, P) depth 30

    add_label-Keeps : (lab : ℕ) → Keeps S (add_label label_text lab)
    unfolding add_label
    add_label-Keeps lab = search (code_flow, P) depth 30

    fi-Keeps : (else_lab fi_lab : ℕ) → Keeps S (process_fi label_text else_lab fi_lab)
    unfolding process_fi
    fi-Keeps else_lab fi_lab = search (flow, add_label-Keeps)

    if-Keeps :
        (exp : Bytes) (else_lab fi_lab : ℕ) → Keeps S (process_if label_text exp else_lab fi_lab)
    unfolding process_if
    if-Keeps exp else_lab fi_lab =
        search (code_flow, P, fi-Keeps, branch-Keeps, compile_expression-Keeps) depth 30

    if_end-Keeps : (fi_lab : ℕ) → Keeps S (process_if_end label_text fi_lab)
    unfolding process_if_end
    if_end-Keeps fi_lab = search (code_flow, P) depth 30

    else-Keeps : (else_lab : ℕ) → Keeps S (process_else label_text else_lab)
    unfolding process_else
    else-Keeps else_lab = search (flow, add_label-Keeps)

    elseif-Keeps : (exp : Bytes) (else_lab : ℕ) → Keeps S (process_elseif label_text exp else_lab)
    unfolding process_elseif
    elseif-Keeps exp else_lab =
        search (code_flow, P, else-Keeps, branch-Keeps, compile_expression-Keeps) depth 30

    begin_if-Keeps :
        (exp : Bytes) (else_lab fi_lab : ℕ) → Keeps S (begin_if label_text exp else_lab fi_lab)
    unfolding begin_if
    begin_if-Keeps exp else_lab fi_lab = search (flow, if-Keeps)

    begin_elseif-Keeps :
        (exp : Bytes) (else_lab fi_lab : ℕ) → Keeps S (begin_elseif label_text exp else_lab fi_lab)
    unfolding begin_elseif
    begin_elseif-Keeps exp else_lab fi_lab = search (flow, elseif-Keeps)

    begin_else-Keeps : (else_lab fi_lab : ℕ) → Keeps S (begin_else label_text else_lab fi_lab)
    unfolding begin_else
    begin_else-Keeps else_lab fi_lab = search (flow, else-Keeps)

    open-Keeps :
        (head : Head) (else_lab fi_lab : ℕ) → Keeps S (open_block label_text head else_lab fi_lab)
    unfolding open_block
    open-Keeps head else_lab fi_lab =
        search (flow, function-Keeps, begin_if-Keeps, begin_elseif-Keeps, begin_else-Keeps) depth 20

    close-Keeps : (opened : Opened) → Keeps S (close_block label_text opened)
    unfolding close_block
    close-Keeps opened = search (code_flow, P, if_end-Keeps) depth 30

    around-Keeps : (loop : C (ℕ × ℕ)) → Keeps S loop → Keeps S (around_block label_text loop)
    unfolding around_block
    around-Keeps loop h = search (code_flow, P, h, fi-Keeps) depth 30

    with_head-Keeps :
        (block : Bytes → C (Unit {0})) (head body : Bytes) (else_lab fi_lab : ℕ)
        → Keeps S (block (take (length body - 1) body))
        → Keeps S (compile_block_with_head label_text block head body else_lab fi_lab)
    unfolding compile_block_with_head
    with_head-Keeps block head body else_lab fi_lab h =
        search (flow, h, fault_rule, P, head-Keeps, open-Keeps, close-Keeps) depth 20

    loop-Keeps :
        (fuel : ℕ) (text : Bytes) (else_lab fi_lab : ℕ)
        → length text < fuel
        → Keeps S (block_loop label_text fuel text else_lab fi_lab)
    unfolding block_loop
    loop-Keeps zero text else_lab fi_lab l = absurd (omega arith)
    loop-Keeps (suc fuel) text else_lab fi_lab l =
        let rest = λ (n e f : ℕ) (k : 0 < length text).
          loop-Keeps fuel (behind_byte n text) e f
            (omega (arith, k, length-drop {0} (n + 1) text)) in
        let statement = λ (pos : ℕ) (k : 0 < length text).
          bind_rule (fi-Keeps else_lab fi_lab)
            (λ _. bind_rule (statement-Keeps (take pos text)) (λ _. rest pos 0 0 k)) in
        let nested = λ (pos size : ℕ) (k : 0 < length text). around-Keeps _ (
          loop-Keeps fuel (body_of pos size text) 0 0
            (omega (arith, k, body_of-le pos size text))) in
        let headed = λ (pos : ℕ) (k : 0 < length text).
          bind_rule
            (option_rule (find_matching b'{' b'}' (drop pos text)) (fault_rule P)
              (λ (i : ℕ). pure_rule i))
            (λ size.
              bind_rule
                (with_head-Keeps
                  (λ inner. around_block label_text (block_loop label_text fuel inner 0 0))
                  (take pos text) (slice text (pos + 1) (pos + size)) else_lab fi_lab
                  (nested pos size k))
                (λ labs. rest (pos + size) (labs.0) (labs.1) k)) in
        elim (Option-cases (find_char text b';')) [
          | inl p ↦ elim (Option-cases (find_char text b'{')) [
            | inl q ↦ rw (p, q) (search flow)
            | inr (brace, q) ↦
                rw (p, q) (headed brace (omega (arith, find_char-lt text b'{' brace q)))
          ]
          | inr (semicolon, p) ↦
              let s = statement semicolon (omega (arith, find_char-lt text b';' semicolon p)) in
              elim (Option-cases (find_char text b'{')) [
                | inl q ↦ rw (p, q) s
                | inr (brace, q) ↦
                    let h = headed brace (omega (arith, find_char-lt text b'{' brace q)) in
                    rw (p, q) (search (if_rule, s, h))
              ]
        ]

    block-Keeps : (text : Bytes) → Keeps S (compile_block label_text text)
    unfolding compile_block
    block-Keeps text = around-Keeps _ (loop-Keeps (length text + 1) text 0 0 (omega arith))

    literal-Keeps : (s : Bytes) → Keeps S (emit_literal label_text s)
    unfolding emit_literal
    literal-Keeps [] = pure_rule tt
    literal-Keeps (c ∷ []) = search (code_flow, P) depth 20
    literal-Keeps (c ∷ d ∷ s) =
        let behind_quotes = literal-Keeps s in
        let behind_one = literal-Keeps (d ∷ s) in
        search (code_flow, P, behind_quotes, behind_one) depth 20

    string-Keeps : (literal : Literal) → Keeps S (create_string label_text literal)
    unfolding create_string
    string-Keeps literal = search (flow, add_label-Keeps, literal-Keeps) depth 20

    each-Keeps : (literals : List Literal) → Keeps S (create_each label_text literals)
    unfolding create_each
    each-Keeps [] = pure_rule tt
    each-Keeps (literal ∷ literals) = bind_rule (string-Keeps literal) (λ _. each-Keeps literals)

    strings-Keeps : Keeps S (create_strings label_text)
    unfolding create_strings
    strings-Keeps = search (flow, each-Keeps)

    pub stage_body-Keeps : (file : Bytes) → Keeps S (stage_body label_text file)
    unfolding stage_body
    stage_body-Keeps file = search (code_flow, P, block-Keeps, strings-Keeps) depth 20
