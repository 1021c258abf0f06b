-- ===== src/Cc2/Kept/Programs.antt =====
-- cc/cc2.c: statements and blocks keep what the primitives keep, and the length of a block is enough
-- fuel. Of `interpret_type` this is assumed, for text of which every byte has a property.
use asmc.Prelude.{
  ℕ, zero, suc, ◌+◌, ◌-◌, ◌<◌, arith, inl, inr, Option-cases, length, [], ◌∷◌, take, drop,
  length-take-le, length-drop, All, All-take, All-drop, Bool-cases, if◌then◌else◌,
}
use asmc.Cstring.{Bytes}
use asmc.Run.Keeps.{StepRelation, Keeps}
use asmc.Run.Flow.{flow, bind_rule, pure_rule, if_rule, option_rule, assert_rule}
use asmc.Cc.Text.{
  is_whitespace, find_char, find_char_back, find_matching, skip_whitespace, drop_whitespace,
  trimstr,
}
use asmc.Cc.Blocks.{behind_byte}
use asmc.Cc.Expressions.{slice}
use asmc.Cc.Kept.Operators.{find_char_back-lt}
use asmc.Cc.Kept.Programs.{find_char-lt, body_of, body_of-le}
use asmc.Cc2.Kept.{Cc2Primitives, steps, fault_rule}
use asmc.Cc2.Kept.Evaluation.{compile_expression-Keeps}
use asmc.Cc2.Tables.{Cc2Globals, C2}
use asmc.Cc2.Types.{interpret_type}
use asmc.Cc2.Blocks.{
  declare, compile_declaration, compile_return, compile_statement, push_params, begin_function,
  end_function, compile_block_with_head, around_block, block_loop, compile_block,
}

module _ (Safe : ℕ → Type 0) where
  skip-All : (s : Bytes) → All Safe s → All Safe (skip_whitespace s)
  unfolding skip_whitespace
  skip-All [] h = tt
  skip-All (x ∷ s) (p, h) = elim (Bool-cases (is_whitespace x)) [
    | inl q ↦ rw q (skip-All s h)
    | inr q ↦ rw q (p, h)
  ]

  kept-All :
      (x : ℕ) (rest : Bytes)
      → Safe x
      → All Safe rest
      → All Safe (elim rest [ [] ↦ if is_whitespace x then [] else x ∷ [] | y ∷ r ↦ x ∷ y ∷ r ])
  kept-All x [] p h = elim (Bool-cases (is_whitespace x)) [ inl q ↦ rw q tt | inr q ↦ rw q (p, tt) ]
  kept-All x (y ∷ r) p h = (p, h)

  drop_whitespace-All : (s : Bytes) → All Safe s → All Safe (drop_whitespace s)
  unfolding drop_whitespace
  drop_whitespace-All [] h = tt
  drop_whitespace-All (x ∷ s) (p, h) = kept-All x (drop_whitespace s) p (drop_whitespace-All s h)

  trimstr-All : (s : Bytes) → All Safe s → All Safe (trimstr s)
  unfolding trimstr
  trimstr-All s h = drop_whitespace-All (skip_whitespace s) (skip-All s h)

module _ {S : StepRelation Cc2Globals} (P : Cc2Primitives S) where
  return-Keeps : (exp : Bytes) → Keeps S (compile_return exp)
  unfolding compile_return
  return-Keeps exp = search (steps, P, compile_expression-Keeps) depth 40

  params-Keeps :
      (fuel : ℕ) (inside : Bytes) (num : ℕ)
      → length inside < fuel
      → Keeps S (push_params fuel inside num)
  unfolding push_params
  params-Keeps zero inside num l = absurd (omega arith)
  params-Keeps (suc fuel) inside num l = elim (Option-cases (find_char_back inside b',')) [
    | inl q ↦ rw q (search (steps, P) depth 20)
    | inr (pos, q) ↦
        let before =
          params-Keeps fuel (take pos inside) (num + 1)
            (omega (arith, find_char_back-lt inside b',' pos q, length-take-le pos inside)) in
        rw q (search (steps, P, before) depth 20)
  ]

  function-Keeps : (head : Bytes) → Keeps S (begin_function head)
  unfolding begin_function
  function-Keeps head =
      let params = λ (inside : Bytes). params-Keeps (length inside + 1) inside 0 (omega arith) in
      search (steps, P, params) depth 40

  end-Keeps : (num : ℕ) → Keeps S (end_function num)
  unfolding end_function
  end-Keeps num = search (steps, P) depth 30

  with_head-Keeps :
      (block : Bytes → C2 (Unit {0})) (head body : Bytes)
      → Keeps S (block (take (length body - 1) body))
      → Keeps S (compile_block_with_head block head body)
  unfolding compile_block_with_head
  with_head-Keeps block head body h =
      search (flow, h, fault_rule, P, function-Keeps, end-Keeps) depth 30

  around-Keeps : (loop : C2 (Unit {0})) → Keeps S loop → Keeps S (around_block loop)
  unfolding around_block
  around-Keeps loop h = search (steps, P, h) depth 40

  module _ (Safe : ℕ → Type 0)
      (types : (decl : Bytes) → All Safe decl → Keeps S (interpret_type decl)) where
    declare-Keeps : (decl : Bytes) → All Safe decl → Keeps S (declare decl)
    unfolding declare
    declare-Keeps decl h = let read = types decl h in search (steps, P, read) depth 20

    declaration-Keeps : (text : Bytes) → All Safe text → Keeps S (compile_declaration text)
    unfolding compile_declaration
    declaration-Keeps text h =
        let whole = declare-Keeps text h in
        let front = λ (n : ℕ). declare-Keeps (take n text) (All-take Safe n text h) in
        search (steps, P, whole, front, compile_expression-Keeps) depth 30

    statement-Keeps : (piece : Bytes) → All Safe piece → Keeps S (compile_statement piece)
    unfolding compile_statement
    statement-Keeps piece h =
        let declaration = declaration-Keeps (trimstr piece) (trimstr-All Safe piece h) in
        search (steps, P, declaration, return-Keeps, compile_expression-Keeps) depth 30

    loop-Keeps :
        (fuel : ℕ) (text : Bytes)
        → length text < fuel
        → All Safe text
        → Keeps S (block_loop fuel text)
    unfolding block_loop
    loop-Keeps zero text l h = absurd (omega arith)
    loop-Keeps (suc fuel) text l h =
        let rest = λ (n : ℕ) (k : 0 < length text).
          loop-Keeps fuel (behind_byte n text) (omega (arith, k, length-drop {0} (n + 1) text))
            (All-drop Safe (n + 1) text h) in
        let statement = λ (pos : ℕ) (k : 0 < length text).
          bind_rule (statement-Keeps (take pos text) (All-take Safe pos text h))
            (λ _. rest pos k) in
        let nested = λ (pos size : ℕ) (k : 0 < length text). around-Keeps _ (
          loop-Keeps fuel (body_of pos size text) (omega (arith, k, body_of-le pos size text))
            (All-take Safe _ _ (All-take Safe _ _ (All-drop Safe (pos + 1) text h)))) in
        let headed = λ (pos : ℕ) (k : 0 < length text).
          bind_rule
            (option_rule (find_matching b'{' b'}' (drop pos text)) (fault_rule P)
              (λ (i : ℕ). pure_rule i))
            (λ size.
              bind_rule
                (with_head-Keeps (λ inner. around_block (block_loop fuel inner)) (take pos text)
                  (slice text (pos + 1) (pos + size)) (nested pos size k))
                (λ _. rest (pos + size) k)) in
        elim (Option-cases (find_char text b';')) [
          | inl p ↦ elim (Option-cases (find_char text b'{')) [
            | inl q ↦ rw (p, q) (assert_rule _)
            | inr (brace, q) ↦
                rw (p, q) (headed brace (omega (arith, find_char-lt text b'{' brace q)))
          ]
          | inr (semicolon, p) ↦
              let s = statement semicolon (omega (arith, find_char-lt text b';' semicolon p)) in
              elim (Option-cases (find_char text b'{')) [
                | inl q ↦ rw (p, q) s
                | inr (brace, q) ↦
                    let t = headed brace (omega (arith, find_char-lt text b'{' brace q)) in
                    rw (p, q) (search (if_rule, s, t))
              ]
        ]

    pub compile_block-Keeps : (text : Bytes) → All Safe text → Keeps S (compile_block text)
    unfolding compile_block
    compile_block-Keeps text h = around-Keeps _ (loop-Keeps (length text + 1) text (omega arith) h)
