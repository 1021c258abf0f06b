-- ===== src/Cc2/Kept.antt =====
-- cc/cc2.c: a relation on the globals that the emission of a byte keeps, and that holds where the
-- location and the output are left alone, is kept by the stack and the emitters.
pub mod Evaluation
pub mod Programs
use asmc.Prelude.{ℕ, Option, none, some, [], ◌∷◌, ◌≡◌, refl}
use asmc.Cstring.{Bytes}
use asmc.Run.{fault, panic, expect, modify, halt}
use asmc.Run.Keeps.{StepRelation, Keeps, keeps, Keeps-halt}
use asmc.Run.Flow.{flow, bind_rule, pure_rule}
use asmc.Cc2.Tables.{Cc2Globals, push_var, pop_var, pop_to_depth, emit, emit32, emits}

pub record Cc2Primitives (S : StepRelation Cc2Globals) : Type 0 where
  pub fault_allowed : S.Allowed fault
  pub emit_kept : (x : ℕ) → Keeps S (emit x)
  pub quiet : (g h : Cc2Globals) → h.current_loc ≡ g.current_loc → h.output ≡ g.output → S.Rel g h

module _ {S : StepRelation Cc2Globals} (P : Cc2Primitives S) where
  pub modify_rule :
      (f : Cc2Globals → Cc2Globals)
      → ((g : Cc2Globals) → (f g).current_loc ≡ g.current_loc)
      → ((g : Cc2Globals) → (f g).output ≡ g.output)
      → Keeps S (modify f)
  modify_rule f l o = keeps (λ g. P.quiet g (f g) (l g) (o g))

  pub fault_rule : {A : Type 0} → Keeps S (halt {A = A} fault)
  fault_rule = Keeps-halt S fault P.fault_allowed

  pub expect_rule : {A : Type 0} (o : Option A) → Keeps S (expect o)
  expect_rule none = Keeps-halt S panic S.panic_allowed
  expect_rule (some a) = pure_rule a

  pub emit_rule : (x : ℕ) → Keeps S (emit x)
  emit_rule = P.emit_kept

  ruleset basic = (flow, modify_rule, refl, fault_rule, expect_rule, emit_rule)

  pub emit32-Keeps : (x : ℕ) → Keeps S (emit32 x)
  unfolding emit32
  emit32-Keeps x = search basic depth 20

  pub emits-Keeps : (s : Bytes) → Keeps S (emits s)
  unfolding emits
  emits-Keeps [] = pure_rule tt
  emits-Keeps (x ∷ s) = bind_rule (emit_rule x) (λ _. emits-Keeps s)

  pub push_var-Keeps : (name : Bytes) → Keeps S (push_var name)
  unfolding push_var
  push_var-Keeps name = search basic depth 30

  pub pop_var-Keeps : Keeps S pop_var
  unfolding pop_var
  pop_var-Keeps = search basic

  pub pop_to_depth-Keeps : (depth : ℕ) → Keeps S (pop_to_depth depth)
  unfolding pop_to_depth
  pop_to_depth-Keeps depth = search basic

pub ruleset steps = (
  flow, refl, modify_rule, fault_rule, expect_rule, emit_rule, emit32-Keeps, emits-Keeps,
  push_var-Keeps, pop_var-Keeps, pop_to_depth-Keeps,
)
