-- ===== src/Cc/Kept.antt =====
-- cc/cc.c: a relation on the globals that the emission of a byte and `add_symbol` keep, and that holds
-- where the stage, the location, the output and the symbols are left alone, is kept by the tables.
pub mod Operators
pub mod Evaluation
pub mod Programs
use asmc.Prelude.{ℕ, Option, none, some, [], ◌∷◌, ◌≡◌}
use asmc.Cstring.{Bytes}
use asmc.Run.{Run, fault, panic, expect, modify, halt}
use asmc.Run.Keeps.{StepRelation, Keeps, keeps, Keeps-halt}
use asmc.Run.Flow.{flow, bind_rule, pure_rule}
use asmc.Cc.Tables.{
  CcGlobals, C, get_symbol, get_symbol2, add_symbol, push_var, pop_var, pop_to_depth, emit, emit32,
  emits, find_symbol, find_symbol2,
}
use asmc.Cc.Expressions.{gen_id}

pub record CcPrimitives (S : StepRelation CcGlobals) : Type 0 where
  pub fault_allowed : S.Allowed fault
  pub emit_kept : (x : ℕ) → Keeps S (emit x)
  pub add_kept : (name : Bytes) (loc : ℕ) → Keeps S (add_symbol name loc)
  pub quiet :
      (g h : CcGlobals)
      → h.stage ≡ g.stage
      → h.current_loc ≡ g.current_loc
      → h.output ≡ g.output
      → h.labels ≡ g.labels
      → S.Rel g h

module _ {S : StepRelation CcGlobals} (P : CcPrimitives S) where
  pub modify_rule :
      (f : CcGlobals → CcGlobals)
      → ((g : CcGlobals) → (f g).stage ≡ g.stage)
      → ((g : CcGlobals) → (f g).current_loc ≡ g.current_loc)
      → ((g : CcGlobals) → (f g).output ≡ g.output)
      → ((g : CcGlobals) → (f g).labels ≡ g.labels)
      → Keeps S (modify f)
  modify_rule f s l o t = keeps (λ g. P.quiet g (f g) (s g) (l g) (o g) (t g))

  pub fault_rule : {A : Type 0} → Keeps S (halt {A = A} fault)
  fault_rule = Keeps-halt S fault P.fault_allowed

  pub expect_rule : {A : Type 0} (o : Option A) → Keeps S (expect o)
  expect_rule none = Keeps-halt S panic S.panic_allowed
  expect_rule (some a) = pure_rule a

  pub emit_rule : (x : ℕ) → Keeps S (emit x)
  emit_rule = P.emit_kept

  pub add_rule : (name : Bytes) (loc : ℕ) → Keeps S (add_symbol name loc)
  add_rule = P.add_kept

  pub emit32-Keeps : (x : ℕ) → Keeps S (emit32 x)
  unfolding emit32
  emit32-Keeps x = search (flow, emit_rule)

  pub emits-Keeps : (s : Bytes) → Keeps S (emits s)
  unfolding emits
  emits-Keeps [] = pure_rule tt
  emits-Keeps (x ∷ s) = bind_rule (emit_rule x) (λ _. emits-Keeps s)

  pub push_var-Keeps : (name : Bytes) → Keeps S (push_var name)
  unfolding push_var
  push_var-Keeps name = search (flow, modify_rule, fault_rule) depth 30

  pub pop_var-Keeps : Keeps S pop_var
  unfolding pop_var
  pop_var-Keeps = search (modify_rule)

  pub pop_to_depth-Keeps : (depth : ℕ) → Keeps S (pop_to_depth depth)
  unfolding pop_to_depth
  pop_to_depth-Keeps depth = search (modify_rule)

  pub get_symbol-Keeps : (name : Bytes) → Keeps S (get_symbol name)
  unfolding get_symbol
  get_symbol-Keeps name = search (flow, fault_rule) depth 30

  pub get_symbol2-Keeps : (piece : Bytes) → Keeps S (get_symbol2 piece)
  unfolding get_symbol2
  get_symbol2-Keeps piece = search (flow, fault_rule) depth 30

  pub gen_id-Keeps : Keeps S gen_id
  unfolding gen_id
  gen_id-Keeps = search (flow, modify_rule) depth 30

pub ruleset code_flow = (
  flow, modify_rule, fault_rule, expect_rule, emit_rule, add_rule, emit32-Keeps, emits-Keeps,
  push_var-Keeps, pop_var-Keeps, pop_to_depth-Keeps, get_symbol-Keeps, get_symbol2-Keeps,
  gen_id-Keeps,
)
