-- ===== src/Run/Flow.antt =====
-- The rules for what a `do` block is made of, as one set for `search`.
use asmc.Prelude.{ℕ, Bool, Option, if◌then◌else◌, option}
use asmc.Run.{Run, pure, ◌>>=◌, halt, panic, assert, gets, repeat}
use asmc.Run.Keeps.{
  StepRelation, Keeps, Keeps-pure, Keeps-halt, Keeps-assert, Keeps-gets, Keeps-bind, Keeps-if,
  Keeps-repeat, Keeps-option,
}

module _ {G : Type 0} {S : StepRelation G} where
  pub bind_rule :
      {A B : Type 0} {m : Run G A} {f : A → Run G B}
      → Keeps S m
      → ((a : A) → Keeps S (f a))
      → Keeps S (m >>= f)
  bind_rule = Keeps-bind S

  pub if_rule :
      {A : Type 0} (b : Bool) {m n : Run G A} → Keeps S m → Keeps S n → Keeps S (if b then m else n)
  if_rule = Keeps-if S

  pub option_rule :
      {A B : Type 0} (o : Option A) {n : Run G B} {f : A → Run G B}
      → Keeps S n
      → ((a : A) → Keeps S (f a))
      → Keeps S (option o n f)
  option_rule = Keeps-option S

  pub pure_rule : {A : Type 0} (a : A) → Keeps S (pure a)
  pure_rule = Keeps-pure S

  pub panic_rule : {A : Type 0} → Keeps S (halt {A = A} panic)
  panic_rule = Keeps-halt S panic S.panic_allowed

  pub assert_rule : (b : Bool) → Keeps S (assert b)
  assert_rule = Keeps-assert S

  pub gets_rule : {A : Type 0} (f : G → A) → Keeps S (gets f)
  gets_rule = Keeps-gets S

  pub repeat_rule : (n : ℕ) {body : Run G (Unit {0})} → Keeps S body → Keeps S (repeat n body)
  repeat_rule = Keeps-repeat S

pub ruleset flow =
    (bind_rule, if_rule, option_rule, pure_rule, panic_rule, assert_rule, gets_rule, repeat_rule)
