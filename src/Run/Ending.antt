-- ===== src/Run/Ending.antt =====
-- The relation for termination: it says nothing of the globals, and allows every stop but the want of
-- fuel.
use asmc.Prelude.{◌≢◌, arith}
use asmc.Run.{Stop, panic, fault, out_of_fuel, modify, halt, Outcome, done, stop}
use asmc.Run.Keeps.{Ends, StepRelation, Keeps, keeps}

-- Every run ends, in one way or another.
abbrev pub Finished : Stop → Type 0
Finished e = e ≢ out_of_fuel

pub panic-Finished : Finished panic
panic-Finished e = ground arith

pub fault-Finished : Finished fault
fault-Finished e = ground arith

module _ {G : Type 0} where
  abbrev pub ending : StepRelation G
  ending = record {
    Rel = λ g h. Unit;
    rel_refl = λ g. tt;
    rel_trans = λ g h k p q. tt;
    Allowed = Finished;
    panic_allowed = panic-Finished;
  }

  pub modify-ending : (f : G → G) → Keeps ending (modify f)
  modify-ending f = keeps (λ g. tt)

  pub fault-ending : {A : Type 0} → Keeps ending (halt {A = A} fault)
  fault-ending = keeps (λ g. fault-Finished)

  -- A run that ends in a way that is not the want of fuel.
  pub Ends-Finished :
      {A : Type 0} (P : G → Type 0) (r : Outcome G A) → Ends P Finished r → r ≢ stop out_of_fuel
  Ends-Finished P (done a g) h e = absurd (ground arith)
  Ends-Finished P (stop x) h e = h (ground arith)
