-- ===== src/Run/Invariant.antt =====
-- Triples: from globals that satisfy `P` a run ends in globals that satisfy `Q` and are related to those
-- at its beginning, or stops in a way that the relation allows.
use asmc.Prelude.{Bool, true, false, if◌then◌else◌}
use asmc.Run.{Outcome, done, stop, Run, pure, bind_result, ◌>>=◌, halt, panic, assert, gets}
use asmc.Run.Keeps.{Ends, StepRelation}

module _ {G : Type 0} (S : StepRelation G) where
  -- What a run from `g` ends in.
  abbrev pub Leads : {A : Type 0} → (G → Type 0) → G → Outcome G A → Type 0
  Leads Q g r = Ends (λ h. Q h × S.Rel g h) S.Allowed r

  pub data Triple {A : Type 0} (P Q : G → Type 0) (m : Run G A) : Type 0 where
    triple : ((g : G) → P g → Leads Q g (m g)) → Triple P Q m

  pub Triple-apply :
      {A : Type 0} {P Q : G → Type 0} {m : Run G A} → Triple P Q m → (g : G) → P g → Leads Q g (m g)
  Triple-apply (triple h) = h

  pub Leads-after :
      {A : Type 0} (Q : G → Type 0) (g h : G) (r : Outcome G A)
      → S.Rel g h
      → Leads Q h r
      → Leads Q g r
  Leads-after Q g h (done a k) p (q, s) = (q, S.rel_trans g h k p s)
  Leads-after Q g h (stop e) p q = q

  pub Leads-weaken :
      {A : Type 0} (P Q : G → Type 0) (g : G) (r : Outcome G A)
      → ((h : G) → P h → Q h)
      → Leads P g r
      → Leads Q g r
  Leads-weaken P Q g (done a k) w (p, s) = (w k p, s)
  Leads-weaken P Q g (stop e) w p = p

  pub Leads-bind :
      {A B : Type 0} (Q R : G → Type 0) (g : G) (r : Outcome G A) (f : A → Run G B)
      → Leads Q g r
      → ((a : A) → Triple Q R (f a))
      → Leads R g (bind_result r f)
  Leads-bind Q R g (done a h) f (q, s) k = Leads-after R g h (f a h) s (Triple-apply (k a) h q)
  Leads-bind Q R g (stop e) f p k = p

  pub Triple-bind :
      {A B : Type 0} {P Q R : G → Type 0} {m : Run G A} {f : A → Run G B}
      → Triple P Q m
      → ((a : A) → Triple Q R (f a))
      → Triple P R (m >>= f)
  Triple-bind {Q} {R} {m} {f} (triple h) k = triple (λ g p. Leads-bind Q R g (m g) f (h g p) k)

  pub Triple-weaken :
      {A : Type 0} {P Q R : G → Type 0} {m : Run G A}
      → ((h : G) → Q h → R h)
      → Triple P Q m
      → Triple P R m
  Triple-weaken {Q} {R} {m} w (triple h) = triple (λ g p. Leads-weaken Q R g (m g) w (h g p))

-- The rules where the condition is an invariant.
module _ {G : Type 0} {S : StepRelation G} {P : G → Type 0} where
  pub stays_bind :
      {A B : Type 0} {m : Run G A} {f : A → Run G B}
      → Triple S P P m
      → ((a : A) → Triple S P P (f a))
      → Triple S P P (m >>= f)
  stays_bind = Triple-bind S

  pub stays_if :
      {A : Type 0} {Q : G → Type 0} (b : Bool) {m n : Run G A}
      → Triple S P Q m
      → Triple S P Q n
      → Triple S P Q (if b then m else n)
  stays_if true h k = h
  stays_if false h k = k

  pub stays_pure : {A : Type 0} (a : A) → Triple S P P (pure a)
  stays_pure a = triple (λ g p. (p, S.rel_refl g))

  pub stays_gets : {A : Type 0} (f : G → A) → Triple S P P (gets f)
  stays_gets f = triple (λ g p. (p, S.rel_refl g))

  pub stays_panic : {A : Type 0} → Triple S P P (halt {A = A} panic)
  stays_panic = triple (λ g p. S.panic_allowed)

  pub stays_assert : (b : Bool) → Triple S P P (assert b)
  stays_assert true = stays_pure tt
  stays_assert false = stays_panic

pub ruleset staying = (stays_bind, stays_if, stays_pure, stays_gets, stays_panic, stays_assert)
