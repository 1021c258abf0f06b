-- ===== src/Run/Keeps.antt =====
-- A relation between the globals before and after a step, kept by every run that ends well. Where
-- the relation is reflexive and transitive, the rules carry it through a `do` block.
use mathlib.Core.Path.{subst}
use asmc.Prelude.{
  ℕ, zero, suc, Bool, true, false, Option, none, some, if◌then◌else◌, option, arith, ◌≡◌, refl,
}
use asmc.Run.{
  Stop, panic, Outcome, done, stop, Run, pure, bind_result, ◌>>=◌, halt, assert, gets, modify,
  repeat,
}

module _ {G : Type 0} where
  -- A run ends in globals that satisfy `P`, or stops in a way that `E` allows.
  abbrev pub Ends : {A : Type 0} → (G → Type 0) → (Stop → Type 0) → Outcome G A → Type 0
  Ends P E (done a g) = P g
  Ends P E (stop e) = E e

  pub bind-eq-done :
      {A B : Type 0} (r : Outcome G A) (f : A → Run G B) {b : B} {h : G}
      → bind_result r f ≡ done b h
      → (a : A) × (k : G) × (r ≡ done a k) × (f a k ≡ done b h)
  bind-eq-done (done a k) f e = (a, k, refl, e)
  bind-eq-done (stop x) f e = absurd (ground arith)

  pub modify-eq-done :
      (r : Outcome G (Unit {0})) (f : G → G) {h : G}
      → bind_result r (λ _. modify f) ≡ done tt h
      → (k : G) × (r ≡ done tt k) × (f k ≡ h)
  modify-eq-done (done a k) f e = (k, refl, ground arith)
  modify-eq-done (stop x) f e = absurd (ground arith)

  pub Ends-done :
      {A : Type 0} (P : G → Type 0) (E : Stop → Type 0) (r : Outcome G A) (a : A) (h : G)
      → Ends P E r
      → r ≡ done a h
      → P h
  Ends-done P E (done b k) a h p e = let same : k ≡ h = ground arith in subst P same p
  Ends-done P E (stop x) a h p e = absurd (ground arith)

  pub Ends-bind :
      {A B : Type 0} (P Q : G → Type 0) (E : Stop → Type 0) (r : Outcome G A) (f : A → Run G B)
      → Ends P E r
      → ((a : A) (h : G) → P h → Ends Q E (f a h))
      → Ends Q E (bind_result r f)
  Ends-bind P Q E (done a h) f p k = k a h p
  Ends-bind P Q E (stop e) f p k = p

-- The relation, with the two laws that the rules need, and the stops that are allowed beside it.
pub record StepRelation (G : Type 0) : Type 1 where
  pub Rel : G → G → Type 0
  pub rel_refl : (g : G) → Rel g g
  pub rel_trans : (g h k : G) → Rel g h → Rel h k → Rel g k
  pub Allowed : Stop → Type 0
  pub panic_allowed : Allowed panic

module _ {G : Type 0} (S : StepRelation G) where
  pub data Keeps {A : Type 0} (m : Run G A) : Type 0 where
    keeps : ((g : G) → Ends (S.Rel g) S.Allowed (m g)) → Keeps m

  pub Keeps-apply : {A : Type 0} {m : Run G A} → Keeps m → (g : G) → Ends (S.Rel g) S.Allowed (m g)
  Keeps-apply (keeps h) = h

  pub Keeps-pure : {A : Type 0} (a : A) → Keeps (pure a)
  Keeps-pure a = keeps (λ g. S.rel_refl g)

  pub Keeps-halt : {A : Type 0} (e : Stop) → S.Allowed e → Keeps (halt {A = A} e)
  Keeps-halt e h = keeps (λ g. h)

  pub Keeps-assert : (b : Bool) → Keeps (assert b)
  Keeps-assert true = keeps (λ g. S.rel_refl g)
  Keeps-assert false = keeps (λ g. S.panic_allowed)

  pub Keeps-gets : {A : Type 0} (f : G → A) → Keeps (gets f)
  Keeps-gets f = keeps (λ g. S.rel_refl g)

  after :
      {A : Type 0} (g : G) {h : G}
      → S.Rel g h
      → (r : Outcome G A) → Ends (S.Rel h) S.Allowed r
      → Ends (S.Rel g) S.Allowed r
  after g {h} p (done a k) q = S.rel_trans g h k p q
  after g p (stop e) q = q

  bind_ends :
      {A B : Type 0} (g : G) (r : Outcome G A) (f : A → Run G B)
      → Ends (S.Rel g) S.Allowed r
      → ((a : A) → Keeps (f a))
      → Ends (S.Rel g) S.Allowed (bind_result r f)
  bind_ends g (done a h) f p k = after g p (f a h) (Keeps-apply (k a) h)
  bind_ends g (stop e) f p k = p

  pub Keeps-bind :
      {A B : Type 0} {m : Run G A} {f : A → Run G B}
      → Keeps m
      → ((a : A) → Keeps (f a))
      → Keeps (m >>= f)
  Keeps-bind {m} {f} (keeps h) k = keeps (λ g. bind_ends g (m g) f (h g) k)

  pub Keeps-if :
      {A : Type 0} (b : Bool) {m n : Run G A} → Keeps m → Keeps n → Keeps (if b then m else n)
  Keeps-if true h k = h
  Keeps-if false h k = k

  pub Keeps-repeat : (n : ℕ) {body : Run G (Unit {0})} → Keeps body → Keeps (repeat n body)
  unfolding repeat
  Keeps-repeat zero h = Keeps-pure tt
  Keeps-repeat (suc n) h = Keeps-bind h (λ _. Keeps-repeat n h)

  -- A match on an optional value.
  pub Keeps-option :
      {A B : Type 0} (o : Option A) {n : Run G B} {f : A → Run G B}
      → Keeps n
      → ((a : A) → Keeps (f a))
      → Keeps (option o n f)
  Keeps-option none h k = h
  Keeps-option (some a) h k = k a
