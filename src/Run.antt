-- ===== src/Run.antt =====
-- The ways a run of the programs can end, and the operations of a `do` block, for any type of globals.
pub mod Keeps
pub mod Flow
pub mod Ending
pub mod Invariant
use asmc.Prelude.{ℕ, zero, suc, Bool, true, false, Option, none, some}

-- A run stops by a panic or a failed assert, by a fault of the hardware, or, in the model, for want of
-- fuel.
pub data Stop : Type 0 where
  panic fault out_of_fuel : Stop

pub data Outcome (S A : Type 0) : Type 0 where
  done : A → S → Outcome S A
  stop : Stop → Outcome S A

abbrev pub Run : Type 0 → Type 0 → Type 0
Run S A = S → Outcome S A

module _ {S : Type 0} where
  abbrev pub pure : {A : Type 0} → A → Run S A
  pure a g = done a g

  abbrev pub bind_result : {A B : Type 0} → Outcome S A → (A → Run S B) → Outcome S B
  bind_result (done a g) f = f a g
  bind_result (stop e) f = stop e

  infixl 5 ◌>>=◌ ◌>>◌
  abbrev pub ◌>>=◌ : {A B : Type 0} → Run S A → (A → Run S B) → Run S B
  ◌>>=◌ m f g = bind_result (m g) f

  abbrev pub ◌>>◌ : {B : Type 0} → Run S (Unit {0}) → Run S B → Run S B
  m >> k = m >>= λ _. k

  abbrev pub halt : {A : Type 0} → Stop → Run S A
  halt e g = stop e

  abbrev pub assert : Bool → Run S (Unit {0})
  assert true = pure tt
  assert false = halt panic

  -- `assert(res)` on the result of a lookup or of a decoding, and what it has set.
  abbrev pub expect : {A : Type 0} → Option A → Run S A
  expect none = halt panic
  expect (some a) = pure a

  abbrev pub gets : {A : Type 0} → (S → A) → Run S A
  gets f g = done (f g) g

  abbrev pub modify : (S → S) → Run S (Unit {0})
  modify f g = done tt (f g)

  -- `for (i = 0; i < n; i++) body`
  unfoldable pub repeat : ℕ → Run S (Unit {0}) → Run S (Unit {0})
  repeat zero body = pure tt
  repeat (suc n) body = do body; repeat n body
