-- ===== src/Common/Execution.antt =====
-- How a contract message runs: it reads the environment of the call and threads the state. A
-- message that returns `Err` or traps is reverted by the runtime, so neither outcome has a state.
use Prim.Native.Nat.{ℕ}
use mathlib.Core.Path.{◌≡◌, refl}
use mathlib.Core.Logic.{◌⊎◌, inl, inr}
use mathlib.Core.Bool.{Bool, true, false}
use mathlib.Core.Option.{Option, none, some}
use most_aleph_zero_bridge.Common.Fallible.{Result, ok, err}

-- `self.env()`: what the runtime tells a message about its call.
pub record Env : Type 0 where
  pub caller : ℕ
  pub account_id : ℕ
  pub transferred_value : ℕ
  pub block_timestamp : ℕ

pub data Outcome (E S A : Type 0) : Type 0 where
  returns : A → S → Outcome E S A
  reverts : E → Outcome E S A
  traps : Outcome E S A

abbrev pub Message : Type 0 → Type 0 → Type 0 → Type 0
Message E S A = Env → S → Outcome E S A

module _ {E S A : Type 0} where
  abbrev pub pure : A → Message E S A
  pure a env s = returns a s

  abbrev pub fail : E → Message E S A
  fail e env s = reverts e

  -- The `?` operator on a result.
  abbrev pub try : Result E A → Message E S A
  try (ok a) env s = returns a s
  try (err e) env s = reverts e

  -- A message or helper that takes `&self`.
  abbrev pub view : (Env → S → Result E A) → Message E S A
  view q env s = try (q env s) env s

  -- `Option::ok_or` with `?`.
  abbrev pub ok_or : Option A → E → Message E S A
  ok_or none e env s = reverts e
  ok_or (some a) e env s = returns a s

  abbrev pub asks : (Env → A) → Message E S A
  asks f env s = returns (f env) s

  abbrev pub gets : (S → A) → Message E S A
  gets f env s = returns (f s) s

  -- The state after a call: the runtime keeps the old one unless the message returns.
  abbrev pub after : Outcome E S A → S → S
  after (returns a t) s = t
  after (reverts e) s = s
  after traps s = s

-- What follows a message that returned.
abbrev pub continue : {E S A B : Type 0} → Outcome E S A → (A → S → Outcome E S B) → Outcome E S B
continue (returns a t) k = k a t
continue (reverts e) k = reverts e
continue traps k = traps

infixl 5 ◌>>=◌ ◌>>◌
abbrev pub ◌>>=◌ : {E S A B : Type 0} → Message E S A → (A → Message E S B) → Message E S B
◌>>=◌ m f env s = continue (m env s) (λ a t. f a env t)

abbrev pub ◌>>◌ : {E S B : Type 0} → Message E S (Unit {0}) → Message E S B → Message E S B
m >> k = m >>= λ _. k

module _ {E S : Type 0} where
  abbrev pub fail_if : Bool → E → Message E S (Unit {0})
  fail_if true e env s = reverts e
  fail_if false e env s = returns tt s

-- What holds before a call and in every state that it returns holds after it.
pub after-cases {ℓ} :
    {E S A : Type 0} (P : S → Type ℓ) (o : Outcome E S A) (s : S)
    → P s
    → ((a : A) (t : S) → o ≡ returns a t → P t)
    → P (after o s)
after-cases P (returns a t) s before returned = returned a t refl
after-cases P (reverts e) s before returned = before
after-cases P traps s before returned = before

pub Outcome-cases :
    {E S A : Type 0} (o : Outcome E S A)
    → ((a : A) × (t : S) × (o ≡ returns a t)) ⊎ ((e : E) × (o ≡ reverts e)) ⊎ (o ≡ traps)
Outcome-cases (returns a t) = inl (a, t, refl)
Outcome-cases (reverts e) = inr (inl (e, refl))
Outcome-cases traps = inr (inr refl)
