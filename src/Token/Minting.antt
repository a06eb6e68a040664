-- ===== src/Token/Minting.antt =====
-- Who changes supply, minter and owner of azero/contracts/token/lib.rs, along histories of calls.
use most_aleph_zero_bridge.Common.{
  ◌∙◌, ℕ, ◌≡◌, ◌≢◌, refl, List, [], ◌∷◌, Env, Result, ok, err, after, arith, All,
}
use most_aleph_zero_bridge.Ownable.{Ownable2StepData}
use most_aleph_zero_bridge.Ownable.Handover.{IsOutsider}
use most_aleph_zero_bridge.Ownable
use most_aleph_zero_bridge.Token
use most_aleph_zero_bridge.Token.{Psp22, Psp22Event, TokenState, TokenEvent, emitted}

-- A message that changes the state, with its arguments.
pub data TokenCall : Type 0 where
  sets_minter_burner : ℕ → TokenCall
  transfers_tokens : ℕ → ℕ → TokenCall
  transfers_from : ℕ → ℕ → ℕ → TokenCall
  approves : ℕ → ℕ → TokenCall
  increases_allowance : ℕ → ℕ → TokenCall
  decreases_allowance : ℕ → ℕ → TokenCall
  mints : ℕ → ℕ → TokenCall
  burns : ℕ → TokenCall
  transfers_ownership : ℕ → TokenCall
  accepts_ownership : TokenCall

-- What the psp22 crate documents of the total supply: only minting and burning change it.
abbrev pub KeepsSupply :
    (psp22 : Psp22) → Result (psp22.Error) (List Psp22Event × psp22.Data) → psp22.Data → Type 0
KeepsSupply psp22 (ok (es, d)) before = psp22.total_supply d ≡ psp22.total_supply before
KeepsSupply psp22 (err e) before = Unit {0}

pub record SupplyLaws (psp22 : Psp22) : Type 0 where
  pub transfer_law :
      (caller to value : ℕ) (d : psp22.Data)
      → KeepsSupply psp22 (psp22.transfer caller to value d) d
  pub transfer_from_law :
      (caller from to value : ℕ) (d : psp22.Data)
      → KeepsSupply psp22 (psp22.transfer_from caller from to value d) d
  pub approve_law :
      (owner spender value : ℕ) (d : psp22.Data)
      → KeepsSupply psp22 (psp22.approve owner spender value d) d
  pub increase_law :
      (owner spender value : ℕ) (d : psp22.Data)
      → KeepsSupply psp22 (psp22.increase_allowance owner spender value d) d
  pub decrease_law :
      (owner spender value : ℕ) (d : psp22.Data)
      → KeepsSupply psp22 (psp22.decrease_allowance owner spender value d) d

module _ (psp22 : Psp22) where
  open psp22 use {Data}

  -- The state after the call.
  unfoldable pub step : TokenState Data → Env × TokenCall → TokenState Data
  step s (env, sets_minter_burner a) = after (Token.set_minter_burner psp22 a env s) s
  step s (env, transfers_tokens to value) = after (Token.token_transfer psp22 to value env s) s
  step s (env, transfers_from from to value) =
      after (Token.transfer_from psp22 from to value env s) s
  step s (env, approves spender value) = after (Token.approve psp22 spender value env s) s
  step s (env, increases_allowance spender delta) =
      after (Token.increase_allowance psp22 spender delta env s) s
  step s (env, decreases_allowance spender delta) =
      after (Token.decrease_allowance psp22 spender delta env s) s
  step s (env, mints to value) = after (Token.mint psp22 to value env s) s
  step s (env, burns value) = after (Token.burn psp22 value env s) s
  step s (env, transfers_ownership a) = after (Token.transfer_ownership a env s) s
  step s (env, accepts_ownership) = after (Token.accept_ownership env s) s

  unfoldable pub run : TokenState Data → List (Env × TokenCall) → TokenState Data
  run s [] = s
  run s (c ∷ calls) = run (step s c) calls

  -- Neither the minter and burner, nor the owner, nor the pending owner.
  abbrev pub IsStranger : TokenState Data → Env × TokenCall → Type 0
  IsStranger s c = (c.0.caller ≢ s.self.minter_burner) × IsOutsider s.self.ownable_data c.0.caller

  -- What a stranger cannot change.
  abbrev pub SameControl : TokenState Data → TokenState Data → Type 0
  SameControl s t =
      (psp22.total_supply t.self.psp22_data ≡ psp22.total_supply s.self.psp22_data)
      × (t.self.minter_burner ≡ s.self.minter_burner)
      × (t.self.ownable_data ≡ s.self.ownable_data)

  changes-SameControl :
      (f : ℕ → Data → Result (psp22.Error) (List Psp22Event × Data)) (env : Env)
      (s : TokenState Data)
      → KeepsSupply psp22 (f env.caller s.self.psp22_data) s.self.psp22_data
      → SameControl s (after (Token.changes psp22 f env s) s)
  unfolding Token.changes
  changes-SameControl f env s law = ground arith

  step-SameControl :
      SupplyLaws psp22
      → (s : TokenState Data) (c : Env × TokenCall) → IsStranger s c
      → SameControl s (step s c)
  unfolding step Token.set_minter_burner Token.ensure_owner Token.mint Token.burn
      Token.transfer_ownership Token.accept_ownership Ownable.transfer_ownership
      Ownable.accept_ownership Ownable.ensure_owner Token.token_transfer Token.transfer_from
      Token.approve Token.increase_allowance Token.decrease_allowance Token.ensure_minter
      Token.ensure_burner Token.minter Token.burner
  step-SameControl laws s (env, sets_minter_burner a) h = ground arith
  step-SameControl laws s (env, transfers_tokens to value) h =
      changes-SameControl (λ caller. psp22.transfer caller to value) env s
        (laws.transfer_law env.caller to value s.self.psp22_data)
  step-SameControl laws s (env, transfers_from from to value) h =
      changes-SameControl (λ caller. psp22.transfer_from caller from to value) env s
        (laws.transfer_from_law env.caller from to value s.self.psp22_data)
  step-SameControl laws s (env, approves spender value) h =
      changes-SameControl (λ caller. psp22.approve caller spender value) env s
        (laws.approve_law env.caller spender value s.self.psp22_data)
  step-SameControl laws s (env, increases_allowance spender delta) h =
      changes-SameControl (λ caller. psp22.increase_allowance caller spender delta) env s
        (laws.increase_law env.caller spender delta s.self.psp22_data)
  step-SameControl laws s (env, decreases_allowance spender delta) h =
      changes-SameControl (λ caller. psp22.decrease_allowance caller spender delta) env s
        (laws.decrease_law env.caller spender delta s.self.psp22_data)
  step-SameControl laws s (env, mints to value) h = ground arith
  step-SameControl laws s (env, burns value) h = ground arith
  step-SameControl laws s (env, transfers_ownership a) h = ground arith
  step-SameControl laws s (env, accepts_ownership) h = ground arith

  All-IsStranger :
      (s t : TokenState Data) (calls : List (Env × TokenCall))
      → SameControl s t
      → All (IsStranger s) calls
      → All (IsStranger t) calls
  All-IsStranger s t [] h a = a
  All-IsStranger s t (c ∷ calls) h a = (ground arith, All-IsStranger s t calls h a.1)

  -- Whatever strangers call, in any order and with any arguments, the total supply, the minter
  -- and burner, the owner and the pending owner stay as they are, provided that the psp22 crate's
  -- transfers and allowances keep the total supply.
  pub strangers_keep_control :
      SupplyLaws psp22
      → (s : TokenState Data) (calls : List (Env × TokenCall)) → All (IsStranger s) calls
      → SameControl s (run s calls)
  unfolding run
  strangers_keep_control laws s [] a = (refl, refl, refl)
  strangers_keep_control laws s (c ∷ calls) a =
      let one : SameControl s (step s c) = step-SameControl laws s c a.0 in
      let rest : SameControl (step s c) (run (step s c) calls) =
        strangers_keep_control laws (step s c) calls (All-IsStranger s (step s c) calls one a.1) in
      (rest.0 ∙ one.0, rest.1 ∙ one.1, rest.2 ∙ one.2)
