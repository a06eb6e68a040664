-- ===== src/Most/Money.antt =====
-- The transfers of `send_request` of azero/contracts/most/lib.rs: the tokens that it takes and burns,
-- and what it pays back.
use most_aleph_zero_bridge.Common.{
  ℕ, ◌-◌, ◌<◌, ◌≤◌, ◌≡◌, ◌⊎◌, inl, inr, Env, returns, Outcome-cases, Bool-cases, ok, arith,
  checked_sub, ltb,
}
use most_aleph_zero_bridge.Most.Types.{Data, State}
use most_aleph_zero_bridge.Most.Chain.{Chain}
use most_aleph_zero_bridge.Most.Bridge.{burn_from, book_request, return_surplus}

module _ (chain : Chain) (env : Env) where
  -- The contract takes the tokens from the sender and burns them, between two worlds.
  pub record Burnt (token amount : ℕ) (w v : chain.World) : Type 0 where
    pub held : chain.World
    pub taken :
        chain.psp22_transfer_from env.account_id token env.caller env.account_id amount w
        ≡ returns tt held
    pub burnt : chain.psp22_burn env.account_id token amount held ≡ returns tt v

  -- What the caller paid above the fee goes back, between two worlds.
  abbrev pub PaidBack : ℕ → chain.World → chain.World → Type 0
  PaidBack fee w v =
      ((env.transferred_value ≡ fee) × (v ≡ w))
      ⊎ ((fee < env.transferred_value)
          × (chain.transfer env.account_id env.caller (env.transferred_value - fee) w ≡ ok v))

  pub burn_from-Burnt :
      (token amount : ℕ) (s t : State (chain.World))
      → burn_from chain token env.caller amount env s ≡ returns tt t
      → Burnt token amount s.world t.world
  unfolding burn_from
  burn_from-Burnt token amount s t h =
      elim (Outcome-cases
        (chain.psp22_transfer_from env.account_id token env.caller env.account_id amount s.world)) [
          | inl (_, held, taken) ↦ record { held = held; taken = taken; burnt = ground arith }
          | inr failed ↦ absurd (ground arith)
        ]

  pub book_request-world :
      (d : Data) (fee : ℕ) (s t : State (chain.World))
      → book_request chain d fee env s ≡ returns tt t
      → t.world ≡ s.world
  unfolding book_request
  book_request-world d fee s t h = ground arith

  pub return_surplus-PaidBack :
      (fee : ℕ) (s t : State (chain.World))
      → fee ≤ env.transferred_value
      → return_surplus chain env.caller env.transferred_value fee env s ≡ returns tt t
      → PaidBack fee s.world t.world
  unfolding return_surplus checked_sub
  return_surplus-PaidBack fee s t enough h =
      elim (Bool-cases (ltb 0 (env.transferred_value - fee))) [
        | inl surplus ↦ inr (ground arith)
        | inr none_left ↦ inl (ground arith)
      ]
