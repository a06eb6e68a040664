-- ===== src/Most/Payouts.antt =====
-- What `payout_rewards` of azero/contracts/most/lib.rs settles.
use most_aleph_zero_bridge.Common.{
  ℕ, ◌+◌, ◌≡◌, ◌⊎◌, Env, ok, returns, number_key, pair_key, insert, checked_add, checked_div, arith,
}
use most_aleph_zero_bridge.Most.Types.{State}
use most_aleph_zero_bridge.Most.Chain.{Chain}
use most_aleph_zero_bridge.Most.Query.{
  only_committee_member, get_collected_committee_rewards, get_paid_out_member_rewards,
  get_outstanding_member_rewards,
}
use most_aleph_zero_bridge.Most.Bridge.{payout_rewards}

module _ (chain : Chain) (committee member : ℕ) (env : Env) (s : State (chain.World))
    {t : State (chain.World)} (h : payout_rewards chain committee member env s ≡ returns tt t) where
  -- A payout that returns, with some rewards due before it, has booked exactly these rewards as
  -- paid, has either transferred them to the member or, if none were due, changed nothing, and
  -- leaves nothing due.
  pub payout_settles :
      (due : ℕ)
      → get_outstanding_member_rewards {E = chain.PSP22Error} s.self committee member ≡ ok due
      → (get_outstanding_member_rewards {E = chain.PSP22Error} t.self committee member ≡ ok 0)
        × (get_paid_out_member_rewards t.self committee member
            ≡ get_paid_out_member_rewards s.self committee member + due)
        × (((due ≡ 0) × (t ≡ s)) ⊎ (chain.transfer env.account_id member due s.world ≡ ok t.world))
  unfolding payout_rewards get_outstanding_member_rewards only_committee_member
      get_collected_committee_rewards get_paid_out_member_rewards checked_add checked_div insert
  payout_settles due e = (ground arith, ground arith, ground arith)
