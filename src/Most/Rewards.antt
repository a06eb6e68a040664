-- ===== src/Most/Rewards.antt =====
-- The committee rewards of azero/contracts/most/lib.rs, along every history: what is paid out stays
-- within what was collected.
use native.Mathlib.Nat.{le-div_iff_mul-le, div-mul-le_self, mul-div-le, le_trans, mul-le-mul_right}
use most_aleph_zero_bridge.Common.{
  ℕ, zero, suc, ◌+◌, ◌*◌, ◌/◌, ◌≤◌, ◌≡◌, some, List, [], ◌∷◌, length, Env, number_key, pair_key,
  insert, unwrap_or, checked_add, checked_div, after, after-cases, arith,
}
use most_aleph_zero_bridge.Most.Types.{State}
use most_aleph_zero_bridge.Most.Chain.{Chain}
use most_aleph_zero_bridge.Most.Query.{
  only_committee_member, get_collected_committee_rewards, get_paid_out_member_rewards,
  get_outstanding_member_rewards,
}
use most_aleph_zero_bridge.Most.Bridge.{send_request, receive_request, payout_rewards}
use most_aleph_zero_bridge.Most.Calls.{Transaction, run}
use most_aleph_zero_bridge.Most.View.{BridgeView, bridge_view, view_inv}
use most_aleph_zero_bridge.Most.Receiving.{receive_request-keeps}
use most_aleph_zero_bridge.Most.Sending.{Sent, send_request-Sent}

abbrev pub collected : BridgeView → ℕ → ℕ
collected v c = unwrap_or (v.collected_committee_rewards c) 0

abbrev pub paid_out : BridgeView → ℕ → ℕ → ℕ
paid_out v c a = unwrap_or (v.paid_out_member_rewards (a, c)) 0

-- No account has been paid more than one equal share of what its committee collected.
pub record IsSolvent (v : BridgeView) : Type 0 where
  pub within : (c a n : ℕ) → v.committee_sizes c ≡ some n → paid_out v c a ≤ collected v c / n

-- Division is monotone, also by 0.
div_mono : (a b n : ℕ) → a ≤ b → a / n ≤ b / n
div_mono a b zero h = omega arith
div_mono a b (suc n) h =
    (le-div_iff_mul-le {x = a / suc n} {y = b} (omega arith)).1
      (le_trans (div-mul-le_self a (suc n)) h)

module _ (chain : Chain) where
  Sent-IsSolvent :
      (src amount dest : ℕ) (env : Env) (s t : State (chain.World))
      → IsSolvent (bridge_view s)
      → Sent chain env s src amount dest t
      → IsSolvent (bridge_view t)
  unfolding get_collected_committee_rewards insert
  Sent-IsSolvent src amount dest env s t v sent = record {
    within = λ c a n e. ground (
      arith,
      v.within c a n,
      div_mono (collected (bridge_view s) c) (collected (bridge_view s) c + sent.fee) n
          (omega arith),
    );
  }

  send_request-IsSolvent :
      (src amount dest : ℕ) (env : Env) (s : State (chain.World))
      → IsSolvent (bridge_view s)
      → IsSolvent (bridge_view (after (send_request chain src amount dest env s) s))
  send_request-IsSolvent src amount dest env s v =
      after-cases (λ t. IsSolvent (bridge_view t)) (send_request chain src amount dest env s) s v
        λ _ t e.
          Sent-IsSolvent src amount dest env s t v (send_request-Sent chain env s src amount dest e)

  receive_request-IsSolvent :
      (hash committee token amount dest nonce : ℕ) (env : Env) (s : State (chain.World))
      → IsSolvent (bridge_view s)
      → IsSolvent (
          bridge_view
            (after (receive_request chain hash committee token amount dest nonce env s) s))
  receive_request-IsSolvent hash committee token amount dest nonce env s v =
      let kept = receive_request-keeps chain hash committee token amount dest nonce env s in
      record { within = λ c a n e. rw (kept.2, kept.3) (v.within c a n (rw kept.1 at e)) }

  payout_rewards-IsSolvent :
      (committee member : ℕ) (env : Env) (s : State (chain.World))
      → IsSolvent (bridge_view s)
      → IsSolvent (bridge_view (after (payout_rewards chain committee member env s) s))
  unfolding payout_rewards get_outstanding_member_rewards only_committee_member
      get_collected_committee_rewards get_paid_out_member_rewards checked_add checked_div insert
  payout_rewards-IsSolvent committee member env s v = record {
    within = λ c a n. ground (arith, v.within c a n);
  }

  -- From a state where this holds, along every history of calls: for every committee with a stored
  -- size, no account has been paid more than one equal share of the fees collected for that
  -- committee.
  pub run-IsSolvent :
      (s : State (chain.World)) (txs : List (Transaction chain))
      → IsSolvent (bridge_view s)
      → IsSolvent (bridge_view (run chain s txs))
  run-IsSolvent =
      view_inv chain IsSolvent send_request-IsSolvent receive_request-IsSolvent
        payout_rewards-IsSolvent

-- What the accounts of a list have been paid together for a committee.
abbrev pub total_paid : BridgeView → ℕ → List ℕ → ℕ
total_paid v c [] = 0
total_paid v c (a ∷ rest) = paid_out v c a + total_paid v c rest

total_paid-le :
    (v : BridgeView) (c n : ℕ) (members : List ℕ)
    → IsSolvent v
    → v.committee_sizes c ≡ some n
    → total_paid v c members ≤ length members * (collected v c / n)
total_paid-le v c n [] h e = omega arith
total_paid-le v c n (a ∷ rest) h e = omega (arith, h.within c a n e, total_paid-le v c n rest h e)

-- If no account has been paid more than its share, then the accounts of any list that is not longer
-- than the committee's size have together been paid at most what was collected.
pub payouts_within_rewards :
    (v : BridgeView) (c n : ℕ) (members : List ℕ)
    → IsSolvent v
    → v.committee_sizes c ≡ some n
    → length members ≤ n
    → total_paid v c members ≤ collected v c
payouts_within_rewards v c n members h e l =
    le_trans (total_paid-le v c n members h e)
      (le_trans (mul-le-mul_right (collected v c / n) l) (mul-div-le (collected v c) n))
