-- ===== src/Most/Nonces.antt =====
-- The numbering of outgoing requests by azero/contracts/most/lib.rs, along every history.
use most_aleph_zero_bridge.Common.{
  ℕ, ◌+◌, ◌≡◌, none, some, List, [], ◌∷◌, Env, after, after-cases, arith,
}
use most_aleph_zero_bridge.Most.Types.{
  State, Event, crosschain_transfer_request, request_processed, request_signed,
  signed_processed_request, request_already_signed, halted_state_changed,
  transfer_ownership_initiated, transfer_ownership_accepted,
}
use most_aleph_zero_bridge.Most.Chain.{Chain}
use most_aleph_zero_bridge.Most.Bridge.{
  send_request, receive_request, sign_request, execute_request, mint_to, send_pocket_money,
  payout_rewards,
}
use most_aleph_zero_bridge.Most.Calls.{Transaction, run}
use most_aleph_zero_bridge.Most.View.{BridgeView, bridge_view, view_inv}
use most_aleph_zero_bridge.Most.Sending.{send_request-Sent}

-- The transfer requests among the events, newest first, carry the nonces n - 1, n - 2, …, 0.
abbrev pub NumberedTo : ℕ → List Event → Type 0
NumberedTo n [] = n ≡ 0
NumberedTo n (crosschain_transfer_request r ∷ es) =
    (n ≡ r.request_nonce + 1) × NumberedTo r.request_nonce es
NumberedTo n (request_processed h k ∷ es) = NumberedTo n es
NumberedTo n (request_signed h a ∷ es) = NumberedTo n es
NumberedTo n (signed_processed_request h a ∷ es) = NumberedTo n es
NumberedTo n (request_already_signed h a ∷ es) = NumberedTo n es
NumberedTo n (halted_state_changed p q a ∷ es) = NumberedTo n es
NumberedTo n (transfer_ownership_initiated a ∷ es) = NumberedTo n es
NumberedTo n (transfer_ownership_accepted a ∷ es) = NumberedTo n es

-- The stored nonce is the number of requests so far.
abbrev pub IsNumbered : BridgeView → Type 0
IsNumbered v = elim v.nonce [ none ↦ Unit {0} | some n ↦ NumberedTo n v.events ]

module _ (chain : Chain) where
  send_request-IsNumbered :
      (src amount dest : ℕ) (env : Env) (s : State (chain.World))
      → IsNumbered (bridge_view s)
      → IsNumbered (bridge_view (after (send_request chain src amount dest env s) s))
  send_request-IsNumbered src amount dest env s h =
      after-cases (λ t. IsNumbered (bridge_view t)) (send_request chain src amount dest env s) s h
        λ _ t e. ground (arith, send_request-Sent chain env s src amount dest e)

  receive_request-IsNumbered :
      (hash committee token amount dest nonce : ℕ) (env : Env) (s : State (chain.World))
      → IsNumbered (bridge_view s)
      → IsNumbered (
          bridge_view
            (after (receive_request chain hash committee token amount dest nonce env s) s))
  unfolding receive_request sign_request execute_request mint_to send_pocket_money
  receive_request-IsNumbered hash committee token amount dest nonce env s h = ground arith

  payout_rewards-IsNumbered :
      (committee member : ℕ) (env : Env) (s : State (chain.World))
      → IsNumbered (bridge_view s)
      → IsNumbered (bridge_view (after (payout_rewards chain committee member env s) s))
  unfolding payout_rewards
  payout_rewards-IsNumbered committee member env s h = ground arith

  -- From a state where this holds, along every history of calls, by whomever, successful or not:
  -- the transfer requests that were announced carry the nonces 0, 1, 2, … in this order, and the
  -- stored nonce, if the data is stored, is their number.
  pub run-IsNumbered :
      (s : State (chain.World)) (txs : List (Transaction chain))
      → IsNumbered (bridge_view s)
      → IsNumbered (bridge_view (run chain s txs))
  run-IsNumbered =
      view_inv chain IsNumbered send_request-IsNumbered receive_request-IsNumbered
        payout_rewards-IsNumbered
