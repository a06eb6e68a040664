-- ===== src/Most/Votes.antt =====
-- The votes of azero/contracts/most/lib.rs against the record of its events, along every history:
-- one vote for each account and request, a count that is right, and at most one execution.
use most_aleph_zero_bridge.Common.{
  ℕ, ◌≡◌, Bool, false, ◌&&◌, ◌||◌, none, some, List, [], ◌∷◌, Env, Outcome, returns, reverts, traps,
  contains, insert, remove, number_key, pair_key, unwrap_or, checked_add, ◌==◌, if◌then◌else◌,
  after, after-cases, arith, suc,
}
use most_aleph_zero_bridge.Most.Types.{Data, State, Event, request_processed, request_signed}
use most_aleph_zero_bridge.Most.Chain.{Chain}
use most_aleph_zero_bridge.Most.Bridge.{
  send_request, receive_request, sign_request, execute_request, mint_to, send_pocket_money,
  payout_rewards,
}
use most_aleph_zero_bridge.Most.Calls.{Transaction, run}
use most_aleph_zero_bridge.Most.View.{BridgeView, bridge_events, bridge_view, view_inv}
use most_aleph_zero_bridge.Most.Sending.{Sent, send_request-Sent}

-- The number of votes for a request hash.
abbrev pub votes : ℕ → List Event → ℕ
votes h [] = 0
votes h (request_signed k a ∷ es) = if k == h then suc (votes h es) else votes h es
votes h (_ ∷ es) = votes h es

-- Whether an account has voted for a request hash.
abbrev pub voted : ℕ → ℕ → List Event → Bool
voted h b [] = false
voted h b (request_signed k a ∷ es) = ((k == h) && (a == b)) || voted h b es
voted h b (_ ∷ es) = voted h b es

-- Whether a request has been executed.
abbrev pub executed : ℕ → List Event → Bool
executed h [] = false
executed h (request_processed k t ∷ es) = (k == h) || executed h es
executed h (_ ∷ es) = executed h es

-- No account votes twice for one hash.
abbrev pub DistinctVotes : List Event → Type 0
DistinctVotes [] = Unit
DistinctVotes (request_signed h a ∷ es) = (voted h a es ≡ false) × DistinctVotes es
DistinctVotes (_ ∷ es) = DistinctVotes es

-- No request is executed twice.
abbrev pub ExecutedOnce : List Event → Type 0
ExecutedOnce [] = Unit
ExecutedOnce (request_processed h t ∷ es) = (executed h es ≡ false) × ExecutedOnce es
ExecutedOnce (_ ∷ es) = ExecutedOnce es

-- The votes that the storage has counted for a hash.
abbrev pub counted_votes : BridgeView → ℕ → ℕ
counted_votes v h =
    (unwrap_or (v.pending_requests h) (record { signature_count = 0 })).signature_count

pub record IsTallied (v : BridgeView) : Type 0 where
  pub counted : (h : ℕ) → v.processed_requests h ≡ none → counted_votes v h ≡ votes h v.events
  pub recorded : (h a : ℕ) → contains v.signatures (h, a) ≡ voted h a v.events
  pub distinct : DistinctVotes v.events
  pub finished : (h : ℕ) → contains v.processed_requests h ≡ executed h v.events
  pub once : ExecutedOnce v.events

abbrev CountsAt : ℕ → BridgeView → Type 0
CountsAt h v = v.processed_requests h ≡ none → counted_votes v h ≡ votes h v.events

-- An execution takes the hash from the pending requests to the processed ones.
abbrev Executes : {W E A : Type 0} → ℕ → ℕ → State W → Outcome E (State W) A → Type 0
Executes hash h s (returns a t) =
    (t.processed_requests h ≡ (if hash == h then some tt else s.processed_requests h))
    × (t.pending_requests h ≡ (if hash == h then none else s.pending_requests h))
    × (votes h (bridge_events t.events) ≡ votes h (bridge_events s.events))
Executes hash h s (reverts e) = Unit
Executes hash h s traps = Unit

-- The state once a vote is recorded and announced, before the quorum is looked at.
abbrev after_vote : {W : Type 0} → ℕ → ℕ → State W → State W
after_vote caller hash s = record s {
  self = record (s.self) { signatures = insert s.signatures (hash, caller) tt };
  events = request_signed hash caller ∷ s.events;
}

module _ (chain : Chain) where
  execute_request-Executes :
      (d : Data) (hash token amount dest : ℕ) (env : Env) (s : State (chain.World)) (h : ℕ)
      → Executes hash h s (execute_request chain d hash token amount dest env s)
  unfolding execute_request mint_to send_pocket_money insert remove
  execute_request-Executes d hash token amount dest env s h = ground arith

  sign_request-CountsAt :
      (d : Data) (caller hash token amount dest : ℕ) (env : Env) (s : State (chain.World)) (h : ℕ)
      → s.processed_requests hash ≡ none
      → CountsAt h (bridge_view s)
      → CountsAt hash (bridge_view s)
      → CountsAt h
          (bridge_view (after (sign_request chain d caller hash token amount dest env s) s))
  unfolding sign_request insert checked_add
  sign_request-CountsAt d caller hash token amount dest env s h new at_h at_hash =
      ground
        (arith, execute_request-Executes d hash token amount dest env (after_vote caller hash s) h)

  module _ (hash committee token amount dest nonce : ℕ) (env : Env) (s : State (chain.World))
      (v : IsTallied (bridge_view s)) where
    abbrev received : BridgeView
    received =
        bridge_view (after (receive_request chain hash committee token amount dest nonce env s) s)

    received-counted : (h : ℕ) → CountsAt h received
    unfolding receive_request
    received-counted h = grind (arith, v.counted h, v.counted hash, sign_request-CountsAt)

    received-recorded : (h a : ℕ) → contains received.signatures (h, a) ≡ voted h a received.events
    unfolding receive_request sign_request execute_request mint_to send_pocket_money insert
    received-recorded h a = ground (arith, v.recorded h a)

    received-distinct : DistinctVotes received.events
    unfolding receive_request sign_request execute_request mint_to send_pocket_money
    received-distinct = ground (arith, v.recorded hash env.caller, v.distinct)

    received-finished :
        (h : ℕ) → contains received.processed_requests h ≡ executed h received.events
    unfolding receive_request sign_request execute_request mint_to send_pocket_money insert
    received-finished h = ground (arith, v.finished h)

    received-once : ExecutedOnce received.events
    unfolding receive_request sign_request execute_request mint_to send_pocket_money
    received-once = ground (arith, v.finished hash, v.once)

  receive_request-IsTallied :
      (hash committee token amount dest nonce : ℕ) (env : Env) (s : State (chain.World))
      → IsTallied (bridge_view s)
      → IsTallied (
          bridge_view
            (after (receive_request chain hash committee token amount dest nonce env s) s))
  receive_request-IsTallied hash committee token amount dest nonce env s v = record {
    counted = received-counted hash committee token amount dest nonce env s v;
    recorded = received-recorded hash committee token amount dest nonce env s v;
    distinct = received-distinct hash committee token amount dest nonce env s v;
    finished = received-finished hash committee token amount dest nonce env s v;
    once = received-once hash committee token amount dest nonce env s v;
  }

  Sent-IsTallied :
      (src amount dest : ℕ) (env : Env) (s t : State (chain.World))
      → IsTallied (bridge_view s)
      → Sent chain env s src amount dest t
      → IsTallied (bridge_view t)
  Sent-IsTallied src amount dest env s t v sent = record {
    counted = λ h. ground (arith, v.counted h);
    recorded = λ h a. ground (arith, v.recorded h a);
    distinct = ground arith;
    finished = λ h. ground (arith, v.finished h);
    once = ground arith;
  }

  send_request-IsTallied :
      (src amount dest : ℕ) (env : Env) (s : State (chain.World))
      → IsTallied (bridge_view s)
      → IsTallied (bridge_view (after (send_request chain src amount dest env s) s))
  send_request-IsTallied src amount dest env s v =
      after-cases (λ t. IsTallied (bridge_view t)) (send_request chain src amount dest env s) s v
        λ _ t e.
          Sent-IsTallied src amount dest env s t v (send_request-Sent chain env s src amount dest e)

  payout_rewards-IsTallied :
      (committee member : ℕ) (env : Env) (s : State (chain.World))
      → IsTallied (bridge_view s)
      → IsTallied (bridge_view (after (payout_rewards chain committee member env s) s))
  unfolding payout_rewards
  payout_rewards-IsTallied committee member env s v = record {
    counted = λ h. ground (arith, v.counted h);
    recorded = λ h a. ground (arith, v.recorded h a);
    distinct = ground arith;
    finished = λ h. ground (arith, v.finished h);
    once = ground arith;
  }

  -- From a state where this holds, along every history of calls: the stored vote counts, signatures
  -- and processed marks agree with the events, so the count of a request that is not executed is
  -- the number of votes announced for it; no account votes twice for one hash, and no hash is
  -- executed twice.
  pub run-IsTallied :
      (s : State (chain.World)) (txs : List (Transaction chain))
      → IsTallied (bridge_view s)
      → IsTallied (bridge_view (run chain s txs))
  run-IsTallied =
      view_inv chain IsTallied send_request-IsTallied receive_request-IsTallied
        payout_rewards-IsTallied
