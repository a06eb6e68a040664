-- ===== src/EthContract/Votes.antt =====
-- The votes of eth/contracts/Most.sol against the record of its events, in the terms in which
-- those of the contract on Aleph Zero are counted.
use most_aleph_zero_bridge.Common.{
  ℕ, ◌≡◌, Bool, true, false, List, [], ◌∷◌, Env, Outcome, returns, reverts, traps, after, arith,
}
use Prim.Native.Nat.{◌%◌, ◌^◌}
use most_aleph_zero_bridge.Most.Types.{Event, request_processed, request_signed}
use most_aleph_zero_bridge.Most.Votes.{votes, voted, executed, DistinctVotes, ExecutedOnce}
use most_aleph_zero_bridge.EthContract.Types.{EthChain, EthState, EthEvent, Request, EthMost}
use most_aleph_zero_bridge.EthContract.Bridge.{
  receive_request, sign_request, execute_request, return_tokens, set, token_transfer_return_success,
  when_not_paused, only_committee_member,
}

-- The events of votes and executions, in the terms of the contract on Aleph Zero.
abbrev pub vote_events : List EthEvent → List Event
vote_events [] = []
vote_events (EthEvent.request_signed h a ∷ es) = request_signed h a ∷ vote_events es
vote_events (EthEvent.request_processed h ∷ es) = request_processed h 0 ∷ vote_events es
vote_events (_ ∷ es) = vote_events es

-- What the votes are counted in.
pub record EthVotes : Type 0 where
  pub pending_requests : ℕ → Request
  pub processed_requests : ℕ → Bool
  pub events : List Event

abbrev pub votes_of : {chain : EthChain} → EthState chain → EthVotes
votes_of s = record {
  pending_requests = s.pending_requests;
  processed_requests = s.processed_requests;
  events = vote_events s.events;
}

pub record IsEthTallied (v : EthVotes) : Type 0 where
  pub counted :
      (h : ℕ)
      → v.processed_requests h ≡ false
      → (v.pending_requests h).signature_count ≡ votes h v.events
  pub recorded : (h a : ℕ) → (v.pending_requests h).signatures a ≡ voted h a v.events
  pub distinct : DistinctVotes v.events
  pub finished : (h : ℕ) → v.processed_requests h ≡ executed h v.events
  pub once : ExecutedOnce v.events

-- A message that returns has left the storage and the votes alone.
abbrev pub KeepsVotes :
    {chain : EthChain} {E A : Type 0} → EthState chain → Outcome E (EthState chain) A → Type 0
KeepsVotes s (returns a t) = (t.self ≡ s.self) × (vote_events t.events ≡ vote_events s.events)
KeepsVotes s (reverts e) = Unit
KeepsVotes s traps = Unit

module _ (chain : EthChain) (env : Env) where
  return_tokens-KeepsVotes :
      (hash token receiver amount : ℕ) (s : EthState chain)
      → KeepsVotes s (return_tokens chain hash token receiver amount env s)
  unfolding return_tokens token_transfer_return_success
  return_tokens-KeepsVotes hash token receiver amount s = ground arith

  -- The storage when a request is executed.
  abbrev pub executed_self : ℕ → EthState chain → EthMost (chain.Access)
  executed_self hash s = record (s.self) {
    processed_requests = set s.processed_requests hash true;
    pending_requests =
        set s.pending_requests hash (record (s.pending_requests hash) { signature_count = 0 });
  }

  abbrev pub ExecutesVotes :
      {E A : Type 0} → ℕ → EthState chain → Outcome E (EthState chain) A → Type 0
  ExecutesVotes hash s (returns a t) =
      (t.self ≡ executed_self hash s)
      × (vote_events t.events ≡ request_processed hash 0 ∷ vote_events s.events)
  ExecutesVotes hash s (reverts e) = Unit
  ExecutesVotes hash s traps = Unit

  pub execute_request-ExecutesVotes :
      (hash token amount receiver : ℕ) (s : EthState chain)
      → ExecutesVotes hash s (execute_request chain hash token amount receiver env s)
  unfolding execute_request
  execute_request-ExecutesVotes hash token amount receiver s = ground (
    arith,
    return_tokens-KeepsVotes hash (token % 2 ^ 160) (receiver % 2 ^ 160) amount
        (record s { self = executed_self hash s }),
  )

  module _ (hash committee token amount receiver nonce : ℕ) (s : EthState chain)
      (v : IsEthTallied (votes_of s)) where
    abbrev received : EthVotes
    received =
        votes_of (after (receive_request chain hash committee token amount receiver nonce env s) s)

    received-counted :
        (h : ℕ)
        → received.processed_requests h ≡ false
        → (received.pending_requests h).signature_count ≡ votes h received.events
    unfolding receive_request when_not_paused only_committee_member sign_request execute_request
        return_tokens token_transfer_return_success
    received-counted h = ground (arith, v.counted h, v.counted hash)

    received-recorded :
        (h a : ℕ) → (received.pending_requests h).signatures a ≡ voted h a received.events
    unfolding receive_request when_not_paused only_committee_member sign_request execute_request
        return_tokens token_transfer_return_success
    received-recorded h a = ground (arith, v.recorded h a)

    received-distinct : DistinctVotes received.events
    unfolding receive_request when_not_paused only_committee_member sign_request execute_request
        return_tokens token_transfer_return_success
    received-distinct = ground (arith, v.recorded hash env.caller, v.distinct)

    received-finished : (h : ℕ) → received.processed_requests h ≡ executed h received.events
    unfolding receive_request when_not_paused only_committee_member sign_request execute_request
        return_tokens token_transfer_return_success
    received-finished h = ground (arith, v.finished h)

    received-once : ExecutedOnce received.events
    unfolding receive_request when_not_paused only_committee_member sign_request execute_request
        return_tokens token_transfer_return_success
    received-once = ground (arith, v.finished hash, v.once)

  pub received-IsEthTallied :
      (hash committee token amount receiver nonce : ℕ) (s : EthState chain)
      → IsEthTallied (votes_of s)
      → IsEthTallied (
          votes_of
            (after (receive_request chain hash committee token amount receiver nonce env s) s))
  received-IsEthTallied hash committee token amount receiver nonce s v = record {
    counted = received-counted hash committee token amount receiver nonce s v;
    recorded = received-recorded hash committee token amount receiver nonce s v;
    distinct = received-distinct hash committee token amount receiver nonce s v;
    finished = received-finished hash committee token amount receiver nonce s v;
    once = received-once hash committee token amount receiver nonce s v;
  }
