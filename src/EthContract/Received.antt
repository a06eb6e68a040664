-- ===== src/EthContract/Received.antt =====
-- What `receiveRequest` of eth/contracts/Most.sol does, case by case.
use mathlib.Core.Path.{subst}
use most_aleph_zero_bridge.Common.{
  ℕ, ◌+◌, ◌≤◌, ◌<◌, ◌≡◌, inl, inr, true, false, List, ◌∷◌, ◌++◌, Env, Outcome, returns, arith,
  Bool-cases, Outcome-cases, leb,
}
use most_aleph_zero_bridge.EthContract.Types.{
  EthChain, EthState, EthEvent, request_signed, processed_request_signed, request_already_signed,
  request_processed, EthError,
}
use most_aleph_zero_bridge.EthContract.Encoding.{eth_request_hash}
use most_aleph_zero_bridge.EthContract.Bridge.{
  set, receive_request, sign_request, execute_request, return_tokens, when_not_paused,
  only_committee_member, is_in_committee, bytes32_to_address,
}
use most_aleph_zero_bridge.EthContract.Votes.{executed_self}
use most_aleph_zero_bridge.EthContract.Returning.{TokensReturn, return_tokens-TokensReturned}

-- The state once a vote is recorded and announced, before the quorum is looked at.
abbrev pub voted_state : {chain : EthChain} → ℕ → ℕ → EthState chain → EthState chain
voted_state hash a s = record s {
  self = record (s.self) {
    pending_requests = set s.pending_requests hash (record {
      signature_count = (s.pending_requests hash).signature_count + 1;
      signatures = set (s.pending_requests hash).signatures a true;
    });
  };
  events = EthEvent.request_signed hash a ∷ s.events;
}

module _ (chain : EthChain) (hash committee_id token amount receiver nonce : ℕ) (env : Env)
    (s : EthState chain) where
  -- The hash of the request's data.
  abbrev pub data_hash : ℕ
  data_hash = eth_request_hash chain.keccak256 committee_id token amount receiver nonce

  -- The votes for the hash with this one.
  abbrev pub tally : ℕ
  tally = (s.pending_requests hash).signature_count + 1

  -- How a call that returns has ended.
  pub data EthReceived (t : EthState chain) : Type 0 where
    was_processed :
        s.processed_requests hash ≡ true
        → t ≡ record s { events = processed_request_signed hash env.caller ∷ s.events }
        → EthReceived t
    was_signed :
        s.processed_requests hash ≡ false
        → (s.pending_requests data_hash).signatures env.caller ≡ true
        → t ≡ record s { events = request_already_signed data_hash env.caller ∷ s.events }
        → EthReceived t
    was_counted :
        s.processed_requests hash ≡ false
        → (s.pending_requests hash).signatures env.caller ≡ false
        → hash ≡ data_hash
        → tally < s.signature_threshold committee_id
        → t ≡ voted_state hash env.caller s
        → EthReceived t
    was_executed :
        (told : List EthEvent)
        → s.processed_requests hash ≡ false
        → (s.pending_requests hash).signatures env.caller ≡ false
        → hash ≡ data_hash
        → s.signature_threshold committee_id ≤ tally
        → TokensReturn chain hash s.weth_address env.account_id
            (bytes32_to_address token)
            (bytes32_to_address receiver)
            amount
            s.world
            t.world
            told
        → t.self ≡ executed_self chain env hash (voted_state hash env.caller s)
        → t.events ≡ request_processed hash ∷ (told ++ (request_signed hash env.caller ∷ s.events))
        → EthReceived t

  -- The state when the tokens are returned.
  abbrev marked : EthState chain
  marked = record (voted_state hash env.caller s) {
    self = executed_self chain env hash (voted_state hash env.caller s);
  }

  abbrev returning : Outcome EthError (EthState chain) (Unit {0})
  returning =
      return_tokens chain hash (bytes32_to_address token) (bytes32_to_address receiver) amount env
        marked

  module _ {t : EthState chain}
      (h : receive_request chain hash committee_id token amount receiver nonce env s
        ≡ returns tt t) where
    executed-EthReceived :
        s.processed_requests hash ≡ false
        → (s.pending_requests hash).signatures env.caller ≡ false
        → hash ≡ data_hash
        → leb (s.signature_threshold committee_id) tally ≡ true
        → EthReceived t
    unfolding receive_request when_not_paused only_committee_member sign_request execute_request
    executed-EthReceived new unsigned hashed quorum = elim (Outcome-cases returning) [
      | inl (_, u, returned) ↦
          let r =
            return_tokens-TokensReturned chain hash (bytes32_to_address token)
              (bytes32_to_address receiver) amount env marked u returned in
          was_executed r.told new unsigned hashed (ground arith)
            (subst
              (λ v.
                TokensReturn chain hash s.weth_address env.account_id (bytes32_to_address token)
                  (bytes32_to_address receiver) amount s.world v r.told)
              (let at : u.world ≡ t.world = ground arith in at) r.moved)
            (ground (arith, r.same_self)) (ground (arith, r.told_events))
      | inr failed ↦ absurd (ground arith)
    ]

    new_vote-EthReceived :
        s.processed_requests hash ≡ false
        → (s.pending_requests data_hash).signatures env.caller ≡ false
        → EthReceived t
    unfolding receive_request when_not_paused only_committee_member sign_request
    new_vote-EthReceived new unsigned =
        let hashed : hash ≡ data_hash = ground arith in
        elim (Bool-cases (leb (s.signature_threshold committee_id) tally)) [
          | inl quorum ↦ executed-EthReceived new (ground arith) hashed quorum
          | inr short ↦ was_counted new (ground arith) hashed (ground arith) (ground arith)
        ]

    pub receive_request-EthReceived :
        (chain.is_paused s.access ≡ false)
        × (is_in_committee chain s.self committee_id env.caller ≡ true)
        × EthReceived t
    unfolding receive_request when_not_paused only_committee_member
    receive_request-EthReceived = (
      ground arith,
      ground arith,
      elim (Bool-cases (s.processed_requests hash)) [
        | inl old ↦ was_processed old (ground arith)
        | inr new ↦ elim (Bool-cases ((s.pending_requests data_hash).signatures env.caller)) [
          | inl signed ↦ was_signed new signed (ground arith)
          | inr unsigned ↦ new_vote-EthReceived new unsigned
        ]
      ],
    )
