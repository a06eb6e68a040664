-- ===== src/Delivery.antt =====
-- Where the parts meet: a request of the Ethereum contract, the votes of the relayers in
-- relayer/relayer/src/listeners/eth.rs, and the contract in azero/contracts/most/lib.rs.
mod Tests
pub mod Ethereum
use most_aleph_zero_bridge.Common.{
  ℕ, ◌≡◌, ◌≤◌, ◌<◌, ◌⊎◌, inl, inr, true, List, [], ◌∷◌, All, All-map, length, Mapping, contains,
  returns, u128_size, arith,
}
use most_aleph_zero_bridge.Most.Types.{State, processed}
use most_aleph_zero_bridge.Most.Chain.{Chain}
use most_aleph_zero_bridge.Most.Query.{request_status}
use most_aleph_zero_bridge.Most.Calls.{MostCall, receives, Transaction, run}
use most_aleph_zero_bridge.Most.View.{bridge_events}
use most_aleph_zero_bridge.Most.Setting.{leaves_committee}
use most_aleph_zero_bridge.Most.Committee.{IsDistinct}
use most_aleph_zero_bridge.Most.Voting.{IsVoting}
use most_aleph_zero_bridge.Most.Voters.{executions}
use most_aleph_zero_bridge.Most.Quorum.{IsVote, Votes, quorum_executes}
use most_aleph_zero_bridge.Relayer.Eth.{Vote, votes, handle_event, crosschain_transfer_request}
use most_aleph_zero_bridge.Relayer.Eth.Voting.{handle_event-hash}

module _ (chain : Chain) (committee_id token amount receiver nonce : ℕ) (v : Vote)
    (current threshold : ℕ) (members : Mapping (ℕ × ℕ) (Unit {0}))
    (handled : handle_event chain.keccak256
        (crosschain_transfer_request committee_id token amount receiver nonce)
      ≡ votes v)
    (small : threshold < u128_size) where
  -- The call that a relayer makes for a vote.
  abbrev pub vote_call : Vote → MostCall
  vote_call w =
      receives w.request_hash w.committee_id w.dest_token_address w.amount w.dest_receiver_address
        w.request_nonce

  -- A transaction with the vote of the relayer with this account.
  pub record IsRelayed (a : ℕ) (tx : Transaction chain) : Type 0 where
    pub by : tx.env.caller ≡ a
    pub relays : tx.call ≡ vote_call v
    pub mints :
        (w : chain.World) × (chain.psp22_mint tx.env.account_id token receiver amount tx.world
          ≡ returns tt w)

  abbrev pub Relays : ℕ → List (Transaction chain) → Type 0
  Relays a [] = ⊥
  Relays a (tx ∷ txs) = IsRelayed a tx ⊎ Relays a txs

  IsRelayed-IsVote :
      (a : ℕ) (tx : Transaction chain)
      → IsRelayed a tx
      → IsVote chain v.request_hash committee_id token amount receiver nonce current threshold
          members a tx
  IsRelayed-IsVote a tx r =
      let facts =
        (handle_event-hash chain.keccak256 committee_id token amount receiver nonce v).0 handled in
      record { by = r.by; votes_for = ground (arith, r.relays); mints = r.mints }

  Relays-Votes :
      (a : ℕ) (txs : List (Transaction chain))
      → Relays a txs
      → Votes chain v.request_hash committee_id token amount receiver nonce current threshold
          members a txs
  Relays-Votes a [] r = absurd r
  Relays-Votes a (tx ∷ txs) (inl r) = inl (IsRelayed-IsVote a tx r)
  Relays-Votes a (tx ∷ txs) (inr r) = inr (Relays-Votes a txs r)

  -- A request of the Ethereum contract is executed on Aleph Zero. Take the vote that `handle_event`
  -- of a relayer makes for the request's event, a state where the bridge runs, the committee stands
  -- and the request is executed or short of votes, and any history in which neither a committee
  -- nor the halted flag is set. If as many distinct members of the request's committee as the
  -- threshold asks for send that vote in it, and the token can be minted at each of them, then at its
  -- end the request's status is `Processed`, and it was executed exactly once. The threshold is
  -- below 2 ^ 128.
  pub relayed_request_executes :
      (s : State (chain.World)) (txs : List (Transaction chain)) (relayers : List ℕ)
      → IsVoting chain v.request_hash current threshold members s
      → All (λ tx. leaves_committee tx.call ≡ true) txs
      → IsDistinct relayers
      → All (λ a. (contains members (committee_id, a) ≡ true) × Relays a txs) relayers
      → threshold ≤ length relayers
      → let t = run chain s txs in
        (request_status t.self v.request_hash ≡ processed)
        × (executions v.request_hash (bridge_events t.events) ≡ 1)
  relayed_request_executes s txs relayers voting calm distinct cast enough =
      let facts =
        (handle_event-hash chain.keccak256 committee_id token amount receiver nonce v).0 handled in
      quorum_executes chain v.request_hash committee_id token amount receiver nonce current
        threshold members (ground arith) small s txs relayers voting calm distinct
        (All-map relayers (λ a h. (h.0, inl (Relays-Votes a txs h.1))) cast) enough
