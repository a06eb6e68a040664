-- ===== src/Delivery/Tests.antt =====
-- Two of three guardians relay a request of the Ethereum contract.
use most_aleph_zero_bridge.Common.{◌≡◌, refl, inl, inr, [], ◌∷◌, insert, arith}
use most_aleph_zero_bridge.Most.Types.{processed}
use most_aleph_zero_bridge.Most.Query.{request_status}
use most_aleph_zero_bridge.Most.Calls.{run}
use most_aleph_zero_bridge.Most.Setup.{insert_members}
use most_aleph_zero_bridge.Most.View.{bridge_events}
use most_aleph_zero_bridge.Most.Voters.{executions}
use most_aleph_zero_bridge.Most.Tests.{counting, running, storage}
use most_aleph_zero_bridge.Most.Tests.Quorum.{requested, voting_history, running-IsVoting}
use most_aleph_zero_bridge.Relayer.Eth.{Vote, votes, handle_event, crosschain_transfer_request}
use most_aleph_zero_bridge.Relayer.Eth.Voting.{handle_event-hash}
use most_aleph_zero_bridge.Delivery.{relayed_request_executes}

abbrev vote : Vote
vote = record {
  request_hash = requested;
  committee_id = 0;
  dest_token_address = 6;
  amount = 1000;
  dest_receiver_address = 77;
  request_nonce = 3;
}

vote_made : handle_event counting.keccak256 (crosschain_transfer_request 0 6 1000 77 3) ≡ votes vote
vote_made =
    (handle_event-hash counting.keccak256 0 6 1000 77 3 vote).1
      (ground arith, ground arith, ground arith, refl)

relayed_request_executes_example :
    (request_status (run counting running voting_history).self requested ≡ processed)
    × (executions requested (bridge_events (run counting running voting_history).events) ≡ 1)
relayed_request_executes_example =
    relayed_request_executes counting 0 6 1000 77 3 vote 0 2 storage.committees vote_made
      (omega arith) running voting_history (11 ∷ 13 ∷ []) running-IsVoting
      (refl, (refl, (refl, (refl, (refl, (refl, tt)))))) ((ground arith, tt), (tt, tt))
      (
        (
          unfold insert_members insert in refl,
          inr (inl (record { by = refl; relays = refl; mints = (1, refl) })),
        ),
        (
          (
            unfold insert_members insert in refl,
            inr (
                inr
                  (inr (inr (inr (inl (record { by = refl; relays = refl; mints = (1, refl) })))))),
          ),
          tt,
        ),
      )
      (omega arith)
