-- ===== src/Relayer/Eth/Tests.antt =====
-- The Ethereum listener at a concrete run.
use most_aleph_zero_bridge.Shared.{hash_request_data}
use most_aleph_zero_bridge.Relayer.Eth.{
  restarts, finishes, resumes, refused, accepted, started, votes, handles,
  crosschain_transfer_request, run, polls, Action, Listener, MostEvent, Vote, handle_event,
}
use most_aleph_zero_bridge.Relayer.Eth.Voting.{handle_event-hash}
use most_aleph_zero_bridge.Relayer.Eth.Progress.{run-SealedAt}
use most_aleph_zero_bridge.Relayer.Eth.Pending.{SealedAt}
use most_aleph_zero_bridge.Common.{
  u128_size, ◌<◌, ◌↔◌, ℕ, ◌≡◌, true, false, some, none, List, [], ◌∷◌, arith, ◌%◌, ◌*◌, ◌+◌,
}

abbrev byte_hash : List ℕ → ℕ
byte_hash [] = 7
byte_hash (b ∷ bs) = (byte_hash bs * 31 + b) % 1_000_003

abbrev vote : Vote
vote = record {
  request_hash = hash_request_data byte_hash 0 6 1000 77 3;
  committee_id = 0;
  dest_token_address = 6;
  amount = 1000;
  dest_receiver_address = 77;
  request_nonce = 3;
}

handle_event-hash_example :
    (handle_event byte_hash (crosschain_transfer_request 0 6 1000 77 3) ≡ votes vote)
    ↔ ((0 < u128_size) × (1000 < u128_size) × (3 < u128_size) × (vote ≡ vote))
handle_event-hash_example = handle_event-hash byte_hash 0 6 1000 77 3 vote

-- One request in each block, whose nonce is the block's number.
abbrev one_request : ℕ → List MostEvent
one_request b = crosschain_transfer_request 0 6 1000 77 b ∷ []

-- A vote is refused while the bridge is halted, and repeated.
abbrev attempts : List Action
attempts =
    polls 11 false
    ∷ handles accepted
    ∷ handles (refused (some true))
    ∷ resumes (some true)
    ∷ resumes (some false)
    ∷ handles accepted
    ∷ finishes true
    ∷ restarts true
    ∷ polls 12 true
    ∷ []

abbrev attempted : Listener
attempted = run one_request 5 10 attempts (started one_request 5 10 none none [])

run-SealedAt_example : SealedAt one_request 5 10 attempted.cached attempted.handled
run-SealedAt_example = run-SealedAt one_request 5 10 attempts (ground arith)
