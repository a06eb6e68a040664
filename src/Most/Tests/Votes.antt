-- ===== src/Most/Tests/Votes.antt =====
-- The theorems on votes for requests to the Most contract at concrete calls.
use most_aleph_zero_bridge.Most.Query.{
  ensure_not_halted, only_committee_member, is_halted, is_in_committee,
}
use most_aleph_zero_bridge.Most.Setup.{insert_members}
use most_aleph_zero_bridge.Common.{
  insert, checked_add, false, returns, ok, true, after, ℕ, ◌≡◌, refl,
}
use most_aleph_zero_bridge.Shared.{request_bytes, hash_request_data}
use most_aleph_zero_bridge.Most.Receiving.{
  receive_request-admits, receive_request-Received, Received, receive_request-keeps,
}
use most_aleph_zero_bridge.Most.Bridge.{execute_request, sign_request, receive_request}
use most_aleph_zero_bridge.Most.Tests.{State, counting, running, env_of}

-- The hash of a request for 1000 of token 6 to account 77.
abbrev asked : ℕ
asked = hash_request_data counting.keccak256 0 6 1000 77 0

-- The first of two votes.
abbrev first_vote : State ℕ
first_vote = after (receive_request counting asked 0 6 1000 77 0 (env_of 11 0) running) running

first_vote_returns :
    receive_request counting asked 0 6 1000 77 0 (env_of 11 0) running ≡ returns tt first_vote
unfolding receive_request sign_request execute_request ensure_not_halted only_committee_member
    insert_members insert hash_request_data request_bytes checked_add
first_vote_returns = refl

receive_request-keeps_example :
    (first_vote.lazy_data ≡ running.lazy_data)
    × (first_vote.committee_sizes ≡ running.committee_sizes)
    × (first_vote.collected_committee_rewards ≡ running.collected_committee_rewards)
    × (first_vote.paid_out_member_rewards ≡ running.paid_out_member_rewards)
receive_request-keeps_example =
    receive_request-keeps counting asked 0 6 1000 77 0 (env_of 11 0) running

receive_request-admits_example :
    (is_in_committee running.self 0 11 ≡ true)
    × (is_halted {E = counting.PSP22Error} running.self ≡ ok false)
receive_request-admits_example =
    receive_request-admits counting asked 0 6 1000 77 0 (env_of 11 0) running first_vote_returns

receive_request-Received_example :
    Received counting asked 0 6 1000 77 0 (env_of 11 0) running first_vote
receive_request-Received_example =
    receive_request-Received counting asked 0 6 1000 77 0 (env_of 11 0) running first_vote_returns
