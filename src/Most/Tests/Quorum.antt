-- ===== src/Most/Tests/Quorum.antt =====
-- A request to the Most contract that two of three guardians vote for, with other calls in between.
use most_aleph_zero_bridge.Common.{ℕ, ◌≡◌, refl, inl, inr, List, [], ◌∷◌, insert, arith}
use most_aleph_zero_bridge.Shared.{hash_request_data}
use most_aleph_zero_bridge.Most.Types.{processed}
use most_aleph_zero_bridge.Most.Query.{request_status}
use most_aleph_zero_bridge.Most.Calls.{receives, sends, funds, Transaction, run}
use most_aleph_zero_bridge.Most.Setup.{insert_members}
use most_aleph_zero_bridge.Most.View.{bridge_events}
use most_aleph_zero_bridge.Most.Voting.{IsVoting}
use most_aleph_zero_bridge.Most.Voters.{executions}
use most_aleph_zero_bridge.Most.Quorum.{quorum_executes}
use most_aleph_zero_bridge.Most.Tests.{counting, running, storage, by}

-- The hash of a request for 1000 of token 6 to account 77.
abbrev pub requested : ℕ
requested = hash_request_data counting.keccak256 0 6 1000 77 3

abbrev pub vote_of : ℕ → Transaction counting
vote_of member = by member 0 (receives requested 0 6 1000 77 3)

abbrev pub voting_history : List (Transaction counting)
voting_history =
    by 4 300 (sends 5 1000 77)
    ∷ vote_of 11
    ∷ by 8 20 funds
    ∷ vote_of 11
    ∷ vote_of 12
    ∷ vote_of 13
    ∷ []

pub running-IsVoting : IsVoting counting requested 0 2 storage.committees running
unfolding insert
running-IsVoting = record {
  open_state = record { mode = refl; same_members = refl; required = refl };
  tallied = record {
    counted = λ h e. refl;
    recorded = λ h a. refl;
    distinct = tt;
    finished = λ h. refl;
    once = tt;
  };
  undecided = inr (omega arith);
}

quorum_executes_example :
    (request_status (run counting running voting_history).self requested ≡ processed)
    × (executions requested (bridge_events (run counting running voting_history).events) ≡ 1)
quorum_executes_example =
    quorum_executes counting requested 0 6 1000 77 3 0 2 storage.committees refl (omega arith)
      running voting_history (11 ∷ 13 ∷ []) running-IsVoting
      (refl, (refl, (refl, (refl, (refl, (refl, tt)))))) ((ground arith, tt), (tt, tt))
      (
        (
          unfold insert_members insert in refl,
          inl (inr (inl (record { by = refl; votes_for = refl; mints = (1, refl) }))),
        ),
        (
          (
            unfold insert_members insert in refl,
            inl (
                inr (
                  inr (
                    inr (
                      inr
                        (inr (inl (record { by = refl; votes_for = refl; mints = (1, refl) }))))))),
          ),
          tt,
        ),
      )
      (omega arith)
