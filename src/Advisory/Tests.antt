-- ===== src/Advisory/Tests.antt =====
-- The advisory contract at a concrete history.
use most_aleph_zero_bridge.Common.{ℕ, ◌≡◌, true, List, [], ◌∷◌, Env}
use most_aleph_zero_bridge.Advisory.{new, owner, is_emergency, AdvisoryState}
use most_aleph_zero_bridge.Advisory.Log.{
  AdvisoryCall, sets_emergency, transfers_ownership, run, IsLogged, advisory-IsLogged,
  announced_handovers,
}

abbrev by : ℕ → Env
by caller = record { caller = caller; account_id = 9; transferred_value = 0; block_timestamp = 0 }

-- The second call is not the owner's.
abbrev calls : List (Env × AdvisoryCall)
calls =
    (by 1, sets_emergency true) ∷ (by 2, transfers_ownership 2) ∷ (by 1, transfers_ownership 3) ∷ []

abbrev after_calls : AdvisoryState
after_calls = run (record { self = new 1; events = [] }) calls

advisory-IsLogged_example :
    IsLogged 1 after_calls
    × (owner after_calls.self ≡ 3)
    × (is_emergency after_calls.self ≡ true)
    × (announced_handovers after_calls.events ≡ 1)
advisory-IsLogged_example = advisory-IsLogged 1 calls
