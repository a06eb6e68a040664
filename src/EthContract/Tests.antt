-- ===== src/EthContract/Tests.antt =====
-- A small chain with the Most contract on Ethereum, and a request that two of three guardians vote
-- for.
use most_aleph_zero_bridge.Common.{
  ℕ, ◌+◌, ◌*◌, ◌%◌, ◌≡◌, refl, inl, inr, Bool, true, false, none, some, List, [], ◌∷◌, Env, after,
  reverts, arith, ◌==◌,
}
use most_aleph_zero_bridge.EthContract.Types.{EthChain, EthState, access_refused}
use most_aleph_zero_bridge.EthContract.Encoding.{eth_request_hash, member_id, to_be_bytes}
use most_aleph_zero_bridge.EthContract.Bridge.{return_tokens, token_transfer_return_success}
use most_aleph_zero_bridge.EthContract.Admin.{
  initialize, set_members, add_members, unpause, only_owner,
}
use most_aleph_zero_bridge.EthContract.Calls.{
  sets_committee, EthMostCall, receives, sends, unpauses, recovers_native, EthTransaction, run_call,
  step, run,
}
use most_aleph_zero_bridge.EthContract.Votes.{votes_of, IsEthTallied}
use most_aleph_zero_bridge.EthContract.Numbers.{IsEthNumbered}
use most_aleph_zero_bridge.EthContract.Deployment.{IsBlank, initialized-run_is_sound}
use most_aleph_zero_bridge.EthContract.Open.{IsEthVoting}
use most_aleph_zero_bridge.EthContract.Guards.{guarded_calls_revert}
use most_aleph_zero_bridge.EthContract.Quorum

abbrev pub byte_hash : List ℕ → ℕ
byte_hash [] = 7
byte_hash (b ∷ bs) = (byte_hash bs * 31 + b) % 1_000_003

-- Transfers succeed, and the world counts them. The access is the owner and whether it is paused.
abbrev pub counting : EthChain
counting = record {
  World = ℕ;
  keccak256 = byte_hash;
  safe_transfer_from = λ self token from to amount w. some (w + 1);
  safe_transfer = λ self token to amount w. some (w + 1);
  call_transfer = λ self token to amount w. some (w + 1, some (some true));
  has_code = λ token w. true;
  weth_deposit = λ self weth amount w. some (w + 1);
  weth_withdraw = λ self weth amount w. some (w + 1);
  send_ether = λ self to amount w. some (w + 1);
  Access = ℕ × Bool;
  is_owner = λ access account. access.0 == account;
  is_paused = λ access. access.1;
  set_paused = λ paused access. some (access.0, paused);
  AccessCall = Unit;
  access_call = λ caller call access. none;
}

abbrev pub env_of : ℕ → Env
env_of caller = record {
  caller = caller;
  account_id = 500;
  transferred_value = 0;
  block_timestamp = 0;
}

abbrev pub blank : EthState counting
blank = record {
  self = record {
    request_nonce = 0;
    committee_id = 0;
    weth_address = 0;
    supported_pairs = λ token. 0;
    pending_requests = λ h. record { signature_count = 0; signatures = λ a. false };
    processed_requests = λ h. false;
    committee = λ id. false;
    committee_size = λ id. 0;
    signature_threshold = λ id. 0;
    access = (0, false);
  };
  world = 0;
  events = [];
}

abbrev pub guardians : List ℕ
guardians = 11 ∷ 12 ∷ 13 ∷ []

-- The owner is 1, and the contract starts paused. The wrapped ether is at 90.
abbrev pub initialized : EthState counting
initialized =
    after (initialize counting guardians 2 (λ access. some (1, true)) 90 (env_of 1) blank) blank

abbrev pub by : ℕ → EthMostCall counting → EthTransaction counting
by caller call = record { env = env_of caller; world = 0; call = call }

-- The hash of a request for 1000 of token 6 to account 77.
abbrev pub requested : ℕ
requested = eth_request_hash byte_hash 0 6 1000 77 3

abbrev pub vote_of : ℕ → EthTransaction counting
vote_of member = by member (receives requested 0 6 1000 77 3)

abbrev pub voting_history : List (EthTransaction counting)
voting_history =
    by 4 (sends 5 1000 77)
    ∷ vote_of 11
    ∷ by 1 (recovers_native 8 20)
    ∷ vote_of 11
    ∷ vote_of 12
    ∷ vote_of 13
    ∷ []

blank-IsBlank : IsBlank counting blank
blank-IsBlank = record {
  no_votes = λ h. refl;
  no_signatures = λ h a. refl;
  no_processed = λ h. refl;
  no_requests = refl;
  no_events = refl;
}

initialized-run_is_sound_example :
    IsEthTallied (votes_of (run counting initialized (by 1 unpauses ∷ voting_history)))
    × IsEthNumbered (run counting initialized (by 1 unpauses ∷ voting_history))
initialized-run_is_sound_example =
    initialized-run_is_sound counting guardians 2 (λ access. some (1, true)) 90 (env_of 1) blank
      initialized (by 1 unpauses ∷ voting_history) blank-IsBlank
      (unfold initialize set_members add_members member_id to_be_bytes in refl)

abbrev pub running : EthState counting
running = run counting initialized (by 1 unpauses ∷ [])

pub running-IsEthVoting :
    IsEthVoting counting requested 0 6 1000 77 2 90 initialized.committee running
unfolding run step run_call unpause only_owner initialize set_members add_members member_id
    to_be_bytes
running-IsEthVoting = record {
  running = refl;
  same_members = refl;
  required = refl;
  wraps = refl;
  tallied =
      (initialized-run_is_sound counting guardians 2 (λ access. some (1, true)) 90 (env_of 1) blank
        initialized (by 1 unpauses ∷ []) blank-IsBlank refl).0;
  undecided = inr (omega arith);
}

pub vote-Pays :
    (env : Env) (w : ℕ)
    → Quorum.Pays counting requested 0 6 1000 77 3 2 90 initialized.committee env w
unfolding return_tokens token_transfer_return_success
vote-Pays env w t at wraps = ground arith

-- The owner cannot replace the committee while the contract is not paused.
guarded_calls_revert_example :
    run_call counting (sets_committee (21 ∷ 22 ∷ []) 2) (env_of 1) running ≡ reverts access_refused
guarded_calls_revert_example =
    guarded_calls_revert counting (env_of 1) running (sets_committee (21 ∷ 22 ∷ []) 2)
      (inr (inr (inl (refl, running-IsEthVoting.running))))
