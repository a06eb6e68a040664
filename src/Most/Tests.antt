-- ===== src/Most/Tests.antt =====
-- A small world for the Most contract, and its theorems at concrete histories.
mod Runs
mod Votes
mod Money
mod Guards
pub mod Quorum
use most_aleph_zero_bridge.Common.{
  number_key, pair_key, checked_sub, checked_add, length, checked_div, after, insert, empty_mapping,
  checked_mul, ℕ, ◌+◌, ◌*◌, ◌%◌, ◌≡◌, ◌≢◌, refl, Bool, true, false, some, none, List, [], ◌∷◌,
  Result, ok, err, Outcome, returns, reverts, Env, Option, arith, All,
}
use most_aleph_zero_bridge.Most.Deployment.{deployed-run_is_sound}
use most_aleph_zero_bridge.Most.Nonces.{IsNumbered}
use most_aleph_zero_bridge.Most.Votes.{IsTallied}
use most_aleph_zero_bridge.Most.Rewards.{IsSolvent}
use most_aleph_zero_bridge.Most.View.{bridge_view}
use most_aleph_zero_bridge.Most.Sending.{Sent, send_request-Sent}
use most_aleph_zero_bridge.Most.Query.{ensure_not_halted, get_collected_committee_rewards}
use most_aleph_zero_bridge.Most.Fee.{get_base_fee}
use most_aleph_zero_bridge.Most.Bridge.{send_request, burn_from, book_request, return_surplus}
use most_aleph_zero_bridge.Most.Types.{Most, State, Data}
use most_aleph_zero_bridge.Most.Chain.{Chain}
use most_aleph_zero_bridge.Most.Setup.{insert_members, occurs, new, check_committee}
use most_aleph_zero_bridge.Most.Calls.{
  MostCall, sends, receives, pays_out, funds, adds_pair, sets_halted, sets_committee, Transaction,
  run, deployed, step, run_call,
}

-- Every call succeeds and counts up; token 5 is minted by account 99.
abbrev pub counting : Chain
counting = record {
  World = ℕ;
  PSP22Error = Unit {0};
  InkEnvError = Unit {0};
  debug = λ _. "";
  keccak256 = byte_hash;
  transfer = λ payer receiver amount w. ok (w + 1);
  set_code_hash = λ contract hash w. ok w;
  psp22_transfer = λ caller token receiver amount w. returns tt (w + 1);
  psp22_transfer_from = λ caller token from to amount w. returns tt (w + 1);
  psp22_mint = λ caller token to amount w. returns tt (w + 1);
  psp22_burn = λ caller token amount w. returns tt (w + 1);
  psp22_minter = λ token w. some 99;
  get_price = λ oracle w. some (30, 1000);
}
  where
    byte_hash : List ℕ → ℕ
    byte_hash [] = 7
    byte_hash (b ∷ bs) = (byte_hash bs * 31 + b) % 1_000_003

abbrev pub env_of : ℕ → ℕ → Env
env_of caller value = record {
  caller = caller;
  account_id = 99;
  transferred_value = value;
  block_timestamp = 2000;
}

abbrev pub by : ℕ → ℕ → MostCall → Transaction counting
by caller value call = record { env = env_of caller value; world = 0; call = call }

-- Three guardians, two signatures, owner 1.
abbrev pub guardians : List ℕ
guardians = 11 ∷ 12 ∷ 13 ∷ []

abbrev pub settings : Data
settings = record {
  request_nonce = 0;
  committee_id = 0;
  pocket_money = 10;
  pocket_money_balance = 0;
  relay_gas_usage = 10;
  min_gas_price = 5;
  max_gas_price = 50;
  default_gas_price = 20;
  gas_price_oracle = none;
  is_halted = true;
}

abbrev pub storage : Most
storage = record {
  lazy_data = some settings;
  lazy_ownable_data = some (record { owner = 1; pending_owner = none });
  pending_requests = empty_mapping;
  signatures = empty_mapping;
  processed_requests = empty_mapping;
  committees = insert_members 0 guardians empty_mapping;
  committee_sizes = insert empty_mapping 0 3;
  signature_thresholds = insert empty_mapping 0 2;
  supported_pairs = empty_mapping;
  collected_committee_rewards = empty_mapping;
  paid_out_member_rewards = empty_mapping;
}

pub built : new {E = Unit {0}} guardians 2 10 10 5 50 20 none 1 ≡ ok storage
unfolding new occurs
built = refl

-- The bridge resumed, with one pair and some pocket money.
abbrev pub running : State ℕ
running = record {
  self = record storage {
    lazy_data = some (record settings { is_halted = false; pocket_money_balance = 25 });
    supported_pairs = insert empty_mapping 5 6;
  };
  world = 0;
  events = [];
}

abbrev pub halted : State ℕ
halted = deployed storage 0

abbrev pub history : List (Transaction counting)
history =
    by 1 0 (adds_pair 5 6)
    ∷ by 1 0 (sets_halted false)
    ∷ by 4 300 (sends 5 1000 77)
    ∷ by 4 100 (sends 5 1000 77)
    ∷ by 8 250 (sends 5 30 78)
    ∷ by 11 0 (pays_out 0 11)
    ∷ []
