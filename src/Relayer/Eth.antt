-- ===== src/Relayer/Eth.antt =====
-- relayer/relayer/src/listeners/eth.rs: the listener that votes on Aleph Zero for the requests from
-- Ethereum, one event after the other.
pub mod Voting
pub mod Pending
pub mod Progress
mod Tests
use most_aleph_zero_bridge.Common.{
  ℕ, zero, suc, ◌+◌, ◌-◌, ◌≤◌, ◌<◌, Bool, true, false, Option, none, some, List, [], ◌∷◌, ◌++◌, leb,
  ltb, if◌then◌else◌, ◌&&◌, u128_size,
}
use most_aleph_zero_bridge.Shared.{to_le_bytes, concat_u8_arrays}
use most_aleph_zero_bridge.Relayer.Blocks.{
  add_u32, sub_u32, min, read_first_unprocessed_block_number,
}

-- `MostEvents`: a request, whose numbers are `U256`s, or any other event.
pub data MostEvent : Type 0 where
  -- committee id, destination token, amount, destination receiver, nonce
  crosschain_transfer_request : ℕ → ℕ → ℕ → ℕ → ℕ → MostEvent
  other : MostEvent

-- The arguments of `receive_request`.
pub record Vote : Type 0 where
  pub request_hash : ℕ
  pub committee_id : ℕ
  pub dest_token_address : ℕ
  pub amount : ℕ
  pub dest_receiver_address : ℕ
  pub request_nonce : ℕ

pub data Handling : Type 0 where
  votes : Vote → Handling
  skips : Handling
  -- `U256::as_u128` on a larger number
  panics : Handling

-- What `handle_event` does of its own, until it calls the contract.
pub handle_event : (List ℕ → ℕ) → MostEvent → Handling
unfolding to_le_bytes concat_u8_arrays
handle_event keccak256 other = skips
handle_event keccak256
      (crosschain_transfer_request committee_id dest_token_address amount dest_receiver_address
        request_nonce) =
    if ltb committee_id u128_size && (ltb amount u128_size && ltb request_nonce u128_size)
    then votes (record {
      request_hash = keccak256 (
          concat_u8_arrays (
            to_le_bytes 16 committee_id
            ∷ to_le_bytes 32 dest_token_address
            ∷ to_le_bytes 16 amount
            ∷ to_le_bytes 32 dest_receiver_address
            ∷ to_le_bytes 16 request_nonce
            ∷ []));
      committee_id = committee_id;
      dest_token_address = dest_token_address;
      amount = amount;
      dest_receiver_address = dest_receiver_address;
      request_nonce = request_nonce;
    })
    else panics

-- Where the loop is.
pub data Phase : Type 0 where
  waiting : Phase
  -- the events still to handle, of the blocks up to the given one
  handling : List MostEvent → ℕ → Phase
  -- in `wait_until_not_halted`, and then at the same events again
  halted : List MostEvent → ℕ → Phase
  stopped : Phase

-- How the handling of an event ended.
pub data Answer : Type 0 where
  accepted : Answer
  -- `AzeroContractError`, and what `is_halted` then says, if it can be read
  refused : Option Bool → Answer
  failed : Answer

pub record Listener : Type 0 where
  pub first_unprocessed_block_number : ℕ
  pub phase : Phase
  pub cached : Option ℕ
  -- the events that `handle_event` has handled with `Ok`, newest first
  pub handled : List MostEvent

pub data Action : Type 0 where
  -- the best finalized block, and the emergency flag
  polls : ℕ → Bool → Action
  handles : Answer → Action
  -- whether the bridge is halted, if it can be read
  resumes : Option Bool → Action
  -- whether Redis could be written
  finishes : Bool → Action
  stops : Action
  -- whether Redis could be read
  restarts : Bool → Action

module _ (block_events : ℕ → List MostEvent) (sync_step default_block : ℕ) where
  -- The events of a range of blocks, in order; the second number is how many blocks.
  pub query : ℕ → ℕ → List MostEvent
  query from zero = []
  query from (suc count) = block_events from ++ query (from + 1) count

  pub started : Option ℕ → Option ℕ → List MostEvent → Listener
  started answer cached handled = record {
    first_unprocessed_block_number = read_first_unprocessed_block_number answer default_block;
    phase = waiting;
    cached = cached;
    handled = handled;
  }

  pub poll : ℕ → Bool → Listener → Listener
  poll best true s = s
  poll best false s =
      let from = s.first_unprocessed_block_number in
      let to_block = min best (sub_u32 (add_u32 from sync_step) 1) in
      record s { phase = handling (query from ((to_block + 1) - from)) to_block }

  -- The inner loop: one attempt to handle the event.
  pub attempt : Answer → MostEvent → List MostEvent → ℕ → Listener → Listener
  attempt accepted event events to_block s = record s {
    phase = handling events to_block;
    handled = event ∷ s.handled;
  }
  attempt (refused (some true)) event events to_block s = record s {
    phase = halted (event ∷ events) to_block;
  }
  attempt (refused _) event events to_block s = record s { phase = stopped }
  attempt failed event events to_block s = record s { phase = stopped }

  -- An action that is not possible leaves the state alone.
  pub step : Phase → Action → Listener → Listener
  unfolding poll attempt started
  step waiting (polls best emergency) s =
      if leb s.first_unprocessed_block_number best then poll best emergency s else s
  step (handling (event ∷ events) to_block) (handles answer) s =
      attempt answer event events to_block s
  step (handling [] to_block) (finishes written) s =
      let t : Listener = record s { first_unprocessed_block_number = add_u32 to_block 1 } in
      if written
      then record t { phase = waiting; cached = some to_block }
      else record t { phase = stopped }
  step (halted events to_block) (resumes (some true)) s = s
  step (halted events to_block) (resumes (some false)) s = record s {
    phase = handling events to_block;
  }
  step (halted events to_block) (resumes none) s = record s { phase = stopped }
  step phase stops s = record s { phase = stopped }
  step phase (restarts answered) s =
      started (if answered then s.cached else none) s.cached s.handled
  step phase action s = s

  pub run : List Action → Listener → Listener
  run [] s = s
  run (action ∷ actions) s = run actions (step s.phase action s)
