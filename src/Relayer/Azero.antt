-- ===== src/Relayer/Azero.antt =====
-- relayer/relayer/src/listeners/azero.rs: the listener that forwards requests from Aleph Zero. Its
-- main loop and the tasks that it spawns interleave, so each is cut into the steps between which
-- another may run.
pub mod Pending
pub mod Tasks
pub mod Loop
pub mod Sealing
mod Tests
use most_aleph_zero_bridge.Common.{
  ℕ, zero, suc, ◌+◌, ◌-◌, ◌≤◌, ◌<◌, Bool, true, false, Option, none, some, List, [], ◌∷◌, ltb, leb,
  if◌then◌else◌, length,
}
use most_aleph_zero_bridge.Relayer.Blocks.{
  add_u32, sub_u32, min, elem, insert, remove, first, blocks_from,
  read_first_unprocessed_block_number,
}

-- `ALEPH_MAX_REQUESTS_PER_BLOCK`
abbrev pub max_requests_per_block : ℕ
max_requests_per_block = 50

-- Where the main loop is.
pub data Phase : Type 0 where
  -- waits for the next finalized block
  waiting : Phase
  -- adds the successors of the blocks from the first to the second to the pending ones
  adding : ℕ → ℕ → Phase
  -- has fetched the events of the listed blocks and is to handle them; the last block
  handling : List ℕ → ℕ → Phase
  -- has returned an error or panicked
  stopped : Phase

-- `seal_processed_block` with the tasks of the block's events that it awaits.
pub record SealingTask (Event : Type 0) : Type 0 where
  pub block_number : ℕ
  pub event_tasks : List Event

pub record Listener (Event : Type 0) : Type 0 where
  pub first_unprocessed_block_number : ℕ
  pub phase : Phase
  pub pending_blocks : List ℕ
  pub block_sealing_tasks : List (SealingTask Event)
  -- the block number cached in Redis
  pub cached : Option ℕ
  -- the events whose `handle_event` has returned `Ok`
  pub handled : List Event

pub data Action : Type 0 where
  -- the best finalized block, and the emergency flag
  polls : ℕ → Bool → Action
  adds : Action
  -- takes the block at this position among the fetched ones
  takes : ℕ → Action
  advances : Action
  -- the sealing task, and the task of one of its events
  handles : ℕ → ℕ → Action
  -- a sealing task one of whose events has failed
  fails : ℕ → Action
  -- the sealing task, and whether Redis could be written
  seals : ℕ → Bool → Action
  stops : Action
  -- whether Redis could be read
  restarts : Bool → Action

-- The element at a position, and the others.
pub take_at {ℓ} : {A : Type ℓ} → ℕ → List A → Option (A × List A)
take_at n [] = none
take_at zero (x ∷ xs) = some (x, xs)
take_at (suc n) (x ∷ xs) = elim (take_at n xs) [
  | none ↦ none
  | some found ↦ some (found.0, x ∷ found.1)
]

module _ {Event : Type 0} (block_events : ℕ → List Event) (sync_step default_block : ℕ) where
  -- `run` once more, with a new set of pending blocks and no tasks.
  pub started : Option ℕ → Option ℕ → List Event → Listener Event
  started answer cached handled =
      let first_block = read_first_unprocessed_block_number answer default_block in
      record {
        first_unprocessed_block_number = first_block;
        phase = waiting;
        pending_blocks = insert first_block [];
        block_sealing_tasks = [];
        cached = cached;
        handled = handled;
      }

  -- The main loop has the number of the best finalized block, not older than the first unprocessed.
  pub poll : ℕ → Bool → Listener Event → Listener Event
  poll best true s = s
  poll best false s =
      let from = s.first_unprocessed_block_number in
      let to_block = min best (sub_u32 (add_u32 from sync_step) 1) in
      record s { phase = adding from to_block }

  -- One turn of the loop that adds pending blocks, or what follows it: the fetch of the events of
  -- all blocks in the range.
  pub add_next : ℕ → ℕ → Listener Event → Listener Event
  add_next block_number to_block s =
      if leb block_number to_block
      then record s {
        phase = adding (add_u32 block_number 1) to_block;
        pending_blocks = insert (add_u32 block_number 1) s.pending_blocks;
      }
      else record s {
        phase =
            handling
              (blocks_from s.first_unprocessed_block_number
                ((to_block + 1) - s.first_unprocessed_block_number))
              to_block;
      }

  -- `handle_events`: one task for each event, and one that awaits them. Too many are a panic.
  pub handle_events : ℕ → List ℕ → ℕ → Listener Event → Listener Event
  handle_events block_number rest to_block s =
      if leb max_requests_per_block (length (block_events block_number))
      then record s { phase = stopped; block_sealing_tasks = [] }
      else record s {
        phase = handling rest to_block;
        block_sealing_tasks =
            record { block_number = block_number; event_tasks = block_events block_number }
            ∷ s.block_sealing_tasks;
      }

  -- The last part of `seal_processed_block`, and whether Redis could be written. Without a pending
  -- block it panics. A write that fails ends the task with an error, the block no longer pending.
  pub seal_processed_block : Bool → ℕ → List (SealingTask Event) → Listener Event → Listener Event
  seal_processed_block written block_number others s =
      let pending = remove block_number s.pending_blocks in
      elim (first pending) [
        | none ↦ record s {
          pending_blocks = pending;
          block_sealing_tasks = others;
          phase = stopped;
        }
        | some earliest_still_pending ↦ record s {
          pending_blocks = pending;
          block_sealing_tasks = others;
          cached = if written then some (sub_u32 earliest_still_pending 1) else s.cached;
        }
      ]

  -- An event of a task is handled.
  pub handle_one :
      SealingTask Event → List (SealingTask Event) → ℕ → Listener Event → Listener Event
  handle_one task others j s = elim (take_at j task.event_tasks) [
    | none ↦ s
    | some (event, rest) ↦ record s {
      block_sealing_tasks = record task { event_tasks = rest } ∷ others;
      handled = event ∷ s.handled;
    }
  ]

  -- A sealing task goes on once none of its event tasks is left.
  pub seal_if_done :
      Bool → List Event → ℕ → List (SealingTask Event) → Listener Event → Listener Event
  unfolding seal_processed_block
  seal_if_done written [] block_number others s = seal_processed_block written block_number others s
  seal_if_done written (event ∷ events) block_number others s = s

  -- An action of the main loop.
  pub loop_step : Phase → Action → Listener Event → Listener Event
  unfolding poll add_next handle_events
  loop_step waiting (polls best emergency) s =
      if leb s.first_unprocessed_block_number best then poll best emergency s else s
  loop_step (adding block_number to_block) adds s = add_next block_number to_block s
  loop_step (handling blocks to_block) (takes i) s = elim (take_at i blocks) [
    | none ↦ s
    | some (block_number, rest) ↦ handle_events block_number rest to_block s
  ]
  loop_step (handling [] to_block) advances s = record s {
    phase = waiting;
    first_unprocessed_block_number = add_u32 to_block 1;
  }
  loop_step phase action s = s

  -- An action that is not possible leaves the state alone.
  pub step : Action → Listener Event → Listener Event
  unfolding handle_one seal_if_done loop_step started
  step (handles i j) s = elim (take_at i s.block_sealing_tasks) [
    | none ↦ s
    | some (task, others) ↦ handle_one task others j s
  ]
  step (fails i) s = elim (take_at i s.block_sealing_tasks) [
    | none ↦ s
    | some (task, others) ↦ record s { block_sealing_tasks = others }
  ]
  step (seals i written) s = elim (take_at i s.block_sealing_tasks) [
    | none ↦ s
    | some (task, others) ↦ seal_if_done written task.event_tasks task.block_number others s
  ]
  step stops s = record s { phase = stopped; block_sealing_tasks = [] }
  step (restarts answered) s = started (if answered then s.cached else none) s.cached s.handled
  step action s = loop_step s.phase action s

  pub run : List Action → Listener Event → Listener Event
  run [] s = s
  run (action ∷ actions) s = run actions (step action s)
