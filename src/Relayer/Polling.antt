-- ===== src/Relayer/Polling.antt =====
-- The loops of relayer/relayer/src/listeners/azero.rs and eth.rs that ask again until an answer
-- lets them end, over the answers they get, one after the other.
pub mod Ends
mod Tests
use most_aleph_zero_bridge.Common.{
  ℕ, Bool, true, false, Option, none, some, List, [], ◌∷◌, Result, ok, err, leb, ltb, u32_size,
  if◌then◌else◌,
}
use most_aleph_zero_bridge.Relayer.Decoding.{AzeroContractError}
use most_aleph_zero_bridge.Relayer.Errors.{
  AzeroListenerError, EthListenerError, eth_contract_tx, azero_contract,
}

-- Where one turn of a loop leads.
pub data Verdict (A : Type 0) : Type 0 where
  -- to the next turn
  again : Verdict A
  finished : A → Verdict A
  panicked : Verdict A

-- The loop over the answers so far: it asks once more only if none of them ended it.
unfoldable pub poll_until : {Answer A : Type 0} → (Answer → Verdict A) → List Answer → Verdict A
poll_until body [] = again
poll_until body (answer ∷ answers) = elim (body answer) [
  | again ↦ poll_until body answers
  | finished a ↦ finished a
  | panicked ↦ panicked
]

-- `get_finalized_block_hash`, then `get_block_number`.
pub data AzeroHead : Type 0 where
  hash_error number_error no_number : AzeroHead
  azero_head : ℕ → AzeroHead

pub azero_head_turn : ℕ → AzeroHead → Verdict ℕ
azero_head_turn not_older_than hash_error = again
azero_head_turn not_older_than number_error = again
azero_head_turn not_older_than no_number = panicked
azero_head_turn not_older_than (azero_head best_finalized_block_number) =
    if leb not_older_than best_finalized_block_number
    then finished best_finalized_block_number
    else again

pub get_next_finalized_block_number_azero : ℕ → List AzeroHead → Verdict ℕ
unfolding azero_head_turn poll_until
get_next_finalized_block_number_azero not_older_than = poll_until (azero_head_turn not_older_than)

-- `get_block(BlockNumber::Finalized)`: a block's number is a `U64`.
pub data EthHead : Type 0 where
  client_error no_block no_number : EthHead
  eth_head : ℕ → EthHead

-- `as_u32` panics on a larger number.
pub eth_head_turn : ℕ → EthHead → Verdict ℕ
eth_head_turn not_older_than client_error = again
eth_head_turn not_older_than no_block = again
eth_head_turn not_older_than no_number = panicked
eth_head_turn not_older_than (eth_head best_finalized_block_number) =
    if ltb best_finalized_block_number u32_size
    then (if leb not_older_than best_finalized_block_number
        then finished best_finalized_block_number
        else again)
    else panicked

pub get_next_finalized_block_number_eth : ℕ → List EthHead → Verdict ℕ
unfolding eth_head_turn poll_until
get_next_finalized_block_number_eth not_older_than = poll_until (eth_head_turn not_older_than)

-- A flag that is asked for until it is down, or cannot be read.
unfoldable pub lowered : {E F : Type 0} → (E → F) → Result E Bool → Verdict (Result F (Unit {0}))
lowered convert (ok true) = again
lowered convert (ok false) = finished (ok tt)
lowered convert (err why) = finished (err (convert why))

-- What `paused()` of the contract on Ethereum answers; its errors have no content.
unfoldable pub wait_until_unpaused :
    List (Result (Unit {0}) Bool) → Verdict (Result AzeroListenerError (Unit {0}))
unfolding lowered poll_until
wait_until_unpaused = poll_until (lowered (λ _. eth_contract_tx))

-- What `is_halted` of the contract on Aleph Zero answers.
unfoldable pub wait_until_not_halted :
    List (Result AzeroContractError Bool) → Verdict (Result EthListenerError (Unit {0}))
unfolding lowered poll_until
wait_until_not_halted = poll_until (lowered azero_contract)

-- `get_transaction`: the block number of a transaction that is found may be missing.
pub data Transaction : Type 0 where
  get_error not_found : Transaction
  found : Option ℕ → Transaction

pub transaction_turn : ℕ → Transaction → Verdict (Unit {0})
transaction_turn finalized_head_number get_error = again
transaction_turn finalized_head_number not_found = panicked
transaction_turn finalized_head_number (found none) = again
transaction_turn finalized_head_number (found (some block_number)) =
    if leb block_number finalized_head_number then finished tt else again

-- What `wait_for_eth_tx_finality` is told: first heads, then the transaction, then heads again.
pub data Told : Type 0 where
  of_head : EthHead → Told
  of_transaction : Transaction → Told

-- With `none` the loop is in `get_next_finalized_block_number_eth`, with a number after it. An
-- answer to another question does not come.
unfoldable pub wait_for_eth_tx_finality : Option ℕ → List Told → Verdict (Unit {0})
unfolding eth_head_turn transaction_turn
wait_for_eth_tx_finality at [] = again
wait_for_eth_tx_finality none (of_head head ∷ rest) = elim (eth_head_turn 0 head) [
  | again ↦ wait_for_eth_tx_finality none rest
  | finished number ↦ wait_for_eth_tx_finality (some number) rest
  | panicked ↦ panicked
]
wait_for_eth_tx_finality (some number) (of_transaction tx ∷ rest) =
    elim (transaction_turn number tx) [
      | again ↦ wait_for_eth_tx_finality none rest
      | finished _ ↦ finished tt
      | panicked ↦ panicked
    ]
wait_for_eth_tx_finality at (_ ∷ rest) = wait_for_eth_tx_finality at rest
