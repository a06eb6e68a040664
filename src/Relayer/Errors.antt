-- ===== src/Relayer/Errors.antt =====
-- The errors of the listeners, relayer/relayer/src/listeners and relayer/relayer/src/main.rs. The
-- errors of libraries have no content here.
use most_aleph_zero_bridge.Common.{String}
use most_aleph_zero_bridge.Relayer.Decoding.{AzeroContractError}

pub data AzeroListenerError : Type 0 where
  aleph_client from_hex subxt provider : AzeroListenerError
  azero_contract : AzeroContractError → AzeroListenerError
  eth_contract_tx block_not_found tx_not_present_in_block_or_mempool : AzeroListenerError
  missing_event_data : String → AzeroListenerError
  bridge_halted_restart_required redis join semaphore eth_contract_reverted : AzeroListenerError

pub data EthListenerError : Type 0 where
  provider from_hex contract : EthListenerError
  azero_contract : AzeroContractError → EthListenerError
  abi_encode redis : EthListenerError

pub data AdvisoryListenerError : Type 0 where
  aleph_client : AdvisoryListenerError
  azero_contract : AzeroContractError → AdvisoryListenerError

pub data ListenerError : Type 0 where
  eth : EthListenerError → ListenerError
  eth_connection eth_wallet : ListenerError
  azero : AzeroListenerError → ListenerError
  redis : ListenerError
  advisory : AdvisoryListenerError → ListenerError
