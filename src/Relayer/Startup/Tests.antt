-- ===== src/Relayer/Startup/Tests.antt =====
-- The start of a relayer with a concrete configuration.
use most_aleph_zero_bridge.Common.{none, ◌≤◌, ◌≡◌, refl, true, false, some, ok, arith}
use most_aleph_zero_bridge.Relayer.Blocks.{read_first_unprocessed_block_number}
use most_aleph_zero_bridge.Relayer.Startup.{
  log_info, Config, Caches, override_caches, sync_from_block, choose_signers, stopped,
}
use most_aleph_zero_bridge.Relayer.Startup.Blocks.{first_blocks}

-- The cache of Aleph Zero is overridden with block 0, which counts as 1.
abbrev config : Config
config = record {
  name = "guardian";
  dev = false;
  dev_account_index = 0;
  override_azero_cache = true;
  override_eth_cache = false;
  advisory_contract_addresses = none;
  advisory_contract_metadata = "advisory.json";
  signer_cid = some 2;
  signer_port = 1234;
  azero_contract_address = "most";
  azero_contract_metadata = "most.json";
  azero_node_wss_url = "ws://127.0.0.1:9944";
  azero_max_event_handler_tasks = 1000;
  azero_ref_time_limit = 100_000_000_000;
  azero_proof_size_limit = 10_000_000;
  default_sync_from_block_azero = sync_from_block 0;
  default_sync_from_block_eth = sync_from_block 50;
  eth_contract_address = "most";
  eth_keystore_path = "";
  eth_keystore_password = "";
  eth_node_http_url = "http://127.0.0.1:8545";
  eth_tx_submission_retries = 10;
  eth_tx_min_confirmations = 32;
  eth_gas_limit = 200_000;
  sync_step = 100;
  redis_node = "redis://127.0.0.1:6379";
  rust_log = log_info;
}

abbrev cached : Caches
cached = record { azero_last_block = some 30; eth_last_block = some 70 }

abbrev overridden : Caches
overridden = record { azero_last_block = some 0; eth_last_block = some 70 }

caches_overridden : override_caches config true true cached ≡ ok overridden
unfolding override_caches sync_from_block
caches_overridden = refl

first_blocks_example :
    let first_azero = read_first_unprocessed_block_number (some 0) (sync_from_block 0) in
    let first_eth = read_first_unprocessed_block_number (some 70) (sync_from_block 50) in
    (first_azero ≡ sync_from_block 0) × (first_eth ≡ 71) × (1 ≤ first_azero) × (1 ≤ first_eth)
first_blocks_example =
    first_blocks config 0 50 true true cached (refl, refl, omega arith, omega arith) (omega arith)
      (omega arith) caches_overridden

-- Without a wallet that opens the relayer does not start, although the signer signs.
wallet_needed : choose_signers config (λ w. false) ≡ stopped
unfolding choose_signers
wallet_needed = refl
