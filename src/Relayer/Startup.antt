-- ===== src/Relayer/Startup.antt =====
-- relayer/relayer/src/main.rs until the listeners run, with relayer/relayer/src/config.rs: the cached
-- blocks that it overrides and the accounts that it signs with.
pub mod Blocks
mod Tests
use most_aleph_zero_bridge.Common.{
  ℕ, String, Bool, true, false, Option, none, some, List, Result, ok, err, leb, if◌then◌else◌,
}
use most_aleph_zero_bridge.Relayer.Blocks.{sub_u32}

-- `SyncFromBlock::from_str`, once the text is read as a number: `max(1, inner)`.
unfoldable pub sync_from_block : ℕ → ℕ
sync_from_block inner = if leb 1 inner then inner else 1

-- `Level` of the log library.
pub data LogLevel : Type 0 where
  log_error log_warn log_info log_debug log_trace : LogLevel

-- `Config`, the command line. `main` hands the other fields on to the listeners.
pub record Config : Type 0 where
  pub name : String
  pub dev : Bool
  pub dev_account_index : ℕ
  pub override_azero_cache : Bool
  pub override_eth_cache : Bool
  pub advisory_contract_addresses : Option (List String)
  pub advisory_contract_metadata : String
  pub signer_cid : Option ℕ
  pub signer_port : ℕ
  pub azero_contract_address : String
  pub azero_contract_metadata : String
  pub azero_node_wss_url : String
  pub azero_max_event_handler_tasks : ℕ
  pub azero_ref_time_limit : ℕ
  pub azero_proof_size_limit : ℕ
  pub default_sync_from_block_azero : ℕ
  pub eth_contract_address : String
  pub eth_keystore_password : String
  pub eth_keystore_path : String
  pub eth_node_http_url : String
  pub eth_tx_submission_retries : ℕ
  pub eth_tx_min_confirmations : ℕ
  pub default_sync_from_block_eth : ℕ
  pub eth_gas_limit : ℕ
  pub sync_step : ℕ
  pub redis_node : String
  pub rust_log : LogLevel

-- What Redis holds under the two keys.
pub record Caches : Type 0 where
  pub azero_last_block : Option ℕ
  pub eth_last_block : Option ℕ

pub data StartError : Type 0 where
  redis_error : StartError

-- The two overrides, each with whether Redis could be written.
unfoldable pub override_azero : Config → Bool → Caches → Result StartError Caches
override_azero config written caches =
    if config.override_azero_cache
    then (if written
        then ok (record caches {
          azero_last_block = some (sub_u32 config.default_sync_from_block_azero 1);
        })
        else err redis_error)
    else ok caches

unfoldable pub override_eth : Config → Bool → Caches → Result StartError Caches
override_eth config written caches =
    if config.override_eth_cache
    then (if written
        then ok
            (record caches { eth_last_block = some (sub_u32 config.default_sync_from_block_eth 1) })
        else err redis_error)
    else ok caches

unfoldable pub override_caches : Config → Bool → Bool → Caches → Result StartError Caches
unfolding override_azero override_eth
override_caches config azero_written eth_written caches =
    elim (override_azero config azero_written caches) [
      | ok c ↦ override_eth config eth_written c
      | err why ↦ err why
    ]

-- The key for Aleph Zero: the signer with this context and port, or the development key of an index.
pub data AzeroSigner : Type 0 where
  signer_client : ℕ → ℕ → AzeroSigner
  dev_keypair : ℕ → AzeroSigner

-- `none` is the panic.
unfoldable pub azero_signer : Config → Option AzeroSigner
azero_signer config = elim config.signer_cid [
  | some cid ↦ some (signer_client cid config.signer_port)
  | none ↦ if config.dev then some (dev_keypair config.dev_account_index) else none
]

-- The wallet: the account of the development mnemonic with this index, or a keystore with its
-- password.
pub data Wallet : Type 0 where
  dev_wallet : ℕ → Wallet
  keystore : String → String → Wallet

unfoldable pub wallet : Config → Wallet
wallet config =
    if config.dev
    then dev_wallet config.dev_account_index
    else keystore config.eth_keystore_path config.eth_keystore_password

pub data EthSigner : Type 0 where
  vsock : ℕ → ℕ → EthSigner
  local_wallet : Wallet → EthSigner

-- The wallet is opened before the choice, whether or not it is used.
unfoldable pub eth_signer : Config → EthSigner
unfolding wallet
eth_signer config = elim config.signer_cid [
  | some cid ↦ vsock cid config.signer_port
  | none ↦ local_wallet (wallet config)
]

-- What `main` needs before the listeners run, if it gets so far: `opens` says which wallets open.
pub data Started : Type 0 where
  stopped : Started
  panicked : Started
  signs_with : AzeroSigner → EthSigner → Started

unfoldable pub choose_signers : Config → (Wallet → Bool) → Started
unfolding azero_signer wallet eth_signer
choose_signers config opens = elim (azero_signer config) [
  | none ↦ panicked
  | some signer ↦ if opens (wallet config) then signs_with signer (eth_signer config) else stopped
]
