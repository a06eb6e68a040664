-- ===== src/Lib.antt =====
-- Most, the bridge between Aleph Zero and Ethereum: its contracts on both chains, and the relayer.
--
-- A guardian's relayer watches both chains. A user of Aleph Zero calls `send_request` of the Most
-- contract, which burns the tokens and emits an event; the relayers vote for it at the contract
-- on Ethereum, which returns the locked tokens when the votes reach the threshold. A request made
-- there locks tokens and emits an event that each relayer turns into a call of `receive_request`,
-- and the vote that reaches the threshold mints the tokens. Members of the committee are paid
-- from the fees that senders pay.
--
-- - Common: `Option` and `Result`, checked arithmetic, mappings, and messages of a contract that
--   read the environment of the call and thread the state. The runtime drops every change of a
--   message that returns `Err` or traps, so these outcomes carry no state.
-- - Most: azero/contracts/most/lib.rs. Types holds the storage, events and errors; Query the
--   messages and helpers that only read; Fee `get_base_fee`; Setup the constructor `new` and
--   `check_committee`; Bridge `send_request`, `receive_request`, `payout_rewards` and
--   `fund_pocket_money`; Admin the owner's messages. Calls has one constructor for each message
--   that can change the state, and histories of transactions, each with any caller, time and
--   payment, at any state of the rest of the chain. The theorems are in modules named for them.
--   What the contract calls and does not implement is the parameter `Chain` of Most/Chain.antt:
--   the PSP22 tokens, native transfers, `set_code_hash`, the gas price oracle and Keccak-256.
--   Calls of the contract from within its own calls are not modelled.
-- - Ownable: azero/contracts/ownable2step/lib.rs, the two-step handover that the contracts share.
-- - Shared: azero/contracts/shared/src/hash.rs and relayer/relayer/src/helpers.rs.
-- - Token: azero/contracts/token/lib.rs over the psp22 crate, the parameter `Psp22`.
-- - Advisory, Migrations, Oracle: azero/contracts/advisory/lib.rs,
--   azero/contracts/migrations/lib.rs and azero/contracts/gas-price-oracle/contract/lib.rs; the
--   runtime is the parameter `Host`.
-- - Relayer: Azero is relayer/relayer/src/listeners/azero.rs and Eth is
--   relayer/relayer/src/listeners/eth.rs, each with the block numbers that
--   relayer/relayer/src/connections/redis_helpers.rs caches, in Relayer/Blocks.antt. A run is a
--   list of actions: steps of the main loop, of the tasks that it spawns, answers of the chains
--   and of Redis, failures and restarts, in any order; an action that is not possible at a
--   moment changes nothing. Polling holds the loops of both listeners that ask a node until an
--   answer lets them end, over the list of answers so far; Forwarding `handle_event` of azero.rs,
--   Recovery what its main loop does when a task fails. Decoding and Instances are
--   relayer/relayer/src/contracts/azero.rs over the values of the transcoder, Emergency is
--   relayer/relayer/src/listeners/advisory.rs, Connections are the files of
--   relayer/relayer/src/connections, Startup and Supervisor relayer/relayer/src/main.rs, and Errors
--   the error types of all of these.
-- - Signer: relayer/signer/src/main.rs and relayer/signer_client/src/lib.rs, over the keys and the
--   transaction type of the client libraries, the parameter `Wallet`.
-- - EthContract: eth/contracts/Most.sol. Encoding holds the hashes, Types the storage, events and
--   errors, Bridge the requests, the votes and ether without a message, Admin the initializer and
--   the owner's functions, Calls the histories of calls. Returning says what becomes of the
--   locked tokens, Received what each vote does, Execution which call of a history executes a
--   request. A reverted call is dropped. What the contract calls or inherits is the parameter
--   `EthChain`: tokens, wrapped ether, transfers of ether, Keccak-256, the owner and the pause.
--   Calls of the contract from within these are not modelled.
-- - Delivery: where the relayers' votes and the Most contract on Aleph Zero meet; Delivery/Ethereum
--   is the other way.
--
-- Accounts, hashes and 32-byte arrays are the numbers that their bytes spell. Integers keep their
-- widths: checked operations are partial, and others wrap around, since the release profiles of the
-- contracts in Rust and of the relayer do not check for overflow; the contract on Ethereum reverts. Every loop runs over a list or a number
-- of blocks, so no function needs fuel.
--
-- Not modelled: sockets, the parsing of the command line, the semaphore on the relayer's tasks and
-- its log; the upgrade of the contract on Ethereum, and copies of other projects beside it; tests,
-- scripts and deployment.
pub mod Common
pub mod Ownable
pub mod Shared
pub mod Most
pub mod Advisory
pub mod Migrations
pub mod Oracle
pub mod Token
pub mod Relayer
pub mod Delivery
pub mod EthContract
pub mod Signer
