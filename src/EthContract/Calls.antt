-- ===== src/EthContract/Calls.antt =====
-- Every message of eth/contracts/Most.sol that can change the state, and histories of calls.
use most_aleph_zero_bridge.Common.{ℕ, List, [], ◌∷◌, Env, after}
use most_aleph_zero_bridge.EthContract.Types.{EthChain, EthState}
use most_aleph_zero_bridge.EthContract.Bridge.{
  EthCall, send_request, send_request_native, receive_request, receive_ether,
}
use most_aleph_zero_bridge.EthContract.Admin.{
  set_committee, add_pair, remove_pair, pause, unpause, renounce_ownership, recover_erc20,
  recover_native, changes_access,
}

module _ (chain : EthChain) where
  pub data EthMostCall : Type 0 where
    sends : ℕ → ℕ → ℕ → EthMostCall
    sends_native : ℕ → EthMostCall
    receives : ℕ → ℕ → ℕ → ℕ → ℕ → ℕ → EthMostCall
    -- ether without a message
    receives_ether : EthMostCall
    sets_committee : List ℕ → ℕ → EthMostCall
    adds_pair : ℕ → ℕ → EthMostCall
    removes_pair : ℕ → EthMostCall
    pauses unpauses renounces_ownership : EthMostCall
    recovers_erc20 : ℕ → ℕ → ℕ → EthMostCall
    recovers_native : ℕ → ℕ → EthMostCall
    -- an inherited message
    accesses : chain.AccessCall → EthMostCall

  unfoldable pub run_call : EthMostCall → EthCall chain (Unit {0})
  run_call (sends src amount dest) = send_request chain src amount dest
  run_call (sends_native dest) = send_request_native chain dest
  run_call (receives hash committee token amount dest nonce) =
      receive_request chain hash committee token amount dest nonce
  run_call receives_ether = receive_ether chain
  run_call (sets_committee accounts threshold) = set_committee chain accounts threshold
  run_call (adds_pair from to) = add_pair chain from to
  run_call (removes_pair from) = remove_pair chain from
  run_call pauses = pause chain
  run_call unpauses = unpause chain
  run_call renounces_ownership = renounce_ownership chain
  run_call (recovers_erc20 token to amount) = recover_erc20 chain token to amount
  run_call (recovers_native to amount) = recover_native chain to amount
  run_call (accesses c) = λ env s. changes_access chain (chain.access_call env.caller c) env s

  -- A transaction at whatever state of the rest of the chain it meets.
  pub record EthTransaction : Type 0 where
    pub env : Env
    pub world : chain.World
    pub call : EthMostCall

  unfoldable pub step : EthState chain → EthTransaction → EthState chain
  step s tx =
      let met : EthState chain = record s { world = tx.world } in
      after (run_call tx.call tx.env met) met

  unfoldable pub run : EthState chain → List EthTransaction → EthState chain
  run s [] = s
  run s (tx ∷ txs) = run (step s tx) txs
