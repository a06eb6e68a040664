-- ===== src/EthContract/Open.antt =====
-- A request to eth/contracts/Most.sol under vote: what stands while it is, whatever other calls come
-- in between.
use mathlib.Core.Path.{subst}
use most_aleph_zero_bridge.Common.{
  ℕ, ◌<◌, ◌≡◌, ◌⊎◌, inl, inr, sym, Bool, true, false, List, [], ◌∷◌, All, Env, after, arith,
}
use most_aleph_zero_bridge.Most.Votes.{votes}
use most_aleph_zero_bridge.EthContract.Types.{EthChain, EthState}
use most_aleph_zero_bridge.EthContract.Encoding.{eth_request_hash}
use most_aleph_zero_bridge.EthContract.Bridge.{
  receive_ether, send_request, send_request_native, receive_request, sign_request, execute_request,
  return_tokens, announce, token_transfer_return_success, when_not_paused, only_committee_member,
}
use most_aleph_zero_bridge.EthContract.Admin.{
  renounce_ownership, set_committee, add_pair, remove_pair, recover_erc20, recover_native,
  only_owner, when_paused,
}
use most_aleph_zero_bridge.EthContract.Calls.{
  EthMostCall, receives, pauses, unpauses, accesses, EthTransaction, run_call, step, run,
}
use most_aleph_zero_bridge.EthContract.Votes.{EthVotes, votes_of, vote_events, IsEthTallied}
use most_aleph_zero_bridge.EthContract.Voting.{call-cases, call-votes_of, step-IsEthTallied}

-- What decides who may vote, and how many votes it takes.
pub record EthSetting (Access : Type 0) : Type 0 where
  pub access : Access
  pub committee : ℕ → Bool
  pub signature_threshold : ℕ → ℕ
  pub weth_address : ℕ

abbrev pub setting_of : {chain : EthChain} → EthState chain → EthSetting (chain.Access)
setting_of s = record {
  access = s.access;
  committee = s.committee;
  signature_threshold = s.signature_threshold;
  weth_address = s.weth_address;
}

module _ (chain : EthChain) (hash committee_id token amount receiver threshold weth : ℕ)
    (members : ℕ → Bool) where
  pub record IsEthVoting (s : EthState chain) : Type 0 where
    pub running : chain.is_paused s.access ≡ false
    pub same_members : s.committee ≡ members
    pub required : s.signature_threshold committee_id ≡ threshold
    pub wraps : s.weth_address ≡ weth
    pub tallied : IsEthTallied (votes_of s)
    -- executed, or short of votes
    pub undecided :
        (s.processed_requests hash ≡ true) ⊎ (votes hash (vote_events s.events) < threshold)

  -- A call that neither touches the pause or the owner, nor is a vote for another request with this
  -- hash.
  abbrev pub IsCalm : EthMostCall chain → Type 0
  IsCalm (receives h k a r d n) =
      eth_request_hash chain.keccak256 k a r d n ≡ hash
      → (k ≡ committee_id) × (a ≡ token) × (r ≡ amount) × (d ≡ receiver)
  IsCalm pauses = ⊥
  IsCalm unpauses = ⊥
  IsCalm (accesses c) = ⊥
  IsCalm _ = Unit

  call-setting_of :
      (c : EthMostCall chain) (env : Env) (s : EthState chain)
      → IsCalm c
      → chain.is_paused s.access ≡ false
      → setting_of (after (run_call chain c env s) s) ≡ setting_of s
  unfolding run_call receive_ether renounce_ownership send_request send_request_native announce
      add_pair remove_pair recover_erc20 recover_native only_owner when_paused when_not_paused
      set_committee receive_request only_committee_member sign_request execute_request return_tokens
      token_transfer_return_success
  call-setting_of pauses env s calm running = absurd calm
  call-setting_of unpauses env s calm running = absurd calm
  call-setting_of (accesses c) env s calm running = absurd calm
  call-setting_of _ env s calm running = ground arith

  abbrev Undecided : EthVotes → Type 0
  Undecided v = (v.processed_requests hash ≡ true) ⊎ (votes hash v.events < threshold)

  receives-Undecided :
      (h k a r d n : ℕ) (env : Env) (s : EthState chain)
      → IsCalm (receives h k a r d n)
      → IsEthVoting s
      → Undecided (votes_of (after (receive_request chain h k a r d n env s) s))
  unfolding receive_request only_committee_member sign_request execute_request return_tokens
      token_transfer_return_success when_not_paused
  receives-Undecided h k a r d n env s calm v =
      ground (arith, v.undecided, v.tallied.counted hash, v.required)

  call-Undecided :
      (c : EthMostCall chain) (env : Env) (s : EthState chain)
      → IsCalm c
      → IsEthVoting s
      → Undecided (votes_of (after (run_call chain c env s) s))
  unfolding run_call
  call-Undecided c env s calm v = elim (call-cases c) [
    | inl other ↦ subst Undecided (sym (call-votes_of chain c env s other)) v.undecided
    | inr (h, k, a, r, d, n, e) ↦
        rw (e) (receives-Undecided h k a r d n env s (subst IsCalm e calm) v)
  ]

  pub met-IsEthVoting :
      (s : EthState chain) (w : chain.World) → IsEthVoting s → IsEthVoting (record s { world = w })
  met-IsEthVoting s w v = record {
    running = v.running;
    same_members = v.same_members;
    required = v.required;
    wraps = v.wraps;
    tallied = v.tallied;
    undecided = v.undecided;
  }

  pub step-IsEthVoting :
      (tx : EthTransaction chain) (s : EthState chain)
      → IsCalm tx.call
      → IsEthVoting s
      → IsEthVoting (step chain s tx)
  unfolding step
  step-IsEthVoting tx s calm v =
      let met : EthState chain = record s { world = tx.world } in
      let same = call-setting_of tx.call tx.env met calm v.running in
      record {
        running = ground (arith, same, v.running);
        same_members = ground (arith, same, v.same_members);
        required = ground (arith, same, v.required);
        wraps = ground (arith, same, v.wraps);
        tallied = step-IsEthTallied chain tx s v.tallied;
        undecided = call-Undecided tx.call tx.env met calm (met-IsEthVoting s tx.world v);
      }

  pub run-IsEthVoting :
      (txs : List (EthTransaction chain)) (s : EthState chain)
      → All (λ tx. IsCalm tx.call) txs
      → IsEthVoting s
      → IsEthVoting (run chain s txs)
  unfolding run
  run-IsEthVoting [] s calm v = v
  run-IsEthVoting (tx ∷ txs) s calm v =
      run-IsEthVoting txs (step chain s tx) calm.1 (step-IsEthVoting tx s calm.0 v)
