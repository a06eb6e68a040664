-- ===== src/EthContract/Quorum.antt =====
-- A vote in eth/contracts/Most.sol comes to its end.
use most_aleph_zero_bridge.Common.{
  ℕ, ◌≡◌, ◌⊎◌, Bool, true, List, [], ◌∷◌, Env, Outcome, returns, reverts, traps,
}
use most_aleph_zero_bridge.EthContract.Types.{EthChain, EthState}
use most_aleph_zero_bridge.EthContract.Encoding.{member_id}
use most_aleph_zero_bridge.EthContract.Bridge.{return_tokens, bytes32_to_address}
use most_aleph_zero_bridge.EthContract.Calls.{EthMostCall, receives, EthTransaction}
use most_aleph_zero_bridge.EthContract.Votes.{EthVotes}
use most_aleph_zero_bridge.EthContract.Open

-- The contract reverts the vote that reaches the quorum if the return of the tokens does, so
-- a vote counts on the condition that it does not.
abbrev pub Returns : {E S A : Type 0} → Outcome E S A → Type 0
Returns (returns a t) = Unit
Returns (reverts e) = ⊥
Returns traps = ⊥

module _ (chain : EthChain) (hash committee_id token amount receiver nonce threshold weth : ℕ)
    (members : ℕ → Bool) where
  abbrev IsEthVoting : EthState chain → Type 0
  IsEthVoting s =
      Open.IsEthVoting chain hash committee_id token amount receiver threshold weth members s

  abbrev IsCalm : EthMostCall chain → Type 0
  IsCalm c = Open.IsCalm chain hash committee_id token amount receiver threshold weth members c

  abbrev pub IsMember : ℕ → Type 0
  IsMember a = members (member_id chain.keccak256 committee_id a) ≡ true

  -- A vote of this account is counted, or the request is executed without it.
  abbrev pub HasVoted : ℕ → EthVotes → Type 0
  HasVoted a v =
      (v.processed_requests hash ≡ true) ⊎ ((v.pending_requests hash).signatures a ≡ true)

  -- The locked tokens can be returned in this transaction.
  abbrev pub Pays : Env → chain.World → Type 0
  Pays env w =
      (t : EthState chain)
      → t.world ≡ w
      → t.weth_address ≡ weth
      → Returns (
          return_tokens chain hash (bytes32_to_address token) (bytes32_to_address receiver) amount
            env t)

  -- A vote of an account at which the locked tokens can be returned.
  pub record IsVote (a : ℕ) (tx : EthTransaction chain) : Type 0 where
    pub by : tx.env.caller ≡ a
    pub votes_for : tx.call ≡ receives hash committee_id token amount receiver nonce
    pub pays : Pays tx.env tx.world

  -- Some of the transactions is a vote of this account.
  abbrev pub Votes : ℕ → List (EthTransaction chain) → Type 0
  Votes a [] = ⊥
  Votes a (tx ∷ txs) = IsVote a tx ⊎ Votes a txs
