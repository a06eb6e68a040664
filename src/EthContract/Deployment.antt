-- ===== src/EthContract/Deployment.antt =====
-- A history of eth/contracts/Most.sol from its initializer on.
use mathlib.Core.Path.{subst}
use most_aleph_zero_bridge.Common.{ℕ, ◌≡◌, false, Option, List, [], Env, returns, arith}
use most_aleph_zero_bridge.EthContract.Types.{EthChain, EthState}
use most_aleph_zero_bridge.EthContract.Admin.{initialize, set_members}
use most_aleph_zero_bridge.EthContract.Calls.{EthTransaction, run}
use most_aleph_zero_bridge.EthContract.Votes.{votes_of, IsEthTallied}
use most_aleph_zero_bridge.EthContract.Voting.{KeepsTally, add_members-KeepsTally, run-IsEthTallied}
use most_aleph_zero_bridge.EthContract.Numbers.{
  KeepsNumbers, add_members-KeepsNumbers, IsEthNumbered, run-IsEthNumbered,
}

module _ (chain : EthChain) where
  -- Storage without requests, and no events.
  pub record IsBlank (s : EthState chain) : Type 0 where
    pub no_votes : (h : ℕ) → (s.pending_requests h).signature_count ≡ 0
    pub no_signatures : (h a : ℕ) → (s.pending_requests h).signatures a ≡ false
    pub no_processed : (h : ℕ) → s.processed_requests h ≡ false
    pub no_requests : s.request_nonce ≡ 0
    pub no_events : s.events ≡ []

  IsBlank-IsEthTallied : (s : EthState chain) → IsBlank s → IsEthTallied (votes_of s)
  IsBlank-IsEthTallied s b = record {
    counted = λ h e. ground (arith, b.no_votes h, b.no_events);
    recorded = λ h a. ground (arith, b.no_signatures h a, b.no_events);
    distinct = ground (arith, b.no_events);
    finished = λ h. ground (arith, b.no_processed h, b.no_events);
    once = ground (arith, b.no_events);
  }

  module _ (accounts : List ℕ) (threshold : ℕ) (inherited : chain.Access → Option (chain.Access))
      (weth : ℕ) (env : Env) where
    initialize-KeepsTally :
        (s : EthState chain)
        → KeepsTally chain s (initialize chain accounts threshold inherited weth env s)
    unfolding initialize set_members
    initialize-KeepsTally s = ground (
      arith,
      add_members-KeepsTally chain accounts env
          (record s { self = record (s.self) { committee_id = 0; weth_address = weth } }),
    )

    initialize-KeepsNumbers :
        (s : EthState chain)
        → KeepsNumbers chain s (initialize chain accounts threshold inherited weth env s)
    unfolding initialize set_members
    initialize-KeepsNumbers s = ground (
      arith,
      add_members-KeepsNumbers chain accounts env
          (record s { self = record (s.self) { committee_id = 0; weth_address = weth } }),
    )

    initialized-IsEthNumbered :
        (s t : EthState chain)
        → IsBlank s
        → initialize chain accounts threshold inherited weth env s ≡ returns tt t
        → IsEthNumbered t
    initialized-IsEthNumbered s t blank made =
        ground (arith, initialize-KeepsNumbers s, blank.no_requests, blank.no_events)

    -- Once the initializer has run on storage without requests, the contract is sound after every
    -- history of calls. No account has voted twice for one hash, no request was executed twice, and
    -- the storage has the count of the votes for each request that is not executed, the signature of
    -- each voter and the mark of each executed request. The requests that it sent have the nonces
    -- 0, 1, 2 and so on.
    pub initialized-run_is_sound :
        (s t : EthState chain) (txs : List (EthTransaction chain))
        → IsBlank s
        → initialize chain accounts threshold inherited weth env s ≡ returns tt t
        → IsEthTallied (votes_of (run chain t txs)) × IsEthNumbered (run chain t txs)
    initialized-run_is_sound s t txs blank made = (
      run-IsEthTallied chain t txs (
          subst IsEthTallied (ground (arith, initialize-KeepsTally s))
            (IsBlank-IsEthTallied s blank)),
      run-IsEthNumbered chain t txs (initialized-IsEthNumbered s t blank made),
    )
