-- ===== src/Most/Deployment.antt =====
-- The constructor of azero/contracts/most/lib.rs establishes what the messages keep.
use most_aleph_zero_bridge.Common.{ℕ, ◌≡◌, Option, List, ok, arith}
use most_aleph_zero_bridge.Most.Types.{Most}
use most_aleph_zero_bridge.Most.Chain.{Chain}
use most_aleph_zero_bridge.Most.Setup.{new}
use most_aleph_zero_bridge.Most.Calls.{Transaction, run, deployed}
use most_aleph_zero_bridge.Most.View.{BridgeView, bridge_view}
use most_aleph_zero_bridge.Most.Nonces.{IsNumbered, run-IsNumbered}
use most_aleph_zero_bridge.Most.Votes.{IsTallied, run-IsTallied}
use most_aleph_zero_bridge.Most.Rewards.{IsSolvent, run-IsSolvent}

module _ (chain : Chain) (committee : List ℕ) (threshold pocket_money usage low high default : ℕ)
    (oracle : Option ℕ) (owner : ℕ) {m : Most}
    (made : new {E = chain.PSP22Error} committee threshold pocket_money usage low high default
        oracle owner
      ≡ ok m)
    (w : chain.World) where
  abbrev fresh : BridgeView
  fresh = bridge_view (deployed m w)

  fresh-IsNumbered : IsNumbered fresh
  unfolding new
  fresh-IsNumbered = ground arith

  fresh-IsTallied : IsTallied fresh
  unfolding new
  fresh-IsTallied = record {
    counted = λ h e. ground arith;
    recorded = λ h a. ground arith;
    distinct = tt;
    finished = λ h. ground arith;
    once = tt;
  }

  fresh-IsSolvent : IsSolvent fresh
  unfolding new
  fresh-IsSolvent = record { within = λ c a n e. ground arith }

  -- A contract that `new` accepts is sound after every history of calls. While its data is stored,
  -- the requests that it sent have the nonces 0, 1, 2 and so on, up to the next nonce. No account has
  -- voted twice for one hash, no request was executed twice, and the storage has the count of the
  -- votes for each request that is not executed, the signature of each voter and the mark of each
  -- executed request. Where a committee's size is stored, no account has been paid more than one equal
  -- share of what this committee collected.
  pub deployed-run_is_sound :
      (txs : List (Transaction chain))
      → IsNumbered (bridge_view (run chain (deployed m w) txs))
        × IsTallied (bridge_view (run chain (deployed m w) txs))
        × IsSolvent (bridge_view (run chain (deployed m w) txs))
  deployed-run_is_sound txs = (
    run-IsNumbered chain (deployed m w) txs fresh-IsNumbered,
    run-IsTallied chain (deployed m w) txs fresh-IsTallied,
    run-IsSolvent chain (deployed m w) txs fresh-IsSolvent,
  )
