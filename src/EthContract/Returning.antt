-- ===== src/EthContract/Returning.antt =====
-- How eth/contracts/Most.sol returns the locked tokens.
use most_aleph_zero_bridge.Common.{
  ℕ, ◌≡◌, ◌⊎◌, inl, inr, Bool, true, false, Option, none, some, List, [], ◌∷◌, ◌++◌, Env, returns,
  arith, ◌==◌, Bool-cases, Option-cases, refl,
}
use most_aleph_zero_bridge.EthContract.Types.{
  EthChain, EthState, EthEvent, eth_transfer_failed, token_transfer_failed,
}
use most_aleph_zero_bridge.EthContract.Bridge.{return_tokens, token_transfer_return_success}

module _ (chain : EthChain) (hash weth contract token receiver amount : ℕ) where
  -- What becomes of the tokens of a request with this hash: the wrapped ether is unwrapped and the
  -- ether sent, or else another token is transferred. A failure is told by an event. The worlds are
  -- those before and after, and the events those that are emitted.
  pub data TokensReturn (w v : chain.World) (es : List EthEvent) : Type 0 where
    ether_sent :
        (u : chain.World)
        → token ≡ weth
        → chain.weth_withdraw contract weth amount w ≡ some u
        → chain.send_ether contract receiver amount u ≡ some v
        → es ≡ []
        → TokensReturn w v es
    ether_kept :
        token ≡ weth
        → chain.weth_withdraw contract weth amount w ≡ some v
        → chain.send_ether contract receiver amount v ≡ none
        → es ≡ eth_transfer_failed hash ∷ []
        → TokensReturn w v es
    tokens_sent :
        (answer : Option (Option Bool))
        → (token == weth) ≡ false
        → chain.call_transfer contract token receiver amount w ≡ some (v, answer)
        → (answer ≡ none) ⊎ (answer ≡ some (some true))
        → chain.has_code token v ≡ true
        → es ≡ []
        → TokensReturn w v es
    tokens_doubtful :
        (answer : Option (Option Bool))
        → (token == weth) ≡ false
        → chain.call_transfer contract token receiver amount w ≡ some (v, answer)
        → (answer ≡ some (some false)) ⊎ (chain.has_code token v ≡ false)
        → es ≡ token_transfer_failed hash ∷ []
        → TokensReturn w v es
    tokens_kept :
        (token == weth) ≡ false
        → chain.call_transfer contract token receiver amount w ≡ none
        → v ≡ w
        → es ≡ token_transfer_failed hash ∷ []
        → TokensReturn w v es

-- What a return of tokens that does not revert does with the state.
pub record TokensReturned (chain : EthChain) (hash token receiver amount : ℕ) (env : Env)
    (s t : EthState chain) : Type 0 where
  pub told : List EthEvent
  pub moved :
      TokensReturn chain hash s.weth_address env.account_id token receiver amount s.world t.world
        told
  pub same_self : t.self ≡ s.self
  pub told_events : t.events ≡ told ++ s.events

module _ (chain : EthChain) (hash token receiver amount : ℕ) (env : Env)
    (s t : EthState chain) where
  ether-TokensReturned :
      (token == s.weth_address) ≡ true
      → return_tokens chain hash token receiver amount env s ≡ returns tt t
      → TokensReturned chain hash token receiver amount env s t
  unfolding return_tokens
  ether-TokensReturned e h =
      elim (Option-cases (chain.weth_withdraw env.account_id s.weth_address amount s.world)) [
        | inl failed ↦ absurd (ground arith)
        | inr (u, unwrapped) ↦
            elim (Option-cases (chain.send_ether env.account_id receiver amount u)) [
              | inl failed ↦ record {
                told = eth_transfer_failed hash ∷ [];
                moved = ether_kept (ground arith) (ground arith) (ground arith) refl;
                same_self = ground arith;
                told_events = ground arith;
              }
              | inr (v, sent) ↦ record {
                told = [];
                moved = ether_sent u (ground arith) unwrapped (ground arith) refl;
                same_self = ground arith;
                told_events = ground arith;
              }
            ]
      ]

  tokens-TokensReturned :
      (token == s.weth_address) ≡ false
      → return_tokens chain hash token receiver amount env s ≡ returns tt t
      → TokensReturned chain hash token receiver amount env s t
  unfolding return_tokens token_transfer_return_success
  tokens-TokensReturned e h =
      elim (Option-cases (chain.call_transfer env.account_id token receiver amount s.world)) [
        | inl failed ↦ record {
          told = token_transfer_failed hash ∷ [];
          moved = tokens_kept e failed (ground arith) refl;
          same_self = ground arith;
          told_events = ground arith;
        }
        | inr ((v, none), called) ↦ elim (Bool-cases (chain.has_code token v)) [
          | inl code ↦ record {
            told = [];
            moved = tokens_sent none e (ground arith) (inl refl) (ground arith) refl;
            same_self = ground arith;
            told_events = ground arith;
          }
          | inr missing ↦ record {
            told = token_transfer_failed hash ∷ [];
            moved = tokens_doubtful none e (ground arith) (inr (ground arith)) refl;
            same_self = ground arith;
            told_events = ground arith;
          }
        ]
        | inr ((v, some none), called) ↦ absurd (ground arith)
        | inr ((v, some (some false)), called) ↦ record {
          told = token_transfer_failed hash ∷ [];
          moved = tokens_doubtful (some (some false)) e (ground arith) (inl refl) refl;
          same_self = ground arith;
          told_events = ground arith;
        }
        | inr ((v, some (some true)), called) ↦ elim (Bool-cases (chain.has_code token v)) [
          | inl code ↦ record {
            told = [];
            moved = tokens_sent (some (some true)) e (ground arith) (inr refl) (ground arith) refl;
            same_self = ground arith;
            told_events = ground arith;
          }
          | inr missing ↦ record {
            told = token_transfer_failed hash ∷ [];
            moved = tokens_doubtful (some (some true)) e (ground arith) (inr (ground arith)) refl;
            same_self = ground arith;
            told_events = ground arith;
          }
        ]
      ]

  pub return_tokens-TokensReturned :
      return_tokens chain hash token receiver amount env s ≡ returns tt t
      → TokensReturned chain hash token receiver amount env s t
  return_tokens-TokensReturned h = elim (Bool-cases (token == s.weth_address)) [
    | inl e ↦ ether-TokensReturned e h
    | inr e ↦ tokens-TokensReturned e h
  ]
