-- ===== src/Signer/Tests.antt =====
-- The exchange with the signer over concrete keys.
use most_aleph_zero_bridge.Signer.Exchange.{signatures_match, sign_eth_tx-served, TxLaws}
use most_aleph_zero_bridge.Signer.{
  signed_eth_hash, sign_hash_eth, signed_azero, sign_eth_hash, sign_azero_payload, served, Wallet,
  sign_azero, sign_eth_tx,
}
use most_aleph_zero_bridge.Common.{
  sym, ◌↔◌, ℕ, ◌+◌, ◌≡◌, refl, Bool, true, false, Option, none, some, List, [], ◌∷◌, ◌==◌, ◌&&◌, ok,
  arith,
}

abbrev pub same_chain : Option ℕ → Option ℕ → Bool
same_chain none none = true
same_chain (some c) (some d) = c == d
same_chain none (some d) = false
same_chain (some c) none = false

-- A transaction is a number and its chain, a signature a number.
abbrev pub keys : Wallet
keys = record {
  AccountId = ℕ;
  MultiSignature = List ℕ;
  EthAddress = ℕ;
  EthSignature = ℕ;
  Tx = ℕ × Option ℕ;
  account_id = 5;
  sign = λ payload. 9 ∷ payload;
  address = 6;
  sign_hash = λ h. some (h + 100);
  sign_transaction = λ tx. elim (tx.1) [ some c ↦ some (tx.0 + c) | none ↦ none ];
  chain_id = λ tx. tx.1;
  set_chain_id = λ c tx. (tx.0, some c);
  same_tx = λ t u. (t.0 == u.0) && same_chain (t.1) (u.1);
  wire_tx = λ tx. (tx.0, none);
}

same_chain_refl : (c : Option ℕ) → same_chain c c ≡ true
same_chain_refl none = refl
same_chain_refl (some c) = ground arith

keys-TxLaws : TxLaws keys
keys-TxLaws = record {
  set_wire = λ c tx. refl;
  set_own = λ c tx e. λ i. (tx.0, sym e i);
  wire_none = λ c tx e. λ i. (tx.0, sym e i);
  same_refl = λ tx. ground (arith, same_chain_refl (tx.1));
}

abbrev payload : List ℕ
payload = 1 ∷ 2 ∷ []

signatures_match_example :
    ((sign_azero keys (served keys) payload ≡ ok (9 ∷ payload))
      ↔ (served keys (sign_azero_payload payload) ≡ ok (signed_azero payload (9 ∷ payload))))
    × ((sign_eth_hash keys (served keys) 7 ≡ ok 107)
        ↔ (served keys (sign_hash_eth 7) ≡ ok (signed_eth_hash 7 107)))
signatures_match_example = signatures_match keys (served keys) payload 7 (9 ∷ payload) 107

sign_eth_tx-served_example : sign_eth_tx keys (served keys) (40, none) ≡ ok 41
sign_eth_tx-served_example = sign_eth_tx-served keys (40, none) 41 keys-TxLaws refl
