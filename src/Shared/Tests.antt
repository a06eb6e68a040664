-- ===== src/Shared/Tests.antt =====
-- The encoding of requests at concrete values.
use most_aleph_zero_bridge.Shared.Encoding.{InRange, RequestData, request_bytes-injective}
use most_aleph_zero_bridge.Shared.{to_le_bytes}
use most_aleph_zero_bridge.Common.{ℕ, ◌≡◌, refl, [], ◌∷◌, arith}

to_le_bytes_513 : to_le_bytes 4 513 ≡ 1 ∷ 2 ∷ 0 ∷ 0 ∷ []
unfolding to_le_bytes
to_le_bytes_513 = refl

abbrev small : ℕ
small = 513

abbrev sample : RequestData
sample = record {
  committee_id = 1;
  token_address = 6;
  amount = 1000;
  receiver_address = 77;
  request_nonce = 3;
}

sample-InRange : InRange sample
sample-InRange = record {
  committee_bound = omega arith;
  token_bound = omega arith;
  amount_bound = omega arith;
  receiver_bound = omega arith;
  nonce_bound = omega arith;
}

request_bytes-injective_example : sample ≡ sample
request_bytes-injective_example =
    request_bytes-injective sample sample sample-InRange sample-InRange refl
