-- ===== src/Relayer/Decoding/Tests.antt =====
-- The decoding of a concrete event.
use Prim.Native.String.{compare}
use Prim.Native.Nat.{Ordering}
use most_aleph_zero_bridge.Relayer.Decoding.Fields.{uints, get_request_event_data-Carries, Carries}
use most_aleph_zero_bridge.Relayer.Decoding.{
  seq, uint, CrosschainTransferRequestData, Value, get_request_event_data,
}
use most_aleph_zero_bridge.Common.{
  zero, suc, true, false, Bool, if◌then◌else◌, ℕ, ◌≡◌, refl, String, Option, some, none, List, [],
  ◌∷◌, ok, arith,
}

abbrev zeros : ℕ → List ℕ
zeros zero = []
zeros (suc n) = 0 ∷ zeros n

abbrev request : CrosschainTransferRequestData
request = record {
  committee_id = 0;
  dest_token_address = 255 ∷ zeros 31;
  amount = 1000;
  dest_receiver_address = 7 ∷ zeros 31;
  request_nonce = 3;
}

abbrev is : String → String → Bool
is s t = elim (compare s t) [ Ordering.eq ↦ true | _ ↦ false ]

-- The event's fields, decoded by the transcoder.
abbrev event : String → Option Value
event field =
    if is field "committee_id"
    then some (uint 0)
    else if is field "dest_token_address"
    then some (seq (uints (255 ∷ zeros 31)))
    else if is field "amount"
    then some (uint 1000)
    else if is field "dest_receiver_address"
    then some (seq (uints (7 ∷ zeros 31)))
    else if is field "request_nonce"
    then some (uint 3)
    else none

event-Carries : Carries event request
event-Carries = record {
  committee = refl;
  token = refl;
  amount = refl;
  receiver = refl;
  nonce = refl;
}

get_request_event_data-Carries_example : get_request_event_data event ≡ ok request
get_request_event_data-Carries_example =
    get_request_event_data-Carries event request event-Carries (ground arith) (ground arith)
