-- ===== src/Relayer/Polling/Tests.antt =====
-- The loops that ask again, at concrete answers.
use most_aleph_zero_bridge.Common.{◌≡◌, ◌↔◌, refl, inl, inr, none, some, List, [], ◌∷◌, arith}
use most_aleph_zero_bridge.Relayer.Polling.{
  EthHead, found, get_error, finished, wait_for_eth_tx_finality,
  get_next_finalized_block_number_azero, azero_head, hash_error, azero_head_turn, poll_until,
}
use most_aleph_zero_bridge.Relayer.Polling.Ends.{
  Round, told_in, AnyFinal, wait_for_eth_tx_finality_iff,
}

-- An older head and an error are passed over.
head_found :
    get_next_finalized_block_number_azero 7 (azero_head 6 ∷ hash_error ∷ azero_head 9 ∷ [])
    ≡ finished 9
unfolding get_next_finalized_block_number_azero azero_head_turn poll_until
head_found = refl

-- The transaction cannot be read, then it is in block 12 with the head at 11, then with it at 12.
abbrev rounds : List Round
rounds =
    record { refused = EthHead.client_error ∷ []; head = 10; transaction = get_error }
    ∷ record { refused = []; head = 11; transaction = found (some 12) }
    ∷ record { refused = EthHead.no_block ∷ []; head = 12; transaction = found (some 12) }
    ∷ []

wait_for_eth_tx_finality_iff_example :
    (wait_for_eth_tx_finality none (told_in rounds) ≡ finished tt) ↔ AnyFinal rounds
wait_for_eth_tx_finality_iff_example = wait_for_eth_tx_finality_iff rounds (
  record { errors = (inl refl, tt); small = omega arith; known = λ e. cc },
  (
    record { errors = tt; small = omega arith; known = λ e. cc },
    (record { errors = (inr refl, tt); small = omega arith; known = λ e. cc }, tt),
  ),
)
