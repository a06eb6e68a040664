-- ===== src/Relayer/Azero/Tests.antt =====
-- The Aleph Zero listener at a concrete interleaving.
use most_aleph_zero_bridge.Relayer.Blocks.{
  read_first_unprocessed_block_number, blocks_from, first, remove, insert, elem,
}
use most_aleph_zero_bridge.Relayer.Azero.Sealing.{run-IsSealed}
use most_aleph_zero_bridge.Relayer.Azero.{
  take_at, seal_processed_block, seal_if_done, restarts, handle_one, advances, seals, handle_events,
  handles, add_next, takes, poll, loop_step, adds, started, polls, step, Action, Listener, run,
}
use most_aleph_zero_bridge.Relayer.Azero.Pending.{IsSealed}
use most_aleph_zero_bridge.Common.{ℕ, ◌≡◌, refl, true, false, some, none, List, [], ◌∷◌, arith}

-- One event in each block, called like the block.
abbrev one_event : ℕ → List ℕ
one_event b = b ∷ []

-- Blocks 10 and 11 are taken, the later one is sealed first, and the listener restarts before the
-- other is sealed.
abbrev interleaving : List Action
interleaving =
    polls 11 false
    ∷ adds
    ∷ adds
    ∷ adds
    ∷ takes 1
    ∷ takes 0
    ∷ handles 1 0
    ∷ seals 0 true
    ∷ advances
    ∷ restarts true
    ∷ polls 30 false
    ∷ []

abbrev listening : Listener ℕ
listening = started one_event 5 10 none none []

-- Block 11 is done, but nothing past block 9 is cached.
sealed_late : (run one_event 5 10 interleaving listening).cached ≡ some 9
unfolding run step started loop_step poll add_next handle_events handle_one seal_if_done
    seal_processed_block take_at read_first_unprocessed_block_number blocks_from first remove insert
    elem
sealed_late = refl

run-IsSealed_example : IsSealed one_event 10 (run one_event 5 10 interleaving listening)
run-IsSealed_example =
    run-IsSealed one_event 5 10 interleaving (omega arith) (omega arith) (ground arith)
