-- ===== src/Bus/Sequence/Examples.antt =====
-- Runs of the sequencer.
use agent_mesh.Common.{◌+◌, ◌≡◌, refl, List, [], ◌∷◌}
use agent_mesh.Bus.Sequence.{stored, failed_after, next, reserving}
use agent_mesh.Bus.Sequence.Restart.{
  Event, sends, restarts, run, step, first, Descends, issued_increase,
}

-- A crash in the middle of a block skips the rest of it.
abbrev life : List Event
life =
    sends stored
    ∷ sends stored
    ∷ sends failed_after
    ∷ restarts
    ∷ sends failed_after
    ∷ sends stored
    ∷ []

issues : (run first life).issued ≡ 1025 ∷ 3 ∷ 2 ∷ 1 ∷ []
unfolding run step first next reserving
issues = refl

issued_increase_example : Descends ((run first life).kept + 1) (run first life).issued
issued_increase_example = issued_increase life
