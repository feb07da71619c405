-- ===== src/Protocol/Caveats/Examples.antt =====
-- Runs of the lattice, after the unit tests of caveats.rs.
use agent_mesh.Common.{◌≡◌, refl, true, ◌∷◌, [], contains, is_subset, all, ◌&&◌}
use agent_mesh.Protocol.Caveats.Scope
use agent_mesh.Protocol.Caveats.CountBound
use agent_mesh.Protocol.Caveats.{Caveats, top, leq, meet}
use agent_mesh.Protocol.Caveats.Semantics.{reads, permits, permits-meet}

abbrev small : Caveats
small = record top { fs_read = Scope.only ("/a" ∷ []); max_calls = CountBound.at_most 3 }

abbrev big : Caveats
big = record top { fs_read = Scope.only ("/a" ∷ "/b" ∷ []); max_calls = CountBound.at_most 5 }

small-leq-big : leq small big ≡ true
unfolding leq Scope.leq CountBound.leq is_subset all contains
small-leq-big = refl

permits-meet_example :
    permits (meet small big) (reads "/b") ≡ (permits small (reads "/b") && permits big (reads "/b"))
permits-meet_example = permits-meet small big (reads "/b")
