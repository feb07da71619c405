-- ===== src/Server/Examples/Readers.antt =====
-- The journal of one frame, a cursor on it, and a challenge that is taken.
use agent_mesh.Common.{◌≡◌, ◌≢◌, ◌↔◌, refl, false, none, some, [], ◌∷◌, ok}
use agent_mesh.Protocol.Certs.Examples.{challenge}
use agent_mesh.Server.Follow.{head_after}
use agent_mesh.Server.Journal.{
  Journal, Cursor, cursor_from, at_index, ending_before, last_index, last_published,
  cursor_from-Resumed, cursor_from-panics, Resumed,
}
use agent_mesh.Server.Transact.{Server, Purpose}
use agent_mesh.Server.Entry.{take_challenge}
use agent_mesh.Server.Entry.Challenges.{take_challenge_once}
use agent_mesh.Server.Examples.{crates, bump_sealed, fresh}

abbrev journal : Journal
journal = record { frames = (bump_sealed ∷ [], []) ∷ []; stopped = false }

abbrev cursor : Cursor
cursor = record { next = 1; cancelled = false }

cursor_resumes : cursor_from crates journal (some (head_after bump_sealed)) ≡ some (ok cursor)
unfolding cursor_from at_index ending_before last_index last_published
cursor_resumes = refl

cursor_from-Resumed_example : Resumed crates journal (head_after bump_sealed) cursor
cursor_from-Resumed_example =
    cursor_from-Resumed crates journal (head_after bump_sealed) cursor cursor_resumes

abbrev empty : Journal
empty = record { frames = []; stopped = false }

cursor_from-panics_example :
    (cursor_from crates empty (some (head_after bump_sealed)) ≡ none)
    ↔ ((empty.frames ≡ []) × (bump_sealed.record_node.payload.index ≡ 0))
cursor_from-panics_example = cursor_from-panics crates empty (head_after bump_sealed)

-- A server that has issued the challenge.
abbrev asking : Server
asking = record fresh {
  challenges = (5, record { challenge = challenge; purpose = Purpose.renew "08" 0 }) ∷ [];
}

take_challenge_once_example :
    (take_challenge (take_challenge asking challenge).0 challenge).1 ≢ ok (Purpose.renew "08" 0)
take_challenge_once_example = take_challenge_once asking challenge (Purpose.renew "08" 0)
