-- ===== src/Server/Journal.antt =====
-- agent-mesh-flock-server/src/journal.rs: the published frames, and where a cursor resumes. The lock
-- and the waiting are the system's: a cursor that would wait is `waiting` here.
use agent_mesh.Common.{
  ℕ, zero, suc, ◌+◌, ◌≤◌, ◌≡◌, ◌↔◌, Bool, true, false, not, ◌&&◌, Option, none, some, List, [], ◌∷◌,
  ◌++◌, ◌==◌, ==_iff, ltb, arith, opt_eq, opt_eq_iff, String, nat_eq, is_some, if◌then◌else◌,
  Result, ok, err, Option-cases, inl, inr,
}
use agent_mesh.Flock.Event.{ContentId}
use agent_mesh.Server.Errors.{Crates}
use agent_mesh.Server.Chain.{Sealed}
use agent_mesh.Server.Follow.{Head}

-- A frame and who was eligible after it.
abbrev pub Published : Type 0
Published = List Sealed × List String

pub data Resume : Type 0 where
  behind : ℕ → Resume
  diverged not_a_boundary : Resume

pub record Journal : Type 0 where
  pub frames : List Published
  pub stopped : Bool

pub record Cursor : Type 0 where
  pub next : ℕ
  pub cancelled : Bool

abbrev last_sealed : List Sealed → Option Sealed
last_sealed [] = none
last_sealed (s ∷ []) = some s
last_sealed (s ∷ t ∷ rest) = last_sealed (t ∷ rest)

abbrev index_of : Option Sealed → ℕ
index_of none = 0
index_of (some s) = s.record_node.payload.index

unfoldable pub last_index : List Sealed → ℕ
last_index f = index_of (last_sealed f)

abbrev pub publish : Journal → List Sealed → List String → Journal
publish j frame eligible = record j { frames = j.frames ++ ((frame, eligible) ∷ []) }

abbrev pub stop : Journal → Journal
stop j = record j { stopped = true }

-- The index of the last event of these frames.
unfoldable pub last_published : List Published → ℕ
last_published [] = 0
last_published (f ∷ []) = last_index f.0
last_published (f ∷ g ∷ rest) = last_published (g ∷ rest)

-- `Journal::len`.
abbrev pub len : Journal → ℕ
len j = last_published j.frames

unfoldable pub at_index : List Published → ℕ → Option Published
at_index [] n = none
at_index (f ∷ fs) zero = some f
at_index (f ∷ fs) (suc n) = at_index fs n

-- `partition_point` of a sorted journal: how many frames end before this index.
unfoldable pub ending_before : ℕ → List Published → ℕ
ending_before at [] = 0
ending_before at (f ∷ fs) =
    let more = ending_before at fs in if ltb (last_index f.0) at then suc more else 0

module _ (x : Crates) where
  abbrev id_of : Option Sealed → Option ContentId
  id_of none = none
  id_of (some s) = x.record_id s.record_node

  abbrev resume_at : Head → ℕ → Published → Result Resume Cursor
  resume_at h pos f =
      if not (last_index f.0 == h.record_node.payload.index)
      then err not_a_boundary
      else if is_some (id_of (last_sealed f.0))
          && opt_eq (id_of (last_sealed f.0)) (x.record_id h.record_node)
      then ok (record { next = pos + 1; cancelled = false })
      else err diverged

  -- The frame at a place; beyond the end of the list there is no result, a panic.
  abbrev resume_frame : Head → ℕ → Option Published → Option (Result Resume Cursor)
  resume_frame h pos none = none
  resume_frame h pos (some f) = some (resume_at h pos f)

  abbrev resume_head : Journal → Head → Option (Result Resume Cursor)
  resume_head j h =
      let at = h.record_node.payload.index in
      let pos = ending_before at j.frames in
      let found = resume_frame h pos (at_index j.frames pos) in
      if ltb (len j) at then some (err (behind (len j))) else found

  unfoldable pub cursor_from : Journal → Option Head → Option (Result Resume Cursor)
  cursor_from j none = some (ok (record { next = 0; cancelled = false }))
  cursor_from j (some h) = resume_head j h

  -- What a cursor that was resumed at a head has delivered.
  pub record Resumed (j : Journal) (h : Head) (c : Cursor) : Type 0 where
    pub frame : Published
    pub pos : ℕ
    pub next : c.next ≡ pos + 1
    pub there : at_index j.frames pos ≡ some frame
    pub ends : last_index frame.0 ≡ h.record_node.payload.index
    pub same : id_of (last_sealed frame.0) ≡ x.record_id h.record_node

  -- A cursor that resumes at a head stands right behind the frame that ends in that very record: if
  -- `cursor_from` gives a cursor for a head, the frame before the cursor's place is published, ends
  -- at the head's index, and its last record has the head's id.
  pub cursor_from-Resumed :
      (j : Journal) (h : Head) (c : Cursor) → cursor_from j (some h) ≡ some (ok c) → Resumed j h c
  unfolding cursor_from
  cursor_from-Resumed j h c done =
      elim (Option-cases (at_index j.frames (ending_before h.record_node.payload.index j.frames))) [
        | inl out ↦ absurd (ground arith)
        | inr (f, there) ↦ record {
          frame = f;
          pos = ending_before h.record_node.payload.index j.frames;
          next = ground arith;
          there = there;
          ends = ground (arith, ==_iff (last_index f.0) h.record_node.payload.index);
          same = ground (arith, opt_eq_iff (id_of (last_sealed f.0)) (x.record_id h.record_node));
        }
      ]

  at_index-ending_before :
      (at : ℕ) (f : Published) (fs : List Published)
      → at ≤ last_published (f ∷ fs)
      → is_some (at_index (f ∷ fs) (ending_before at (f ∷ fs))) ≡ true
  unfolding at_index ending_before last_published
  at_index-ending_before at f [] h = ground arith
  at_index-ending_before at f (g ∷ fs) h = ground (arith, at_index-ending_before at g fs)

  panics_frames :
      (frames : List Published) (stopped : Bool) (h : Head)
      → (resume_head (record { frames = frames; stopped = stopped }) h ≡ none)
        ↔ ((frames ≡ []) × (h.record_node.payload.index ≡ 0))
  unfolding last_published at_index
  panics_frames [] stopped h = ground arith
  panics_frames (f ∷ fs) stopped h =
      ground (arith, at_index-ending_before h.record_node.payload.index f fs)

  -- A resume panics in one case only: `cursor_from` gives no result for a head exactly if nothing is
  -- published and the head's index is 0.
  pub cursor_from-panics :
      (j : Journal) (h : Head)
      → (cursor_from j (some h) ≡ none) ↔ ((j.frames ≡ []) × (h.record_node.payload.index ≡ 0))
  unfolding cursor_from
  cursor_from-panics j h = panics_frames j.frames j.stopped h

-- What `next_frame` finds without waiting.
pub data Poll : Type 0 where
  ended waiting : Poll
  delivered : Published → Poll

abbrev pub poll_at : Journal → Cursor → Option Published → Cursor × Poll
poll_at j c (some f) = (record c { next = c.next + 1 }, delivered f)
poll_at j c none = (c, if j.stopped then ended else waiting)

-- `Cursor::next_frame`, one turn of its loop.
unfoldable pub next_frame : Journal → Cursor → Cursor × Poll
next_frame j c = if c.cancelled then (c, ended) else poll_at j c (at_index j.frames c.next)
