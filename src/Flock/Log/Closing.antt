-- ===== src/Flock/Log/Closing.antt =====
-- The event that the admission table says an event closes, and the one that the board records, agree.
use agent_mesh.Common.{◌≡◌, ◌≢◌, refl, true, Option, none, arith, ok, string_eq, nat_eq, ◌∙◌}
use agent_mesh.Common.Maps
use agent_mesh.Common.Maps.{Map}
use agent_mesh.Flock.Kind.{Kind, kind_eq}
use agent_mesh.Flock.Event.{ContentId, Event, MerkleNode, Signer, fits}
use agent_mesh.Flock.Board.{Board, Externs}
use agent_mesh.Flock.Admission.Refs.{check_refs}
use agent_mesh.Flock.Admission.Table.{Signing, apply_table, nudge_ok}
use agent_mesh.Flock.Admission.{closes}
use agent_mesh.Flock.Admission.Checks.{closes-Checked}
use agent_mesh.Flock.Log.{closed_by, closing_role, named_ref}

result_target :
    (board : Board) (ev : Event) (target : Option ContentId)
    → ev.kind ≡ Kind.result
    → check_refs board ev ≡ ok target
    → target ≡ Maps.get ev.refs "brief"
unfolding check_refs
result_target board ev target k h = ground arith

verdict_target :
    (board : Board) (ev : Event) (target : Option ContentId)
    → ev.kind ≡ Kind.verdict
    → check_refs board ev ≡ ok target
    → target ≡ Maps.get ev.refs "review"
unfolding check_refs
verdict_target board ev target k h = ground arith

job_end_target :
    (board : Board) (ev : Event) (target : Option ContentId)
    → ev.kind ≡ Kind.job_end
    → check_refs board ev ≡ ok target
    → target ≡ Maps.get ev.refs "job"
unfolding check_refs
job_end_target board ev target k h = ground arith

answer_target :
    (board : Board) (ev : Event) (target : Option ContentId)
    → ev.kind ≡ Kind.answer
    → check_refs board ev ≡ ok target
    → target ≡ Maps.get ev.refs "ask"
unfolding check_refs
answer_target board ev target k h = ground arith

closing_row :
    (board : Board) (ev : Event) (m : Signing) (target t : Option ContentId)
    → fits ev.body ev.kind ≡ true
    → closing_role ev.kind ≢ none
    → apply_table board ev m target ≡ ok t
    → t ≡ target
unfolding apply_table
closing_row board ev m target t f k h = ground arith

other_row :
    (board : Board) (ev : Event) (m : Signing) (target t : Option ContentId)
    → closing_role ev.kind ≡ none
    → apply_table board ev m target ≡ ok t
    → t ≡ none
unfolding apply_table nudge_ok
other_row board ev m target t k h = ground arith

agreed :
    (board : Board) (ev : Event) (m : Signing) (target t : Option ContentId) (k : Kind)
    → ev.kind ≡ k
    → fits ev.body ev.kind ≡ true
    → check_refs board ev ≡ ok target
    → apply_table board ev m target ≡ ok t
    → t ≡ named_ref ev.refs (closing_role k)
agreed board ev m target t Kind.result k f r h =
    closing_row board ev m target t f (ground arith) h ∙ result_target board ev target k r
agreed board ev m target t Kind.verdict k f r h =
    closing_row board ev m target t f (ground arith) h ∙ verdict_target board ev target k r
agreed board ev m target t Kind.job_end k f r h =
    closing_row board ev m target t f (ground arith) h ∙ job_end_target board ev target k r
agreed board ev m target t Kind.answer k f r h =
    closing_row board ev m target t f (ground arith) h ∙ answer_target board ev target k r
agreed board ev m target t _ k f r h = other_row board ev m target t (rw k) h

-- The target that admission finds an event to close, in order to flag a second closer, is the
-- target that the board then records it as closing, for every kind of event.
pub closes-closed_by :
    (x : Externs) (board : Board) (node : MerkleNode Event) (signer : Signer) (t : Option ContentId)
    → closes x board node signer ≡ ok t
    → t ≡ closed_by node.payload
unfolding closed_by
closes-closed_by x board node signer t h =
    let c = closes-Checked x board node signer t h in
    agreed board node.payload c.member c.target t node.payload.kind refl c.fitting c.referred
      c.tabled
