-- ===== src/Flock/Admission/Refs.antt =====
-- admission.rs: the references that a kind takes.
use agent_mesh.Common.{
  String, Bool, true, false, not, Option, none, some, List, [], ◌∷◌, ◌==◌, str_eq, string_eq,
  nat_eq, any, find, contains, is_none, if◌then◌else◌, Result, ok, err, ◌>>=◌, ◌>>◌, fail_if, ok_or,
}
use agent_mesh.Common.Maps
use agent_mesh.Common.Maps.{Map}
use agent_mesh.Flock.Kind.{Kind, kind_eq, is_server_kind, rank}
use agent_mesh.Flock.Event.{ContentId, Body, Event}
use agent_mesh.Flock.Board.{
  Board, Refusal, get, missing_ref, unexpected_ref, unknown_ref, wrong_ref_kind, cross_lane,
  stale_roster,
}

-- One reference that a kind takes.
pub record RefSpec : Type 0 where
  pub role : String
  pub kinds : List Kind
  pub required : Bool

abbrev takes : String → List Kind → Bool → List RefSpec
takes role kinds required = record { role = role; kinds = kinds; required = required } ∷ []

abbrev pub briefs_reviews : List Kind
briefs_reviews = Kind.brief ∷ Kind.review ∷ []

abbrev pub ref_spec : Kind → List RefSpec
ref_spec Kind.roster = takes "replaces" (Kind.roster ∷ []) true
ref_spec Kind.ack = takes "of" briefs_reviews true
ref_spec Kind.result = takes "brief" (Kind.brief ∷ []) true
ref_spec Kind.verdict = takes "review" (Kind.review ∷ []) true
ref_spec Kind.job_end = takes "job" (Kind.job ∷ []) true
ref_spec Kind.ask = takes "about" (Kind.brief ∷ []) false
ref_spec Kind.answer = takes "ask" (Kind.ask ∷ []) true
ref_spec Kind.relayed_answer = takes "ask" (Kind.ask ∷ []) true
ref_spec Kind.nudged = takes "of" briefs_reviews false
ref_spec Kind.nudge_misfire = takes "of" briefs_reviews false
ref_spec _ = []

abbrev pub declared_lane : Body → Option String
declared_lane (Body.brief to lane) = some lane
declared_lane (Body.review to lane head) = some lane
declared_lane (Body.job lane label) = some lane
declared_lane (Body.ask lane text) = lane
declared_lane _ = none

-- Two lanes that are both declared and differ.
abbrev pub lanes_cross : Option String → Option String → Bool
lanes_cross (some mine) (some theirs) = not (str_eq mine theirs)
lanes_cross _ _ = false

abbrev is_roster : Kind → Bool
is_roster kind = rank kind == rank Kind.roster

-- The body of the loop for a reference that is there, of an event that is not a roster.
abbrev pub check_target : Board → Event → RefSpec → ContentId → Result Refusal (Option ContentId)
check_target board ev spec cid = do
  entry ← ok_or (get board cid) (unknown_ref spec.role)
  fail_if (not (contains spec.kinds entry.event.kind)) (wrong_ref_kind spec.role)
  fail_if (lanes_cross (declared_lane ev.body) (declared_lane entry.event.body)) cross_lane
  ok (some cid)

-- One round of the loop: what the event acts on after it.
abbrev pub check_ref :
    Board
    → Event
    → RefSpec
    → Option ContentId
    → Option ContentId
    → Result Refusal (Option ContentId)
check_ref board ev spec acts_on none =
    if spec.required then err (missing_ref spec.role) else ok acts_on
check_ref board ev spec acts_on (some cid) =
    if is_roster ev.kind
    then (if not (cid == board.roster_id) then err stale_roster else ok acts_on)
    else check_target board ev spec cid

unfoldable pub check_specs :
    Board → Event → List RefSpec → Option ContentId → Result Refusal (Option ContentId)
check_specs board ev [] acts_on = ok acts_on
check_specs board ev (spec ∷ specs) acts_on =
    check_ref board ev spec acts_on (Maps.get ev.refs spec.role) >>= check_specs board ev specs

abbrev pub unexpected : List RefSpec → Map String ContentId → Option (String × ContentId)
unexpected specs refs = find (λ r. not (any (λ s. str_eq s.role r.0) specs)) refs

abbrev unexpected_row : Option (String × ContentId) → Result Refusal (Unit {0})
unexpected_row none = ok tt
unexpected_row (some (role, cid)) = err (unexpected_ref role)

unfoldable pub check_refs : Board → Event → Result Refusal (Option ContentId)
unfolding check_specs
check_refs board ev =
    if is_server_kind ev.kind
    then (if any (λ r. is_none (get board r.1)) ev.refs
        then err (unknown_ref "server")
        else ok none)
    else (do
      unexpected_row (unexpected (ref_spec ev.kind) ev.refs)
      check_specs board ev (ref_spec ev.kind) none)
