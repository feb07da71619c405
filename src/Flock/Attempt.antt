-- ===== src/Flock/Attempt.antt =====
-- agent-mesh-flock/src/board.rs: the view of a brief, `Board::attempt`.
pub mod Settled
use agent_mesh.Common.{
  ℕ, String, ◌≡◌, Bool, true, false, ◌&&◌, ◌||◌, Option, none, some, List, [], ◌∷◌, map, ◌==◌,
  nat_eq, string_eq, str_eq, opt_eq, any, filter, is_none, is_some, if◌then◌else◌,
}
use agent_mesh.Common.Maps
use agent_mesh.Flock.Kind.{Kind, rank}
use agent_mesh.Flock.Event.{ContentId, Body, Outcome}
use agent_mesh.Flock.Board.{Board, Entry, get, closer_of}

pub data AttemptState : Type 0 where
  submitted working input_required completed failed : AttemptState

pub record AttemptView : Type 0 where
  pub brief : ContentId
  pub state : AttemptState
  pub job_open : Bool
  pub conflicts : List ContentId

abbrev found : Option Entry → List Entry → List Entry
found none es = es
found (some e) es = e ∷ es

-- `Board::entries`: the admitted events in admission order.
unfoldable pub entries_of : Board → List ContentId → List Entry
entries_of board [] = []
entries_of board (id ∷ ids) = found (get board id) (entries_of board ids)

unfoldable pub entries : Board → List Entry
entries board = entries_of board board.order

abbrev pub is_kind : Kind → Entry → Bool
is_kind kind e = rank e.event.kind == rank kind

abbrev pub refs_brief : ContentId → String → Entry → Bool
refs_brief brief role e = opt_eq (Maps.get e.event.refs role) (some brief)

abbrev pub lane_of_brief : Body → Option String
lane_of_brief (Body.brief to lane) = some lane
lane_of_brief _ = none

abbrev outcome_of_body : Body → Option Outcome
outcome_of_body (Body.result outcome) = some outcome
outcome_of_body _ = none

abbrev outcome_of_entry : Option Entry → Option Outcome
outcome_of_entry none = none
outcome_of_entry (some e) = outcome_of_body e.event.body

abbrev outcome_by : Board → Option ContentId → Option Outcome
outcome_by board none = none
outcome_by board (some r) = outcome_of_entry (get board r)

-- The outcome of the result that closed the brief.
unfoldable pub outcome : Board → ContentId → Option Outcome
outcome board brief = outcome_by board (closer_of board brief)

unfoldable pub input_requested : Board → ContentId → Bool
input_requested board brief =
    any
      (λ e.
        is_kind Kind.ask e
        && (refs_brief brief "about" e && (is_none e.conflict && is_none (closer_of board e.id))))
      (entries board)

unfoldable pub acked : Board → ContentId → Bool
acked board brief = any (λ e. is_kind Kind.ack e && refs_brief brief "of" e) (entries board)

abbrev pub state_of : Option Outcome → Bool → Bool → AttemptState
state_of (some Outcome.completed) asks acked = AttemptState.completed
state_of (some Outcome.failed) asks acked = AttemptState.failed
state_of none asks acked = if asks then input_required else if acked then working else submitted

abbrev job_lane : Body → Option String
job_lane (Body.job lane label) = some lane
job_lane _ = none

unfoldable pub job_open : Board → String → Bool
job_open board lane =
    any (λ e. opt_eq (job_lane e.event.body) (some lane) && is_none (closer_of board e.id))
      (entries board)

unfoldable pub conflicts : Board → ContentId → List ContentId
conflicts board brief =
    map (λ e. e.id)
      (filter (λ e. is_some e.conflict && any (λ r. r.1 == brief) e.event.refs) (entries board))

abbrev pub view_of : Board → ContentId → String → AttemptView
view_of board brief lane = record {
  brief = brief;
  state = state_of (outcome board brief) (input_requested board brief) (acked board brief);
  job_open = job_open board lane;
  conflicts = conflicts board brief;
}

abbrev pub view : Board → ContentId → Option String → Option AttemptView
view board brief none = none
view board brief (some lane) = some (view_of board brief lane)

abbrev pub view_entry : Board → ContentId → Option Entry → Option AttemptView
view_entry board brief none = none
view_entry board brief (some e) = view board brief (lane_of_brief e.event.body)

unfoldable pub attempt : Board → ContentId → Option AttemptView
attempt board brief = view_entry board brief (get board brief)
