-- ===== src/Flock/Admission/Table.antt =====
-- admission.rs: who may sign what, against the referenced event; the rows of `apply_table` by kind.
use Prim.Native.Char.{code}
use Prim.Native.String.{len}
use agent_mesh.Common.{
  ℕ, String, Bool, false, not, ◌&&◌, ◌||◌, Option, none, some, List, [], ◌∷◌, leb, ltb, ◌==◌,
  str_eq, string_eq, nat_eq, opt_eq, any, all, is_some, if◌then◌else◌, Result, ok, err, ◌>>=◌, ◌>>◌,
  fail_if, ok_or,
}
use agent_mesh.Flock.Kind.{Kind, kind_eq}
use agent_mesh.Flock.Event.{ContentId, Role, Body, Event}
use agent_mesh.Flock.Board.{
  Board, Entry, Refusal, get, unknown_member, not_allowed, missing_ref, wrong_ref_kind,
  not_addressee, head_mismatch, bad_claim, bad_exit,
}

-- `char::is_control`: the control codes below 0x20, and 0x7f to 0x9f.
abbrev pub is_control : ℕ → Bool
is_control c = ltb c 0x20 || leb 0x7f c && leb c 0x9f

abbrev pub any_char : (ℕ → Bool) → String → Bool
any_char p String.[] = false
any_char p (String.◌∷◌ c s) = p (code c) || any_char p s

unfoldable pub claim_ok : String → Bool
claim_ok v = not (len v == 0) && (leb (len v) 128 && not (any_char is_control v))

abbrev pub addressee_of : Body → Option String
addressee_of (Body.brief to lane) = some to
addressee_of (Body.review to lane head) = some to
addressee_of _ = none

abbrev pub Signing : Type 0
Signing = Option (String × Role)

-- The first lines of the rows of `ack`, `result` and `verdict`: the signer is a member, the target
-- is there, and it is addressed to the signer.
abbrev pub addressed : Signing → Option Entry → String → Result Refusal Entry
addressed member target role = do
  signing ← ok_or member not_allowed
  entry ← ok_or target (missing_ref role)
  fail_if (not (opt_eq (addressee_of entry.event.body) (some signing.0))) not_addressee
  ok entry

abbrev pub same_head : String → Body → Bool
same_head head (Body.review to lane h) = str_eq h head
same_head head _ = false

abbrev verdict_row :
    Body → Signing → Option ContentId → Option Entry → Result Refusal (Option ContentId)
verdict_row (Body.verdict head approved) member target entry = do
  e ← addressed member entry "review"
  if same_head head e.event.body then ok target else err head_mismatch
verdict_row _ member target entry = ok none

-- Exactly one of `code` and `signal`.
abbrev pub exit_ok : Body → Bool
exit_ok (Body.job_end code signal) =
    not (is_some code) && is_some signal || is_some code && not (is_some signal)
exit_ok _ = false

abbrev job_end_row :
    Body → Signing → Option ContentId → Option Entry → Result Refusal (Option ContentId)
job_end_row body member target entry = do
  fail_if (not (exit_ok body)) bad_exit
  signing ← ok_or member not_allowed
  e ← ok_or entry (missing_ref "job")
  fail_if (not (opt_eq e.member (some signing.0))) not_addressee
  ok target

abbrev pane_row : Body → Result Refusal (Option ContentId)
pane_row (Body.pane pane tab) = if claim_ok pane && claim_ok tab then ok none else err bad_claim
pane_row _ = ok none

abbrev pub nudge_about : String → Option Entry → Result Refusal (Unit {0})
nudge_about target none = ok tt
nudge_about target (some e) = do
  to ← ok_or (addressee_of e.event.body) (wrong_ref_kind "of")
  fail_if (not (str_eq to target)) not_addressee
  ok tt

unfoldable pub nudge_ok :
    Board → String → Option Entry → List String → Result Refusal (Option ContentId)
nudge_ok board target about texts = do
  fail_if (not (any (λ m. str_eq m.name target) board.members)) unknown_member
  nudge_about target about
  fail_if (not (all claim_ok texts)) bad_claim
  ok none

abbrev nudged_row : Board → Body → Option Entry → Result Refusal (Option ContentId)
nudged_row board (Body.nudged to) entry = nudge_ok board to entry []
nudged_row board _ entry = ok none

abbrev misfire_row : Board → Body → Option Entry → Result Refusal (Option ContentId)
misfire_row board (Body.nudge_misfire to expected found) entry =
    nudge_ok board to entry (expected ∷ found ∷ [])
misfire_row board _ entry = ok none

abbrev pub table_row :
    Board
    → Body
    → Signing
    → Option ContentId
    → Option Entry
    → Kind
    → Result Refusal (Option ContentId)
table_row board body member target entry Kind.ack = do _ ← addressed member entry "of"; ok none
table_row board body member target entry Kind.result = do
  _ ← addressed member entry "brief"
  ok target
table_row board body member target entry Kind.verdict = verdict_row body member target entry
table_row board body member target entry Kind.job_end = job_end_row body member target entry
table_row board body member target entry Kind.pane = pane_row body
table_row board body member target entry Kind.answer = ok target
table_row board body member target entry Kind.nudged = nudged_row board body entry
table_row board body member target entry Kind.nudge_misfire = misfire_row board body entry
table_row board body member target entry _ = ok none

abbrev pub target_entry : Board → Option ContentId → Option Entry
target_entry board none = none
target_entry board (some t) = get board t

unfoldable pub apply_table :
    Board → Event → Signing → Option ContentId → Result Refusal (Option ContentId)
apply_table board ev member target =
    table_row board ev.body member target (target_entry board target) ev.kind
