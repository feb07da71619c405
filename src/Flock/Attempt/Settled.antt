-- ===== src/Flock/Attempt/Settled.antt =====
-- board.rs: a brief that has its result keeps it.
use agent_mesh.Common.{
  ℕ, ◌≡◌, refl, Bool, true, false, Option, none, some, List, arith, ok, Option-cases, inl, inr,
}
use agent_mesh.Flock.Event.{ContentId, Outcome}
use agent_mesh.Flock.Board.{Board, Externs, get, closer_of}
use agent_mesh.Flock.Log.{LogEntry, fold_from}
use agent_mesh.Flock.Log.Induction.{fold_from-get, fold_from-closer_of}
use agent_mesh.Flock.Attempt.{
  AttemptState, AttemptView, attempt, outcome, state_of, view_of, lane_of_brief, input_requested,
  acked,
}

-- A state that a result gives.
abbrev pub is_settled : AttemptState → Bool
is_settled AttemptState.completed = true
is_settled AttemptState.failed = true
is_settled _ = false

fold_from-outcome :
    (x : Externs) (n : ℕ) (board : Board) (log : List LogEntry) (final : Board) (brief : ContentId)
    (o : Outcome)
    → fold_from x n board log ≡ ok final
    → outcome board brief ≡ some o
    → outcome final brief ≡ some o
unfolding outcome
fold_from-outcome x n board log final brief o h p = elim (Option-cases (closer_of board brief)) [
  | inl never ↦ absurd (ground arith)
  | inr (c, closed) ↦ elim (Option-cases (get board c)) [
    | inl gone ↦ absurd (ground arith)
    | inr (e, there) ↦
        let kept = fold_from-closer_of x n board log final brief c h closed in
        let still = fold_from-get x n board log final c e h there in ground arith
  ]
]

settled_outcome :
    (o : Option Outcome) (asks acks : Bool)
    → is_settled (state_of o asks acks) ≡ true
    → (r : Outcome) × (o ≡ some r)
settled_outcome none asks acks h = absurd (ground arith)
settled_outcome (some r) asks acks h = (r, refl)

state_some : (r : Outcome) (a b c d : Bool) → state_of (some r) a b ≡ state_of (some r) c d
state_some Outcome.completed a b c d = refl
state_some Outcome.failed a b c d = refl

-- A settled attempt stays as it is: once the view of a brief shows it completed or failed, the board
-- that any more of the log folds to still has a view of the brief, in the same state.
pub fold_from-attempt :
    (x : Externs) (n : ℕ) (board : Board) (log : List LogEntry) (final : Board) (brief : ContentId)
    (v : AttemptView)
    → fold_from x n board log ≡ ok final
    → attempt board brief ≡ some v
    → is_settled v.state ≡ true
    → (w : AttemptView) × (attempt final brief ≡ some w) × (w.state ≡ v.state)
unfolding attempt
fold_from-attempt x n board log final brief v h p s = elim (Option-cases (get board brief)) [
  | inl gone ↦ absurd (ground arith)
  | inr (e, there) ↦ elim (Option-cases (lane_of_brief e.event.body)) [
    | inl other ↦ absurd (ground arith)
    | inr (lane, is_brief) ↦
        let asks = input_requested board brief in
        let acks = acked board brief in
        let state : v.state ≡ state_of (outcome board brief) asks acks = ground arith in
        let (r, closed) = settled_outcome (outcome board brief) asks acks (ground arith) in
        let kept = fold_from-outcome x n board log final brief r h closed in
        let still = fold_from-get x n board log final brief e h there in
        let same = state_some r (input_requested final brief) (acked final brief) asks acks in
        (
          view_of final brief lane,
          rw still (rw is_brief refl),
          ground (arith, same, kept, closed, state),
        )
  ]
]
