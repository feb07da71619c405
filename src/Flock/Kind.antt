-- ===== src/Flock/Kind.antt =====
-- agent-mesh-flock/src/event.rs: `Kind`, what an event is. Its derived `==` compares the variants.
use agent_mesh.Common.{
  ℕ, ◌≡◌, refl, sym, ap, ◌∙◌, ◌↔◌, Bool, true, false, ◌==◌, ==_iff, Eq, if◌then◌else◌,
}

pub data Kind : Type 0 where
  roster brief review ack result verdict job job_end ask answer relayed_answer status nudged
        nudge_misfire pane epoch renewal session_start device_cert session_end handoff invite :
      Kind

-- The place of a variant in its declaration.
abbrev pub rank : Kind → ℕ
rank Kind.roster = 0
rank Kind.brief = 1
rank Kind.review = 2
rank Kind.ack = 3
rank Kind.result = 4
rank Kind.verdict = 5
rank Kind.job = 6
rank Kind.job_end = 7
rank Kind.ask = 8
rank Kind.answer = 9
rank Kind.relayed_answer = 10
rank Kind.status = 11
rank Kind.nudged = 12
rank Kind.nudge_misfire = 13
rank Kind.pane = 14
rank Kind.epoch = 15
rank Kind.renewal = 16
rank Kind.session_start = 17
rank Kind.device_cert = 18
rank Kind.session_end = 19
rank Kind.handoff = 20
rank Kind.invite = 21

-- The variant at a place.
of_rank : ℕ → Kind
of_rank n =
    if n == 0
    then Kind.roster
    else if n == 1
    then Kind.brief
    else if n == 2
    then Kind.review
    else if n == 3
    then Kind.ack
    else if n == 4
    then Kind.result
    else if n == 5
    then Kind.verdict
    else if n == 6
    then Kind.job
    else if n == 7
    then Kind.job_end
    else if n == 8
    then Kind.ask
    else if n == 9
    then Kind.answer
    else if n == 10
    then Kind.relayed_answer
    else if n == 11
    then Kind.status
    else if n == 12
    then Kind.nudged
    else if n == 13
    then Kind.nudge_misfire
    else if n == 14
    then Kind.pane
    else if n == 15
    then Kind.epoch
    else if n == 16
    then Kind.renewal
    else if n == 17
    then Kind.session_start
    else if n == 18
    then Kind.device_cert
    else if n == 19
    then Kind.session_end
    else if n == 20
    then Kind.handoff
    else Kind.invite

of_rank-rank : (k : Kind) → of_rank (rank k) ≡ k
unfolding of_rank
of_rank-rank Kind.roster = refl
of_rank-rank Kind.brief = refl
of_rank-rank Kind.review = refl
of_rank-rank Kind.ack = refl
of_rank-rank Kind.result = refl
of_rank-rank Kind.verdict = refl
of_rank-rank Kind.job = refl
of_rank-rank Kind.job_end = refl
of_rank-rank Kind.ask = refl
of_rank-rank Kind.answer = refl
of_rank-rank Kind.relayed_answer = refl
of_rank-rank Kind.status = refl
of_rank-rank Kind.nudged = refl
of_rank-rank Kind.nudge_misfire = refl
of_rank-rank Kind.pane = refl
of_rank-rank Kind.epoch = refl
of_rank-rank Kind.renewal = refl
of_rank-rank Kind.session_start = refl
of_rank-rank Kind.device_cert = refl
of_rank-rank Kind.session_end = refl
of_rank-rank Kind.handoff = refl
of_rank-rank Kind.invite = refl

pub Kind-eq_iff : (a b : Kind) → ((rank a == rank b) ≡ true) ↔ (a ≡ b)
Kind-eq_iff a b = (
  (λ h. sym (of_rank-rank a) ∙ ap of_rank ((==_iff (rank a) (rank b)).0 h) ∙ of_rank-rank b),
  (λ e. (==_iff (rank a) (rank b)).1 (ap rank e)),
)

instance abbrev pub kind_eq : Eq Kind
kind_eq = record { beq = λ a b. rank a == rank b; beq_iff = Kind-eq_iff }

-- `is_server_kind` of admission.rs: the server's bookkeeping.
abbrev pub is_server_kind : Kind → Bool
is_server_kind Kind.roster = false
is_server_kind Kind.brief = false
is_server_kind Kind.review = false
is_server_kind Kind.ack = false
is_server_kind Kind.result = false
is_server_kind Kind.verdict = false
is_server_kind Kind.job = false
is_server_kind Kind.job_end = false
is_server_kind Kind.ask = false
is_server_kind Kind.answer = false
is_server_kind Kind.relayed_answer = false
is_server_kind Kind.status = false
is_server_kind Kind.nudged = false
is_server_kind Kind.nudge_misfire = false
is_server_kind Kind.pane = false
is_server_kind Kind.epoch = true
is_server_kind Kind.renewal = true
is_server_kind Kind.session_start = true
is_server_kind Kind.device_cert = true
is_server_kind Kind.session_end = true
is_server_kind Kind.handoff = true
is_server_kind Kind.invite = true
