-- ===== src/Server/Sessions/Filed.antt =====
-- sessions.rs: the certificates of the table, by id.
use agent_mesh.Common.{
  ℕ, ◌≡◌, some, ==_iff, arith, nat_eq, string_eq, contains, ok, Option-cases, Bool-cases, inl, inr,
}
use agent_mesh.Common.Maps
use agent_mesh.Protocol.Certs.{CertChain}
use agent_mesh.Flock.Event.{ContentId, Event, Body}
use agent_mesh.Server.Errors.{Crates}
use agent_mesh.Server.Sessions
use agent_mesh.Server.Sessions.{Sessions, cert_of, session_of}
use agent_mesh.Server.Sessions.Observe.{observe, observe_body, modify, end_session}

-- Each certificate of the table stands under its own id.
pub record IsFiled (x : Crates) (s : Sessions) : Type 0 where
  pub files : (id : ContentId) (c : CertChain) → cert_of s id ≡ some c → x.cert_id c ≡ some id

alike : {x : Crates} {s s' : Sessions} → IsFiled x s → s'.chains ≡ s.chains → IsFiled x s'
alike {x} {s} {s'} filed same = record { files = λ id c. λ at. ground (arith, filed.files id c) }

insert-IsFiled :
    (x : Crates) (s s' : Sessions) (cid : ContentId) (c : CertChain)
    → IsFiled x s
    → x.cert_id c ≡ some cid
    → s'.chains ≡ Maps.insert s.chains cid c
    → IsFiled x s'
insert-IsFiled x s s' cid c filed named is = record {
  files = λ id d.
      λ at. ground (arith, filed.files id d, Maps.get-insert s.chains cid c id, ==_iff cid id);
}

body-IsFiled :
    (x : Crates) (s s' : Sessions) (id : ContentId) (ev : Event) (epoch : ℕ) (body : Body)
    → IsFiled x s
    → observe_body x s id ev epoch body ≡ ok s'
    → IsFiled x s'
body-IsFiled x s s' id ev epoch (Body.roster ms f) filed done = alike filed (ground arith)
body-IsFiled x s s' id ev epoch (Body.brief a b) filed done = alike filed (ground arith)
body-IsFiled x s s' id ev epoch (Body.review a b c) filed done = alike filed (ground arith)
body-IsFiled x s s' id ev epoch Body.ack filed done = alike filed (ground arith)
body-IsFiled x s s' id ev epoch (Body.result o) filed done = alike filed (ground arith)
body-IsFiled x s s' id ev epoch (Body.verdict a b) filed done = alike filed (ground arith)
body-IsFiled x s s' id ev epoch (Body.job a b) filed done = alike filed (ground arith)
body-IsFiled x s s' id ev epoch (Body.job_end a b) filed done = alike filed (ground arith)
body-IsFiled x s s' id ev epoch (Body.ask a b) filed done = alike filed (ground arith)
body-IsFiled x s s' id ev epoch (Body.answer a) filed done = alike filed (ground arith)
body-IsFiled x s s' id ev epoch (Body.relayed_answer a) filed done = alike filed (ground arith)
body-IsFiled x s s' id ev epoch (Body.status a) filed done = alike filed (ground arith)
body-IsFiled x s s' id ev epoch (Body.nudged a) filed done = alike filed (ground arith)
body-IsFiled x s s' id ev epoch (Body.nudge_misfire a b c) filed done = alike filed (ground arith)
body-IsFiled x s s' id ev epoch (Body.pane a b) filed done = alike filed (ground arith)
body-IsFiled x s s' id ev epoch (Body.epoch e) filed done = alike filed (ground arith)
body-IsFiled x s s' id ev epoch (Body.invite m v) filed done = alike filed (ground arith)
body-IsFiled x s s' id ev epoch (Body.session_end t reason) filed done = alike filed (ground arith)
body-IsFiled x s s' id ev epoch (Body.session_start member session c) filed done =
    elim (Option-cases (x.cert_id c)) [
      | inl bad ↦ absurd (ground arith)
      | inr (cid, named) ↦ elim (Bool-cases (contains s.seen member)) [
        | inl seen ↦ insert-IsFiled x s s' cid c filed named (ground arith)
        | inr unseen ↦ insert-IsFiled x s s' cid c filed named (ground arith)
      ]
    ]
body-IsFiled x s s' id ev epoch (Body.handoff from to resume context approval sig) filed done =
    elim (Option-cases (x.approval_id approval)) [
      | inl bad ↦ absurd (ground arith)
      | inr (ap_id, named) ↦
          elim (Option-cases (Maps.get (modify s.sessions from end_session) to)) [
            | inl gone ↦ alike filed (ground arith)
            | inr (t, there) ↦ alike filed (ground arith)
          ]
    ]
body-IsFiled x s s' id ev epoch (Body.device_cert c) filed done =
    elim (Option-cases (x.cert_id c)) [
      | inl bad ↦ absurd (ground arith)
      | inr (cid, named) ↦ insert-IsFiled x s s' cid c filed named (ground arith)
    ]
body-IsFiled x s s' id ev epoch (Body.renewal session e c) filed done =
    elim (Option-cases (session_of s session)) [
      | inl gone ↦ alike filed (ground arith)
      | inr (old, there) ↦ elim (Option-cases (x.cert_id c)) [
        | inl bad ↦ absurd (ground arith)
        | inr (cid, named) ↦ insert-IsFiled x s s' cid c filed named (ground arith)
      ]
    ]

pub observe-IsFiled :
    (x : Crates) (s s' : Sessions) (id : ContentId) (ev : Event) (epoch : ℕ)
    → IsFiled x s
    → observe x s id ev epoch ≡ ok s'
    → IsFiled x s'
unfolding observe
observe-IsFiled x s s' id ev epoch filed done = body-IsFiled x s s' id ev epoch ev.body filed done

pub default-IsFiled : (x : Crates) → IsFiled x Sessions.default
unfolding Maps.get
default-IsFiled x = record { files = λ id c. λ at. ground arith }
