-- ===== src/Bus/Inbox/Tasks.antt =====
-- inbox.rs and bus.rs: calls of `on_envelope` that interleave. The accept loop of bus.rs spawns one task
-- for each envelope, and `on_envelope` gives every lock back before it takes the next: a step of a task
-- goes from one access to what the tasks share to the next. A task whose envelope opens a session does
-- not call `on_envelope`, and is left out.
use agent_mesh.Common.{
  ℕ, zero, suc, String, ◌≡◌, Option, none, some, List, [], ◌∷◌, if◌then◌else◌, Result, ok, err,
  Result-cases, Bool-cases, inl, inr, contains, ltb, nat_eq, refl, ◌++◌,
}
use agent_mesh.Common.Maps.{Map}
use agent_mesh.Protocol.Envelope.{SignedEnvelope}
use agent_mesh.Bus.Replay.Nonces.{check_and_insert}
use agent_mesh.Bus.Replay.Tracker.{Fingerprint, SequenceTracker, check_and_advance, mark}
use agent_mesh.Bus.Reply.{ReplyWaiter}
use agent_mesh.Bus.Inbox.{
  Inbox, Crates, DeliveryProvenance, RequestContext, RequestHandler, OutgoingReply, BusError,
  replay, bad_sequence, Effect, Outcome, admit, foreign_reply, replay_checked, dispatch,
  on_envelope,
}

-- How far a task's call of `on_envelope` is: before anything, past `admit` and the check of a reply,
-- past the nonce check, past the sequence check, and done.
pub data Stage : Type 0 where
  arrived : Stage
  vetted unseen counted : RequestContext → Stage
  finished : Result BusError (Option OutgoingReply) → Stage

pub record Task : Type 0 where
  pub env : SignedEnvelope
  pub provenance : DeliveryProvenance
  pub stage : Stage

-- The inbox, the tasks that the accept loop has spawned, the latest first, and the envelopes handed to
-- the application, the latest first.
pub record Accepting : Type 0 where
  pub box : Inbox
  pub tasks : List Task
  pub handed : List SignedEnvelope

abbrev pub accepting : Inbox → Accepting
accepting box = record { box = box; tasks = []; handed = [] }

abbrev pub spawned : Accepting → SignedEnvelope → DeliveryProvenance → Accepting
spawned s env provenance = record s {
  tasks = record { env = env; provenance = provenance; stage = arrived } ∷ s.tasks;
}

abbrev pub give : SignedEnvelope → Option Effect → List SignedEnvelope
give env none = []
give env (some effect) = env ∷ []

module _ (x : Crates) (local_user_fp local_agent_fp : Fingerprint) where
  abbrev vetting : Inbox → SignedEnvelope → Result BusError RequestContext → Stage
  vetting box env (err e) = finished (err e)
  vetting box env (ok ctx) =
      if foreign_reply box ctx.caller_agent_fp (x.from_slice env.payload)
      then finished (ok none)
      else vetted ctx

  abbrev counting :
      Inbox
      → RequestContext
      → SequenceTracker × Result (ℕ × ℕ) (Unit {0})
      → Inbox × Stage × Option Effect
  counting box ctx (tracker, ok t) = (record box { sequence = tracker }, counted ctx, none)
  counting box ctx (tracker, err (wanted, actual)) = (
    record box { sequence = tracker },
    finished (err (bad_sequence ctx.caller_agent_fp wanted actual)),
    none,
  )

  abbrev finishing : Outcome → Inbox × Stage × Option Effect
  finishing (box, result, effect) = (box, finished result, effect)

  -- One step of a call: the inbox it leaves, the stage it comes to, and what it hands out.
  unfoldable pub advance :
      Inbox → SignedEnvelope → DeliveryProvenance → Stage → Inbox × Stage × Option Effect
  advance box env provenance arrived =
      (box, vetting box env (admit x env provenance local_user_fp local_agent_fp), none)
  advance box env provenance (vetted ctx) =
      let (nonces, fresh) = check_and_insert box.nonce_cache env.nonce in
      (
        record box { nonce_cache = nonces },
        if fresh then unseen ctx else finished (err replay),
        none,
      )
  advance box env provenance (unseen ctx) =
      counting box ctx (check_and_advance box.sequence ctx.caller_agent_fp env.sequence)
  advance box env provenance (counted ctx) =
      finishing (dispatch x box ctx (x.from_slice env.payload))
  advance box env provenance (finished result) = (box, finished result, none)

  -- The steps that are left of a call that nothing interrupts.
  abbrev after_step :
      SignedEnvelope
      → DeliveryProvenance
      → Inbox × Stage × Option Effect
      → Inbox × Stage × Option Effect
  after_step env provenance (box, finished result, effect) = (box, finished result, effect)
  after_step env provenance (box, stage, effect) = advance box env provenance stage

  -- A call that nothing interrupts is `on_envelope`.
  pub advance-on_envelope :
      (box : Inbox) (env : SignedEnvelope) (provenance : DeliveryProvenance)
      → after_step env provenance (
          after_step env provenance
            (after_step env provenance (advance box env provenance arrived)))
        ≡ finishing (on_envelope x box env provenance local_user_fp local_agent_fp)
  unfolding advance on_envelope replay_checked check_and_insert check_and_advance
  advance-on_envelope box env provenance =
      elim (Result-cases (admit x env provenance local_user_fp local_agent_fp)) [
        | inr (e, bad) ↦ rw bad refl
        | inl (ctx, good) ↦
            let peer = ctx.caller_agent_fp in
            elim (Bool-cases (foreign_reply box peer (x.from_slice env.payload))) [
              | inl foreign ↦ rw good (rw foreign refl)
              | inr known ↦ elim (Bool-cases (contains box.nonce_cache.seen env.nonce)) [
                | inl old ↦ rw good (rw known (rw old refl))
                | inr new ↦ elim (Bool-cases (ltb (mark box.sequence peer) env.sequence)) [
                  | inl ahead ↦ rw good (rw known (rw new (rw ahead refl)))
                  | inr behind ↦ rw good (rw known (rw new (rw behind refl)))
                ]
              ]
            ]
      ]

  -- The turn of the task at a position: the inbox, the tasks, and the envelope that was handed out.
  unfoldable pub turn : Inbox → List Task → ℕ → Inbox × List Task × List SignedEnvelope
  turn box [] i = (box, [], [])
  turn box (t ∷ ts) zero =
      let (after, stage, effect) = advance box t.env t.provenance t.stage in
      (after, record t { stage = stage } ∷ ts, give t.env effect)
  turn box (t ∷ ts) (suc i) = let (after, later, given) = turn box ts i in (after, t ∷ later, given)

  abbrev pub stepped : Accepting → ℕ → Accepting
  stepped s i =
      let (box, tasks, given) = turn s.box s.tasks i in
      record { box = box; tasks = tasks; handed = given ++ s.handed }

  -- An envelope arrives, a task makes a step, or the application changes what it waits for, subscribes
  -- to or handles. A task that is aborted makes no further step.
  pub data Step (s : Accepting) : Accepting → Type 0 where
    spawn :
        (env : SignedEnvelope) (provenance : DeliveryProvenance) → Step s (spawned s env provenance)
    step : (i : ℕ) → Step s (stepped s i)
    reconfigure :
        (waiters : ReplyWaiter) (subscriptions : List String) (handlers : Map String RequestHandler)
        → Step s (record s {
          box = record s.box {
            waiters = waiters;
            subscriptions = subscriptions;
            handlers = handlers;
          };
        })

  pub data Reaches (box : Inbox) : Accepting → Type 0 where
    start : Reaches box (accepting box)
    later : {s t : Accepting} → Reaches box s → Step s t → Reaches box t
