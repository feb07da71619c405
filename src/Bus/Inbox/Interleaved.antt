-- ===== src/Bus/Inbox/Interleaved.antt =====
-- inbox.rs and bus.rs: what reaches the application when calls of `on_envelope` interleave.
use agent_mesh.Common.{
  Result-cases, Option-cases, ℕ, zero, suc, ◌≤◌, ◌<◌, ◌+◌, ◌≡◌, refl, subst, Bool, true, false,
  ◌&&◌, List, [], ◌∷◌, ◌++◌, arith, ◌==◌, ==_iff, ltb, leb, nat_eq, contains, if◌then◌else◌,
  Bool-cases, inl, inr, sym,
}
use agent_mesh.Common.Maps
use agent_mesh.Protocol.Envelope.{SignedEnvelope}
use agent_mesh.Bus.Replay.Nonces.{check_and_insert}
use agent_mesh.Bus.Replay.Tracker.{Fingerprint, SequenceTracker, check_and_advance, mark}
use agent_mesh.Bus.Inbox.{
  Inbox, Crates, DeliveryProvenance, sender_agent_fp, admit, foreign_reply, dispatch,
}
use agent_mesh.Bus.Inbox.Once.{Admitted, admit-Admitted, dispatch-sequence}
use agent_mesh.Bus.Inbox.Tasks.{
  Stage, arrived, vetted, unseen, counted, finished, advance, Task, turn, give, Accepting, spawn,
  step, reconfigure, Reaches, start, later,
}

abbrev pub one : Bool → ℕ
one true = 1
one false = 0

-- The sequence lies above the one mark, and not above the other.
abbrev between : ℕ → ℕ → ℕ → ℕ
between low seq high = one (ltb low seq && leb seq high)

-- The task's envelope passed the sequence check, and is not handed out yet.
abbrev unsent : Stage → Bool
unsent (counted ctx) = true
unsent _ = false

mark-insert :
    (tracker : SequenceTracker) (sender peer : Fingerprint) (seq : ℕ)
    → mark (Maps.insert tracker sender seq) peer
      ≡ (if sender == peer then seq else mark tracker peer)
mark-insert tracker sender peer seq = ground (arith, Maps.get-insert tracker sender seq peer)

module _ (x : Crates) where
  abbrev pub is_from : Fingerprint → ℕ → SignedEnvelope → Bool
  is_from peer seq env = (sender_agent_fp x env) == peer && env.sequence == seq

  -- How many of the envelopes have this sender and sequence.
  abbrev pub times : Fingerprint → ℕ → List SignedEnvelope → ℕ
  times peer seq [] = 0
  times peer seq (env ∷ rest) = one (is_from peer seq env) + times peer seq rest

  times-append :
      (peer : Fingerprint) (seq : ℕ) (xs ys : List SignedEnvelope)
      → times peer seq (xs ++ ys) ≡ times peer seq xs + times peer seq ys
  times-append peer seq [] ys = omega arith
  times-append peer seq (env ∷ xs) ys = ground (arith, times-append peer seq xs ys)

  -- How many of the tasks hold such an envelope, past the sequence check and not handed out.
  abbrev pending : Fingerprint → ℕ → List Task → ℕ
  pending peer seq [] = 0
  pending peer seq (t ∷ ts) = one (unsent t.stage && is_from peer seq t.env) + pending peer seq ts

module _ (x : Crates) (lu la : Fingerprint) where
  -- A call past `admit` holds the context that `admit` made of its envelope.
  abbrev Vetted : SignedEnvelope → DeliveryProvenance → Stage → Type 0
  Vetted env provenance arrived = Unit {0}
  Vetted env provenance (vetted ctx) = Admitted x env provenance lu la ctx
  Vetted env provenance (unseen ctx) = Admitted x env provenance lu la ctx
  Vetted env provenance (counted ctx) = Admitted x env provenance lu la ctx
  Vetted env provenance (finished r) = Unit {0}

  abbrev AllVetted : List Task → Type 0
  AllVetted [] = Unit {0}
  AllVetted (t ∷ ts) = Vetted t.env t.provenance t.stage × AllVetted ts

  -- The first step.
  advance_first :
      (box : Inbox) (env : SignedEnvelope) (provenance : DeliveryProvenance)
      → Vetted env provenance (advance x lu la box env provenance arrived).1
        × (unsent (advance x lu la box env provenance arrived).1 ≡ false)
  unfolding advance
  advance_first box env provenance = elim (Result-cases (admit x env provenance lu la)) [
    | inr (e, bad) ↦ rw bad (tt, refl)
    | inl (ctx, good) ↦
        elim (Bool-cases (foreign_reply box ctx.caller_agent_fp (x.from_slice env.payload))) [
          | inl foreign ↦ rw good (rw foreign (tt, refl))
          | inr known ↦
              let passed = admit-Admitted x env provenance lu la ctx good in
              rw good (rw known (passed, refl))
        ]
  ]

  module _ (peer : Fingerprint) (seq low : ℕ) where
    -- The marks have not sunk below where they began; and the envelopes of this sender and sequence
    -- that are past the sequence check, handed out or not, are one at most, and none unless the
    -- sequence lies between where the sender's mark began and where it is.
    abbrev Bounded : SequenceTracker → ℕ → Type 0
    Bounded tracker n = (low ≤ mark tracker peer) × (n ≤ between low seq (mark tracker peer))

    insert-Bounded :
        (tracker : SequenceTracker) (env : SignedEnvelope) (n : ℕ)
        → mark tracker (sender_agent_fp x env) < env.sequence
        → Bounded tracker n
        → Bounded
            (Maps.insert tracker (sender_agent_fp x env) env.sequence)
            (one (is_from x peer seq env) + n)
    insert-Bounded tracker env n ahead (begun, few) =
        let sender = sender_agent_fp x env in
        let moved = mark-insert tracker sender peer env.sequence in
        elim (Bool-cases (sender == peer)) [
          | inr other ↦ ground (arith, other, begun, few, moved)
          | inl same ↦
              let here : mark tracker peer < env.sequence =
                subst (λ a. mark tracker a < env.sequence) (ground (arith, ==_iff sender peer))
                  ahead in
              elim (Bool-cases (env.sequence == seq)) [
                | inl this ↦
                    ground (arith, same, begun, few, moved, here, this, ==_iff env.sequence seq)
                | inr else_ ↦ ground (arith, same, begun, few, moved, here, else_)
              ]
        ]

    -- What a step of one call keeps, with `n` envelopes past the check elsewhere.
    Advanced : ℕ → Inbox → SignedEnvelope → DeliveryProvenance → Stage → Type 0
    Advanced n box env provenance stage =
        let (after, next, effect) = advance x lu la box env provenance stage in
        Vetted env provenance next
        × Bounded after.sequence
            (one (unsent next && is_from x peer seq env) + (times x peer seq (give env effect) + n))

    advance-Advanced :
        (n : ℕ) (box : Inbox) (env : SignedEnvelope) (provenance : DeliveryProvenance)
        (stage : Stage)
        → Vetted env provenance stage
        → Bounded box.sequence (one (unsent stage && is_from x peer seq env) + n)
        → Advanced n box env provenance stage
    unfolding Advanced advance check_and_insert check_and_advance
    advance-Advanced n box env provenance arrived v b =
        let (passed, none_due) = advance_first box env provenance in
        (passed, ground (arith, none_due, b))
    advance-Advanced n box env provenance (vetted ctx) v b =
        elim (Bool-cases (contains box.nonce_cache.seen env.nonce)) [
          | inl old ↦ rw old (tt, ground (arith, b))
          | inr new ↦ rw new (v, ground (arith, b))
        ]
    advance-Advanced n box env provenance (unseen ctx) v b =
        elim (Bool-cases (ltb (mark box.sequence ctx.caller_agent_fp) env.sequence)) [
          | inl ahead ↦
              let kept =
                insert-Bounded box.sequence env (0 + n)
                  (subst (λ a. mark box.sequence a < env.sequence) v.agent (ground arith)) b in
              rw ahead (
                v,
                subst
                    (λ a.
                      Bounded (Maps.insert box.sequence a env.sequence)
                        (one (is_from x peer seq env) + (0 + n)))
                    (sym v.agent) kept,
              )
          | inr behind ↦ rw behind (tt, ground (arith, b))
        ]
    advance-Advanced n box env provenance (counted ctx) v b =
        let message = x.from_slice env.payload in
        let still = dispatch-sequence x box ctx message in
        elim (Option-cases (dispatch x box ctx message).2) [
          | inl quiet ↦ (tt, ground (arith, still, quiet, b))
          | inr (effect, out) ↦ (tt, ground (arith, still, out, b))
        ]
    advance-Advanced n box env provenance (finished r) v b = (tt, ground (arith, b))

    turn-Bounded :
        (n : ℕ) (box : Inbox) (tasks : List Task) (i : ℕ)
        → AllVetted tasks
        → Bounded box.sequence (pending x peer seq tasks + n)
        → AllVetted (turn x lu la box tasks i).1
          × Bounded (turn x lu la box tasks i).0.sequence (
              pending x peer seq (turn x lu la box tasks i).1
              + (times x peer seq (turn x lu la box tasks i).2 + n))
    unfolding turn Advanced
    turn-Bounded n box [] i v b = (tt, ground (arith, b))
    turn-Bounded n box (t ∷ ts) zero (v, vs) b =
        let (passed, (begun, few)) =
          advance-Advanced (pending x peer seq ts + n) box t.env t.provenance t.stage v
            (ground (arith, b)) in
        ((passed, vs), (begun, omega arith))
    turn-Bounded n box (t ∷ ts) (suc i) (v, vs) b =
        let due = one (unsent t.stage && is_from x peer seq t.env) in
        let (passed, (begun, few)) = turn-Bounded (due + n) box ts i vs (ground (arith, b)) in
        ((v, passed), (begun, omega arith))

    reaches-Bounded :
        (box : Inbox) (s : Accepting)
        → mark box.sequence peer ≡ low
        → Reaches x lu la box s
        → AllVetted s.tasks
          × Bounded s.box.sequence (pending x peer seq s.tasks + times x peer seq s.handed)
    reaches-Bounded box _ from start = (tt, (omega arith, omega arith))
    reaches-Bounded box _ from (later {s} r (spawn env provenance)) =
        let (v, b) = reaches-Bounded box s from r in ((tt, v), ground (arith, b))
    reaches-Bounded box _ from (later {s} r (step i)) =
        let (v, b) = reaches-Bounded box s from r in
        let (passed, (begun, few)) = turn-Bounded (times x peer seq s.handed) s.box s.tasks i v b in
        (
          passed,
          (
            begun,
            ground (arith, few, times-append x peer seq (turn x lu la s.box s.tasks i).2 s.handed),
          ),
        )
    reaches-Bounded box _ from (later {s} r (reconfigure waiters subscriptions handlers)) =
        reaches-Bounded box s from r

  -- No replay, however the calls of `on_envelope` interleave: in a state reached from an inbox by
  -- spawning a task for each envelope that arrives, by steps of the tasks in any order, and by
  -- whatever the application registers in between, the envelopes of a peer with a sequence that were
  -- handed to the application are one at most, and none if the sequence is not above the peer's mark
  -- at the start. Nothing is said of the order in which envelopes are handed out.
  pub handed_once :
      (peer : Fingerprint) (seq : ℕ) (box : Inbox) (s : Accepting)
      → Reaches x lu la box s
      → times x peer seq s.handed ≤ one (ltb (mark box.sequence peer) seq)
  handed_once peer seq box s r =
      let (v, (begun, few)) = reaches-Bounded peer seq (mark box.sequence peer) box s refl r in
      ground (arith, few)
