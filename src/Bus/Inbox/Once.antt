-- ===== src/Bus/Inbox/Once.antt =====
-- inbox.rs: what reaches the application from one call of `on_envelope`.
use agent_mesh.Common.{
  Result-cases, ◌<◌, String, ◌≡◌, refl, subst, Bool, true, false, ◌&&◌, none, arith, ◌==◌, ==_iff,
  ltb, nat_eq, contains, Result, ok, err, is_some, Bool-cases, ◌⊎◌, inl, inr,
}
use agent_mesh.Common.Maps
use agent_mesh.Bus.Replay.Nonces.{check_and_insert}
use agent_mesh.Bus.Replay.Tracker.{Fingerprint, check_and_advance, mark}
use agent_mesh.Protocol.Envelope.{SignedEnvelope, Recipient, direct, topic, anycast}
use agent_mesh.Bus.Inbox.{
  verify_envelope, sender_agent_fp, sender_user_fp, Inbox, Crates, DeliveryProvenance, direct_from,
  unbound, RequestContext, BusMessage, request, reply, publish, Outcome, admit, on_envelope,
  accepted, replay_checked, dispatch, dispatch_request, foreign_reply, check_recipient,
}

-- Whether an envelope may be taken by the agent.
abbrev pub reaches : Recipient → Fingerprint → Bool
reaches (direct agent_fp) local = agent_fp == local
reaches _ local = true

abbrev pub carried_by : Crates → DeliveryProvenance → SignedEnvelope → Bool
carried_by x (direct_from c) env =
    c.agent_fp == (sender_agent_fp x env) && c.user_fp == (sender_user_fp x env)
carried_by x unbound env = false

-- What admission establishes.
pub record Admitted (x : Crates) (env : SignedEnvelope) (provenance : DeliveryProvenance)
    (local_user_fp local_agent_fp : Fingerprint) (ctx : RequestContext) : Type 0 where
  pub verified : verify_envelope x env ≡ ok tt
  pub carried : carried_by x provenance env ≡ true
  pub same_user : (sender_user_fp x env) ≡ local_user_fp
  pub for_us : reaches env.recipient local_agent_fp ≡ true
  pub agent : ctx.caller_agent_fp ≡ (sender_agent_fp x env)
  pub user : ctx.caller_user_fp ≡ (sender_user_fp x env)

check_recipient-reaches :
    (to : Recipient) (local : Fingerprint)
    → check_recipient to local ≡ ok tt
    → reaches to local ≡ true
check_recipient-reaches (direct f) local h = ground arith
check_recipient-reaches (topic f) local h = refl
check_recipient-reaches (anycast f) local h = refl

pub admit-Admitted :
    (x : Crates) (env : SignedEnvelope) (provenance : DeliveryProvenance) (lu la : Fingerprint)
    (ctx : RequestContext)
    → admit x env provenance lu la ≡ ok ctx
    → Admitted x env provenance lu la ctx
unfolding admit
admit-Admitted x env unbound lu la ctx h = elim (Result-cases (verify_envelope x env)) [
  | inl (t, good) ↦ absurd (ground arith)
  | inr (e, bad) ↦ absurd (ground arith)
]
admit-Admitted x env (direct_from c) lu la ctx h = elim (Result-cases (verify_envelope x env)) [
  | inl (tt, good) ↦ elim (Result-cases (check_recipient env.recipient la)) [
    | inl (tt, to) ↦ record {
      verified = good;
      carried = ground arith;
      same_user = ground (arith, ==_iff (sender_user_fp x env) lu);
      for_us = check_recipient-reaches env.recipient la to;
      agent = ground arith;
      user = ground arith;
    }
    | inr (e, bad) ↦ absurd (ground arith)
  ]
  | inr (e, bad) ↦ absurd (ground arith)
]

-- What holds of an envelope that passed every check.
pub record Passed (x : Crates) (box : Inbox) (env : SignedEnvelope)
    (provenance : DeliveryProvenance) (local_user_fp local_agent_fp : Fingerprint) : Type 0 where
  pub ctx : RequestContext
  pub admitted : Admitted x env provenance local_user_fp local_agent_fp ctx
  pub fresh : contains box.nonce_cache.seen env.nonce ≡ false
  pub ahead : mark box.sequence (sender_agent_fp x env) < env.sequence

pub dispatch-sequence :
    (x : Crates) (box : Inbox) (ctx : RequestContext) (m : Result String BusMessage)
    → (dispatch x box ctx m).0.sequence ≡ box.sequence
unfolding dispatch dispatch_request
dispatch-sequence x box ctx (err e) = refl
dispatch-sequence x box ctx (ok (request wire id body)) = ground arith
dispatch-sequence x box ctx (ok (reply id body)) = refl
dispatch-sequence x box ctx (ok (publish wire body)) = refl

-- The two ways a call goes: nothing is handed out and no mark moves, or the envelope is ahead of its
-- sender's mark, with a fresh nonce, and becomes the mark.
pub Went : Inbox → SignedEnvelope → Fingerprint → Outcome → Type 0
Went box env peer out =
    ((out.2 ≡ none) × (out.0.sequence ≡ box.sequence))
    ⊎ ((contains box.nonce_cache.seen env.nonce ≡ false)
        × (mark box.sequence peer < env.sequence)
        × (out.0.sequence ≡ Maps.insert box.sequence peer env.sequence))

replay_checked-Went :
    (x : Crates) (box : Inbox) (ctx : RequestContext) (env : SignedEnvelope)
    (m : Result String BusMessage)
    → Went box env ctx.caller_agent_fp (replay_checked x box ctx env m)
unfolding Went replay_checked check_and_insert check_and_advance
replay_checked-Went x box ctx env m = elim (Bool-cases (contains box.nonce_cache.seen env.nonce)) [
  | inl old ↦ inl (ground arith, ground arith)
  | inr new ↦ elim (Bool-cases (ltb (mark box.sequence ctx.caller_agent_fp) env.sequence)) [
    | inl ahead ↦ inr (new, ground arith, rw new (rw ahead (dispatch-sequence x _ ctx m)))
    | inr behind ↦ inl (ground arith, ground arith)
  ]
]

accepted-Went :
    (x : Crates) (box : Inbox) (ctx : RequestContext) (env : SignedEnvelope)
    (m : Result String BusMessage)
    → Went box env ctx.caller_agent_fp (accepted x box env m (ok ctx))
unfolding Went
accepted-Went x box ctx env m = elim (Bool-cases (foreign_reply box ctx.caller_agent_fp m)) [
  | inl foreign ↦ rw foreign (inl (refl, refl))
  | inr known ↦ rw known (replay_checked-Went x box ctx env m)
]

on_envelope-Went :
    (x : Crates) (box : Inbox) (env : SignedEnvelope) (provenance : DeliveryProvenance)
    (lu la : Fingerprint)
    → (((on_envelope x box env provenance lu la).2 ≡ none)
        × ((on_envelope x box env provenance lu la).0.sequence ≡ box.sequence))
      ⊎ (Passed x box env provenance lu la
          × ((on_envelope x box env provenance lu la).0.sequence
              ≡ Maps.insert box.sequence (sender_agent_fp x env) env.sequence))
unfolding on_envelope Went
on_envelope-Went x box env provenance lu la = elim (Result-cases (admit x env provenance lu la)) [
  | inr (e, bad) ↦ inl (ground arith, ground arith)
  | inl (ctx, good) ↦
      let adm = admit-Admitted x env provenance lu la ctx good in
      elim (accepted-Went x box ctx env (x.from_slice env.payload)) [
        | inl (quiet, still) ↦ inl (ground arith, ground arith)
        | inr (fresh, ahead, moves) ↦ inr (
          record {
            ctx = ctx;
            admitted = adm;
            fresh = fresh;
            ahead = subst (λ a. mark box.sequence a < env.sequence) adm.agent ahead;
          },
          rw good (
              subst
                (λ a.
                  (accepted x box env (x.from_slice env.payload) (ok ctx)).0.sequence
                  ≡ Maps.insert box.sequence a env.sequence)
                adm.agent moves),
        )
      ]
]

-- Whatever reaches the application (a handler's call, a reply, a publication) comes from an envelope
-- that passed every check: it verified, its signer carried it, its signer is of the local user, its
-- recipient is this agent if it names one directly, the nonce cache does not hold its nonce, and its
-- sequence is above the sender's mark.
pub handed-Passed :
    (x : Crates) (box : Inbox) (env : SignedEnvelope) (provenance : DeliveryProvenance)
    (lu la : Fingerprint)
    → is_some (on_envelope x box env provenance lu la).2 ≡ true
    → Passed x box env provenance lu la
handed-Passed x box env provenance lu la h = elim (on_envelope-Went x box env provenance lu la) [
  | inl (quiet, still) ↦ absurd (ground arith)
  | inr (passed, moves) ↦ passed
]
