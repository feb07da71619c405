-- ===== src/Bus/Reply.antt =====
-- agent-mesh-bus/src/reply.rs: the waiters of requests in flight. A correlation id is the number that
-- its 16 bytes spell. Each method holds the lock of the map, so it is one step.
use agent_mesh.Common.{
  [], ℕ, ◌+◌, ◌%◌, ◌^◌, ◌≡◌, Bool, true, false, not, ◌&&◌, Option, none, some, arith, ◌==◌, ==_iff,
  nat_eq, if◌then◌else◌, length, Option-cases, inl, inr,
}
use agent_mesh.Common.Maps
use agent_mesh.Common.Maps.{Map}
use agent_mesh.Bus.Replay.Tracker.{Fingerprint}

abbrev pub CorrelationId : Type 0
CorrelationId = ℕ

-- The sender half of a oneshot channel is named by its registration's token.
pub record PendingReply : Type 0 where
  pub token : ℕ
  pub expected_peer_fp : Fingerprint

pub record ReplyWaiter : Type 0 where
  pub waiters : Map CorrelationId PendingReply
  pub next_token : ℕ

pub new : ReplyWaiter
new = record { waiters = []; next_token = 0 }

pub data ReplyDelivery : Type 0 where
  delivered unknown receiver_dropped : ReplyDelivery
  peer_mismatch : Fingerprint → Fingerprint → ReplyDelivery

pub data ReplyPeerCheck : Type 0 where
  expected no_waiter : ReplyPeerCheck
  mismatch : Fingerprint → Fingerprint → ReplyPeerCheck

-- The new waiter, and the token of the receiver. `fetch_add` wraps.
unfoldable pub register : ReplyWaiter → CorrelationId → Fingerprint → ReplyWaiter × ℕ
register w id expected_peer_fp = (
  record {
    waiters =
        Maps.insert w.waiters id
          (record { token = w.next_token; expected_peer_fp = expected_peer_fp });
    next_token = (w.next_token + 1) % 2 ^ 64;
  },
  w.next_token,
)

-- `deliver` on the waiter that is there; `live` tells whether the receiver of a token is still held,
-- which is when its channel takes the payload. The last part is the token that took it.
abbrev pub deliver_to :
    (ℕ → Bool)
    → ReplyWaiter
    → CorrelationId
    → Fingerprint
    → Option PendingReply
    → ReplyWaiter × ReplyDelivery × Option ℕ
deliver_to live w id actual_peer_fp none = (w, unknown, none)
deliver_to live w id actual_peer_fp (some pending) =
    if not (pending.expected_peer_fp == actual_peer_fp)
    then (w, peer_mismatch pending.expected_peer_fp actual_peer_fp, none)
    else if live pending.token
    then (record w { waiters = Maps.remove w.waiters id }, delivered, some pending.token)
    else (record w { waiters = Maps.remove w.waiters id }, receiver_dropped, none)

unfoldable pub deliver :
    (ℕ → Bool) → ReplyWaiter → CorrelationId → Fingerprint → ReplyWaiter × ReplyDelivery × Option ℕ
deliver live w id actual_peer_fp = deliver_to live w id actual_peer_fp (Maps.get w.waiters id)

abbrev pub check_pending : Fingerprint → Option PendingReply → ReplyPeerCheck
check_pending actual_peer_fp none = no_waiter
check_pending actual_peer_fp (some pending) =
    if pending.expected_peer_fp == actual_peer_fp
    then expected
    else mismatch pending.expected_peer_fp actual_peer_fp

unfoldable pub check_peer : ReplyWaiter → CorrelationId → Fingerprint → ReplyPeerCheck
check_peer w id actual_peer_fp = check_pending actual_peer_fp (Maps.get w.waiters id)

abbrev has_token : ℕ → Option PendingReply → Bool
has_token token none = false
has_token token (some pending) = pending.token == token

unfoldable pub cancel : ReplyWaiter → CorrelationId → ℕ → ReplyWaiter
cancel w id token =
    if has_token token (Maps.get w.waiters id)
    then record w { waiters = Maps.remove w.waiters id }
    else w

pub pending : ReplyWaiter → ℕ
pending w = length w.waiters

-- A reply completes a waiter only if it comes from the peer that the request was sent to, and the
-- waiter is gone with it.
pub deliver-Delivered :
    (live : ℕ → Bool) (w : ReplyWaiter) (id : CorrelationId) (peer : Fingerprint) (token : ℕ)
    → (deliver live w id peer).2 ≡ some token
    → (p : PendingReply) × (Maps.get w.waiters id ≡ some p)
      × (p.expected_peer_fp ≡ peer)
      × (p.token ≡ token)
      × (Maps.get (deliver live w id peer).0.waiters id ≡ none)
unfolding deliver
deliver-Delivered live w id peer token h = elim (Option-cases (Maps.get w.waiters id)) [
  | inl nobody ↦ absurd (ground arith)
  | inr (p, there) ↦ (
    p,
    there,
    ground (arith, ==_iff p.expected_peer_fp peer),
    ground (arith),
    ground (arith, ==_iff p.expected_peer_fp peer, Maps.get-remove w.waiters id id, ==_iff id id),
  )
]

-- Dropping a receiver removes its own registration, and no other: neither another correlation nor
-- the registration that replaced it.
pub get-cancel :
    (w : ReplyWaiter) (id : CorrelationId) (token : ℕ) (j : CorrelationId) (p : PendingReply)
    → Maps.get w.waiters j ≡ some p
    → Maps.get (cancel w id token).waiters j
      ≡ (if id == j then (if p.token == token then none else some p) else some p)
unfolding cancel
get-cancel w id token j p h = ground (arith, ==_iff id j, Maps.get-remove w.waiters id j)

abbrev pub is_expected : ReplyPeerCheck → Bool
is_expected expected = true
is_expected _ = false

-- A delivery removes the waiter of its correlation exactly when the check of the peer, made before,
-- finds the expected peer; a reply from any other peer, and any other waiter, changes nothing.
pub get-deliver :
    (live : ℕ → Bool) (w : ReplyWaiter) (id : CorrelationId) (peer : Fingerprint)
    (j : CorrelationId)
    → Maps.get (deliver live w id peer).0.waiters j
      ≡ (if id == j && is_expected (check_peer w id peer) then none else Maps.get w.waiters j)
unfolding deliver check_peer
get-deliver live w id peer j = elim (Option-cases (Maps.get w.waiters id)) [
  | inl nobody ↦ ground (arith, ==_iff id j)
  | inr (p, there) ↦
      ground (arith, ==_iff p.expected_peer_fp peer, Maps.get-remove w.waiters id j, ==_iff id j)
]
