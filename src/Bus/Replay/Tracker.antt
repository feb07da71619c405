-- ===== src/Bus/Replay/Tracker.antt =====
-- replay.rs: `SequenceTracker`. A fingerprint is the number that its 32 bytes spell. `u64` additions
-- wrap, as in a release build.
use agent_mesh.Common.{
  ℕ, ◌+◌, ◌%◌, ◌^◌, ◌<◌, ◌≡◌, Bool, true, false, Option, none, some, List, [], ◌∷◌, arith, ltb,
  ◌==◌, if◌then◌else◌, ◌&&◌, Result, ok, err, nat_eq, ==_iff, Bool-cases, inl, inr, subst, ◌∙◌,
}
use agent_mesh.Common.Maps
use agent_mesh.Common.Maps.{Map}

abbrev pub Fingerprint : Type 0
Fingerprint = ℕ

abbrev pub SequenceTracker : Type 0
SequenceTracker = Map Fingerprint ℕ

abbrev pub or_zero : Option ℕ → ℕ
or_zero none = 0
or_zero (some n) = n

abbrev pub last_seen : SequenceTracker → Fingerprint → Option ℕ
last_seen t peer = Maps.get t peer

-- The highest sequence accepted from a peer, 0 if none.
abbrev pub mark : SequenceTracker → Fingerprint → ℕ
mark t peer = or_zero (last_seen t peer)

-- The error holds the sequence expected, and the one that arrived.
unfoldable pub check_and_advance :
    SequenceTracker → Fingerprint → ℕ → SequenceTracker × Result (ℕ × ℕ) (Unit {0})
check_and_advance t peer seq =
    if ltb (mark t peer) seq
    then (Maps.insert t peer seq, ok tt)
    else (t, err ((mark t peer + 1) % 2 ^ 64, seq))

abbrev pub is_ok {ℓ κ} : {E : Type ℓ} {A : Type κ} → Result E A → Bool
is_ok (ok a) = true
is_ok (err e) = false

-- The sequences accepted from `peer` while the calls `(sender, seq)` are made in turn.
unfoldable pub accepted : Fingerprint → SequenceTracker → List (Fingerprint × ℕ) → List ℕ
accepted peer t [] = []
accepted peer t ((sender, seq) ∷ calls) =
    let rest = accepted peer (check_and_advance t sender seq).0 calls in
    if is_ok (check_and_advance t sender seq).1 && sender == peer then seq ∷ rest else rest

-- Each number exceeds the one before it, and the first exceeds `n`.
abbrev pub Ascends : ℕ → List ℕ → Type 0
Ascends n [] = Unit {0}
Ascends n (x ∷ xs) = (n < x) × Ascends x xs

-- A call moves the sender's mark to an accepted sequence, and no other mark.
pub mark-check_and_advance :
    (t : SequenceTracker) (peer : Fingerprint) (seq : ℕ) (q : Fingerprint)
    → mark (check_and_advance t peer seq).0 q
      ≡ (if ltb (mark t peer) seq && peer == q then seq else mark t q)
unfolding check_and_advance
mark-check_and_advance t peer seq q = ground (arith, Maps.get-insert t peer seq q)

is_ok-check_and_advance :
    (t : SequenceTracker) (peer : Fingerprint) (seq : ℕ)
    → is_ok (check_and_advance t peer seq).1 ≡ ltb (mark t peer) seq
unfolding check_and_advance
is_ok-check_and_advance t peer seq = ground arith

push-Ascends :
    (peer : Fingerprint) (t : SequenceTracker) (sender : Fingerprint) (seq : ℕ) (rest : List ℕ)
    → Ascends (mark (check_and_advance t sender seq).0 peer) rest
    → Ascends
        (mark t peer)
        (if is_ok (check_and_advance t sender seq).1 && sender == peer then seq ∷ rest else rest)
push-Ascends peer t sender seq rest h =
    rw (is_ok-check_and_advance t sender seq)
      (elim (Bool-cases (ltb (mark t sender) seq && sender == peer)) [
        | inl hit ↦ rw hit (
          ground (arith, ==_iff sender peer),
          subst (λ n. Ascends n rest) (mark-check_and_advance t sender seq peer ∙ rw hit) h,
        )
        | inr miss ↦
            rw miss
              (subst (λ n. Ascends n rest) (mark-check_and_advance t sender seq peer ∙ rw miss) h)
      ])

-- Whatever the interleaving of senders, the sequences accepted from a peer strictly increase, above
-- the peer's mark at the start: no sequence is accepted twice, and none out of order.
pub accepted-Ascends :
    (peer : Fingerprint) (t : SequenceTracker) (calls : List (Fingerprint × ℕ))
    → Ascends (mark t peer) (accepted peer t calls)
unfolding accepted
accepted-Ascends peer t [] = tt
accepted-Ascends peer t ((sender, seq) ∷ calls) =
    push-Ascends peer t sender seq (accepted peer (check_and_advance t sender seq).0 calls)
      (accepted-Ascends peer (check_and_advance t sender seq).0 calls)
