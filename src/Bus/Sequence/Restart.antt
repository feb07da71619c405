-- ===== src/Bus/Sequence/Restart.antt =====
-- One agent key over sends, crashes and restarts: a restart loses the sequencer and keeps the store.
use agent_mesh.Common.{
  ℕ, ◌+◌, ◌≤◌, ◌<◌, ◌≡◌, refl, Bool, true, false, List, [], ◌∷◌, arith, Result, ok, err,
  if◌then◌else◌,
}
use agent_mesh.Bus.Sequence.{
  u64_max, Write, succeeds, Sequencer, reserving, reserving-IsValid, next, SequenceError, exhausted,
  not_reserved, IsValid,
}

next-IsValid :
    (s : Sequencer) (kept : ℕ) (w : Write)
    → IsValid s kept
    → IsValid (next s kept w).0 (next s kept w).1
unfolding next
next-IsValid s kept w v = ground (arith, v.reserved_stored)

-- The state of one key: the running sequencer, the store, and the numbers issued, newest first.
pub record Life : Type 0 where
  pub sequencer : Sequencer
  pub kept : ℕ
  pub issued : List ℕ

pub data Event : Type 0 where
  sends : Write → Event
  restarts : Event

abbrev record_issue : Result SequenceError ℕ → List ℕ → List ℕ
record_issue (ok n) issued = n ∷ issued
record_issue (err e) issued = issued

unfoldable pub step : Life → Event → Life
step l (sends w) =
    let (s, kept, r) = next l.sequencer l.kept w in
    record { sequencer = s; kept = kept; issued = record_issue r l.issued }
step l restarts = record l { sequencer = reserving l.kept }

unfoldable pub run : Life → List Event → Life
run l [] = l
run l (e ∷ es) = run (step l e) es

-- The first bind under a key: nothing stored, nothing issued.
unfoldable pub first : Life
first = record { sequencer = reserving 0; kept = 0; issued = [] }

-- The numbers fall along the list, and all are below `n`.
abbrev pub Descends : ℕ → List ℕ → Type 0
Descends n [] = Unit {0}
Descends n (x ∷ xs) = (x < n) × Descends x xs

Descends-mono : (m n : ℕ) (xs : List ℕ) → m ≤ n → Descends m xs → Descends n xs
Descends-mono m n [] h d = tt
Descends-mono m n (x ∷ xs) h d = (omega arith, d.1)

pub record IsSafe (l : Life) : Type 0 where
  pub valid : IsValid l.sequencer l.kept
  pub durable : l.sequencer.reservations ≡ true
  pub in_range : l.kept ≤ u64_max
  pub falls : Descends (l.sequencer.last + 1) l.issued

-- What a call of `next` does: it issues the successor of the last number, or it changes nothing in
-- the sequencer and fails.
pub data Outcome (s : Sequencer) (t : Sequencer) : Result SequenceError ℕ → Type 0 where
  issues : (n : ℕ) → n ≡ s.last + 1 → t.last ≡ n → Outcome s t (ok n)
  refuses : (e : SequenceError) → t ≡ s → Outcome s t (err e)

if-Outcome :
    (s : Sequencer) (b : Bool) (x y : Sequencer × ℕ × Result SequenceError ℕ)
    → Outcome s x.0 x.2
    → Outcome s y.0 y.2
    → Outcome s (if b then x else y).0 (if b then x else y).2
if-Outcome s true x y p q = p
if-Outcome s false x y p q = q

next-Outcome :
    (s : Sequencer) (kept : ℕ) (w : Write) → Outcome s (next s kept w).0 (next s kept w).2
unfolding next
next-Outcome s kept w = if-Outcome s _ _ _ (refuses exhausted refl) (
    if-Outcome s _ _ _
      (if-Outcome s s.reservations _ _
        (if-Outcome s (succeeds w) _ _ (issues (s.last + 1) refl refl) (refuses not_reserved refl))
        (issues (s.last + 1) refl refl))
      (issues (s.last + 1) refl refl))

issue-Descends :
    (s t : Sequencer) (r : Result SequenceError ℕ) (xs : List ℕ)
    → Outcome s t r
    → Descends (s.last + 1) xs
    → Descends (t.last + 1) (record_issue r xs)
issue-Descends s t _ xs (issues n e f) d =
    (omega arith, Descends-mono (s.last + 1) n xs (omega arith) d)
issue-Descends s t _ xs (refuses e same) d = rw same d

next_range :
    (s : Sequencer) (kept : ℕ) (w : Write)
    → s.reservations ≡ true
    → kept ≤ u64_max
    → ((next s kept w).0.reservations ≡ true) × ((next s kept w).1 ≤ u64_max)
unfolding next
next_range s kept w d h = (ground arith, ground arith)

step-IsSafe : (l : Life) (e : Event) → IsSafe l → IsSafe (step l e)
unfolding step reserving
step-IsSafe l (sends w) v =
    let range = next_range l.sequencer l.kept w v.durable v.in_range in
    record {
      valid = next-IsValid l.sequencer l.kept w v.valid;
      durable = range.0;
      in_range = range.1;
      falls =
          issue-Descends l.sequencer (next l.sequencer l.kept w).0 (next l.sequencer l.kept w).2
            l.issued (next-Outcome l.sequencer l.kept w) v.falls;
    }
step-IsSafe l restarts v = record {
  valid = reserving-IsValid l.kept v.in_range;
  durable = refl;
  in_range = v.in_range;
  falls =
      Descends-mono (l.sequencer.last + 1) (l.kept + 1) l.issued
        (omega (arith, v.valid.issued_reserved, v.valid.reserved_stored v.durable)) v.falls;
}

run-IsSafe : (l : Life) (es : List Event) → IsSafe l → IsSafe (run l es)
unfolding run
run-IsSafe l [] v = v
run-IsSafe l (e ∷ es) v = run-IsSafe (step l e) es (step-IsSafe l e v)

first-IsSafe : IsSafe first
unfolding first reserving
first-IsSafe = record {
  valid = reserving-IsValid 0 (omega arith);
  durable = refl;
  in_range = omega arith;
  falls = tt;
}

-- Whatever the sends, failed writes and restarts under one key since its first bind, the numbers
-- issued strictly increase over the key's whole life, and none exceeds what the store holds: a
-- successor starts above all that its predecessors issued.
pub issued_increase : (es : List Event) → Descends ((run first es).kept + 1) (run first es).issued
issued_increase es =
    let v = run-IsSafe first es first-IsSafe in
    Descends-mono ((run first es).sequencer.last + 1) ((run first es).kept + 1)
      (run first es).issued
      (omega (arith, v.valid.issued_reserved, v.valid.reserved_stored v.durable)) v.falls

-- From a valid sequencer with reservations, a number is issued only from a block that the store
-- already holds.
pub next_stored :
    (s : Sequencer) (kept : ℕ) (w : Write) (n : ℕ)
    → IsValid s kept
    → s.reservations ≡ true
    → (next s kept w).2 ≡ ok n
    → n ≤ (next s kept w).1
unfolding next
next_stored s kept w n v d h = ground (arith, v.reserved_stored)

-- A call that fails, for whatever reason, consumes no number: the sequencer is as before.
pub next_refused :
    (s : Sequencer) (kept : ℕ) (w : Write) (e : SequenceError)
    → (next s kept w).2 ≡ err e
    → (next s kept w).0 ≡ s
unfolding next
next_refused s kept w e h = ground arith
