-- ===== src/Bus/Sequence.antt =====
-- agent-mesh-bus/src/sequence.rs: the sender's sequence numbers. `Restart` follows one agent key over
-- crashes and restarts.
pub mod Restart
mod Examples
use agent_mesh.Common.{
  ℕ, ◌+◌, ◌-◌, ◌^◌, ◌≤◌, ◌<◌, min, ◌≡◌, refl, Bool, true, false, Option, none, some, arith, ltb,
  ◌==◌, if◌then◌else◌, Result, ok, err, Option-cases,
}

abbrev pub u64_max : ℕ
u64_max = 2 ^ 64 - 1

abbrev pub reservation_block : ℕ
reservation_block = 1024

-- How a call of `reserve` goes. The write fails before the new value is stored, or after (the
-- rename took effect, and syncing the directory failed): the caller sees an error in both cases.
pub data Write : Type 0 where
  stored failed_before failed_after : Write

-- The value that the durable store holds after the call, and whether the call succeeded.
abbrev pub stored_value : Write → ℕ → ℕ → ℕ
stored_value stored kept through = through
stored_value failed_before kept through = kept
stored_value failed_after kept through = through

abbrev pub succeeds : Write → Bool
succeeds stored = true
succeeds _ = false

pub record Sequencer : Type 0 where
  pub last : ℕ
  pub reserved : ℕ
  pub reservations : Bool

pub after : ℕ → Sequencer
after last = record { last = last; reserved = u64_max; reservations = false }

-- `reserving`, from the value that the store holds.
unfoldable pub reserving : ℕ → Sequencer
reserving kept = record { last = kept; reserved = kept; reservations = true }

pub data SequenceError : Type 0 where
  exhausted not_reserved : SequenceError

-- `saturating_add(RESERVATION_BLOCK)`.
abbrev pub next_block : ℕ → ℕ
next_block reserved = min (reserved + reservation_block) u64_max

-- The state after a call: the sequencer, the durable value, and the result.
unfoldable pub next : Sequencer → ℕ → Write → Sequencer × ℕ × Result SequenceError ℕ
next s kept write =
    if ltb u64_max (s.last + 1)
    then (s, kept, err exhausted)
    else if ltb s.reserved (s.last + 1)
    then (if s.reservations
        then (if succeeds write
            then (
              record s { last = s.last + 1; reserved = next_block s.reserved },
              stored_value write kept (next_block s.reserved),
              ok (s.last + 1),
            )
            else (s, stored_value write kept (next_block s.reserved), err not_reserved))
        else (
          record s { last = s.last + 1; reserved = next_block s.reserved },
          kept,
          ok (s.last + 1),
        ))
    else (record s { last = s.last + 1 }, kept, ok (s.last + 1))

-- What a call never breaks: issued numbers are reserved, and reserved ones are stored.
pub record IsValid (s : Sequencer) (kept : ℕ) : Type 0 where
  pub issued_reserved : s.last ≤ s.reserved
  pub reserved_stored : s.reservations ≡ true → s.reserved ≤ kept
  pub in_range : s.reserved ≤ u64_max

pub reserving-IsValid : (kept : ℕ) → kept ≤ u64_max → IsValid (reserving kept) kept
unfolding reserving
reserving-IsValid kept h = record {
  issued_reserved = omega arith;
  reserved_stored = λ _. omega arith;
  in_range = h;
}
