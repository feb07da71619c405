-- ===== src/Server/Log.antt =====
-- agent-mesh-flock-server/src/log.rs: the log file. Its bytes are a list; the lock and the writes of
-- the system succeed, unless a planned crash stops them.
pub mod Parsing
pub mod Recovery
pub mod Total
use agent_mesh.Common.{
  ℕ, zero, suc, ◌+◌, ◌≡◌, refl, Bool, true, false, Option, none, some, List, [], ◌∷◌, ◌++◌, length,
  min, Result, ok, err, is_some,
}
use agent_mesh.Common.Bytes.{take, drop}
use agent_mesh.Server.Frame.{Wire, Next, FrameError, encode, next}

pub data CrashPlan : Type 0 where
  after_bytes : ℕ → CrashPlan
  before_sync after_sync : CrashPlan

pub data LogError : Type 0 where
  corrupt : ℕ → FrameError → LogError
  encoding : FrameError → LogError
  io : LogError

-- The frames with their offsets, where they end, and where an incomplete last one begins.
pub record Parsed (T : Type 0) : Type 0 where
  pub frames : List (ℕ × T)
  pub at : ℕ
  pub cut : Option ℕ

-- The open log, with the bytes of its file.
pub record Log : Type 0 where
  pub file : List ℕ
  pub end : ℕ
  pub cut : Option ℕ
  pub plan : Option CrashPlan
  pub syncs : ℕ

abbrev pub cut_at : Log → Option ℕ → Log
cut_at log none = record log { syncs = log.syncs + 1 }
cut_at log (some at) = record log { file = take at log.file; cut = none; syncs = log.syncs + 1 }

unfoldable pub commit_recovery : Log → Log
commit_recovery log = cut_at log log.cut

abbrev pub arm : Log → Option CrashPlan → Log
arm log crash = record log { plan = crash }

-- The file after `bytes` are written at the end of the log.
abbrev pub write : Log → List ℕ → List ℕ
write log bytes = take log.end log.file ++ (bytes ++ drop (log.end + length bytes) log.file)

abbrev pub append_bytes : Log → List ℕ → Option CrashPlan → Log × Result LogError (Unit {0})
append_bytes log bytes (some (after_bytes n)) =
    (record log { file = write log (take (min n (length bytes)) bytes); plan = none }, err io)
append_bytes log bytes (some before_sync) =
    (record log { file = write log bytes; plan = none }, err io)
append_bytes log bytes (some after_sync) =
    (record log { file = write log bytes; plan = none }, err io)
append_bytes log bytes none = (
  record log {
    file = write log bytes;
    plan = none;
    syncs = log.syncs + 1;
    end = log.end + length bytes;
  },
  ok tt,
)

module _ {T : Type 0} (w : Wire T) where
  -- The loop of `parse`, on fuel.
  unfoldable pub parse_from : ℕ → List ℕ → ℕ → List (ℕ × T) → Option (Result LogError (Parsed T))
  parse_from zero bytes at frames = none
  parse_from (suc fuel) bytes at frames = elim (next w bytes at) [
    | ok found ↦ elim found [
      | Next.end ↦ some (ok (record { frames = frames; at = at; cut = none }))
      | Next.torn ↦ some (ok (record { frames = frames; at = at; cut = some at }))
      | Next.frame f stop ↦ parse_from fuel bytes stop (frames ++ ((at, f) ∷ []))
    ]
    | err why ↦ some (err (corrupt at why))
  ]

  unfoldable pub parse : List ℕ → Option (Result LogError (Parsed T))
  parse bytes = parse_from (suc (length bytes)) bytes 0 []

  abbrev opened : List ℕ → Parsed T → Log × List (ℕ × T)
  opened bytes p =
      (record { file = bytes; end = p.at; cut = p.cut; plan = none; syncs = 0 }, p.frames)

  -- `Log::open` of a file with these bytes.
  unfoldable pub open_log : List ℕ → Option (Result LogError (Log × List (ℕ × T)))
  open_log bytes = elim (parse bytes) [
    | none ↦ none
    | some found ↦ elim found [ ok p ↦ some (ok (opened bytes p)) | err e ↦ some (err e) ]
  ]

  -- `read_frames` of a file with these bytes.
  unfoldable pub read_frames : List ℕ → Option (Result LogError (List (ℕ × T) × Bool))
  read_frames bytes = elim (parse bytes) [
    | none ↦ none
    | some found ↦ elim found [ ok p ↦ some (ok (p.frames, is_some p.cut)) | err e ↦ some (err e) ]
  ]

  unfoldable pub append : Log → T → Log × Result LogError (Unit {0})
  append log value = elim (encode w value) [
    | err e ↦ (log, err (encoding e))
    | ok bytes ↦ append_bytes log bytes log.plan
  ]
