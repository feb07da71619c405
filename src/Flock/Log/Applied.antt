-- ===== src/Flock/Log/Applied.antt =====
-- The two things that `apply` does: it leaves the board alone, or it enters one event.
use agent_mesh.Common.{◌≡◌, refl, Option, none, some, Result, ok, err, ◌>>=◌, ok_or, subst, sym}
use agent_mesh.Flock.Event.{ContentId}
use agent_mesh.Flock.Board.{
  Board, Entry, Externs, Refusal, Verdict, ConflictKind, second_closer, duplicate, refuse, get,
  closer_of, unencodable,
}
use agent_mesh.Flock.Admission.{
  closes, conclude, first_closer, decide, decide_id, verdict_on, to_verdict,
}
use agent_mesh.Flock.Log.{LogEntry, apply, apply_verdict, enter}

-- The flag of an entry that closes `t`.
abbrev closer_flag : Option ContentId → Option ConflictKind
closer_flag (some first) = some (second_closer first)
closer_flag none = none

abbrev pub flag : Board → Option ContentId → Option ConflictKind
flag board none = none
flag board (some target) = closer_flag (closer_of board target)

-- An event that the log does not hold yet, and that passes the checks.
pub record Fresh (x : Externs) (board : Board) (e : LogEntry) : Type 0 where
  pub id : ContentId
  pub closed : Option ContentId
  pub encoded : x.content_id e.node ≡ some id
  pub absent : get board id ≡ none
  pub checked : closes x board e.node e.signer ≡ ok closed

pub data Applied (x : Externs) (board : Board) (e : LogEntry) : Board × Verdict → Type 0 where
  repeated :
      (id : ContentId) (done : Entry)
      → x.content_id e.node ≡ some id
      → get board id ≡ some done
      → Applied x board e (board, duplicate done.index)
  refused : (r : Refusal) → Applied x board e (board, refuse r)
  entered :
      (f : Fresh x board e)
      → Applied x board e (enter board f.id e (flag board f.closed), conclude board f.closed)

closer_verdict :
    (board : Board) (e : LogEntry) (id : ContentId) (c : Option ContentId)
    → apply_verdict board e (some id) (first_closer c)
      ≡ (enter board id e (closer_flag c), first_closer c)
closer_verdict board e id none = refl
closer_verdict board e id (some first) = refl

conclude_verdict :
    (board : Board) (e : LogEntry) (id : ContentId) (t : Option ContentId)
    → apply_verdict board e (some id) (conclude board t)
      ≡ (enter board id e (flag board t), conclude board t)
conclude_verdict board e id none = refl
conclude_verdict board e id (some target) = closer_verdict board e id (closer_of board target)

checked-Applied :
    (x : Externs) (board : Board) (e : LogEntry) (id : ContentId)
    (r : Result Refusal (Option ContentId))
    → x.content_id e.node ≡ some id
    → get board id ≡ none
    → closes x board e.node e.signer ≡ r
    → Applied x board e
        (apply_verdict board e (some id) (to_verdict (r >>= λ target. ok (conclude board target))))
checked-Applied x board e id (err r) enc new h = refused r
checked-Applied x board e id (ok t) enc new h =
    subst (Applied x board e) (sym (conclude_verdict board e id t))
      (entered (record { id = id; closed = t; encoded = enc; absent = new; checked = h }))

found-Applied :
    (x : Externs) (board : Board) (e : LogEntry) (id : ContentId) (o : Option Entry)
    → x.content_id e.node ≡ some id
    → get board id ≡ o
    → Applied x board e
        (apply_verdict board e (some id) (to_verdict (decide_id x board e.node e.signer o)))
found-Applied x board e id (some done) enc h = repeated id done enc h
found-Applied x board e id none enc h =
    checked-Applied x board e id (closes x board e.node e.signer) enc h refl

encoded-Applied :
    (x : Externs) (board : Board) (e : LogEntry) (o : Option ContentId)
    → x.content_id e.node ≡ o
    → Applied x board e (
        apply_verdict board e o (
          to_verdict
            (ok_or o unencodable >>= λ id. decide_id x board e.node e.signer (get board id))))
encoded-Applied x board e none h = refused unencodable
encoded-Applied x board e (some id) h = found-Applied x board e id (get board id) h refl

-- Whatever the entry, `apply` does one of the two.
pub apply-Applied :
    (x : Externs) (board : Board) (e : LogEntry) → Applied x board e (apply x board e)
unfolding apply verdict_on decide
apply-Applied x board e = encoded-Applied x board e (x.content_id e.node) refl
