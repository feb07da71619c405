-- ===== src/Flock/Log/Invariant.antt =====
-- What holds of every board that folds from a log.
use agent_mesh.Common.{
  ℕ, ◌+◌, String, ◌≡◌, refl, true, false, Option, none, some, List, [], ◌∷◌, ◌++◌, arith, ok, ◌==◌,
  ==_iff, ==_refl, str_eq, eq_iff, nat_eq, string_eq, if◌then◌else◌, length, contains, distinct,
  Bool-cases, inl, inr, ◌⊎◌, contains-append, distinct-concat, contains-single,
}
use agent_mesh.Common.Maps
use agent_mesh.Common.Maps.{Map}
use agent_mesh.Flock.Event.{ContentId, Genesis, MerkleNode}
use agent_mesh.Flock.Board.{Board, Entry, Externs, Verdict, ConflictKind, get, head_of, closer_of}
use agent_mesh.Flock.Log.{
  LogEntry, apply, enter, signing_member, closers_after, add_closer, closed_by, start, fold,
}
use agent_mesh.Flock.Log.Applied.{Applied, Fresh, repeated, refused, entered, flag, apply-Applied}
use agent_mesh.Flock.Log.Induction.{fold-start, fold_induction}

-- From position `n` on, the order's ids name entries that hold their own id and position.
abbrev pub Numbered : Map ContentId Entry → ℕ → List ContentId → Type 0
Numbered m n [] = Unit {0}
Numbered m n (id ∷ ids) =
    ((e : Entry) × (Maps.get m id ≡ some e) × (e.id ≡ id) × (e.index ≡ n + 1))
    × Numbered m (n + 1) ids

Numbered-insert :
    (m : Map ContentId Entry) (n : ℕ) (ids : List ContentId) (id : ContentId) (v : Entry)
    → Maps.get m id ≡ none
    → Numbered m n ids
    → Numbered (Maps.insert m id v) n ids
Numbered-insert m n [] id v absent h = tt
Numbered-insert m n (j ∷ ids) id v absent ((e, at, same, index), rest) = (
  (e, ground (arith, Maps.get-insert m id v j, ==_iff id j), same, index),
  Numbered-insert m (n + 1) ids id v absent rest,
)

Numbered-concat :
    (m : Map ContentId Entry) (n : ℕ) (ids : List ContentId) (id : ContentId) (v : Entry)
    → Maps.get m id ≡ some v
    → v.id ≡ id
    → v.index ≡ n + length ids + 1
    → Numbered m n ids
    → Numbered m n (ids ++ id ∷ [])
Numbered-concat m n [] id v at same index h = ((v, at, same, omega arith), tt)
Numbered-concat m n (j ∷ ids) id v at same index (h, rest) =
    (h, Numbered-concat m (n + 1) ids id v at same (omega arith) rest)

Numbered-held :
    (m : Map ContentId Entry) (n : ℕ) (ids : List ContentId) (id : ContentId)
    → Numbered m n ids
    → Maps.get m id ≡ none
    → contains ids id ≡ false
unfolding contains
Numbered-held m n [] id h absent = refl
Numbered-held m n (j ∷ ids) id ((e, at, same, index), rest) absent =
    ground (arith, ==_iff j id, Numbered-held m (n + 1) ids id rest absent)

-- The log's positions, heads and closers fit its entries.
pub record IsValid (board : Board) : Type 0 where
  pub numbered : Numbered board.entries 0 board.order
  pub once : distinct board.order ≡ true
  pub listed : (id : ContentId) (e : Entry) → get board id ≡ some e → contains board.order id ≡ true
  pub heads_held :
      (author : String) (id : ContentId)
      → head_of board author ≡ some id
      → (e : Entry) × (get board id ≡ some e) × (e.event.author ≡ author)
  pub closers_held :
      (t c : ContentId)
      → closer_of board t ≡ some c
      → (e : Entry) × (get board c ≡ some e) × (closed_by e.event ≡ some t) × (e.conflict ≡ none)

-- The entry that `enter` adds.
abbrev entry_of : Board → ContentId → LogEntry → Option ConflictKind → Entry
entry_of board id e c = record {
  id = id;
  index = length board.order + 1;
  event = e.node.payload;
  member = signing_member e.signer.class;
  conflict = c;
}

-- A closer of the new table is an old one, or the entering event.
add_closer_cases :
    (closers : Map ContentId ContentId) (id : ContentId) (target : Option ContentId)
    (flagged : Option ConflictKind) (t c : ContentId)
    → Maps.get (add_closer closers id target flagged) t ≡ some c
    → (Maps.get closers t ≡ some c) ⊎ ((c ≡ id) × (target ≡ some t) × (flagged ≡ none))
add_closer_cases closers id none flagged t c h = inl h
add_closer_cases closers id (some j) (some k) t c h = inl h
add_closer_cases closers id (some j) none t c h =
    ground (arith, Maps.get-insert closers j id t, ==_iff j t)

module _ (x : Externs) (board : Board) (e : LogEntry) (f : Fresh x board e)
    (v : IsValid board) where
  entered_entry : Entry
  entered_entry = entry_of board f.id e (flag board f.closed)

  unlisted : contains board.order f.id ≡ false
  unlisted = Numbered-held board.entries 0 board.order f.id v.numbered f.absent

  get-entered :
      (id : ContentId)
      → get (enter board f.id e (flag board f.closed)) id
        ≡ (if f.id == id then some entered_entry else get board id)
  unfolding enter entered_entry
  get-entered id = Maps.get-insert board.entries f.id _ id

  entered-Numbered :
      Numbered
        (enter board f.id e (flag board f.closed)).entries
        0
        (enter board f.id e (flag board f.closed)).order
  unfolding enter entered_entry
  entered-Numbered =
      Numbered-concat _ 0 board.order f.id entered_entry (Maps.get-insert_self board.entries f.id _)
        refl (omega arith) (Numbered-insert board.entries 0 board.order f.id _ f.absent v.numbered)

  entered-listed :
      (id : ContentId) (d : Entry)
      → get (enter board f.id e (flag board f.closed)) id ≡ some d
      → contains (enter board f.id e (flag board f.closed)).order id ≡ true
  unfolding enter
  entered-listed id d h = ground (
    arith,
    Maps.get-insert board.entries f.id (entry_of board f.id e (flag board f.closed)) id,
    contains-append board.order (f.id ∷ []) id,
    contains-single f.id id,
    v.listed id d,
  )

  entered-get :
      (id : ContentId) (d : Entry)
      → get board id ≡ some d
      → get (enter board f.id e (flag board f.closed)) id ≡ some d
  entered-get id d h = rw (get-entered id) (ground (arith, ==_iff f.id id, f.absent))

  entered_self : get (enter board f.id e (flag board f.closed)) f.id ≡ some entered_entry
  entered_self = rw (get-entered f.id) (ground (arith, ==_refl f.id))

  head-entered :
      (author : String)
      → head_of (enter board f.id e (flag board f.closed)) author
        ≡ (if str_eq e.node.payload.author author then some f.id else head_of board author)
  unfolding enter
  head-entered author = Maps.get-insert board.heads e.node.payload.author f.id author

  entered-heads :
      (author : String) (id : ContentId)
      → head_of (enter board f.id e (flag board f.closed)) author ≡ some id
      → (d : Entry) × (get (enter board f.id e (flag board f.closed)) id ≡ some d)
        × (d.event.author ≡ author)
  unfolding entered_entry
  entered-heads author id h = elim (Bool-cases (str_eq e.node.payload.author author)) [
    | inl mine ↦ (
      entered_entry,
      ground (arith, head-entered author, entered_self),
      (eq_iff e.node.payload.author author).0 mine,
    )
    | inr other ↦
        (let (d, at, a) = v.heads_held author id (ground (arith, head-entered author)) in
          (d, entered-get id d at, a))
  ]

  entered-closers :
      (t c : ContentId)
      → closer_of (enter board f.id e (flag board f.closed)) t ≡ some c
      → (d : Entry) × (get (enter board f.id e (flag board f.closed)) c ≡ some d)
        × (closed_by d.event ≡ some t)
        × (d.conflict ≡ none)
  unfolding entered_entry enter closers_after
  entered-closers t c h =
      elim (add_closer_cases board.closers f.id (closed_by e.node.payload) (flag board f.closed) t c
        h) [
          | inl old ↦ (let (d, at, k, n) = v.closers_held t c old in (d, entered-get c d at, k, n))
          | inr (same, k, n) ↦ (entered_entry, ground (arith, entered_self), k, n)
        ]

  entered-IsValid : IsValid (enter board f.id e (flag board f.closed))
  unfolding enter
  entered-IsValid = record {
    numbered = entered-Numbered;
    once = distinct-concat board.order f.id v.once unlisted;
    listed = entered-listed;
    heads_held = entered-heads;
    closers_held = entered-closers;
  }

Applied-IsValid :
    (x : Externs) (board : Board) (e : LogEntry) (r : Board × Verdict)
    → Applied x board e r
    → IsValid board
    → IsValid r.0
Applied-IsValid x board e _ (repeated _ _ _ _) v = v
Applied-IsValid x board e _ (refused r) v = v
Applied-IsValid x board e _ (entered f) v = entered-IsValid x board e f v

-- Applying any entry to a valid board gives a valid board: positions in the order match the entries'
-- indices, no event is there twice, every head is its author's, and every closer is an admitted
-- event that closes its target and was not flagged as a conflict.
pub apply-IsValid :
    (x : Externs) (board : Board) (e : LogEntry) → IsValid board → IsValid (apply x board e).0
apply-IsValid x board e v = Applied-IsValid x board e (apply x board e) (apply-Applied x board e) v

pub start-IsValid :
    (flock : ContentId) (genesis : MerkleNode Genesis) → IsValid (start flock genesis)
unfolding start Maps.get distinct
start-IsValid flock genesis = record {
  numbered = tt;
  once = refl;
  listed = λ id e h. absurd (ground arith);
  heads_held = λ author id h. absurd (ground arith);
  closers_held = λ t c h. absurd (ground arith);
}

-- The board of every log that folds is consistent: positions in the order match the entries' indices,
-- no event is there twice, every head is its author's, and every closer is an admitted event that
-- closes its target and was not flagged as a conflict.
pub fold-IsValid :
    (x : Externs) (genesis : MerkleNode Genesis) (log : List LogEntry) (final : Board)
    → fold x genesis log ≡ ok final
    → IsValid final
fold-IsValid x genesis log final h =
    let (flock, _, from) = fold-start x genesis log final h in
    fold_induction IsValid x (apply-IsValid x) 0 (start flock genesis) log final from
      (start-IsValid flock genesis)
