-- ===== src/Flock/Log/Growth.antt =====
-- The log only grows: what one more event leaves as it was, over one step and over whole logs.
use mathlib.Core.List.{append-nil}
use agent_mesh.Common.{
  ℕ, ◌+◌, ◌≡◌, refl, Option, none, some, List, [], ◌∷◌, ◌++◌, arith, ==_iff, nat_eq, length, sym,
  ◌∙◌, ap, Option-cases, ◌⊎◌, inl, inr, ◌>>=◌,
}
use agent_mesh.Common.Maps
use agent_mesh.Common.Maps.{Map}
use agent_mesh.Flock.Event.{ContentId}
use agent_mesh.Flock.Board.{Board, Entry, Externs, Verdict, duplicate, get, closer_of, Externs}
use agent_mesh.Flock.Admission.{verdict_on, decide}
use agent_mesh.Flock.Log.{LogEntry, apply, enter, closers_after, add_closer, refusal_of, fold_from}
use agent_mesh.Flock.Log.Applied.{Applied, Fresh, repeated, refused, entered, flag, apply-Applied}
use agent_mesh.Flock.Log.Closing.{closes-closed_by}

closer-add_closer :
    (board : Board) (id target c : ContentId) (t : Option ContentId)
    → closer_of board target ≡ some c
    → Maps.get (add_closer board.closers id t (flag board t)) target ≡ some c
closer-add_closer board id target c none h = h
closer-add_closer board id target c (some t) h =
    ground (arith, Maps.get-insert board.closers t id target, ==_iff t target)

module _ (x : Externs) (board : Board) (e : LogEntry) where
  get-Applied :
      (r : Board × Verdict) (id : ContentId) (entry : Entry)
      → Applied x board e r
      → get board id ≡ some entry
      → get r.0 id ≡ some entry
  unfolding enter
  get-Applied _ id entry (repeated _ _ _ _) h = h
  get-Applied _ id entry (refused r) h = h
  get-Applied _ id entry (entered f) h =
      rw (Maps.get-insert board.entries f.id _ id) (ground (arith, f.absent, ==_iff f.id id))

  -- An admitted event stays as it was admitted: no later event changes or removes its entry.
  pub apply-get :
      (id : ContentId) (entry : Entry)
      → get board id ≡ some entry
      → get (apply x board e).0 id ≡ some entry
  apply-get id entry h = get-Applied (apply x board e) id entry (apply-Applied x board e) h

  closer-entered :
      (f : Fresh x board e) (target c : ContentId)
      → closer_of board target ≡ some c
      → Maps.get (closers_after board.closers f.id e.node.payload (flag board f.closed)) target
        ≡ some c
  unfolding closers_after
  closer-entered f target c h =
      rw (← closes-closed_by x board e.node e.signer f.closed f.checked)
        (closer-add_closer board f.id target c f.closed h)

  closer-Applied :
      (r : Board × Verdict) (target c : ContentId)
      → Applied x board e r
      → closer_of board target ≡ some c
      → closer_of r.0 target ≡ some c
  unfolding enter
  closer-Applied _ target c (repeated _ _ _ _) h = h
  closer-Applied _ target c (refused r) h = h
  closer-Applied _ target c (entered f) h = closer-entered f target c h

  -- The first event to close a target stays its closer, whatever is applied later.
  pub apply-closer_of :
      (target c : ContentId)
      → closer_of board target ≡ some c
      → closer_of (apply x board e).0 target ≡ some c
  apply-closer_of target c h = closer-Applied (apply x board e) target c (apply-Applied x board e) h

  order-Applied :
      (r : Board × Verdict)
      → Applied x board e r
      → (new : List ContentId) × (r.0.order ≡ board.order ++ new)
  unfolding enter
  order-Applied _ (repeated _ _ _ _) = ([], sym (append-nil board.order))
  order-Applied _ (refused r) = ([], sym (append-nil board.order))
  order-Applied _ (entered f) = (f.id ∷ [], refl)

  -- The log is append-only: one more event leaves the admitted ones in place and order.
  pub apply-order : (new : List ContentId) × ((apply x board e).0.order ≡ board.order ++ new)
  apply-order = order-Applied (apply x board e) (apply-Applied x board e)

  -- What the log holds after an event that was not refused.
  held :
      (r : Board × Verdict)
      → Applied x board e r
      → refusal_of r.1 ≡ none
      → (id : ContentId) × (entry : Entry) × (x.content_id e.node ≡ some id)
        × (get r.0 id ≡ some entry)
        × (entry.event ≡ e.node.payload ⊎ get board id ≡ some entry)
  unfolding enter
  held _ (repeated id done enc h) n = (id, done, enc, h, inr h)
  held _ (refused r) n = absurd (ground arith)
  held _ (entered f) n = (f.id, _, f.encoded, Maps.get-insert_self board.entries f.id _, inl refl)

duplicate_of :
    (x : Externs) (board : Board) (e : LogEntry) (id : ContentId) (done : Entry)
    → x.content_id e.node ≡ some id
    → get board id ≡ some done
    → apply x board e ≡ (board, duplicate done.index)
unfolding apply verdict_on decide
duplicate_of x board e id done enc h = rw (enc, h)

-- A retry is harmless: once an event was not refused, the same node from any signer is answered as
-- a duplicate, with the index of the event that the log holds, and changes nothing.
pub apply_again :
    (x : Externs) (board : Board) (e retry : LogEntry)
    → retry.node ≡ e.node
    → refusal_of (apply x board e).1 ≡ none
    → let after = (apply x board e).0 in
      (id : ContentId) × (entry : Entry) × (x.content_id e.node ≡ some id)
      × (get after id ≡ some entry)
      × (apply x after retry ≡ (after, duplicate entry.index))
apply_again x board e retry same h =
    let (id, entry, enc, at, _) = held x board e (apply x board e) (apply-Applied x board e) h in
    (id, entry, enc, at, duplicate_of x _ retry id entry (rw same enc) at)

-- Folding a log in two parts is folding it whole: a reader may stop at any point and go on from the
-- board that it has, at that position.
pub fold_from-append :
    (x : Externs) (n : ℕ) (board : Board) (first rest : List LogEntry)
    → fold_from x n board (first ++ rest)
      ≡ (fold_from x n board first >>= λ b. fold_from x (n + length first) b rest)
unfolding fold_from
fold_from-append x n board [] rest = ap (λ m. fold_from x m board rest) (omega arith)
fold_from-append x n board (e ∷ first) rest = elim (Option-cases (refusal_of (apply x board e).1)) [
  | inl fine ↦
      rw (fine, fold_from)
        (fold_from-append x (n + 1) (apply x board e).0 first rest
          ∙ ap (λ m. fold_from x (n + 1) (apply x board e).0 first >>= λ b. fold_from x m b rest)
              (omega arith))
  | inr (r, stop) ↦ rw (stop, fold_from)
]
