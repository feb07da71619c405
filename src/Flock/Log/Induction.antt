-- ===== src/Flock/Log/Induction.antt =====
-- What every step of a log keeps holds of the folded board.
use agent_mesh.Common.{
  ℕ, ◌+◌, ◌≡◌, some, List, [], ◌∷◌, arith, Result, ok, Option-cases, inl, inr, subst,
}
use agent_mesh.Flock.Event.{ContentId, Genesis, MerkleNode}
use agent_mesh.Flock.Board.{Board, Entry, Externs, get, closer_of}
use agent_mesh.Flock.Log.{LogEntry, FoldError, apply, fold_from, fold, new, start}
use agent_mesh.Flock.Log.Growth.{apply-get, apply-closer_of}

fold_next :
    (x : Externs) (n : ℕ) (board : Board) (e : LogEntry) (log : List LogEntry) (final : Board)
    → fold_from x n board (e ∷ log) ≡ ok final
    → fold_from x (n + 1) (apply x board e).0 log ≡ ok final
unfolding fold_from
fold_next x n board e log final h = ground arith

ok_inj : (a b : Board) → ◌≡◌ {A = Result FoldError Board} (ok a) (ok b) → a ≡ b
ok_inj a b h = ground arith

pub fold_induction {ℓ} :
    (P : Board → Type ℓ) (x : Externs)
    → ((board : Board) (e : LogEntry) → P board → P (apply x board e).0)
    → (n : ℕ) (board : Board) (log : List LogEntry) (final : Board)
    → fold_from x n board log ≡ ok final
    → P board
    → P final
unfolding fold_from
fold_induction P x keep n board [] final h p = subst P (ok_inj board final h) p
fold_induction P x keep n board (e ∷ log) final h p =
    fold_induction P x keep (n + 1) (apply x board e).0 log final
      (fold_next x n board e log final h) (keep board e p)

pub fold-start :
    (x : Externs) (genesis : MerkleNode Genesis) (log : List LogEntry) (final : Board)
    → fold x genesis log ≡ ok final
    → (flock : ContentId) × (x.genesis_id genesis ≡ some flock)
      × (fold_from x 0 (start flock genesis) log ≡ ok final)
unfolding fold new
fold-start x genesis log final h = elim (Option-cases (x.genesis_id genesis)) [
  | inl missing ↦ absurd (ground arith)
  | inr (flock, e) ↦ (flock, e, ground arith)
]

-- An admitted event stays as it was admitted: folding more of the log, where that succeeds, changes
-- or removes no entry.
pub fold_from-get :
    (x : Externs) (n : ℕ) (board : Board) (log : List LogEntry) (final : Board) (id : ContentId)
    (entry : Entry)
    → fold_from x n board log ≡ ok final
    → get board id ≡ some entry
    → get final id ≡ some entry
fold_from-get x n board log final id entry h p =
    fold_induction (λ b. get b id ≡ some entry) x (λ b e. apply-get x b e id entry) n board log
      final h p

-- The first event to close a target stays its closer, whatever the rest of the log holds, provided
-- that the rest folds.
pub fold_from-closer_of :
    (x : Externs) (n : ℕ) (board : Board) (log : List LogEntry) (final : Board)
    (target c : ContentId)
    → fold_from x n board log ≡ ok final
    → closer_of board target ≡ some c
    → closer_of final target ≡ some c
fold_from-closer_of x n board log final target c h p =
    fold_induction (λ b. closer_of b target ≡ some c) x (λ b e. apply-closer_of x b e target c) n
      board log final h p
