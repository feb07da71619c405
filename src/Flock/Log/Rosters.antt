-- ===== src/Flock/Log/Rosters.antt =====
-- How the roster changes along a log.
use agent_mesh.Common.{
  String, ◌≡◌, refl, true, false, Option, none, List, arith, ok, any, set_eq, string_eq, nat_eq,
  set_eq_refl, all, distinct,
}
use agent_mesh.Flock.Kind.{Kind}
use agent_mesh.Flock.Event.{ContentId, Fingerprint, Member, Genesis, MerkleNode, Body, Signer}
use agent_mesh.Flock.Board.{Board, Externs, Verdict, ConflictKind}
use agent_mesh.Flock.Roster.{
  roster_well_formed, roots_well_formed, check_devices, check_roots, is_server, lists_device,
  delegate_of,
}
use agent_mesh.Flock.Roster.Lock.{check_devices-well_formed, check_devices_locked}
use agent_mesh.Flock.Admission.{check_roster}
use agent_mesh.Flock.Admission.Checks.{closes-Checked}
use agent_mesh.Flock.Log.{LogEntry, roster_of, roster_after, enter, apply, fold, start}
use agent_mesh.Flock.Log.Applied.{Applied, repeated, refused, entered, flag, apply-Applied}
use agent_mesh.Flock.Log.Induction.{fold-start, fold_induction}

-- An event leaves the roster's members and roots alone, or it carries new ones that pass the checks.
pub data Change (board : Board) (signer : Signer) : List Member → List String → Type 0 where
  same : Change board signer board.members board.roots
  replaced :
      (members : List Member) (roots : List String)
      → check_devices board members signer ≡ ok tt
      → check_roots board roots signer ≡ ok tt
      → Change board signer members roots

roster_checks :
    (board : Board) (signer : Signer) (members : List Member) (roots : List String)
    → check_roster board (Body.roster members roots) signer ≡ ok tt
    → (check_devices board members signer ≡ ok tt) × (check_roots board roots signer ≡ ok tt)
roster_checks board signer members roots h = ground arith

of-Change :
    (board : Board) (signer : Signer) (id : ContentId) (k : Kind) (b : Body)
    (c : Option ConflictKind)
    → check_roster board b signer ≡ ok tt
    → let r = roster_of (board.roster_id, board.members, board.roots) id k b c in
      Change board signer r.1 r.2
of-Change board signer id Kind.roster (Body.roster members roots) none h =
    let checks = roster_checks board signer members roots h in
    replaced members roots checks.0 checks.1
of-Change board signer id Kind.roster _ _ h = same
of-Change board signer id _ _ _ h = same

Applied-Change :
    (x : Externs) (board : Board) (e : LogEntry) (r : Board × Verdict)
    → Applied x board e r
    → Change board e.signer r.0.members r.0.roots
unfolding enter roster_after
Applied-Change x board e _ (repeated _ _ _ _) = same
Applied-Change x board e _ (refused r) = same
Applied-Change x board e _ (entered f) =
    of-Change board e.signer f.id e.node.payload.kind e.node.payload.body (flag board f.closed)
      (closes-Checked x board e.node e.signer f.closed f.checked).roster

pub apply-Change :
    (x : Externs) (board : Board) (e : LogEntry)
    → Change board e.signer (apply x board e).0.members (apply x board e).0.roots
apply-Change x board e = Applied-Change x board e (apply x board e) (apply-Applied x board e)

abbrev pub WellFormed : Board → Type 0
WellFormed board =
    (roster_well_formed board.members ≡ true) × (roots_well_formed board.roots ≡ true)

roots_checked :
    (board : Board) (roots : List String) (signer : Signer)
    → check_roots board roots signer ≡ ok tt
    → roots_well_formed roots ≡ true
unfolding check_roots
roots_checked board roots signer h = ground arith

Change-WellFormed :
    (board : Board) (signer : Signer) (ms : List Member) (rs : List String)
    → Change board signer ms rs
    → WellFormed board
    → (roster_well_formed ms ≡ true) × (roots_well_formed rs ≡ true)
Change-WellFormed board signer _ _ same w = w
Change-WellFormed board signer _ _ (replaced ms rs d r) w =
    (check_devices-well_formed board ms signer d, roots_checked board rs signer r)

apply-WellFormed :
    (x : Externs) (board : Board) (e : LogEntry) → WellFormed board → WellFormed (apply x board e).0
apply-WellFormed x board e w = Change-WellFormed board e.signer _ _ (apply-Change x board e) w

start-WellFormed :
    (flock : ContentId) (genesis : MerkleNode Genesis)
    → roster_well_formed genesis.payload.roster ≡ true
    → WellFormed (start flock genesis)
unfolding start roots_well_formed all distinct
start-WellFormed flock genesis h = (h, refl)

-- If the genesis roster is well formed, so is the roster of every board that folds from a log (names
-- are unique, devices belong to operators only, and one member at most is the delegate), and its
-- file roots are plain and unique.
pub fold-WellFormed :
    (x : Externs) (genesis : MerkleNode Genesis) (log : List LogEntry) (final : Board)
    → roster_well_formed genesis.payload.roster ≡ true
    → fold x genesis log ≡ ok final
    → WellFormed final
fold-WellFormed x genesis log final w h =
    let (flock, _, from) = fold-start x genesis log final h in
    fold_induction WellFormed x (apply-WellFormed x) 0 (start flock genesis) log final from
      (start-WellFormed flock genesis w)

-- What only the server changes.
pub record Locked (before : Board) (members : List Member) (roots : List String) : Type 0 where
  pub devices :
      (d : Fingerprint) → any (lists_device d) members ≡ any (lists_device d) before.members
  pub delegate : delegate_of members ≡ delegate_of before.members
  pub same_roots : set_eq roots before.roots ≡ true

roots_locked_lem :
    (board : Board) (roots : List String) (signer : Signer)
    → is_server signer.class ≡ false
    → check_roots board roots signer ≡ ok tt
    → set_eq roots board.roots ≡ true
unfolding check_roots
roots_locked_lem board roots signer s h = ground arith

Change-Locked :
    (board : Board) (signer : Signer) (ms : List Member) (rs : List String)
    → Change board signer ms rs
    → is_server signer.class ≡ false
    → roster_well_formed board.members ≡ true
    → Locked board ms rs
Change-Locked board signer _ _ same s w = record {
  devices = λ d. refl;
  delegate = refl;
  same_roots = set_eq_refl board.roots;
}
Change-Locked board signer _ _ (replaced ms rs c r) s w = record {
  devices = λ d. (check_devices_locked board ms signer d w s c).0;
  delegate = (check_devices_locked board ms signer 0 w s c).1;
  same_roots = roots_locked_lem board rs signer s r;
}

-- From a well-formed roster, no entry of a signer other than the server, a shepherd's roster
-- included, changes which keys count as operator devices, who the delegate is, or which file roots
-- are declared.
pub apply-Locked :
    (x : Externs) (board : Board) (e : LogEntry)
    → roster_well_formed board.members ≡ true
    → is_server e.signer.class ≡ false
    → Locked board (apply x board e).0.members (apply x board e).0.roots
apply-Locked x board e w s = Change-Locked board e.signer _ _ (apply-Change x board e) s w
