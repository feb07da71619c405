-- ===== src/Flock/Roster/Lock.antt =====
-- Only the server changes which keys count as an operator's device, and who the delegate is.
use agent_mesh.Common.{
  String, ◌≡◌, refl, Bool, true, false, ◌||◌, none, some, List, [], ◌∷◌, arith, ok, eq_iff, nat_eq,
  string_eq, list_eq_class, opt_eq_iff, any, all, contains, distinct, ◌==◌, Bool-cases, Bool-ext,
  inl, inr, sym, ◌∙◌,
}
use agent_mesh.Common.Maps
use agent_mesh.Common.Maps.{Map}
use agent_mesh.Flock.Event.{Fingerprint, Member, Signer}
use agent_mesh.Flock.Board.{Board}
use agent_mesh.Flock.Roster.{
  is_empty, names, devices_fit, roster_well_formed, delegate_of, sorted_insert, sort,
  collect_bindings, bindings, map_le, map_eq, is_server, check_devices, lists_device,
}

abbrev Bindings : Type 0
Bindings = Map String (List Fingerprint)

contains-sorted_insert :
    (x : Fingerprint) (xs : List Fingerprint) (d : Fingerprint)
    → contains (sorted_insert x xs) d ≡ (x == d || contains xs d)
unfolding sorted_insert contains
contains-sorted_insert x [] d = refl
contains-sorted_insert x (y ∷ ys) d = ground (arith, contains-sorted_insert x ys d)

contains-sort : (xs : List Fingerprint) (d : Fingerprint) → contains (sort xs) d ≡ contains xs d
unfolding sort contains
contains-sort [] d = refl
contains-sort (x ∷ xs) d = ground (arith, contains-sorted_insert x (sort xs) d, contains-sort xs d)

-- Whether some member, of any role, lists the device.
abbrev holds_device : Fingerprint → Member → Bool
holds_device d m = contains m.devices d

contains-empty :
    (xs : List Fingerprint) (d : Fingerprint) → is_empty xs ≡ true → contains xs d ≡ false
unfolding contains
contains-empty [] d h = refl
contains-empty (x ∷ xs) d h = absurd (ground arith)

-- In a well-formed roster only operators have devices.
any-lists_device :
    (d : Fingerprint) (ms : List Member)
    → all devices_fit ms ≡ true
    → any (lists_device d) ms ≡ any (holds_device d) ms
unfolding any all devices_fit lists_device
any-lists_device d [] h = refl
any-lists_device d (m ∷ ms) h = ground (arith, any-lists_device d ms, contains-empty m.devices d)

-- Whether a map of bindings lists the device.
binds : Bindings → Fingerprint → Bool
binds b d = any (λ e. contains e.1 d) b

binds-insert :
    (b : Bindings) (k : String) (v : List Fingerprint) (d : Fingerprint)
    → Maps.get b k ≡ none
    → binds (Maps.insert b k v) d ≡ (binds b d || contains v d)
unfolding binds any Maps.get Maps.insert
binds-insert [] k v d h = ground arith
binds-insert ((j, w) ∷ b) k v d h = ground (arith, binds-insert b k v d)

-- No member of the list has a binding yet.
abbrev Unbound : Bindings → List Member → Type 0
Unbound b [] = Unit {0}
Unbound b (m ∷ ms) = (Maps.get b m.name ≡ none) × Unbound b ms

Unbound-insert :
    (b : Bindings) (k : String) (v : List Fingerprint) (ms : List Member)
    → contains (names ms) k ≡ false
    → Unbound b ms
    → Unbound (Maps.insert b k v) ms
unfolding contains
Unbound-insert b k v [] h u = tt
Unbound-insert b k v (m ∷ ms) h (f, u) = (
  ground (arith, Maps.get-insert b k v m.name, eq_iff k m.name, eq_iff m.name k),
  Unbound-insert b k v ms (ground arith) u,
)

Unbound-empty : (ms : List Member) → Unbound [] ms
unfolding Maps.get
Unbound-empty [] = tt
Unbound-empty (m ∷ ms) = (refl, Unbound-empty ms)

binds-collect :
    (b : Bindings) (ms : List Member) (d : Fingerprint)
    → distinct (names ms) ≡ true
    → Unbound b ms
    → binds (collect_bindings b ms) d ≡ (binds b d || any (holds_device d) ms)
unfolding collect_bindings any distinct
binds-collect b [] d h u = ground arith
binds-collect b (m ∷ ms) d h (f, u) = elim (Bool-cases (is_empty m.devices)) [
  | inl bare ↦
      rw bare
        (ground (arith, binds-collect b ms d (ground arith) u, contains-empty m.devices d bare))
  | inr full ↦ rw full (
      ground (
        arith,
        binds-collect (Maps.insert b m.name (sort m.devices)) ms d (ground arith)
            (Unbound-insert b m.name (sort m.devices) ms (ground arith) u),
        binds-insert b m.name (sort m.devices) d f,
        contains-sort m.devices d,
      ))
]

binds-bindings :
    (ms : List Member) (d : Fingerprint)
    → distinct (names ms) ≡ true
    → binds (bindings ms) d ≡ any (holds_device d) ms
unfolding bindings binds any
binds-bindings ms d h = binds-collect [] ms d h (Unbound-empty ms)

binds-get :
    (b : Bindings) (k : String) (v : List Fingerprint) (d : Fingerprint)
    → Maps.get b k ≡ some v
    → contains v d ≡ true
    → binds b d ≡ true
unfolding binds any Maps.get
binds-get [] k v d g h = absurd (ground arith)
binds-get ((j, w) ∷ b) k v d g h = ground (arith, binds-get b k v d)

binds-map_le :
    (a b : Bindings) (d : Fingerprint) → map_le a b ≡ true → binds a d ≡ true → binds b d ≡ true
unfolding map_le all binds any
binds-map_le [] b d l h = absurd (ground arith)
binds-map_le ((k, v) ∷ a) b d l h = elim (Bool-cases (contains v d)) [
  | inl here ↦ binds-get b k v d ((opt_eq_iff (Maps.get b k) (some v)).0 (ground arith)) here
  | inr there ↦ binds-map_le a b d (ground arith) (ground arith)
]

binds-map_eq : (a b : Bindings) (d : Fingerprint) → map_eq a b ≡ true → binds a d ≡ binds b d
unfolding map_eq
binds-map_eq a b d h =
    Bool-ext (binds a d) (binds b d) (binds-map_le a b d (ground arith))
      (binds-map_le b a d (ground arith))

-- A well-formed roster lists a device by an operator exactly if its bindings do.
listed-binds :
    (ms : List Member) (d : Fingerprint)
    → roster_well_formed ms ≡ true
    → any (lists_device d) ms ≡ binds (bindings ms) d
unfolding roster_well_formed
listed-binds ms d h =
    any-lists_device d ms (ground arith) ∙ sym (binds-bindings ms d (ground arith))

-- A roster that passes the check is well formed, whoever signed it.
pub check_devices-well_formed :
    (board : Board) (new : List Member) (signer : Signer)
    → check_devices board new signer ≡ ok tt
    → roster_well_formed new ≡ true
unfolding check_devices
check_devices-well_formed board new signer h = ground arith

locked_bindings :
    (board : Board) (new : List Member) (signer : Signer)
    → is_server signer.class ≡ false
    → check_devices board new signer ≡ ok tt
    → map_eq (bindings new) (bindings board.members) ≡ true
unfolding check_devices
locked_bindings board new signer s h = ground arith

same_delegate :
    (board : Board) (new : List Member) (signer : Signer)
    → is_server signer.class ≡ false
    → check_devices board new signer ≡ ok tt
    → delegate_of new ≡ delegate_of board.members
unfolding check_devices
same_delegate board new signer s h =
    ground (arith, opt_eq_iff (delegate_of new) (delegate_of board.members))

-- A roster from any other signer than the server that passes the check lists the same devices as
-- the current one, and has the same delegate.
pub check_devices_locked :
    (board : Board) (new : List Member) (signer : Signer) (d : Fingerprint)
    → roster_well_formed board.members ≡ true
    → is_server signer.class ≡ false
    → check_devices board new signer ≡ ok tt
    → (any (lists_device d) new ≡ any (lists_device d) board.members)
      × (delegate_of new ≡ delegate_of board.members)
check_devices_locked board new signer d w s h = (
  listed-binds new d (check_devices-well_formed board new signer h)
      ∙ binds-map_eq (bindings new) (bindings board.members) d
          (locked_bindings board new signer s h)
      ∙ sym (listed-binds board.members d w),
  same_delegate board new signer s h,
)
