-- ===== src/Flock/Roster.antt =====
-- agent-mesh-flock/src/admission.rs: what a roster may say, and what only the server may change in
-- one. A list of bytes is its text's characters: a character that is not ASCII fails each test here,
-- as its bytes do.
pub mod Lock
use Prim.Native.Char.{code}
use Prim.Native.String
use Prim.Native.String.{len}
use agent_mesh.Common.{
  ℕ, ◌≤◌, String, ◌≡◌, Bool, true, false, not, ◌&&◌, ◌||◌, Option, none, some, List, [], ◌∷◌, map,
  leb, ltb, ◌==◌, str_eq, Eq, string_eq, nat_eq, opt_eq, list_eq_class, length, any, all, find,
  filter, contains, distinct, set_eq, if◌then◌else◌, Result, ok, err, ◌>>=◌, ◌>>◌, fail_if,
}
use agent_mesh.Common.Maps
use agent_mesh.Common.Maps.{Map}
use agent_mesh.Flock.Event.{
  Fingerprint, Role, Member, Signer, SignerClass, shepherd, reviewer, helper, adapter, operator,
}
use agent_mesh.Flock.Board.{
  Board, Refusal, duplicate_member, multiple_delegates, delegate_locked, devices_on_non_operator,
  devices_locked, bad_root, roots_locked,
}

abbrev pub is_operator : Role → Bool
is_operator Role.operator = true
is_operator _ = false

abbrev pub is_empty {ℓ} : {A : Type ℓ} → List A → Bool
is_empty [] = true
is_empty (x ∷ xs) = false

abbrev pub names : List Member → List String
names ms = map (λ m. m.name) ms

abbrev pub delegates : List Member → List Member
delegates ms = filter (λ m. m.delegate) ms

unfoldable pub devices_fit : Member → Bool
devices_fit m = is_operator m.role || is_empty m.devices

unfoldable pub roster_well_formed : List Member → Bool
roster_well_formed ms = leb (length (delegates ms)) 1 && (distinct (names ms) && all devices_fit ms)

abbrev pub member_name : Option Member → Option String
member_name none = none
member_name (some m) = some m.name

unfoldable pub delegate_of : List Member → Option String
delegate_of ms = member_name (find (λ m. m.delegate) ms)

-- `sort_unstable` on fixed-size keys.
unfoldable pub sorted_insert : Fingerprint → List Fingerprint → List Fingerprint
sorted_insert d [] = d ∷ []
sorted_insert d (x ∷ xs) = if leb d x then d ∷ x ∷ xs else x ∷ sorted_insert d xs

unfoldable pub sort : List Fingerprint → List Fingerprint
sort [] = []
sort (x ∷ xs) = sorted_insert x (sort xs)

-- The loop of `collect`, into the map collected so far.
unfoldable pub collect_bindings :
    Map String (List Fingerprint) → List Member → Map String (List Fingerprint)
collect_bindings acc [] = acc
collect_bindings acc (m ∷ ms) =
    collect_bindings (if is_empty m.devices then acc else Maps.insert acc m.name (sort m.devices))
      ms

unfoldable pub bindings : List Member → Map String (List Fingerprint)
bindings ms = collect_bindings [] ms

-- Every entry of the one map is in the other.
unfoldable pub map_le : Map String (List Fingerprint) → Map String (List Fingerprint) → Bool
map_le m n = all (λ e. opt_eq (Maps.get n e.0) (some e.1)) m

-- `==` of two maps: the same keys with the same values.
unfoldable pub map_eq : Map String (List Fingerprint) → Map String (List Fingerprint) → Bool
map_eq m n = map_le m n && map_le n m

abbrev pub is_server : SignerClass → Bool
is_server SignerClass.server = true
is_server _ = false

unfoldable pub check_devices : Board → List Member → Signer → Result Refusal (Unit {0})
check_devices board new signer = do
  fail_if (not (distinct (names new))) duplicate_member
  fail_if (ltb 1 (length (delegates new))) multiple_delegates
  fail_if
      (not (is_server signer.class) && not (opt_eq (delegate_of new) (delegate_of board.members)))
      delegate_locked
  fail_if (not (roster_well_formed new)) devices_on_non_operator
  fail_if (not (is_server signer.class) && not (map_eq (bindings new) (bindings board.members)))
      devices_locked
  ok tt

-- Whether an operator member of the roster lists the device.
unfoldable pub lists_device : Fingerprint → Member → Bool
lists_device device m = is_operator m.role && contains m.devices device

unfoldable pub listed_device : Board → Fingerprint → Bool
listed_device board device = any (lists_device device) board.members

-- `is_ascii_alphanumeric`, or one of `.`, `_` and `-`.
abbrev pub is_plain : ℕ → Bool
is_plain c =
    leb b'a' c && leb c b'z'
    || (leb b'A' c && leb c b'Z'
        || (leb b'0' c && leb c b'9' || (c == b'.' || (c == b'_' || c == b'-'))))

abbrev pub all_chars : (ℕ → Bool) → String → Bool
all_chars p String.[] = true
all_chars p (String.◌∷◌ c s) = p (code c) && all_chars p s

unfoldable pub root_ok : String → Bool
root_ok r =
    (leb 1 (len r) && leb (len r) 64)
    && (all_chars is_plain r && (not (str_eq r ".") && not (str_eq r "..")))

unfoldable pub roots_well_formed : List String → Bool
roots_well_formed roots = all root_ok roots && distinct roots

unfoldable pub check_roots : Board → List String → Signer → Result Refusal (Unit {0})
check_roots board new signer = do
  fail_if (not (roots_well_formed new)) bad_root
  fail_if (not (is_server signer.class) && not (set_eq new board.roots)) roots_locked
  ok tt
