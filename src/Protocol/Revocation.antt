-- ===== src/Protocol/Revocation.antt =====
-- agent-mesh-protocol/src/revocation.rs: the signed log of revocations, and the rollback check of a
-- reader. `Rollback` is about what a reader keeps, `Append` and `Growth` about a log that grows.
pub mod Steps
pub mod Runs
pub mod Rollback
pub mod Append
pub mod Growth
pub mod Contents
pub mod Guarded
mod Examples
use agent_mesh.Common.{
  ℕ, zero, suc, ◌+◌, ◌-◌, String, ◌≡◌, Bool, true, false, not, ◌||◌, Option, none, some, List, [],
  ◌∷◌, ◌++◌, map, leb, ltb, ◌==◌, length, contains, insert, nat_eq, Result, ok, err, ◌>>=◌, ◌>>◌,
  fail_if, ok_or, if◌then◌else◌,
}

-- A content id, a fingerprint, a key and a signature are the numbers that their bytes spell.
abbrev pub ContentId : Type 0
ContentId = ℕ

abbrev pub Fingerprint : Type 0
Fingerprint = ℕ

abbrev pub UserPublic : Type 0
UserPublic = ℕ

abbrev pub UserKey : Type 0
UserKey = ℕ

abbrev pub Signature : Type 0
Signature = ℕ

pub data RevocationEntry : Type 0 where
  genesis : UserPublic → RevocationEntry
  revoke : Fingerprint → RevocationEntry
  generation : ℕ → RevocationEntry

-- `MerkleNode<RevocationEntry>`, with the parents in order.
pub record Node : Type 0 where
  pub payload : RevocationEntry
  pub parents : List ContentId

pub record SignedEntry : Type 0 where
  pub node : Node
  pub sig : Signature

abbrev pub RevocationLog : Type 0
RevocationLog = List SignedEntry

pub record RevocationState : Type 0 where
  pub user : Fingerprint
  pub head : ContentId
  pub len : ℕ
  pub generation : ℕ
  pub revoked : List Fingerprint

pub record Seen : Type 0 where
  pub user : Fingerprint
  pub len : ℕ
  pub head : ContentId

abbrev pub seen : RevocationState → Seen
seen s = record { user = s.user; len = s.len; head = s.head }

-- The error messages of the module, and the errors of the crates it calls. `out_of_range` stands for
-- the panic of an index that is out of range.
pub data RevocationError : Type 0 where
  not_the_users_key genesis_only_starts must_increase missing_genesis not_a_genesis second_genesis
        does_not_increase broken_link bad_signature different_user rollback forks out_of_range :
      RevocationError
  encoding : String → RevocationError

-- The crates behind the log: content ids (content_addressable), signatures (ed25519-dalek) and
-- fingerprints (blake3). `verify` is true for a good signature.
pub record Crypto : Type 0 where
  pub node_id : Node → Result String ContentId
  pub to_bytes : ContentId → List ℕ
  pub fingerprint : UserPublic → Fingerprint
  pub public : UserKey → UserPublic
  pub sign : UserKey → List ℕ → Signature
  pub verify : UserPublic → List ℕ → Signature → Bool

-- The bytes of "agent-mesh/revocation/v1" and a zero byte.
abbrev pub revocation_domain : List ℕ
revocation_domain =
    97 ∷ 103 ∷ 101 ∷ 110 ∷ 116 ∷ 45 ∷ 109 ∷ 101 ∷ 115 ∷ 104 ∷ 47 ∷ 114 ∷ 101 ∷ 118 ∷ 111 ∷ 99 ∷ 97
    ∷ 116 ∷ 105 ∷ 111 ∷ 110 ∷ 47 ∷ 118 ∷ 49 ∷ 0 ∷ []

-- `node.id().map_err(..)`.
abbrev pub mapped_id : Result String ContentId → Result RevocationError ContentId
mapped_id (ok i) = ok i
mapped_id (err e) = err (encoding e)

module _ (x : Crypto) where
  abbrev pub message : ContentId → List ℕ
  message cid = revocation_domain ++ x.to_bytes cid

  unfoldable pub sign_node : UserKey → Node → Result RevocationError SignedEntry
  sign_node user node = do
    id ← mapped_id (x.node_id node)
    ok (record { node = node; sig = x.sign user (message id) })

  -- The parents are exactly the previous id, or none for the first entry.
  abbrev pub links : List ContentId → Option ContentId → Bool
  links [] none = true
  links (p ∷ []) (some q) = p == q
  links _ _ = false

  unfoldable pub check_link :
      UserPublic → SignedEntry → Option ContentId → Result RevocationError ContentId
  check_link user e prev = do
    fail_if (not (links e.node.parents prev)) broken_link
    id ← mapped_id (x.node_id e.node)
    fail_if (not (x.verify user (message id) e.sig)) bad_signature
    ok id

  -- The `match` of the loop.
  unfoldable pub advance :
      RevocationState → RevocationEntry → Result RevocationError RevocationState
  advance s (genesis user) = err second_genesis
  advance s (revoke agent) = ok (record s { revoked = insert agent s.revoked })
  advance s (generation current) = do
    fail_if (leb current s.generation) does_not_increase
    ok (record s { generation = current })

  -- One round of the loop.
  unfoldable pub verify_step :
      UserPublic → RevocationState → SignedEntry → Result RevocationError RevocationState
  verify_step user s e = do
    head ← check_link user e (some s.head)
    advance (record s { head = head; len = s.len + 1 }) e.node.payload

  -- The loop of `verify`.
  unfoldable pub verify_rest :
      UserPublic → RevocationState → List SignedEntry → Result RevocationError RevocationState
  verify_rest user s [] = ok s
  verify_rest user s (e ∷ es) = verify_step user s e >>= λ next. verify_rest user next es

  abbrev pub first_user : RevocationEntry → Result RevocationError UserPublic
  first_user (genesis user) = ok user
  first_user _ = err not_a_genesis

  abbrev pub first_state : UserPublic → ContentId → RevocationState
  first_state user head = record {
    user = x.fingerprint user;
    head = head;
    len = 1;
    generation = 0;
    revoked = [];
  }

  unfoldable pub verify : RevocationLog → Result RevocationError RevocationState
  verify [] = err missing_genesis
  verify (first ∷ rest) = do
    user ← first_user first.node.payload
    head ← check_link user first none
    verify_rest user (first_state user head) rest

  -- `RevocationLog::genesis`.
  unfoldable pub start : UserKey → Result RevocationError RevocationLog
  start user = do
    first ← sign_node user (record { payload = genesis (x.public user); parents = [] })
    ok (first ∷ [])

  abbrev pub check_entry : RevocationState → RevocationEntry → Result RevocationError (Unit {0})
  check_entry s (genesis user) = err genesis_only_starts
  check_entry s (generation current) = fail_if (leb current s.generation) must_increase
  check_entry s (revoke agent) = ok tt

  -- The log after the call, when it succeeds; it is unchanged otherwise.
  unfoldable pub append :
      RevocationLog → UserKey → RevocationEntry → Result RevocationError RevocationLog
  append log user entry = do
    s ← verify log
    fail_if (not (x.fingerprint (x.public user) == s.user)) not_the_users_key
    check_entry s entry
    e ← sign_node user (record { payload = entry; parents = s.head ∷ [] })
    ok (log ++ e ∷ [])

  -- `entries[n]`.
  unfoldable pub entry_at : List SignedEntry → ℕ → Option SignedEntry
  entry_at [] n = none
  entry_at (e ∷ es) zero = some e
  entry_at (e ∷ es) (suc n) = entry_at es n

  unfoldable pub extends : RevocationLog → Seen → Result RevocationError (Unit {0})
  extends log seen = do
    s ← verify log
    fail_if (not (s.user == seen.user)) different_user
    fail_if (seen.len == 0 || ltb s.len seen.len) rollback
    at ← ok_or (entry_at log (seen.len - 1)) out_of_range
    id ← mapped_id (x.node_id at.node)
    fail_if (not (id == seen.head)) forks
    ok tt
