-- ===== src/Server/Sessions/Approver.antt =====
-- sessions.rs: `approver_ok`, who may approve a hand-off.
use agent_mesh.Common.{
  ℕ, String, Bool, true, false, not, ◌&&◌, ◌||◌, Option, none, some, str_eq, string_eq, nat_eq, any,
  find, if◌then◌else◌, Result, ◌>>=◌, ◌>>◌, fail_if, ok_or,
}
use agent_mesh.Protocol.Certs.{agent_fingerprint, issuer}
use agent_mesh.Protocol.Assertion
use agent_mesh.Protocol.Assertion.{Assertion, is_direct}
use agent_mesh.Flock.Event.{ContentId, Member, Role, Signer, SignerClass}
use agent_mesh.Flock.Board.{Board}
use agent_mesh.Flock.Roster.{lists_device}
use agent_mesh.Server.Errors.{
  Why, Crates, not_a_listed_device, not_for_a_device, delegate_needs_device, not_an_authority,
  not_a_shepherd,
}
use agent_mesh.Server.Sessions.{Sessions}
use agent_mesh.Server.Sessions.Resolve.{resolve, lift, is_user}
use agent_mesh.Server.Chain.{Chain}

abbrev pub has_name : String → Member → Bool
has_name name m = str_eq m.name name

abbrev is_authority : Signer → Option String
is_authority signer = elim signer.class [
  | SignerClass.session member p ↦ if p then none else some member
  | SignerClass.server ↦ none
  | SignerClass.operator ↦ none
]

abbrev is_role : Role → Role → Bool
is_role Role.shepherd Role.shepherd = true
is_role Role.helper Role.helper = true
is_role _ _ = false

abbrev is_shepherd_named : Board → String → Bool
is_shepherd_named board name = elim (find (has_name name) board.members) [
  | none ↦ false
  | some m ↦ is_role m.role Role.shepherd
]

abbrev device_approves :
    Crates → Board → Member → ContentId → Assertion → Chain → ℕ → Result Why (Unit {0})
device_approves x board member ap_id sig chain epoch = do
  fail_if (not (any (lists_device (agent_fingerprint x.keys sig.author)) board.members))
      not_a_listed_device
  lift (Assertion.verify_user x.keys x.to_bytes sig ap_id chain.user epoch)
  fail_if (not (member.delegate || is_role member.role Role.shepherd)) not_for_a_device

abbrev session_approves :
    Crates → Sessions → Board → Member → ContentId → Assertion → Chain → ℕ → Result Why (Unit {0})
session_approves x s board member ap_id sig chain epoch = do
  fail_if member.delegate delegate_needs_device
  signer ← resolve x s sig ap_id chain.server_pub chain.user epoch
  approver ← ok_or (is_authority signer) not_an_authority
  fail_if (not (is_shepherd_named board approver && is_role member.role Role.helper)) not_a_shepherd

unfoldable pub approver_ok :
    Crates → Sessions → Board → Member → ContentId → Assertion → Chain → ℕ → Result Why (Unit {0})
approver_ok x s board member ap_id sig chain epoch =
    if is_user (issuer sig.author)
    then device_approves x board member ap_id sig chain epoch
    else session_approves x s board member ap_id sig chain epoch
