-- ===== src/Server/Sessions.antt =====
-- agent-mesh-flock-server/src/sessions.rs: the sessions of a flock. `Resolve` finds who signed,
-- `Approver` who may approve a hand-off, `Check` is what a session event must satisfy, and `Observe` what it changes.
pub mod Resolve
pub mod Approver
pub mod Check
pub mod Observe
pub mod Approved
pub mod Single
pub mod Filed
use agent_mesh.Common.{
  ℕ, String, Bool, true, false, not, ◌&&◌, ◌||◌, Option, none, some, List, [], ◌∷◌, ◌==◌, str_eq,
  string_eq, nat_eq, opt_eq, contains, set_eq, any, filter, is_some, map, if◌then◌else◌,
}
use agent_mesh.Common.Maps
use agent_mesh.Common.Maps.{Map}
use agent_mesh.Protocol.Certs.{CertChain, Pubkey}
use agent_mesh.Flock.Event.{ContentId, RawContentId}

pub data Status : Type 0 where
  active pending ended : Status

pub record Session : Type 0 where
  pub member : String
  pub pubkey : Pubkey
  pub start : ContentId
  pub status : Status
  pub certs : List ContentId
  pub epoch : ℕ
  pub activated_by : Option ContentId

pub record Invite : Type 0 where
  pub member : String
  pub consumed : Bool

pub record InviteInfo : Type 0 where
  pub event : ContentId
  pub member : String
  pub consumed : Bool

pub record SessionInfo : Type 0 where
  pub member : String
  pub pubkey : Pubkey
  pub start : ContentId
  pub status : Status
  pub epoch : ℕ

pub record Sessions : Type 0 where
  pub invites : Map ContentId Invite
  pub verifiers : Map RawContentId ContentId
  pub sessions : Map String Session
  pub seen : List String
  pub holders : Map String String
  pub approvals : List ContentId
  pub chains : Map ContentId CertChain

-- `Sessions::default`.
abbrev pub default : Sessions
default = record {
  invites = [];
  verifiers = [];
  sessions = [];
  seen = [];
  holders = [];
  approvals = [];
  chains = [];
}

abbrev pub is_ended : Status → Bool
is_ended Status.ended = true
is_ended _ = false

abbrev pub is_pending : Status → Bool
is_pending Status.pending = true
is_pending _ = false

-- `Sessions::cert`.
abbrev pub cert_of : Sessions → ContentId → Option CertChain
cert_of s cid = Maps.get s.chains cid

abbrev pub session_of : Sessions → String → Option Session
session_of s session = Maps.get s.sessions session

abbrev info : Session → SessionInfo
info s = record {
  member = s.member;
  pubkey = s.pubkey;
  start = s.start;
  status = s.status;
  epoch = s.epoch;
}

abbrev opt_info : Option Session → Option SessionInfo
opt_info none = none
opt_info (some s) = some (info s)

-- `Sessions::get`.
unfoldable pub get : Sessions → String → Option SessionInfo
get s session = opt_info (session_of s session)

abbrev invite_info : ContentId → Option Invite → Option InviteInfo
invite_info event none = none
invite_info event (some i) =
    some (record { event = event; member = i.member; consumed = i.consumed })

abbrev invite_at : Sessions → Option ContentId → Option InviteInfo
invite_at s none = none
invite_at s (some event) = invite_info event (Maps.get s.invites event)

-- `Sessions::invite`.
unfoldable pub invite : Sessions → RawContentId → Option InviteInfo
invite s verifier = invite_at s (Maps.get s.verifiers verifier)

abbrev has_cert : ContentId → Option Session → Bool
has_cert cert none = false
has_cert cert (some s) = contains s.certs cert

-- `Sessions::issued`.
unfoldable pub issued : Sessions → String → ContentId → Bool
issued s session cert = has_cert cert (session_of s session)

-- `Sessions::live`: the sessions that have not ended, with the key and the epoch of each.
unfoldable pub live : Sessions → List (String × Pubkey × ℕ)
live s =
    map (λ e. (e.0, e.1.pubkey, e.1.epoch)) (filter (λ e. not (is_ended e.1.status)) s.sessions)
