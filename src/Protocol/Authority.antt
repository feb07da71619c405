-- ===== src/Protocol/Authority.antt =====
-- agent-mesh-protocol/src/authority.rs: authorities, grants and their derivation. `Edge` checks
-- one edge, `Chain` a whole chain, and `Fence` a native fence against the delegated grant.
--
-- A `ContentId` (crate content_addressable) is the number that its bytes spell; the program compares
-- ids and does nothing else with them. Computing an id is that crate's work, so it is a parameter,
-- and may fail.
pub mod Binding
pub mod Edge
pub mod Chain
pub mod Fence
mod Examples
use agent_mesh.Common.{
  ℕ, String, ◌≡◌, refl, Bool, true, false, arith, ◌==◌, not, Result, ok, err, ◌>>=◌, if◌then◌else◌,
  ==_iff,
}
use agent_mesh.Protocol.Caveats.{Caveats}

abbrev pub ContentId : Type 0
ContentId = ℕ

pub record Authority : Type 0 where
  pub caveats : Caveats

pub data Derivation : Type 0 where
  root : Derivation
  attenuation : ContentId → Derivation
  elevation : ContentId → ContentId → Derivation

pub record Grant : Type 0 where
  pub authority : ContentId
  pub derivation : Derivation

pub record ResolvedGrant : Type 0 where
  pub grant : Grant
  pub authority : Authority

pub data BindError : Type 0 where
  encoding : String → BindError
  authority_cid_mismatch : ContentId → ContentId → BindError

-- The ids of the two kinds of objects; an encoding error carries its text.
pub record Ids : Type 0 where
  pub authority_id : Authority → Result String ContentId
  pub grant_id : Grant → Result String ContentId

abbrev bind_id : Grant → Authority → Result String ContentId → Result BindError ResolvedGrant
bind_id grant authority (err e) = err (encoding e)
bind_id grant authority (ok of_body) =
    if not (of_body == grant.authority)
    then err (authority_cid_mismatch grant.authority of_body)
    else ok (record { grant = grant; authority = authority })

unfoldable pub bind : Ids → Grant → Authority → Result BindError ResolvedGrant
bind ids grant authority = bind_id grant authority (ids.authority_id authority)
