-- ===== src/Protocol/Authority/Binding.antt =====
-- authority.rs: what `ResolvedGrant::bind` guarantees, given that ids do not collide.
use agent_mesh.Common.{◌≡◌, ◌≢◌, arith, ok}
use agent_mesh.Protocol.Authority.{ContentId, Authority, Grant, ResolvedGrant, Ids, bind}

-- Two authority bodies with one id are one body.
abbrev pub CollisionFree : Ids → Type 0
CollisionFree ids =
    (a b : Authority) (i : ContentId)
    → ids.authority_id a ≡ ok i
    → ids.authority_id b ≡ ok i
    → a ≡ b

-- The pair that `bind` returns is the given one, and the grant names the body by its id.
pub bind_sound :
    (ids : Ids) (g : Grant) (a : Authority) (r : ResolvedGrant)
    → bind ids g a ≡ ok r
    → (r.grant ≡ g) × (r.authority ≡ a) × (ids.authority_id r.authority ≡ ok r.grant.authority)
unfolding bind
bind_sound ids g a r h = (ground arith, ground arith, ground arith)

-- No body can be substituted: where ids do not collide, a grant binds with one body at most, so a
-- grant that is bound to `a` refuses every other body.
pub bind_no_substitute :
    (ids : Ids) (g : Grant) (a b : Authority) (r s : ResolvedGrant)
    → CollisionFree ids
    → bind ids g a ≡ ok r
    → a ≢ b
    → bind ids g b ≢ ok s
bind_no_substitute ids g a b r s free ha ne hb =
    let sa = bind_sound ids g a r ha in
    let sb = bind_sound ids g b s hb in ne (free a b g.authority (ground arith) (ground arith))
