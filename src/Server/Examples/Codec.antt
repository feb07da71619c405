-- ===== src/Server/Examples/Codec.antt =====
-- An encoding for one frame, the bump alone.
use agent_mesh.Common.{
  ◌≡◌, Bool, true, false, ◌&&◌, none, some, List, [], ◌∷◌, ◌==◌, str_eq, eq_iff, list_eq, nat_eq,
  is_none, arith, if◌then◌else◌,
}
use agent_mesh.Flock.Kind.{Kind}
use agent_mesh.Flock.Event.{Event, Body}
use agent_mesh.Server.Errors.{AdmissionRecord}
use agent_mesh.Server.Chain.{Sealed}
use agent_mesh.Server.Frame.{Wire}
use agent_mesh.Server.Frame.Framing
use agent_mesh.Server.Examples.{bump_node, bump_sealed}

abbrev is_bump_body : Body → Bool
is_bump_body (Body.epoch e) = e == 1
is_bump_body _ = false

is_bump_body_sound : (b : Body) → is_bump_body b ≡ true → b ≡ Body.epoch 1
is_bump_body_sound b h = ground arith

abbrev is_epoch_kind : Kind → Bool
is_epoch_kind Kind.epoch = true
is_epoch_kind _ = false

abbrev no_items {ℓ} : {A : Type ℓ} → List A → Bool
no_items [] = true
no_items (a ∷ as') = false

abbrev is_bump_event : Event → Bool
is_bump_event e =
    e.flock == 1
    && (is_epoch_kind e.kind
        && (str_eq e.author "07"
            && (is_none e.prev
                && (no_items e.refs && (no_items e.files && (e.at == 1 && is_bump_body e.body))))))

is_bump_event_sound : (e : Event) → is_bump_event e ≡ true → e ≡ bump_node.payload
is_bump_event_sound e h = ground (arith, eq_iff e.author "07", is_bump_body_sound e.body)

abbrev is_bump_record : AdmissionRecord → Bool
is_bump_record r = r.index == 1 && (r.epoch == 1 && (r.event == 11 && r.cert == 5))

abbrev is_bump : Sealed → Bool
is_bump s =
    is_bump_event s.event.payload
    && (no_items s.event.parents
        && (s.event_sig == 7
            && (is_bump_record s.record_node.payload
                && (list_eq s.record_node.parents (1 ∷ []) && s.record_sig == 7))))

is_bump_sound : (s : Sealed) → is_bump s ≡ true → s ≡ bump_sealed
is_bump_sound s h = ground (arith, is_bump_event_sound s.event.payload)

abbrev is_bump_frame : List Sealed → Bool
is_bump_frame (s ∷ []) = is_bump s
is_bump_frame _ = false

is_bump_frame_sound : (f : List Sealed) → is_bump_frame f ≡ true → f ≡ bump_sealed ∷ []
is_bump_frame_sound [] h = absurd (ground arith)
is_bump_frame_sound (s ∷ []) h = ground (arith, is_bump_sound s)
is_bump_frame_sound (s ∷ t ∷ r) h = absurd (ground arith)

abbrev pub frames : Wire (List Sealed)
frames = record {
  to_cbor = λ f. if is_bump_frame f then some (9 ∷ []) else none;
  from_cbor = λ b. some (bump_sealed ∷ []);
  hash = λ m. 1 ∷ 2 ∷ 3 ∷ 4 ∷ [];
}

pub frames-IsFaithful : Framing.IsFaithful frames
frames-IsFaithful = record {
  reads_back = λ f b. λ h. ground (arith, is_bump_frame_sound f);
  wide = λ m. ground arith;
}
