-- ===== src/Server/Frame.antt =====
-- agent-mesh-flock-server/src/frame.rs: how a frame lies in the log. A header of eight bytes, the
-- length of the payload and a check of that length, and then the payload.
pub mod Framing
use agent_mesh.Common.{
  ℕ, ◌+◌, ◌-◌, ◌*◌, Bool, true, false, not, Option, List, [], ◌∷◌, ◌++◌, length, ltb, ◌==◌, nat_eq,
  list_eq, if◌then◌else◌, Result, ok, err, ◌>>=◌, ◌>>◌, fail_if, ok_or,
}
use agent_mesh.Common.Bytes.{take, drop, be_bytes, from_be_bytes}

-- What other crates compute: the canonical encoding of a value and its checked decoding, and the
-- blake3 hash.
pub record Wire (T : Type 0) : Type 0 where
  pub to_cbor : T → Option (List ℕ)
  pub from_cbor : List ℕ → Option T
  pub hash : List ℕ → List ℕ

pub data FrameError : Type 0 where
  unencodable too_large header_check bad_payload : FrameError

pub data Next (T : Type 0) : Type 0 where
  end torn : Next T
  frame : T → ℕ → Next T

abbrev pub header_len : ℕ
header_len = 8

-- `TAG`: the bytes of "flock-frame/v1".
abbrev pub tag : List ℕ
tag = 102 ∷ 108 ∷ 111 ∷ 99 ∷ 107 ∷ 45 ∷ 102 ∷ 114 ∷ 97 ∷ 109 ∷ 101 ∷ 47 ∷ 118 ∷ 49 ∷ []

module _ {T : Type 0} (w : Wire T) where
  unfoldable pub check : List ℕ → List ℕ
  check len = take 4 (w.hash (len ++ tag))

  unfoldable pub encode : T → Result FrameError (List ℕ)
  encode value = do
    payload ← ok_or (w.to_cbor value) FrameError.unencodable
    fail_if (not (ltb (length payload) 4294967296)) FrameError.too_large
    let len = be_bytes 4 (length payload)
    ok (len ++ (check len ++ payload))

  abbrev decoded : ℕ → ℕ → List ℕ → Result FrameError (Next T)
  decoded at stop rest = do
    value ←
        ok_or (w.from_cbor (take (stop - header_len) (drop header_len rest))) FrameError.bad_payload
    ok (Next.frame value (at + stop))

  abbrev payload_of : ℕ → ℕ → List ℕ → Result FrameError (Next T)
  payload_of at stop rest = if ltb (length rest) stop then ok Next.torn else decoded at stop rest

  abbrev header_of : ℕ → List ℕ → Result FrameError (Next T)
  header_of at rest =
      let len = take 4 rest in
      if list_eq (take 4 (drop 4 rest)) (check len)
      then payload_of at (header_len + from_be_bytes len) rest
      else err FrameError.header_check

  -- The bytes from this place on.
  unfoldable pub next_of : ℕ → List ℕ → Result FrameError (Next T)
  next_of at rest =
      if length rest == 0
      then ok Next.end
      else if ltb (length rest) header_len
      then ok Next.torn
      else header_of at rest

  abbrev pub next : List ℕ → ℕ → Result FrameError (Next T)
  next bytes at = next_of at (drop at bytes)
