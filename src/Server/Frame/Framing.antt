-- ===== src/Server/Frame/Framing.antt =====
-- frame.rs: what `next` reads of what `encode` wrote, whole or torn.
use agent_mesh.Common.{
  ℕ, ◌+◌, ◌-◌, ◌≤◌, ◌<◌, ◌≡◌, refl, sym, ap, ◌∙◌, some, List, ◌++◌, length, ltb, nat_eq,
  list_eq_iff, arith, length-append, ok, Option-cases, Bool-cases, inl, inr,
}
use mathlib.Core.List.{append_assoc}
use agent_mesh.Common.Bytes.{
  take, drop, be_bytes, take-append, drop-append, length-be_bytes, from_be_bytes-be_bytes,
  length-take, take-append_second, drop-drop,
}
use agent_mesh.Server.Frame.{Wire, Next, check, encode, next_of, tag}

-- What the crates promise: a decoder reads back what the encoder wrote, and a hash has four bytes at
-- least.
pub record IsFaithful {T : Type 0} (w : Wire T) : Type 0 where
  pub reads_back : (v : T) (bytes : List ℕ) → w.to_cbor v ≡ some bytes → w.from_cbor bytes ≡ some v
  pub wide : (m : List ℕ) → 4 ≤ length (w.hash m)

module _ {T : Type 0} (w : Wire T) (good : IsFaithful w) where
  length-check : (len : List ℕ) → length (check w len) ≡ 4
  unfolding check
  length-check len = length-take (w.hash (len ++ tag)) 4 (good.wide (len ++ tag))

  -- A header that says `k`, and whatever follows it.
  headed : ℕ → List ℕ → List ℕ
  headed k body = be_bytes 4 k ++ (check w (be_bytes 4 k) ++ body)

  length-headed : (k : ℕ) (body : List ℕ) → length (headed k body) ≡ 8 + length body
  unfolding headed
  length-headed k body = ground (
    arith,
    length-append (be_bytes 4 k) (check w (be_bytes 4 k) ++ body),
    length-append (check w (be_bytes 4 k)) body,
    length-be_bytes 4 k,
    length-check (be_bytes 4 k),
  )

  headed-append : (k : ℕ) (body rest : List ℕ) → headed k body ++ rest ≡ headed k (body ++ rest)
  unfolding headed
  headed-append k body rest =
      append_assoc (be_bytes 4 k) (check w (be_bytes 4 k) ++ body) rest
      ∙ ap (λ t. be_bytes 4 k ++ t) (append_assoc (check w (be_bytes 4 k)) body rest)

  take-headed_body :
      (k n : ℕ) (body : List ℕ) → take (8 + n) (headed k body) ≡ headed k (take n body)
  unfolding headed
  take-headed_body k n body =
      let len = length-be_bytes 4 k in
      let sum = length-check (be_bytes 4 k) in
      let one = take-append_second (be_bytes 4 k) (check w (be_bytes 4 k) ++ body) (4 + n) in
      let two = take-append_second (check w (be_bytes 4 k)) body n in
      let three : length (be_bytes 4 k) + (4 + n) ≡ 8 + n = omega arith in
      let four : length (check w (be_bytes 4 k)) + n ≡ 4 + n = omega arith in
      ap (λ m. take m (be_bytes 4 k ++ (check w (be_bytes 4 k) ++ body))) (sym three)
      ∙ one
      ∙ ap (λ t. be_bytes 4 k ++ t)
          (ap (λ m. take m (check w (be_bytes 4 k) ++ body)) (sym four) ∙ two)

  -- The three parts of it.
  take-headed : (k : ℕ) (body : List ℕ) → take 4 (headed k body) ≡ be_bytes 4 k
  unfolding headed
  take-headed k body =
      take-append (be_bytes 4 k) (check w (be_bytes 4 k) ++ body) 4 (length-be_bytes 4 k)

  drop-headed : (k : ℕ) (body : List ℕ) → drop 4 (headed k body) ≡ check w (be_bytes 4 k) ++ body
  unfolding headed
  drop-headed k body =
      drop-append (be_bytes 4 k) (check w (be_bytes 4 k) ++ body) 4 (length-be_bytes 4 k)

  check-headed : (k : ℕ) (body : List ℕ) → take 4 (drop 4 (headed k body)) ≡ check w (be_bytes 4 k)
  check-headed k body =
      rw (drop-headed k body)
        (take-append (check w (be_bytes 4 k)) body 4 (length-check (be_bytes 4 k)))

  body-headed : (k : ℕ) (body : List ℕ) → drop 8 (headed k body) ≡ body
  body-headed k body = rw (drop-drop (headed k body) 4 4) (
      rw (drop-headed k body)
        (drop-append (check w (be_bytes 4 k)) body 4 (length-check (be_bytes 4 k))))

  next_of-torn :
      (at k : ℕ) (body : List ℕ)
      → k < 4294967296
      → length body < k
      → next_of w at (headed k body) ≡ ok Next.torn
  unfolding next_of
  next_of-torn at k body small short =
      let whole = length-headed k body in
      let len = take-headed k body in
      let sum = check-headed k body in
      let says = from_be_bytes-be_bytes k small in
      let same = list_eq_iff (check w (be_bytes 4 k)) (check w (be_bytes 4 k)) in
      ground (arith, whole, len, sum, says, same)

  next_of-frame :
      (at k : ℕ) (body : List ℕ) (v : T)
      → k < 4294967296
      → k ≤ length body
      → w.from_cbor (take k body) ≡ some v
      → next_of w at (headed k body) ≡ ok (Next.frame v (at + (8 + k)))
  unfolding next_of
  next_of-frame at k body v small long read =
      let whole = length-headed k body in
      let len = take-headed k body in
      let sum = check-headed k body in
      let rest = body-headed k body in
      let says = from_be_bytes-be_bytes k small in
      let same = list_eq_iff (check w (be_bytes 4 k)) (check w (be_bytes 4 k)) in
      let exact : (8 + k) - 8 ≡ k = omega arith in
      ground (arith, whole, len, sum, rest, says, same, exact)

  -- What `encode` writes is a headed payload.
  record Encoding (v : T) (bytes : List ℕ) : Type 0 where
    payload : List ℕ
    whole : bytes ≡ headed (length payload) payload
    small : length payload < 4294967296
    read : w.from_cbor payload ≡ some v

  encode-Encoding : (v : T) (bytes : List ℕ) → encode w v ≡ ok bytes → Encoding v bytes
  unfolding encode headed
  encode-Encoding v bytes h = elim (Option-cases (w.to_cbor v)) [
    | inl bad ↦ absurd (ground arith)
    | inr (payload, written) ↦ elim (Bool-cases (ltb (length payload) 4294967296)) [
      | inr large ↦ absurd (ground arith)
      | inl fits ↦ record {
        payload = payload;
        whole = ground arith;
        small = ground arith;
        read = good.reads_back v payload written;
      }
    ]
  ]

  -- The bytes of a frame are read back as the frame, whatever follows them.
  pub next_of-encode :
      (v : T) (bytes rest : List ℕ) (at : ℕ)
      → encode w v ≡ ok bytes
      → next_of w at (bytes ++ rest) ≡ ok (Next.frame v (at + length bytes))
  next_of-encode v bytes rest at h =
      let e = encode-Encoding v bytes h in
      let size : length bytes ≡ 8 + length e.payload =
        ap length e.whole ∙ length-headed (length e.payload) e.payload in
      let cut : bytes ++ rest ≡ headed (length e.payload) (e.payload ++ rest) =
        ap (λ t. t ++ rest) e.whole ∙ headed-append (length e.payload) e.payload rest in
      let long = length-append e.payload rest in
      let exact = take-append e.payload rest (length e.payload) refl in
      rw cut (
        rw size (
          next_of-frame at (length e.payload) (e.payload ++ rest) v e.small (omega arith)
            (rw exact e.read)))

  -- A part of a frame that is not the whole is torn.
  pub next_of-prefix :
      (v : T) (bytes : List ℕ) (n at : ℕ)
      → encode w v ≡ ok bytes
      → 0 < n
      → n < length bytes
      → next_of w at (take n bytes) ≡ ok Next.torn
  unfolding next_of
  next_of-prefix v bytes n at h more short =
      let e = encode-Encoding v bytes h in
      let size : length bytes ≡ 8 + length e.payload =
        ap length e.whole ∙ length-headed (length e.payload) e.payload in
      elim (Bool-cases (ltb n 8)) [
        | inl few ↦ ground (arith, length-take bytes n)
        | inr many ↦
            let split : 8 + (n - 8) ≡ n = ground arith in
            let part : take n bytes ≡ headed (length e.payload) (take (n - 8) e.payload) =
              ap (λ m. take m bytes) (sym split)
              ∙ ap (take (8 + (n - 8))) e.whole
              ∙ take-headed_body (length e.payload) (n - 8) e.payload in
            let left : n - 8 < length e.payload = omega arith in
            let room = length-take e.payload (n - 8) in
            rw part
              (next_of-torn at (length e.payload) (take (n - 8) e.payload) e.small (omega arith))
      ]

  -- Every frame takes room.
  pub length-encode : (v : T) (bytes : List ℕ) → encode w v ≡ ok bytes → 8 ≤ length bytes
  length-encode v bytes h =
      let e = encode-Encoding v bytes h in
      let size : length bytes ≡ 8 + length e.payload =
        ap length e.whole ∙ length-headed (length e.payload) e.payload in
      omega arith
