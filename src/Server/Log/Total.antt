-- ===== src/Server/Log/Total.antt =====
-- log.rs: the fuel of the loop of `parse`.
use agent_mesh.Common.{
  ℕ, zero, suc, ◌+◌, ◌-◌, ◌≤◌, ◌<◌, ◌≡◌, refl, none, some, List, [], ◌∷◌, ◌++◌, length, nat_eq,
  Result, ok, err, arith, inl, inr, Option-cases, Result-cases,
}
use agent_mesh.Common.Bytes.{take, drop, length-drop, from_be_bytes}
use agent_mesh.Server.Frame.{Wire, Next, next_of}
use agent_mesh.Server.Log.{Parsed, LogError, parse_from, parse}

module _ {T : Type 0} (w : Wire T) where
  -- A frame ends behind its header, and inside the bytes.
  next_of-bounds :
      (at stop : ℕ) (rest : List ℕ) (v : T)
      → next_of w at rest ≡ ok (Next.frame v stop)
      → (at + 8 ≤ stop) × (stop ≤ at + length rest)
  unfolding next_of
  next_of-bounds at stop rest v h =
      elim (Option-cases
        (w.from_cbor (take ((8 + from_be_bytes (take 4 rest)) - 8) (drop 8 rest)))) [
          | inl bad ↦ absurd (ground arith)
          | inr (u, read) ↦ (ground arith, ground arith)
        ]

  -- Fuel beyond the bytes that are left is enough.
  parse_from_total :
      (fuel at : ℕ) (bytes : List ℕ) (acc : List (ℕ × T))
      → at ≤ length bytes
      → length bytes < at + fuel
      → (r : Result LogError (Parsed T)) × (parse_from w fuel bytes at acc ≡ some r)
  unfolding parse_from
  parse_from_total zero at bytes acc inside enough = absurd (omega arith)
  parse_from_total (suc fuel) at bytes acc inside enough =
      elim (Result-cases (next_of w at (drop at bytes))) [
        | inr (why, bad) ↦ (err (LogError.corrupt at why), rw (bad, parse_from) refl)
        | inl (Next.end, found) ↦
            (ok (record { frames = acc; at = at; cut = none }), rw (found, parse_from) refl)
        | inl (Next.torn, found) ↦
            (ok (record { frames = acc; at = at; cut = some at }), rw (found, parse_from) refl)
        | inl (Next.frame v stop, found) ↦
            let (past, within) = next_of-bounds at stop (drop at bytes) v found in
            let left = length-drop bytes at in
            let (r, done) =
              parse_from_total fuel stop bytes (acc ++ ((at, v) ∷ [])) (omega arith)
                (omega arith) in
            (r, rw (found, parse_from) done)
      ]

  -- The loop of `parse` ends on every file, damaged ones too: there is a result, the frames or the
  -- damage, whatever the bytes are.
  pub parse_total : (bytes : List ℕ) → (r : Result LogError (Parsed T)) × (parse w bytes ≡ some r)
  unfolding parse
  parse_total bytes = parse_from_total (suc (length bytes)) 0 bytes [] (omega arith) (omega arith)
