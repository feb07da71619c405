-- ===== src/Server/Log/Parsing.antt =====
-- log.rs: `parse` of a file of frames that were written, and of a torn one behind them.
use mathlib.Core.List.{append_assoc, append-nil}
use agent_mesh.Common.{
  ℕ, zero, suc, ◌+◌, ◌<◌, ◌≡◌, refl, sym, ap, subst, ◌∙◌, Option, none, some, List, [], ◌∷◌, ◌++◌,
  length, length-append, ok, arith,
}
use agent_mesh.Common.Bytes.{take, drop, drop-drop, drop-append}
use agent_mesh.Server.Frame.{Wire, Next, encode, next_of}
use agent_mesh.Server.Frame.Framing.{IsFaithful, next_of-encode, next_of-prefix, length-encode}
use agent_mesh.Server.Log.{parse_from, parse}

-- The bytes of these frames, the first at this offset.
pub data Written {T : Type 0} (w : Wire T) : ℕ → List (ℕ × T) → List ℕ → Type 0 where
  nothing : {at : ℕ} → Written w at [] []
  then :
      {at : ℕ} {rest : List (ℕ × T)} {more : List ℕ} (v : T) (bytes : List ℕ)
      → encode w v ≡ ok bytes
      → Written w (at + length bytes) rest more
      → Written w at ((at, v) ∷ rest) (bytes ++ more)

-- What may stand behind the frames: nothing, or a part of one more.
pub data Tail {T : Type 0} (w : Wire T) : List ℕ → Option ℕ → ℕ → Type 0 where
  clean : {at : ℕ} → Tail w [] none at
  part :
      {at : ℕ} (v : T) (bytes : List ℕ) (n : ℕ)
      → encode w v ≡ ok bytes
      → 0 < n
      → n < length bytes
      → Tail w (take n bytes) (some at) at

module _ {T : Type 0} (w : Wire T) where
  parse_from-stop :
      (fuel at : ℕ) (bytes : List ℕ) (acc : List (ℕ × T))
      → next_of w at (drop at bytes) ≡ ok Next.end
      → parse_from w (suc fuel) bytes at acc
        ≡ some (ok (record { frames = acc; at = at; cut = none }))
  unfolding parse_from
  parse_from-stop fuel at bytes acc h = rw (h, parse_from) refl

  parse_from-torn :
      (fuel at : ℕ) (bytes : List ℕ) (acc : List (ℕ × T))
      → next_of w at (drop at bytes) ≡ ok Next.torn
      → parse_from w (suc fuel) bytes at acc
        ≡ some (ok (record { frames = acc; at = at; cut = some at }))
  unfolding parse_from
  parse_from-torn fuel at bytes acc h = rw (h, parse_from) refl

  parse_from-frame :
      (fuel at stop : ℕ) (bytes : List ℕ) (acc : List (ℕ × T)) (v : T)
      → next_of w at (drop at bytes) ≡ ok (Next.frame v stop)
      → parse_from w (suc fuel) bytes at acc ≡ parse_from w fuel bytes stop (acc ++ ((at, v) ∷ []))
  unfolding parse_from
  parse_from-frame fuel at stop bytes acc v h = rw (h, parse_from) refl

module _ {T : Type 0} (w : Wire T) (good : IsFaithful w) where
  -- Fuel beyond the number of bytes that are left is enough.
  pub parse_from-Written :
      (fuel at : ℕ) (bytes : List ℕ) (acc frames : List (ℕ × T)) (body tail : List ℕ)
      (cut : Option ℕ)
      → Written w at frames body
      → Tail w tail cut (at + length body)
      → drop at bytes ≡ body ++ tail
      → length body < fuel
      → parse_from w fuel bytes at acc
        ≡ some (ok (record { frames = acc ++ frames; at = at + length body; cut = cut }))
  unfolding next_of
  parse_from-Written zero at bytes acc frames body tail cut wr ta here enough =
      absurd (ground arith)
  parse_from-Written (suc fuel) at bytes acc frames body tail cut (Written.nothing) (Tail.clean)
        here enough =
      let all : acc ++ [] ≡ acc = append-nil acc in
      let same : at + 0 ≡ at = omega arith in
      rw all (rw same (parse_from-stop w fuel at bytes acc (rw here refl)))
  parse_from-Written (suc fuel) at bytes acc frames body tail cut (Written.nothing)
        (Tail.part v e n h more short) here enough =
      let all : acc ++ [] ≡ acc = append-nil acc in
      let same : at + 0 ≡ at = omega arith in
      rw all (
        rw same (
          parse_from-torn w fuel at bytes acc
            (rw here (next_of-prefix w good v e n at h more short))))
  parse_from-Written (suc fuel) at bytes acc frames body tail cut
        (Written.then {rest = rest} {more = more} v e h wr) ta here enough =
      let stop = at + length e in
      let long = length-encode w good v e h in
      let sum = length-append e more in
      let there : drop stop bytes ≡ more ++ tail =
        drop-drop bytes at (length e)
        ∙ ap (drop (length e)) (here ∙ append_assoc e more tail)
        ∙ drop-append e (more ++ tail) (length e) refl in
      let far : at + length (e ++ more) ≡ stop + length more = omega arith in
      let ta' : Tail w tail cut (stop + length more) = subst (Tail w tail cut) far ta in
      let again =
        parse_from-Written fuel stop bytes (acc ++ ((at, v) ∷ [])) rest more tail cut wr ta' there
          (omega arith) in
      let shape : (acc ++ ((at, v) ∷ [])) ++ rest ≡ acc ++ ((at, v) ∷ rest) =
        append_assoc acc ((at, v) ∷ []) rest in
      let first =
        parse_from-frame w fuel at stop bytes acc v
          (rw (here ∙ append_assoc e more tail) (next_of-encode w good v e (more ++ tail) at h)) in
      rw far (rw first (rw (sym shape) again))

  -- The frames that a file holds, and where they end: `parse` reads back, from the frames that were
  -- encoded one after another and a torn part of one more or nothing, those frames with their
  -- offsets, and the offset of the torn part if there is one.
  pub parse-Written :
      (frames : List (ℕ × T)) (body tail : List ℕ) (cut : Option ℕ)
      → Written w 0 frames body
      → Tail w tail cut (length body)
      → parse w (body ++ tail) ≡ some (ok (record { frames = frames; at = length body; cut = cut }))
  unfolding parse drop
  parse-Written frames body tail cut wr ta =
      let sum = length-append body tail in
      let at : 0 + length body ≡ length body = omega arith in
      let done =
        parse_from-Written (suc (length (body ++ tail))) 0 (body ++ tail) [] frames body tail cut wr
          (subst (Tail w tail cut) (sym at) ta) refl (omega arith) in
      subst
        (λ n.
          parse_from w (suc (length (body ++ tail))) (body ++ tail) 0 []
          ≡ some (ok (record { frames = frames; at = n; cut = cut })))
        at done
