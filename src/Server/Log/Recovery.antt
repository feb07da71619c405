-- ===== src/Server/Log/Recovery.antt =====
-- log.rs: what a reopened log holds after an append that succeeded, failed or died.
use mathlib.Core.List.{append_assoc, append-nil}
use agent_mesh.Common.{
  ℕ, zero, suc, ◌+◌, ◌≡◌, refl, sym, ap, subst, ◌∙◌, Option, none, some, List, [], ◌∷◌, ◌++◌,
  length, length-append, min, Result, ltb, ok, err, ◌≢◌, Result-cases, arith, ◌⊎◌, inl, inr,
  Bool-cases,
}
use agent_mesh.Common.Bytes.{take, drop, take-append, take_all, drop_all}
use agent_mesh.Server.Frame.{Wire, FrameError, encode}
use agent_mesh.Server.Frame.Framing.{IsFaithful}
use agent_mesh.Server.Log.{
  Log, LogError, CrashPlan, after_bytes, before_sync, after_sync, open_log, commit_recovery, append,
  append_bytes, write,
}
use agent_mesh.Server.Log.Parsing.{Written, Tail, parse-Written}

-- A log whose file is these frames and nothing else.
pub record IsClean {T : Type 0} (w : Wire T) (log : Log) (frames : List (ℕ × T)) : Type 0 where
  pub held : Written w 0 frames log.file
  pub ends : log.end ≡ length log.file
  pub whole : log.cut ≡ none

-- A file that opens as these frames, and whose log is clean once recovery is committed.
pub record Reopens {T : Type 0} (w : Wire T) (bytes : List ℕ) (frames : List (ℕ × T)) : Type 0 where
  pub log : Log
  pub opened : open_log w bytes ≡ some (ok (log, frames))
  pub clean : IsClean w (commit_recovery log) frames

module _ {T : Type 0} (w : Wire T) (good : IsFaithful w) where
  Written-Reopens :
      (frames : List (ℕ × T)) (body tail : List ℕ) (cut : Option ℕ)
      → Written w 0 frames body
      → Tail w tail cut (length body)
      → Reopens w (body ++ tail) frames
  unfolding open_log commit_recovery
  Written-Reopens frames body tail cut wr (Tail.clean) = record {
    log = record { file = body ++ []; end = length body; cut = none; plan = none; syncs = 0 };
    opened = rw (parse-Written w good frames body [] none wr Tail.clean, open_log) refl;
    clean = record {
      held = subst (Written w 0 frames) (sym (append-nil body)) wr;
      ends = ap length (sym (append-nil body));
      whole = refl;
    };
  }
  Written-Reopens frames body tail cut wr (Tail.part v e n h more short) = record {
    log = record {
      file = body ++ take n e;
      end = length body;
      cut = some (length body);
      plan = none;
      syncs = 0;
    };
    opened =
        rw
          (
            parse-Written w good frames body (take n e) (some (length body)) wr
                (Tail.part v e n h more short),
            open_log,
          )
          refl;
    clean =
        let kept = take-append body (take n e) (length body) refl in
        record {
          held = subst (Written w 0 frames) (sym kept) wr;
          ends = ap length (sym kept);
          whole = refl;
        };
  }

  Written-push :
      {at : ℕ} {frames : List (ℕ × T)} {body : List ℕ} (v : T) (e : List ℕ)
      → encode w v ≡ ok e
      → Written w at frames body
      → Written w at (frames ++ ((at + length body, v) ∷ [])) (body ++ e)
  Written-push v e h (Written.nothing {at = at}) =
      let here : at ≡ at + 0 = omega arith in
      rw (sym here) (rw (sym (append-nil e)) (Written.then v e h Written.nothing))
  Written-push v e h (Written.then {at = at} {rest = rest} {more = more} u d g wr) =
      let far : (at + length d) + length more ≡ at + length (d ++ more) =
        let sum = length-append d more in omega arith in
      subst (λ b. Written w at ((at, u) ∷ (rest ++ ((at + length (d ++ more), v) ∷ []))) b)
        (sym (append_assoc d more e))
        (Written.then u d g (
          subst (λ n. Written w (at + length d) (rest ++ ((n, v) ∷ [])) (more ++ e)) far
            (Written-push v e h wr)))

  push-Reopens :
      (frames : List (ℕ × T)) (body : List ℕ) (v : T) (e : List ℕ)
      → Written w 0 frames body
      → encode w v ≡ ok e
      → Reopens w (body ++ e) (frames ++ ((length body, v) ∷ []))
  push-Reopens frames body v e wr h =
      let at : 0 + length body ≡ length body = omega arith in
      let more =
        subst (λ n. Written w 0 (frames ++ ((n, v) ∷ [])) (body ++ e)) at (Written-push v e h wr) in
      subst (λ b. Reopens w b (frames ++ ((length body, v) ∷ []))) (append-nil (body ++ e))
        (Written-Reopens (frames ++ ((length body, v) ∷ [])) (body ++ e) [] none more Tail.clean)

  write-IsClean :
      (log : Log) (frames : List (ℕ × T)) (bytes : List ℕ)
      → IsClean w log frames
      → write log bytes ≡ log.file ++ bytes
  write-IsClean log frames bytes c =
      let all = take_all log.file log.end (omega arith) in
      let past = drop_all log.file (log.end + length bytes) (omega arith) in
      ap (λ t. t ++ (bytes ++ drop (log.end + length bytes) log.file)) all
      ∙ ap (λ t. log.file ++ (bytes ++ t)) past
      ∙ ap (λ t. log.file ++ t) (append-nil bytes)

  -- A file that holds the frames and a prefix of one more.
  prefix-Reopens :
      (frames : List (ℕ × T)) (body : List ℕ) (v : T) (e : List ℕ) (n : ℕ)
      → Written w 0 frames body
      → encode w v ≡ ok e
      → Reopens w (body ++ take n e) frames
        ⊎ Reopens w (body ++ take n e) (frames ++ ((length body, v) ∷ []))
  unfolding take
  prefix-Reopens frames body v e zero wr h = inl (Written-Reopens frames body [] none wr Tail.clean)
  prefix-Reopens frames body v e (suc n) wr h = elim (Bool-cases (ltb (suc n) (length e))) [
    | inl short ↦ inl (
        Written-Reopens frames body (take (suc n) e) (some (length body)) wr
          (Tail.part v e (suc n) h (ground arith) (ground arith)))
    | inr all ↦ inr (rw (take_all e (suc n) (ground arith)) (push-Reopens frames body v e wr h))
  ]

  -- The file holds the frames before and the new one, or the append failed and it holds the frames
  -- before.
  abbrev Appended : Log → List (ℕ × T) → T → Log × Result LogError (Unit {0}) → Type 0
  Appended log frames v done =
      Reopens w done.0.file (frames ++ ((log.end, v) ∷ []))
      ⊎ ((done.1 ≢ ok tt) × Reopens w done.0.file frames)

  whole-Reopens :
      (log : Log) (frames : List (ℕ × T)) (v : T) (e : List ℕ)
      → IsClean w log frames
      → encode w v ≡ ok e
      → Reopens w (write log e) (frames ++ ((log.end, v) ∷ []))
  whole-Reopens log frames v e c h =
      rw (write-IsClean log frames e c) (rw c.ends (push-Reopens frames log.file v e c.held h))

  append_bytes-Reopens :
      (log : Log) (frames : List (ℕ × T)) (v : T) (e : List ℕ) (plan : Option CrashPlan)
      → IsClean w log frames
      → encode w v ≡ ok e
      → Appended log frames v (append_bytes log e plan)
  append_bytes-Reopens log frames v e none c h = inl (whole-Reopens log frames v e c h)
  append_bytes-Reopens log frames v e (some before_sync) c h =
      inl (whole-Reopens log frames v e c h)
  append_bytes-Reopens log frames v e (some after_sync) c h = inl (whole-Reopens log frames v e c h)
  append_bytes-Reopens log frames v e (some (after_bytes n)) c h =
      let put = write-IsClean log frames (take (min n (length e)) e) c in
      elim (prefix-Reopens frames log.file v e (min n (length e)) c.held h) [
        | inl lost ↦ inr (λ same. ground arith, rw put lost)
        | inr kept ↦ inl (rw put (rw c.ends kept))
      ]

  append-bytes :
      (log : Log) (v : T) (e : List ℕ)
      → encode w v ≡ ok e
      → append w log v ≡ append_bytes log e log.plan
  unfolding append
  append-bytes log v e h = rw (h, append) refl

  append-fails :
      (log : Log) (v : T) (why : FrameError)
      → encode w v ≡ err why
      → append w log v ≡ (log, err (LogError.encoding why))
  unfolding append
  append-fails log v why h = rw (h, append) refl

  pub IsClean-Reopens :
      (log : Log) (frames : List (ℕ × T)) → IsClean w log frames → Reopens w log.file frames
  IsClean-Reopens log frames c =
      subst (λ b. Reopens w b frames) (append-nil log.file)
        (Written-Reopens frames log.file [] none c.held Tail.clean)

  -- What a log holds when it is opened again after an append. Where the crates keep their promises,
  -- from a clean log, under any planned crash, the file opens either as the frames before and the new
  -- one, or, only if the append failed, as the frames before; and once recovery is committed the log
  -- is clean again.
  pub append-Reopens :
      (log after : Log) (frames : List (ℕ × T)) (v : T) (result : Result LogError (Unit {0}))
      → IsClean w log frames
      → append w log v ≡ (after, result)
      → Reopens w after.file (frames ++ ((log.end, v) ∷ []))
        ⊎ ((result ≢ ok tt) × Reopens w after.file frames)
  append-Reopens log after frames v result c h = elim (Result-cases (encode w v)) [
    | inl (e, written) ↦
        subst (Appended log frames v) (sym (append-bytes log v e written) ∙ h)
          (append_bytes-Reopens log frames v e log.plan c written)
    | inr (why, bad) ↦
        subst (Appended log frames v) (sym (append-fails log v why bad) ∙ h)
          (inr (λ same. ground arith, IsClean-Reopens log frames c))
  ]

  append_bytes-IsClean :
      (log after : Log) (frames : List (ℕ × T)) (v : T) (e : List ℕ) (plan : Option CrashPlan)
      → IsClean w log frames
      → encode w v ≡ ok e
      → append_bytes log e plan ≡ (after, ok tt)
      → IsClean w after (frames ++ ((log.end, v) ∷ []))
  append_bytes-IsClean log after frames v e none c h done =
      let put = write-IsClean log frames e c in
      let at : 0 + length log.file ≡ log.end = omega arith in
      let is : record log {
        file = write log e;
        plan = none;
        syncs = log.syncs + 1;
        end = log.end + length e;
      }
          ≡ after =
        ap (λ d. d.0) done in
      let sum = length-append log.file e in
      subst (λ l. IsClean w l (frames ++ ((log.end, v) ∷ []))) is
        (record {
          held = rw put (
              subst (λ n. Written w 0 (frames ++ ((n, v) ∷ [])) (log.file ++ e)) at
                (Written-push v e h c.held));
          ends = rw put (omega arith);
          whole = c.whole;
        })
  append_bytes-IsClean log after frames v e (some before_sync) c h done = absurd (ground arith)
  append_bytes-IsClean log after frames v e (some after_sync) c h done = absurd (ground arith)
  append_bytes-IsClean log after frames v e (some (after_bytes n)) c h done = absurd (ground arith)

  -- An append that succeeds leaves a clean log with one frame more.
  pub append-IsClean :
      (log after : Log) (frames : List (ℕ × T)) (v : T)
      → IsClean w log frames
      → append w log v ≡ (after, ok tt)
      → IsClean w after (frames ++ ((log.end, v) ∷ []))
  append-IsClean log after frames v c h = elim (Result-cases (encode w v)) [
    | inl (e, written) ↦
        append_bytes-IsClean log after frames v e log.plan c written
          (sym (append-bytes log v e written) ∙ h)
    | inr (why, bad) ↦ let is = sym (append-fails log v why bad) ∙ h in absurd (ground arith)
  ]
