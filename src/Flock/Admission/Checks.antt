-- ===== src/Flock/Admission/Checks.antt =====
-- What an event that passes the checks satisfies: one field for each check of `decide`.
use agent_mesh.Common.{
  ◌≡◌, refl, Bool, true, false, not, Option, arith, str_eq, eq_iff, set_eq, ◌==◌, Result, ok, err,
  ◌>>=◌, fail_if, nat_eq, ==_iff, not-false,
}
use agent_mesh.Flock.Event.{ContentId, Event, MerkleNode, Signer, fits, expected_parents}
use agent_mesh.Flock.Board.{
  Board, Externs, wrong_flock, author_mismatch, bad_parents, body_kind_mismatch, undeclared_root,
}
use agent_mesh.Flock.Admission.Signers.{signer_member, writer_chain}
use agent_mesh.Flock.Admission.Refs.{check_refs}
use agent_mesh.Flock.Admission.Table.{Signing, apply_table}
use agent_mesh.Flock.Admission.{check_roster, undeclared, closes}

pub record Checked (x : Externs) (board : Board) (node : MerkleNode Event) (signer : Signer)
    (t : Option ContentId) : Type 0 where
  pub same_flock : node.payload.flock ≡ board.flock
  pub same_author : node.payload.author ≡ x.hex signer.fingerprint
  pub same_parents : set_eq node.parents (expected_parents node.payload) ≡ true
  pub fitting : fits node.payload.body node.payload.kind ≡ true
  pub member : Signing
  pub signed : signer_member board node.payload.kind signer ≡ ok member
  pub roster : check_roster board node.payload.body signer ≡ ok tt
  pub declared : undeclared board node.payload.files ≡ false
  pub chained : writer_chain board node.payload signer.class ≡ ok tt
  pub target : Option ContentId
  pub referred : check_refs board node.payload ≡ ok target
  pub tabled : apply_table board node.payload member target ≡ ok t

-- The parts of a successful chain.
bind_ok {ℓ κ μ} :
    {E : Type ℓ} {A : Type κ} {B : Type μ} (m : Result E A) (f : A → Result E B) {b : B}
    → (m >>= f) ≡ ok b
    → (a : A) × (m ≡ ok a) × (f a ≡ ok b)
bind_ok (ok a) f h = (a, refl, h)
bind_ok (err e) f h = absurd (ground arith)

fail_if_ok {ℓ κ} :
    {E : Type ℓ} {B : Type κ} (test : Bool) (e : E) (k : Result E B) {b : B}
    → (fail_if test e >>= λ _. k) ≡ ok b
    → (test ≡ false) × (k ≡ ok b)
fail_if_ok true e k h = absurd (ground arith)
fail_if_ok false e k h = (refl, h)

pub closes-Checked :
    (x : Externs) (board : Board) (node : MerkleNode Event) (signer : Signer) (t : Option ContentId)
    → closes x board node signer ≡ ok t
    → Checked x board node signer t
unfolding closes
closes-Checked x board node signer t h =
    let a = fail_if_ok (not (node.payload.flock == board.flock)) wrong_flock _ h in
    let b =
      fail_if_ok (not (str_eq node.payload.author (x.hex signer.fingerprint))) author_mismatch _
        a.1 in
    let c =
      fail_if_ok (not (set_eq node.parents (expected_parents node.payload))) bad_parents _ b.1 in
    let d = fail_if_ok (not (fits node.payload.body node.payload.kind)) body_kind_mismatch _ c.1 in
    let (member, signed, e) = bind_ok (signer_member board node.payload.kind signer) _ d.1 in
    let (_, roster, f) = bind_ok (check_roster board node.payload.body signer) _ e in
    let g = fail_if_ok (undeclared board node.payload.files) undeclared_root _ f in
    let (_, chained, i) = bind_ok (writer_chain board node.payload signer.class) _ g.1 in
    let (target, referred, tabled) = bind_ok (check_refs board node.payload) _ i in
    record {
      same_flock = (==_iff _ _).0 (not-false _ a.0);
      same_author = (eq_iff node.payload.author (x.hex signer.fingerprint)).0 (not-false _ b.0);
      same_parents = not-false _ c.0;
      fitting = not-false _ d.0;
      member = member;
      signed = signed;
      roster = roster;
      declared = g.0;
      chained = chained;
      target = target;
      referred = referred;
      tabled = tabled;
    }
