-- ===== src/Flock/Examples/Witnesses.antt =====
-- The theorems of the flock at the small flock.
use agent_mesh.Common.{◌≡◌, refl, true, false, none, some, [], ◌∷◌, ok, contains, nat_eq, string_eq}
use agent_mesh.Common.Maps
use agent_mesh.Flock.Kind.{Kind, kind_eq}
use agent_mesh.Flock.Event.{ContentId}
use agent_mesh.Flock.Board.{Entry, Verdict, get, closer_of}
use agent_mesh.Flock.Roster.{roster_well_formed, devices_fit}
use agent_mesh.Flock.Admission.Authority.{MaySign, Chains, admitted-MaySign, admitted-Chains}
use agent_mesh.Flock.Admission.Addressee.{owner, work_kinds, admitted-owner}
use agent_mesh.Flock.Log.{LogEntry, apply, fold_from, start, closed_by}
use agent_mesh.Flock.Log.Closing.{closes-closed_by}
use agent_mesh.Flock.Log.Growth.{apply_again}
use agent_mesh.Flock.Attempt.{AttemptView, AttemptState, attempt, view_of, outcome}
use agent_mesh.Flock.Attempt.Settled.{fold_from-attempt}
use agent_mesh.Flock.Log.Induction.{fold_from-get, fold_from-closer_of}
use agent_mesh.Flock.Log.Invariant.{IsValid, fold-IsValid}
use agent_mesh.Flock.Log.Rosters.{WellFormed, Locked, fold-WellFormed, apply-Locked}
use agent_mesh.Flock.Examples.{
  externs, genesis, final, runs, brief, ack, result, second_result, log, briefed, acked,
  closed_board, helper_signer,
}

fold-IsValid_example : IsValid final
fold-IsValid_example = fold-IsValid externs genesis log final runs

genesis_well_formed : roster_well_formed genesis.payload.roster ≡ true
unfolding final roster_well_formed devices_fit
genesis_well_formed = refl

fold-WellFormed_example : WellFormed final
fold-WellFormed_example = fold-WellFormed externs genesis log final genesis_well_formed runs

apply-Locked_example :
    Locked
      (start 1 genesis)
      (apply externs (start 1 genesis) brief).0.members
      (apply externs (start 1 genesis) brief).0.roots
unfolding final
apply-Locked_example = apply-Locked externs (start 1 genesis) brief genesis_well_formed refl

admitted-MaySign_example : MaySign briefed ack.node.payload helper_signer helper_signer.class
unfolding briefed
admitted-MaySign_example = admitted-MaySign externs briefed ack.node helper_signer refl

admitted-Chains_example : Chains briefed ack.node.payload
unfolding briefed
admitted-Chains_example =
    admitted-Chains externs briefed ack.node helper_signer "help" false refl refl

admitted-owner_example :
    (cid : ContentId) × (e : Entry) × (Maps.get ack.node.payload.refs "of" ≡ some cid)
    × (get briefed cid ≡ some e)
    × (contains (work_kinds Kind.ack) e.event.kind ≡ true)
    × (owner Kind.ack e ≡ some "help")
unfolding briefed
admitted-owner_example =
    admitted-owner externs briefed ack.node helper_signer "help" false "of" refl refl refl

closes-closed_by_example : some 11 ≡ closed_by result.node.payload
unfolding acked
closes-closed_by_example = closes-closed_by externs acked result.node helper_signer (some 11) refl

first_part : fold_from externs 3 (closed_board) (second_result ∷ []) ≡ ok final
unfolding closed_board
first_part = refl

fold_from-closer_of_example : closer_of final 11 ≡ some 13
unfolding closed_board
fold_from-closer_of_example =
    fold_from-closer_of externs 3 closed_board (second_result ∷ []) final 11 13 first_part refl

fold_from-get_example :
    get final 11
    ≡ some (record {
      id = 11;
      index = 1;
      event = brief.node.payload;
      member = some "shep";
      conflict = none;
    })
unfolding closed_board
fold_from-get_example =
    fold_from-get externs 3 closed_board (second_result ∷ []) final 11 _ first_part refl

retried : LogEntry
retried = record { node = brief.node; signer = helper_signer }

apply_again_example :
    (id : ContentId) × (entry : Entry) × (externs.content_id brief.node ≡ some id)
    × (get briefed id ≡ some entry)
    × (apply externs briefed retried ≡ (briefed, Verdict.duplicate entry.index))
unfolding briefed retried
apply_again_example = apply_again externs (start 1 genesis) brief retried refl refl

closed_view : attempt closed_board 11 ≡ some (view_of closed_board 11 "lane")
unfolding attempt closed_board
closed_view = refl

closed_completed : (view_of closed_board 11 "lane").state ≡ AttemptState.completed
unfolding outcome closed_board
closed_completed = refl

fold_from-attempt_example :
    (w : AttemptView) × (attempt final 11 ≡ some w)
    × (w.state ≡ (view_of closed_board 11 "lane").state)
unfolding outcome closed_board
fold_from-attempt_example =
    fold_from-attempt externs 3 closed_board (second_result ∷ []) final 11
      (view_of closed_board 11 "lane") first_part closed_view refl
