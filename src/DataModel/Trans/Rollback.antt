-- ===== src/DataModel/Trans/Rollback.antt =====
-- src/core/dm_trans.c, src/core/data_model.c: every change that is made within a transaction can be
-- taken back.
use usp_agent_stomp.Common.{◌≡◌, subst, true, none, [], arith}
use usp_agent_stomp.Result.{Result, ok, Ensures, Returns}
use usp_agent_stomp.DataModel.Instances.{Schema, Vectors, top_of}
use usp_agent_stomp.DataModel.Instances.Nested.{is_below_iff}
use usp_agent_stomp.DataModel.Instances.Tree.{Tree, Holds}
use usp_agent_stomp.DataModel.Trans.{Dm, External, dm_trans_abort}
use usp_agent_stomp.DataModel.Trans.Journal.{deletions, additions, Accounts, dm_trans_abort_lem}
use usp_agent_stomp.DataModel.Trans.Steps.{
  IsJournaled, set-IsJournaled, noted-IsJournaled, removed-IsJournaled, child-IsJournaled,
  add-IsJournaled,
}
use usp_agent_stomp.DataModel.Trans.Within.{
  Within, started, set_done, added, noted, removed, child_removed,
}

Ensures-ok : {A : Type 0} (P : A → Type 0) {r : Result A} {a : A} → r ≡ ok a → Ensures P r → P a
Ensures-ok P e h = subst (Ensures P) e h

started-Accounts :
    (schema : Schema) (before : Tree) (vs : Vectors)
    → Holds before vs
    → Accounts schema before [] vs
unfolding deletions additions
started-Accounts schema before vs h = record {
  existed = λ t x d. ground arith;
  is_fresh = λ t x d. ground arith;
  kept = λ t x d e. h t x;
}

pub Within-IsJournaled :
    {W : Type 0} (ext : External W) (schema : Schema) (before : Tree) (s : Dm W)
    → Within ext schema before s
    → IsJournaled schema before s
Within-IsJournaled ext schema before _ (started s h e) = record {
  ops = [];
  opened = e;
  undoable = tt;
  accounts = started-Accounts schema before s.vectors h;
}
Within-IsJournaled ext schema before _ (set_done s s' path value node inst w e) =
    Ensures-ok (IsJournaled schema before) e (
      set-IsJournaled ext schema before path value node inst s
        (Within-IsJournaled ext schema before s w))
Within-IsJournaled ext schema before _ (added s s' default_values path node inst x w v n f e) =
    Ensures-ok (λ q. IsJournaled schema before q.1) e
      (add-IsJournaled ext schema before default_values path node inst s
        (Within-IsJournaled ext schema before s w) v n (λ y b. f y ((is_below_iff inst y).0 b)))
Within-IsJournaled ext schema before _ (noted s s' path node inst w n b e) =
    Ensures-ok (IsJournaled schema before) e (
      noted-IsJournaled ext schema before path node inst s
        (Within-IsJournaled ext schema before s w) n b)
Within-IsJournaled ext schema before _ (removed s ops inst vs w t c gone e) =
    let j = Within-IsJournaled ext schema before s w in
    let same : ops ≡ j.ops = cc in
    Ensures-ok (λ v. IsJournaled schema before (record s { vectors = v })) e
      (removed-IsJournaled schema before inst s j t (λ x b v.
        subst (λ o. deletions schema o (top_of inst) x ≡ true) same
          (gone x ((is_below_iff inst x).0 b) v)))
Within-IsJournaled ext schema before _ (child_removed s s' path node inst w n b only e) =
    Ensures-ok (IsJournaled schema before) e (
      child-IsJournaled ext schema before path node inst s
        (Within-IsJournaled ext schema before s w) n b
        (λ x below. only x ((is_below_iff inst x).0 below)))

-- Where a transaction has added only instances that were not there at its start, and deleted only
-- such as were, with values set in any order among them, DM_TRANS_Abort passes its assertions,
-- brings back exactly the instances that existed at the start, and closes the transaction. These
-- steps are those of `Within`; an instance that the transaction has added itself and deleted again
-- is not among them.
pub abort-Within :
    {W : Type 0} (ext : External W) (schema : Schema) (before : Tree) (s : Dm W)
    → Within ext schema before s
    → Returns
        (λ r. Holds before r.1.vectors × (r.1.cur_transaction ≡ none))
        (dm_trans_abort ext schema s)
abort-Within ext schema before s w =
    let j = Within-IsJournaled ext schema before s w in
    dm_trans_abort_lem ext schema before s j.ops j.opened j.undoable j.accounts
