-- ===== src/DataModel/Trans/Refused.antt =====
-- src/core/dm_trans.c: what a commit that fails leaves behind.
use usp_agent_stomp.Common.{
  ℕ, zero, suc, ◌≡◌, refl, ◌⊎◌, inl, inr, not, Option, none, some, List, [], ◌∷◌,
}
use usp_agent_stomp.Result.{UspErr, ok, assert, Ensures, always, Ensures->>=, Ensures-mono}
use usp_agent_stomp.DataModel.Instances.{Schema}
use usp_agent_stomp.DataModel.Instances.Tree.{Tree, Holds}
use usp_agent_stomp.DataModel.Trans.{
  Trans, Dm, Outcome, commit_transaction, External, with_transaction, call_hook,
  database_commit_transaction, dm_trans_is_within_transaction, dm_trans_abort, aborted,
  dm_trans_start,
}
use usp_agent_stomp.DataModel.Trans.Commit.{
  notify_loop, cascade, committed, database_committed, vendor_committed, dm_trans_commit,
}
use usp_agent_stomp.DataModel.Trans.Journal.{
  call_hook-Spares, exec_checked-Spares, dm_trans_abort_lem,
}
use usp_agent_stomp.DataModel.Trans.Rollback.{Within-IsJournaled}
use usp_agent_stomp.DataModel.Trans.Steps.{IsJournaled, Spares-IsJournaled, Returns-Ensures}
use usp_agent_stomp.DataModel.Trans.Within.{Within}

-- The outcome of a commit: it has succeeded, or the instances are those from before and the
-- transaction is closed.
abbrev AllOrNothing : {W : Type 0} → Tree → Option UspErr × Dm W → Type 0
AllOrNothing before r = (r.0 ≡ none) ⊎ (Holds before r.1.vectors × (r.1.cur_transaction ≡ none))

aborted-AllOrNothing :
    {W : Type 0} (ext : External W) (schema : Schema) (before : Tree) (s : Dm W) (e : UspErr)
    → IsJournaled schema before s
    → Ensures (AllOrNothing before) (aborted ext schema s e)
unfolding aborted
aborted-AllOrNothing ext schema before s e j =
    Ensures->>= (λ r. Holds before r.1.vectors × (r.1.cur_transaction ≡ none)) (AllOrNothing before)
      (dm_trans_abort ext schema s) (λ r. ok (some e, r.1))
      (Returns-Ensures _ (dm_trans_abort ext schema s)
        (dm_trans_abort_lem ext schema before s j.ops j.opened j.undoable j.accounts))
      (λ r h. inr h)

committed-succeeds :
    {W : Type 0} (ext : External W) (schema : Schema) (recurse : Dm W → Outcome W) (s : Dm W)
    (c : Option (List Trans))
    → s.cur_transaction ≡ c
    → Ensures (λ r. r.0 ≡ none) (committed ext schema recurse s)
unfolding committed cascade
committed-succeeds ext schema recurse s none e = rw e tt
committed-succeeds ext schema recurse s (some []) e = rw e refl
committed-succeeds ext schema recurse s (some (dt ∷ ops)) e = rw e (
    Ensures->>= (λ _. Unit {0}) (λ r. r.0 ≡ none)
      (dm_trans_start ext schema (with_transaction s none)) _
      (always (dm_trans_start ext schema (with_transaction s none)))
      (λ s1 _.
        Ensures->>= (λ _. Unit {0}) (λ r. r.0 ≡ none) (notify_loop ext (dt ∷ ops) s1.1) _
          (always (notify_loop ext (dt ∷ ops) s1.1))
          (λ s2 _.
            Ensures->>= (λ _. Unit {0}) (λ r. r.0 ≡ none) (recurse s2) _ (always (recurse s2))
              (λ r _.
                Ensures->>= (λ _. Unit {0}) (λ q. q.0 ≡ none)
                  (assert (not (dm_trans_is_within_transaction r.1))) (λ _. ok (none, r.1))
                  (always (assert (not (dm_trans_is_within_transaction r.1)))) (λ _ _. refl)))))

database_committed-AllOrNothing :
    {W : Type 0} (ext : External W) (schema : Schema) (before : Tree) (recurse : Dm W → Outcome W)
    (e : Option UspErr) (s : Dm W)
    → IsJournaled schema before s
    → Ensures (AllOrNothing before) (database_committed ext schema recurse e s)
database_committed-AllOrNothing ext schema before recurse (some e) s j =
    aborted-AllOrNothing ext schema before s e j
database_committed-AllOrNothing ext schema before recurse none s j =
    Ensures-mono (λ r. r.0 ≡ none) (AllOrNothing before) (committed ext schema recurse s)
      (committed-succeeds ext schema recurse s s.cur_transaction refl) (λ r h. inl h)

vendor_committed-AllOrNothing :
    {W : Type 0} (ext : External W) (schema : Schema) (before : Tree) (recurse : Dm W → Outcome W)
    (e : Option UspErr) (s : Dm W)
    → IsJournaled schema before s
    → Ensures (AllOrNothing before) (vendor_committed ext schema recurse e s)
vendor_committed-AllOrNothing ext schema before recurse (some e) s j =
    aborted-AllOrNothing ext schema before s e j
vendor_committed-AllOrNothing ext schema before recurse none s j =
    let r = database_commit_transaction ext s in
    database_committed-AllOrNothing ext schema before recurse r.0 r.1
      (Spares-IsJournaled schema before s r.1 (exec_checked-Spares ext commit_transaction s) j)

-- A DM_TRANS_Commit that returns an error has brought back exactly the instances that existed when
-- the transaction was started, and has closed it, where the transaction has added only instances
-- that were not there at its start and deleted only such as were (the steps of `Within`): none that
-- it has added itself.
pub commit-AllOrNothing :
    {W : Type 0} (ext : External W) (schema : Schema) (before : Tree) (fuel : ℕ) (s : Dm W)
    → Within ext schema before s
    → Ensures
        (λ r. (r.0 ≡ none) ⊎ (Holds before r.1.vectors × (r.1.cur_transaction ≡ none)))
        (dm_trans_commit fuel ext schema s)
unfolding dm_trans_commit
commit-AllOrNothing ext schema before zero s w = tt
commit-AllOrNothing ext schema before (suc fuel) s w =
    let r = call_hook ext.commit_trans_cb s in
    Ensures->>= (λ _. Unit {0}) (AllOrNothing before) (assert (dm_trans_is_within_transaction s)) _
      (always (assert (dm_trans_is_within_transaction s)))
      (λ _ _.
        vendor_committed-AllOrNothing ext schema before (dm_trans_commit fuel ext schema) r.0 r.1 (
          Spares-IsJournaled schema before s r.1 (call_hook-Spares ext.commit_trans_cb s)
            (Within-IsJournaled ext schema before s w)))
