-- ===== src/DataModel/Trans/Commit.antt =====
-- src/core/dm_trans.c: DM_TRANS_Commit and the notifications.
use usp_agent_stomp.Common.{ℕ, zero, suc, not, Option, none, some, List, [], ◌∷◌}
use usp_agent_stomp.Result.{UspErr, Result, ok, abort, out_of_fuel, ◌>>=◌, ◌>>◌, assert}
use usp_agent_stomp.DataModel.Instances.{Schema}
use usp_agent_stomp.DataModel.Trans.{
  set_op, add_op, del_op, Trans, Dm, Outcome, object_creation, object_deletion, External,
  with_transaction, call_hook, database_commit_transaction, dm_trans_is_within_transaction, aborted,
  dm_trans_start,
}

-- An error of a call-back is logged.
abbrev pub call_notify :
    {W : Type 0} → Option (Trans → Dm W → Outcome W) → Trans → Dm W → Result (Dm W)
call_notify none dt s = ok s
call_notify (some notify_cb) dt s = notify_cb dt s >>= (λ r. ok r.1)

unfoldable pub notify : {W : Type 0} → External W → Trans → Dm W → Result (Dm W)
notify ext dt s = elim dt.op [
  | set_op ↦ call_notify (ext.notify_set_cb dt.node) dt s
  | add_op ↦
      call_notify (ext.notify_add_cb dt.node) dt s
      >>= ext.notify_object_life_event object_creation dt.path
  | del_op ↦
      call_notify (ext.notify_del_cb dt.node) dt s
      >>= ext.notify_object_life_event object_deletion dt.path
]

unfoldable pub notify_loop : {W : Type 0} → External W → List Trans → Dm W → Result (Dm W)
notify_loop ext [] s = ok s
notify_loop ext (dt ∷ ops) s = notify ext dt s >>= notify_loop ext ops

-- The notifications, within a transaction of their own that `recurse` commits.
unfoldable pub cascade :
    {W : Type 0} → External W → Schema → (Dm W → Outcome W) → List Trans → Dm W → Outcome W
cascade ext schema recurse ops s = do
  started ← dm_trans_start ext schema (with_transaction s none)
  notified ← notify_loop ext ops started.1
  r ← recurse notified
  assert (not (dm_trans_is_within_transaction r.1))
  ok (none, r.1)

unfoldable pub committed :
    {W : Type 0} → External W → Schema → (Dm W → Outcome W) → Dm W → Outcome W
committed ext schema recurse s = elim s.cur_transaction [
  | none ↦ abort
  | some [] ↦ ok (none, with_transaction s none)
  | some (dt ∷ ops) ↦ cascade ext schema recurse (dt ∷ ops) s
]

-- What follows the call of the database, and what follows that of the vendor's call-back.
abbrev pub database_committed :
    {W : Type 0} → External W → Schema → (Dm W → Outcome W) → Option UspErr → Dm W → Outcome W
database_committed ext schema recurse (some e) s = aborted ext schema s e
database_committed ext schema recurse none s = committed ext schema recurse s

abbrev pub vendor_committed :
    {W : Type 0} → External W → Schema → (Dm W → Outcome W) → Option UspErr → Dm W → Outcome W
vendor_committed ext schema recurse (some e) s = aborted ext schema s e
vendor_committed ext schema recurse none s =
    let r = database_commit_transaction ext s in database_committed ext schema recurse r.0 r.1

abbrev pub commit_round : {W : Type 0} → External W → Schema → (Dm W → Outcome W) → Dm W → Outcome W
commit_round ext schema recurse s = do
  assert (dm_trans_is_within_transaction s)
  let r = call_hook ext.commit_trans_cb s
  vendor_committed ext schema recurse r.0 r.1

-- The recursion, on the number of cascades.
unfoldable pub dm_trans_commit : {W : Type 0} → ℕ → External W → Schema → Dm W → Outcome W
dm_trans_commit zero ext schema s = out_of_fuel
dm_trans_commit (suc fuel) ext schema s =
    commit_round ext schema (dm_trans_commit fuel ext schema) s
