-- ===== src/DataModel/Trans/Journal.antt =====
-- src/core/dm_trans.c: what the journal of a transaction says of the instances that existed before
-- it, and how the abort gets back to them.
use usp_agent_stomp.Common.{
  ℕ, ◌<◌, ◌≡◌, refl, ap, ◌∙◌, ◌≢◌, ◌⊎◌, inl, inr, Bool, true, false, not, ◌&&◌, ◌||◌, Option, none,
  some, List, [], ◌∷◌, arith, ◌==◌, if◌then◌else◌, All,
}
use usp_agent_stomp.Result.{UspErr, internal_error, ok, Returns, Returns_mono, Returns->>=}
use usp_agent_stomp.DataModel.Instances.{
  Inst, Schema, Vectors, same_inst, is_below, top_of, dm_inst_vector_add, dm_inst_vector_remove,
}
use usp_agent_stomp.DataModel.Instances.Tree.{
  Tree, view, tree_add, tree_remove, IsTopped, Holds, dm_inst_vector_add_lem, remove-Holds,
}
use usp_agent_stomp.DataModel.Trans.{
  DmOp, set_op, add_op, del_op, Trans, Dm, Sql, rollback, External, with_world, call_hook,
  sql_error, exec_checked, database_abort_transaction, inst_of, undo, undo_loop, abort_databases,
  dm_trans_abort,
}

abbrev pub op_inst : Schema → Trans → Inst
op_inst schema dt = inst_of schema dt.node dt.inst

-- `dt` notes the deletion of the instance `x`.
abbrev pub is_deletion : Schema → Trans → ℕ → Inst → Bool
is_deletion schema dt t x = elim dt.op [
  | set_op ↦ false
  | add_op ↦ false
  | del_op ↦ (t == top_of (op_inst schema dt)) && same_inst (op_inst schema dt) x
]

-- `dt` notes the addition of `x` or of an instance that `x` is nested in.
abbrev pub is_addition : Schema → Trans → ℕ → Inst → Bool
is_addition schema dt t x = elim dt.op [
  | set_op ↦ false
  | add_op ↦ (t == top_of (op_inst schema dt)) && is_below (op_inst schema dt) x
  | del_op ↦ false
]

unfoldable pub deletions : Schema → List Trans → Tree
deletions schema [] t x = false
deletions schema (dt ∷ ops) t x = is_deletion schema dt t x || deletions schema ops t x

unfoldable pub additions : Schema → List Trans → Tree
additions schema [] t x = false
additions schema (dt ∷ ops) t x = is_addition schema dt t x || additions schema ops t x

-- The journal accounts for every difference between what existed and what the vectors hold: what it
-- names as deleted existed, what it names as added, with all that is nested in it, did not, and the
-- rest is as it was.
pub record Accounts (schema : Schema) (before : Tree) (ops : List Trans) (vs : Vectors)
    : Type 0 where
  pub existed : (t : ℕ) (x : Inst) → deletions schema ops t x ≡ true → before t x ≡ true
  pub is_fresh : (t : ℕ) (x : Inst) → additions schema ops t x ≡ true → before t x ≡ false
  pub kept :
      (t : ℕ) (x : Inst)
      → deletions schema ops t x ≡ false
      → additions schema ops t x ≡ false
      → view vs t x ≡ before t x

-- An operation on an instance below a registered table.
pub record IsRegistered (schema : Schema) (dt : Trans) : Type 0 where
  pub node_set : 0 < dt.node
  pub topped : IsTopped schema (op_inst schema dt)

-- An operation that the abort undoes is one on an instance below a registered table.
abbrev pub IsUndoable : Schema → Trans → Type 0
IsUndoable schema dt = (dt.op ≡ set_op) ⊎ IsRegistered schema dt

pub undone : Schema → Trans → Tree → Tree
undone schema dt s t x = (s t x || is_deletion schema dt t x) && not (is_addition schema dt t x)

pub op_cases : (o : DmOp) → (o ≡ set_op) ⊎ ((o ≡ add_op) ⊎ (o ≡ del_op))
op_cases set_op = inl refl
op_cases add_op = inr (inl refl)
op_cases del_op = inr (inr refl)

undo_add :
    (schema : Schema) (dt : Trans) (vs : Vectors)
    → dt.op ≡ add_op
    → IsRegistered schema dt
    → undo schema dt vs ≡ dm_inst_vector_remove schema (op_inst schema dt) vs
unfolding undo
undo_add schema dt vs e r = rw e (ground (arith, r.node_set))

undo_del :
    (schema : Schema) (dt : Trans) (vs : Vectors)
    → dt.op ≡ del_op
    → IsRegistered schema dt
    → undo schema dt vs ≡ dm_inst_vector_add schema (op_inst schema dt) vs
unfolding undo
undo_del schema dt vs e r = rw e (ground (arith, r.node_set))

registered :
    (schema : Schema) (dt : Trans)
    → IsUndoable schema dt
    → (dt.op ≢ set_op)
    → IsRegistered schema dt
registered schema dt (inl e) n = absurd (n e)
registered schema dt (inr r) n = r

undo-undone :
    (schema : Schema) (dt : Trans) (vs : Vectors)
    → IsUndoable schema dt
    → Returns (Holds (undone schema dt (view vs))) (undo schema dt vs)
unfolding undo undone
undo-undone schema dt vs u = elim (op_cases dt.op) [
  | inl e ↦ rw e (λ t x. ground arith)
  | inr (inl e) ↦
      let r = registered schema dt u (λ k. cc) in
      rw (undo_add schema dt vs e r) (
        Returns_mono (Holds (tree_remove (op_inst schema dt) (view vs)))
          (Holds (undone schema dt (view vs))) (dm_inst_vector_remove schema (op_inst schema dt) vs)
          (remove-Holds schema (op_inst schema dt) vs r.topped)
          (λ vs' h t x. h t x ∙ rw e (ground arith)))
  | inr (inr e) ↦
      let r = registered schema dt u (λ k. cc) in
      rw (undo_del schema dt vs e r) (
        Returns_mono (Holds (tree_add (op_inst schema dt) (view vs)))
          (Holds (undone schema dt (view vs))) (dm_inst_vector_add schema (op_inst schema dt) vs)
          (dm_inst_vector_add_lem schema (op_inst schema dt) vs r.topped)
          (λ vs' h t x. h t x ∙ rw e (ground arith)))
]

pub undone_all : Schema → List Trans → Tree → Tree
undone_all schema [] s = s
undone_all schema (dt ∷ ops) s = undone_all schema ops (undone schema dt s)

undone_all-same :
    (schema : Schema) (ops : List Trans) (s s' : Tree) (t : ℕ) (x : Inst)
    → s t x ≡ s' t x
    → undone_all schema ops s t x ≡ undone_all schema ops s' t x
unfolding undone undone_all
undone_all-same schema [] s s' t x h = h
undone_all-same schema (dt ∷ ops) s s' t x h =
    undone_all-same schema ops (undone schema dt s) (undone schema dt s') t x
      (ap (λ b. (b || is_deletion schema dt t x) && not (is_addition schema dt t x)) h)

undone_all-split :
    (schema : Schema) (ops : List Trans) (s : Tree) (t : ℕ) (x : Inst)
    → (deletions schema ops t x && additions schema ops t x) ≡ false
    → undone_all schema ops s t x
      ≡ ((s t x || deletions schema ops t x) && not (additions schema ops t x))
unfolding undone undone_all deletions additions
undone_all-split schema [] s t x h = ground arith
undone_all-split schema (dt ∷ ops) s t x h =
    ground (arith, undone_all-split schema ops (undone schema dt s) t x)

pub undo_loop-undone :
    (schema : Schema) (ops : List Trans) (vs : Vectors)
    → All (IsUndoable schema) ops
    → Returns (Holds (undone_all schema ops (view vs))) (undo_loop schema ops vs)
unfolding undo_loop undone_all
undo_loop-undone schema [] vs u = λ t x. refl
undo_loop-undone schema (dt ∷ ops) vs (u, us) =
    Returns->>= (Holds (undone schema dt (view vs)))
      (Holds (undone_all schema ops (undone schema dt (view vs)))) (undo schema dt vs)
      (undo_loop schema ops) (undo-undone schema dt vs u)
      (λ vs' h.
        Returns_mono (Holds (undone_all schema ops (view vs')))
          (Holds (undone_all schema ops (undone schema dt (view vs)))) (undo_loop schema ops vs')
          (undo_loop-undone schema ops vs' us)
          (λ r k t x.
            k t x ∙ undone_all-same schema ops (view vs') (undone schema dt (view vs)) t x (h t x)))

-- A call that leaves the instances and the journal alone.
abbrev pub Spares : {W : Type 0} → Dm W → Dm W → Type 0
Spares s r = (r.vectors ≡ s.vectors) × (r.cur_transaction ≡ s.cur_transaction)

pub call_hook-Spares :
    {W : Type 0} (hook : Option (W → Option UspErr × W)) (s : Dm W) → Spares s (call_hook hook s).1
call_hook-Spares none s = (refl, refl)
call_hook-Spares (some hook) s = (refl, refl)

pub if-Spares :
    {W : Type 0} (b : Bool) (s : Dm W) (r r' : Option UspErr × Dm W)
    → Spares s r.1
    → Spares s r'.1
    → Spares s (if b then r else r').1
if-Spares true s r r' h h' = h
if-Spares false s r r' h h' = h'

pub exec_checked-Spares :
    {W : Type 0} (ext : External W) (sql : Sql) (s : Dm W) → Spares s (exec_checked ext sql s).1
exec_checked-Spares ext sql s =
    let r = ext.sqlite3_exec sql s.world in
    if-Spares (ext.is_data_model_thread s.world) s (with_world s (sql_error r.0, r.1))
      (some internal_error, s) (refl, refl) (refl, refl)

database_abort-Spares :
    {W : Type 0} (ext : External W) (s : Dm W) → Spares s (database_abort_transaction ext s).1
database_abort-Spares ext s =
    if-Spares (ext.is_data_model_thread s.world) s
      (with_world s (none, (ext.sqlite3_exec rollback s.world).1)) (some internal_error, s)
      (refl, refl) (refl, refl)

either-Spares :
    {W : Type 0} (e : Option UspErr) (s s' : Dm W) (r : Option UspErr × Dm W)
    → Spares s s'
    → Spares s' r.1
    → Spares s (elim e as (λ _. Option UspErr × Dm W) [ some x ↦ (some x, r.1) | none ↦ r ]).1
either-Spares none s s' r h k = (k.0 ∙ h.0, k.1 ∙ h.1)
either-Spares (some x) s s' r h k = (k.0 ∙ h.0, k.1 ∙ h.1)

pub abort_databases-Spares :
    {W : Type 0} (ext : External W) (s : Dm W) → Spares s (abort_databases ext s).1
unfolding abort_databases
abort_databases-Spares ext s =
    let r = call_hook ext.abort_trans_cb s in
    either-Spares r.0 s r.1 (database_abort_transaction ext r.1)
      (call_hook-Spares ext.abort_trans_cb s) (database_abort-Spares ext r.1)

restored :
    (schema : Schema) (before : Tree) (ops : List Trans) (vs : Vectors)
    → Accounts schema before ops vs
    → (t : ℕ) (x : Inst) → undone_all schema ops (view vs) t x ≡ before t x
restored schema before ops vs a t x =
    ground
      (arith, undone_all-split schema ops (view vs) t x, a.existed t x, a.is_fresh t x, a.kept t x)

-- DM_TRANS_Abort passes its assertions and brings back the set of instances that existed before the
-- transaction, whatever the order of its operations, and closes the transaction, as long as the
-- journal accounts for all that has changed.
pub dm_trans_abort_lem :
    {W : Type 0} (ext : External W) (schema : Schema) (before : Tree) (s : Dm W) (ops : List Trans)
    → s.cur_transaction ≡ some ops
    → All (IsUndoable schema) ops
    → Accounts schema before ops s.vectors
    → Returns
        (λ r. Holds before r.1.vectors × (r.1.cur_transaction ≡ none))
        (dm_trans_abort ext schema s)
unfolding dm_trans_abort
dm_trans_abort_lem ext schema before s ops e u a = rw e (
    Returns->>= (Holds (undone_all schema ops (view s.vectors)))
      (λ r. Holds before r.1.vectors × (r.1.cur_transaction ≡ none))
      (undo_loop schema ops s.vectors)
      (λ vs. ok (abort_databases ext (record s { vectors = vs; cur_transaction = none })))
      (undo_loop-undone schema ops s.vectors u)
      (λ vs h.
        let k = abort_databases-Spares ext (record s { vectors = vs; cur_transaction = none }) in
        (
          λ t x.
              ap (λ (v : Vectors). view v t x) k.0
              ∙ h t x
              ∙ restored schema before ops s.vectors a t x,
          k.1,
        )))
