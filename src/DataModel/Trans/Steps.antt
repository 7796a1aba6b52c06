-- ===== src/DataModel/Trans/Steps.antt =====
-- src/core/dm_trans.c, src/core/data_model.c: each change within a transaction keeps a journal that
-- accounts for it.
use usp_agent_stomp.Common.{
  ℕ, ◌≡◌, refl, sym, ap, ◌∙◌, subst, ◌⊎◌, inl, inr, true, false, Option, none, some, List, [], ◌∷◌,
  ◌++◌, Bool-cases, Option-cases, All, All-append,
}
use usp_agent_stomp.Result.{
  UspErr, Result, ok, err, abort, out_of_fuel, Ensures, Ensures->>=, Ensures-mono, Returns,
}
use usp_agent_stomp.DataModel.Instances.{
  Inst, Schema, Vectors, is_below, top_of, dm_inst_vector_add, dm_inst_vector_remove,
}
use usp_agent_stomp.DataModel.Instances.Tree.{
  Tree, view, tree_add, tree_remove, IsTopped, Holds, dm_inst_vector_add_lem, remove-Holds,
}
use usp_agent_stomp.DataModel.Trans.{
  DmOp, set_op, add_op, del_op, Trans, Dm, Outcome, External, is_part_of_add, entry, is_skipped,
  dm_trans_add,
}
use usp_agent_stomp.DataModel.Trans.Accounting.{
  account_set, account_add, account_note, account_remove, account_child, account_failed,
}
use usp_agent_stomp.DataModel.Trans.Changes.{after_values, add_instance_end, delete_child_instance}
use usp_agent_stomp.DataModel.Trans.Journal.{deletions, Accounts, IsUndoable, Spares}
use usp_agent_stomp.DataModel.Trans.Within.{IsNode, OnlyValues}

-- A journal is open, the abort can undo it, and it accounts for what has changed.
pub record IsJournaled {W : Type 0} (schema : Schema) (before : Tree) (s : Dm W) : Type 0 where
  pub ops : List Trans
  pub opened : s.cur_transaction ≡ some ops
  pub undoable : All (IsUndoable schema) ops
  pub accounts : Accounts schema before ops s.vectors

pub Spares-IsJournaled :
    {W : Type 0} (schema : Schema) (before : Tree) (s r : Dm W)
    → Spares s r
    → IsJournaled schema before s
    → IsJournaled schema before r
Spares-IsJournaled schema before s r h j = record {
  ops = j.ops;
  opened = h.1 ∙ j.opened;
  undoable = j.undoable;
  accounts = subst (Accounts schema before j.ops) (sym h.0) j.accounts;
}

-- DM_TRANS_Add of an addition or a deletion appends its entry.
trans_add_noted :
    {W : Type 0} (ext : External W) (schema : Schema) (op : DmOp) (path : List ℕ) (node : ℕ)
    (inst : Inst) (s : Dm W) (ops : List Trans)
    → s.cur_transaction ≡ some ops
    → is_skipped schema op inst ops ≡ false
    → Ensures
        (λ s'.
          (s'.vectors ≡ s.vectors)
          × (s'.cur_transaction ≡ some (ops ++ entry op path none node inst ∷ [])))
        (dm_trans_add ext schema op path none false node inst s)
unfolding dm_trans_add
trans_add_noted ext schema op path node inst s ops e k = rw (e, k) (refl, refl)

-- DM_TRANS_Add of a Set appends its entry or skips it.
trans_add_set :
    {W : Type 0} (ext : External W) (schema : Schema) (path : List ℕ) (value : Option (List ℕ))
    (node : ℕ) (inst : Inst) (s : Dm W) (ops : List Trans)
    → s.cur_transaction ≡ some ops
    → Ensures
        (λ s'.
          (s'.vectors ≡ s.vectors)
          × ((s'.cur_transaction ≡ some ops)
              ⊎ (s'.cur_transaction ≡ some (ops ++ entry set_op path value node inst ∷ []))))
        (dm_trans_add ext schema set_op path value true node inst s)
unfolding dm_trans_add
trans_add_set ext schema path value node inst s ops e =
    elim (Bool-cases (is_part_of_add schema inst ops)) [
      | inl k ↦ rw (e, k) (refl, inl refl)
      | inr k ↦ elim (Option-cases value) [
        | inl v ↦ rw (e, k, v) (refl, inr refl)
        | inr (w, v) ↦ rw (e, k, v) (refl, inr refl)
      ]
    ]

appended :
    {W : Type 0} (schema : Schema) (before : Tree) (s s' : Dm W) (j : IsJournaled schema before s)
    (dt : Trans)
    → s'.cur_transaction ≡ some (j.ops ++ dt ∷ [])
    → IsUndoable schema dt
    → Accounts schema before (j.ops ++ dt ∷ []) s'.vectors
    → IsJournaled schema before s'
appended schema before s s' j dt e u a = record {
  ops = j.ops ++ dt ∷ [];
  opened = e;
  undoable = All-append (IsUndoable schema) j.ops (dt ∷ []) j.undoable (u, tt);
  accounts = a;
}

pub IsNode-IsUndoable :
    (schema : Schema) (op : DmOp) (path : List ℕ) (node : ℕ) (inst : Inst)
    → IsNode schema node inst
    → IsUndoable schema (entry op path none node inst)
IsNode-IsUndoable schema op path node inst n =
    inr (record {
      node_set = n.node_set;
      topped = subst (IsTopped schema) (sym n.same_nodes) n.topped;
    })

at_vectors :
    (schema : Schema) (before : Tree) (ops : List Trans) {vs vs' : Vectors}
    → vs' ≡ vs
    → Accounts schema before ops vs
    → Accounts schema before ops vs'
at_vectors schema before ops e a = subst (Accounts schema before ops) (sym e) a

pub set-IsJournaled :
    {W : Type 0} (ext : External W) (schema : Schema) (before : Tree) (path : List ℕ)
    (value : Option (List ℕ)) (node : ℕ) (inst : Inst) (s : Dm W)
    → IsJournaled schema before s
    → Ensures
        (IsJournaled schema before)
        (dm_trans_add ext schema set_op path value true node inst s)
set-IsJournaled ext schema before path value node inst s j =
    Ensures-mono _ (IsJournaled schema before)
      (dm_trans_add ext schema set_op path value true node inst s)
      (trans_add_set ext schema path value node inst s j.ops j.opened)
      (λ s' h. elim h.1 [
        | inl e ↦ record {
          ops = j.ops;
          opened = e;
          undoable = j.undoable;
          accounts = at_vectors schema before j.ops h.0 j.accounts;
        }
        | inr e ↦
            let dt = entry set_op path value node inst in
            appended schema before s s' j dt e (inl refl) (
              at_vectors schema before (j.ops ++ dt ∷ []) h.0
                (account_set schema before j.ops s.vectors dt j.accounts refl))
      ])

pub noted-IsJournaled :
    {W : Type 0} (ext : External W) (schema : Schema) (before : Tree) (path : List ℕ) (node : ℕ)
    (inst : Inst) (s : Dm W)
    → IsJournaled schema before s
    → IsNode schema node inst
    → before (top_of inst) inst ≡ true
    → Ensures
        (IsJournaled schema before)
        (dm_trans_add ext schema del_op path none false node inst s)
noted-IsJournaled ext schema before path node inst s j n b =
    let dt = entry del_op path none node inst in
    Ensures-mono _ (IsJournaled schema before)
      (dm_trans_add ext schema del_op path none false node inst s)
      (trans_add_noted ext schema del_op path node inst s j.ops j.opened refl)
      (λ s' h.
        appended schema before s s' j dt h.1 (IsNode-IsUndoable schema del_op path node inst n) (
          at_vectors schema before (j.ops ++ dt ∷ []) h.0
            (account_note schema before j.ops s.vectors inst dt j.accounts b refl n.same_nodes)))

pub Returns-Ensures : {A : Type 0} (P : A → Type 0) (r : Result A) → Returns P r → Ensures P r
Returns-Ensures P (ok a) h = h
Returns-Ensures P (err e) h = tt
Returns-Ensures P abort h = tt
Returns-Ensures P out_of_fuel h = tt

pub removed-IsJournaled :
    {W : Type 0} (schema : Schema) (before : Tree) (inst : Inst) (s : Dm W)
    (j : IsJournaled schema before s)
    → IsTopped schema inst
    → ((x : Inst)
        → is_below inst x ≡ true
        → view s.vectors (top_of inst) x ≡ true
        → deletions schema j.ops (top_of inst) x ≡ true)
    → Ensures
        (λ vs. IsJournaled schema before (record s { vectors = vs }))
        (dm_inst_vector_remove schema inst s.vectors)
removed-IsJournaled schema before inst s j t gone =
    Ensures-mono _ _ (dm_inst_vector_remove schema inst s.vectors)
      (Returns-Ensures _ (dm_inst_vector_remove schema inst s.vectors)
        (remove-Holds schema inst s.vectors t))
      (λ vs h. record {
        ops = j.ops;
        opened = j.opened;
        undoable = j.undoable;
        accounts = account_remove schema before j.ops s.vectors vs inst j.accounts h gone;
      })

pub child-IsJournaled :
    {W : Type 0} (ext : External W) (schema : Schema) (before : Tree) (path : List ℕ) (node : ℕ)
    (inst : Inst) (s : Dm W)
    → IsJournaled schema before s
    → IsNode schema node inst
    → before (top_of inst) inst ≡ true
    → ((x : Inst) → is_below inst x ≡ true → view s.vectors (top_of inst) x ≡ true → x ≡ inst)
    → Ensures (IsJournaled schema before) (delete_child_instance ext schema path node inst s)
unfolding delete_child_instance
child-IsJournaled ext schema before path node inst s j n b only =
    let dt = entry del_op path none node inst in
    Ensures->>= (Holds (tree_remove inst (view s.vectors))) (IsJournaled schema before)
      (dm_inst_vector_remove schema inst s.vectors)
      (λ vs. dm_trans_add ext schema del_op path none false node inst (record s { vectors = vs }))
      (Returns-Ensures _ (dm_inst_vector_remove schema inst s.vectors)
        (remove-Holds schema inst s.vectors n.topped))
      (λ vs h.
        Ensures-mono _ (IsJournaled schema before)
          (dm_trans_add ext schema del_op path none false node inst (record s { vectors = vs }))
          (trans_add_noted ext schema del_op path node inst (record s { vectors = vs }) j.ops
            j.opened refl)
          (λ s' k.
            appended schema before s s' j dt k.1 (IsNode-IsUndoable schema del_op path node inst n)
              (at_vectors schema before (j.ops ++ dt ∷ []) k.0 (
                account_child schema before j.ops s.vectors vs inst dt j.accounts h b only refl
                  n.same_nodes))))

-- The end of an addition, by whether the default values could be set.
add_end-IsJournaled :
    {W : Type 0} (ext : External W) (schema : Schema) (before : Tree) (path : List ℕ) (node : ℕ)
    (inst : Inst) (s r : Dm W) (e : Option UspErr)
    → IsJournaled schema before s
    → IsNode schema node inst
    → ((x : Inst) → is_below inst x ≡ true → before (top_of inst) x ≡ false)
    → Holds (tree_add inst (view s.vectors)) r.vectors
    → r.cur_transaction ≡ s.cur_transaction
    → Ensures (λ q. IsJournaled schema before q.1) (after_values ext schema path node inst e r)
add_end-IsJournaled ext schema before path node inst s r (some x) j n f h c =
    Ensures->>= (Holds (tree_remove inst (view r.vectors))) (λ q. IsJournaled schema before q.1)
      (dm_inst_vector_remove schema inst r.vectors) (λ vs'. ok (some x, record r { vectors = vs' }))
      (Returns-Ensures _ (dm_inst_vector_remove schema inst r.vectors)
        (remove-Holds schema inst r.vectors n.topped))
      (λ vs' h'. record {
        ops = j.ops;
        opened = c ∙ j.opened;
        undoable = j.undoable;
        accounts =
            account_failed schema before j.ops s.vectors r.vectors vs' inst j.accounts h h' f;
      })
add_end-IsJournaled ext schema before path node inst s r none j n f h c =
    let dt = entry add_op path none node inst in
    Ensures->>= _ (λ q. IsJournaled schema before q.1)
      (dm_trans_add ext schema add_op path none false node inst r) (λ s'. ok (none, s'))
      (trans_add_noted ext schema add_op path node inst r j.ops (c ∙ j.opened) refl)
      (λ s' k.
        appended schema before s s' j dt k.1 (IsNode-IsUndoable schema add_op path node inst n) (
          at_vectors schema before (j.ops ++ dt ∷ []) k.0 (
            account_add schema before j.ops s.vectors r.vectors inst dt j.accounts h f refl
              n.same_nodes)))

pub add-IsJournaled :
    {W : Type 0} (ext : External W) (schema : Schema) (before : Tree)
    (default_values : Dm W → Outcome W) (path : List ℕ) (node : ℕ) (inst : Inst) (s : Dm W)
    → IsJournaled schema before s
    → OnlyValues default_values
    → IsNode schema node inst
    → ((x : Inst) → is_below inst x ≡ true → before (top_of inst) x ≡ false)
    → Ensures
        (λ q. IsJournaled schema before q.1)
        (add_instance_end ext schema default_values path node inst s)
unfolding add_instance_end
add-IsJournaled ext schema before default_values path node inst s j v n f =
    Ensures->>= (Holds (tree_add inst (view s.vectors))) (λ q. IsJournaled schema before q.1)
      (dm_inst_vector_add schema inst s.vectors) _
      (Returns-Ensures _ (dm_inst_vector_add schema inst s.vectors)
        (dm_inst_vector_add_lem schema inst s.vectors n.topped))
      (λ vs h.
        let s1 = record s { vectors = vs } in
        Ensures->>= (λ r. Spares s1 r.1) (λ q. IsJournaled schema before q.1) (default_values s1) _
          (v s1)
          (λ r k.
            add_end-IsJournaled ext schema before path node inst s r.1 r.0 j n f
              (λ t x. ap (λ (w : Vectors). view w t x) k.0 ∙ h t x) k.1))
