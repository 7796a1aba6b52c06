-- ===== src/Tests/TransRuns.antt =====
-- src/core/dm_trans.c: a transaction that adds an instance and deletes another, on databases that
-- refuse and that accept the commit.
use usp_agent_stomp.Common.{
  ℕ, ◌≡◌, refl, sym, subst, ◌⊎◌, inl, inr, Bool, true, false, none, some, [], ◌∷◌, arith, ◌==◌,
  if◌then◌else◌, Bool-cases, str_eq,
}
use usp_agent_stomp.Result.{ok, Ensures, Returns}
use usp_agent_stomp.DataModel.Instances.{
  Inst, Schema, Vectors, write_vector, same_first, same_inst, is_below, has_inst, add_to,
  dm_inst_vector_add, remove_from, dm_inst_vector_remove,
}
use usp_agent_stomp.DataModel.Instances.Nested.{is_below_iff}
use usp_agent_stomp.DataModel.Instances.Tree.{Tree, view, same_inst_iff, Holds}
use usp_agent_stomp.DataModel.Trans.{
  add_op, del_op, Trans, Dm, Outcome, begin_transaction, commit_transaction, rollback, External,
  inst_of, dm_trans_abort, entry, dm_trans_add,
}
use usp_agent_stomp.DataModel.Trans.Changes.{add_instance_end, delete_child_instance}
use usp_agent_stomp.DataModel.Trans.Commit.{notify, dm_trans_commit}
use usp_agent_stomp.DataModel.Trans.Ending.{IsSettling, dm_trans_commit_returns}
use usp_agent_stomp.DataModel.Trans.Journal.{op_cases}
use usp_agent_stomp.DataModel.Trans.Refused.{commit-AllOrNothing}
use usp_agent_stomp.DataModel.Trans.Rollback.{abort-Within}
use usp_agent_stomp.DataModel.Trans.Steps.{IsNode-IsUndoable}
use usp_agent_stomp.DataModel.Trans.Within.{IsNode, Within, started, added, child_removed}

abbrev schema : Schema
schema n = record { is_multi = true; order = 1; instance_nodes = 1 ∷ [] }

abbrev row : ℕ → Inst
row n = record {
  order = 1;
  instances = n ∷ 0 ∷ 0 ∷ 0 ∷ 0 ∷ 0 ∷ [];
  nodes = 1 ∷ 0 ∷ 0 ∷ 0 ∷ 0 ∷ 0 ∷ [];
}

-- The one instance of the table 1 has the number 7.
abbrev vectors : Vectors
vectors t = if t == 1 then row 7 ∷ [] else []

abbrev before : Tree
before = view vectors

-- The vendor's call-backs on a transaction accept it, and there are no others; `accepts` is what SQLite says to a commit.
abbrev ext_of : Bool → External (Unit {0})
ext_of accepts = record {
  is_data_model_thread = λ w. true;
  sqlite3_exec = λ sql w.
      (elim sql [ begin_transaction ↦ true | commit_transaction ↦ accepts | rollback ↦ true ], w);
  start_trans_cb = some (λ w. (none, w));
  commit_trans_cb = some (λ w. (none, w));
  abort_trans_cb = some (λ w. (none, w));
  notify_set_cb = λ node. none;
  notify_add_cb = λ node. none;
  notify_del_cb = λ node. none;
  notify_object_life_event = λ type path s. ok s;
  resolve_object_deletion_paths = λ w. w;
}

abbrev start : Dm (Unit {0})
start = record { vectors = vectors; cur_transaction = some []; world = tt }

abbrev add_entry : Trans
add_entry = entry add_op [] none 1 (row 8)

abbrev del_entry : Trans
del_entry = entry del_op [] none 1 (row 7)

abbrev with_row : Vectors
with_row = write_vector vectors 1 (row 7 ∷ row 8 ∷ [])

abbrev after_add : Dm (Unit {0})
after_add = record { vectors = with_row; cur_transaction = some (add_entry ∷ []); world = tt }

abbrev after_delete : Dm (Unit {0})
after_delete = record {
  vectors = write_vector with_row 1 (row 8 ∷ []);
  cur_transaction = some (add_entry ∷ del_entry ∷ []);
  world = tt;
}

abbrev no_values : Dm (Unit {0}) → Outcome (Unit {0})
no_values s = ok (none, s)

row-IsNode : (n : ℕ) → IsNode schema 1 (row n)
unfolding inst_of
row-IsNode n = record {
  node_set = ground arith;
  topped = record { deep = ground arith; top_set = ground arith; is_table = refl };
  same_nodes = refl;
}

adds_a_row :
    (accepts : Bool)
    → add_instance_end (ext_of accepts) schema no_values [] 1 (row 8) start ≡ ok (none, after_add)
unfolding add_instance_end dm_inst_vector_add add_to has_inst same_inst dm_trans_add str_eq
adds_a_row accepts = refl

deletes_a_row :
    (accepts : Bool)
    → delete_child_instance (ext_of accepts) schema [] 1 (row 7) after_add ≡ ok after_delete
unfolding delete_child_instance dm_inst_vector_remove remove_from is_below same_first dm_trans_add
deletes_a_row accepts = refl

apart : (n k : ℕ) → (n == k) ≡ false → is_below (row n) (row k) ≡ false
unfolding is_below same_first
apart n k h = ground arith

is_row : (n : ℕ) (x : Inst) → same_inst (row n) x ≡ true → x ≡ row n
is_row n x e = sym ((same_inst_iff (row n) x).0 e)

not_below :
    (n k : ℕ) (x : Inst)
    → (n == k) ≡ false
    → same_inst (row k) x ≡ true
    → is_below (row n) x ≡ true
    → ⊥
not_below n k x d e h =
    let same : is_below (row n) x ≡ false =
      subst (λ y. is_below (row n) y ≡ false) (sym (is_row k x e)) (apart n k d) in
    ground (arith, h, same)

is_new : (x : Inst) → is_below (row 8) x ≡ true → before 1 x ≡ false
unfolding has_inst
is_new x h = elim (Bool-cases (same_inst (row 7) x)) [
  | inl e ↦ absurd (not_below 8 7 x refl e h)
  | inr e ↦ rw e refl
]

is_alone : (x : Inst) → is_below (row 7) x ≡ true → view with_row 1 x ≡ true → x ≡ row 7
unfolding has_inst
is_alone x h v = elim (Bool-cases (same_inst (row 7) x)) [
  | inl e ↦ is_row 7 x e
  | inr e ↦
      let other : same_inst (row 8) x ≡ true = ground arith in absurd (not_below 7 8 x refl other h)
]

was_there : before 1 (row 7) ≡ true
unfolding has_inst same_inst str_eq
was_there = refl

-- An instance is added and another deleted.
after_delete-Within : (accepts : Bool) → Within (ext_of accepts) schema before after_delete
after_delete-Within accepts =
    child_removed after_add after_delete [] 1 (row 7)
      (added start after_add no_values [] 1 (row 8) none (started start (λ t x. refl) refl)
        (λ s. (refl, refl)) (row-IsNode 8) (λ x h. is_new x ((is_below_iff (row 8) x).1 h))
        (adds_a_row accepts))
      (row-IsNode 7) was_there (λ x h. is_alone x ((is_below_iff (row 7) x).1 h))
      (deletes_a_row accepts)

-- SQLite refuses the commit.
commit-AllOrNothing_example :
    Ensures
      (λ r. (r.0 ≡ none) ⊎ (Holds before r.1.vectors × (r.1.cur_transaction ≡ none)))
      (dm_trans_commit 2 (ext_of false) schema after_delete)
commit-AllOrNothing_example =
    commit-AllOrNothing (ext_of false) schema before 2 after_delete (after_delete-Within false)

abort-Within_example :
    Returns
      (λ r. Holds before r.1.vectors × (r.1.cur_transaction ≡ none))
      (dm_trans_abort (ext_of true) schema after_delete)
abort-Within_example =
    abort-Within (ext_of true) schema before after_delete (after_delete-Within true)

abbrev rank : Trans → ℕ
rank dt = 0

notifies : (dt : Trans) (s : Dm (Unit {0})) → notify (ext_of true) dt s ≡ ok s
unfolding notify
notifies dt s = elim (op_cases dt.op) [
  | inl e ↦ rw e refl
  | inr (inl e) ↦ rw e refl
  | inr (inr e) ↦ rw e refl
]

calm : IsSettling (ext_of true) schema rank
calm = record { starts = λ s. refl; lower = λ n dt s h b. rw (notifies dt s) b }

dm_trans_commit_returns_example :
    Returns (λ r. r.1.cur_transaction ≡ none) (dm_trans_commit 2 (ext_of true) schema after_delete)
dm_trans_commit_returns_example =
    dm_trans_commit_returns (ext_of true) schema rank 1 after_delete calm (record {
      ops = add_entry ∷ del_entry ∷ [];
      opened = refl;
      low = (
        (ground arith, IsNode-IsUndoable schema add_op [] 1 (row 8) (row-IsNode 8)),
        ((ground arith, IsNode-IsUndoable schema del_op [] 1 (row 7) (row-IsNode 7)), tt),
      );
    })
