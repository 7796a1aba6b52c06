-- ===== src/DataModel/Trans/Accounting.antt =====
-- src/core/dm_trans.c: what each operation of a transaction adds to its journal.
use usp_agent_stomp.Common.{
  ℕ, zero, suc, ◌≡◌, refl, sym, subst, Bool, true, false, ◌&&◌, ◌||◌, List, [], ◌∷◌, ◌++◌, arith,
  ◌==◌,
}
use usp_agent_stomp.DataModel.Instances.{
  Inst, Schema, Vectors, same_first, same_inst, is_below, top_of,
}
use usp_agent_stomp.DataModel.Instances.Tree.{
  Tree, view, tree_add, tree_remove, same_inst_iff, Holds,
}
use usp_agent_stomp.DataModel.Trans.{set_op, add_op, del_op, Trans}
use usp_agent_stomp.DataModel.Trans.Journal.{
  op_inst, is_deletion, is_addition, deletions, additions, Accounts,
}

same_first_refl : (n : ℕ) (xs : List ℕ) → same_first n xs xs ≡ true
unfolding same_first
same_first_refl zero xs = refl
same_first_refl (suc n) [] = refl
same_first_refl (suc n) (x ∷ xs) = ground (arith, same_first_refl n xs)

same-is_below : (inst x : Inst) → same_inst inst x ≡ true → is_below inst x ≡ true
unfolding is_below
same-is_below inst x h =
    subst (λ y. is_below inst y ≡ true) ((same_inst_iff inst x).0 h)
      (ground
        (arith, same_first_refl inst.order inst.nodes, same_first_refl inst.order inst.instances))

deletions-append :
    (schema : Schema) (ops : List Trans) (dt : Trans) (t : ℕ) (x : Inst)
    → deletions schema (ops ++ dt ∷ []) t x
      ≡ (deletions schema ops t x || is_deletion schema dt t x)
unfolding deletions
deletions-append schema [] dt t x = ground arith
deletions-append schema (o ∷ ops) dt t x = ground (arith, deletions-append schema ops dt t x)

additions-append :
    (schema : Schema) (ops : List Trans) (dt : Trans) (t : ℕ) (x : Inst)
    → additions schema (ops ++ dt ∷ []) t x
      ≡ (additions schema ops t x || is_addition schema dt t x)
unfolding additions
additions-append schema [] dt t x = ground arith
additions-append schema (o ∷ ops) dt t x = ground (arith, additions-append schema ops dt t x)

same_at : (t u : ℕ) (x : Inst) (s : Tree) (b : Bool) → (t == u) ≡ true → s u x ≡ b → s t x ≡ b
same_at t u x s b e h = let same : u ≡ t = ground arith in subst (λ w. s w x ≡ b) same h

moved_at :
    (t u : ℕ) (x : Inst) (s s' : Tree)
    → (t == u) ≡ true
    → (s u x ≡ true → s' u x ≡ true)
    → s t x ≡ true
    → s' t x ≡ true
moved_at t u x s s' e h =
    let same : u ≡ t = ground arith in subst (λ w. s w x ≡ true → s' w x ≡ true) same h

-- An entry for an addition of `inst`, and one for its deletion.
addition_marks :
    (schema : Schema) (dt : Trans) (inst : Inst) (t : ℕ) (x : Inst)
    → dt.op ≡ add_op
    → op_inst schema dt ≡ inst
    → (is_deletion schema dt t x ≡ false)
      × (is_addition schema dt t x ≡ ((t == top_of inst) && is_below inst x))
addition_marks schema dt inst t x eo ei = rw (eo, ei) (refl, refl)

deletion_marks :
    (schema : Schema) (dt : Trans) (inst : Inst) (t : ℕ) (x : Inst)
    → dt.op ≡ del_op
    → op_inst schema dt ≡ inst
    → (is_deletion schema dt t x ≡ ((t == top_of inst) && same_inst inst x))
      × (is_addition schema dt t x ≡ false)
deletion_marks schema dt inst t x eo ei = rw (eo, ei) (refl, refl)

set_marks :
    (schema : Schema) (dt : Trans) (t : ℕ) (x : Inst)
    → dt.op ≡ set_op
    → (is_deletion schema dt t x ≡ false) × (is_addition schema dt t x ≡ false)
set_marks schema dt t x eo = rw eo (refl, refl)

pub account_append :
    (schema : Schema) (before : Tree) (ops : List Trans) (vs vs' : Vectors) (dt : Trans)
    → Accounts schema before ops vs
    → ((t : ℕ) (x : Inst) → is_deletion schema dt t x ≡ true → before t x ≡ true)
    → ((t : ℕ) (x : Inst) → is_addition schema dt t x ≡ true → before t x ≡ false)
    → ((t : ℕ) (x : Inst)
        → deletions schema ops t x ≡ false
        → additions schema ops t x ≡ false
        → is_deletion schema dt t x ≡ false
        → is_addition schema dt t x ≡ false
        → view vs' t x ≡ view vs t x)
    → Accounts schema before (ops ++ dt ∷ []) vs'
account_append schema before ops vs vs' dt a old new same = record {
  existed = λ t x d. ground (arith, a.existed t x, old t x, deletions-append schema ops dt t x);
  is_fresh = λ t x d. ground (arith, a.is_fresh t x, new t x, additions-append schema ops dt t x);
  kept = λ t x d e. ground (
    arith,
    a.kept t x,
    same t x,
    deletions-append schema ops dt t x,
    additions-append schema ops dt t x,
  );
}

pub account_set :
    (schema : Schema) (before : Tree) (ops : List Trans) (vs : Vectors) (dt : Trans)
    → Accounts schema before ops vs
    → dt.op ≡ set_op
    → Accounts schema before (ops ++ dt ∷ []) vs
account_set schema before ops vs dt a eo =
    account_append schema before ops vs vs dt a
      (λ t x d. ground (arith, set_marks schema dt t x eo))
      (λ t x d. ground (arith, set_marks schema dt t x eo)) (λ t x d e d' e'. refl)

pub account_add :
    (schema : Schema) (before : Tree) (ops : List Trans) (vs vs' : Vectors) (inst : Inst)
    (dt : Trans)
    → Accounts schema before ops vs
    → Holds (tree_add inst (view vs)) vs'
    → ((x : Inst) → is_below inst x ≡ true → before (top_of inst) x ≡ false)
    → dt.op ≡ add_op
    → op_inst schema dt ≡ inst
    → Accounts schema before (ops ++ dt ∷ []) vs'
account_add schema before ops vs vs' inst dt a h f eo ei =
    account_append schema before ops vs vs' dt a
      (λ t x d. ground (arith, addition_marks schema dt inst t x eo ei))
      (λ t x d.
        let m = (addition_marks schema dt inst t x eo ei).1 in
        same_at t (top_of inst) x before false (ground arith) (f x (ground arith)))
      (λ t x d e d' e'.
        ground (arith, h t x, same-is_below inst x, addition_marks schema dt inst t x eo ei))

pub account_note :
    (schema : Schema) (before : Tree) (ops : List Trans) (vs : Vectors) (inst : Inst) (dt : Trans)
    → Accounts schema before ops vs
    → before (top_of inst) inst ≡ true
    → dt.op ≡ del_op
    → op_inst schema dt ≡ inst
    → Accounts schema before (ops ++ dt ∷ []) vs
account_note schema before ops vs inst dt a b eo ei =
    account_append schema before ops vs vs dt a
      (λ t x d.
        let m = (deletion_marks schema dt inst t x eo ei).0 in
        let same : inst ≡ x = (same_inst_iff inst x).0 (ground arith) in
        same_at t (top_of inst) x before true (ground arith)
          (subst (λ y. before (top_of inst) y ≡ true) same b))
      (λ t x d. ground (arith, deletion_marks schema dt inst t x eo ei)) (λ t x d e d' e'. refl)

pub account_remove :
    (schema : Schema) (before : Tree) (ops : List Trans) (vs vs' : Vectors) (inst : Inst)
    → Accounts schema before ops vs
    → Holds (tree_remove inst (view vs)) vs'
    → ((x : Inst)
        → is_below inst x ≡ true
        → view vs (top_of inst) x ≡ true
        → deletions schema ops (top_of inst) x ≡ true)
    → Accounts schema before ops vs'
account_remove schema before ops vs vs' inst a h gone = record {
  existed = a.existed;
  is_fresh = a.is_fresh;
  kept = λ t x d e.
      let taken : (t == top_of inst) ≡ true
          → is_below inst x ≡ true
          → view vs t x ≡ true
          → deletions schema ops t x ≡ true =
        λ q b. moved_at t (top_of inst) x (view vs) (deletions schema ops) q (gone x b) in
      ground (arith, h t x, taken, a.kept t x);
}

pub account_child :
    (schema : Schema) (before : Tree) (ops : List Trans) (vs vs' : Vectors) (inst : Inst)
    (dt : Trans)
    → Accounts schema before ops vs
    → Holds (tree_remove inst (view vs)) vs'
    → before (top_of inst) inst ≡ true
    → ((x : Inst) → is_below inst x ≡ true → view vs (top_of inst) x ≡ true → x ≡ inst)
    → dt.op ≡ del_op
    → op_inst schema dt ≡ inst
    → Accounts schema before (ops ++ dt ∷ []) vs'
account_child schema before ops vs vs' inst dt a h b only eo ei =
    account_remove schema before (ops ++ dt ∷ []) vs vs' inst
      (account_note schema before ops vs inst dt a b eo ei) h
      (λ x below v. ground (
        arith,
        deletions-append schema ops dt (top_of inst) x,
        deletion_marks schema dt inst (top_of inst) x eo ei,
        (same_inst_iff inst x).1 (sym (only x below v)),
      ))

-- An addition that is taken back leaves everything as it was.
pub account_failed :
    (schema : Schema) (before : Tree) (ops : List Trans) (vs vs' vs'' : Vectors) (inst : Inst)
    → Accounts schema before ops vs
    → Holds (tree_add inst (view vs)) vs'
    → Holds (tree_remove inst (view vs')) vs''
    → ((x : Inst) → is_below inst x ≡ true → before (top_of inst) x ≡ false)
    → Accounts schema before ops vs''
account_failed schema before ops vs vs' vs'' inst a h h' f = record {
  existed = a.existed;
  is_fresh = a.is_fresh;
  kept = λ t x d e.
      let none_there : (t == top_of inst) ≡ true → is_below inst x ≡ true → before t x ≡ false =
        λ q b. same_at t (top_of inst) x before false q (f x b) in
      ground (arith, h t x, h' t x, none_there, same-is_below inst x, a.kept t x);
}
