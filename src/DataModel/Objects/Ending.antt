-- ===== src/DataModel/Objects/Ending.antt =====
-- src/core/data_model.c: DATA_MODEL_DeleteInstance ends.
use usp_agent_stomp.Common.{
  ℕ, zero, suc, ◌+◌, ◌-◌, ◌<◌, ◌≡◌, refl, inl, inr, Bool, true, not, Option, none, some, List, [],
  ◌∷◌, ◌++◌, arith, ltb, ◌==◌, if◌then◌else◌, Bool-cases, take, All, Bytes,
}
use usp_agent_stomp.Common.Int.{ℤ}
use usp_agent_stomp.Result.{UspErr, object_does_not_exist, ok, Ends-try}
use usp_agent_stomp.Text.Number.{print_int}
use usp_agent_stomp.DataModel.Instances.{max_dm_instance_order, Inst, Schema}
use usp_agent_stomp.DataModel.Objects.{
  VendorCb, TableHooks, call_cb, unless_error, call_if, fail, DelFlags, child_inst,
}
use usp_agent_stomp.DataModel.Objects.Deletion.{
  int_bits, PathOutcome, DeleteChildren, unless_failed, rows_loop, delete_rows, delete_parameter,
  children_loop, delete_child_params, delete_entered, delete_found, data_model_delete_instance,
}
use usp_agent_stomp.DataModel.Objects.Finite.{
  IsFinite, IsFinite->>=, if-IsFinite, form-IsFinite, remove-IsFinite, exist-IsFinite,
  trans_add-IsFinite, get_instances-IsFinite,
}
use usp_agent_stomp.DataModel.Paths.{max_dm_path, type_number, is_multi, form_instance_string}
use usp_agent_stomp.DataModel.Registry.{
  DmNode, Registry, is_db_param, dm_priv_get_node_from_path, schema_of,
}
use usp_agent_stomp.DataModel.Registry.Instances.{get_node-IsFound}
use usp_agent_stomp.DataModel.Registry.Tree.{IsAllocated, IsChild, IsTree}
use usp_agent_stomp.DataModel.Trans.{Dm, Outcome, External, dm_trans_is_within_transaction}
use usp_agent_stomp.DataModel.Trans.Changes.{delete_child_instance}

unless_failed-IsFinite :
    {W : Type 0} (r : Option UspErr × Bytes × Dm W) (k : Bytes → Dm W → PathOutcome W)
    → ((buf : Bytes) (s : Dm W) → IsFinite (k buf s))
    → IsFinite (unless_failed r k)
unless_failed-IsFinite (some e, buf, s) k h = tt
unless_failed-IsFinite (none, buf, s) k h = h buf s

-- The deletion of what is nested in one node ends, wherever it starts.
abbrev DeletesFinitely : {W : Type 0} → DeleteChildren W → ℕ → Type 0
DeletesFinitely {W} delete_children node =
    (path : Bytes) (inst : Inst) (s : Dm W) → IsFinite (delete_children node path inst s)

module _ {W : Type 0} (ext : External W) (schema : Schema) (delete_children : DeleteChildren W)
    (node : ℕ) (h : DeletesFinitely delete_children node) where
  rows_loop-IsFinite :
      (path : Bytes) (inst : Inst) (numbers : List ℤ) (buf : Bytes) (s : Dm W)
      → IsFinite (rows_loop ext schema delete_children node path inst numbers buf s)
  unfolding rows_loop delete_child_instance
  rows_loop-IsFinite path inst [] buf s = tt
  rows_loop-IsFinite path inst (number ∷ numbers) buf s =
      let row = child_inst inst node (int_bits number) in
      IsFinite->>= _ _ (h (path ++ (b'.' ∷ print_int number)) row s) (λ r.
        unless_failed-IsFinite r _ (λ buf' s'.
          IsFinite->>= _ _
            (IsFinite->>= _ _ (remove-IsFinite schema row s'.vectors)
              (λ vs. trans_add-IsFinite ext schema buf' node row _))
            (λ s1. rows_loop-IsFinite path inst numbers buf' s1)))

  delete_rows-IsFinite :
      (path : Bytes) (inst : Inst) (s : Dm W)
      → IsFinite (delete_rows ext schema delete_children node path inst s)
  unfolding delete_rows
  delete_rows-IsFinite path inst s =
      Ends-try (λ _. Unit {0}) (λ _. Unit {0}) _ _ _
        (get_instances-IsFinite schema node inst s.vectors)
        (λ numbers u. elim (Bool-cases (ltb inst.order max_dm_instance_order)) [
          | inl e ↦ rw e (rows_loop-IsFinite path inst numbers path s)
          | inr e ↦ rw e tt
        ])
        tt

-- Every call-back of the table and every deletion in the database comes to an end.
pub record AreFinite {W : Type 0} (hooks : TableHooks W) : Type 0 where
  pub validate_del :
      (node : ℕ) (path : Bytes) (inst : Inst) (s : Dm W)
      → IsFinite (call_cb (hooks.validate_del_cb node) path inst s)
  pub del :
      (node : ℕ) (path : Bytes) (inst : Inst) (s : Dm W)
      → IsFinite (call_cb (hooks.del_cb node) path inst s)
  pub delete_in_database :
      (path : Bytes) (hash : ℕ) (instances : Bytes) (s : Dm W)
      → IsFinite (hooks.database_delete_parameter path hash instances s)

module _ {W : Type 0} (ext : External W) (hooks : TableHooks W) (reg : Registry)
    (finite : AreFinite hooks) where
  delete_parameter-IsFinite :
      (child : DmNode) (path : Bytes) (inst : Inst) (s : Dm W)
      → IsFinite (delete_parameter hooks child path inst s)
  unfolding delete_parameter form_instance_string
  delete_parameter-IsFinite child path inst s =
      IsFinite->>= _ _ (form-IsFinite (take inst.order inst.instances) [] max_dm_path [])
        (λ instances.
          IsFinite->>= _ _ (finite.delete_in_database path child.hash instances s) (λ r. tt))

  children_loop-IsFinite :
      (delete_children : DeleteChildren W) (children : List ℕ)
      → All (DeletesFinitely delete_children) children
      → (path : Bytes) (inst : Inst) (buf : Bytes) (s : Dm W)
      → IsFinite (children_loop ext hooks reg delete_children children path inst buf s)
  unfolding children_loop
  children_loop-IsFinite delete_children [] h path inst buf s = tt
  children_loop-IsFinite delete_children (child ∷ children) (hc, h) path inst buf s =
      let child_path = path ++ (b'.' ∷ (reg.nodes child).name) in
      let later = children_loop-IsFinite delete_children children h path inst in
      IsFinite->>= _ _
        (let single = type_number (reg.nodes child).type == 1 in
          let rows = delete_rows ext (schema_of reg) delete_children child child_path inst s in
          let other = if is_multi (reg.nodes child).type then rows else ok (none, buf, s) in
          let nested = if single then delete_children child child_path inst s else other in
          if-IsFinite (is_db_param (reg.nodes child).type) _ nested
            (delete_parameter-IsFinite (reg.nodes child) child_path inst s)
            (if-IsFinite single _ other (hc child_path inst s) (
              if-IsFinite (is_multi (reg.nodes child).type) rows (ok (none, buf, s))
                (delete_rows-IsFinite ext (schema_of reg) delete_children child hc child_path inst
                  s)
                tt)))
        (λ r. unless_failed-IsFinite r _ later)

  each-DeletesFinitely :
      (delete_children : DeleteChildren W) (node : ℕ) (tables cs : List ℕ)
      → ((c : ℕ) → IsAllocated reg c → node < c → DeletesFinitely delete_children c)
      → All (IsChild reg tables) cs
      → All (λ c. node < c) cs
      → All (DeletesFinitely delete_children) cs
  each-DeletesFinitely delete_children node tables [] k hc ho = tt
  each-DeletesFinitely delete_children node tables (c ∷ cs) k (hc, hcs) (ho, hos) =
      (k c hc.0 ho, each-DeletesFinitely delete_children node tables cs k hcs hos)

  delete_child_params-IsFinite :
      (fuel node : ℕ)
      → IsTree reg
      → IsAllocated reg node
      → reg.num_nodes < fuel + node
      → DeletesFinitely (delete_child_params fuel ext hooks reg) node
  unfolding delete_child_params
  delete_child_params-IsFinite zero node t a h path inst s = absurd (omega (arith, a.1))
  delete_child_params-IsFinite (suc fuel) node t a h path inst s =
      children_loop-IsFinite (delete_child_params fuel ext hooks reg) (reg.nodes node).child_nodes
        (each-DeletesFinitely (delete_child_params fuel ext hooks reg) node _ _
          (λ c ac older. delete_child_params-IsFinite fuel c t ac (omega arith))
          ((t.registered node a).children) ((t.registered node a).older))
        path inst path s

  unless_error-IsFinite :
      (r : Option UspErr × Dm W) (k : Dm W → Outcome W)
      → ((s : Dm W) → IsFinite (k s))
      → IsFinite (unless_error r k)
  unless_error-IsFinite (some e, s) k h = tt
  unless_error-IsFinite (none, s) k h = h s

  call_if-IsFinite :
      (wanted : Bool) (cb : VendorCb W) (path : Bytes) (inst : Inst) (s : Dm W)
      (k : Dm W → Outcome W)
      → IsFinite (call_cb cb path inst s)
      → ((s' : Dm W) → IsFinite (k s'))
      → IsFinite (call_if wanted cb path inst s k)
  call_if-IsFinite wanted cb path inst s k h hk =
      IsFinite->>= _ _ (if-IsFinite wanted _ _ h tt) (λ r. unless_error-IsFinite r k hk)

  delete_entered-IsFinite :
      (path : Bytes) (node : ℕ) (inst : Inst) (s : Dm W)
      → IsTree reg
      → IsAllocated reg node
      → IsFinite (delete_entered ext hooks reg path node inst s)
  delete_entered-IsFinite path node inst s t a =
      IsFinite->>= _ _ (trans_add-IsFinite ext (schema_of reg) path node inst s) (λ s1.
        IsFinite->>= _ _
          (delete_child_params-IsFinite (suc reg.num_nodes) node t a (omega arith)
            (take (max_dm_path - 1) path) inst s1)
          (λ r.
            unless_error-IsFinite (r.0, r.2) _
              (λ s2.
                IsFinite->>= _ _ (remove-IsFinite (schema_of reg) inst s2.vectors) (λ vs. tt))))

  delete_found-IsFinite :
      (atoi : Bytes → ℕ) (path : Bytes) (flags : DelFlags) (result : Option (ℕ × Inst × Bool))
      (s : Dm W)
      → IsTree reg
      → ((node : ℕ) (inst : Inst) (q : Bool) → result ≡ some (node, inst, q) → IsAllocated reg node)
      → IsFinite (delete_found ext hooks reg flags path result s)
  delete_found-IsFinite atoi path flags none s t a = tt
  delete_found-IsFinite atoi path flags (some (node, inst, q)) s t a = elim (Bool-cases (not q)) [
    | inl e ↦ rw e tt
    | inr e ↦ rw e (
        IsFinite->>= _ _ (exist-IsFinite (schema_of reg) inst s.vectors) (λ exists.
          elim (Bool-cases (not exists)) [
            | inl gone ↦ rw gone (
                if-IsFinite flags.ignore_no_instance (ok (none, s)) (fail object_does_not_exist s)
                  tt tt)
            | inr there ↦ elim (Bool-cases (not (is_multi (reg.nodes node).type))) [
              | inl single ↦ rw (there, single) tt
              | inr table ↦
                  rw (there, table)
                    (let enter = delete_entered ext hooks reg path node inst in
                      let del =
                        λ (s1 : Dm W). call_if true (hooks.del_cb node) path inst s1 enter in
                      call_if-IsFinite flags.check_deletable (hooks.validate_del_cb node) path inst
                        s del (finite.validate_del node path inst s)
                        (λ s1.
                          call_if-IsFinite true (hooks.del_cb node) path inst s1 enter
                            (finite.del node path inst s1)
                            (λ s2.
                              delete_entered-IsFinite path node inst s2 t (a node inst q refl))))
            ]
          ]))
  ]

-- DATA_MODEL_DeleteInstance ends in every state and for every path, where the call-backs of the
-- table and the deletions in the database do: one level of recursion for each registered node is
-- enough, as a node is registered before its children.
pub data_model_delete_instance-IsFinite :
    {W : Type 0} (ext : External W) (hooks : TableHooks W) (reg : Registry) (atoi : Bytes → ℕ)
    (path : Bytes) (flags : DelFlags) (s : Dm W)
    → AreFinite hooks
    → IsTree reg
    → IsFinite (data_model_delete_instance ext hooks reg atoi path flags s)
unfolding data_model_delete_instance
data_model_delete_instance-IsFinite ext hooks reg atoi path flags s finite t =
    elim (Bool-cases (dm_trans_is_within_transaction s)) [
      | inr e ↦ rw e tt
      | inl e ↦ rw e (
          delete_found-IsFinite ext hooks reg finite atoi path flags
            (dm_priv_get_node_from_path reg atoi path) s t
            (λ node inst q h. (get_node-IsFound reg atoi path node inst q t h).allocated_node))
    ]
