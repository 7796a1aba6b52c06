-- ===== src/DataModel/Objects/Adding.antt =====
-- src/core/data_model.c: DATA_MODEL_AddInstance as an operation of a transaction.
use usp_agent_stomp.Common.{
  ℕ, ◌-◌, ◌<◌, ◌≡◌, refl, sym, subst, ◌↔◌, inl, inr, Bool, true, false, not, Option, none, some,
  arith, ltb, ◌==◌, if◌then◌else◌, Bool-cases, Option-cases, length, Bytes,
}
use usp_agent_stomp.Result.{
  resources_exceeded, request_denied, object_not_creatable, ok, Ensures, always, Ensures->>=,
  Ensures-mono, Returns,
}
use usp_agent_stomp.DataModel.Access.{parent_inst}
use usp_agent_stomp.DataModel.Instances.{
  Inst, Vectors, is_below, top_of, dm_inst_vector_is_exist, instance_at,
}
use usp_agent_stomp.DataModel.Instances.Numbers.{IsTable, is_exist-is_below}
use usp_agent_stomp.DataModel.Instances.Tree.{Tree, view, Holds}
use usp_agent_stomp.DataModel.Objects.{
  TableHooks, fail, AddFlags, strip_dot, before_last_dot, child_inst, create_instance, with_number,
  add_below, data_model_add_instance,
}
use usp_agent_stomp.DataModel.Objects.Children.{child-IsFound, same_child}
use usp_agent_stomp.DataModel.Objects.Journaled.{
  AddsCalmly, Leaves, assert-Leaves, if-Leaves, allocated-IsJournaled, given-IsJournaled,
}
use usp_agent_stomp.DataModel.Objects.Rows.{HasParents, NothingLost, IsFresh}
use usp_agent_stomp.DataModel.Paths.{max_dm_path, is_multi}
use usp_agent_stomp.DataModel.Registry.{Registry, found, dm_priv_get_node_from_path, schema_of}
use usp_agent_stomp.DataModel.Registry.Instances.{
  IsFound, get_node-IsFound, IsFound-IsTopped, IsFound-IsNode,
}
use usp_agent_stomp.DataModel.Registry.Tree.{IsTree}
use usp_agent_stomp.DataModel.Trans.{Dm, External, dm_trans_is_within_transaction, dm_trans_abort}
use usp_agent_stomp.DataModel.Trans.Journal.{dm_trans_abort_lem}
use usp_agent_stomp.DataModel.Trans.Rollback.{Within-IsJournaled}
use usp_agent_stomp.DataModel.Trans.Steps.{IsJournaled, Returns-Ensures}
use usp_agent_stomp.DataModel.Trans.Within.{IsNode, Within}

-- An object that does not exist is fresh, with all that would be nested in it.
absent-IsFresh :
    (before : Tree) (inst : Inst) (vs : Vectors) (exists : Bool)
    → NothingLost before vs
    → ((exists ≡ true) ↔ ((x : Inst) × (view vs (top_of inst) x ≡ true) × (is_below inst x ≡ true)))
    → exists ≡ false
    → IsFresh before inst
absent-IsFresh before inst vs exists lost found gone x b =
    elim (Bool-cases (before (top_of inst) x)) [
      | inr e ↦ e
      | inl e ↦ let there : exists ≡ true = found.1 (x, lost _ x e, b) in cc
    ]

-- The table of a path that ends with it.
pub found-IsTable :
    (reg : Registry) (node : ℕ) (inst : Inst)
    → IsTree reg
    → IsFound reg node inst false
    → IsTable (schema_of reg) node inst
found-IsTable reg node inst t f =
    let c = child-IsFound reg node inst 0 t f in
    let topped = IsFound-IsTopped reg node (child_inst inst node 0) true t c (omega arith) in
    let few = (t.registered node f.allocated_node).few in
    record {
      shallow = omega (arith, few, (f.unqualified refl).1);
      top_set = topped.top_set;
      is_table = topped.is_table;
    }

-- The transaction is open and can be undone, and has deleted nothing that existed before it.
record CanAdd {W : Type 0} (reg : Registry) (before : Tree) (s : Dm W) : Type 0 where
  journaled : IsJournaled (schema_of reg) before s
  nothing_lost : NothingLost before s.vectors
  parents : HasParents s.vectors

module _ {W : Type 0} (ext : External W) (hooks : TableHooks W) (reg : Registry) (before : Tree)
    (calm : AddsCalmly hooks) (t : IsTree reg) where
  with_number-IsJournaled :
      (flags : AddFlags) (path : Bytes) (node : ℕ) (inst : Inst) (s : Dm W)
      → CanAdd reg before s
      → IsFound reg node inst true
      → is_multi (reg.nodes node).type ≡ true
      → Leaves
          (IsJournaled (schema_of reg) before)
          (with_number ext hooks (schema_of reg) flags path node inst s)
  with_number-IsJournaled flags path node inst s c f multi =
      let Q : Dm W → Type 0 = IsJournaled (schema_of reg) before in
      let rows = (t.registered node f.allocated_node).deep multi in
      let deep : 0 < inst.order = omega (arith, rows, f.all_numbers refl) in
      let child = child_inst (parent_inst inst) node (instance_at inst (inst.order - 1)) in
      let same : inst ≡ child = sym (same_child reg node inst t f multi deep) in
      let registered = IsFound-IsNode reg node inst t f deep in
      Ensures->>= _ (λ q. Q q.1) (dm_inst_vector_is_exist (schema_of reg) inst s.vectors) _
        (Returns-Ensures _ (dm_inst_vector_is_exist (schema_of reg) inst s.vectors)
          (is_exist-is_below (schema_of reg) inst s.vectors registered.topped))
        (λ exists found. elim (Bool-cases exists) [
          | inl e ↦ rw e (
              if-Leaves Q flags.ignore_instance_exists (ok (none, s)) (fail request_denied s)
                c.journaled c.journaled)
          | inr e ↦ rw e (
              let new = absent-IsFresh before inst s.vectors exists c.nothing_lost found e in
              assert-Leaves Q (not (inst.order == 0)) _
                (elim (Option-cases (before_last_dot path)) [
                  | inl d ↦ rw d tt
                  | inr (parent_path, d) ↦ rw d (
                      given-IsJournaled ext hooks (schema_of reg) before calm flags parent_path node
                        (parent_inst inst) (instance_at inst (inst.order - 1)) s c.journaled
                        (subst (IsNode (schema_of reg) node) same registered)
                        (subst (IsFresh before) same new))
                ]))
        ])

  wanted-IsJournaled :
      (flags : AddFlags) (allocates : Bool) (path : Bytes) (node : ℕ) (inst : Inst) (q : Bool)
      (s : Dm W)
      → CanAdd reg before s
      → is_multi (reg.nodes node).type ≡ true
      → IsFound reg node inst q
      → Leaves (IsJournaled (schema_of reg) before) (
          if (if allocates then q else not q)
          then fail object_not_creatable s
          else if allocates
          then create_instance ext hooks (schema_of reg) flags path node inst none s
          else with_number ext hooks (schema_of reg) flags path node inst s)
  wanted-IsJournaled flags true path node inst true s c multi f = c.journaled
  wanted-IsJournaled flags true path node inst false s c multi f =
      let few = (t.registered node f.allocated_node).few in
      allocated-IsJournaled ext hooks (schema_of reg) before calm flags path node inst s c.journaled
        (found-IsTable reg node inst t f)
        (λ n.
          IsFound-IsNode reg node (child_inst inst node n) t (child-IsFound reg node inst n t f)
            (omega arith))
        (omega (arith, f.numbered, few, (f.unqualified refl).1)) c.nothing_lost c.parents
  wanted-IsJournaled flags false path node inst true s c multi f =
      with_number-IsJournaled flags path node inst s c f multi
  wanted-IsJournaled flags false path node inst false s c multi f = c.journaled

  add_below-IsJournaled :
      (flags : AddFlags) (allocates : Bool) (path : Bytes) (found : Option (ℕ × Inst × Bool))
      (s : Dm W)
      → CanAdd reg before s
      → ((node : ℕ) (inst : Inst) (q : Bool)
          → found ≡ some (node, inst, q)
          → IsFound reg node inst q)
      → Leaves
          (IsJournaled (schema_of reg) before)
          (add_below ext hooks reg flags allocates path found s)
  add_below-IsJournaled flags allocates path none s c f = c.journaled
  add_below-IsJournaled flags allocates path (some (node, inst, q)) s c f =
      elim (Bool-cases (is_multi (reg.nodes node).type)) [
        | inr e ↦ rw e c.journaled
        | inl e ↦
            rw e (wanted-IsJournaled flags allocates path node inst q s c e (f node inst q refl))
      ]

  -- DATA_MODEL_AddInstance leaves a transaction that can be undone, which `CanAdd` asks of it.
  add_instance-IsJournaled :
      (atoi : Bytes → ℕ) (path : Bytes) (allocates : Bool) (flags : AddFlags) (s : Dm W)
      → CanAdd reg before s
      → Leaves
          (IsJournaled (schema_of reg) before)
          (data_model_add_instance ext hooks reg atoi path allocates flags s)
  unfolding data_model_add_instance
  add_instance-IsJournaled atoi path allocates flags s c =
      let Q = IsJournaled (schema_of reg) before in
      assert-Leaves Q (dm_trans_is_within_transaction s) _ (
        if-Leaves Q (ltb (length path) max_dm_path) _ (fail resources_exceeded s)
          (Ensures->>= (λ _. Unit {0}) (λ q. Q q.1) (strip_dot path) _ (always (strip_dot path))
            (λ internal_path u.
              add_below-IsJournaled flags allocates internal_path
                (dm_priv_get_node_from_path reg atoi internal_path) s c
                (λ node inst q h. get_node-IsFound reg atoi internal_path node inst q t h)))
          c.journaled)

-- Where DATA_MODEL_AddInstance returns, within a transaction from which nothing that existed before
-- has been deleted so far, it is undone by DM_TRANS_Abort, whether it has succeeded or returned an
-- error: the abort passes its assertions, brings back exactly the instances from before the
-- transaction and closes it. A number behind INT_MAX is not returned. This holds whether the number
-- is the caller's or the table's, for call-backs of the table that leave the instances and the
-- journal alone and default values that do so too, a tree of registered nodes, and vectors that
-- hold every object in which one that they hold is nested.
pub add_instance-Undone :
    {W : Type 0} (ext : External W) (hooks : TableHooks W) (reg : Registry) (before : Tree)
    (atoi : Bytes → ℕ) (path : Bytes) (allocates : Bool) (flags : AddFlags) (s : Dm W)
    → AddsCalmly hooks
    → IsTree reg
    → Within ext (schema_of reg) before s
    → NothingLost before s.vectors
    → HasParents s.vectors
    → Ensures
        (λ r.
          Returns
            (λ a. Holds before a.1.vectors × (a.1.cur_transaction ≡ none))
            (dm_trans_abort ext (schema_of reg) r.1))
        (data_model_add_instance ext hooks reg atoi path allocates flags s)
add_instance-Undone ext hooks reg before atoi path allocates flags s calm t w lost parents =
    let c : CanAdd reg before s = record {
      journaled = Within-IsJournaled ext (schema_of reg) before s w;
      nothing_lost = lost;
      parents = parents;
    } in
    Ensures-mono _ _ (data_model_add_instance ext hooks reg atoi path allocates flags s)
      (add_instance-IsJournaled ext hooks reg before calm t atoi path allocates flags s c)
      (λ r j.
        dm_trans_abort_lem ext (schema_of reg) before r.1 j.ops j.opened j.undoable j.accounts)
