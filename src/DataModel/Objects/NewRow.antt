-- ===== src/DataModel/Objects/NewRow.antt =====
-- src/core/data_model.c: what DATA_MODEL_AddInstance adds where the table gives the number.
use usp_agent_stomp.Common.{
  ℕ, ◌<◌, ◌≡◌, refl, sym, ◌∙◌, subst, Bool, true, false, Option, none, some, List, [], ◌∷◌, ◌++◌,
  arith, ltb, if◌then◌else◌, length, Bytes,
}
use usp_agent_stomp.Result.{UspErr, ok, Returns, Returns_mono, Returns->>=}
use usp_agent_stomp.Text.Number.{print_unsigned}
use usp_agent_stomp.DataModel.Instances.{
  Inst, Schema, Vectors, top_of, dm_inst_vector_add, dm_inst_vector_is_exist, with_node,
  dm_inst_vector_get_next_instance,
}
use usp_agent_stomp.DataModel.Instances.Numbers.{IsNext, IsTable, HasSpareNumber, next_number_lem}
use usp_agent_stomp.DataModel.Instances.Tree.{
  view, tree_add, IsTopped, Holds, dm_inst_vector_add_lem,
}
use usp_agent_stomp.DataModel.Objects.{
  VendorCb, TableHooks, call_cb, unless_error, call_if, AddFlags, strip_dot, child_inst,
  enter_instance, create_instance, data_model_add_instance,
}
use usp_agent_stomp.DataModel.Objects.Adding.{found-IsTable}
use usp_agent_stomp.DataModel.Objects.Children.{child-IsFound}
use usp_agent_stomp.DataModel.Paths.{max_dm_path}
use usp_agent_stomp.DataModel.Registry.{Registry, dm_priv_get_node_from_path, schema_of}
use usp_agent_stomp.DataModel.Registry.Instances.{get_node-IsFound, IsFound-IsTopped}
use usp_agent_stomp.DataModel.Registry.Tree.{IsTree}
use usp_agent_stomp.DataModel.Trans.{
  add_op, Trans, Dm, Outcome, External, dm_trans_is_within_transaction, entry, dm_trans_add,
}
use usp_agent_stomp.DataModel.Trans.Changes.{after_values, add_instance_end}
use usp_agent_stomp.DataModel.Trans.Journal.{Spares}

-- A call that succeeds, and leaves the instances and the journal alone.
abbrev Passes : {W : Type 0} → Dm W → Outcome W → Type 0
Passes s r = Returns (λ q. (q.0 ≡ none) × Spares s q.1) r

-- No call-back of an addition refuses it, and the default values can be written.
pub record Permits {W : Type 0} (hooks : TableHooks W) : Type 0 where
  pub validate_add :
      (node : ℕ) (path : Bytes) (inst : Inst) (s : Dm W)
      → Passes s (call_cb (hooks.validate_add_cb node) path inst s)
  pub add :
      (node : ℕ) (path : Bytes) (inst : Inst) (s : Dm W)
      → Passes s (call_cb (hooks.add_cb node) path inst s)
  pub values :
      (path : Bytes) (node : ℕ) (inst : Inst) (s : Dm W)
      → Passes s (hooks.default_values path node inst s)

-- The instance is in the vectors and in the journal, and nothing else has changed in them.
pub record IsAdded {W : Type 0} (vs : Vectors) (ops : List Trans) (path : Bytes) (node : ℕ)
    (inst : Inst) (r : Option UspErr × Dm W) : Type 0 where
  pub succeeded : r.0 ≡ none
  pub instances : Holds (tree_add inst (view vs)) r.1.vectors
  pub journal : r.1.cur_transaction ≡ some (ops ++ entry add_op path none node inst ∷ [])

if-Passes :
    {W : Type 0} (b : Bool) (s : Dm W) (x : Outcome W)
    → Passes s x
    → Passes s (if b then x else ok (none, s))
if-Passes true s x h = h
if-Passes false s x h = (refl, (refl, refl))

call_if-Returns :
    {W : Type 0} (Q : Option UspErr × Dm W → Type 0) (wanted : Bool) (cb : VendorCb W)
    (path : Bytes) (inst : Inst) (s : Dm W) (k : Dm W → Outcome W)
    → Passes s (call_cb cb path inst s)
    → ((s' : Dm W) → Spares s s' → Returns Q (k s'))
    → Returns Q (call_if wanted cb path inst s k)
call_if-Returns Q wanted cb path inst s k h hk =
    Returns->>= (λ q. (q.0 ≡ none) × Spares s q.1) Q
      (if wanted then call_cb cb path inst s else ok (none, s)) (λ r. unless_error r k)
      (if-Passes wanted s _ h)
      (λ r (e, spared).
        subst (λ (c : Option UspErr). Returns Q (unless_error (c, r.1) k)) (sym e) (hk r.1 spared))

module _ {W : Type 0} (ext : External W) (schema : Schema) (vs : Vectors) (ops : List Trans)
    (path : Bytes) (node : ℕ) (inst : Inst) where
  values-IsAdded :
      (r : Dm W)
      → Holds (tree_add inst (view vs)) r.vectors
      → r.cur_transaction ≡ some ops
      → Returns (IsAdded vs ops path node inst) (after_values ext schema path node inst none r)
  unfolding dm_trans_add
  values-IsAdded r h opened = rw opened (record { succeeded = refl; instances = h; journal = refl })

  end-IsAdded :
      (default_values : Dm W → Outcome W) (s : Dm W)
      → IsTopped schema inst
      → s.vectors ≡ vs
      → s.cur_transaction ≡ some ops
      → ((s' : Dm W) → Passes s' (default_values s'))
      → Returns
          (IsAdded vs ops path node inst)
          (add_instance_end ext schema default_values path node inst s)
  unfolding add_instance_end
  end-IsAdded default_values s topped same opened passes =
      Returns->>= (Holds (tree_add inst (view s.vectors))) (IsAdded vs ops path node inst)
        (dm_inst_vector_add schema inst s.vectors) _
        (dm_inst_vector_add_lem schema inst s.vectors topped)
        (λ vs' h.
          let s1 : Dm W = record s { vectors = vs' } in
          Returns->>= (λ q. (q.0 ≡ none) × Spares s1 q.1) (IsAdded vs ops path node inst)
            (default_values s1) (λ r. after_values ext schema path node inst r.0 r.1) (passes s1)
            (λ r (e, spared).
              subst
                (λ (c : Option UspErr).
                  Returns (IsAdded vs ops path node inst)
                    (after_values ext schema path node inst c r.1))
                (sym e)
                (values-IsAdded r.1
                  (subst (λ (v : Vectors). Holds (tree_add inst (view v)) r.1.vectors) same
                    (subst (Holds (tree_add inst (view s.vectors))) (sym spared.0) h))
                  (spared.1 ∙ opened))))

-- The path of the object with the number `n` in the table.
abbrev pub row_path : Bytes → ℕ → Bytes
row_path path n = path ++ (b'.' ∷ print_unsigned n)

-- A row is added with a number that is the next one of its table, where the path with that number
-- fits its buffer.
abbrev pub IsNewRow :
    {W : Type 0} → Vectors → List Trans → Bytes → ℕ → Inst → Option UspErr × Dm W → Type 0
IsNewRow vs ops path node inst r =
    (n : ℕ) × IsNext (with_node inst node) (vs (top_of (with_node inst node))) n
    × IsAdded vs ops (row_path path n) node (child_inst inst node n) r

module _ {W : Type 0} (ext : External W) (hooks : TableHooks W) (schema : Schema)
    (permits : Permits hooks) (path : Bytes) (node : ℕ) (inst : Inst) (s : Dm W) (ops : List Trans)
    (opened : s.cur_transaction ≡ some ops) where
  enter-IsAdded :
      (n : ℕ) (s' : Dm W)
      → Spares s s'
      → IsTopped schema (child_inst inst node n)
      → length (row_path path n) < max_dm_path
      → Returns
          (IsAdded s.vectors ops (row_path path n) node (child_inst inst node n))
          (enter_instance ext hooks schema path node inst n s')
  unfolding enter_instance
  enter-IsAdded n s' k topped fits =
      let child = child_inst inst node n in
      let full = row_path path n in
      let room : ltb (length full) max_dm_path ≡ true = ground arith in
      call_if-Returns (IsAdded s.vectors ops full node child) true (hooks.add_cb node) path child s'
        _ (permits.add node path child s')
        (λ s1 k1. rw room (
          end-IsAdded ext schema s.vectors ops full node child _ s1 topped (k1.0 ∙ k.0)
            (k1.1 ∙ k.1 ∙ opened) (permits.values full node child)))

  create-IsNewRow :
      (flags : AddFlags)
      → IsTable schema node inst
      → dm_inst_vector_is_exist schema inst s.vectors ≡ ok true
      → HasSpareNumber (with_node inst node) (s.vectors (top_of (with_node inst node)))
      → ((n : ℕ) → IsTopped schema (child_inst inst node n))
      → ((n : ℕ)
          → IsNext (with_node inst node) (s.vectors (top_of (with_node inst node))) n
          → length (row_path path n) < max_dm_path)
      → Returns
          (IsNewRow s.vectors ops path node inst)
          (create_instance ext hooks schema flags path node inst none s)
  unfolding create_instance
  create-IsNewRow flags table exists spare topped fits = rw exists (
      call_if-Returns (IsNewRow s.vectors ops path node inst) flags.check_creatable
        (hooks.validate_add_cb node) path inst s _ (permits.validate_add node path inst s)
        (λ s' k.
          Returns->>= (IsNext (with_node inst node) (s.vectors (top_of (with_node inst node))))
            (IsNewRow s.vectors ops path node inst)
            (dm_inst_vector_get_next_instance schema node inst s'.vectors) _
            (subst
              (λ (v : Vectors).
                Returns (IsNext (with_node inst node) (s.vectors (top_of (with_node inst node))))
                  (dm_inst_vector_get_next_instance schema node inst v))
              (sym k.0) (next_number_lem schema node inst s.vectors table spare))
            (λ n next.
              Returns_mono (IsAdded s.vectors ops (row_path path n) node (child_inst inst node n))
                (IsNewRow s.vectors ops path node inst)
                (enter_instance ext hooks schema path node inst n s')
                (enter-IsAdded n s' k (topped n) (fits n next)) (λ r a. (n, next, a)))))

within_open :
    {W : Type 0} (s : Dm W) (ops : List Trans)
    → s.cur_transaction ≡ some ops
    → dm_trans_is_within_transaction s ≡ true
unfolding dm_trans_is_within_transaction
within_open s ops opened = rw opened refl

-- DATA_MODEL_AddInstance for the path of a table whose parents' objects exist, where the caller
-- leaves the number to the data model: it passes its assertions and succeeds, with a number above
-- that of every object of the table, which is 1 or one more than that of some object. The object
-- with that number, and nothing else, is added to those that exist and, with its path, to the end
-- of the journal. No row of the table has the number INT_MAX. The path, without a dot at its end,
-- and the new number fit the buffer, and the call-backs neither refuse the addition nor change the
-- instances or the journal.
pub data_model_add_instance_lem :
    {W : Type 0} (ext : External W) (hooks : TableHooks W) (reg : Registry) (atoi : Bytes → ℕ)
    (path internal_path : Bytes) (flags : AddFlags) (s : Dm W) (ops : List Trans) (node : ℕ)
    (inst : Inst)
    → Permits hooks
    → IsTree reg
    → s.cur_transaction ≡ some ops
    → length path < max_dm_path
    → strip_dot path ≡ ok internal_path
    → dm_priv_get_node_from_path reg atoi internal_path ≡ some (node, inst, false)
    → dm_inst_vector_is_exist (schema_of reg) inst s.vectors ≡ ok true
    → HasSpareNumber (with_node inst node) (s.vectors (top_of (with_node inst node)))
    → ((n : ℕ)
        → IsNext (with_node inst node) (s.vectors (top_of (with_node inst node))) n
        → length (row_path internal_path n) < max_dm_path)
    → Returns
        (IsNewRow s.vectors ops internal_path node inst)
        (data_model_add_instance ext hooks reg atoi path true flags s)
unfolding data_model_add_instance
data_model_add_instance_lem ext hooks reg atoi path internal_path flags s ops node inst permits t
      opened short stripped reached exists spare fits =
    let f = get_node-IsFound reg atoi internal_path node inst false t reached in
    let room : ltb (length path) max_dm_path ≡ true = ground arith in
    let multi = (f.unqualified refl).0 in
    rw (within_open s ops opened, room, stripped, reached, multi)
      (create-IsNewRow ext hooks (schema_of reg) permits internal_path node inst s ops opened flags
        (found-IsTable reg node inst t f) exists spare
        (λ n.
          IsFound-IsTopped reg node (child_inst inst node n) true t
            (child-IsFound reg node inst n t f) (omega arith))
        fits)
