-- ===== src/DataModel/Objects/Journaled.antt =====
-- src/core/data_model.c: the steps of DATA_MODEL_AddInstance, as changes within a transaction.
use usp_agent_stomp.Common.{
  ℕ, ◌<◌, refl, sym, subst, Bool, true, false, Option, none, some, ◌∷◌, ◌++◌, ltb, if◌then◌else◌,
  length, Bytes,
}
use usp_agent_stomp.Result.{
  UspErr, object_does_not_exist, ok, ◌>>◌, assert, Ensures, always, Ensures->>=, Ensures-mono,
}
use usp_agent_stomp.Text.Number.{print_unsigned}
use usp_agent_stomp.DataModel.Instances.{
  Inst, Schema, dm_inst_vector_is_exist, dm_inst_vector_get_next_instance,
}
use usp_agent_stomp.DataModel.Instances.Numbers.{IsTable, returned_number-IsNext}
use usp_agent_stomp.DataModel.Instances.Tree.{Tree}
use usp_agent_stomp.DataModel.Objects.{
  VendorCb, TableHooks, call_cb, unless_error, call_if, fail, AddFlags, child_inst, enter_instance,
  enter_numbered, create_instance,
}
use usp_agent_stomp.DataModel.Objects.Rows.{HasParents, NothingLost, IsFresh, next-IsFresh}
use usp_agent_stomp.DataModel.Paths.{max_dm_path}
use usp_agent_stomp.DataModel.Trans.{Dm, Outcome, External}
use usp_agent_stomp.DataModel.Trans.Journal.{Spares}
use usp_agent_stomp.DataModel.Trans.Steps.{IsJournaled, Spares-IsJournaled, add-IsJournaled}
use usp_agent_stomp.DataModel.Trans.Within.{IsNode, OnlyValues}

-- The call-backs of an addition leave the instances and the journal alone, and the default values
-- are written to the database only.
pub record AddsCalmly {W : Type 0} (hooks : TableHooks W) : Type 0 where
  pub validate_add :
      (node : ℕ) (path : Bytes) (inst : Inst) (s : Dm W)
      → Ensures (λ r. Spares s r.1) (call_cb (hooks.validate_add_cb node) path inst s)
  pub add :
      (node : ℕ) (path : Bytes) (inst : Inst) (s : Dm W)
      → Ensures (λ r. Spares s r.1) (call_cb (hooks.add_cb node) path inst s)
  pub values :
      (path : Bytes) (node : ℕ) (inst : Inst) → OnlyValues (hooks.default_values path node inst)

-- The outcome's state has the property.
abbrev pub Leaves : {W : Type 0} → (Dm W → Type 0) → Outcome W → Type 0
Leaves Q r = Ensures (λ q. Q q.1) r

pub assert-Leaves :
    {W : Type 0} (Q : Dm W → Type 0) (b : Bool) (r : Outcome W)
    → Leaves Q r
    → Leaves Q (assert b >> r)
assert-Leaves Q true r h = h
assert-Leaves Q false r h = tt

pub if-Leaves :
    {W : Type 0} (Q : Dm W → Type 0) (b : Bool) (x y : Outcome W)
    → Leaves Q x
    → Leaves Q y
    → Leaves Q (if b then x else y)
if-Leaves Q true x y hx hy = hx
if-Leaves Q false x y hx hy = hy

unless_error-Leaves :
    {W : Type 0} (Q : Dm W → Type 0) (s : Dm W) (r : Option UspErr × Dm W) (k : Dm W → Outcome W)
    → ((s' : Dm W) → Spares s s' → Q s')
    → Spares s r.1
    → ((s' : Dm W) → Spares s s' → Leaves Q (k s'))
    → Leaves Q (unless_error r k)
unless_error-Leaves Q s (some e, s') k kept h hk = kept s' h
unless_error-Leaves Q s (none, s') k kept h hk = hk s' h

call_if-Leaves :
    {W : Type 0} (Q : Dm W → Type 0) (wanted : Bool) (cb : VendorCb W) (path : Bytes) (inst : Inst)
    (s : Dm W) (k : Dm W → Outcome W)
    → ((s' : Dm W) → Spares s s' → Q s')
    → Ensures (λ r. Spares s r.1) (call_cb cb path inst s)
    → ((s' : Dm W) → Spares s s' → Leaves Q (k s'))
    → Leaves Q (call_if wanted cb path inst s k)
call_if-Leaves Q wanted cb path inst s k kept h hk =
    Ensures->>= (λ r. Spares s r.1) (λ r. Q r.1)
      (if wanted then call_cb cb path inst s else ok (none, s)) (λ r. unless_error r k)
      (if-Leaves (Spares s) wanted _ _ h (refl, refl))
      (λ r h'. unless_error-Leaves Q s r k kept h' hk)

-- An addition to the table of `node`, below the objects of `inst`.
module _ {W : Type 0} (ext : External W) (hooks : TableHooks W) (schema : Schema) (before : Tree)
    (calm : AddsCalmly hooks) where
  enter-IsJournaled :
      (path : Bytes) (node : ℕ) (inst : Inst) (n : ℕ) (s : Dm W)
      → IsJournaled schema before s
      → IsNode schema node (child_inst inst node n)
      → IsFresh before (child_inst inst node n)
      → Leaves (IsJournaled schema before) (enter_instance ext hooks schema path node inst n s)
  unfolding enter_instance
  enter-IsJournaled path node inst n s j registered new =
      let full = path ++ (b'.' ∷ print_unsigned n) in
      let kept = λ (s' : Dm W) (k : Spares s s'). Spares-IsJournaled schema before s s' k j in
      call_if-Leaves (IsJournaled schema before) true (hooks.add_cb node) path
        (child_inst inst node n) s _ kept (calm.add node path _ s)
        (λ s' k. assert-Leaves (IsJournaled schema before) (ltb (length full) max_dm_path) _ (
          add-IsJournaled ext schema before _ full node (child_inst inst node n) s' (kept s' k)
            (calm.values full node (child_inst inst node n)) registered new))

  -- What is asked of the number, in any state that has the instances of `s`.
  create-IsJournaled :
      (flags : AddFlags) (path : Bytes) (node : ℕ) (inst : Inst) (number : Option ℕ) (s : Dm W)
      → IsJournaled schema before s
      → ((s' : Dm W)
          → Spares s s'
          → Leaves
              (IsJournaled schema before)
              (enter_numbered ext hooks schema path node inst number s'))
      → Leaves
          (IsJournaled schema before)
          (create_instance ext hooks schema flags path node inst number s)
  unfolding create_instance
  create-IsJournaled flags path node inst number s j h =
      Ensures->>= (λ _. Unit {0}) (λ q. IsJournaled schema before q.1)
        (dm_inst_vector_is_exist schema inst s.vectors) _
        (always (dm_inst_vector_is_exist schema inst s.vectors))
        (λ exists u.
          if-Leaves (IsJournaled schema before) exists _ (fail object_does_not_exist s)
            (call_if-Leaves (IsJournaled schema before) flags.check_creatable
              (hooks.validate_add_cb node) path inst s _
              (λ s' k. Spares-IsJournaled schema before s s' k j)
              (calm.validate_add node path inst s) h)
            j)

  -- The number that the table gives.
  pub allocated-IsJournaled :
      (flags : AddFlags) (path : Bytes) (node : ℕ) (inst : Inst) (s : Dm W)
      → IsJournaled schema before s
      → IsTable schema node inst
      → ((n : ℕ) → IsNode schema node (child_inst inst node n))
      → inst.order < length inst.instances
      → NothingLost before s.vectors
      → HasParents s.vectors
      → Leaves
          (IsJournaled schema before)
          (create_instance ext hooks schema flags path node inst none s)
  allocated-IsJournaled flags path node inst s j table registered room lost parents =
      create-IsJournaled flags path node inst none s j (λ s' k.
        Ensures->>= (λ n. IsFresh before (child_inst inst node n))
          (λ q. IsJournaled schema before q.1)
          (dm_inst_vector_get_next_instance schema node inst s'.vectors) _
          (Ensures-mono _ (λ n. IsFresh before (child_inst inst node n))
            (dm_inst_vector_get_next_instance schema node inst s'.vectors)
            (returned_number-IsNext schema node inst s'.vectors table)
            (λ n.
              next-IsFresh before inst node n s'.vectors (subst (NothingLost before) (sym k.0) lost)
                (subst HasParents (sym k.0) parents) room))
          (λ n new.
            enter-IsJournaled path node inst n s' (Spares-IsJournaled schema before s s' k j)
              (registered n) new))

  -- The number that stands in the path.
  pub given-IsJournaled :
      (flags : AddFlags) (path : Bytes) (node : ℕ) (inst : Inst) (n : ℕ) (s : Dm W)
      → IsJournaled schema before s
      → IsNode schema node (child_inst inst node n)
      → IsFresh before (child_inst inst node n)
      → Leaves
          (IsJournaled schema before)
          (create_instance ext hooks schema flags path node inst (some n) s)
  given-IsJournaled flags path node inst n s j registered new =
      create-IsJournaled flags path node inst (some n) s j (λ s' k.
        enter-IsJournaled path node inst n s' (Spares-IsJournaled schema before s s' k j) registered
          new)
