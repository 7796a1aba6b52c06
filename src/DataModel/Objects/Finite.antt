-- ===== src/DataModel/Objects/Finite.antt =====
-- src/core/data_model.c, src/core/dm_inst_vector.c, src/core/dm_trans.c: what a deletion calls ends.
use usp_agent_stomp.Common.{
  ℕ, ◌+◌, ◌-◌, inl, inr, Bool, true, false, ◌&&◌, none, List, [], ◌∷◌, ◌++◌, arith, ltb, leb, ◌==◌,
  if◌then◌else◌, Bool-cases, Option-cases, Bytes,
}
use usp_agent_stomp.Common.Int.{ℤ, pos}
use usp_agent_stomp.Result.{Result, ◌>>=◌, Ends, Ends->>=}
use usp_agent_stomp.Text.Number.{print_unsigned}
use usp_agent_stomp.DataModel.Instances.{
  max_dm_instance_order, Inst, Schema, Vectors, checked_top, dm_inst_vector_remove,
  dm_inst_vector_is_exist, with_node, is_of_table, instance_at, add_number, instances_loop,
  dm_inst_vector_get_instances,
}
use usp_agent_stomp.DataModel.Paths.{usp_snprintf, instance_string_loop}
use usp_agent_stomp.DataModel.Trans.{del_op, Dm, External, dm_trans_add}
use usp_agent_stomp.Vector.IntVector.{int_vector_init, int_vector_add, int_vector_find}

-- A computation that is done at some time, with a value, an error or a stop of the process.
abbrev pub IsFinite : {A : Type 0} → Result A → Type 0
IsFinite r = Ends (λ _. Unit {0}) r

pub IsFinite->>= :
    {A B : Type 0} (r : Result A) (f : A → Result B)
    → IsFinite r
    → ((a : A) → IsFinite (f a))
    → IsFinite (r >>= f)
IsFinite->>= r f h k = Ends->>= (λ _. Unit {0}) (λ _. Unit {0}) r f h (λ a u. k a)

pub if-IsFinite :
    {A : Type 0} (b : Bool) (x y : Result A)
    → IsFinite x
    → IsFinite y
    → IsFinite (if b then x else y)
if-IsFinite true x y hx hy = hx
if-IsFinite false x y hx hy = hy

pub form-IsFinite :
    (numbers : List ℕ) (separator : Bytes) (len : ℕ) (buf : Bytes)
    → IsFinite (instance_string_loop numbers separator len buf)
unfolding instance_string_loop
form-IsFinite [] separator len buf = tt
form-IsFinite (n ∷ numbers) separator len buf =
    let written = usp_snprintf len (separator ++ print_unsigned n) in
    elim (Bool-cases (written.1 == 0)) [
      | inl e ↦ rw e tt
      | inr e ↦ rw e (form-IsFinite numbers (b'.' ∷ []) (len - written.1) (buf ++ written.0))
    ]

pub checked-IsFinite : (schema : Schema) (inst : Inst) → IsFinite (checked_top schema inst)
checked-IsFinite schema inst = ground arith

pub remove-IsFinite :
    (schema : Schema) (inst : Inst) (vs : Vectors) → IsFinite (dm_inst_vector_remove schema inst vs)
unfolding dm_inst_vector_remove
remove-IsFinite schema inst vs = ground arith

pub exist-IsFinite :
    (schema : Schema) (inst : Inst) (vs : Vectors)
    → IsFinite (dm_inst_vector_is_exist schema inst vs)
unfolding dm_inst_vector_is_exist
exist-IsFinite schema inst vs = ground arith

pub trans_add-IsFinite :
    {W : Type 0} (ext : External W) (schema : Schema) (path : List ℕ) (node : ℕ) (inst : Inst)
    (s : Dm W)
    → IsFinite (dm_trans_add ext schema del_op path none false node inst s)
unfolding dm_trans_add
trans_add-IsFinite ext schema path node inst s = elim (Option-cases s.cur_transaction) [
  | inl e ↦ rw e tt
  | inr (ops, e) ↦ rw e tt
]

pub int_vector_add-IsFinite : (iv : List ℤ) (n : ℤ) → IsFinite (int_vector_add iv n)
unfolding int_vector_add
int_vector_add-IsFinite iv n = ground arith

pub add_number-IsFinite : (iv : List ℤ) (n : ℤ) → IsFinite (add_number iv n)
unfolding add_number
add_number-IsFinite iv n = elim (Option-cases (int_vector_find iv n)) [
  | inl f ↦ rw (f, add_number) (int_vector_add-IsFinite iv n)
  | inr (k, f) ↦ rw (f, add_number) tt
]

pub instances_loop-IsFinite :
    (inst : Inst) (div : List Inst) (iv : List ℤ) → IsFinite (instances_loop inst div iv)
unfolding instances_loop
instances_loop-IsFinite inst [] iv = tt
instances_loop-IsFinite inst (oi ∷ div) iv =
    elim (Bool-cases (leb (inst.order + 1) oi.order && is_of_table inst oi)) [
      | inr e ↦ rw e (instances_loop-IsFinite inst div iv)
      | inl e ↦ rw e (
          IsFinite->>= _ _ (add_number-IsFinite iv (pos (instance_at oi inst.order)))
            (λ added. instances_loop-IsFinite inst div added))
    ]

pub get_instances-IsFinite :
    (schema : Schema) (node : ℕ) (inst : Inst) (vs : Vectors)
    → IsFinite (dm_inst_vector_get_instances schema node inst vs)
unfolding dm_inst_vector_get_instances
get_instances-IsFinite schema node inst vs =
    elim (Bool-cases (ltb inst.order max_dm_instance_order)) [
      | inr e ↦ rw e tt
      | inl e ↦ rw e (
          IsFinite->>= _ _ (checked-IsFinite schema (with_node inst node))
            (λ top. instances_loop-IsFinite (with_node inst node) (vs top) int_vector_init))
    ]
