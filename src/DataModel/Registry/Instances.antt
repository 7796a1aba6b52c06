-- ===== src/DataModel/Registry/Instances.antt =====
-- src/core/data_model.c: what a path that DM_PRIV_GetNodeFromPath finds says of the object
-- instances, as the instance vectors and the transactions use it.
use usp_agent_stomp.Common.{
  ℕ, zero, suc, ◌+◌, ◌-◌, ◌≤◌, ◌<◌, ◌≡◌, refl, ap, inl, inr, Bool, true, false, some, List, [], ◌∷◌,
  arith, Option-cases, length, take, length-append, length-take, All, Bytes,
}
use usp_agent_stomp.DataModel.Instances.{max_dm_instance_order, zeros, Inst, top_of}
use usp_agent_stomp.DataModel.Instances.Tree.{IsTopped}
use usp_agent_stomp.DataModel.Paths.{is_multi, parse_path}
use usp_agent_stomp.DataModel.Registry.{
  Registry, find_root, walk, filled, found, get_from_root, dm_priv_get_node_from_path, schema_of,
}
use usp_agent_stomp.DataModel.Registry.Growth.{Extends-refl, walk-Extends}
use usp_agent_stomp.DataModel.Registry.Lookup.{root-IsAllocated}
use usp_agent_stomp.DataModel.Registry.Tree.{IsAllocated, IsTable, IsTree}
use usp_agent_stomp.DataModel.Trans.{inst_of}
use usp_agent_stomp.DataModel.Trans.Within.{IsNode}

-- The tables of the instance numbers that the path has.
pub record IsFound (reg : Registry) (node : ℕ) (inst : Inst) (is_qualified : Bool) : Type 0 where
  pub allocated_node : IsAllocated reg node
  pub deep_enough : inst.order ≤ (reg.nodes node).order
  pub nodes : inst.nodes ≡ filled (reg.nodes node).instance_nodes inst.order
  pub numbered : max_dm_instance_order ≤ length inst.instances
  pub unqualified :
      is_qualified ≡ false
      → (is_multi (reg.nodes node).type ≡ true) × (inst.order + 1 ≡ (reg.nodes node).order)
  pub all_numbers : is_qualified ≡ true → inst.order ≡ (reg.nodes node).order

walk-IsAllocated :
    (reg : Registry) (names : List Bytes) (m n : ℕ)
    → IsTree reg
    → IsAllocated reg m
    → walk reg m names ≡ some n
    → IsAllocated reg n
walk-IsAllocated reg names m n t a w = (walk-Extends reg reg names m n t (Extends-refl reg) a w).1

length-zeros : (n : ℕ) → length (zeros n) ≡ n
unfolding zeros
length-zeros zero = refl
length-zeros (suc n) = ap suc (length-zeros n)

filled-length :
    (numbers : List ℕ) → max_dm_instance_order ≤ length (filled numbers (length numbers))
filled-length numbers = omega (
  arith,
  length-append (take (length numbers) numbers) (zeros (max_dm_instance_order - length numbers)),
  length-zeros (max_dm_instance_order - length numbers),
  length-take (length numbers) numbers,
)

found-IsFound :
    (reg : Registry) (numbers : List ℕ) (n node : ℕ) (inst : Inst) (is_qualified : Bool)
    → IsAllocated reg n
    → found reg numbers n ≡ some (node, inst, is_qualified)
    → IsFound reg node inst is_qualified
found-IsFound reg numbers n node inst is_qualified a h = ground (arith, filled-length numbers)

get_from_root-IsFound :
    (reg : Registry) (names : List Bytes) (numbers : List ℕ) (node : ℕ) (inst : Inst)
    (is_qualified : Bool)
    → IsTree reg
    → get_from_root reg names numbers ≡ some (node, inst, is_qualified)
    → IsFound reg node inst is_qualified
get_from_root-IsFound reg [] numbers node inst q t h = cc
get_from_root-IsFound reg (name ∷ names) numbers node inst q t h =
    elim (Option-cases (find_root reg name)) [
      | inl lost ↦ ground arith
      | inr (root, got) ↦ elim (Option-cases (walk reg root names)) [
        | inl lost ↦ ground arith
        | inr (n, reached) ↦
            found-IsFound reg numbers n node inst q
              (walk-IsAllocated reg names root n t ((root-IsAllocated reg name root t got).0)
                reached)
              (ground arith)
      ]
    ]

pub get_node-IsFound :
    (reg : Registry) (atoi : Bytes → ℕ) (path : Bytes) (node : ℕ) (inst : Inst)
    (is_qualified : Bool)
    → IsTree reg
    → dm_priv_get_node_from_path reg atoi path ≡ some (node, inst, is_qualified)
    → IsFound reg node inst is_qualified
unfolding dm_priv_get_node_from_path
get_node-IsFound reg atoi path node inst q t h = elim (Option-cases (parse_path atoi path)) [
  | inl bad ↦ ground arith
  | inr ((names, numbers), p) ↦
      get_from_root-IsFound reg names numbers node inst q t
        (rw (p, dm_priv_get_node_from_path) at h)
]

-- The first of the tables is that of the whole instance.
top-IsTable :
    (reg : Registry) (entries : List ℕ) (order k : ℕ) (inst : Inst)
    → 0 < k
    → k ≤ order
    → length (take order entries) ≡ order
    → All (IsTable reg) (take order entries)
    → inst.nodes ≡ filled entries k
    → IsTable reg (top_of inst)
top-IsTable reg entries zero k inst pos le counted tables e = absurd (omega arith)
top-IsTable reg entries (suc order) zero inst pos le counted tables e = absurd (omega arith)
top-IsTable reg [] (suc order) (suc k) inst pos le counted tables e = absurd (omega arith)
top-IsTable reg (x ∷ xs) (suc order) (suc k) inst pos le counted tables e =
    let same : top_of inst ≡ x = ground arith in rw same (tables.0)

-- Where a path has an instance number, what DM_PRIV_GetNodeFromPath makes of it lies below a
-- registered table, so that the assertions of the instance vectors hold.
pub IsFound-IsTopped :
    (reg : Registry) (node : ℕ) (inst : Inst) (is_qualified : Bool)
    → IsTree reg
    → IsFound reg node inst is_qualified
    → 0 < inst.order
    → IsTopped (schema_of reg) inst
IsFound-IsTopped reg node inst q t f deep =
    let r = t.registered node f.allocated_node in
    let top =
      top-IsTable reg (reg.nodes node).instance_nodes (reg.nodes node).order inst.order inst deep
        f.deep_enough r.counted r.tables f.nodes in
    record { deep = deep; top_set = top.0.0; is_table = top.1 }

pub IsFound-IsNode :
    (reg : Registry) (node : ℕ) (inst : Inst)
    → IsTree reg
    → IsFound reg node inst true
    → 0 < inst.order
    → IsNode (schema_of reg) node inst
unfolding inst_of
IsFound-IsNode reg node inst t f deep = record {
  node_set = f.allocated_node.0;
  topped = IsFound-IsTopped reg node inst true t f deep;
  same_nodes = ground (arith, f.nodes, f.all_numbers refl);
}

-- A path with all its instance numbers, of which there is one at least, is found with the node and
-- the instances that the journal of a transaction needs to undo a change of them.
lookup-IsNode :
    (reg : Registry) (atoi : Bytes → ℕ) (path : Bytes) (node : ℕ) (inst : Inst)
    → IsTree reg
    → dm_priv_get_node_from_path reg atoi path ≡ some (node, inst, true)
    → 0 < inst.order
    → IsNode (schema_of reg) node inst
lookup-IsNode reg atoi path node inst t h deep =
    IsFound-IsNode reg node inst t (get_node-IsFound reg atoi path node inst true t h) deep
