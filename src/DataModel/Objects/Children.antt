-- ===== src/DataModel/Objects/Children.antt =====
-- src/core/data_model.c: the instances structure of an object that is added to a table.
use usp_agent_stomp.Common.{
  ℕ, zero, suc, ◌+◌, ◌-◌, ◌≤◌, ◌<◌, ◌≡◌, refl, sym, ap, ap₂, ◌∙◌, subst, true, false, none, some,
  List, [], ◌∷◌, ◌++◌, append_assoc, arith, length, get_elem?, set, take, length-append,
  take-append, take-take-suc, set-append, length-set,
}
use usp_agent_stomp.DataModel.Access.{parent_inst}
use usp_agent_stomp.DataModel.Instances.{max_dm_instance_order, zeros, Inst, instance_at}
use usp_agent_stomp.DataModel.Objects.{child_inst}
use usp_agent_stomp.DataModel.Paths.{is_multi}
use usp_agent_stomp.DataModel.Registry.{Registry, filled}
use usp_agent_stomp.DataModel.Registry.Instances.{IsFound}
use usp_agent_stomp.DataModel.Registry.Tree.{IsAllocated, IsTree}

-- The tables above a table, and what its entries say of them.
record Above (reg : Registry) (node k : ℕ) : Type 0 where
  above : List ℕ
  as_deep : length above ≡ k
  shallow : k < max_dm_instance_order
  own : take (suc k) (reg.nodes node).instance_nodes ≡ above ++ node ∷ []
  upper : take k (reg.nodes node).instance_nodes ≡ above

tables-Above :
    (reg : Registry) (node k : ℕ)
    → IsTree reg
    → IsAllocated reg node
    → is_multi (reg.nodes node).type ≡ true
    → k + 1 ≡ (reg.nodes node).order
    → Above reg node k
tables-Above reg node k t a multi deep =
    let r = t.registered node a in
    let (above, own) = r.last_table multi in
    let counted : length above ≡ k =
      omega (arith, deep, r.counted, ap length own, length-append above (node ∷ [])) in
    let depth : suc k ≡ (reg.nodes node).order = omega (arith, deep) in
    let tables : take (suc k) (reg.nodes node).instance_nodes ≡ above ++ node ∷ [] =
      ap (λ n. take n (reg.nodes node).instance_nodes) depth ∙ own in
    record {
      above = above;
      as_deep = counted;
      shallow = omega (arith, deep, r.few);
      own = tables;
      upper =
          sym (take-take-suc k (reg.nodes node).instance_nodes)
          ∙ ap (take k) tables
          ∙ subst (λ n. take n (above ++ node ∷ []) ≡ above) counted (take-append above _);
    }

-- The entry of the table itself is written behind those of the tables above it.
filled-suc :
    (reg : Registry) (node k : ℕ)
    → Above reg node k
    → set (filled (reg.nodes node).instance_nodes k) k node
      ≡ filled (reg.nodes node).instance_nodes (suc k)
unfolding zeros
filled-suc reg node k u =
    let rest : max_dm_instance_order - k ≡ suc (max_dm_instance_order - (suc k)) =
      omega (arith, u.shallow) in
    let before = ap₂ (λ xs m. set (xs ++ zeros m) k node) u.upper rest in
    let spare = zeros (max_dm_instance_order - (suc k)) in
    before
    ∙ ap (λ n. set (u.above ++ 0 ∷ spare) n node) (sym u.as_deep)
    ∙ set-append u.above spare 0 node
    ∙ sym (append_assoc u.above (node ∷ []) spare)
    ∙ ap (λ xs. xs ++ spare) (sym u.own)

filled-again :
    (reg : Registry) (node k : ℕ)
    → Above reg node k
    → set (filled (reg.nodes node).instance_nodes (suc k)) k node
      ≡ filled (reg.nodes node).instance_nodes (suc k)
filled-again reg node k u =
    let spare = zeros (max_dm_instance_order - (suc k)) in
    let whole : filled (reg.nodes node).instance_nodes (suc k) ≡ u.above ++ node ∷ spare =
      ap (λ xs. xs ++ spare) u.own ∙ append_assoc u.above (node ∷ []) spare in
    ap (λ xs. set xs k node) whole
    ∙ ap (λ n. set (u.above ++ node ∷ spare) n node) (sym u.as_deep)
    ∙ set-append u.above spare node node
    ∙ sym whole

-- A position that is written with what it holds.
set-instance_at :
    (xs : List ℕ) (k : ℕ) → set xs k (elim (get_elem? xs k) [ none ↦ 0 | some n ↦ n ]) ≡ xs
set-instance_at [] k = refl
set-instance_at (x ∷ xs) zero = refl
set-instance_at (x ∷ xs) (suc k) = ap (◌∷◌ x) (set-instance_at xs k)

-- A path to a table, with a number added, is one to an object of the table.
pub child-IsFound :
    (reg : Registry) (node : ℕ) (inst : Inst) (n : ℕ)
    → IsTree reg
    → IsFound reg node inst false
    → IsFound reg node (child_inst inst node n) true
child-IsFound reg node inst n t f =
    let (multi, deep) = f.unqualified refl in
    let u = tables-Above reg node inst.order t f.allocated_node multi deep in
    let deeper : suc inst.order ≡ inst.order + 1 = omega arith in
    record {
      allocated_node = f.allocated_node;
      deep_enough = omega (arith, deep);
      nodes =
          ap (λ xs. set xs inst.order node) f.nodes
          ∙ filled-suc reg node inst.order u
          ∙ ap (filled (reg.nodes node).instance_nodes) deeper;
      numbered =
          subst (λ k. max_dm_instance_order ≤ k) (sym (length-set inst.instances _ n)) f.numbered;
      unqualified = λ e. cc;
      all_numbers = λ e. deep;
    }

-- The number that is taken off the path is put back.
pub same_child :
    (reg : Registry) (node : ℕ) (inst : Inst)
    → IsTree reg
    → IsFound reg node inst true
    → is_multi (reg.nodes node).type ≡ true
    → 0 < inst.order
    → child_inst (parent_inst inst) node (instance_at inst (inst.order - 1)) ≡ inst
same_child reg node inst t f multi deep =
    let k = inst.order - 1 in
    let u =
      tables-Above reg node k t f.allocated_node multi (omega (arith, f.all_numbers refl, deep)) in
    let entries = (reg.nodes node).instance_nodes in
    let counted : suc k ≡ inst.order = omega (arith, deep) in
    let whole : inst.nodes ≡ filled entries (suc k) = f.nodes ∙ ap (filled entries) (sym counted) in
    let nodes : set inst.nodes k node ≡ inst.nodes =
      ap (λ xs. set xs k node) whole ∙ filled-again reg node k u ∙ sym whole in
    let instances : set inst.instances k (instance_at inst k) ≡ inst.instances =
      set-instance_at inst.instances k in
    ground (arith, nodes, instances, counted)
