-- ===== src/DataModel/Registry/Tree.antt =====
-- src/core/data_model.c: the invariant of the registered nodes.
use usp_agent_stomp.Common.{
  ℕ, suc, ◌-◌, ◌≤◌, ◌<◌, ◌≡◌, sym, ◌∙◌, inl, inr, true, List, [], ◌∷◌, ◌++◌, arith, ◌==◌,
  if◌then◌else◌, ==_iff, ==_refl, Bool-cases, length, take, length-append, take-append, All,
  All-append, Bytes,
}
use usp_agent_stomp.DataModel.Instances.{max_dm_instance_order, zeros}
use usp_agent_stomp.DataModel.Paths.{NodeType, is_multi}
use usp_agent_stomp.DataModel.Registry.{DmNode, Registry, filled}

-- The tables on the way to a node, itself included.
abbrev pub tables_of : DmNode → List ℕ
tables_of node = take node.order node.instance_nodes

abbrev pub own_table : NodeType → ℕ → List ℕ
own_table type n = if is_multi type then n ∷ [] else []

abbrev pub IsAllocated : Registry → ℕ → Type 0
IsAllocated reg n = (0 < n) × (n ≤ reg.num_nodes)

abbrev pub IsTable : Registry → ℕ → Type 0
IsTable reg t = IsAllocated reg t × (is_multi (reg.nodes t).type ≡ true)

-- A child has the tables of its parent, and itself where it is a table.
abbrev pub IsChild : Registry → List ℕ → ℕ → Type 0
IsChild reg tables c =
    IsAllocated reg c × (tables_of (reg.nodes c) ≡ tables ++ own_table (reg.nodes c).type c)

pub record IsRegistered (reg : Registry) (n : ℕ) : Type 0 where
  pub children : All (IsChild reg (tables_of (reg.nodes n))) (reg.nodes n).child_nodes
  pub few : (reg.nodes n).order ≤ max_dm_instance_order
  pub counted : length (tables_of (reg.nodes n)) ≡ (reg.nodes n).order
  pub padded :
      (reg.nodes n).instance_nodes ≡ filled (reg.nodes n).instance_nodes (reg.nodes n).order
  pub tables : All (IsTable reg) (tables_of (reg.nodes n))
  pub older : All (λ c. n < c) (reg.nodes n).child_nodes
  pub deep : is_multi (reg.nodes n).type ≡ true → 0 < (reg.nodes n).order
  pub last_table :
      is_multi (reg.nodes n).type ≡ true
      → (above : List ℕ) × (tables_of (reg.nodes n) ≡ above ++ n ∷ [])

-- The roots stand below no table.
pub record IsTree (reg : Registry) : Type 0 where
  pub device_root : IsAllocated reg reg.root_device_node
  pub internal_root : IsAllocated reg reg.root_internal_node
  pub device_top : tables_of (reg.nodes reg.root_device_node) ≡ []
  pub internal_top : tables_of (reg.nodes reg.root_internal_node) ≡ []
  pub registered : (n : ℕ) → IsAllocated reg n → IsRegistered reg n

-- What a node keeps when others are registered.
pub record IsKept (a b : DmNode) : Type 0 where
  pub name : b.name ≡ a.name
  pub type : b.type ≡ a.type
  pub order : b.order ≡ a.order
  pub instance_nodes : b.instance_nodes ≡ a.instance_nodes

-- `reg'` has one node more than `reg`, the last child of `parent`, with the tables `tables`.
pub record Grown (reg reg' : Registry) (parent : ℕ) (name : Bytes) (type : NodeType)
    (tables : List ℕ) : Type 0 where
  pub num_nodes : reg'.num_nodes ≡ suc reg.num_nodes
  pub device_root : reg'.root_device_node ≡ reg.root_device_node
  pub internal_root : reg'.root_internal_node ≡ reg.root_internal_node
  pub kept : (m : ℕ) → m ≤ reg.num_nodes → IsKept (reg.nodes m) (reg'.nodes m)
  pub siblings :
      (m : ℕ)
      → m ≤ reg.num_nodes
      → (reg'.nodes m).child_nodes
        ≡ (reg.nodes m).child_nodes ++ (if m == parent then suc reg.num_nodes ∷ [] else [])
  pub child_name : (reg'.nodes (suc reg.num_nodes)).name ≡ name
  pub child_type : (reg'.nodes (suc reg.num_nodes)).type ≡ type
  pub childless : (reg'.nodes (suc reg.num_nodes)).child_nodes ≡ []
  pub child_order : (reg'.nodes (suc reg.num_nodes)).order ≡ length tables
  pub child_tables :
      (reg'.nodes (suc reg.num_nodes)).instance_nodes
      ≡ tables ++ zeros (max_dm_instance_order - length tables)

pub IsKept-tables : (a b : DmNode) → IsKept a b → tables_of b ≡ tables_of a
IsKept-tables a b k = rw (k.order, k.instance_nodes)

module _ (reg reg' : Registry) (parent : ℕ) (name : Bytes) (type : NodeType) (tables : List ℕ)
    (g : Grown reg reg' parent name type tables) where
  Grown-IsAllocated : (m : ℕ) → IsAllocated reg m → IsAllocated reg' m
  Grown-IsAllocated m a = (a.0, omega (arith, g.num_nodes, a.1))

  Grown-IsTable : (ts : List ℕ) → All (IsTable reg) ts → All (IsTable reg') ts
  Grown-IsTable [] h = tt
  Grown-IsTable (t ∷ ts) ((a, m), h) =
      ((Grown-IsAllocated t a, rw ((g.kept t a.1).type) m), Grown-IsTable ts h)

  Grown-IsChild : (ts cs : List ℕ) → All (IsChild reg ts) cs → All (IsChild reg' ts) cs
  Grown-IsChild ts [] h = tt
  Grown-IsChild ts (c ∷ cs) ((a, e), h) = (
    (Grown-IsAllocated c a, IsKept-tables _ _ (g.kept c a.1) ∙ rw ((g.kept c a.1).type) e),
    Grown-IsChild ts cs h,
  )

  pub tables_of_child : tables_of (reg'.nodes (suc reg.num_nodes)) ≡ tables
  tables_of_child = rw (g.child_order, g.child_tables) (take-append tables _)

  new-IsChild :
      tables ≡ tables_of (reg.nodes parent) ++ own_table type (suc reg.num_nodes)
      → IsChild reg' (tables_of (reg.nodes parent)) (suc reg.num_nodes)
  new-IsChild e =
      ((omega arith, omega (arith, g.num_nodes)), rw (g.child_type) (tables_of_child ∙ e))

  last-IsChild :
      (m : ℕ)
      → tables ≡ tables_of (reg.nodes parent) ++ own_table type (suc reg.num_nodes)
      → All
          (IsChild reg' (tables_of (reg.nodes m)))
          (if m == parent then suc reg.num_nodes ∷ [] else [])
  last-IsChild m e = elim (Bool-cases (m == parent)) [
    | inl h ↦ rw ((==_iff m parent).0 h, ==_refl parent) (new-IsChild e, tt)
    | inr h ↦ rw h tt
  ]

  own-IsTable : All (IsTable reg') (own_table type (suc reg.num_nodes))
  own-IsTable = elim (Bool-cases (is_multi type)) [
    | inl h ↦ rw h (((omega arith, omega (arith, g.num_nodes)), rw (g.child_type) h), tt)
    | inr h ↦ rw h tt
  ]

  own_last :
      is_multi type ≡ true
      → tables_of (reg.nodes parent) ++ own_table type (suc reg.num_nodes)
        ≡ tables_of (reg.nodes parent) ++ suc reg.num_nodes ∷ []
  own_last h = rw h

  own-deep :
      tables ≡ tables_of (reg.nodes parent) ++ own_table type (suc reg.num_nodes)
      → is_multi type ≡ true
      → 0 < length tables
  own-deep e h =
      rw (e, h)
        (omega (arith, length-append (tables_of (reg.nodes parent)) (suc reg.num_nodes ∷ [])))

  newer_child :
      (m : ℕ)
      → m ≤ reg.num_nodes
      → All (λ c. m < c) (if m == parent then suc reg.num_nodes ∷ [] else [])
  newer_child m h = elim (Bool-cases (m == parent)) [
    | inl e ↦ rw e (omega arith, tt)
    | inr e ↦ rw e tt
  ]

  kept-IsRegistered :
      (m : ℕ)
      → IsAllocated reg m
      → tables ≡ tables_of (reg.nodes parent) ++ own_table type (suc reg.num_nodes)
      → IsRegistered reg m
      → IsRegistered reg' m
  kept-IsRegistered m a e r =
      let k = g.kept m a.1 in
      let same = IsKept-tables _ _ k in
      record {
        children =
            rw (same, g.siblings m a.1)
              (All-append (IsChild reg' (tables_of (reg.nodes m))) _ _
                (Grown-IsChild _ _ r.children) (last-IsChild m e));
        few = rw (k.order) (r.few);
        counted = rw (same, k.order) (r.counted);
        padded = rw (k.order, k.instance_nodes) (r.padded);
        tables = rw same (Grown-IsTable _ r.tables);
        older = rw (g.siblings m a.1) (All-append (λ c. m < c) _ _ r.older (newer_child m a.1));
        deep = λ d. rw (k.order) (r.deep (rw (← k.type) d));
        last_table = λ d. let (above, e') = r.last_table (rw (← k.type) d) in (above, same ∙ e');
      }

  child-IsRegistered :
      length tables ≤ max_dm_instance_order
      → All (IsTable reg) (tables_of (reg.nodes parent))
      → tables ≡ tables_of (reg.nodes parent) ++ own_table type (suc reg.num_nodes)
      → IsRegistered reg' (suc reg.num_nodes)
  child-IsRegistered few h e = record {
    children = rw (g.childless) tt;
    few = rw (g.child_order) few;
    counted = rw tables_of_child (sym g.child_order);
    padded = rw (
      g.child_order,
      g.child_tables,
      take-append tables (zeros (max_dm_instance_order - length tables)),
    );
    tables =
        rw (tables_of_child, e) (All-append (IsTable reg') _ _ (Grown-IsTable _ h) own-IsTable);
    older = rw (g.childless) tt;
    deep = λ d. rw (g.child_order) (own-deep e (rw (← g.child_type) d));
    last_table =
        λ d. (tables_of (reg.nodes parent), tables_of_child ∙ e ∙ own_last (rw (← g.child_type) d));
  }

  -- Where the parent is a node of the tree, the new tree keeps the invariant.
  pub Grown-IsTree :
      IsAllocated reg parent
      → length tables ≤ max_dm_instance_order
      → tables ≡ tables_of (reg.nodes parent) ++ own_table type (suc reg.num_nodes)
      → IsTree reg
      → IsTree reg'
  Grown-IsTree a few e t = record {
    device_root = rw (g.device_root) (Grown-IsAllocated _ t.device_root);
    internal_root = rw (g.internal_root) (Grown-IsAllocated _ t.internal_root);
    device_top = rw (g.device_root) (IsKept-tables _ _ (g.kept _ (t.device_root.1)) ∙ t.device_top);
    internal_top =
        rw (g.internal_root) (IsKept-tables _ _ (g.kept _ (t.internal_root.1)) ∙ t.internal_top);
    registered = λ m am. elim (Bool-cases (m == suc reg.num_nodes)) [
      | inl h ↦
          rw ((==_iff m (suc reg.num_nodes)).0 h)
            (child-IsRegistered few ((t.registered parent a).tables) e)
      | inr h ↦
          let old : IsAllocated reg m = (am.0, ground (arith, g.num_nodes, am.1)) in
          kept-IsRegistered m old e (t.registered m old)
    ];
  }
