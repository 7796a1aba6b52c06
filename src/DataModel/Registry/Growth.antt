-- ===== src/DataModel/Registry/Growth.antt =====
-- src/core/data_model.c: what the registration of a node leaves as it was.
use usp_agent_stomp.Common.{
  ℕ, suc, ◌≤◌, ◌≡◌, refl, ◌∙◌, subst, ◌⊎◌, inl, inr, Option, none, some, List, [], ◌∷◌, ◌++◌,
  append-nil, arith, ◌==◌, if◌then◌else◌, ==_refl, Bool-cases, Option-cases, All, Bytes, str_eq,
  str_eq_iff, str_eq_refl,
}
use usp_agent_stomp.Result.{Ensures}
use usp_agent_stomp.DataModel.Paths.{NodeType}
use usp_agent_stomp.DataModel.Registry.{
  DmNode, Registry, is_db_param, calc_hash, find_node_from_hash, find_child,
  dm_priv_find_matching_child, new_node, allocated, create_node, linked, walk,
}
use usp_agent_stomp.DataModel.Registry.Tree.{tables_of, IsAllocated, IsChild, IsTree, IsKept, Grown}

-- What `create_node` has made, where it returns a node.
abbrev pub MadeNode : Registry → Bytes → NodeType → Registry × Option ℕ → Type 0
MadeNode reg name type made =
    (made.1 ≡ none) × (made.0 ≡ reg)
    ⊎ ((made.1 ≡ some (suc reg.num_nodes))
        × ((tables : List ℕ) (parent : ℕ)
            → IsAllocated reg parent
            → Grown reg (linked made.0 parent (suc reg.num_nodes) tables) parent name type tables))

linked-Grown :
    (reg : Registry) (name : Bytes) (type : NodeType) (schema_path : Bytes) (hash : ℕ)
    (lookup : List (ℕ × ℕ)) (tables : List ℕ) (parent : ℕ)
    → IsAllocated reg parent
    → Grown reg
        (linked
          (allocated reg (new_node name type schema_path hash) lookup).0
          parent
          (suc reg.num_nodes)
          tables)
        parent
        name
        type
        tables
linked-Grown reg name type schema_path hash lookup tables parent a = record {
  num_nodes = refl;
  device_root = refl;
  internal_root = refl;
  kept = λ m h. ground arith;
  siblings = λ m h. ground (arith, append-nil (reg.nodes m).child_nodes);
  child_name = ground arith;
  child_type = ground arith;
  childless = ground arith;
  child_order = ground arith;
  child_tables = ground arith;
}

-- A node that is made stands in a place of its own.
pub create_node-Made :
    (reg : Registry) (name : Bytes) (type : NodeType) (schema_path : Bytes)
    → Ensures (MadeNode reg name type) (create_node reg name type schema_path)
unfolding create_node
create_node-Made reg name type schema_path = elim (Bool-cases (is_db_param type)) [
  | inl db ↦ elim (Bool-cases (calc_hash schema_path == 0)) [
    | inl zero_hash ↦ rw (db, zero_hash) tt
    | inr hashed ↦ elim (Option-cases (find_node_from_hash reg (calc_hash schema_path))) [
      | inl free ↦
          rw (db, hashed, free)
            (inr (refl, λ tables parent. linked-Grown reg name type schema_path _ _ tables parent))
      | inr (n, taken) ↦ rw (db, hashed, taken) (inl (refl, refl))
    ]
  ]
  | inr other ↦
      rw other
        (inr (refl, λ tables parent. linked-Grown reg name type schema_path _ _ tables parent))
]

-- What is registered stays: the nodes, and the child that a name leads to.
pub record Extends (reg reg' : Registry) : Type 0 where
  pub more : reg.num_nodes ≤ reg'.num_nodes
  pub device_root : reg'.root_device_node ≡ reg.root_device_node
  pub internal_root : reg'.root_internal_node ≡ reg.root_internal_node
  pub kept : (m : ℕ) → m ≤ reg.num_nodes → IsKept (reg.nodes m) (reg'.nodes m)
  pub finds :
      (m : ℕ) (name : Bytes) (c : ℕ)
      → IsAllocated reg m
      → dm_priv_find_matching_child reg m name ≡ some c
      → dm_priv_find_matching_child reg' m name ≡ some c

pub Extends-refl : (reg : Registry) → Extends reg reg
Extends-refl reg = record {
  more = omega arith;
  device_root = refl;
  internal_root = refl;
  kept = λ m h. record { name = refl; type = refl; order = refl; instance_nodes = refl };
  finds = λ m name c a f. f;
}

pub Extends-trans : (a b c : Registry) → Extends a b → Extends b c → Extends a c
Extends-trans a b c g h = record {
  more = omega (arith, g.more, h.more);
  device_root = h.device_root ∙ g.device_root;
  internal_root = h.internal_root ∙ g.internal_root;
  kept = λ m le.
      let k = g.kept m le in
      let k' = h.kept m (omega (arith, g.more)) in
      record {
        name = k'.name ∙ k.name;
        type = k'.type ∙ k.type;
        order = k'.order ∙ k.order;
        instance_nodes = k'.instance_nodes ∙ k.instance_nodes;
      };
  finds =
      λ m name n al f. h.finds m name n (al.0, omega (arith, g.more, al.1)) (g.finds m name n al f);
}

-- A child that is found is one of the children, in any registry that names them alike.
pub find_child-found :
    (nodes nodes' : ℕ → DmNode) (cs more : List ℕ) (name : Bytes) (n : ℕ)
    → All (λ c. (nodes' c).name ≡ (nodes c).name) cs
    → find_child nodes cs name ≡ some n
    → find_child nodes' (cs ++ more) name ≡ some n
unfolding find_child
find_child-found nodes nodes' [] more name n h f = cc
find_child-found nodes nodes' (c ∷ cs) more name n (e, h) f =
    rw e (elim (Bool-cases (str_eq (nodes c).name name)) [
      | inl s ↦ rw s (rw s at f)
      | inr s ↦ rw s (find_child-found nodes nodes' cs more name n h (rw s at f))
    ])

pub find_child-none :
    (nodes nodes' : ℕ → DmNode) (cs : List ℕ) (n : ℕ)
    → All (λ c. (nodes' c).name ≡ (nodes c).name) cs
    → find_child nodes cs (nodes' n).name ≡ none
    → find_child nodes' (cs ++ n ∷ []) (nodes' n).name ≡ some n
unfolding find_child
find_child-none nodes nodes' [] n h f = rw (str_eq_refl (nodes' n).name)
find_child-none nodes nodes' (c ∷ cs) n (e, h) f =
    rw e (elim (Bool-cases (str_eq (nodes c).name (nodes' n).name)) [
      | inl s ↦ ground arith
      | inr s ↦ rw s (find_child-none nodes nodes' cs n h (rw s at f))
    ])

All-name :
    (reg reg' : Registry) (ts cs : List ℕ)
    → ((m : ℕ) → m ≤ reg.num_nodes → IsKept (reg.nodes m) (reg'.nodes m))
    → All (IsChild reg ts) cs
    → All (λ c. (reg'.nodes c).name ≡ (reg.nodes c).name) cs
All-name reg reg' ts [] k h = tt
All-name reg reg' ts (c ∷ cs) k (h, hs) = ((k c h.0.1).name, All-name reg reg' ts cs k hs)

module _ (reg reg' : Registry) (parent : ℕ) (name : Bytes) (type : NodeType) (tables : List ℕ)
    (g : Grown reg reg' parent name type tables) (t : IsTree reg) where
  pub Grown-Extends : Extends reg reg'
  unfolding dm_priv_find_matching_child
  Grown-Extends = record {
    more = omega (arith, g.num_nodes);
    device_root = g.device_root;
    internal_root = g.internal_root;
    kept = g.kept;
    finds = λ m wanted c a f. rw (g.siblings m a.1) (
        find_child-found reg.nodes reg'.nodes (reg.nodes m).child_nodes
          (if m == parent then suc reg.num_nodes ∷ [] else []) wanted c
          (All-name reg reg' _ _ g.kept ((t.registered m a).children)) f);
  }

  pub Grown-finds :
      IsAllocated reg parent
      → dm_priv_find_matching_child reg parent name ≡ none
      → dm_priv_find_matching_child reg' parent name ≡ some (suc reg.num_nodes)
  unfolding dm_priv_find_matching_child
  Grown-finds a f =
      rw (g.siblings parent a.1, ==_refl parent, ← g.child_name)
        (find_child-none reg.nodes reg'.nodes (reg.nodes parent).child_nodes (suc reg.num_nodes)
          (All-name reg reg' _ _ g.kept ((t.registered parent a).children)) (rw (g.child_name) f))

find_child-IsChild :
    (reg : Registry) (ts cs : List ℕ) (name : Bytes) (n : ℕ)
    → All (IsChild reg ts) cs
    → find_child reg.nodes cs name ≡ some n
    → IsChild reg ts n × ((reg.nodes n).name ≡ name)
unfolding find_child
find_child-IsChild reg ts [] name n h f = cc
find_child-IsChild reg ts (c ∷ cs) name n (h, hs) f =
    elim (Bool-cases (str_eq (reg.nodes c).name name)) [
      | inl s ↦
          let e : c ≡ n = ground arith in
          subst (λ m. IsChild reg ts m × ((reg.nodes m).name ≡ name)) e
            (h, (str_eq_iff (reg.nodes c).name name).0 s)
      | inr s ↦ find_child-IsChild reg ts cs name n hs (rw s at f)
    ]

pub find_matching-IsChild :
    (reg : Registry) (m : ℕ) (name : Bytes) (n : ℕ)
    → IsTree reg
    → IsAllocated reg m
    → dm_priv_find_matching_child reg m name ≡ some n
    → IsChild reg (tables_of (reg.nodes m)) n
unfolding dm_priv_find_matching_child
find_matching-IsChild reg m name n t a f =
    (find_child-IsChild reg _ _ name n ((t.registered m a).children) f).0

-- A walk that ends at a node ends there in every registry that extends this one, and the node is
-- allocated.
pub walk-Extends :
    (reg reg' : Registry) (names : List Bytes) (m n : ℕ)
    → IsTree reg
    → Extends reg reg'
    → IsAllocated reg m
    → walk reg m names ≡ some n
    → (walk reg' m names ≡ some n) × IsAllocated reg n
unfolding walk
walk-Extends reg reg' [] m n t x a f =
    (f, let e : m ≡ n = ground arith in subst (IsAllocated reg) e a)
walk-Extends reg reg' (name ∷ names) m n t x a f =
    elim (Option-cases (dm_priv_find_matching_child reg m name)) [
      | inl lost ↦ ground arith
      | inr (c, got) ↦
          rw (x.finds m name c a got, walk)
            (walk-Extends reg reg' names c n t x ((find_matching-IsChild reg m name c t a got).0)
              (rw (got, walk) at f))
    ]
