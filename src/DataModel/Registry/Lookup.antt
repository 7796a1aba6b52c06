-- ===== src/DataModel/Registry/Lookup.antt =====
-- src/core/data_model.c: a path that is registered is found, and stays found when others are.
use usp_agent_stomp.Common.{
  ℕ, ◌≤◌, ◌≡◌, sym, ◌∙◌, subst, inl, inr, Bool, Option, some, List, [], ◌∷◌, arith, Bool-cases,
  Option-cases, Bytes, str_eq,
}
use usp_agent_stomp.Result.{ok, Returns, Returns_mono, Ensures-Returns}
use usp_agent_stomp.DataModel.Instances.{max_dm_instance_order, Inst}
use usp_agent_stomp.DataModel.Paths.{NodeType, PathSegment, parse_path, parse_schema_path}
use usp_agent_stomp.DataModel.Registry.{
  Registry, find_root, Flags, add_segments, add_from_root, dm_priv_add_schema_path, walk, found,
  get_from_root, dm_priv_get_node_from_path,
}
use usp_agent_stomp.DataModel.Registry.Adding.{Added, names_of, add_segments-Added}
use usp_agent_stomp.DataModel.Registry.Growth.{Extends, walk-Extends}
use usp_agent_stomp.DataModel.Registry.Returning.{
  AreHashed, FitBuffer, count_tables, add_segments-Returns,
}
use usp_agent_stomp.DataModel.Registry.Tree.{tables_of, IsAllocated, IsTree}

-- A schema path of at least one segment whose first names a root, with at most six tables.
pub record IsSchemaPath (reg : Registry) (path : Bytes) (type : NodeType) (root : ℕ)
    (first : PathSegment) (segments : List PathSegment) : Type 0 where
  pub parsed : parse_schema_path type path ≡ ok (some (first ∷ segments))
  pub rooted : find_root reg first.name ≡ some root
  pub hashed : AreHashed first.name segments
  pub fits : FitBuffer first.name segments
  pub room : count_tables segments ≤ max_dm_instance_order

pub root-IsAllocated :
    (reg : Registry) (name : Bytes) (root : ℕ)
    → IsTree reg
    → find_root reg name ≡ some root
    → IsAllocated reg root × (tables_of (reg.nodes root) ≡ [])
unfolding find_root
root-IsAllocated reg name root t f =
    elim (Bool-cases (str_eq name (reg.nodes reg.root_device_node).name)) [
      | inl d ↦
          let e : reg.root_device_node ≡ root = ground arith in
          subst (λ m. IsAllocated reg m × (tables_of (reg.nodes m) ≡ [])) e
            (t.device_root, t.device_top)
      | inr d ↦
          let e : reg.root_internal_node ≡ root = ground arith in
          subst (λ m. IsAllocated reg m × (tables_of (reg.nodes m) ≡ [])) e
            (t.internal_root, t.internal_top)
    ]

find_root-Extends :
    (reg reg' : Registry) (name : Bytes)
    → IsTree reg
    → Extends reg reg'
    → find_root reg' name ≡ find_root reg name
unfolding find_root
find_root-Extends reg reg' name t x = rw (
  x.device_root,
  x.internal_root,
  (x.kept reg.root_device_node (t.device_root.1)).name,
  (x.kept reg.root_internal_node (t.internal_root.1)).name,
)

-- What is found of a node is kept with the node.
found-Extends :
    (reg reg' : Registry) (numbers : List ℕ) (n : ℕ)
    → IsAllocated reg n
    → Extends reg reg'
    → found reg' numbers n ≡ found reg numbers n
found-Extends reg reg' numbers n a x =
    let k = x.kept n a.1 in ground (arith, k.type, k.order, k.instance_nodes)

get_from_root-Extends :
    (reg reg' : Registry) (names : List Bytes) (numbers : List ℕ) (r : ℕ × Inst × Bool)
    → IsTree reg
    → Extends reg reg'
    → get_from_root reg names numbers ≡ some r
    → get_from_root reg' names numbers ≡ some r
get_from_root-Extends reg reg' [] numbers r t x h = cc
get_from_root-Extends reg reg' (name ∷ names) numbers r t x h =
    elim (Option-cases (find_root reg name)) [
      | inl lost ↦ ground arith
      | inr (root, got) ↦ elim (Option-cases (walk reg root names)) [
        | inl lost ↦ ground arith
        | inr (n, reached) ↦
            let w =
              walk-Extends reg reg' names root n t x ((root-IsAllocated reg name root t got).0)
                reached in
            ground (
              arith,
              find_root-Extends reg reg' name t x,
              w.0,
              found-Extends reg reg' numbers n w.1 x,
            )
      ]
    ]

-- What DM_PRIV_AddSchemaPath leaves behind: the invariant, all that was found before, and a node
-- that the names of the path lead to.
pub record Registers (reg : Registry) (names : List Bytes) (r : Registry × Option ℕ) : Type 0 where
  pub tree : IsTree r.0
  pub stays :
      (atoi : Bytes → ℕ) (path : Bytes) (old : ℕ × Inst × Bool)
      → dm_priv_get_node_from_path reg atoi path ≡ some old
      → dm_priv_get_node_from_path r.0 atoi path ≡ some old
  pub finds :
      (atoi : Bytes → ℕ) (path : Bytes) (numbers : List ℕ) (n : ℕ)
      → r.1 ≡ some n
      → parse_path atoi path ≡ some (names, numbers)
      → dm_priv_get_node_from_path r.0 atoi path ≡ found r.0 numbers n

get_node-Extends :
    (reg reg' : Registry) (atoi : Bytes → ℕ) (path : Bytes) (old : ℕ × Inst × Bool)
    → IsTree reg
    → Extends reg reg'
    → dm_priv_get_node_from_path reg atoi path ≡ some old
    → dm_priv_get_node_from_path reg' atoi path ≡ some old
unfolding dm_priv_get_node_from_path
get_node-Extends reg reg' atoi path old t x h = elim (Option-cases (parse_path atoi path)) [
  | inl bad ↦ ground arith
  | inr ((names, numbers), p) ↦
      let later = get_from_root-Extends reg reg' names numbers old t x in
      rw (p, dm_priv_get_node_from_path) (later (rw (p, dm_priv_get_node_from_path) at h))
]

get_from_root-walk :
    (reg : Registry) (name : Bytes) (names : List Bytes) (numbers : List ℕ) (root n : ℕ)
    → find_root reg name ≡ some root
    → walk reg root names ≡ some n
    → get_from_root reg (name ∷ names) numbers ≡ found reg numbers n
get_from_root-walk reg name names numbers root n rooted reached = ground arith

add_from_root-rooted :
    (flags : Flags) (reg : Registry) (first : PathSegment) (segments : List PathSegment) (root : ℕ)
    → find_root reg first.name ≡ some root
    → add_from_root flags reg (some (first ∷ segments))
      ≡ add_segments flags segments reg root first.name []
add_from_root-rooted flags reg first segments root rooted = ground arith

Added-Registers :
    (reg : Registry) (first : PathSegment) (segments : List PathSegment) (root : ℕ)
    (r : Registry × Option ℕ)
    → IsTree reg
    → find_root reg first.name ≡ some root
    → Added reg root (names_of segments) r
    → Registers reg (names_of (first ∷ segments)) r
unfolding dm_priv_get_node_from_path
Added-Registers reg first segments root r t rooted d = record {
  tree = d.tree;
  stays = λ atoi path old h. get_node-Extends reg r.0 atoi path old t d.extends h;
  finds = λ atoi path numbers n made p.
      rw (p, dm_priv_get_node_from_path)
        (get_from_root-walk r.0 first.name (names_of segments) numbers root n
          (find_root-Extends reg r.0 first.name t d.extends ∙ rooted) (d.reached n made));
}

-- DM_PRIV_AddSchemaPath, for a path of at most 32 segments below one of the roots with at most six
-- tables and no parameter of the database whose hash is 0, where the schema path of each node on
-- the way fits its buffer, returns; it keeps the tree of nodes well formed, a path that led to a
-- node before still leads to the same node with the same instances, and the node it returns, where
-- it returns one, is what the names of the path lead to.
pub dm_priv_add_schema_path_lem :
    (reg : Registry) (path : Bytes) (type : NodeType) (flags : Flags) (root : ℕ)
    (first : PathSegment) (segments : List PathSegment)
    → IsTree reg
    → IsSchemaPath reg path type root first segments
    → Returns
        (Registers reg (names_of (first ∷ segments)))
        (dm_priv_add_schema_path reg path type flags)
unfolding dm_priv_add_schema_path
dm_priv_add_schema_path_lem reg path type flags root first segments t p =
    let (a, top) = root-IsAllocated reg first.name root t p.rooted in
    rw (p.parsed, add_from_root-rooted flags reg first segments root p.rooted)
      (Returns_mono (Added reg root (names_of segments)) _ _
        (Ensures-Returns _ _
          (add_segments-Added flags segments reg root first.name [] t a (sym top))
          (add_segments-Returns flags segments reg root first.name [] p.hashed p.fits
            (omega (arith, p.room))))
        (λ r d. Added-Registers reg first segments root r t p.rooted d))
