-- ===== src/DataModel/Registry/Adding.antt =====
-- src/core/data_model.c: DM_PRIV_AddSchemaPath keeps the invariant of the nodes and what was
-- registered before.
use usp_agent_stomp.Common.{
  ℕ, suc, ◌≤◌, ◌≡◌, refl, sym, ap, ◌∙◌, inl, inr, true, false, Option, none, some, List, [], ◌∷◌,
  ◌++◌, append-nil, arith, ltb, ◌==◌, ==_iff, Bool-cases, Option-cases, length, length-append,
  Bytes,
}
use usp_agent_stomp.Result.{ok, ◌>>=◌, Ensures, Ensures->>=, Ensures-mono}
use usp_agent_stomp.DataModel.Instances.{max_dm_instance_order}
use usp_agent_stomp.DataModel.Paths.{max_dm_path, NodeType, PathSegment}
use usp_agent_stomp.DataModel.Registry.{
  Registry, dm_priv_find_matching_child, Flags, push_table, extended_path, linked, is_last,
  is_refused, add_segments, walk,
}
use usp_agent_stomp.DataModel.Registry.Growth.{
  MadeNode, create_node-Made, Extends, Extends-refl, Extends-trans, Grown-Extends, Grown-finds,
  find_matching-IsChild,
}
use usp_agent_stomp.DataModel.Registry.Tree.{
  tables_of, own_table, IsAllocated, IsTree, Grown, tables_of_child, Grown-IsTree,
}

-- The names of the segments lead from `parent` to the node that is returned.
pub record Added (reg : Registry) (parent : ℕ) (names : List Bytes) (r : Registry × Option ℕ)
    : Type 0 where
  pub tree : IsTree r.0
  pub extends : Extends reg r.0
  pub reached : (n : ℕ) → r.1 ≡ some n → walk r.0 parent names ≡ some n

abbrev pub names_of : List PathSegment → List Bytes
names_of [] = []
names_of (seg ∷ segments) = seg.name ∷ names_of segments

refused-Added :
    (reg reg' : Registry) (parent : ℕ) (names : List Bytes)
    → IsTree reg
    → reg' ≡ reg
    → Added reg parent names (reg', none)
refused-Added reg reg' parent names t e =
    rw e (record { tree = t; extends = Extends-refl reg; reached = λ n absent. cc })

abbrev IsPushed : NodeType → ℕ → List ℕ → List ℕ → Type 0
IsPushed type child tables tables' =
    (tables' ≡ tables ++ own_table type child) × (length tables' ≤ max_dm_instance_order)

push_table-Pushed :
    (type : NodeType) (child : ℕ) (tables : List ℕ)
    → length tables ≤ max_dm_instance_order
    → Ensures (IsPushed type child tables) (push_table type child tables)
push_table-Pushed type child tables few =
    ground (arith, length-append tables (child ∷ []), append-nil tables)

-- A step to a child, and then the later segments.
step-Added :
    (reg reg1 : Registry) (parent child : ℕ) (name : Bytes) (names : List Bytes)
    (r : Registry × Option ℕ)
    → Extends reg reg1
    → IsAllocated reg1 parent
    → dm_priv_find_matching_child reg1 parent name ≡ some child
    → Added reg1 child names r
    → Added reg parent (name ∷ names) r
unfolding walk
step-Added reg reg1 parent child name names r x a f d = record {
  tree = d.tree;
  extends = Extends-trans reg reg1 r.0 x d.extends;
  reached = λ n e. rw (d.extends.finds parent name child a f, walk) (d.reached n e);
}

length-tables :
    (reg : Registry) (parent : ℕ) (tables : List ℕ)
    → IsTree reg
    → IsAllocated reg parent
    → tables ≡ tables_of (reg.nodes parent)
    → length tables ≤ max_dm_instance_order
length-tables reg parent tables t a e =
    rw e (omega (arith, (t.registered parent a).counted, (t.registered parent a).few))

-- A table is in the list or not: the length says which.
own_table-same :
    (tables : List ℕ) (a b : NodeType) (n : ℕ)
    → length (tables ++ own_table a n) ≡ length (tables ++ own_table b n)
    → tables ++ own_table a n ≡ tables ++ own_table b n
own_table-same tables a b n h = ground (arith, append-nil tables, length-append tables (n ∷ []))

-- What is to be shown of the later segments, from wherever they start.
abbrev LaterAdded : Flags → List PathSegment → Type 0
LaterAdded flags segments =
    (reg : Registry) (parent : ℕ) (schema_path : Bytes) (tables : List ℕ)
    → IsTree reg
    → IsAllocated reg parent
    → tables ≡ tables_of (reg.nodes parent)
    → Ensures (Added reg parent (names_of segments))
        (add_segments flags segments reg parent schema_path tables)

module _ (flags : Flags) (seg : PathSegment) (segments : List PathSegment) (reg : Registry)
    (parent : ℕ) (schema_path : Bytes) (tables : List ℕ) (later : LaterAdded flags segments)
    (t : IsTree reg) (a : IsAllocated reg parent) (e : tables ≡ tables_of (reg.nodes parent)) where
  linked-Added :
      (reg1 : Registry) (tables' : List ℕ)
      → dm_priv_find_matching_child reg parent seg.name ≡ none
      → Grown reg (linked reg1 parent (suc reg.num_nodes) tables') parent seg.name seg.type tables'
      → (tables' ≡ tables ++ own_table seg.type (suc reg.num_nodes))
        × (length tables' ≤ max_dm_instance_order)
      → Ensures (Added reg parent (seg.name ∷ names_of segments)) (
          add_segments flags segments
            (linked reg1 parent (suc reg.num_nodes) tables')
            (suc reg.num_nodes)
            schema_path
            tables')
  linked-Added reg1 tables' absent g (e', few) =
      let grown = linked reg1 parent (suc reg.num_nodes) tables' in
      let x = Grown-Extends reg grown parent seg.name seg.type tables' g t in
      let t' = Grown-IsTree reg grown parent seg.name seg.type tables' g a few (e' ∙ rw e) t in
      Ensures-mono _ _ _
        (later grown (suc reg.num_nodes) schema_path tables' t'
          (omega arith, omega (arith, g.num_nodes))
          (sym (tables_of_child reg grown parent seg.name seg.type tables' g)))
        (λ r d.
          step-Added reg grown parent (suc reg.num_nodes) seg.name (names_of segments) r x
            (a.0, omega (arith, x.more, a.1))
            (Grown-finds reg grown parent seg.name seg.type tables' g t a absent) d)

  made-Added :
      (made : Registry × Option ℕ)
      → dm_priv_find_matching_child reg parent seg.name ≡ none
      → MadeNode reg seg.name seg.type made
      → Ensures (Added reg parent (seg.name ∷ names_of segments)) (elim made.1 [
        | none ↦ ok (made.0, none)
        | some child ↦ push_table seg.type child tables >>= (λ tables'.
            add_segments flags segments
              (linked made.0 parent child tables')
              child
              schema_path
              tables')
      ])
  made-Added (reg1, o) absent (inl (nothing, same)) =
      rw nothing (refused-Added reg reg1 parent (seg.name ∷ names_of segments) t same)
  made-Added (reg1, o) absent (inr (made, grown)) = rw made (
      Ensures->>= _ _ _ _
        (push_table-Pushed seg.type (suc reg.num_nodes) tables
          (length-tables reg parent tables t a e))
        (λ tables' pushed. linked-Added reg1 tables' absent (grown tables' parent a) pushed))

  old-Added :
      (child : ℕ) (tables' : List ℕ)
      → dm_priv_find_matching_child reg parent seg.name ≡ some child
      → tables' ≡ tables ++ own_table seg.type child
      → ((reg.nodes child).order == length tables') ≡ true
      → Ensures
          (Added reg parent (seg.name ∷ names_of segments))
          (add_segments flags segments reg child schema_path tables')
  old-Added child tables' got pushed counted =
      let c = find_matching-IsChild reg parent seg.name child t a got in
      let p = pushed ∙ ap (λ ts. ts ++ own_table seg.type child) e in
      let same_length =
        ap length (sym p)
        ∙ sym ((==_iff (reg.nodes child).order (length tables')).0 counted)
        ∙ sym (t.registered child c.0).counted
        ∙ ap length c.1 in
      let same =
        own_table-same (tables_of (reg.nodes parent)) seg.type (reg.nodes child).type child
          same_length in
      Ensures-mono _ _ _ (later reg child schema_path tables' t c.0 (p ∙ same ∙ sym c.1)) (λ r d.
        step-Added reg reg parent child seg.name (names_of segments) r (Extends-refl reg) a got d)

  existing-Added :
      (child : ℕ)
      → dm_priv_find_matching_child reg parent seg.name ≡ some child
      → Ensures
          (Added reg parent (seg.name ∷ names_of segments))
          (elim (is_refused flags (is_last segments) seg (reg.nodes child)) [
            | true ↦ ok (reg, none)
            | false ↦ push_table seg.type child tables >>= (λ tables'.
                elim ((reg.nodes child).order == length tables') [
                  | true ↦ add_segments flags segments reg child schema_path tables'
                  | false ↦ ok (reg, none)
                ])
          ])
  existing-Added child got =
      let refused = refused-Added reg reg parent (seg.name ∷ names_of segments) t refl in
      elim (Bool-cases (is_refused flags (is_last segments) seg (reg.nodes child))) [
        | inl r ↦ rw r refused
        | inr k ↦ rw k (
            Ensures->>= (IsPushed seg.type child tables)
              (Added reg parent (seg.name ∷ names_of segments)) _ _
              (push_table-Pushed seg.type child tables (length-tables reg parent tables t a e))
              (λ tables' pushed. elim (Bool-cases ((reg.nodes child).order == length tables')) [
                | inl counted ↦ rw counted (old-Added child tables' got pushed.0 counted)
                | inr other ↦ rw other refused
              ]))
      ]

pub add_segments-Added :
    (flags : Flags) (segments : List PathSegment) (reg : Registry) (parent : ℕ)
    (schema_path : Bytes) (tables : List ℕ)
    → IsTree reg
    → IsAllocated reg parent
    → tables ≡ tables_of (reg.nodes parent)
    → Ensures
        (Added reg parent (names_of segments))
        (add_segments flags segments reg parent schema_path tables)
unfolding add_segments walk
add_segments-Added flags [] reg parent schema_path tables t a e = record {
  tree = t;
  extends = Extends-refl reg;
  reached = λ n h. h;
}
add_segments-Added flags (seg ∷ segments) reg parent schema_path tables t a e =
    let ih = add_segments-Added flags segments in
    let short = ltb (length (extended_path schema_path seg)) max_dm_path in
    elim (Bool-cases short) [
      | inr long ↦ rw (long, add_segments) tt
      | inl fits ↦ elim (Option-cases (dm_priv_find_matching_child reg parent seg.name)) [
        | inl absent ↦
            rw (fits, absent, add_segments)
              (Ensures->>= (MadeNode reg seg.name seg.type) _ _ _
                (create_node-Made reg seg.name seg.type (extended_path schema_path seg))
                (λ made m.
                  made-Added flags seg segments reg parent (extended_path schema_path seg) tables ih
                    t a e made absent m))
        | inr (child, got) ↦
            rw (fits, got, add_segments)
              (existing-Added flags seg segments reg parent (extended_path schema_path seg) tables
                ih t a e child got)
      ]
    ]
