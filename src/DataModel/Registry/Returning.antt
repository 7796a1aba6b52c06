-- ===== src/DataModel/Registry/Returning.antt =====
-- src/core/data_model.c: the paths that DM_PRIV_AddSchemaPath registers without a failed assertion
-- and without a write behind the array of tables.
use usp_agent_stomp.Common.{
  ℕ, suc, ◌+◌, ◌≤◌, ◌<◌, ◌≡◌, ◌≢◌, inl, inr, true, List, [], ◌∷◌, arith, ltb, ◌==◌, if◌then◌else◌,
  ==_iff, Bool-cases, Option-cases, length, length-append, Bytes,
}
use usp_agent_stomp.Result.{Returns, Returns->>=}
use usp_agent_stomp.DataModel.Instances.{max_dm_instance_order}
use usp_agent_stomp.DataModel.Paths.{max_dm_path, NodeType, is_multi, PathSegment}
use usp_agent_stomp.DataModel.Registry.{
  Registry, is_db_param, calc_hash, find_node_from_hash, dm_priv_find_matching_child, create_node,
  Flags, push_table, extended_path, is_last, is_refused, add_segments,
}

-- The hash of each parameter of the database on the path is not 0.
abbrev pub AreHashed : Bytes → List PathSegment → Type 0
AreHashed schema_path [] = Unit
AreHashed schema_path (seg ∷ segments) =
    (is_db_param seg.type ≡ true → calc_hash (extended_path schema_path seg) ≢ 0)
    × AreHashed (extended_path schema_path seg) segments

abbrev pub count_tables : List PathSegment → ℕ
count_tables [] = 0
count_tables (seg ∷ segments) =
    if is_multi seg.type then suc (count_tables segments) else count_tables segments

create_node-Returns :
    (reg : Registry) (name : Bytes) (type : NodeType) (schema_path : Bytes)
    → (is_db_param type ≡ true → calc_hash schema_path ≢ 0)
    → Returns (λ _. Unit {0}) (create_node reg name type schema_path)
unfolding create_node
create_node-Returns reg name type schema_path h = elim (Bool-cases (is_db_param type)) [
  | inl db ↦ elim (Bool-cases (calc_hash schema_path == 0)) [
    | inl zero_hash ↦ absurd (h db ((==_iff _ _).0 zero_hash))
    | inr hashed ↦ elim (Option-cases (find_node_from_hash reg (calc_hash schema_path))) [
      | inl free ↦ rw (db, hashed, free) tt
      | inr (n, taken) ↦ rw (db, hashed, taken) tt
    ]
  ]
  | inr other ↦ rw other tt
]

-- The schema path of each node on the way fits its buffer, with its terminator.
abbrev pub FitBuffer : Bytes → List PathSegment → Type 0
FitBuffer schema_path [] = Unit
FitBuffer schema_path (seg ∷ segments) =
    (length (extended_path schema_path seg) < max_dm_path)
    × FitBuffer (extended_path schema_path seg) segments

-- The array has room for the tables of the later segments.
abbrev HasRoom : ℕ → List ℕ → Type 0
HasRoom later tables = length tables + later ≤ max_dm_instance_order

push_table-HasRoom :
    (type : NodeType) (child later : ℕ) (tables : List ℕ)
    → HasRoom (if is_multi type then suc later else later) tables
    → Returns (HasRoom later) (push_table type child tables)
push_table-HasRoom type child later tables h = ground (arith, length-append tables (child ∷ []))

pub add_segments-Returns :
    (flags : Flags) (segments : List PathSegment) (reg : Registry) (parent : ℕ)
    (schema_path : Bytes) (tables : List ℕ)
    → AreHashed schema_path segments
    → FitBuffer schema_path segments
    → HasRoom (count_tables segments) tables
    → Returns (λ _. Unit {0}) (add_segments flags segments reg parent schema_path tables)
unfolding add_segments
add_segments-Returns flags [] reg parent schema_path tables hashed fits room = tt
add_segments-Returns flags (seg ∷ segments) reg parent schema_path tables (hash, hashed)
      (short, fits) room =
    let passed : ltb (length (extended_path schema_path seg)) max_dm_path ≡ true = ground arith in
    let later = add_segments-Returns flags segments in
    let pushed =
      λ (child : ℕ). push_table-HasRoom seg.type child (count_tables segments) tables room in
    elim (Option-cases (dm_priv_find_matching_child reg parent seg.name)) [
      | inl absent ↦
          rw (passed, absent, add_segments)
            (Returns->>= (λ _. Unit {0}) (λ _. Unit {0}) _ _
              (create_node-Returns reg seg.name seg.type (extended_path schema_path seg) hash)
              (λ made _. elim (Option-cases made.1) [
                | inl n ↦ rw n tt
                | inr (child, m) ↦ rw m (
                    Returns->>= (HasRoom (count_tables segments)) (λ _. Unit {0}) _ _ (pushed child)
                      (λ tables' room'. later _ child _ tables' hashed fits room'))
              ]))
      | inr (child, got) ↦
          rw (passed, got, add_segments)
            (elim (Bool-cases (is_refused flags (is_last segments) seg (reg.nodes child))) [
              | inl r ↦ rw r tt
              | inr k ↦ rw k (
                  Returns->>= (HasRoom (count_tables segments)) (λ _. Unit {0}) _ _ (pushed child)
                    (λ tables' room'.
                      elim (Bool-cases ((reg.nodes child).order == length tables')) [
                        | inl counted ↦ rw counted (later reg child _ tables' hashed fits room')
                        | inr other ↦ rw other tt
                      ]))
            ])
    ]
