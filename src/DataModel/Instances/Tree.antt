-- ===== src/DataModel/Instances/Tree.antt =====
-- src/core/dm_inst_vector.c: the vectors as a set of object instances.
use usp_agent_stomp.Common.{
  ℕ, ◌<◌, ◌≡◌, refl, ◌↔◌, inl, inr, Bool, true, false, not, ◌&&◌, ◌||◌, List, [], ◌∷◌, ◌++◌, arith,
  ◌==◌, ==_iff, Bool-cases, str_eq_iff,
}
use usp_agent_stomp.Result.{ok, Returns, Returns_mono}
use usp_agent_stomp.DataModel.Instances.{
  Inst, Schema, Vectors, same_inst, is_below, top_of, checked_top, has_inst, add_to,
  dm_inst_vector_add, remove_from, dm_inst_vector_remove, exists_in,
}
use usp_agent_stomp.DataModel.Instances.Nested.{IsNested, is_below_iff}

-- What exists, by top level node: the vectors without order or repetition.
abbrev pub Tree : Type 0
Tree = ℕ → Inst → Bool

abbrev pub view : Vectors → Tree
view vs t x = has_inst x (vs t)

-- The specification: an instance is added, or it and all below it are taken away.
abbrev pub tree_add : Inst → Tree → Tree
tree_add inst s t x = s t x || ((t == top_of inst) && same_inst inst x)

abbrev pub tree_remove : Inst → Tree → Tree
tree_remove inst s t x = s t x && not ((t == top_of inst) && is_below inst x)

-- An instance of the data model whose top level node is a registered table.
pub record IsTopped (schema : Schema) (inst : Inst) : Type 0 where
  pub deep : 0 < inst.order
  pub top_set : 0 < top_of inst
  pub is_table : (schema (top_of inst)).is_multi ≡ true

pub same_inst_iff : (a b : Inst) → (same_inst a b ≡ true) ↔ (a ≡ b)
unfolding same_inst
same_inst_iff a b = ground (arith, str_eq_iff a.instances b.instances, str_eq_iff a.nodes b.nodes)

has-append :
    (x : Inst) (l : List Inst) (i : Inst)
    → has_inst x (l ++ i ∷ []) ≡ (has_inst x l || same_inst i x)
unfolding has_inst
has-append x [] i = ground arith
has-append x (y ∷ l) i = ground (arith, has-append x l i)

has-add_to :
    (x i : Inst) (l : List Inst) → has_inst x (add_to l i) ≡ (has_inst x l || same_inst i x)
unfolding add_to
has-add_to x i l = ground (arith, has-append x l i, same_inst_iff i x)

has-remove_from :
    (x i : Inst) (l : List Inst)
    → has_inst x (remove_from l i) ≡ (has_inst x l && not (is_below i x))
unfolding has_inst remove_from
has-remove_from x i [] = refl
has-remove_from x i (y ∷ l) = ground (arith, has-remove_from x i l, same_inst_iff y x)

pub IsTopped-checked :
    (schema : Schema) (inst : Inst)
    → IsTopped schema inst
    → checked_top schema inst ≡ ok (top_of inst)
IsTopped-checked schema inst h = ground (arith, h.top_set, h.is_table)

pub IsTopped-deep :
    (schema : Schema) (inst : Inst) → IsTopped schema inst → (inst.order == 0) ≡ false
IsTopped-deep schema inst h = ground (arith, h.deep)

-- The vectors after an operation hold what the specification says.
abbrev pub Holds : Tree → Vectors → Type 0
Holds s vs = (t : ℕ) (x : Inst) → view vs t x ≡ s t x

-- DM_INST_VECTOR_Add passes its assertions on an instance below a registered table, and adds that
-- instance, and nothing else, to the set of those that exist.
pub dm_inst_vector_add_lem :
    (schema : Schema) (inst : Inst) (vs : Vectors)
    → IsTopped schema inst
    → Returns (Holds (tree_add inst (view vs))) (dm_inst_vector_add schema inst vs)
unfolding dm_inst_vector_add
dm_inst_vector_add_lem schema inst vs h =
    rw (IsTopped-deep schema inst h, IsTopped-checked schema inst h)
      (λ t x. ground (arith, has-add_to x inst (vs t)))

-- DM_INST_VECTOR_Remove takes away what the comparison with each entry says.
pub remove-Holds :
    (schema : Schema) (inst : Inst) (vs : Vectors)
    → IsTopped schema inst
    → Returns (Holds (tree_remove inst (view vs))) (dm_inst_vector_remove schema inst vs)
unfolding dm_inst_vector_remove
remove-Holds schema inst vs h =
    rw (IsTopped-deep schema inst h, IsTopped-checked schema inst h)
      (λ t x. ground (arith, has-remove_from x inst (vs t)))

-- What is left once `inst` and all that is nested in it are gone.
abbrev pub IsWithout : Inst → Vectors → Vectors → Type 0
IsWithout inst vs vs' =
    (t : ℕ) (x : Inst)
    → (view vs' t x ≡ true) ↔ ((view vs t x ≡ true) × ¬ ((t ≡ top_of inst) × IsNested inst x))

removed-IsWithout :
    (inst : Inst) (vs vs' : Vectors)
    → Holds (tree_remove inst (view vs)) vs'
    → IsWithout inst vs vs'
removed-IsWithout inst vs vs' h t x = (
  λ e. (
    ground (arith, h t x),
    λ p. let below = (is_below_iff inst x).1 p.1 in ground (arith, h t x, below, p.0),
  ),
  λ p. elim (Bool-cases ((t == top_of inst) && is_below inst x)) [
    | inl gone ↦
        absurd
          (p.1 ((==_iff t (top_of inst)).0 (ground arith), (is_below_iff inst x).0 (ground arith)))
    | inr kept ↦ ground (arith, h t x, p.0)
  ],
)

-- DM_INST_VECTOR_Remove passes its assertions on an instance below a registered table, and takes
-- from the set of those that exist that instance and all whose paths start with its tables and
-- instance numbers, and no other.
pub dm_inst_vector_remove_lem :
    (schema : Schema) (inst : Inst) (vs : Vectors)
    → IsTopped schema inst
    → Returns (IsWithout inst vs) (dm_inst_vector_remove schema inst vs)
dm_inst_vector_remove_lem schema inst vs h =
    Returns_mono (Holds (tree_remove inst (view vs))) (IsWithout inst vs)
      (dm_inst_vector_remove schema inst vs) (remove-Holds schema inst vs h)
      (λ vs' r. removed-IsWithout inst vs vs' r)

pub exists-is_below :
    (match x : Inst) (l : List Inst)
    → has_inst x l ≡ true
    → is_below match x ≡ true
    → exists_in match l ≡ true
unfolding exists_in has_inst
exists-is_below match x [] h b = cc
exists-is_below match x (y ∷ l) h b = ground (arith, exists-is_below match x l, same_inst_iff y x)

pub exists-witness :
    (match : Inst) (l : List Inst)
    → exists_in match l ≡ true
    → (x : Inst) × (has_inst x l ≡ true) × (is_below match x ≡ true)
unfolding exists_in has_inst
exists-witness match [] h = ground arith
exists-witness match (y ∷ l) h = elim (Bool-cases (is_below match y)) [
  | inl e ↦ (y, ground (arith, (same_inst_iff y y).1 refl), e)
  | inr e ↦ let (x, i, b) = exists-witness match l (ground arith) in (x, ground arith, b)
]
