-- ===== src/DataModel/Objects/Rows.antt =====
-- src/core/dm_inst_vector.c: a number above those of a table's instances is not in use.
use usp_agent_stomp.Common.{
  ℕ, zero, suc, ◌+◌, ◌≤◌, ◌<◌, ◌≡◌, refl, subst, inl, inr, true, false, some, List, [], ◌∷◌, arith,
  Bool-cases, length, get_elem?, set,
}
use usp_agent_stomp.DataModel.Instances.{
  Inst, Vectors, same_first, is_below, top_of, with_node, is_of_table, instance_at,
}
use usp_agent_stomp.DataModel.Instances.Nested.{IsNested, is_below_iff, is_row, is_row_iff}
use usp_agent_stomp.DataModel.Instances.Numbers.{IsNext}
use usp_agent_stomp.DataModel.Instances.Tree.{Tree, view}
use usp_agent_stomp.DataModel.Objects.{child_inst}

same_first_join :
    (n : ℕ) (xs ys zs : List ℕ)
    → same_first n xs ys ≡ true
    → same_first n xs zs ≡ true
    → same_first n ys zs ≡ true
unfolding same_first
same_first_join zero xs ys zs h k = refl
same_first_join (suc n) [] [] zs h k = k
same_first_join (suc n) [] (y ∷ ys) zs h k = cc
same_first_join (suc n) (x ∷ xs) [] zs h k = cc
same_first_join (suc n) (x ∷ xs) (y ∷ ys) [] h k = cc
same_first_join (suc n) (x ∷ xs) (y ∷ ys) (z ∷ zs) h k = ground (arith, same_first_join n xs ys zs)

same_first-set :
    (n v : ℕ) (xs ys : List ℕ)
    → same_first (suc n) xs (set ys n v) ≡ true
    → n < length ys
    → (same_first n xs ys ≡ true) × (get_elem? xs n ≡ some v)
unfolding same_first
same_first-set n v xs [] h room = absurd (omega arith)
same_first-set zero v [] (y ∷ ys) h room = cc
same_first-set zero v (x ∷ xs) (y ∷ ys) h room = (refl, ground arith)
same_first-set (suc n) v [] (y ∷ ys) h room = cc
same_first-set (suc n) v (x ∷ xs) (y ∷ ys) h room =
    let (same, got) = same_first-set n v xs ys (ground arith) (omega arith) in (ground arith, got)

-- An object that is nested in another one of the tree exists with it.
abbrev pub HasParents : Vectors → Type 0
HasParents vs =
    (t : ℕ) (x : Inst) (k : ℕ)
    → view vs t x ≡ true
    → 0 < k
    → k ≤ x.order
    → (y : Inst) × (view vs t y ≡ true) × (y.order ≡ k) × IsNested y x

-- What existed before still exists.
abbrev pub NothingLost : Tree → Vectors → Type 0
NothingLost before vs = (t : ℕ) (x : Inst) → before t x ≡ true → view vs t x ≡ true

-- Neither the object nor anything nested in it existed before.
abbrev pub IsFresh : Tree → Inst → Type 0
IsFresh before inst = (x : Inst) → is_below inst x ≡ true → before (top_of inst) x ≡ false

-- What is nested in a row of the table is nested in the row with the same number.
row_above :
    (inst x y : Inst) (node n : ℕ)
    → inst.order < length inst.instances
    → is_below (child_inst inst node n) x ≡ true
    → y.order ≡ inst.order + 1
    → is_below y x ≡ true
    → (is_row (with_node inst node) y ≡ true) × (instance_at y inst.order ≡ n)
unfolding is_below is_of_table
row_above inst x y node n room b deep above =
    let nodes : same_first (inst.order + 1) y.nodes (set inst.nodes inst.order node) ≡ true =
      same_first_join (inst.order + 1) x.nodes y.nodes _
        (subst (λ k. same_first k x.nodes y.nodes ≡ true) deep (ground arith)) (ground arith) in
    let numbers : same_first (inst.order + 1) y.instances (set inst.instances inst.order n) ≡ true =
      same_first_join (inst.order + 1) x.instances y.instances _
        (subst (λ k. same_first k x.instances y.instances ≡ true) deep (ground arith))
        (ground arith) in
    let suc_of : inst.order + 1 ≡ suc inst.order = omega arith in
    let (same, got) =
      same_first-set inst.order n y.instances inst.instances
        (subst (λ k. same_first k y.instances (set inst.instances inst.order n) ≡ true) suc_of
          numbers)
        room in
    (ground (arith, deep, nodes, same), rw (got, instance_at) refl)

below_deep :
    (inst x : Inst) (node n : ℕ)
    → is_below (child_inst inst node n) x ≡ true
    → inst.order + 1 ≤ x.order
unfolding is_below
below_deep inst x node n b = ground arith

-- The number that the table gives is not in use, neither for a row nor for anything nested in one.
pub next-IsFresh :
    (before : Tree) (inst : Inst) (node n : ℕ) (vs : Vectors)
    → NothingLost before vs
    → HasParents vs
    → inst.order < length inst.instances
    → IsNext (with_node inst node) (vs (top_of (with_node inst node))) n
    → IsFresh before (child_inst inst node n)
next-IsFresh before inst node n vs lost parents room next x b =
    elim (Bool-cases (before (top_of (child_inst inst node n)) x)) [
      | inr e ↦ e
      | inl e ↦
          let (y, there, deep, above) =
            parents _ x (inst.order + 1) (lost _ x e) (omega arith) (below_deep inst x node n b) in
          let (row, number) = row_above inst x y node n room b deep ((is_below_iff y x).1 above) in
          absurd
            (omega (arith, next.above y there ((is_row_iff (with_node inst node) y).0 row), number))
    ]
