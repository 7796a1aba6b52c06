-- ===== src/DataModel/Instances/Nested.antt =====
-- src/core/dm_inst_vector.c: what the comparisons of the vectors say of two instances, entry by entry.
use usp_agent_stomp.Common.{
  ℕ, zero, suc, ◌+◌, ◌≤◌, ◌<◌, ◌≡◌, refl, ◌↔◌, Bool, true, ◌&&◌, List, [], ◌∷◌, arith, ◌==◌,
  get_elem?,
}
use usp_agent_stomp.DataModel.Instances.{Inst, same_first, is_below, is_of_table}

-- The first `n` entries of two arrays are the same.
abbrev pub FirstAgree : ℕ → List ℕ → List ℕ → Type 0
FirstAgree n xs ys = (i : ℕ) → i < n → get_elem? xs i ≡ get_elem? ys i

-- `oi` is the object of `inst` or is nested in it: its path starts with the tables and with the
-- instance numbers of `inst`.
pub record IsNested (inst oi : Inst) : Type 0 where
  pub deep : inst.order ≤ oi.order
  pub tables : FirstAgree inst.order oi.nodes inst.nodes
  pub numbers : FirstAgree inst.order oi.instances inst.instances

-- `oi` is a row of the table that `inst` names, with the parents of `inst`, and not nested deeper.
pub record IsRow (inst oi : Inst) : Type 0 where
  pub depth : oi.order ≡ inst.order + 1
  pub tables : FirstAgree (inst.order + 1) oi.nodes inst.nodes
  pub numbers : FirstAgree inst.order oi.instances inst.instances

same_first-agree : (n : ℕ) (xs ys : List ℕ) → same_first n xs ys ≡ true → FirstAgree n xs ys
unfolding same_first
same_first-agree zero xs ys h i l = absurd (omega arith)
same_first-agree (suc n) [] [] h i l = refl
same_first-agree (suc n) [] (y ∷ ys) h i l = ground arith
same_first-agree (suc n) (x ∷ xs) [] h i l = ground arith
same_first-agree (suc n) (x ∷ xs) (y ∷ ys) h zero l = ground arith
same_first-agree (suc n) (x ∷ xs) (y ∷ ys) h (suc i) l =
    same_first-agree n xs ys (ground arith) i (omega arith)

agree-same_first : (n : ℕ) (xs ys : List ℕ) → FirstAgree n xs ys → same_first n xs ys ≡ true
unfolding same_first
agree-same_first zero xs ys h = refl
agree-same_first (suc n) [] [] h = refl
agree-same_first (suc n) [] (y ∷ ys) h = cc (h 0 (omega arith))
agree-same_first (suc n) (x ∷ xs) [] h = cc (h 0 (omega arith))
agree-same_first (suc n) (x ∷ xs) (y ∷ ys) h =
    let later = agree-same_first n xs ys (λ i l. h (suc i) (omega arith)) in
    ground (arith, h 0 (omega arith), later)

pub is_below_iff : (inst oi : Inst) → (is_below inst oi ≡ true) ↔ IsNested inst oi
unfolding is_below
is_below_iff inst oi = (
  λ b. record {
    deep = ground arith;
    tables = same_first-agree inst.order oi.nodes inst.nodes (ground arith);
    numbers = same_first-agree inst.order oi.instances inst.instances (ground arith);
  },
  λ n.
      let nodes = agree-same_first inst.order oi.nodes inst.nodes n.tables in
      let numbers = agree-same_first inst.order oi.instances inst.instances n.numbers in
      ground (arith, nodes, numbers, n.deep),
)

-- `oi` is an instance of the table that `inst` names, and not one nested deeper.
abbrev pub is_row : Inst → Inst → Bool
is_row inst oi = (oi.order == inst.order + 1) && is_of_table inst oi

pub is_row_iff : (inst oi : Inst) → (is_row inst oi ≡ true) ↔ IsRow inst oi
unfolding is_of_table
is_row_iff inst oi = (
  λ b. record {
    depth = ground arith;
    tables = same_first-agree (inst.order + 1) oi.nodes inst.nodes (ground arith);
    numbers = same_first-agree inst.order oi.instances inst.instances (ground arith);
  },
  λ r.
      let nodes = agree-same_first (inst.order + 1) oi.nodes inst.nodes r.tables in
      let numbers = agree-same_first inst.order oi.instances inst.instances r.numbers in
      ground (arith, nodes, numbers, r.depth),
)
