-- ===== src/Tests/TreeRuns.antt =====
-- src/core/dm_inst_vector.c: runs on a table with an instance and one nested in it.
use usp_agent_stomp.Common.{
  ℕ, ◌<◌, ◌≡◌, refl, subst, ◌↔◌, inl, inr, true, Bool-cases, [], ◌∷◌, arith, ◌==◌, if◌then◌else◌,
}
use usp_agent_stomp.Result.{ok, Returns}
use usp_agent_stomp.DataModel.Instances.{
  int_max, Inst, Schema, Vectors, same_first, same_inst, has_inst, instance_at, is_below,
  remove_from, dm_inst_vector_remove, dm_inst_vector_is_exist, with_node, is_of_table, highest_loop,
  dm_inst_vector_get_next_instance,
}
use usp_agent_stomp.DataModel.Instances.Nested.{IsNested}
use usp_agent_stomp.DataModel.Instances.Numbers.{
  IsNext, HasSpareNumber, next_number_lem, dm_inst_vector_is_exist_lem,
}
use usp_agent_stomp.DataModel.Instances.Tree.{
  view, IsTopped, IsWithout, same_inst_iff, dm_inst_vector_remove_lem,
}

-- The table 1, and the table 2 nested in it.
abbrev schema : Schema
schema n =
    if n == 1
    then record { is_multi = true; order = 1; instance_nodes = 1 ∷ [] }
    else record { is_multi = true; order = 2; instance_nodes = 1 ∷ 2 ∷ [] }

abbrev row : ℕ → Inst
row n = record {
  order = 1;
  instances = n ∷ 0 ∷ 0 ∷ 0 ∷ 0 ∷ 0 ∷ [];
  nodes = 1 ∷ 0 ∷ 0 ∷ 0 ∷ 0 ∷ 0 ∷ [];
}

abbrev nested : ℕ → ℕ → Inst
nested n k = record {
  order = 2;
  instances = n ∷ k ∷ 0 ∷ 0 ∷ 0 ∷ 0 ∷ [];
  nodes = 1 ∷ 2 ∷ 0 ∷ 0 ∷ 0 ∷ 0 ∷ [];
}

abbrev no_parents : Inst
no_parents = record {
  order = 0;
  instances = 0 ∷ 0 ∷ 0 ∷ 0 ∷ 0 ∷ 0 ∷ [];
  nodes = 0 ∷ 0 ∷ 0 ∷ 0 ∷ 0 ∷ 0 ∷ [];
}

abbrev vectors : Vectors
vectors t = if t == 1 then row 3 ∷ nested 3 8 ∷ row 5 ∷ [] else []

row-IsTopped : (n : ℕ) → IsTopped schema (row n)
row-IsTopped n = record { deep = ground arith; top_set = ground arith; is_table = refl }

takes_all_below : remove_from (vectors 1) (row 3) ≡ row 5 ∷ []
unfolding remove_from is_below same_first
takes_all_below = refl

next_is_six : dm_inst_vector_get_next_instance schema 1 no_parents vectors ≡ ok 6
unfolding dm_inst_vector_get_next_instance highest_loop is_of_table same_first
next_is_six = refl

dm_inst_vector_remove_lem_example :
    Returns (IsWithout (row 3) vectors) (dm_inst_vector_remove schema (row 3) vectors)
dm_inst_vector_remove_lem_example =
    dm_inst_vector_remove_lem schema (row 3) vectors (row-IsTopped 3)

dm_inst_vector_is_exist_lem_example :
    Returns
      (λ b. (b ≡ true) ↔ ((x : Inst) × (view vectors 1 x ≡ true) × IsNested (row 3) x))
      (dm_inst_vector_is_exist schema (row 3) vectors)
dm_inst_vector_is_exist_lem_example =
    dm_inst_vector_is_exist_lem schema (row 3) vectors (row-IsTopped 3)

number_lt : (oi x : Inst) → x ≡ oi → instance_at x 0 < int_max → instance_at oi 0 < int_max
number_lt oi x same lt = subst (λ (q : Inst). instance_at q 0 < int_max) same lt

-- No entry of the vector has the number INT_MAX.
rows_have_spare : HasSpareNumber (with_node no_parents 1) (vectors 1)
unfolding has_inst
rows_have_spare oi there r = elim (Bool-cases (same_inst (row 3) oi)) [
  | inl e ↦ number_lt oi (row 3) ((same_inst_iff (row 3) oi).0 e) (omega arith)
  | inr k ↦ elim (Bool-cases (same_inst (nested 3 8) oi)) [
    | inl e ↦ number_lt oi (nested 3 8) ((same_inst_iff (nested 3 8) oi).0 e) (omega arith)
    | inr l ↦ number_lt oi (row 5) ((same_inst_iff (row 5) oi).0 (ground arith)) (omega arith)
  ]
]

next_number_lem_example :
    Returns
      (IsNext (with_node no_parents 1) (vectors 1))
      (dm_inst_vector_get_next_instance schema 1 no_parents vectors)
next_number_lem_example =
    next_number_lem schema 1 no_parents vectors
      (record { shallow = ground arith; top_set = ground arith; is_table = refl }) rows_have_spare
