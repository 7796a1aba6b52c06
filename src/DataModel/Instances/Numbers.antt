-- ===== src/DataModel/Instances/Numbers.antt =====
-- src/core/dm_inst_vector.c: the instance numbers of a table, and whether an instance exists.
use usp_agent_stomp.Common.{
  ℕ, ◌+◌, ◌≤◌, ◌<◌, ◌≡◌, refl, sym, ap, ◌∙◌, subst, ◌↔◌, ◌⊎◌, inl, inr, true, List, [], ◌∷◌, arith,
  ltb, if◌then◌else◌, Bool-cases,
}
use usp_agent_stomp.Result.{ok, assert, Ensures, Returns, Returns_mono}
use usp_agent_stomp.DataModel.Instances.{
  max_dm_instance_order, int_max, Inst, Schema, Vectors, same_inst, is_below, top_of, checked_top,
  has_inst, dm_inst_vector_is_exist, with_node, instance_at, highest_loop,
  dm_inst_vector_get_next_instance,
}
use usp_agent_stomp.DataModel.Instances.Nested.{IsNested, IsRow, is_below_iff, is_row, is_row_iff}
use usp_agent_stomp.DataModel.Instances.Tree.{
  view, IsTopped, same_inst_iff, IsTopped-checked, IsTopped-deep, exists-is_below, exists-witness,
}

-- No instance of the table has the number `n` or a higher one, and none of the numbers below `n` is
-- skipped without a reason.
pub record IsNext (inst : Inst) (div : List Inst) (n : ℕ) : Type 0 where
  pub above : (oi : Inst) → has_inst oi div ≡ true → IsRow inst oi → instance_at oi inst.order < n
  pub tight :
      (n ≡ 1)
      ⊎ ((oi : Inst) × (has_inst oi div ≡ true)
          × IsRow inst oi
          × (instance_at oi inst.order + 1 ≡ n))

-- The highest number once `oi` has been looked at.
raised : Inst → Inst → ℕ → ℕ
raised inst oi highest =
    if is_row inst oi
    then if ltb highest (instance_at oi inst.order) then instance_at oi inst.order else highest
    else highest

raised-bounds :
    (inst oi : Inst) (highest : ℕ)
    → (highest ≤ raised inst oi highest)
      × (is_row inst oi ≡ true → instance_at oi inst.order ≤ raised inst oi highest)
unfolding raised
raised-bounds inst oi highest = (ground arith, λ r. ground arith)

raised-cases :
    (inst oi : Inst) (highest : ℕ)
    → (raised inst oi highest ≡ highest)
      ⊎ ((is_row inst oi ≡ true) × (instance_at oi inst.order ≡ raised inst oi highest))
unfolding raised
raised-cases inst oi highest = elim (Bool-cases (is_row inst oi)) [
  | inl e ↦ elim (Bool-cases (ltb highest (instance_at oi inst.order))) [
    | inl l ↦ inr (e, ground arith)
    | inr l ↦ inl (ground arith)
  ]
  | inr e ↦ inl (ground arith)
]

highest_loop-step :
    (inst oi : Inst) (div : List Inst) (highest : ℕ)
    → highest_loop inst (oi ∷ div) highest ≡ highest_loop inst div (raised inst oi highest)
unfolding highest_loop raised
highest_loop-step inst oi div highest = refl

highest_loop-grows :
    (inst : Inst) (div : List Inst) (highest : ℕ) → highest ≤ highest_loop inst div highest
unfolding highest_loop
highest_loop-grows inst [] highest = ground arith
highest_loop-grows inst (oi ∷ div) highest = rw (highest_loop-step inst oi div highest) (
    ground (
      arith,
      (raised-bounds inst oi highest).0,
      highest_loop-grows inst div (raised inst oi highest),
    ))

highest_loop-above :
    (inst oi : Inst) (div : List Inst) (highest : ℕ)
    → has_inst oi div ≡ true
    → is_row inst oi ≡ true
    → instance_at oi inst.order ≤ highest_loop inst div highest
unfolding has_inst
highest_loop-above inst oi [] highest i r = cc
highest_loop-above inst oi (y ∷ div) highest i r =
    rw (highest_loop-step inst y div highest) (elim (Bool-cases (same_inst y oi)) [
      | inl e ↦
          let here : instance_at y inst.order ≤ raised inst y highest =
            (raised-bounds inst y highest).1
              (subst (λ q. is_row inst q ≡ true) (sym ((same_inst_iff y oi).0 e)) r) in
          subst
            (λ (q : Inst). instance_at q inst.order ≤ highest_loop inst div (raised inst y highest))
            ((same_inst_iff y oi).0 e)
            (ground (arith, here, highest_loop-grows inst div (raised inst y highest)))
      | inr e ↦ highest_loop-above inst oi div (raised inst y highest) (ground arith) r
    ])

highest_loop-tight :
    (inst : Inst) (div : List Inst) (highest : ℕ)
    → (highest_loop inst div highest ≡ highest)
      ⊎ ((oi : Inst) × (has_inst oi div ≡ true)
          × (is_row inst oi ≡ true)
          × (instance_at oi inst.order ≡ highest_loop inst div highest))
unfolding has_inst highest_loop
highest_loop-tight inst [] highest = inl refl
highest_loop-tight inst (y ∷ div) highest =
    rw (highest_loop-step inst y div highest)
      (elim (highest_loop-tight inst div (raised inst y highest)) [
        | inl e ↦ elim (raised-cases inst y highest) [
          | inl k ↦ inl (e ∙ k)
          | inr k ↦ inr (y, ground (arith, (same_inst_iff y y).1 refl), k.0, k.1 ∙ sym e)
        ]
        | inr (oi, i, r, n) ↦ inr (oi, ground arith, r, n)
      ])

-- The table `inst` and `node` name lies below a registered table, and not too deep.
pub record IsTable (schema : Schema) (node : ℕ) (inst : Inst) : Type 0 where
  pub shallow : inst.order < max_dm_instance_order
  pub top_set : 0 < top_of (with_node inst node)
  pub is_table : (schema (top_of (with_node inst node))).is_multi ≡ true

IsTable-checked :
    (schema : Schema) (node : ℕ) (inst : Inst)
    → IsTable schema node inst
    → (checked_top schema (with_node inst node) ≡ ok (top_of (with_node inst node)))
      × (assert (ltb inst.order max_dm_instance_order) ≡ ok tt)
IsTable-checked schema node inst h =
    (ground (arith, h.top_set, h.is_table), ground (arith, h.shallow))

-- No row of the table has the number INT_MAX or a higher one.
abbrev pub HasSpareNumber : Inst → List Inst → Type 0
HasSpareNumber inst div =
    (oi : Inst) → has_inst oi div ≡ true → IsRow inst oi → instance_at oi inst.order < int_max

highest-IsNext : (inst : Inst) (div : List Inst) → IsNext inst div (highest_loop inst div 0 + 1)
highest-IsNext inst div = record {
  above = λ oi i r. ground (arith, highest_loop-above inst oi div 0 i ((is_row_iff inst oi).1 r));
  tight = elim (highest_loop-tight inst div 0) [
    | inl e ↦ inl (ap (λ k. k + 1) e)
    | inr (oi, i, r, n) ↦ inr (oi, i, (is_row_iff inst oi).0 r, ap (λ k. k + 1) n)
  ];
}

highest-lt-int_max :
    (inst : Inst) (div : List Inst)
    → HasSpareNumber inst div
    → ltb (highest_loop inst div 0) int_max ≡ true
highest-lt-int_max inst div spare = elim (highest_loop-tight inst div 0) [
  | inl e ↦ ground arith
  | inr (oi, i, r, n) ↦ ground (arith, spare oi i ((is_row_iff inst oi).0 r))
]

-- DM_INST_VECTOR_GetNextInstance passes its assertions on a registered table none of whose rows has
-- the number INT_MAX, and returns a number above that of every row of the table, which is 1 or one
-- more than that of some row.
pub next_number_lem :
    (schema : Schema) (node : ℕ) (inst : Inst) (vs : Vectors)
    → IsTable schema node inst
    → HasSpareNumber (with_node inst node) (vs (top_of (with_node inst node)))
    → Returns
        (IsNext (with_node inst node) (vs (top_of (with_node inst node))))
        (dm_inst_vector_get_next_instance schema node inst vs)
unfolding dm_inst_vector_get_next_instance
next_number_lem schema node inst vs h spare =
    let table = with_node inst node in
    let div = vs (top_of table) in
    rw (IsTable-checked schema node inst h).1 (
      rw (IsTable-checked schema node inst h).0
        (rw (highest-lt-int_max table div spare) (highest-IsNext table div)))

-- The same of a number that is returned, whether or not the table has one to spare.
pub returned_number-IsNext :
    (schema : Schema) (node : ℕ) (inst : Inst) (vs : Vectors)
    → IsTable schema node inst
    → Ensures
        (IsNext (with_node inst node) (vs (top_of (with_node inst node))))
        (dm_inst_vector_get_next_instance schema node inst vs)
unfolding dm_inst_vector_get_next_instance
returned_number-IsNext schema node inst vs h =
    let table = with_node inst node in
    let div = vs (top_of table) in
    rw (IsTable-checked schema node inst h).1 (
      rw (IsTable-checked schema node inst h).0
        (elim (Bool-cases (ltb (highest_loop table div 0) int_max)) [
          | inl spare ↦ rw spare (highest-IsNext table div)
          | inr full ↦ rw full tt
        ]))

-- The comparison of DM_INST_VECTOR_IsExist finds some entry.
pub is_exist-is_below :
    (schema : Schema) (match : Inst) (vs : Vectors)
    → IsTopped schema match
    → Returns
        (λ b.
          (b ≡ true) ↔ ((x : Inst) × (view vs (top_of match) x ≡ true) × (is_below match x ≡ true)))
        (dm_inst_vector_is_exist schema match vs)
unfolding dm_inst_vector_is_exist
is_exist-is_below schema match vs h =
    rw (IsTopped-deep schema match h, IsTopped-checked schema match h)
      (
        exists-witness match (vs (top_of match)),
        λ w. exists-is_below match w.0 (vs (top_of match)) w.1 w.2,
      )

-- DM_INST_VECTOR_IsExist passes its assertions on an object below a registered table, and says that
-- the object exists just when the path of some instance that exists starts with its tables and its
-- instance numbers.
pub dm_inst_vector_is_exist_lem :
    (schema : Schema) (match : Inst) (vs : Vectors)
    → IsTopped schema match
    → Returns
        (λ b. (b ≡ true) ↔ ((x : Inst) × (view vs (top_of match) x ≡ true) × IsNested match x))
        (dm_inst_vector_is_exist schema match vs)
dm_inst_vector_is_exist_lem schema match vs h =
    Returns_mono _ _ (dm_inst_vector_is_exist schema match vs) (is_exist-is_below schema match vs h)
      (λ b r. (
        λ e. let (x, i, n) = r.0 e in (x, i, (is_below_iff match x).0 n),
        λ w. r.1 (w.0, w.1, (is_below_iff match w.0).1 w.2),
      ))
