-- ===== src/DataModel/Instances.antt =====
-- src/core/dm_inst_vector.c: the object instances that exist, one vector for each top level
-- multi-instance node. A node is a number, and NULL is 0; an array of nodes or of instance numbers is
-- a list. Instance numbers are positive.
pub mod Nested
pub mod Tree
pub mod Numbers
use usp_agent_stomp.Common.{
  ℕ, zero, suc, ◌+◌, Bool, true, false, not, ◌&&◌, ◌||◌, none, some, List, [], ◌∷◌, ◌++◌, ltb, leb,
  ◌==◌, if◌then◌else◌, get_elem?, set, str_eq,
}
use usp_agent_stomp.Common.Int.{ℤ, pos}
use usp_agent_stomp.Result.{Result, ok, abort, ◌>>=◌, ◌>>◌, assert}
use usp_agent_stomp.Vector.IntVector.{int_vector_init, int_vector_add, int_vector_find}

abbrev pub max_dm_instance_order : ℕ
max_dm_instance_order = 6

unfoldable pub zeros : ℕ → List ℕ
zeros zero = []
zeros (suc n) = 0 ∷ zeros n

-- dm_instances_t
pub record Inst : Type 0 where
  pub order : ℕ
  pub instances : List ℕ
  pub nodes : List ℕ

-- The registered node that a number stands for (the part of dm_node_t that is read here).
pub record Node : Type 0 where
  pub is_multi : Bool
  pub order : ℕ
  pub instance_nodes : List ℕ

abbrev pub Schema : Type 0
Schema = ℕ → Node

-- The inst_vector of each node.
abbrev pub Vectors : Type 0
Vectors = ℕ → List Inst

abbrev pub write_vector : Vectors → ℕ → List Inst → Vectors
write_vector vs top div = λ t. if t == top then div else vs t

-- memcmp of the first `n` entries of two arrays
unfoldable pub same_first : ℕ → List ℕ → List ℕ → Bool
same_first zero xs ys = true
same_first (suc n) [] [] = true
same_first (suc n) [] (y ∷ ys) = false
same_first (suc n) (x ∷ xs) [] = false
same_first (suc n) (x ∷ xs) (y ∷ ys) = x == y && same_first n xs ys

-- memcmp of two whole structures
unfoldable pub same_inst : Inst → Inst → Bool
same_inst a b = a.order == b.order && str_eq a.instances b.instances && str_eq a.nodes b.nodes

-- The object of `oi` is that of `inst` or below it.
unfoldable pub is_below : Inst → Inst → Bool
is_below inst oi =
    leb inst.order oi.order
    && same_first inst.order oi.nodes inst.nodes
    && same_first inst.order oi.instances inst.instances

-- nodes[0]
abbrev pub top_of : Inst → ℕ
top_of inst = elim inst.nodes [ [] ↦ 0 | top ∷ nodes ↦ top ]

-- The top level node, once the assertions on it have passed.
abbrev pub checked_top : Schema → Inst → Result ℕ
checked_top schema inst = do
  assert (not (top_of inst == 0))
  assert (schema (top_of inst)).is_multi
  ok (top_of inst)

unfoldable pub has_inst : Inst → List Inst → Bool
has_inst inst [] = false
has_inst inst (oi ∷ div) = same_inst oi inst || has_inst inst div

unfoldable pub add_to : List Inst → Inst → List Inst
add_to div inst = if has_inst inst div then div else div ++ inst ∷ []

unfoldable pub dm_inst_vector_add : Schema → Inst → Vectors → Result Vectors
dm_inst_vector_add schema inst vs =
    if inst.order == 0
    then ok vs
    else checked_top schema inst >>= (λ top. ok (write_vector vs top (add_to (vs top) inst)))

unfoldable pub remove_from : List Inst → Inst → List Inst
remove_from [] inst = []
remove_from (oi ∷ div) inst =
    let kept = remove_from div inst in if is_below inst oi then kept else oi ∷ kept

unfoldable pub dm_inst_vector_remove : Schema → Inst → Vectors → Result Vectors
dm_inst_vector_remove schema inst vs =
    if inst.order == 0
    then ok vs
    else checked_top schema inst >>= (λ top. ok (write_vector vs top (remove_from (vs top) inst)))

unfoldable pub exists_in : Inst → List Inst → Bool
exists_in match [] = false
exists_in match (inst ∷ div) = is_below match inst || exists_in match div

unfoldable pub dm_inst_vector_is_exist : Schema → Inst → Vectors → Result Bool
dm_inst_vector_is_exist schema match vs =
    if match.order == 0
    then ok true
    else checked_top schema match >>= (λ top. ok (exists_in match (vs top)))

-- inst->nodes[order] = node
abbrev pub with_node : Inst → ℕ → Inst
with_node inst node = record inst { nodes = set inst.nodes inst.order node }

-- `oi` is at least `order + 1` deep, and its object's parents are those of `inst`.
unfoldable pub is_of_table : Inst → Inst → Bool
is_of_table inst oi =
    same_first (inst.order + 1) oi.nodes inst.nodes
    && same_first inst.order oi.instances inst.instances

abbrev pub instance_at : Inst → ℕ → ℕ
instance_at oi order = elim (get_elem? oi.instances order) [ none ↦ 0 | some n ↦ n ]

unfoldable pub highest_loop : Inst → List Inst → ℕ → ℕ
highest_loop inst [] highest_instance = highest_instance
highest_loop inst (oi ∷ div) highest_instance =
    let instance_number = instance_at oi inst.order in
    highest_loop inst div (
      if oi.order == inst.order + 1 && is_of_table inst oi
      then if ltb highest_instance instance_number then instance_number else highest_instance
      else highest_instance)

-- INT_MAX
abbrev pub int_max : ℕ
int_max = 2147483647

-- `inst` names the parents; the node is taken out of it again before the return. highest_instance+1
-- overflows an `int` where the highest number is INT_MAX: C leaves that undefined, and here it stops.
unfoldable pub dm_inst_vector_get_next_instance : Schema → ℕ → Inst → Vectors → Result ℕ
dm_inst_vector_get_next_instance schema node inst vs = do
  assert (ltb inst.order max_dm_instance_order)
  top ← checked_top schema (with_node inst node)
  let highest_instance = highest_loop (with_node inst node) (vs top) 0
  if ltb highest_instance int_max then ok (highest_instance + 1) else abort

unfoldable pub count_loop : Inst → List Inst → ℕ
count_loop inst [] = 0
count_loop inst (oi ∷ div) =
    if oi.order == inst.order + 1 && is_of_table inst oi
    then suc (count_loop inst div)
    else count_loop inst div

unfoldable pub dm_inst_vector_get_num_instances : Schema → ℕ → Inst → Vectors → Result ℕ
dm_inst_vector_get_num_instances schema node inst vs = do
  assert (ltb inst.order max_dm_instance_order)
  top ← checked_top schema (with_node inst node)
  ok (count_loop (with_node inst node) (vs top))

unfoldable pub add_number : List ℤ → ℤ → Result (List ℤ)
add_number iv number = elim (int_vector_find iv number) [
  | some index ↦ ok iv
  | none ↦ int_vector_add iv number
]

unfoldable pub instances_loop : Inst → List Inst → List ℤ → Result (List ℤ)
unfolding add_number
instances_loop inst [] iv = ok iv
instances_loop inst (oi ∷ div) iv =
    if leb (inst.order + 1) oi.order && is_of_table inst oi
    then add_number iv (pos (instance_at oi inst.order))
      >>= (λ added. instances_loop inst div added)
    else instances_loop inst div iv

unfoldable pub dm_inst_vector_get_instances : Schema → ℕ → Inst → Vectors → Result (List ℤ)
dm_inst_vector_get_instances schema node inst vs = do
  assert (ltb inst.order max_dm_instance_order)
  top ← checked_top schema (with_node inst node)
  instances_loop (with_node inst node) (vs top) int_vector_init
