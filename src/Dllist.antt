-- ===== src/Dllist.antt =====
-- src/core/dllist.c: doubly linked lists, on a memory of links. A pointer is the number of an item;
-- NULL is `none`.
pub mod Chain
pub mod Unlink
pub mod Append
pub mod Move
use usp_agent_stomp.Common.{
  ℕ, zero, suc, Bool, true, false, Option, none, some, ◌==◌, if◌then◌else◌,
}
use usp_agent_stomp.Result.{Result, ok, ◌>>=◌, ◌>>◌, assert}

-- double_link_t
pub record Link : Type 0 where
  pub next : Option ℕ
  pub prev : Option ℕ

abbrev pub Memory : Type 0
Memory = ℕ → Link

-- double_linked_list_t
pub record Header : Type 0 where
  pub head : Option ℕ
  pub tail : Option ℕ

abbrev pub ListState : Type 0
ListState = Header × Memory

abbrev pub write_next : Memory → ℕ → Option ℕ → Memory
write_next m p v = λ q. if q == p then record (m q) { next = v } else m q

abbrev pub write_prev : Memory → ℕ → Option ℕ → Memory
write_prev m p v = λ q. if q == p then record (m q) { prev = v } else m q

abbrev pub dllist_init : Header
dllist_init = record { head = none; tail = none }

abbrev is_null : Option ℕ → Bool
is_null none = true
is_null (some p) = false

abbrev is_here : ℕ → Option ℕ → Bool
is_here p none = false
is_here p (some q) = q == p

-- The walk along `next` from `item`; `none` if the rounds run out, as in a list that is a ring.
unfoldable pub is_item_in_list_loop : ℕ → Memory → Option ℕ → ℕ → Option Bool
is_item_in_list_loop zero m item p = none
is_item_in_list_loop (suc fuel) m none p = some false
is_item_in_list_loop (suc fuel) m (some item) p =
    let rest = is_item_in_list_loop fuel m (m item).next p in if item == p then some true else rest

unfoldable pub dllist_link_to_head : ListState → ℕ → Result ListState
dllist_link_to_head (l, m) item = elim l.head [
  | none ↦ do
    assert (is_null l.tail)
    ok (
      record { head = some item; tail = some item },
      write_prev (write_next m item none) item none,
    )
  | some head_item ↦ ok (
    record l { head = some item },
    write_prev (write_next (write_prev m head_item (some item)) item (some head_item)) item none,
  )
]

unfoldable pub dllist_link_to_tail : ListState → ℕ → Result ListState
dllist_link_to_tail (l, m) item = elim l.tail [
  | none ↦ do
    assert (is_null l.head)
    ok (
      record { head = some item; tail = some item },
      write_next (write_prev m item none) item none,
    )
  | some tail_item ↦ ok (
    record l { tail = some item },
    write_next (write_prev (write_next m tail_item (some item)) item (some tail_item)) item none,
  )
]

-- What stands before the item is made to lead past it.
unfoldable pub pass_forward : ListState → Option ℕ → Option ℕ → ListState
pass_forward (l, m) none next = (record l { head = next }, m)
pass_forward (l, m) (some before) next = (l, write_next m before next)

-- What stands behind the item is made to lead back past it.
unfoldable pub pass_back : ListState → Option ℕ → Option ℕ → ListState
pass_back (l, m) none prev = (record l { tail = prev }, m)
pass_back (l, m) (some behind) prev = (l, write_prev m behind prev)

abbrev pub cleared : ListState → ℕ → ListState
cleared (l, m) item = (l, write_prev (write_next m item none) item none)

-- The links of the item are read again behind the first write, as in the source.
unfoldable pub dllist_unlink : ListState → ℕ → ListState
dllist_unlink (l, m) item =
    let forward = pass_forward (l, m) (m item).prev (m item).next in
    let back = pass_back forward (forward.1 item).next (forward.1 item).prev in cleared back item

unfoldable pub dllist_insert_link_before : ListState → ℕ → ℕ → ListState
dllist_insert_link_before (l, m) item_after item =
    let before = (m item_after).prev in
    let (l', m') = pass_forward (l, m) before (some item) in
    (
      l',
      write_prev (write_prev (write_next m' item (some item_after)) item_after (some item)) item
          before,
    )

-- From the source list to the tail of the destination; the lists share the memory.
unfoldable pub dllist_move_link : Header → Header → Memory → ℕ → Result (Header × Header × Memory)
dllist_move_link dest src m item =
    let (src', m') = dllist_unlink (src, m) item in
    dllist_link_to_tail (dest, m') item >>= (λ r. ok (r.0, src', r.1))
