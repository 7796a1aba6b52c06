-- ===== src/Tests/ListRuns.antt =====
-- src/core/dllist.c: runs on two lists in one memory.
use usp_agent_stomp.Common.{
  ℕ, ◌≡◌, refl, true, false, Option, none, some, [], ◌∷◌, arith, ◌==◌, if◌then◌else◌,
}
use usp_agent_stomp.Result.{Returns}
use usp_agent_stomp.Dllist.{Link, Memory, Header, dllist_move_link}
use usp_agent_stomp.Dllist.Chain.{has, Holds}
use usp_agent_stomp.Dllist.Move.{Both, dllist_move_link_lem}

abbrev link : Option ℕ → Option ℕ → Link
link prev next = record { next = next; prev = prev }

-- The list 1, and the list 2, 3, 4.
abbrev memory : Memory
memory q =
    if q == 2
    then link none (some 3)
    else if q == 3
    then link (some 2) (some 4)
    else if q == 4
    then link (some 3) none
    else link none none

abbrev one_item : Header
one_item = record { head = some 1; tail = some 1 }

abbrev three_items : Header
three_items = record { head = some 2; tail = some 4 }

three_items-Holds : Holds (three_items, memory) (2 ∷ 3 ∷ 4 ∷ [])
three_items-Holds = record {
  at_head = refl;
  at_tail = refl;
  linked = (refl, refl, (refl, refl, (refl, refl, tt)));
  distinct = (refl, (refl, (refl, tt)));
}

separate : (q : ℕ) → has q (2 ∷ 3 ∷ 4 ∷ []) ≡ true → has q (1 ∷ []) ≡ false
separate q i = ground arith

two_lists-Both : Both memory one_item three_items (1 ∷ []) (2 ∷ 3 ∷ 4 ∷ [])
two_lists-Both = record {
  dest_holds = record {
    at_head = refl;
    at_tail = refl;
    linked = (refl, refl, tt);
    distinct = (refl, tt);
  };
  src_holds = three_items-Holds;
  apart = separate;
}

dllist_move_link_lem_example :
    Returns
      (λ r. Both r.2 r.0 r.1 (1 ∷ 3 ∷ []) (2 ∷ 4 ∷ []))
      (dllist_move_link one_item three_items memory 3)
dllist_move_link_lem_example =
    dllist_move_link_lem memory one_item three_items (1 ∷ []) (2 ∷ []) (4 ∷ []) 3 two_lists-Both
