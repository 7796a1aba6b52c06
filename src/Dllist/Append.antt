-- ===== src/Dllist/Append.antt =====
-- src/core/dllist.c: an item is put behind all the others of a list.
use usp_agent_stomp.Common.{
  ℕ, ◌≡◌, refl, sym, ◌∙◌, subst, inl, inr, false, none, some, List, [], ◌∷◌, ◌++◌, arith, ==_refl,
}
use usp_agent_stomp.Result.{Returns}
use usp_agent_stomp.Dllist.{ListState, write_next, write_prev, dllist_link_to_tail}
use usp_agent_stomp.Dllist.Chain.{
  has, Holds, has-append, first-append, Linked-append, Distinct-append, Linked-write_next,
  Linked-write_prev, snoc_cases, last-snoc, Linked-redirect_last, Distinct-snoc, first-snoc,
}

-- The list holds the new item last, and no item of another list has been touched.
pub record IsAppended (s : ListState) (item : ℕ) (xs : List ℕ) (r : ListState) : Type 0 where
  pub holds : Holds r (xs ++ item ∷ [])
  pub untouched : (q : ℕ) → has q (xs ++ item ∷ []) ≡ false → r.1 q ≡ s.1 q

abbrev Appended : ListState → ℕ → List ℕ → Type 0
Appended s item xs =
    Holds s xs → has item xs ≡ false → Returns (IsAppended s item xs) (dllist_link_to_tail s item)

Appended-snoc : (s : ListState) (item : ℕ) (zs : List ℕ) (t : ℕ) → Appended s item (zs ++ t ∷ [])
unfolding dllist_link_to_tail
Appended-snoc s item zs t h out =
    let xs = zs ++ t ∷ [] in
    let m1 = write_next s.1 t (some item) in
    let m2 = write_prev m1 item (some t) in
    let front =
      Linked-redirect_last s.1 none zs t none (some item) (Distinct-append t zs [] h.distinct).0
        h.linked in
    rw (h.at_tail ∙ last-snoc none zs t) (record {
      untouched = λ q o. ground (arith, has-append q xs (item ∷ []), has-append q zs (t ∷ []));
      holds = record {
        at_head =
            h.at_head ∙ first-snoc zs t none (some item) ∙ sym (first-append xs (item ∷ []) none);
        at_tail = sym (last-snoc none xs item);
        linked = (Linked-append (write_next m2 item none) none xs (item ∷ []) none).1 (
          Linked-write_next m2 item none none xs (some item) out
              (Linked-write_prev m1 item (some t) none xs (some item) out front),
          ground (arith, ==_refl item, last-snoc none zs t),
        );
        distinct = Distinct-snoc xs item h.distinct out;
      };
    })

Appended-nil : (s : ListState) (item : ℕ) → Appended s item []
unfolding dllist_link_to_tail
Appended-nil s item h out =
    rw (h.at_tail, h.at_head)
      (record {
        untouched = λ q o. ground arith;
        holds = record {
          at_head = refl;
          at_tail = refl;
          linked = ground (arith, ==_refl item);
          distinct = (refl, tt);
        };
      })

-- DLLIST_LinkToTail passes its assertion on every list, and puts the item, one that the list does
-- not hold yet, behind all the others; the links of items in neither are as before.
pub dllist_link_to_tail_lem :
    (s : ListState) (item : ℕ) (xs : List ℕ)
    → Holds s xs
    → has item xs ≡ false
    → Returns (IsAppended s item xs) (dllist_link_to_tail s item)
dllist_link_to_tail_lem s item xs = elim (snoc_cases xs) [
  | inl e ↦ subst (Appended s item) (sym e) (Appended-nil s item)
  | inr (zs, t, e) ↦ subst (Appended s item) (sym e) (Appended-snoc s item zs t)
]
