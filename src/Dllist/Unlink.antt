-- ===== src/Dllist/Unlink.antt =====
-- src/core/dllist.c: an item is taken out of the sequence that a list holds.
use usp_agent_stomp.Common.{
  ℕ, ◌≡◌, refl, sym, ap, ap₂, ◌∙◌, subst, inl, inr, false, Option, none, some, List, [], ◌∷◌, ◌++◌,
  arith,
}
use usp_agent_stomp.Dllist.{
  Link, ListState, write_next, pass_forward, pass_back, cleared, dllist_unlink,
}
use usp_agent_stomp.Dllist.Chain.{
  first, last, has, Distinct, Linked, Holds, has-append, last-append, first-append, Linked-append,
  Distinct-append, Linked-write_next, Linked-write_prev, Linked-frame, snoc_cases, last-snoc,
  Linked-redirect_last, Linked-redirect_first, Distinct-left, Distinct-right, Distinct-apart,
}

-- The front of a list, led on to `v`.
record Led (s r : ListState) (xs : List ℕ) (v : Option ℕ) : Type 0 where
  head_led : r.0.head ≡ first xs v
  tail_kept : r.0.tail ≡ s.0.tail
  front : Linked r.1 none xs v
  outside : (p : ℕ) → has p xs ≡ false → r.1 p ≡ s.1 p

abbrev Leads : ListState → Option ℕ → Option ℕ → List ℕ → Type 0
Leads s behind v xs =
    s.0.head ≡ first xs behind
    → Linked s.1 none xs behind
    → Distinct xs
    → Led s (pass_forward s (last none xs) v) xs v

Leads-snoc :
    (s : ListState) (behind v : Option ℕ) (ys : List ℕ) (q : ℕ) → Leads s behind v (ys ++ q ∷ [])
unfolding pass_forward
Leads-snoc s behind v ys q eh h d =
    let apart = Distinct-append q ys [] d in
    rw (last-snoc none ys q) (record {
      head_led = eh ∙ first-append ys (q ∷ []) behind ∙ sym (first-append ys (q ∷ []) v);
      tail_kept = refl;
      front = Linked-redirect_last s.1 none ys q behind v apart.0 h;
      outside = λ p out. ground (arith, has-append p ys (q ∷ []));
    })

Leads-nil : (s : ListState) (behind v : Option ℕ) → Leads s behind v []
unfolding pass_forward
Leads-nil s behind v eh h d = record {
  head_led = refl;
  tail_kept = refl;
  front = tt;
  outside = λ p out. refl;
}

forward-Led : (s : ListState) (behind v : Option ℕ) (xs : List ℕ) → Leads s behind v xs
forward-Led s behind v xs = elim (snoc_cases xs) [
  | inl e ↦ subst (Leads s behind v) (sym e) (Leads-nil s behind v)
  | inr (ys, q, e) ↦ subst (Leads s behind v) (sym e) (Leads-snoc s behind v ys q)
]

-- The rest of a list, led back to `v`.
record Backed (s r : ListState) (ys : List ℕ) (v : Option ℕ) : Type 0 where
  tail_backed : r.0.tail ≡ last v ys
  head_kept : r.0.head ≡ s.0.head
  rest : Linked r.1 v ys none
  outside : (p : ℕ) → has p ys ≡ false → r.1 p ≡ s.1 p

back-Backed :
    (s : ListState) (before v : Option ℕ) (ys : List ℕ)
    → s.0.tail ≡ last before ys
    → Linked s.1 before ys none
    → Distinct ys
    → Backed s (pass_back s (first ys none) v) ys v
unfolding pass_back
back-Backed s before v [] et h d = record {
  tail_backed = refl;
  head_kept = refl;
  rest = tt;
  outside = λ p out. refl;
}
back-Backed s before v (p ∷ ys) et h d = record {
  tail_backed = et;
  head_kept = refl;
  rest = Linked-redirect_first s.1 before p ys none v d.0 h;
  outside = λ q out. ground arith;
}

-- The items before and behind the one that is taken out, in the memory that is left.
module _ (s : ListState) (xs : List ℕ) (p : ℕ) (ys : List ℕ) (h : Holds s (xs ++ p ∷ ys)) where
  links :
      Linked s.1 none xs (some p)
      × ((s.1 p).prev ≡ last none xs)
      × ((s.1 p).next ≡ first ys none)
      × Linked s.1 (some p) ys none
  links =
      let (front, behind) = (Linked-append s.1 none xs (p ∷ ys) none).0 h.linked in
      (front, behind.0, behind.1, behind.2)

  apart : (has p xs ≡ false) × (has p ys ≡ false) × Distinct (xs ++ ys)
  apart = Distinct-append p xs ys h.distinct

  abbrev led : ListState
  led = pass_forward s (last none xs) (first ys none)

  abbrev backed : ListState
  backed = pass_back led (first ys none) (last none xs)

  is_led : Led s led xs (first ys none)
  is_led =
      forward-Led s (some p) (first ys none) xs (h.at_head ∙ first-append xs (p ∷ ys) none) links.0
        (Distinct-left xs ys apart.2)

  is_backed : Backed led backed ys (last none xs)
  is_backed =
      back-Backed led (some p) (last none xs) ys
        (is_led.tail_kept ∙ h.at_tail ∙ last-append none xs (p ∷ ys))
        (Linked-frame s.1 led.1 (some p) ys none
          (λ q i. is_led.outside q (ground (arith, Distinct-apart xs ys q apart.2))) links.3)
        (Distinct-right xs ys apart.2)

  unlink_steps : dllist_unlink s p ≡ cleared backed p
  unfolding dllist_unlink
  unlink_steps =
      let out = is_led.outside p apart.0 in
      ap (λ (f : ListState). cleared (pass_back f (f.1 p).next (f.1 p).prev) p)
        (ap₂ (pass_forward s) links.1 links.2)
      ∙ ap₂ (λ a b. cleared (pass_back led a b) p) (ap (λ (c : Link). c.next) out ∙ links.2)
          (ap (λ (c : Link). c.prev) out ∙ links.1)

  cleared-Holds : Holds (cleared backed p) (xs ++ ys)
  cleared-Holds =
      let front =
        Linked-frame led.1 backed.1 none xs (first ys none)
          (λ q i. is_backed.outside q (Distinct-apart xs ys q apart.2 i)) is_led.front in
      record {
        at_head = is_backed.head_kept ∙ is_led.head_led ∙ sym (first-append xs ys none);
        at_tail = is_backed.tail_backed ∙ sym (last-append none xs ys);
        linked = (Linked-append (cleared backed p).1 none xs ys none).1 (
          spared none xs (first ys none) apart.0 front,
          spared (last none xs) ys none apart.1 is_backed.rest,
        );
        distinct = apart.2;
      }
    where
      spared :
          (before : Option ℕ) (zs : List ℕ) (behind : Option ℕ)
          → has p zs ≡ false
          → Linked backed.1 before zs behind
          → Linked (cleared backed p).1 before zs behind
      spared before zs behind out l =
          Linked-write_prev (write_next backed.1 p none) p none before zs behind out
            (Linked-write_next backed.1 p none before zs behind out l)

  unlink-Holds : Holds (dllist_unlink s p) (xs ++ ys)
  unlink-Holds = subst (λ r. Holds r (xs ++ ys)) (sym unlink_steps) cleared-Holds

  unlink_untouched : (q : ℕ) → has q (xs ++ p ∷ ys) ≡ false → (dllist_unlink s p).1 q ≡ s.1 q
  unlink_untouched q out =
      ap (λ (r : ListState). r.1 q) unlink_steps
      ∙ ground (
        arith,
        has-append q xs (p ∷ ys),
        is_backed.outside q (ground (arith, has-append q xs (p ∷ ys))),
        is_led.outside q (ground (arith, has-append q xs (p ∷ ys))),
      )

-- The list holds the others, in their order, and no item of another list has been touched.
pub record IsUnlinked (s : ListState) (p : ℕ) (xs ys : List ℕ) (r : ListState) : Type 0 where
  pub holds : Holds r (xs ++ ys)
  pub untouched : (q : ℕ) → has q (xs ++ p ∷ ys) ≡ false → r.1 q ≡ s.1 q

-- DLLIST_Unlink takes the item out of the sequence that the list holds, wherever it stands, leaves
-- the other items in their order, and touches no item that is not in the list.
pub dllist_unlink_lem :
    (s : ListState) (xs : List ℕ) (p : ℕ) (ys : List ℕ)
    → Holds s (xs ++ p ∷ ys)
    → IsUnlinked s p xs ys (dllist_unlink s p)
dllist_unlink_lem s xs p ys h = record {
  holds = unlink-Holds s xs p ys h;
  untouched = unlink_untouched s xs p ys h;
}
