-- ===== src/Dllist/Move.antt =====
-- src/core/dllist.c: an item goes from one list to another.
use usp_agent_stomp.Common.{
  ℕ, ◌≡◌, refl, sym, ◌∙◌, Bool, true, false, none, List, [], ◌∷◌, ◌++◌, arith, ◌==◌, ==_refl,
}
use usp_agent_stomp.Result.{ok, Returns, Returns->>=}
use usp_agent_stomp.Dllist.{Memory, Header, dllist_link_to_tail, dllist_unlink, dllist_move_link}
use usp_agent_stomp.Dllist.Append.{IsAppended, dllist_link_to_tail_lem}
use usp_agent_stomp.Dllist.Chain.{has, Holds, has-append, Distinct-append, Linked-frame}
use usp_agent_stomp.Dllist.Unlink.{dllist_unlink_lem}

-- Two lists in one memory that share no item.
pub record Both (m : Memory) (dest src : Header) (ys xs : List ℕ) : Type 0 where
  pub dest_holds : Holds (dest, m) ys
  pub src_holds : Holds (src, m) xs
  pub apart : (q : ℕ) → has q xs ≡ true → has q ys ≡ false

Holds-frame :
    (l : Header) (m m' : Memory) (xs : List ℕ)
    → ((q : ℕ) → has q xs ≡ true → m' q ≡ m q)
    → Holds (l, m) xs
    → Holds (l, m') xs
Holds-frame l m m' xs same h = record {
  at_head = h.at_head;
  at_tail = h.at_tail;
  linked = Linked-frame m m' none xs none same h.linked;
  distinct = h.distinct;
}

exclusive : (a b : Bool) → (a ≡ true → b ≡ false) → b ≡ true → a ≡ false
exclusive true b h e = sym e ∙ h refl
exclusive false b h e = refl

other_item : (q p : ℕ) (xs : List ℕ) → has q xs ≡ true → has p xs ≡ false → (p == q) ≡ false
other_item q p [] i o = cc
other_item q p (x ∷ xs) i o = ground (arith, other_item q p xs)

present : (p : ℕ) (xs zs : List ℕ) → has p (xs ++ p ∷ zs) ≡ true
present p xs zs = ground (arith, has-append p xs (p ∷ zs), ==_refl p)

absent : (p : ℕ) (xs zs : List ℕ) → has p xs ≡ false → has p zs ≡ false → has p (xs ++ zs) ≡ false
absent p xs zs o o' = ground (arith, has-append p xs zs)

moved_apart :
    (q p : ℕ) (xs zs ys : List ℕ)
    → has p (xs ++ zs) ≡ false
    → has q (xs ++ zs) ≡ true
    → (has q (xs ++ p ∷ zs) ≡ true → has q ys ≡ false)
    → has q (ys ++ p ∷ []) ≡ false
moved_apart q p xs zs ys o i h = ground (
  arith,
  other_item q p (xs ++ zs) i o,
  has-append q xs zs,
  has-append q xs (p ∷ zs),
  has-append q ys (p ∷ []),
)

-- DLLIST_MoveLink takes an item out of one list and puts it at the end of another, in whatever
-- place it stood; both lists then hold what they should, and still share no item.
pub dllist_move_link_lem :
    (m : Memory) (dest src : Header) (ys xs zs : List ℕ) (p : ℕ)
    → Both m dest src ys (xs ++ p ∷ zs)
    → Returns (λ r. Both r.2 r.0 r.1 (ys ++ p ∷ []) (xs ++ zs)) (dllist_move_link dest src m p)
unfolding dllist_move_link
dllist_move_link_lem m dest src ys xs zs p b =
    let h = b.src_holds in
    let s1 = dllist_unlink (src, m) p in
    let out = Distinct-append p xs zs h.distinct in
    let moved : (q : ℕ) → has q (xs ++ zs) ≡ true → has q (ys ++ p ∷ []) ≡ false =
      λ q i. moved_apart q p xs zs ys (absent p xs zs out.0 out.1) i (b.apart q) in
    let kept =
      Holds-frame dest m s1.1 ys
        (λ q i. (dllist_unlink_lem (src, m) xs p zs h).untouched q (exclusive _ _ (b.apart q) i))
        b.dest_holds in
    Returns->>= (IsAppended (dest, s1.1) p ys) (λ r. Both r.2 r.0 r.1 (ys ++ p ∷ []) (xs ++ zs))
      (dllist_link_to_tail (dest, s1.1) p) (λ r. ok (r.0, s1.0, r.1))
      (dllist_link_to_tail_lem (dest, s1.1) p ys kept (b.apart p (present p xs zs)))
      (λ r v. record {
        dest_holds = v.holds;
        src_holds =
            Holds-frame s1.0 s1.1 r.1 (xs ++ zs) (λ q i. v.untouched q (moved q i))
              (dllist_unlink_lem (src, m) xs p zs h).holds;
        apart = moved;
      })
