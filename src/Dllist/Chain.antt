-- ===== src/Dllist/Chain.antt =====
-- src/core/dllist.c: what it means that the links hold a sequence of items.
use usp_agent_stomp.Common.{
  ℕ, ◌≡◌, refl, sym, ap, ◌∙◌, ◌↔◌, ◌⊎◌, inl, inr, Bool, true, false, ◌||◌, Option, none, some, List,
  [], ◌∷◌, ◌++◌, arith, ◌==◌, ==_refl,
}
use usp_agent_stomp.Dllist.{Memory, ListState, write_next, write_prev}

abbrev pub first : List ℕ → Option ℕ → Option ℕ
first [] behind = behind
first (p ∷ xs) behind = some p

abbrev pub last : Option ℕ → List ℕ → Option ℕ
last before [] = before
last before (p ∷ xs) = last (some p) xs

abbrev pub has : ℕ → List ℕ → Bool
has p [] = false
has p (q ∷ xs) = q == p || has p xs

abbrev pub Distinct : List ℕ → Type 0
Distinct [] = Unit
Distinct (p ∷ xs) = (has p xs ≡ false) × Distinct xs

-- The items of `xs` are linked both ways, between `before` and `behind`.
abbrev pub Linked : Memory → Option ℕ → List ℕ → Option ℕ → Type 0
Linked m before [] behind = Unit
Linked m before (p ∷ xs) behind =
    ((m p).prev ≡ before) × ((m p).next ≡ first xs behind) × Linked m (some p) xs behind

-- The list of that header holds exactly the items of `xs`, in their order.
pub record Holds (s : ListState) (xs : List ℕ) : Type 0 where
  pub at_head : s.0.head ≡ first xs none
  pub at_tail : s.0.tail ≡ last none xs
  pub linked : Linked s.1 none xs none
  pub distinct : Distinct xs

pub has-append : (p : ℕ) (xs ys : List ℕ) → has p (xs ++ ys) ≡ (has p xs || has p ys)
has-append p [] ys = refl
has-append p (q ∷ xs) ys = ground (arith, has-append p xs ys)

pub last-append :
    (before : Option ℕ) (xs ys : List ℕ) → last before (xs ++ ys) ≡ last (last before xs) ys
last-append before [] ys = refl
last-append before (p ∷ xs) ys = last-append (some p) xs ys

pub first-append :
    (xs ys : List ℕ) (behind : Option ℕ) → first (xs ++ ys) behind ≡ first xs (first ys behind)
first-append [] ys behind = refl
first-append (p ∷ xs) ys behind = refl

pub Linked-append :
    (m : Memory) (before : Option ℕ) (xs ys : List ℕ) (behind : Option ℕ)
    → Linked m before (xs ++ ys) behind
      ↔ (Linked m before xs (first ys behind) × Linked m (last before xs) ys behind)
Linked-append m before [] ys behind = (λ h. (tt, h), λ h. h.1)
Linked-append m before (p ∷ xs) ys behind =
    ground (arith, Linked-append m (some p) xs ys behind, first-append xs ys behind)

pub Distinct-append :
    (p : ℕ) (xs ys : List ℕ)
    → Distinct (xs ++ p ∷ ys)
    → (has p xs ≡ false) × (has p ys ≡ false) × Distinct (xs ++ ys)
Distinct-append p [] ys h = (refl, h.0, h.1)
Distinct-append p (q ∷ xs) ys h =
    ground (arith, Distinct-append p xs ys, has-append q xs (p ∷ ys), has-append q xs ys)

pub Linked-write_next :
    (m : Memory) (q : ℕ) (v : Option ℕ) (before : Option ℕ) (xs : List ℕ) (behind : Option ℕ)
    → has q xs ≡ false
    → Linked m before xs behind
    → Linked (write_next m q v) before xs behind
Linked-write_next m q v before [] behind e h = tt
Linked-write_next m q v before (p ∷ xs) behind e h =
    ground (arith, Linked-write_next m q v (some p) xs behind)

pub Linked-write_prev :
    (m : Memory) (q : ℕ) (v : Option ℕ) (before : Option ℕ) (xs : List ℕ) (behind : Option ℕ)
    → has q xs ≡ false
    → Linked m before xs behind
    → Linked (write_prev m q v) before xs behind
Linked-write_prev m q v before [] behind e h = tt
Linked-write_prev m q v before (p ∷ xs) behind e h =
    ground (arith, Linked-write_prev m q v (some p) xs behind)

-- The links survive a change of the memory that spares their items.
pub Linked-frame :
    (m m' : Memory) (before : Option ℕ) (xs : List ℕ) (behind : Option ℕ)
    → ((p : ℕ) → has p xs ≡ true → m' p ≡ m p)
    → Linked m before xs behind
    → Linked m' before xs behind
Linked-frame m m' before [] behind same h = tt
Linked-frame m m' before (p ∷ xs) behind same (hp, hn, hs) =
    let e = same p (ground (arith, ==_refl p)) in
    (
      ap (λ c. c.prev) e ∙ hp,
      ap (λ c. c.next) e ∙ hn,
      Linked-frame m m' (some p) xs behind (λ q i. same q (ground arith)) hs,
    )

-- A list is empty or has a last item.
pub snoc_cases : (xs : List ℕ) → (xs ≡ []) ⊎ ((ys : List ℕ) × (q : ℕ) × (xs ≡ ys ++ q ∷ []))
snoc_cases [] = inl refl
snoc_cases (p ∷ xs) = elim (snoc_cases xs) [
  | inl e ↦ inr ([], p, ap (◌∷◌ p) e)
  | inr (ys, q, e) ↦ inr (p ∷ ys, q, ap (◌∷◌ p) e)
]

pub last-snoc : (before : Option ℕ) (xs : List ℕ) (q : ℕ) → last before (xs ++ q ∷ []) ≡ some q
last-snoc before xs q = last-append before xs (q ∷ [])

pub Linked-redirect_last :
    (m : Memory) (before : Option ℕ) (xs : List ℕ) (q : ℕ) (behind v : Option ℕ)
    → has q xs ≡ false
    → Linked m before (xs ++ q ∷ []) behind
    → Linked (write_next m q v) before (xs ++ q ∷ []) v
Linked-redirect_last m before [] q behind v e h = ground (arith, ==_refl q)
Linked-redirect_last m before (p ∷ xs) q behind v e h = ground (
  arith,
  Linked-redirect_last m (some p) xs q behind v,
  first-append xs (q ∷ []) behind,
  first-append xs (q ∷ []) v,
)

pub Linked-redirect_first :
    (m : Memory) (before : Option ℕ) (p : ℕ) (xs : List ℕ) (behind v : Option ℕ)
    → has p xs ≡ false
    → Linked m before (p ∷ xs) behind
    → Linked (write_prev m p v) v (p ∷ xs) behind
Linked-redirect_first m before p xs behind v e h =
    ground (arith, ==_refl p, Linked-write_prev m p v (some p) xs behind)

pub Distinct-left : (xs ys : List ℕ) → Distinct (xs ++ ys) → Distinct xs
Distinct-left [] ys h = tt
Distinct-left (p ∷ xs) ys h = ground (arith, Distinct-left xs ys, has-append p xs ys)

pub Distinct-right : (xs ys : List ℕ) → Distinct (xs ++ ys) → Distinct ys
Distinct-right [] ys h = h
Distinct-right (p ∷ xs) ys h = Distinct-right xs ys h.1

pub Distinct-apart :
    (xs ys : List ℕ) (q : ℕ) → Distinct (xs ++ ys) → has q xs ≡ true → has q ys ≡ false
Distinct-apart [] ys q h i = cc
Distinct-apart (p ∷ xs) ys q h i = ground (arith, Distinct-apart xs ys q, has-append p xs ys)

pub Distinct-snoc : (xs : List ℕ) (p : ℕ) → Distinct xs → has p xs ≡ false → Distinct (xs ++ p ∷ [])
Distinct-snoc [] p d out = (refl, tt)
Distinct-snoc (q ∷ xs) p d out = ground (arith, Distinct-snoc xs p, has-append q xs (p ∷ []))

pub first-snoc :
    (xs : List ℕ) (q : ℕ) (a b : Option ℕ) → first (xs ++ q ∷ []) a ≡ first (xs ++ q ∷ []) b
first-snoc xs q a b = first-append xs (q ∷ []) a ∙ sym (first-append xs (q ∷ []) b)
