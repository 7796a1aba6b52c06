-- ===== src/Vector/StrVector/Order/Transitive.antt =====
-- src/core/str_vector.c: NaturalStrCmp is transitive.
use usp_agent_stomp.Common.{
  ℕ, zero, suc, ◌+◌, ◌≤◌, ◌<◌, ◌≡◌, sym, ◌∙◌, subst, ◌≢◌, ◌⊎◌, inl, inr, true, not, [], ◌∷◌, arith,
  ℕ_discrete, ltb, if◌then◌else◌, ==_refl, All, Bytes,
}
use usp_agent_stomp.Text.Path.{count_consecutive_digits}
use usp_agent_stomp.Vector.StrVector.{natural_str_cmp}
use usp_agent_stomp.Vector.StrVector.Order.{IsChar, is_before, run_mono, asymm}

-- The place of a character in the order of `char`.
rank : ℕ → ℕ
rank c = if ltb c 128 then c + 256 else c

-- How two strings compare that differ in their first characters `c` and `d`, from the lengths `m`
-- and `n` of the digit runs there.
abbrev Heads : ℕ → ℕ → ℕ → ℕ → Type 0
Heads c d m n = (m < n) ⊎ ((m ≡ n) × (rank c < rank d))

before-Heads :
    (c d : ℕ) (s t : Bytes)
    → IsChar c
    → IsChar d
    → c ≢ d
    → is_before (c ∷ s) (d ∷ t) ≡ true
    → Heads c d (count_consecutive_digits (c ∷ s)) (count_consecutive_digits (d ∷ t))
unfolding is_before natural_str_cmp rank
before-Heads c d s t hc hd ne h = ground arith

Heads-before :
    (c d : ℕ) (s t : Bytes)
    → IsChar c
    → IsChar d
    → c ≢ d
    → Heads c d (count_consecutive_digits (c ∷ s)) (count_consecutive_digits (d ∷ t))
    → is_before (c ∷ s) (d ∷ t) ≡ true
unfolding is_before natural_str_cmp rank
Heads-before c d s t hc hd ne h = ground arith

before_same : (c : ℕ) (s t : Bytes) → is_before (c ∷ s) (c ∷ t) ≡ is_before s t
unfolding is_before natural_str_cmp
before_same c s t = rw (==_refl c)

run_lt :
    (s t : Bytes)
    → All IsChar s
    → All IsChar t
    → count_consecutive_digits s < count_consecutive_digits t
    → is_before s t ≡ true
unfolding is_before natural_str_cmp count_consecutive_digits
run_lt [] [] hs ht h = absurd (omega arith)
run_lt [] (d ∷ t) hs ht h = ground arith
run_lt (c ∷ s) [] hs ht h = absurd (omega arith)
run_lt (c ∷ s) (d ∷ t) hs ht h = ground (arith, run_lt s t)

run_tail :
    (c : ℕ) (s t : Bytes)
    → count_consecutive_digits (c ∷ s) < count_consecutive_digits (c ∷ t)
    → count_consecutive_digits s < count_consecutive_digits t
unfolding count_consecutive_digits
run_tail c s t h = ground arith

Heads-irrefl : (c d : ℕ) (m n k : ℕ) → Heads c d m n → Heads d c n k → m < k
Heads-irrefl c d m n k h h' = ground arith

Heads-trans : (c d e : ℕ) (m n k : ℕ) → Heads c d m n → Heads d e n k → Heads c e m k
Heads-trans c d e m n k h h' = ground arith

Heads-le_left : (c d : ℕ) (l m n : ℕ) → l ≤ m → Heads c d m n → Heads c d l n
Heads-le_left c d l m n le h = ground arith

Heads-le_right : (c d : ℕ) (m n k : ℕ) → n ≤ k → Heads c d m n → Heads c d m k
Heads-le_right c d m n k le h = ground arith

nil_cases :
    (d : ℕ) (t : Bytes)
    → IsChar d
    → (is_before [] (d ∷ t) ≡ ltb d 128) × (is_before (d ∷ t) [] ≡ not (ltb d 128))
unfolding is_before natural_str_cmp
nil_cases d t h = ground arith

digit_run : (d : ℕ) (t : Bytes) → 0 < count_consecutive_digits (d ∷ t) → d < 128
unfolding count_consecutive_digits
digit_run d t h = ground arith

no_run : (d : ℕ) (t : Bytes) → 128 ≤ d → count_consecutive_digits (d ∷ t) ≡ 0
unfolding count_consecutive_digits
no_run d t h = ground arith

-- Characters of which the first is below 128, as the end of a string is, or not.
Heads-low :
    (d e m n : ℕ) (u : Bytes)
    → IsChar e
    → d < 128
    → n ≡ count_consecutive_digits (e ∷ u)
    → Heads d e m n
    → e < 128
unfolding rank
Heads-low d e m n u he low en h = ground (arith, digit_run e u)

Heads-high : (c d m n : ℕ) → IsChar c → IsChar d → 128 ≤ d → n ≡ 0 → Heads c d m n → 128 ≤ c
unfolding rank
Heads-high c d m n hc hd high zero_run h = ground arith

Heads-split : (c e m n : ℕ) → IsChar c → 128 ≤ c → e < 128 → m ≡ 0 → Heads c e m n
unfolding rank
Heads-split c e m zero hc high low e0 = inr (e0, ground arith)
Heads-split c e m (suc n) hc high low e0 = inl (omega arith)

before_cases :
    (c d : ℕ) (s t : Bytes)
    → IsChar c
    → IsChar d
    → is_before (c ∷ s) (d ∷ t) ≡ true
    → (c ≡ d) ⊎ Heads c d (count_consecutive_digits (c ∷ s)) (count_consecutive_digits (d ∷ t))
before_cases c d s t hc hd h = elim (ℕ_discrete c d) [
  | yes cd ↦ inl cd
  | no cd ↦ inr (before-Heads c d s t hc hd cd h)
]

-- The cases of transitivity in which a string ends.
nil_first :
    (d e : ℕ) (t u : Bytes)
    → IsChar d
    → IsChar e
    → is_before [] (d ∷ t) ≡ true
    → is_before (d ∷ t) (e ∷ u) ≡ true
    → is_before [] (e ∷ u) ≡ true
nil_first d e t u hd he p q = ground (
  arith,
  nil_cases d t hd,
  nil_cases e u he,
  before_cases d e t u hd he q,
  Heads-low d e (count_consecutive_digits (d ∷ t)) (count_consecutive_digits (e ∷ u)) u he,
)

nil_middle :
    (c e : ℕ) (s u : Bytes)
    → IsChar c
    → IsChar e
    → is_before (c ∷ s) [] ≡ true
    → is_before [] (e ∷ u) ≡ true
    → is_before (c ∷ s) (e ∷ u) ≡ true
nil_middle c e s u hc he p q = ground (
  arith,
  nil_cases c s hc,
  nil_cases e u he,
  no_run c s,
  Heads-split c e (count_consecutive_digits (c ∷ s)) (count_consecutive_digits (e ∷ u)) hc,
  Heads-before c e s u hc he,
)

nil_last :
    (c d : ℕ) (s t : Bytes)
    → IsChar c
    → IsChar d
    → is_before (c ∷ s) (d ∷ t) ≡ true
    → is_before (d ∷ t) [] ≡ true
    → is_before (c ∷ s) [] ≡ true
nil_last c d s t hc hd p q = ground (
  arith,
  nil_cases c s hc,
  nil_cases d t hd,
  no_run d t,
  before_cases c d s t hc hd p,
  Heads-high c d (count_consecutive_digits (c ∷ s)) (count_consecutive_digits (d ∷ t)) hc hd,
)

before_step : (c d : ℕ) (s t : Bytes) → c ≡ d → is_before (c ∷ s) (d ∷ t) ≡ is_before s t
before_step c d s t e = subst (λ x. is_before (c ∷ s) (x ∷ t) ≡ is_before s t) e (before_same c s t)

-- NaturalStrCmp's "comes before" is transitive on C strings: so STR_VECTOR_Sort hands qsort a
-- consistent order.
pub before_trans :
    (s t u : Bytes)
    → All IsChar s
    → All IsChar t
    → All IsChar u
    → is_before s t ≡ true
    → is_before t u ≡ true
    → is_before s u ≡ true
before_trans [] [] u hs ht hu p q = q
before_trans [] (d ∷ t) [] hs ht hu p q = cc (asymm [] (d ∷ t) p)
before_trans [] (d ∷ t) (e ∷ u) hs ht hu p q = nil_first d e t u ht.0 hu.0 p q
before_trans (c ∷ s) [] [] hs ht hu p q = p
before_trans (c ∷ s) [] (e ∷ u) hs ht hu p q = nil_middle c e s u hs.0 hu.0 p q
before_trans (c ∷ s) (d ∷ t) [] hs ht hu p q = nil_last c d s t hs.0 ht.0 p q
before_trans (c ∷ s) (d ∷ t) (e ∷ u) (hc, hs) (hd, ht) (he, hu) p q =
    let m = count_consecutive_digits (c ∷ s) in
    let n = count_consecutive_digits (d ∷ t) in
    let k = count_consecutive_digits (e ∷ u) in
    let mn = run_mono (c ∷ s) (d ∷ t) (hc, hs) (hd, ht) p in
    let nk = run_mono (d ∷ t) (e ∷ u) (hd, ht) (he, hu) q in
    elim (ℕ_discrete c d) [
      | yes cd ↦ elim (ℕ_discrete d e) [
        | yes de ↦
            before_step c e s u (cd ∙ de)
            ∙ before_trans s t u hs ht hu (sym (before_step c d s t cd) ∙ p)
                (sym (before_step d e t u de) ∙ q)
        | no de ↦
            Heads-before c e s u hc he (λ ce. de (sym cd ∙ ce))
              (subst (λ x. Heads x e m k) (sym cd)
                (Heads-le_left d e m n k mn (before-Heads d e t u hd he de q)))
      ]
      | no cd ↦ elim (ℕ_discrete d e) [
        | yes de ↦
            Heads-before c e s u hc he (λ ce. cd (ce ∙ sym de))
              (subst (λ x. Heads c x m k) de
                (Heads-le_right c d m n k nk (before-Heads c d s t hc hd cd p)))
        | no de ↦ elim (ℕ_discrete c e) [
          | yes ce ↦
              before_step c e s u ce
              ∙ run_lt s u hs hu (
                  run_tail c s u (
                    subst (λ x. m < count_consecutive_digits (x ∷ u)) (sym ce)
                      (Heads-irrefl c d m n k (before-Heads c d s t hc hd cd p)
                        (subst (λ x. Heads d x n k) (sym ce) (before-Heads d e t u hd he de q)))))
          | no ce ↦ Heads-before c e s u hc he ce (
              Heads-trans c d e m n k (before-Heads c d s t hc hd cd p)
                (before-Heads d e t u hd he de q))
        ]
      ]
    ]
