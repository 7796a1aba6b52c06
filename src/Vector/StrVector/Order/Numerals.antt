-- ===== src/Vector/StrVector/Order/Numerals.antt =====
-- src/core/str_vector.c: NaturalStrCmp puts numerals in the order of their numbers.
use usp_agent_stomp.Common.{
  ℕ, ◌+◌, ◌-◌, ◌*◌, ◌≤◌, ◌<◌, ◌≡◌, refl, ap, ◌↔◌, inl, inr, true, false, [], ◌∷◌, arith, ℕ_discrete,
  Bool-cases, length, All, Bytes,
}
use usp_agent_stomp.Text.Number.{decimal_value, IsDigit}
use usp_agent_stomp.Text.Path.{count_consecutive_digits}
use usp_agent_stomp.Vector.StrVector.{natural_str_cmp}
use usp_agent_stomp.Vector.StrVector.Order.{IsChar, is_before, run_mono}

count-digits : (s : Bytes) → All IsDigit s → count_consecutive_digits s ≡ length s
unfolding count_consecutive_digits
count-digits [] h = refl
count-digits (c ∷ s) (hc, hs) = ground (arith, count-digits s hs)

le-decimal_value : (t : Bytes) (b : ℕ) → b ≤ decimal_value b t
le-decimal_value [] b = omega arith
le-decimal_value (d ∷ t) b = omega (arith, le-decimal_value t (b * 10 + (d - b'0')))

-- A larger leading part outweighs any digits behind it.
value_lt :
    (s t : Bytes) (a b : ℕ)
    → All IsDigit s
    → a < b
    → length s ≤ length t
    → decimal_value a s < decimal_value b t
value_lt [] t a b hs lt le = omega (arith, le-decimal_value t b)
value_lt (c ∷ s) [] a b hs lt le = absurd (omega arith)
value_lt (c ∷ s) (d ∷ t) a b (hc, hs) lt le =
    value_lt s t (a * 10 + (c - b'0')) (b * 10 + (d - b'0')) hs (omega arith) (omega arith)

IsDigit-IsChar : (s : Bytes) → All IsDigit s → All IsChar s
IsDigit-IsChar [] h = tt
IsDigit-IsChar (c ∷ s) (hc, hs) = (omega arith, IsDigit-IsChar s hs)

same_length :
    (s t : Bytes) (n : ℕ)
    → All IsDigit s
    → All IsDigit t
    → length s ≡ length t
    → is_before s t ≡ true
    → decimal_value n s < decimal_value n t
unfolding is_before natural_str_cmp
same_length [] [] n hs ht e h = cc
same_length [] (d ∷ t) n hs ht e h = absurd (omega arith)
same_length (c ∷ s) [] n hs ht e h = absurd (omega arith)
same_length (c ∷ s) (d ∷ t) n (hc, hs) (hd, ht) e h = ground (
  arith,
  same_length s t (n * 10 + (c - b'0')),
  count-digits (c ∷ s) (hc, hs),
  count-digits (d ∷ t) (hd, ht),
  value_lt s t (n * 10 + (c - b'0')) (n * 10 + (d - b'0')) hs,
)

-- A numeral without leading zeros.
abbrev pub IsNumeral : Bytes → Type 0
IsNumeral [] = ⊥
IsNumeral (c ∷ s) = (b'0' < c) × All IsDigit (c ∷ s)

before_value :
    (s t : Bytes)
    → IsNumeral s
    → IsNumeral t
    → is_before s t ≡ true
    → decimal_value 0 s < decimal_value 0 t
before_value s [] hs ht h = absurd ht
before_value [] (d ∷ t) hs ht h = absurd hs
before_value (c ∷ s) (d ∷ t) hs ht h = elim (ℕ_discrete (length s) (length t)) [
  | yes e ↦ same_length (c ∷ s) (d ∷ t) 0 hs.1 ht.1 (omega arith) h
  | no e ↦ value_lt (c ∷ s) t 0 (0 * 10 + (d - b'0')) hs.1 (omega arith) (
      omega (
        arith,
        count-digits (c ∷ s) hs.1,
        count-digits (d ∷ t) ht.1,
        run_mono (c ∷ s) (d ∷ t) (IsDigit-IsChar (c ∷ s) hs.1) (IsDigit-IsChar (d ∷ t) ht.1) h,
      ))
]

IsNumeral-IsDigit : (s : Bytes) → IsNumeral s → All IsDigit s
IsNumeral-IsDigit [] h = absurd h
IsNumeral-IsDigit (c ∷ s) h = h.1

total :
    (s t : Bytes)
    → All IsChar s
    → All IsChar t
    → is_before s t ≡ false
    → is_before t s ≡ false
    → s ≡ t
unfolding is_before natural_str_cmp
total [] [] hs ht h h' = refl
total [] (d ∷ t) hs ht h h' = ground arith
total (c ∷ s) [] hs ht h h' = ground arith
total (c ∷ s) (d ∷ t) hs ht h h' = ground (arith, total s t)

value_before :
    (s t : Bytes)
    → IsNumeral s
    → IsNumeral t
    → decimal_value 0 s < decimal_value 0 t
    → is_before s t ≡ true
value_before s t hs ht lt = elim (Bool-cases (is_before s t)) [
  | inl e ↦ e
  | inr e ↦ elim (Bool-cases (is_before t s)) [
    | inl e' ↦ absurd (omega (arith, before_value t s ht hs e'))
    | inr e' ↦ absurd (
        omega (
          arith,
          ap (decimal_value 0) (
              total s t (IsDigit-IsChar s (IsNumeral-IsDigit s hs))
                (IsDigit-IsChar t (IsNumeral-IsDigit t ht)) e e'),
        ))
  ]
]

-- Of two numerals without leading zeros NaturalStrCmp puts the first before the second exactly if
-- its number is the smaller one.
pub is_before_iff :
    (s t : Bytes)
    → IsNumeral s
    → IsNumeral t
    → (is_before s t ≡ true) ↔ (decimal_value 0 s < decimal_value 0 t)
is_before_iff s t hs ht = (before_value s t hs ht, value_before s t hs ht)
