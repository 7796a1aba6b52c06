-- ===== src/Vector/StrVector/Order.antt =====
-- src/core/str_vector.c: NaturalStrCmp is a strict order that puts numerals in the order of their
-- numbers.
pub mod Numerals
pub mod Transitive
use usp_agent_stomp.Common.{ℕ, ◌≤◌, ◌<◌, ◌≡◌, refl, Bool, true, false, [], ◌∷◌, arith, All, Bytes}
use usp_agent_stomp.Common.Int.{ℤ, pos, negsuc}
use usp_agent_stomp.Text.Path.{count_consecutive_digits}
use usp_agent_stomp.Vector.StrVector.{natural_str_cmp}

abbrev pub IsChar : ℕ → Type 0
IsChar c = (0 < c) × (c < 256)

abbrev pub is_neg : ℤ → Bool
is_neg (pos n) = false
is_neg (negsuc n) = true

-- The first string comes before the second.
unfoldable pub is_before : Bytes → Bytes → Bool
is_before s t = is_neg (natural_str_cmp s t)

pub run_mono :
    (s t : Bytes)
    → All IsChar s
    → All IsChar t
    → is_before s t ≡ true
    → count_consecutive_digits s ≤ count_consecutive_digits t
unfolding is_before natural_str_cmp count_consecutive_digits
run_mono [] t hs ht h = omega arith
run_mono (c ∷ s) [] hs ht h = ground arith
run_mono (c ∷ s) (d ∷ t) hs ht h = ground (arith, run_mono s t)

-- NaturalStrCmp calls two strings equal only if they are the same.
pub natural_str_cmp-eq-zero :
    (s t : Bytes) → All IsChar s → All IsChar t → natural_str_cmp s t ≡ pos 0 → s ≡ t
unfolding natural_str_cmp
natural_str_cmp-eq-zero [] [] hs ht h = refl
natural_str_cmp-eq-zero [] (d ∷ t) hs ht h = ground arith
natural_str_cmp-eq-zero (c ∷ s) [] hs ht h = ground arith
natural_str_cmp-eq-zero (c ∷ s) (d ∷ t) hs ht h = ground (arith, natural_str_cmp-eq-zero s t)

pub asymm : (s t : Bytes) → is_before s t ≡ true → is_before t s ≡ false
unfolding is_before natural_str_cmp
asymm [] [] h = refl
asymm [] (d ∷ t) h = ground arith
asymm (c ∷ s) [] h = ground arith
asymm (c ∷ s) (d ∷ t) h = ground (arith, asymm s t)
