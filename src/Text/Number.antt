-- ===== src/Text/Number.antt =====
-- src/core/text_utils.c: TEXT_UTILS_StringToUnsignedLong and TEXT_UTILS_StringToUnsigned.
-- `strtoul` is the C library's, in base 10: the value and what the end pointer points at.
use usp_agent_stomp.Common.{
  ℕ, zero, suc, ◌+◌, ◌-◌, ◌*◌, ◌/◌, ◌%◌, ◌^◌, ◌≤◌, ◌<◌, ◌≡◌, refl, ◌≢◌, Bool, false, ◌||◌, [], ◌∷◌,
  arith, ltb, ◌==◌, if◌then◌else◌, le→ltb_false, All, Bytes, codes,
}
use usp_agent_stomp.Common.Int.{ℤ, pos, negsuc}
use usp_agent_stomp.Result.{invalid_type, Result, ok, err, ◌>>=◌}

-- strchr(s, c) != NULL
unfoldable pub has_char : ℕ → Bytes → Bool
has_char c [] = false
has_char c (d ∷ s) = (d == c) || has_char c s

abbrev pub uint_max : ℕ
uint_max = 4294967295

unfoldable pub string_to_unsigned_long : (Bytes → ℕ × Bytes) → Bytes → Result ℕ
unfolding has_char
string_to_unsigned_long strtoul str =
    let parsed = strtoul str in
    if has_char b'-' str
    then err invalid_type
    else elim parsed.1 [ [] ↦ ok parsed.0 | c ∷ s ↦ err invalid_type ]

unfoldable pub string_to_unsigned : (Bytes → ℕ × Bytes) → Bytes → Result ℕ
unfolding string_to_unsigned_long
string_to_unsigned strtoul str = do
  lvalue ← string_to_unsigned_long strtoul str
  if ltb uint_max lvalue then err invalid_type else ok lvalue

-- The number that decimal digits spell behind `n`.
abbrev pub decimal_value : ℕ → Bytes → ℕ
decimal_value n [] = n
decimal_value n (c ∷ s) = decimal_value (n * 10 + (c - b'0')) s

abbrev pub IsDigit : ℕ → Type 0
IsDigit c = (b'0' ≤ c) × (c ≤ b'9')

-- What the C library documents of strtoul on one or more decimal digits that fit (64-bit long).
pub record IsStrtoul (strtoul : Bytes → ℕ × Bytes) : Type 0 where
  pub digits :
      (s : Bytes)
      → s ≢ []
      → All IsDigit s
      → decimal_value 0 s < 2 ^ 64
      → strtoul s ≡ (decimal_value 0 s, [])

has_char-digits : (s : Bytes) → All IsDigit s → has_char b'-' s ≡ false
unfolding has_char
has_char-digits [] h = refl
has_char-digits (c ∷ s) h = ground (arith, has_char-digits s)

-- Given what the C library documents of strtoul, TEXT_UTILS_StringToUnsigned reads a text of one or
-- more decimal digits as their number, where that fits an `unsigned`.
pub string_to_unsigned-digits :
    (strtoul : Bytes → ℕ × Bytes)
    → IsStrtoul strtoul
    → (s : Bytes) → s ≢ []
    → All IsDigit s
    → decimal_value 0 s ≤ uint_max
    → string_to_unsigned strtoul s ≡ ok (decimal_value 0 s)
unfolding string_to_unsigned
string_to_unsigned-digits strtoul lib s ne hs fits = rw (
  has_char-digits s hs,
  lib.digits s ne hs (omega arith),
  lib.digits s ne hs (omega arith),
  le→ltb_false uint_max (decimal_value 0 s) fits,
)

-- The decimal digits of `n` before `out`, as printf's %d and %u write them. The rounds are bounded
-- by `fuel`; `n` itself is enough for every `n`.
unfoldable pub print_digits : ℕ → ℕ → Bytes → Bytes
print_digits zero n out = out
print_digits (suc fuel) n out =
    let rest = print_digits fuel (n / 10) ((b'0' + n % 10) ∷ out) in if n == 0 then out else rest

unfoldable pub print_unsigned : ℕ → Bytes
unfolding print_digits
print_unsigned n = if n == 0 then b'0' ∷ [] else print_digits n n []

unfoldable pub print_int : ℤ → Bytes
unfolding print_unsigned
print_int (pos n) = print_unsigned n
print_int (negsuc n) = b'-' ∷ print_unsigned (suc n)

prints_1024 : print_int (pos 1024) ≡ codes "1024"
unfolding print_int
prints_1024 = refl
