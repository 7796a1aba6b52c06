-- ===== src/Text/Hex/RoundTrip.antt =====
-- src/core/text_utils.c and src/core/kv_vector.c: what hexadecimal text and escapes stand for.
use usp_agent_stomp.Common.{
  ℕ, suc, ◌*◌, ◌/◌, ◌%◌, ◌≤◌, ◌<◌, ◌≡◌, refl, Bool, false, ◌||◌, Option, none, some, [], ◌∷◌, ◌++◌,
  arith, ◌==◌, if◌then◌else◌, length, All, Bytes,
}
use usp_agent_stomp.Result.{ok}
use usp_agent_stomp.Text.Hex.{
  value_to_hex_digit, hex_byte, binary_loop, string_to_binary, outside, unescape_loop,
  unescape_string,
}

abbrev pub IsByte : ℕ → Type 0
IsByte b = b < 256

pub hex_byte-value_to_hex_digit :
    (b : ℕ)
    → IsByte b
    → hex_byte (value_to_hex_digit (b / 16)) (value_to_hex_digit (b % 16)) ≡ some b
unfolding hex_byte value_to_hex_digit
hex_byte-value_to_hex_digit b h = ground arith

hex_byte_bound : (hi lo b : ℕ) → hex_byte hi lo ≡ some b → IsByte b
unfolding hex_byte
hex_byte_bound hi lo b h = ground arith

-- The digits that KV_VECTOR_AddHexNumber writes: both nibbles of each byte.
unfoldable pub to_hex : Bytes → Bytes
to_hex [] = []
to_hex (b ∷ buf) = value_to_hex_digit (b / 16) ∷ value_to_hex_digit (b % 16) ∷ to_hex buf

length-to_hex : (buf : Bytes) → length (to_hex buf) ≡ 2 * length buf
unfolding to_hex
length-to_hex [] = refl
length-to_hex (b ∷ buf) = omega (arith, length-to_hex buf)

binary_loop-to_hex : (buf : Bytes) → All IsByte buf → binary_loop (to_hex buf) ≡ some buf
unfolding binary_loop to_hex
binary_loop-to_hex [] h = refl
binary_loop-to_hex (b ∷ buf) (hb, hs) =
    ground (arith, hex_byte-value_to_hex_digit b hb, binary_loop-to_hex buf hs)

-- Text written by KV_VECTOR_AddHexNumber is read back to the same bytes by TEXT_UTILS_StringToBinary
-- into any buffer that is large enough.
pub string_to_binary-to_hex :
    (buf : Bytes) (len : ℕ)
    → All IsByte buf
    → length buf ≤ len
    → string_to_binary (to_hex buf) len ≡ ok buf
unfolding string_to_binary
string_to_binary-to_hex buf len h fits =
    rw (binary_loop-to_hex buf h) (ground (arith, length-to_hex buf))

pair_sound :
    (first : Option ℕ) (rest : Option Bytes) (buf : Bytes) {n : ℕ}
    → ((b : ℕ) → first ≡ some b → IsByte b)
    → ((l : Bytes) → rest ≡ some l → (n ≡ 2 * length l) × All IsByte l)
    → (elim first [ none ↦ none | some b ↦ elim rest [ none ↦ none | some l ↦ some (b ∷ l) ] ])
      ≡ some buf
    → (suc (suc n) ≡ 2 * length buf) × All IsByte buf
pair_sound none rest buf hb hl h = cc
pair_sound (some b) none buf hb hl h = cc
pair_sound (some b) (some l) buf hb hl h = ground (arith, hb b refl, hl l refl)

binary_loop_sound :
    (str buf : Bytes) → binary_loop str ≡ some buf → (length str ≡ 2 * length buf) × All IsByte buf
unfolding binary_loop
binary_loop_sound [] buf h = ground arith
binary_loop_sound (hi ∷ []) buf h = cc
binary_loop_sound (hi ∷ lo ∷ p) buf h =
    pair_sound (hex_byte hi lo) (binary_loop p) buf (hex_byte_bound hi lo) (binary_loop_sound p) h

string_to_binary_reads :
    (str : Bytes) (len : ℕ) {buf : Bytes}
    → string_to_binary str len ≡ ok buf
    → (binary_loop str ≡ some buf) × (length str / 2 ≤ len)
unfolding string_to_binary
string_to_binary_reads str len h = ground arith

-- What TEXT_UTILS_StringToBinary accepts is two digits for each byte of its result, which fits the
-- buffer and holds bytes only; an error leaves nothing to check.
string_to_binary_sound :
    (str : Bytes) (len : ℕ) {buf : Bytes}
    → string_to_binary str len ≡ ok buf
    → (length str ≡ 2 * length buf) × (length buf ≤ len) × All IsByte buf
string_to_binary_sound str len {buf} h =
    let (read, fits) = string_to_binary_reads str len h in
    let (twice, bytes) = binary_loop_sound str buf read in (twice, omega arith, bytes)

-- An escape for a byte: `%` and its two hexadecimal digits.
abbrev percent : ℕ → Bytes
percent b = b'%' ∷ value_to_hex_digit (b / 16) ∷ value_to_hex_digit (b % 16) ∷ []

-- A text in which the bytes that `escaped` selects, and `%`, are written as escapes.
unfoldable pub percent_encode : (ℕ → Bool) → Bytes → Bytes
percent_encode escaped [] = []
percent_encode escaped (b ∷ s) =
    let rest = percent_encode escaped s in
    if escaped b || b == b'%' then percent b ++ rest else b ∷ rest

unescape_percent :
    (b : ℕ) (src dest : Bytes)
    → IsByte b
    → unescape_loop outside src ≡ some dest
    → unescape_loop outside (percent b ++ src) ≡ some (b ∷ dest)
unfolding unescape_loop
unescape_percent b src dest h e = ground (arith, hex_byte-value_to_hex_digit b h)

unescape_plain :
    (b : ℕ) (src dest : Bytes)
    → (b == b'%') ≡ false
    → unescape_loop outside src ≡ some dest
    → unescape_loop outside (b ∷ src) ≡ some (b ∷ dest)
unfolding unescape_loop
unescape_plain b src dest h e = ground arith

-- TEXT_UTILS_UnescapeString undoes percent encoding, whichever bytes besides `%` were encoded.
pub unescape_string-percent_encode :
    (escaped : ℕ → Bool) (s : Bytes)
    → All IsByte s
    → unescape_string (percent_encode escaped s) ≡ some s
unfolding unescape_string percent_encode
unescape_string-percent_encode escaped [] h = unfold unescape_loop in refl
unescape_string-percent_encode escaped (b ∷ s) (hb, hs) = ground (
  arith,
  unescape_percent b (percent_encode escaped s) s hb (unescape_string-percent_encode escaped s hs),
  unescape_plain b (percent_encode escaped s) s,
  unescape_string-percent_encode escaped s hs,
)
