-- ===== src/Text/Hex.antt =====
-- src/core/text_utils.c: hexadecimal digits, TEXT_UTILS_StringToBinary and
-- TEXT_UTILS_UnescapeString.
pub mod RoundTrip
use usp_agent_stomp.Common.{
  ℕ, ◌+◌, ◌-◌, ◌*◌, ◌/◌, ◌%◌, not, ◌&&◌, Option, none, some, [], ◌∷◌, ltb, leb, ◌==◌, if◌then◌else◌,
  length, Bytes, is_numeric,
}
use usp_agent_stomp.Result.{invalid_type, Result, ok, err}

-- `none` is INVALID.
unfoldable pub hex_digit_to_value : ℕ → Option ℕ
hex_digit_to_value c =
    if is_numeric c
    then some (c - b'0')
    else if leb b'A' c && leb c b'F'
    then some (c - b'A' + 10)
    else if leb b'a' c && leb c b'f'
    then some (c - b'a' + 10)
    else none

unfoldable pub value_to_hex_digit : ℕ → ℕ
value_to_hex_digit nibble =
    if leb nibble 9
    then nibble + b'0'
    else if leb 10 nibble && leb nibble 15
    then nibble - 10 + b'A'
    else b'X'

-- The byte of two hexadecimal digits.
unfoldable pub hex_byte : ℕ → ℕ → Option ℕ
unfolding hex_digit_to_value
hex_byte hi lo = elim (hex_digit_to_value hi) [
  | none ↦ none
  | some hi_nibble ↦ elim (hex_digit_to_value lo) [
    | none ↦ none
    | some lo_nibble ↦ some (hi_nibble * 16 + lo_nibble)
  ]
]

-- The loop over the pairs; the source has tested that no digit is left over.
unfoldable pub binary_loop : Bytes → Option Bytes
binary_loop [] = some []
binary_loop (hi ∷ []) = none
binary_loop (hi ∷ lo ∷ p) = elim (hex_byte hi lo) [
  | none ↦ none
  | some b ↦ elim (binary_loop p) [ none ↦ none | some buf ↦ some (b ∷ buf) ]
]

-- The bytes written into a buffer of `len` bytes; their number is the source's *bytes_written.
unfoldable pub string_to_binary : Bytes → ℕ → Result Bytes
string_to_binary str len =
    let num_nibbles = length str in
    if not (num_nibbles % 2 == 0)
    then err invalid_type
    else if ltb len (num_nibbles / 2)
    then err invalid_type
    else elim (binary_loop str) [ none ↦ err invalid_type | some buf ↦ ok buf ]

-- Where the unescaping loop stands: outside an escape, behind `%`, or behind `%` and a character.
pub data Escape : Type 0 where
  outside behind_percent : Escape
  behind_digit : ℕ → Escape

-- The bytes written over the buffer, before the terminator; NULL is `none`.
unfoldable pub unescape_loop : Escape → Bytes → Option Bytes
unescape_loop outside [] = some []
unescape_loop behind_percent [] = none
unescape_loop (behind_digit hex1) [] = none
unescape_loop outside (c ∷ src) =
    let escaped = unescape_loop behind_percent src in
    let plain = unescape_loop outside src in
    if c == b'%' then escaped else elim plain [ none ↦ none | some dest ↦ some (c ∷ dest) ]
unescape_loop behind_percent (hex1 ∷ src) = unescape_loop (behind_digit hex1) src
unescape_loop (behind_digit hex1) (hex2 ∷ src) = elim (hex_byte hex1 hex2) [
  | none ↦ none
  | some b ↦ elim (unescape_loop outside src) [ none ↦ none | some dest ↦ some (b ∷ dest) ]
]

unfoldable pub unescape_string : Bytes → Option Bytes
unescape_string buf = unescape_loop outside buf
