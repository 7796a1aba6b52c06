-- ===== src/Stomp/RxBuf.antt =====
-- src/core/stomp.c: the receive buffer of a connection (the rxframe_* fields of
-- stomp_connection_t), and the functions that find a whole frame at its start.
pub mod Header
pub mod Framing
use usp_agent_stomp.Common.{
  ℕ, zero, suc, ◌+◌, ◌-◌, ◌%◌, Option, none, some, [], ◌∷◌, ◌++◌, ltb, leb, ◌==◌, if◌then◌else◌,
  take, drop, Bytes, codes,
}
use usp_agent_stomp.Common.Int.{ℤ, pos, negsuc, pos_part}
use usp_agent_stomp.Result.{resources_exceeded, Result, ok, err, abort, ◌>>=◌, ◌>>◌, assert}
use usp_agent_stomp.Text.Number.{string_to_unsigned}
use Header.{find_header_end, get_stomp_header_value}

-- `frame` is the allocated buffer, which may be longer than the `msglen` bytes received into it.
-- `header_len` is `none` where the source has INVALID.
pub record RxBuf : Type 0 where
  pub frame : Option Bytes
  pub msglen : ℕ
  pub maxlen : ℕ
  pub frame_len : ℤ
  pub header_len : Option ℕ

abbrev pub max_usp_msg_len : ℕ
max_usp_msg_len = 65536

abbrev pub empty_rx : RxBuf
empty_rx = record { frame = none; msglen = 0; maxlen = 0; frame_len = pos 0; header_len = none }

-- The bytes received and not yet handled.
abbrev pub bytes_of : Option Bytes → ℕ → Bytes
bytes_of none n = []
bytes_of (some buf) n = take n buf

abbrev pub contents : RxBuf → Bytes
contents rx = bytes_of rx.frame rx.msglen

-- memmove(&buf[0], &buf[m], n)
abbrev pub memmove_front : Bytes → ℕ → ℕ → Bytes
memmove_front buf m n = take n (drop m buf) ++ drop n buf

unfoldable pub shift : RxBuf → Bytes → ℕ → RxBuf
shift rx buf msg_size =
    let new_size = rx.msglen - msg_size in
    if new_size == 0
    then record rx { frame = none; msglen = 0; maxlen = 0 }
    else record rx { frame = some (memmove_front buf msg_size new_size); msglen = new_size }

unfoldable pub remove_message_from_rx_buf : RxBuf → ℕ → Result RxBuf
unfolding shift
remove_message_from_rx_buf rx msg_size = elim rx.frame [
  | none ↦ abort
  | some buf ↦ do
    assert (ltb 0 msg_size)
    assert (leb msg_size rx.msglen)
    ok (shift rx buf msg_size)
]

-- while ((*p == '\n') && (heartbeat_bytes < len))
unfoldable pub count_newlines : Bytes → ℕ → ℕ
count_newlines [] len = 0
count_newlines (c ∷ p) zero = 0
count_newlines (c ∷ p) (suc len) = if c == b'\n' then suc (count_newlines p len) else 0

unfoldable pub remove_received_heart_beats : RxBuf → Result RxBuf
unfolding remove_message_from_rx_buf count_newlines
remove_received_heart_beats rx = elim rx.frame [
  | none ↦ ok rx
  | some buf ↦
      let heartbeat_bytes = count_newlines buf rx.msglen in
      if rx.msglen == 0
      then ok rx
      else if ltb 0 heartbeat_bytes
      then remove_message_from_rx_buf rx heartbeat_bytes
      else ok rx
]

-- The value of a 32-bit pattern as an `int`.
abbrev pub int_of_u32 : ℕ → ℤ
int_of_u32 n = if ltb n 2147483648 then pos n else negsuc (4294967295 - n)

-- The content length as the unsigned pattern that is stored through the cast to `unsigned *`.
unfoldable pub parse_content_length_header : (Bytes → ℕ × Bytes) → RxBuf → Result ℕ
unfolding string_to_unsigned get_stomp_header_value
parse_content_length_header strtoul rx =
    elim (get_stomp_header_value (codes "content-length:") (contents rx) 12) [
      | none ↦ ok 0
      | some buf ↦ string_to_unsigned strtoul buf
    ]

-- header_len + content_len + 1, in 32-bit arithmetic.
abbrev pub frame_size : ℕ → ℕ → ℤ
frame_size header_len content_len = int_of_u32 ((header_len + content_len + 1) % 4294967296)

unfoldable pub store_frame_len : RxBuf → ℕ → ℕ → Result RxBuf
store_frame_len rx header_len content_len =
    let total = frame_size header_len content_len in
    if content_len == 0
    then ok (record rx { header_len = some header_len; frame_len = pos 0 })
    else if ltb max_usp_msg_len (pos_part total)
    then err resources_exceeded
    else ok (record rx { header_len = some header_len; frame_len = total })

unfoldable pub parse_stomp_headers : (Bytes → ℕ × Bytes) → RxBuf → Result RxBuf
unfolding find_header_end parse_content_length_header store_frame_len
parse_stomp_headers strtoul rx = elim (find_header_end (contents rx) 0 none none) [
  | none ↦ ok (record rx { header_len = none })
  | some header_len ↦ do
    content_len ← parse_content_length_header strtoul rx
    store_frame_len rx header_len content_len
]

-- for (i=0; i<len; i++) if (*p++ == '\0') the size is i+1
pub find_nul : Bytes → ℕ → ℕ → Option ℕ
find_nul [] len i = none
find_nul (c ∷ p) zero i = none
find_nul (c ∷ p) (suc len) i = if c == 0 then some (i + 1) else find_nul p len (i + 1)

abbrev size_or_zero : Option ℕ → ℤ
size_or_zero none = pos 0
size_or_zero (some n) = pos n

-- The message size that a parsed header gives; `len` is the length before heartbeats were removed.
unfoldable pub message_size : ℕ → Bytes → ℤ → ℤ
unfolding find_nul
message_size len buf (pos zero) = size_or_zero (find_nul buf len 0)
message_size len buf (pos (suc n)) = if leb (suc n) len then pos (suc n) else pos 0
message_size len buf (negsuc n) = negsuc n

unfoldable pub with_header : ℕ → Bytes → RxBuf → RxBuf × ℤ
unfolding message_size
with_header len buf rx = elim rx.header_len [
  | none ↦ (rx, pos 0)
  | some header_len ↦ (rx, message_size len buf rx.frame_len)
]

unfoldable pub after_heart_beats : (Bytes → ℕ × Bytes) → ℕ → RxBuf → Result (RxBuf × ℤ)
unfolding with_header parse_stomp_headers
after_heart_beats strtoul len rx = elim rx.frame [
  | none ↦ ok (rx, pos 0)
  | some buf ↦ if rx.msglen == 0 then ok (rx, pos 0) else elim rx.header_len [
    | some header_len ↦ ok (with_header len buf rx)
    | none ↦ do parsed ← parse_stomp_headers strtoul rx; ok (with_header len buf parsed)
  ]
]

-- The new buffer state and the value stored in *msg_size.
unfoldable pub is_stomp_msg_complete : (Bytes → ℕ × Bytes) → RxBuf → Result (RxBuf × ℤ)
unfolding remove_received_heart_beats after_heart_beats
is_stomp_msg_complete strtoul rx = do
  stripped ← remove_received_heart_beats rx
  after_heart_beats strtoul rx.msglen stripped
