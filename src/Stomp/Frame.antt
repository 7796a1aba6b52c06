-- ===== src/Stomp/Frame.antt =====
-- src/core/stomp.c: EscapeStompHeader and the texts that the StartSendingFrame functions write.
pub mod Layout
pub mod Escape
use usp_agent_stomp.Common.{
  ℕ, zero, suc, ◌+◌, ◌-◌, ◌/◌, Bool, true, false, Option, none, some, [], ◌∷◌, ◌++◌, ltb, ◌==◌,
  if◌then◌else◌, length, take, Bytes, codes,
}
use usp_agent_stomp.Text.Number.{print_unsigned, print_int}
use usp_agent_stomp.Stomp.RxBuf.{int_of_u32}

-- The loop over `src` with `dest_len` bytes left in the destination.
unfoldable pub escape_stomp_header : Bytes → ℕ → Bytes
escape_stomp_header [] dest_len = []
escape_stomp_header (c ∷ src) dest_len =
    if ltb 2 dest_len
    then if c == b':'
      then b'\\' ∷ b'c' ∷ escape_stomp_header src (dest_len - 2)
      else if c == b'\\'
      then b'\\' ∷ b'\\' ∷ escape_stomp_header src (dest_len - 2)
      else c ∷ escape_stomp_header src (dest_len - 1)
    else []

-- What snprintf leaves in a buffer of `size` bytes, its terminator not counted.
abbrev pub snprintf : ℕ → Bytes → Bytes
snprintf size text = take (size - 1) text

-- The arguments of the heart-beat header, for a buffer of 64 bytes.
unfoldable pub heartbeat_args : Bool → ℕ → ℕ → Bytes
heartbeat_args false outgoing incoming = []
heartbeat_args true outgoing incoming = snprintf 64 (
    codes "heart-beat:"
    ++ print_int (int_of_u32 outgoing)
    ++ b',' ∷ print_int (int_of_u32 incoming)
    ++ b'\n' ∷ [])

-- The login and passcode headers, for a buffer of 256 bytes.
unfoldable pub password_args : Option Bytes → Option Bytes → Bytes
password_args none password = []
password_args (some []) password = []
password_args (some (c ∷ s)) none = []
password_args (some (c ∷ s)) (some []) = []
password_args (some (c ∷ s)) (some (d ∷ t)) =
    snprintf 256 (codes "login:" ++ (c ∷ s) ++ codes "\npasscode:" ++ (d ∷ t) ++ codes "\n")

stomp_text : Bytes → Bytes → Bytes → Bytes → Bytes
stomp_text virtual_host heartbeats endpoint_id passwords =
    codes "STOMP\naccept-version:1.2\nhost:"
    ++ virtual_host
    ++ codes "\n"
    ++ heartbeats
    ++ codes "endpoint-id:"
    ++ endpoint_id
    ++ codes "\n"
    ++ passwords
    ++ codes "\n"

-- sizeof(STOMP_FRAME_FORMAT), its terminator counted
abbrev stomp_format_size : ℕ
stomp_format_size = length (codes "STOMP\naccept-version:1.2\nhost:%s\n%sendpoint-id:%s\n%s\n") + 1

-- `len` bytes written by snprintf, with the terminator and what was left unwritten as NUL bytes.
abbrev pub filled : ℕ → Bytes → Bytes
filled len text = snprintf len text ++ 0 ∷ []

-- The transmit buffer of StartSendingFrame_STOMP and its length.
unfoldable pub stomp_frame : Bytes → Bytes → Bytes → Bytes → Bytes × ℕ
unfolding stomp_text
stomp_frame virtual_host heartbeats endpoint_id passwords =
    let len =
      stomp_format_size
      + length virtual_host
      + length heartbeats
      + length endpoint_id
      + length passwords
      - 8 in
    (filled len (stomp_text virtual_host heartbeats endpoint_id passwords), len)

abbrev pub subscribe_format_size : ℕ
subscribe_format_size = length (codes "SUBSCRIBE\nid:0\ndestination:%s\nack:auto\n\n") + 1

pub subscribe_text : Bytes → Bytes
subscribe_text queue = codes "SUBSCRIBE\nid:0\ndestination:" ++ queue ++ codes "\nack:auto\n\n"

unfoldable pub subscribe_frame : Bytes → Bytes × ℕ
unfolding subscribe_text
subscribe_frame queue =
    let len = subscribe_format_size + length queue - 2 in (filled len (subscribe_text queue), len)

-- while (value > 0) { value = value / 10; body_len_count++; }, at most `fuel` rounds
pub count_digits : ℕ → ℕ → ℕ
count_digits zero value = 0
count_digits (suc fuel) value =
    let rest = suc (count_digits fuel (value / 10)) in if value == 0 then 0 else rest

abbrev pub send_format_size : ℕ
send_format_size =
    length (
      codes
        "SEND\ncontent-length:%d\ncontent-type:application/vnd.bbf.usp.msg\nreply-to-dest:%s\ndestination:%s")
    + 1

pub send_text : ℕ → Bytes → Bytes → Bytes
send_text body_len agent_queue controller_queue =
    codes "SEND\ncontent-length:"
    ++ print_unsigned body_len
    ++ codes "\ncontent-type:application/vnd.bbf.usp.msg\nreply-to-dest:"
    ++ agent_queue
    ++ codes "\ndestination:"
    ++ controller_queue

-- The separator and the body behind the header text, and a terminator as the last of `len` bytes.
unfoldable pub send_frame : Bytes → Bytes → Bytes → Bytes × ℕ
unfolding count_digits send_text
send_frame controller_queue agent_queue pbuf =
    let body_len = length pbuf in
    let len =
      send_format_size
      + count_digits body_len body_len
      + length agent_queue
      + length controller_queue
      - 6
      + 2
      + body_len in
    let header = snprintf len (send_text body_len agent_queue controller_queue) in
    (take (len - 1) (header ++ b'\n' ∷ b'\n' ∷ pbuf) ++ 0 ∷ [], len)
