-- ===== src/Stomp/Frame/Layout.antt =====
-- src/core/stomp.c: the bytes of the frames that StartSendingFrame_SUBSCRIBE and
-- StartSendingFrame_SEND write, and that their buffers have exactly the size of the text.
use usp_agent_stomp.Common.{
  ℕ, zero, suc, ◌+◌, ◌-◌, ◌/◌, ◌%◌, ◌<◌, ◌≡◌, ap, ap₂, ◌∙◌, [], ◌∷◌, ◌++◌, arith, length, take,
  length-append, take-all, Bytes, codes,
}
use usp_agent_stomp.Text.Number.{print_digits, print_unsigned}
use usp_agent_stomp.Stomp.Frame.{
  snprintf, filled, subscribe_text, subscribe_frame, count_digits, send_format_size, send_text,
  send_frame, stomp_frame,
}

length-print_digits :
    (fuel n : ℕ) (out : Bytes) → length (print_digits fuel n out) ≡ count_digits fuel n + length out
unfolding print_digits count_digits
length-print_digits zero n out = omega arith
length-print_digits (suc fuel) n out =
    ground (arith, length-print_digits fuel (n / 10) ((b'0' + n % 10) ∷ out))

length-print_unsigned : (n : ℕ) → 0 < n → length (print_unsigned n) ≡ count_digits n n
unfolding print_unsigned
length-print_unsigned n h = ground (arith, length-print_digits n n [])

length-send_text :
    (n : ℕ) (agent_queue controller_queue : Bytes)
    → 0 < n
    → length (send_text n agent_queue controller_queue) + 7
      ≡ send_format_size + count_digits n n + length agent_queue + length controller_queue
unfolding send_text
length-send_text n agent_queue controller_queue h =
    simp length-append (omega (arith, length-print_unsigned n h))

-- A text with its terminator, and the number of bytes of both.
abbrev pub terminated : Bytes → Bytes × ℕ
terminated text = (text ++ 0 ∷ [], length text + 1)

filled_exact :
    (len : ℕ) (text : Bytes) → len ≡ length text + 1 → (filled len text, len) ≡ terminated text
filled_exact len text e = ap₂ (λ s n. (s ++ 0 ∷ [], n)) (take-all (len - 1) text (omega arith)) e

separated_exact :
    (len : ℕ) (text body : Bytes)
    → len ≡ length text + length body + 3
    → (take (len - 1) (snprintf len text ++ b'\n' ∷ b'\n' ∷ body) ++ 0 ∷ [], len)
      ≡ terminated (text ++ b'\n' ∷ b'\n' ∷ body)
separated_exact len text body e =
    let cut = take-all (len - 1) text (omega arith) in
    let long : length (text ++ b'\n' ∷ b'\n' ∷ body) ≡ length text + length body + 2 =
      simp length-append (omega arith) in
    ap (λ s. (take (len - 1) (s ++ b'\n' ∷ b'\n' ∷ body) ++ 0 ∷ [], len)) cut
    ∙ ap₂ (λ s n. (s ++ 0 ∷ [], n))
        (take-all (len - 1) (text ++ b'\n' ∷ b'\n' ∷ body) (omega arith)) (omega arith)

-- The SEND frame of a record that is not empty is its headers, a blank line and the whole record,
-- with one NUL byte behind it, in a buffer of exactly that size: nothing is cut off.
pub send_frame_layout :
    (controller_queue agent_queue pbuf : Bytes)
    → 0 < length pbuf
    → send_frame controller_queue agent_queue pbuf
      ≡ terminated (send_text (length pbuf) agent_queue controller_queue ++ b'\n' ∷ b'\n' ∷ pbuf)
unfolding send_frame
send_frame_layout controller_queue agent_queue pbuf h =
    separated_exact _ (send_text (length pbuf) agent_queue controller_queue) pbuf
      (omega (arith, length-send_text (length pbuf) agent_queue controller_queue h))

-- The SUBSCRIBE frame is its text with one NUL byte behind it, in a buffer of exactly that size.
pub subscribe_frame_layout :
    (queue : Bytes) → subscribe_frame queue ≡ terminated (subscribe_text queue)
unfolding subscribe_frame subscribe_text
subscribe_frame_layout queue =
    filled_exact _ (subscribe_text queue) (simp length-append (omega arith))

-- The STOMP frame is its lines with one NUL byte behind them, in a buffer of exactly that size.
pub stomp_frame_layout :
    (virtual_host heartbeats endpoint_id passwords : Bytes)
    → stomp_frame virtual_host heartbeats endpoint_id passwords
      ≡ terminated (
          codes "STOMP\naccept-version:1.2\nhost:"
          ++ virtual_host
          ++ codes "\n"
          ++ heartbeats
          ++ codes "endpoint-id:"
          ++ endpoint_id
          ++ codes "\n"
          ++ passwords
          ++ codes "\n")
unfolding stomp_frame
stomp_frame_layout virtual_host heartbeats endpoint_id passwords =
    filled_exact _ _ (simp length-append (omega arith))
