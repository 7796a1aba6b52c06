-- ===== src/Tests/FrameRuns.antt =====
-- src/core/stomp.c: runs on concrete frames.
use usp_agent_stomp.Common.{◌≤◌, ◌≡◌, refl, none, some, [], ◌∷◌, ◌++◌, arith, codes}
use usp_agent_stomp.Common.Int.{pos, pos_part}
use usp_agent_stomp.Result.{Ensures, Returns}
use usp_agent_stomp.Text.Number.{has_char, string_to_unsigned_long, string_to_unsigned}
use usp_agent_stomp.Stomp.RxBuf.Header.{
  find_header_end, has_prefix, copy_value, get_stomp_header_value,
}
use usp_agent_stomp.Stomp.RxBuf.{
  RxBuf, shift, remove_message_from_rx_buf, count_newlines, remove_received_heart_beats,
  parse_content_length_header, store_frame_len, parse_stomp_headers, message_size, with_header,
  after_heart_beats, is_stomp_msg_complete,
}
use usp_agent_stomp.Stomp.Frame.{escape_stomp_header, send_text, send_frame}
use usp_agent_stomp.Stomp.Frame.Escape.{
  escaped_length, unescape_header, unescape_header-escape_stomp_header,
}
use usp_agent_stomp.Stomp.Frame.Layout.{terminated, send_frame_layout}
use usp_agent_stomp.Stomp.RxBuf.Framing.{NoBeat, is_stomp_msg_complete_fits}
use usp_agent_stomp.Tests.StompRuns.{digits_only, message}

abbrev unparsed : RxBuf
unparsed = record {
  frame = some message;
  msglen = 68;
  maxlen = 68;
  frame_len = pos 0;
  header_len = none;
}

no_beat : NoBeat unparsed
unfolding count_newlines
no_beat = refl

is_stomp_msg_complete_fits_example :
    Ensures (λ r. pos_part r.1 ≤ r.0.msglen) (is_stomp_msg_complete digits_only unparsed)
is_stomp_msg_complete_fits_example = is_stomp_msg_complete_fits digits_only unparsed no_beat

finds_blank_line : find_header_end (codes "A\n\nb") 0 none none ≡ some 3
unfolding find_header_end
finds_blank_line = refl

send_frame_layout_example :
    send_frame (codes "/queue/c") (codes "/queue/a") (10 ∷ 0 ∷ [])
    ≡ terminated (send_text 2 (codes "/queue/a") (codes "/queue/c") ++ b'\n' ∷ b'\n' ∷ 10 ∷ 0 ∷ [])
send_frame_layout_example =
    send_frame_layout (codes "/queue/c") (codes "/queue/a") (10 ∷ 0 ∷ []) (omega arith)

unescape_header-escape_stomp_header_example :
    unescape_header (escape_stomp_header (codes "a:b\\") 256) ≡ codes "a:b\\"
unfolding escaped_length
unescape_header-escape_stomp_header_example =
    unescape_header-escape_stomp_header (codes "a:b\\") 256 (omega arith)

-- A heartbeat before a frame of 69 bytes of which 68 have come: the size reported is 69, since the
-- heartbeat still counts, and the frame is taken to be whole.
abbrev beaten : RxBuf
beaten = record {
  frame = some (
      b'\n' ∷ codes "MESSAGE\ncontent-type:application/octet-stream\ncontent-length:4\n\n"
      ++ 10 ∷ 0 ∷ 20 ∷ 30 ∷ []);
  msglen = 69;
  maxlen = 69;
  frame_len = pos 0;
  header_len = none;
}

stale_size :
    Returns (λ r. (r.1 ≡ pos 69) × (r.0.msglen ≡ 68)) (is_stomp_msg_complete digits_only beaten)
unfolding is_stomp_msg_complete remove_received_heart_beats remove_message_from_rx_buf shift
    count_newlines after_heart_beats parse_stomp_headers parse_content_length_header store_frame_len
    with_header message_size find_header_end get_stomp_header_value has_prefix copy_value
    string_to_unsigned string_to_unsigned_long has_char
stale_size = (refl, refl)
