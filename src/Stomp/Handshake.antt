-- ===== src/Stomp/Handshake.antt =====
-- src/core/stomp.c: the start of a connection, the negotiated heartbeat period and the records that
-- a connection hands on.
use usp_agent_stomp.Common.{
  ℕ, ◌||◌, Bool, if◌then◌else◌, ◌+◌, ◌-◌, ◌*◌, ◌≤◌, ◌<◌, max, ◌≡◌, refl, ◌⊎◌, true, false, Option,
  none, some, List, [], ◌∷◌, arith, get_elem?, take, drop, Bytes, codes, ◌++◌,
}
use usp_agent_stomp.Common.Int.{pos}
use usp_agent_stomp.Result.{Result, ok, err, abort, out_of_fuel, ◌>>=◌}
use usp_agent_stomp.Text.Number.{print_int}
use usp_agent_stomp.Stomp.RxBuf.{int_of_u32}
use usp_agent_stomp.Stomp.RxBuf.Header.{get_stomp_header_value, is_frame}
use usp_agent_stomp.Stomp.Types.{
  sending_stomp_frame, retrying, Failure, other_error, ConnParams, Conn,
}
use usp_agent_stomp.Stomp.Connection.{
  Env, Link, with_link, init_stomp_connection, handle_stomp_socket_error, start_sending_frame_stomp,
}
use usp_agent_stomp.Stomp.Receive.{
  Event, usp_record, negotiate, is_byte_at, post_usp_record, silent, handle_rx_msg_running_state,
}
use usp_agent_stomp.Stomp.Frame.{escape_stomp_header}
use usp_agent_stomp.Stomp.Frame.Layout.{terminated}
use usp_agent_stomp.Stomp.Retry.{next_range}

-- The text that a pointer leads to, and none for NULL.
abbrev pub text_of : Option Bytes → Bytes
text_of s = elim s [ none ↦ [] | some text ↦ text ]

abbrev pub is_blank : Bytes → Bool
is_blank [] = true
is_blank (c ∷ s) = false

-- The heart-beat line, where heartbeats are on: what the agent can send, and what it wants; at most 63
-- bytes.
pub heartbeat_line : ConnParams → Bytes
heartbeat_line p =
    if p.enable_heartbeats
    then take 63 (
        codes "heart-beat:"
        ++ print_int (int_of_u32 p.outgoing_heartbeat_period)
        ++ b',' ∷ print_int (int_of_u32 p.incoming_heartbeat_period)
        ++ codes "\n")
    else []

-- The lines of the user name and the password, where neither is empty; at most 255 bytes.
pub credential_lines : ConnParams → Bytes
credential_lines p =
    let missing = (is_blank (text_of p.username)) || (is_blank (text_of p.password)) in
    if missing
    then []
    else take 255 (
        codes "login:"
        ++ text_of p.username
        ++ codes "\npasscode:"
        ++ text_of p.password
        ++ codes "\n")

-- The lines of a STOMP frame.
abbrev lines_with : Env → Bytes → Bytes → Bytes → Bytes
lines_with env virtual_host heartbeats credentials =
    codes "STOMP\naccept-version:1.2\nhost:"
    ++ virtual_host
    ++ codes "\n"
    ++ heartbeats
    ++ codes "endpoint-id:"
    ++ escape_stomp_header env.endpoint_id 256
    ++ codes "\n"
    ++ credentials
    ++ codes "\n"

-- The lines of the STOMP frame for the parameters `p`: the host, the heartbeats where they are on, the
-- agent's endpoint, the user name and the password where they are set, and a blank line.
abbrev pub stomp_lines : Env → ConnParams → Bytes → Bytes
stomp_lines env p virtual_host =
    codes "STOMP\naccept-version:1.2\nhost:"
    ++ virtual_host
    ++ codes "\n"
    ++ heartbeat_line p
    ++ codes "endpoint-id:"
    ++ escape_stomp_header env.endpoint_id 256
    ++ codes "\n"
    ++ credential_lines p
    ++ codes "\n"

-- A connection whose STOMP frame is ready to be sent over `link`.
pub record IsStarted (env : Env) (sc : Conn) (link : Link) (d : Conn) : Type 0 where
  pub sending_first : d.state ≡ sending_stomp_frame
  pub opened : d.socket_fd ≡ some link.fd
  pub deadline : d.stomp_handshake_timeout ≡ env.now + 30
  pub virtual_host : Bytes
  pub has_host : sc.next_conn_params.virtual_host ≡ some virtual_host
  pub loaded : d.txframe ≡ some (terminated (stomp_lines env sc.next_conn_params virtual_host)).0
  pub whole : d.txframe_len ≡ (terminated (stomp_lines env sc.next_conn_params virtual_host)).1
  pub from_start : d.txframe_sent_count ≡ 0
  pub is_control : d.txframe_contains_usp_record ≡ false
  pub beats_off : d.next_heartbeat_time ≡ none
  pub queue_kept : d.usp_record_send_queue ≡ sc.usp_record_send_queue
  pub configured : d.params ≡ record sc.next_conn_params { enable = sc.params.enable }
  pub configured_queue : d.provisionned_queue ≡ sc.next_provisionned_queue
  pub retries_kept : d.retry_count ≡ sc.retry_count

-- The end of StartStompConnection, once the parameters have been taken over.
abbrev started_with : Env → Link → Conn → Result Conn
started_with env link copied =
    start_sending_frame_stomp env (with_link (init_stomp_connection env.now copied) link)
    >>= (λ sending. ok (record sending { state = sending_stomp_frame }))

-- A period in seconds for one in milliseconds: whole seconds, rounded down, but at least one.
abbrev pub IsSeconds : ℕ → ℕ → Type 0
IsSeconds ms period =
    (1 ≤ period) × (ms < (period + 1) * 1000) × ((period * 1000 ≤ ms) ⊎ (ms < 1000))

-- With heartbeats on at both ends, and periods in milliseconds that an `int` holds, the negotiated
-- period is the longer of the two in seconds, rounded down, and at least one second.
pub negotiate_lem :
    (outgoing sy : ℕ)
    → 0 < outgoing
    → 0 < sy
    → outgoing < 2147483648
    → sy < 2147483648
    → IsSeconds (max outgoing sy) (negotiate true outgoing (pos sy))
unfolding negotiate
negotiate_lem outgoing sy ho hs lo ls = ground arith

-- The one event of a record handed on, its body the bytes between the blank line and the NUL byte.
abbrev pub Posted : Conn → Bytes → ℕ → ℕ → Conn × List Event → Type 0
Posted sc buf n header_len r =
    (r.0.state ≡ sc.state)
    × (r.1
        ≡ usp_record (take (n - header_len - 1) (drop header_len buf)) sc.role
            sc.allowed_controllers
            (get_stomp_header_value (codes "reply-to-dest:") (take n buf) 256)
            sc.params.instance_number
          ∷ [])
    × (get_elem? buf (n - 1) ≡ some 0)
    × (is_frame (codes "MESSAGE") buf ≡ true)

-- What stops the process on such a frame: its last byte is not NUL, the byte two before its body is
-- not LF, its size is less than that of its header, or the range of the wait time is 0.
abbrev pub StopsOn : Env → Conn → Bytes → ℕ → ℕ → Type 0
StopsOn env sc buf n header_len =
    ((is_byte_at buf (n - 1) 0 ≡ false) ⊎ (is_byte_at buf (header_len - 2) b'\n' ≡ false))
    ⊎ ((n < header_len + 1) ⊎ (next_range env sc ≡ 0))

-- The function returns a value with the property, or stops the process for a reason.
abbrev pub ReturnsOrStops : {A : Type 0} → (A → Type 0) → Type 0 → Result A → Type 0
ReturnsOrStops P reason (ok a) = P a
ReturnsOrStops P reason (err e) = ⊥
ReturnsOrStops P reason abort = reason
ReturnsOrStops P reason out_of_fuel = ⊥

abbrev pub Refused : Conn × List Event → Type 0
Refused r = (r.0.state ≡ retrying) × (r.1 ≡ [])

refused :
    (env : Env) (sc : Conn) (cause : Failure)
    → ReturnsOrStops Refused
        (next_range env sc ≡ 0)
        (silent (handle_stomp_socket_error env sc cause))
unfolding handle_stomp_socket_error
refused env sc cause = ground arith

posted :
    (env : Env) (sc : Conn) (buf : Bytes) (n header_len : ℕ) (stomp_dest : Option Bytes)
    → stomp_dest ≡ get_stomp_header_value (codes "reply-to-dest:") (take n buf) 256
    → is_frame (codes "MESSAGE") buf ≡ true
    → ReturnsOrStops
        (Posted sc buf n header_len)
        (StopsOn env sc buf n header_len)
        (post_usp_record sc buf n header_len stomp_dest)
unfolding post_usp_record
posted env sc buf n header_len stomp_dest e h = ground arith

-- On a frame of `n` bytes with a header of `header_len`, HandleRxMsg_RunningState either drops the
-- connection and hands on nothing, or the frame is a MESSAGE frame that ends in a NUL byte, and
-- exactly its body is handed on, once, with the role of the connection; or it stops the process,
-- which it does only where the frame does not end in NUL, the byte two before its body is not LF,
-- its size is less than that of its header, or the range of the wait time is 0.
pub handle_rx_msg_running_state_lem :
    (env : Env) (sc : Conn) (buf : Bytes) (n header_len : ℕ)
    → sc.rx.header_len ≡ some header_len
    → ReturnsOrStops
        (λ r. Refused r ⊎ Posted sc buf n header_len r)
        (StopsOn env sc buf n header_len)
        (handle_rx_msg_running_state env sc buf n)
unfolding handle_rx_msg_running_state
handle_rx_msg_running_state_lem env sc buf n header_len e = ground (
  arith,
  refused env sc other_error,
  posted env sc buf n header_len (get_stomp_header_value (codes "reply-to-dest:") (take n buf) 256)
      refl,
)
