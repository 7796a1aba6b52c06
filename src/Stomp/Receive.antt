-- ===== src/Stomp/Receive.antt =====
-- src/core/stomp.c: what happens to received bytes, from ReceiveStompMessageInner down.
use usp_agent_stomp.Common.{
  ℕ, zero, suc, ◌+◌, ◌-◌, ◌/◌, ◌%◌, Bool, true, false, not, ◌||◌, Option, none, some, List, [], ◌∷◌,
  ◌++◌, ltb, leb, ◌==◌, if◌then◌else◌, length, get_elem?, set, take, drop, Bytes, codes, str_eq,
}
use usp_agent_stomp.Common.Int.{ℤ, pos, negsuc}
use usp_agent_stomp.Result.{Result, ok, abort, out_of_fuel, ◌>>=◌, ◌>>◌, assert, try}
use usp_agent_stomp.Stomp.RxBuf.Header.{get_stomp_header_value, is_frame}
use usp_agent_stomp.Stomp.RxBuf.{
  RxBuf, max_usp_msg_len, remove_message_from_rx_buf, int_of_u32, is_stomp_msg_complete,
}
use usp_agent_stomp.Stomp.Types.{
  State, idle, sending_stomp_frame, awaiting_connected_frame, sending_subscribe_frame, running,
  retrying, authentication, misconfigured, other_error, Conn,
}
use usp_agent_stomp.Stomp.Connection.{Env, handle_stomp_socket_error, start_sending_frame_subscribe}

-- What the connection posts to the data model thread: DM_EXEC_PostStompHandshakeComplete and
-- DM_EXEC_PostUspRecord.
pub data Event : Type 0 where
  handshake_complete : Option ℕ → ℕ → Option Bytes → Event
  usp_record : Bytes → ℕ → Option Bytes → Option Bytes → Option ℕ → Event

-- A connection and the events posted so far; `status` is false where the source returns an error.
pub record Received : Type 0 where
  pub conn : Conn
  pub events : List Event
  pub status : Bool

-- The conversion of an `int` to `unsigned`.
abbrev u32_of_int : ℤ → ℕ
u32_of_int (pos n) = n % 4294967296
u32_of_int (negsuc n) = 4294967295 - n % 4294967296

abbrev seconds_of_period : ℤ → ℕ
seconds_of_period (pos period_ms) = if leb 1000 period_ms then period_ms / 1000 else 1
seconds_of_period (negsuc n) = 1

-- The negotiated period, from the source's `sy` in the heart-beat header of the CONNECTED frame.
-- MAX compares as unsigned, and its value is stored in an `int`.
unfoldable pub negotiate : Bool → ℕ → ℤ → ℕ
negotiate enable_heartbeats outgoing sy =
    let sy' = u32_of_int sy in
    if not enable_heartbeats || outgoing == 0 || sy' == 0
    then 0
    else seconds_of_period (int_of_u32 (if leb sy' outgoing then outgoing else sy'))

read_heart_beat : Env → Conn → Option Bytes → Conn
unfolding negotiate
read_heart_beat env sc none = sc
read_heart_beat env sc (some value) = elim (env.scan_heart_beat value) [
  | none ↦ sc
  | some (sx, sy) ↦ record sc {
    heartbeat_period = negotiate sc.params.enable_heartbeats sc.params.outgoing_heartbeat_period sy;
  }
]

read_subscribe_dest : Conn → Option Bytes → Conn
read_subscribe_dest sc none = sc
read_subscribe_dest sc (some value) = record sc { subscribe_dest = some value }

unfoldable pub parse_connected_frame : Env → Conn → Bytes → Conn
unfolding read_heart_beat read_subscribe_dest
parse_connected_frame env sc msg =
    let timed = read_heart_beat env sc (get_stomp_header_value (codes "heart-beat:") msg 256) in
    read_subscribe_dest timed (get_stomp_header_value (codes "subscribe-dest:") msg 256)

-- `buf` is the receive buffer and `msg_size` the size of the frame at its start.
unfoldable pub handle_rx_msg_awaiting_connected_frame_state : Env → Conn → Bytes → ℕ → Result Conn
unfolding parse_connected_frame
handle_rx_msg_awaiting_connected_frame_state env sc buf msg_size =
    let parsed = parse_connected_frame env sc (take msg_size buf) in
    if is_frame (codes "CONNECTED") buf
    then try (start_sending_frame_subscribe parsed)
        (λ sending. ok (record sending { state = sending_subscribe_frame }))
        (handle_stomp_socket_error env parsed misconfigured)
    else handle_stomp_socket_error env sc authentication

-- The content types that are accepted.
abbrev pub is_usp_content : Option Bytes → Bool
is_usp_content none = false
is_usp_content (some content_type) =
    str_eq content_type (codes "application/vnd.bbf.usp.msg")
    || str_eq content_type (codes "application/octet-stream")

abbrev pub is_byte_at : Bytes → ℕ → ℕ → Bool
is_byte_at buf i c = elim (get_elem? buf i) [ none ↦ false | some d ↦ d == c ]

-- The body handed on, once the header is known to be `header_len` bytes long. Where pbuf_len is
-- negative, the index of the NUL byte is one into the header, and the copy that
-- DM_EXEC_PostUspRecord makes cannot be allocated, which stops the process.
unfoldable pub post_usp_record : Conn → Bytes → ℕ → ℕ → Option Bytes → Result (Conn × List Event)
post_usp_record sc buf msg_size header_len stomp_dest = do
  assert (is_byte_at buf (msg_size - 1) 0)
  assert (is_byte_at buf (header_len - 2) b'\n')
  assert (leb (header_len + 1) msg_size)
  let body = take (msg_size - header_len - 1) (drop header_len buf)
  let marked = record sc.rx { frame = some (set buf (header_len - 2) 0) }
  let event = usp_record body sc.role sc.allowed_controllers stomp_dest sc.params.instance_number
  ok (record sc { rx = marked }, event ∷ [])

-- No events, as a failed frame posts none.
abbrev pub silent : Result Conn → Result (Conn × List Event)
silent r = r >>= λ sc. ok (sc, [])

-- In the running state the header of a whole frame has been found; the source would index with
-- INVALID otherwise.
unfoldable pub handle_rx_msg_running_state : Env → Conn → Bytes → ℕ → Result (Conn × List Event)
unfolding post_usp_record
handle_rx_msg_running_state env sc buf msg_size =
    let msg = take msg_size buf in
    let stomp_dest = get_stomp_header_value (codes "reply-to-dest:") msg 256 in
    let content_type = get_stomp_header_value (codes "content-type:") msg 64 in
    if not (is_frame (codes "MESSAGE") buf) || not (is_usp_content content_type)
    then silent (handle_stomp_socket_error env sc other_error)
    else elim sc.rx.header_len [
      | none ↦ abort
      | some header_len ↦
          if msg_size == header_len + 1
          then silent (handle_stomp_socket_error env sc other_error)
          else post_usp_record sc buf msg_size header_len stomp_dest
    ]

-- The frame is taken off the buffer, unless an error has freed it.
unfoldable pub remove_handled : Conn → ℕ → Result Conn
remove_handled sc msg_size = elim sc.rx.frame [
  | none ↦ ok sc
  | some buf ↦ do
    rx ← remove_message_from_rx_buf sc.rx msg_size
    ok (record sc { rx = record rx { frame_len = pos 0; header_len = none } })
]

-- What the state of the connection makes of the frame.
unfoldable pub dispatch : Env → Conn → State → Bytes → ℕ → Result (Conn × List Event)
dispatch env sc awaiting_connected_frame buf n =
    silent (handle_rx_msg_awaiting_connected_frame_state env sc buf n)
dispatch env sc running buf n = handle_rx_msg_running_state env sc buf n
dispatch env sc idle buf n = ok (sc, [])
dispatch env sc sending_stomp_frame buf n = ok (sc, [])
dispatch env sc sending_subscribe_frame buf n = ok (sc, [])
dispatch env sc retrying buf n = abort

abbrev pub buffer_of : RxBuf → Bytes
buffer_of rx = elim rx.frame [ none ↦ [] | some buf ↦ buf ]

unfoldable pub handle_stomp_message : Env → Conn → ℕ → Result (Conn × List Event)
handle_stomp_message env sc msg_size = do
  (handled, events) ← dispatch env sc sc.state (buffer_of sc.rx) msg_size
  removed ← remove_handled handled msg_size
  ok (removed, events)

-- One round of the loop: `more` is the rest of it.
unfoldable pub receive_next :
    Env → Conn → ℤ → List Event → (Conn → List Event → Result Received) → Result Received
receive_next env sc (pos zero) events more =
    ok (record { conn = sc; events = events; status = true })
receive_next env sc (negsuc n) events more =
    ok (record { conn = sc; events = events; status = true })
receive_next env sc (pos (suc n)) events more = do
  (handled, posted) ← handle_stomp_message env sc (suc n)
  more handled (events ++ posted)

-- The loop over the whole frames in the buffer, at most `fuel` of them.
unfoldable pub receive_frames : ℕ → Env → Conn → List Event → Result Received
receive_frames zero env sc events = out_of_fuel
receive_frames (suc fuel) env sc events =
    let rest = λ (c : Conn) (posted : List Event). receive_frames fuel env c posted in
    try (is_stomp_msg_complete env.strtoul sc.rx)
      (λ r. receive_next env (record sc { rx = r.0 }) r.1 events rest)
      (handle_stomp_socket_error env sc other_error
        >>= (λ dropped. ok (record { conn = dropped; events = events; status = false })))

-- The new bytes behind the received ones; the buffer grows where they do not fit.
unfoldable pub append_bytes : RxBuf → Bytes → RxBuf
append_bytes rx buf =
    let new_len = rx.msglen + length buf in
    let old = buffer_of rx in
    record rx {
      frame = some (take rx.msglen old ++ buf ++ drop new_len old);
      msglen = new_len;
      maxlen = if ltb rx.maxlen new_len then new_len else rx.maxlen;
    }

unfoldable pub receive_stomp_message_inner : Env → Conn → Bytes → Result Received
unfolding append_bytes
receive_stomp_message_inner env sc buf =
    let new_len = sc.rx.msglen + length buf in
    if length buf == 0
    then ok (record { conn = sc; events = []; status = true })
    else if ltb max_usp_msg_len new_len
    then handle_stomp_socket_error env sc other_error
      >>= (λ dropped. ok (record { conn = dropped; events = []; status = false }))
    else receive_frames (new_len + 1) env (record sc { rx = append_bytes sc.rx buf }) []
