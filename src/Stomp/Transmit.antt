-- ===== src/Stomp/Transmit.antt =====
-- src/core/stomp.c: TransmitStompMessage, UpdateAgentHeartbeat and the per-connection halves of
-- the socket loop, UpdateStompConnectionSockSet and ProcessStompConnectionSocketActivity.
use usp_agent_stomp.Common.{
  ℕ, zero, suc, ◌+◌, ◌-◌, ◌*◌, Bool, true, false, ◌&&◌, Option, none, some, List, [], ◌∷◌, ◌++◌,
  ltb, leb, ◌==◌, if◌then◌else◌, Bytes,
}
use usp_agent_stomp.Common.Int.{ℤ, pos, negsuc}
use usp_agent_stomp.Result.{Result, ok, abort, ◌>>=◌, try}
use usp_agent_stomp.Stomp.Types.{
  State, idle, sending_stomp_frame, awaiting_connected_frame, sending_subscribe_frame, running,
  retrying, no_failure, server_not_present, misconfigured, other_error, SendItem, Conn,
}
use usp_agent_stomp.Stomp.Connection.{
  Env, Dial, handle_stomp_socket_error, start_sending_frame_send, start_stomp_connection,
  update_next_heartbeat_time,
}
use usp_agent_stomp.Stomp.Receive.{Event, handshake_complete, Received, receive_stomp_message_inner}

-- The item whose frame was sent leaves the queue; the source reads the queue's head unchecked.
unqueue_sent : Bool → List SendItem → Result (List SendItem)
unqueue_sent false queue = ok queue
unqueue_sent true [] = abort
unqueue_sent true (item ∷ queue) = ok queue

-- What the state makes of a frame that has been sent whole.
after_frame_sent : Env → Conn → State → Conn × List Event
after_frame_sent env sc sending_stomp_frame = (record sc { state = awaiting_connected_frame }, [])
after_frame_sent env sc sending_subscribe_frame = (
  record sc {
    state = running;
    failure_code = no_failure;
    last_status_change = env.now;
    retry_count = 0;
  },
  handshake_complete sc.params.instance_number sc.role sc.allowed_controllers ∷ [],
)
after_frame_sent env sc _ = (sc, [])

-- All of the frame is out.
finish_frame : Env → Conn → Result (Conn × List Event)
unfolding unqueue_sent after_frame_sent
finish_frame env sc = do
  queue ← unqueue_sent sc.txframe_contains_usp_record sc.usp_record_send_queue
  ok (
      after_frame_sent env
        (record sc { txframe = none; txframe_len = 0; usp_record_send_queue = queue }) sc.state)

-- StompWrite's result: below 0 for an error, 0 for a closed connection, else the bytes sent.
unfoldable pub transmit_stomp_message : Env → ℤ → Conn → Result (Conn × List Event)
unfolding finish_frame update_next_heartbeat_time
transmit_stomp_message env (negsuc n) sc =
    handle_stomp_socket_error env sc other_error >>= (λ dropped. ok (dropped, []))
transmit_stomp_message env (pos zero) sc =
    handle_stomp_socket_error env sc server_not_present >>= (λ dropped. ok (dropped, []))
transmit_stomp_message env (pos (suc n)) sc =
    let beat = update_next_heartbeat_time env.now sc in
    if ltb (sc.txframe_sent_count + suc n) sc.txframe_len
    then ok (record beat { txframe_sent_count = sc.txframe_sent_count + suc n }, [])
    else finish_frame env beat

beat_sent : Env → ℤ → Conn → Result Conn
unfolding update_next_heartbeat_time
beat_sent env (negsuc n) sc = handle_stomp_socket_error env sc other_error
beat_sent env (pos zero) sc = handle_stomp_socket_error env sc server_not_present
beat_sent env (pos (suc n)) sc = ok (update_next_heartbeat_time env.now sc)

-- `sent` is what StompWrite returns for the heartbeat byte.
unfoldable pub update_agent_heartbeat : Env → ℤ → Conn → Result Conn
unfolding beat_sent
update_agent_heartbeat env sent sc = elim sc.next_heartbeat_time [
  | none ↦ ok sc
  | some next ↦ if ltb env.now next then ok sc else beat_sent env sent sc
]

-- What is asked of the socket set: SOCKET_SET_AddSocketToSendTo, SOCKET_SET_AddSocketToReceiveFrom
-- and SOCKET_SET_UpdateTimeout, the timeout in milliseconds.
pub data Request : Type 0 where
  add_send : Option ℕ → ℕ → Request
  add_receive : Option ℕ → ℕ → Request
  update_timeout : ℕ → Request

pub calc_timeout_to_stomp_handshake_failure : ℕ → Conn → ℕ
calc_timeout_to_stomp_handshake_failure now sc = sc.stomp_handshake_timeout - now

abbrev is_handshaking : State → Bool
is_handshaking sending_stomp_frame = true
is_handshaking awaiting_connected_frame = true
is_handshaking sending_subscribe_frame = true
is_handshaking idle = false
is_handshaking running = false
is_handshaking retrying = false

abbrev running_timeout : ℕ → Option ℕ → ℕ
running_timeout now none = 3600
running_timeout now (some next) = next - now

-- The frame for the queue's head, where no frame is being sent. `none` after an error.
unfoldable pub load_next : Conn → Option Bytes → List SendItem → Result Conn
load_next sc (some frame) queue = ok sc
load_next sc none [] = ok sc
load_next sc none (item ∷ queue) = start_sending_frame_send sc item

unfoldable pub request_send : Conn → ℕ → List Request
request_send sc timeout = elim sc.txframe [
  | some frame ↦ add_send sc.socket_fd (timeout * 1000) ∷ []
  | none ↦ if timeout == 0 then add_send sc.socket_fd (timeout * 1000) ∷ [] else []
]

unfoldable pub sock_set_running : Env → Conn → Result (Conn × List Request)
unfolding load_next request_send
sock_set_running env sc =
    let timeout = running_timeout env.now sc.next_heartbeat_time in
    let receive = add_receive sc.socket_fd (timeout * 1000) in
    try (load_next sc sc.txframe sc.usp_record_send_queue)
      (λ loaded. ok (loaded, receive ∷ request_send loaded timeout))
      (handle_stomp_socket_error env sc misconfigured >>= (λ dropped. ok (dropped, receive ∷ [])))

abbrev pub send_if_started : Conn → State → List Request
send_if_started sc sending_stomp_frame = add_send sc.socket_fd 0 ∷ []
send_if_started sc idle = []
send_if_started sc awaiting_connected_frame = []
send_if_started sc sending_subscribe_frame = []
send_if_started sc running = []
send_if_started sc retrying = []

-- `dial` is how the new connection attempt of the retrying state ends.
unfoldable pub sock_set_by_state : Env → Dial → Conn → State → Result (Conn × List Request)
unfolding sock_set_running calc_timeout_to_stomp_handshake_failure
sock_set_by_state env dial sc idle = ok (sc, [])
sock_set_by_state env dial sc sending_stomp_frame =
    let timeout = calc_timeout_to_stomp_handshake_failure env.now sc in
    ok (sc, add_send sc.socket_fd (timeout * 1000) ∷ [])
sock_set_by_state env dial sc awaiting_connected_frame =
    let timeout = calc_timeout_to_stomp_handshake_failure env.now sc in
    ok (sc, add_receive sc.socket_fd (timeout * 1000) ∷ [])
sock_set_by_state env dial sc sending_subscribe_frame =
    let timeout = calc_timeout_to_stomp_handshake_failure env.now sc in
    ok (sc, add_send sc.socket_fd (timeout * 1000) ∷ [])
sock_set_by_state env dial sc running = sock_set_running env sc
sock_set_by_state env dial sc retrying =
    if leb sc.retry_time env.now
    then start_stomp_connection env dial sc
      >>= (λ started. ok (started, send_if_started started started.state))
    else ok (sc, update_timeout ((sc.retry_time - env.now) * 1000) ∷ [])

unfoldable pub check_handshake_timeout : Env → Conn → Result Conn
check_handshake_timeout env sc =
    if is_handshaking sc.state && leb sc.stomp_handshake_timeout env.now
    then handle_stomp_socket_error env sc server_not_present
    else ok sc

unfoldable pub update_stomp_connection_sock_set : Env → Dial → Conn → Result (Conn × List Request)
update_stomp_connection_sock_set env dial sc = do
  checked ← check_handshake_timeout env sc
  sock_set_by_state env dial checked checked.state

-- What select() and the socket calls report: readiness, the bytes of the read (`none` where the read
-- failed and no bytes where the peer has closed), and the result of the write.
pub record Activity : Type 0 where
  pub readable : Bool
  pub writable : Bool
  pub read : Option Bytes
  pub sent : ℤ

unfold_received : Result Received → Result (Conn × List Event)
unfold_received r = r >>= (λ received. ok (received.conn, received.events))

-- ReceiveStompMessage on a socket without encryption.
unfoldable pub receive_stomp_message : Env → Option Bytes → Conn → Result (Conn × List Event)
unfolding unfold_received
receive_stomp_message env none sc =
    handle_stomp_socket_error env sc other_error >>= (λ dropped. ok (dropped, []))
receive_stomp_message env (some []) sc =
    handle_stomp_socket_error env sc server_not_present >>= (λ dropped. ok (dropped, []))
receive_stomp_message env (some (c ∷ s)) sc =
    unfold_received (receive_stomp_message_inner env sc (c ∷ s))

-- The write half of the running state.
unfoldable pub write_running : Env → Activity → Conn → Result (Conn × List Event)
write_running env act sc = elim sc.txframe [
  | some frame ↦ transmit_stomp_message env act.sent sc
  | none ↦ update_agent_heartbeat env act.sent sc >>= (λ beat. ok (beat, []))
]

-- The read half of the running state.
unfoldable pub read_running : Env → Activity → Conn → Result (Conn × List Event)
read_running env act sc =
    if act.readable then receive_stomp_message env act.read sc else ok (sc, [])

-- The write half, unless the read has closed the socket.
unfoldable pub write_if_open : Env → Activity → Conn → Result (Conn × List Event)
write_if_open env act sc = elim sc.socket_fd [
  | none ↦ ok (sc, [])
  | some fd ↦ if act.writable then write_running env act sc else ok (sc, [])
]

unfoldable pub activity_running : Env → Activity → Conn → Result (Conn × List Event)
activity_running env act sc = do
  (sc1, posted) ← read_running env act sc
  (sc2, more) ← write_if_open env act sc1
  ok (sc2, posted ++ more)

unfoldable pub activity_by_state : Env → Activity → Conn → State → Result (Conn × List Event)
activity_by_state env act sc idle = ok (sc, [])
activity_by_state env act sc sending_stomp_frame =
    if act.writable then transmit_stomp_message env act.sent sc else ok (sc, [])
activity_by_state env act sc awaiting_connected_frame =
    if act.readable then receive_stomp_message env act.read sc else ok (sc, [])
activity_by_state env act sc sending_subscribe_frame =
    if act.writable
    then elim sc.txframe [ none ↦ abort | some frame ↦ transmit_stomp_message env act.sent sc ]
    else ok (sc, [])
activity_by_state env act sc running = activity_running env act sc
activity_by_state env act sc retrying = ok (sc, [])

unfoldable pub process_stomp_connection_socket_activity :
    Env → Activity → Conn → Result (Conn × List Event)
process_stomp_connection_socket_activity env act sc = activity_by_state env act sc sc.state
