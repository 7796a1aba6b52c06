-- ===== src/Stomp/Connection.antt =====
-- src/core/stomp.c: InitStompConnection, StopStompConnection, HandleStompSocketError,
-- StartStompConnection, the StartSendingFrame functions and their helpers, on one connection.
pub mod Params
use usp_agent_stomp.Common.{
  ℕ, ◌+◌, ◌%◌, Bool, true, false, Option, none, some, [], ◌∷◌, ltb, leb, ◌==◌, if◌then◌else◌, Bytes,
}
use usp_agent_stomp.Common.Int.{ℤ}
use usp_agent_stomp.Result.{internal_error, Result, ok, err, abort, ◌>>=◌, ◌>>◌, assert}
use usp_agent_stomp.Stomp.RxBuf.{empty_rx}
use usp_agent_stomp.Stomp.Types.{
  idle, sending_stomp_frame, retrying, Failure, no_failure, server_not_present, authentication,
  misconfigured, other_error, SendItem, Conn,
}
use usp_agent_stomp.Stomp.Frame.{
  escape_stomp_header, heartbeat_args, password_args, stomp_frame, subscribe_frame, send_frame,
}
use Params.{copy_stomp_conn_params_from_next}

-- What one call reads from outside: the C library's number readers, the retry interval that the
-- source computes in floating point from the retry count, the initial interval and the multiplier,
-- the clock (which does not advance within a call), rand_r and the agent's endpoint id.
pub record Env : Type 0 where
  pub strtoul : Bytes → ℕ × Bytes
  pub scan_heart_beat : Bytes → Option (ℤ × ℤ)
  pub retry_range : ℕ → ℕ → ℕ → ℕ
  pub now : ℕ
  pub random : ℕ
  pub endpoint_id : Bytes

-- A connected socket, with what PerformStompSslConnect and the address queries found.
pub record Link : Type 0 where
  pub fd : ℕ
  pub ssl : Option ℕ
  pub cert_chain : Option ℕ
  pub role : ℕ
  pub allowed_controllers : Option Bytes
  pub mgmt_ip_addr : Bytes
  pub mgmt_if_name : Bytes

-- How the attempt to connect ends: `unreachable` where the source reports
-- kStompFailure_ServerNotPresent, `failed` where it keeps kStompFailure_OtherError.
pub data Dial : Type 0 where
  unreachable failed : Dial
  connected : Link → Dial

-- kCTrustRole_FullAccess, the value of ROLE_DEFAULT and of ROLE_NON_SSL
abbrev pub role_full_access : ℕ
role_full_access = 0

abbrev stomp_handshake_timeout : ℕ
stomp_handshake_timeout = 30

abbrev pub is_failure : Failure → Failure → Bool
is_failure no_failure no_failure = true
is_failure server_not_present server_not_present = true
is_failure authentication authentication = true
is_failure misconfigured misconfigured = true
is_failure other_error other_error = true
is_failure a b = false

unfoldable pub init_stomp_connection : ℕ → Conn → Conn
init_stomp_connection now sc = record sc {
  state = idle;
  retry_time = 0;
  stomp_handshake_timeout = now + stomp_handshake_timeout;
  socket_fd = none;
  ssl = none;
  cert_chain = none;
  subscribe_dest = none;
  heartbeat_period = 0;
  next_heartbeat_time = none;
  rx = empty_rx;
  txframe = none;
  txframe_len = 0;
  txframe_sent_count = 0;
  txframe_contains_usp_record = false;
  last_status_change = if is_failure sc.failure_code no_failure then now else sc.last_status_change;
  role = role_full_access;
  allowed_controllers = none;
}

unfoldable pub stop_stomp_connection : Conn → Bool → Conn
stop_stomp_connection sc purge_queued_messages = record sc {
  socket_fd = none;
  ssl = none;
  cert_chain = none;
  allowed_controllers = none;
  role = role_full_access;
  subscribe_dest = none;
  heartbeat_period = 0;
  next_heartbeat_time = none;
  mgmt_ip_addr = [];
  mgmt_if_name = [];
  rx = empty_rx;
  txframe = none;
  txframe_len = 0;
  txframe_sent_count = 0;
  usp_record_send_queue = if purge_queued_messages then [] else sc.usp_record_send_queue;
  state = idle;
}

-- `rand % range` traps where the range is 0.
pub calculate_stomp_retry_wait_time : Env → ℕ → ℕ → ℕ → Result ℕ
calculate_stomp_retry_wait_time env retry_count interval multiplier =
    let count = if leb retry_count 0 then 1 else retry_count in
    let range = env.retry_range count interval multiplier in
    if range == 0 then abort else ok (env.random % range)

-- The connection after the failure is noted and before the wait time is known.
abbrev dropped : Env → Conn → Failure → Conn
dropped env sc failure =
    let noted : Conn = record sc {
      last_status_change =
          if is_failure sc.failure_code failure then sc.last_status_change else env.now;
      failure_code = failure;
    } in
    record (stop_stomp_connection noted false) {
      state = retrying;
      retry_count = sc.retry_count + 1;
    }

unfoldable pub handle_stomp_socket_error : Env → Conn → Failure → Result Conn
unfolding stop_stomp_connection calculate_stomp_retry_wait_time
handle_stomp_socket_error env sc failure = do
  let retry = sc.params.retry
  wait_time ←
      calculate_stomp_retry_wait_time env (sc.retry_count + 1) retry.initial_interval
        retry.interval_multiplier
  let wait = if ltb retry.max_interval wait_time then retry.max_interval else wait_time
  ok (record (dropped env sc failure) { retry_time = env.now + wait })

-- The frame goes out from its first byte.
abbrev load_txframe : Conn → Bytes × ℕ → Bool → Conn
load_txframe sc frame contains_usp_record = record sc {
  txframe = some frame.0;
  txframe_len = frame.1;
  txframe_sent_count = 0;
  txframe_contains_usp_record = contains_usp_record;
}

-- USP_ASSERT(sc->txframe == NULL)
abbrev no_txframe : Conn → Bool
no_txframe sc = elim sc.txframe [ none ↦ true | some frame ↦ false ]

-- strlen(NULL) stops the process.
unfoldable pub start_sending_frame_stomp : Env → Conn → Result Conn
start_sending_frame_stomp env sc = elim sc.params.virtual_host [
  | none ↦ abort
  | some virtual_host ↦ do
    let p = sc.params
    let heartbeats =
        heartbeat_args p.enable_heartbeats p.outgoing_heartbeat_period p.incoming_heartbeat_period
    let endpoint_id = escape_stomp_header env.endpoint_id 256
    let passwords = password_args p.username p.password
    assert (no_txframe sc)
    ok (load_txframe sc (stomp_frame virtual_host heartbeats endpoint_id passwords) false)
]

-- The queue that the server named, or else the provisioned one.
abbrev pub own_queue : Conn → Option Bytes → Option Bytes
own_queue sc queue = elim sc.subscribe_dest [ some dest ↦ some dest | none ↦ queue ]

subscribe_to : Conn → Option Bytes → Result Conn
subscribe_to sc none = err internal_error
subscribe_to sc (some []) = err internal_error
subscribe_to sc (some (c ∷ s)) = do
  assert (no_txframe sc)
  ok (load_txframe sc (subscribe_frame (c ∷ s)) false)

unfoldable pub start_sending_frame_subscribe : Conn → Result Conn
unfolding subscribe_to
start_sending_frame_subscribe sc = subscribe_to sc (own_queue sc sc.provisionned_queue)

send_to : Conn → Option Bytes → Option Bytes → Bytes → Result Conn
send_to sc none agent_queue pbuf = err internal_error
send_to sc (some []) agent_queue pbuf = err internal_error
send_to sc (some (c ∷ s)) none pbuf = err internal_error
send_to sc (some (c ∷ s)) (some []) pbuf = err internal_error
send_to sc (some (c ∷ s)) (some (d ∷ t)) pbuf = do
  assert (no_txframe sc)
  ok (load_txframe sc (send_frame (c ∷ s) (d ∷ t) pbuf) true)

unfoldable pub start_sending_frame_send : Conn → SendItem → Result Conn
unfolding send_to
start_sending_frame_send sc item =
    send_to sc item.controller_queue (own_queue sc item.agent_queue) item.pbuf

abbrev pub with_link : Conn → Link → Conn
with_link sc link = record sc {
  socket_fd = some link.fd;
  ssl = if sc.params.enable_encryption then link.ssl else sc.ssl;
  cert_chain = if sc.params.enable_encryption then link.cert_chain else sc.cert_chain;
  role = if sc.params.enable_encryption then link.role else sc.role;
  allowed_controllers =
      if sc.params.enable_encryption then link.allowed_controllers else sc.allowed_controllers;
  mgmt_ip_addr = link.mgmt_ip_addr;
  mgmt_if_name = link.mgmt_if_name;
}

unfoldable pub start_stomp_connection : Env → Dial → Conn → Result Conn
unfolding copy_stomp_conn_params_from_next init_stomp_connection
start_stomp_connection env dial sc =
    let ready = init_stomp_connection env.now (copy_stomp_conn_params_from_next sc) in
    elim dial [
      | unreachable ↦ handle_stomp_socket_error env ready server_not_present
      | failed ↦ handle_stomp_socket_error env ready other_error
      | connected link ↦ do
        sending ← start_sending_frame_stomp env (with_link ready link)
        ok (record sending { state = sending_stomp_frame })
    ]

unfoldable pub update_next_heartbeat_time : ℕ → Conn → Conn
update_next_heartbeat_time now sc = record sc {
  next_heartbeat_time = if sc.heartbeat_period == 0 then none else some (now + sc.heartbeat_period);
}
