-- ===== src/Stomp/Upkeep.antt =====
-- src/core/stomp.c: UpdateStompConnectionSockSet comes back.
use usp_agent_stomp.Common.{
  ℕ, ◌+◌, ◌≤◌, ◌<◌, ◌≡◌, refl, true, Option, none, some, List, [], ◌∷◌, arith, Bytes,
}
use usp_agent_stomp.Result.{ok, Returns, Returns->>=, Answers, Returns-try}
use usp_agent_stomp.Stomp.Types.{
  State, idle, sending_stomp_frame, awaiting_connected_frame, sending_subscribe_frame, running,
  retrying, Failure, server_not_present, misconfigured, other_error, RetryParams, SendItem, Conn,
}
use usp_agent_stomp.Stomp.Connection.{
  Env, Dial, unreachable, failed, connected, handle_stomp_socket_error, start_sending_frame_stomp,
  start_sending_frame_send, start_stomp_connection,
}
use usp_agent_stomp.Stomp.Transmit.{
  Request, load_next, sock_set_running, send_if_started, sock_set_by_state, check_handshake_timeout,
  update_stomp_connection_sock_set,
}
use usp_agent_stomp.Stomp.Invariant.{is_some}
use usp_agent_stomp.Stomp.Connection.Params.{
  allocate_string_if_changed_lem, copy_stomp_conn_params_from_next,
}

abbrev range_for : Env → ℕ → RetryParams → ℕ
range_for env count retry = env.retry_range count retry.initial_interval retry.interval_multiplier

-- The range of the wait time is not 0 for the next two attempts, with the parameters that the
-- connection was started with and with those configured for its next attempt.
abbrev pub HasRanges : Env → Conn → Type 0
HasRanges env sc =
    (count : ℕ)
    → sc.retry_count < count
    → count ≤ sc.retry_count + 2
    → (0 < range_for env count sc.params.retry)
      × (0 < range_for env count sc.next_conn_params.retry)

-- A connection that can fail once more, with a virtual host for its next attempt.
abbrev CanFail : Env → Conn → Type 0
CanFail env sc =
    (is_some sc.next_conn_params.virtual_host ≡ true)
    × (0 < range_for env (sc.retry_count + 1) sc.params.retry)
    × (0 < range_for env (sc.retry_count + 1) sc.next_conn_params.retry)

-- A virtual host is configured for the next attempt.
abbrev pub HasHost : Conn → Type 0
HasHost sc = is_some sc.next_conn_params.virtual_host ≡ true

abbrev HostOf : Conn × List Request → Type 0
HostOf r = HasHost r.0

error-HasHost :
    (env : Env) (sc : Conn) (cause : Failure)
    → 0 < range_for env (sc.retry_count + 1) sc.params.retry
    → HasHost sc
    → Returns HasHost (handle_stomp_socket_error env sc cause)
unfolding handle_stomp_socket_error
error-HasHost env sc cause p h = ground arith

error-CanFail :
    (env : Env) (sc : Conn) (cause : Failure)
    → HasRanges env sc
    → HasHost sc
    → Returns (CanFail env) (handle_stomp_socket_error env sc cause)
unfolding handle_stomp_socket_error
error-CanFail env sc cause p h = ground (
  arith,
  p (sc.retry_count + 1) (omega arith) (omega arith),
  p (sc.retry_count + 1 + 1) (omega arith) (omega arith),
)

check-CanFail :
    (env : Env) (sc : Conn)
    → HasRanges env sc
    → HasHost sc
    → Returns (CanFail env) (check_handshake_timeout env sc)
unfolding check_handshake_timeout
check-CanFail env sc p h = ground (
  arith,
  error-CanFail env sc server_not_present p h,
  p (sc.retry_count + 1) (omega arith) (omega arith),
)

start-HasHost :
    (env : Env) (dial : Dial) (sc : Conn)
    → 0 < range_for env (sc.retry_count + 1) sc.next_conn_params.retry
    → HasHost sc
    → Returns HasHost (start_stomp_connection env dial sc)
unfolding start_stomp_connection start_sending_frame_stomp copy_stomp_conn_params_from_next
start-HasHost env unreachable sc p h = error-HasHost env _ server_not_present p h
start-HasHost env failed sc p h = error-HasHost env _ other_error p h
start-HasHost env (connected link) sc p h =
    ground (
      arith,
      allocate_string_if_changed_lem sc.params.virtual_host sc.next_conn_params.virtual_host,
    )

load-HasHost :
    (sc : Conn) (frame : Option Bytes) (queue : List SendItem)
    → HasHost sc
    → sc.txframe ≡ frame
    → Answers HasHost (load_next sc frame queue)
unfolding load_next start_sending_frame_send
load-HasHost sc (some frame) queue h e = h
load-HasHost sc none [] h e = h
load-HasHost sc none (item ∷ queue) h e = ground arith

requests-HasHost :
    (env : Env) (dial : Dial) (sc : Conn) (st : State)
    → CanFail env sc
    → Returns HostOf (sock_set_by_state env dial sc st)
unfolding sock_set_by_state sock_set_running
requests-HasHost env dial sc idle (h, now, next) = h
requests-HasHost env dial sc sending_stomp_frame (h, now, next) = h
requests-HasHost env dial sc awaiting_connected_frame (h, now, next) = h
requests-HasHost env dial sc sending_subscribe_frame (h, now, next) = h
requests-HasHost env dial sc running (h, now, next) =
    Returns-try HasHost HostOf _ _ _ (load-HasHost sc sc.txframe sc.usp_record_send_queue h refl)
      (λ s u. u)
      (Returns->>= HasHost HostOf _ _ (error-HasHost env sc misconfigured now h) (λ s u. u))
requests-HasHost env dial sc retrying (h, now, next) = ground (
  arith,
  Returns->>= HasHost HostOf _
      (λ (started : Conn). ok (started, send_if_started started started.state))
      (start-HasHost env dial sc next h) (λ s u. u),
)

-- UpdateStompConnectionSockSet returns in every state of a connection that has a virtual host for
-- its next attempt, however that attempt ends, where the range of the wait time is not 0 for the
-- next two attempts, with the parameters in use and with those of the next attempt: no assertion of
-- a frame that is still being sent fails, and the virtual host stays.
pub update_sock_set-HasHost :
    (env : Env) (dial : Dial) (sc : Conn)
    → HasRanges env sc
    → HasHost sc
    → Returns (λ r. HasHost r.0) (update_stomp_connection_sock_set env dial sc)
unfolding update_stomp_connection_sock_set
update_sock_set-HasHost env dial sc p h =
    Returns->>= (CanFail env) HostOf _ (λ d. sock_set_by_state env dial d d.state)
      (check-CanFail env sc p h) (λ d u. requests-HasHost env dial d d.state u)
