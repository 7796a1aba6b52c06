-- ===== src/Stomp/Retry.antt =====
-- src/core/stomp.c: what HandleStompSocketError leaves of a connection.
use usp_agent_stomp.Common.{ℕ, ◌+◌, ◌≤◌, ◌<◌, ◌≡◌, none, arith}
use usp_agent_stomp.Result.{Returns}
use usp_agent_stomp.Stomp.Types.{retrying, Failure, Conn}
use usp_agent_stomp.Stomp.Connection.{Env, handle_stomp_socket_error}

-- The range that the wait time of the next attempt is drawn from.
abbrev pub next_range : Env → Conn → ℕ
next_range env sc =
    let retry = sc.params.retry in
    env.retry_range (sc.retry_count + 1) retry.initial_interval retry.interval_multiplier

-- A connection that waits for its next attempt after the failure of `sc` with cause `cause`.
pub record IsDropped (env : Env) (sc : Conn) (cause : Failure) (d : Conn) : Type 0 where
  pub retrying_now : d.state ≡ retrying
  pub cause_kept : d.failure_code ≡ cause
  pub counted : d.retry_count ≡ sc.retry_count + 1
  pub closed : d.socket_fd ≡ none
  pub no_buffer : d.rx.frame ≡ none
  pub no_frame : d.txframe ≡ none
  pub queue_kept : d.usp_record_send_queue ≡ sc.usp_record_send_queue
  pub not_before : env.now ≤ d.retry_time
  pub not_after : d.retry_time ≤ env.now + sc.params.retry.max_interval

-- HandleStompSocketError returns, where the range of the wait time is not 0: the connection is then
-- retrying with the cause recorded and one more retry counted, its socket and buffers are gone, its
-- send queue is kept, and the next attempt is at most the maximum interval away.
pub handle_stomp_socket_error_lem :
    (env : Env) (sc : Conn) (cause : Failure)
    → 0 < next_range env sc
    → Returns (IsDropped env sc cause) (handle_stomp_socket_error env sc cause)
unfolding handle_stomp_socket_error
handle_stomp_socket_error_lem env sc cause h = ground arith
