-- ===== src/Stomp/Invariant/SocketLoop.antt =====
-- src/core/stomp.c: the two halves of the socket loop keep the invariant of the connection.
use usp_agent_stomp.Common.{
  zero, suc, ◌≡◌, refl, false, Option, none, some, List, [], ◌∷◌, arith, Bytes,
}
use usp_agent_stomp.Common.Int.{ℤ, pos, negsuc}
use usp_agent_stomp.Result.{ok, Ensures, Ensures->>=, Ensures-try}
use usp_agent_stomp.Stomp.Types.{
  State, idle, sending_stomp_frame, awaiting_connected_frame, sending_subscribe_frame, running,
  retrying, server_not_present, misconfigured, other_error, SendItem, Conn,
}
use usp_agent_stomp.Stomp.Connection.{Env, Dial, start_sending_frame_send}
use usp_agent_stomp.Stomp.Transmit.{
  update_agent_heartbeat, Request, load_next, send_if_started, sock_set_by_state,
  check_handshake_timeout, update_stomp_connection_sock_set, Activity, write_running, read_running,
  write_if_open, activity_running, activity_by_state, process_stomp_connection_socket_activity,
}
use usp_agent_stomp.Stomp.Invariant.{is_down, Inv, error_keeps, InvOf, transmit_keeps, start_keeps}
use usp_agent_stomp.Stomp.Invariant.Frames.{receive_keeps}

heartbeat_keeps :
    (env : Env) (sent : ℤ) (sc : Conn) → Inv sc → Ensures Inv (update_agent_heartbeat env sent sc)
unfolding update_agent_heartbeat
heartbeat_keeps env (negsuc n) sc v = ground (arith, error_keeps env sc other_error)
heartbeat_keeps env (pos zero) sc v = ground (arith, error_keeps env sc server_not_present)
heartbeat_keeps env (pos (suc n)) sc v = ground arith

write_keeps :
    (env : Env) (act : Activity) (sc : Conn) → Inv sc → Ensures InvOf (write_running env act sc)
unfolding write_running
write_keeps env act sc v = ground (
  arith,
  transmit_keeps env act.sent sc v,
  Ensures->>= Inv InvOf _ (λ (beat : Conn). ok (beat, [])) (heartbeat_keeps env act.sent sc v)
      (λ s u. u),
)

read_keeps :
    (env : Env) (act : Activity) (sc : Conn)
    → Inv sc
    → is_down sc.state ≡ false
    → Ensures InvOf (read_running env act sc)
unfolding read_running
read_keeps env act sc v up = ground (arith, receive_keeps env act.read sc v up)

then_write_keeps :
    (env : Env) (act : Activity) (sc : Conn) → Inv sc → Ensures InvOf (write_if_open env act sc)
unfolding write_if_open
then_write_keeps env act sc v = ground (arith, write_keeps env act sc v)

running_keeps :
    (env : Env) (act : Activity) (sc : Conn)
    → Inv sc
    → is_down sc.state ≡ false
    → Ensures InvOf (activity_running env act sc)
unfolding activity_running
running_keeps env act sc v up =
    Ensures->>= InvOf InvOf _ _ (read_keeps env act sc v up)
      (λ r w. Ensures->>= InvOf InvOf _ _ (then_write_keeps env act r.0 w) (λ q u. u))

state_keeps :
    (env : Env) (act : Activity) (sc : Conn) (st : State)
    → Inv sc
    → sc.state ≡ st
    → Ensures InvOf (activity_by_state env act sc st)
unfolding activity_by_state
state_keeps env act sc idle v e = v
state_keeps env act sc retrying v e = v
state_keeps env act sc sending_stomp_frame v e = ground (arith, transmit_keeps env act.sent sc v)
state_keeps env act sc awaiting_connected_frame v e =
    ground (arith, receive_keeps env act.read sc v (ground arith))
state_keeps env act sc sending_subscribe_frame v e =
    ground (arith, transmit_keeps env act.sent sc v)
state_keeps env act sc running v e = running_keeps env act sc v (ground arith)

pub activity_keeps :
    (env : Env) (act : Activity) (sc : Conn)
    → Inv sc
    → Ensures InvOf (process_stomp_connection_socket_activity env act sc)
unfolding process_stomp_connection_socket_activity
activity_keeps env act sc v = state_keeps env act sc sc.state v refl

abbrev pub InvOfRequested : Conn × List Request → Type 0
InvOfRequested r = Inv r.0

load_keeps :
    (sc : Conn) (frame : Option Bytes) (queue : List SendItem)
    → Inv sc
    → sc.state ≡ running
    → sc.txframe ≡ frame
    → sc.usp_record_send_queue ≡ queue
    → Ensures Inv (load_next sc frame queue)
unfolding load_next start_sending_frame_send
load_keeps sc (some frame) queue v s e q = v
load_keeps sc none [] v s e q = v
load_keeps sc none (item ∷ queue) v s e q = ground arith

requests_keep :
    (env : Env) (dial : Dial) (sc : Conn) (st : State)
    → Inv sc
    → sc.state ≡ st
    → Ensures InvOfRequested (sock_set_by_state env dial sc st)
unfolding sock_set_by_state
requests_keep env dial sc idle v e = v
requests_keep env dial sc sending_stomp_frame v e = v
requests_keep env dial sc awaiting_connected_frame v e = v
requests_keep env dial sc sending_subscribe_frame v e = v
requests_keep env dial sc running v e =
    Ensures-try Inv InvOfRequested _ _ _ (load_keeps sc _ _ v e refl refl) (λ s u. u)
      (Ensures->>= Inv InvOfRequested _ _ (error_keeps env sc misconfigured) (λ s u. u))
requests_keep env dial sc retrying v e = ground (
  arith,
  Ensures->>= Inv InvOfRequested _
      (λ (started : Conn). ok (started, send_if_started started started.state))
      (start_keeps env dial sc) (λ s u. u),
)

timeout_keeps : (env : Env) (sc : Conn) → Inv sc → Ensures Inv (check_handshake_timeout env sc)
unfolding check_handshake_timeout
timeout_keeps env sc v = ground (arith, error_keeps env sc server_not_present)

pub sock_set_keeps :
    (env : Env) (dial : Dial) (sc : Conn)
    → Inv sc
    → Ensures InvOfRequested (update_stomp_connection_sock_set env dial sc)
unfolding update_stomp_connection_sock_set
sock_set_keeps env dial sc v =
    Ensures->>= Inv InvOfRequested _ _ (timeout_keeps env sc v)
      (λ s u. requests_keep env dial s s.state u refl)
