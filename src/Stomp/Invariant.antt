-- ===== src/Stomp/Invariant.antt =====
-- src/core/stomp.c: what holds of a connection between any two calls.
pub mod Frames
pub mod SocketLoop
pub mod Calls
pub mod Rounds
pub mod Reach
use usp_agent_stomp.Common.{
  zero, suc, ◌≡◌, Bool, true, false, Option, none, some, List, [], ◌∷◌, arith,
}
use usp_agent_stomp.Common.Int.{ℤ, pos, negsuc}
use usp_agent_stomp.Result.{Ensures, Ensures->>=}
use usp_agent_stomp.Stomp.Types.{
  State, idle, sending_stomp_frame, awaiting_connected_frame, sending_subscribe_frame, running,
  retrying, Failure, no_failure, server_not_present, other_error, Conn,
}
use usp_agent_stomp.Stomp.Connection.{
  Env, Dial, unreachable, failed, connected, handle_stomp_socket_error, start_sending_frame_stomp,
  start_stomp_connection,
}
use usp_agent_stomp.Stomp.Receive.{Event}
use usp_agent_stomp.Stomp.Transmit.{transmit_stomp_message}

-- The states in which there is no connection to the server.
abbrev pub is_down : State → Bool
is_down idle = true
is_down retrying = true
is_down sending_stomp_frame = false
is_down awaiting_connected_frame = false
is_down sending_subscribe_frame = false
is_down running = false

abbrev pub is_running : State → Bool
is_running running = true
is_running idle = false
is_running retrying = false
is_running sending_stomp_frame = false
is_running awaiting_connected_frame = false
is_running sending_subscribe_frame = false

abbrev pub is_sending : State → Bool
is_sending sending_stomp_frame = true
is_sending sending_subscribe_frame = true
is_sending idle = false
is_sending retrying = false
is_sending awaiting_connected_frame = false
is_sending running = false

abbrev pub is_some {ℓ} : {A : Type ℓ} → Option A → Bool
is_some none = false
is_some (some a) = true

abbrev pub is_cons {ℓ} : {A : Type ℓ} → List A → Bool
is_cons [] = false
is_cons (a ∷ l) = true

pub record Inv (sc : Conn) : Type 0 where
  pub healthy : is_running sc.state ≡ true → sc.failure_code ≡ no_failure
  pub unconnected : is_down sc.state ≡ true → sc.rx.frame ≡ none
  pub unsent : is_down sc.state ≡ true → sc.txframe ≡ none
  pub sending : is_sending sc.state ≡ true → is_some sc.txframe ≡ true
  pub awaiting : sc.state ≡ awaiting_connected_frame → sc.txframe ≡ none
  pub queued :
      is_some sc.txframe ≡ true
      → sc.txframe_contains_usp_record ≡ true
      → is_cons sc.usp_record_send_queue ≡ true

pub error_keeps :
    (env : Env) (sc : Conn) (cause : Failure) → Ensures Inv (handle_stomp_socket_error env sc cause)
unfolding handle_stomp_socket_error
error_keeps env sc cause = ground arith

abbrev pub InvOf : Conn × List Event → Type 0
InvOf r = Inv r.0

pub transmit_keeps :
    (env : Env) (sent : ℤ) (sc : Conn) → Inv sc → Ensures InvOf (transmit_stomp_message env sent sc)
unfolding transmit_stomp_message
transmit_keeps env (negsuc n) sc v =
    Ensures->>= Inv InvOf _ _ (error_keeps env sc other_error) (λ a h. h)
transmit_keeps env (pos zero) sc v =
    Ensures->>= Inv InvOf _ _ (error_keeps env sc server_not_present) (λ a h. h)
transmit_keeps env (pos (suc n)) sc v = ground arith

pub start_keeps :
    (env : Env) (dial : Dial) (sc : Conn) → Ensures Inv (start_stomp_connection env dial sc)
unfolding start_stomp_connection start_sending_frame_stomp
start_keeps env unreachable sc = error_keeps env _ server_not_present
start_keeps env failed sc = error_keeps env _ other_error
start_keeps env (connected link) sc = ground arith
