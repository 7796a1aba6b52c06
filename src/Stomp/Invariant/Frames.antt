-- ===== src/Stomp/Invariant/Frames.antt =====
-- src/core/stomp.c: received bytes keep the invariant of the connection.
use usp_agent_stomp.Common.{
  ℕ, zero, suc, ◌+◌, ◌≡◌, refl, inl, inr, false, Option, none, some, List, [], ◌∷◌, arith,
  Bool-cases, length, take, Bytes, codes,
}
use usp_agent_stomp.Common.Int.{ℤ, pos, negsuc}
use usp_agent_stomp.Result.{Result, ok, Ensures, Ensures->>=, Ensures-try}
use usp_agent_stomp.Stomp.RxBuf.Header.{is_frame}
use usp_agent_stomp.Stomp.RxBuf.{RxBuf, remove_message_from_rx_buf, is_stomp_msg_complete}
use usp_agent_stomp.Stomp.Types.{
  State, idle, sending_stomp_frame, awaiting_connected_frame, sending_subscribe_frame, running,
  retrying, server_not_present, authentication, misconfigured, other_error, Conn,
}
use usp_agent_stomp.Stomp.Connection.{Env, handle_stomp_socket_error, start_sending_frame_subscribe}
use usp_agent_stomp.Stomp.Receive.{
  Event, Received, parse_connected_frame, handle_rx_msg_awaiting_connected_frame_state,
  post_usp_record, silent, handle_rx_msg_running_state, remove_handled, dispatch, buffer_of,
  handle_stomp_message, receive_next, receive_frames, append_bytes, receive_stomp_message_inner,
}
use usp_agent_stomp.Stomp.Transmit.{receive_stomp_message}
use usp_agent_stomp.Stomp.Invariant.{is_down, Inv, error_keeps, InvOf}

-- What the subscribe frame is sent from.
abbrev Awaits : Conn → Type 0
Awaits sc = (sc.state ≡ awaiting_connected_frame) × (sc.txframe ≡ none)

parse_connected_frame-Awaits :
    (env : Env) (sc : Conn) (msg : Bytes) → Awaits sc → Awaits (parse_connected_frame env sc msg)
unfolding parse_connected_frame
parse_connected_frame-Awaits env sc msg v = ground arith

subscribe_keeps :
    (sc : Conn)
    → Awaits sc
    → Ensures
        (λ (s : Conn). Inv (record s { state = sending_subscribe_frame }))
        (start_sending_frame_subscribe sc)
unfolding start_sending_frame_subscribe
subscribe_keeps sc v = ground arith

awaiting_keeps :
    (env : Env) (sc : Conn) (buf : Bytes) (n : ℕ)
    → Awaits sc
    → Ensures Inv (handle_rx_msg_awaiting_connected_frame_state env sc buf n)
unfolding handle_rx_msg_awaiting_connected_frame_state
awaiting_keeps env sc buf n v = elim (Bool-cases (is_frame (codes "CONNECTED") buf)) [
  | inl e ↦
      let parsed = parse_connected_frame env sc (take n buf) in
      rw e (
        Ensures-try (λ (s : Conn). Inv (record s { state = sending_subscribe_frame })) Inv
          (start_sending_frame_subscribe parsed) _ _
          (subscribe_keeps parsed (parse_connected_frame-Awaits env sc (take n buf) v)) (λ s h. h)
          (error_keeps env parsed misconfigured))
  | inr e ↦ rw e (error_keeps env sc authentication)
]

silent_keeps : (r : Result Conn) → Ensures Inv r → Ensures InvOf (silent r)
silent_keeps r h = Ensures->>= Inv InvOf r _ h (λ s v. v)

post_keeps :
    (sc : Conn) (buf : Bytes) (n header_len : ℕ) (dest : Option Bytes)
    → Inv sc
    → sc.state ≡ running
    → Ensures InvOf (post_usp_record sc buf n header_len dest)
unfolding post_usp_record
post_keeps sc buf n header_len dest v e = ground arith

running_keeps :
    (env : Env) (sc : Conn) (buf : Bytes) (n : ℕ)
    → Inv sc
    → sc.state ≡ running
    → Ensures InvOf (handle_rx_msg_running_state env sc buf n)
unfolding handle_rx_msg_running_state
running_keeps env sc buf n v e = ground (
  arith,
  silent_keeps (handle_stomp_socket_error env sc other_error) (error_keeps env sc other_error),
  λ (h : ℕ) (d : Option Bytes). post_keeps sc buf n h d v e,
)

dispatch_keeps :
    (env : Env) (sc : Conn) (st : State) (buf : Bytes) (n : ℕ)
    → Inv sc
    → sc.state ≡ st
    → Ensures InvOf (dispatch env sc st buf n)
unfolding dispatch
dispatch_keeps env sc awaiting_connected_frame buf n v e =
    silent_keeps _ (awaiting_keeps env sc buf n (e, v.awaiting e))
dispatch_keeps env sc running buf n v e = running_keeps env sc buf n v e
dispatch_keeps env sc idle buf n v e = v
dispatch_keeps env sc sending_stomp_frame buf n v e = v
dispatch_keeps env sc sending_subscribe_frame buf n v e = v
dispatch_keeps env sc retrying buf n v e = tt

remove_handled_keeps : (sc : Conn) (n : ℕ) → Inv sc → Ensures Inv (remove_handled sc n)
unfolding remove_handled remove_message_from_rx_buf
remove_handled_keeps sc n v = ground arith

message_keeps :
    (env : Env) (sc : Conn) (n : ℕ) → Inv sc → Ensures InvOf (handle_stomp_message env sc n)
unfolding handle_stomp_message
message_keeps env sc n v =
    Ensures->>= InvOf InvOf _ _ (dispatch_keeps env sc sc.state (buffer_of sc.rx) n v refl)
      (λ r w. Ensures->>= Inv InvOf _ _ (remove_handled_keeps r.0 n w) (λ s u. u))

complete_keeps :
    (strtoul : Bytes → ℕ × Bytes) (rx : RxBuf)
    → Ensures
        (λ (r : RxBuf × ℤ). rx.frame ≡ none → r.0.frame ≡ none)
        (is_stomp_msg_complete strtoul rx)
unfolding is_stomp_msg_complete
complete_keeps strtoul rx = ground arith

with_rx-Inv :
    (sc : Conn) (rx : RxBuf)
    → Inv sc
    → (sc.rx.frame ≡ none → rx.frame ≡ none)
    → Inv (record sc { rx = rx })
with_rx-Inv sc rx v h = ground arith

abbrev InvOfReceived : Received → Type 0
InvOfReceived r = Inv r.conn

next_keeps :
    (env : Env) (sc : Conn) (size : ℤ) (events : List Event)
    (more : Conn → List Event → Result Received)
    → Inv sc
    → ((d : Conn) (l : List Event) → Inv d → Ensures InvOfReceived (more d l))
    → Ensures InvOfReceived (receive_next env sc size events more)
unfolding receive_next
next_keeps env sc (pos zero) events more v h = v
next_keeps env sc (negsuc n) events more v h = v
next_keeps env sc (pos (suc n)) events more v h =
    Ensures->>= InvOf InvOfReceived _ _ (message_keeps env sc (suc n) v) (λ r w. h r.0 _ w)

frames_keep :
    (fuel : ℕ) (env : Env) (sc : Conn) (events : List Event)
    → Inv sc
    → Ensures InvOfReceived (receive_frames fuel env sc events)
unfolding receive_frames
frames_keep zero env sc events v = tt
frames_keep (suc fuel) env sc events v =
    Ensures-try (λ (r : RxBuf × ℤ). sc.rx.frame ≡ none → r.0.frame ≡ none) InvOfReceived
      (is_stomp_msg_complete env.strtoul sc.rx) _ _ (complete_keeps env.strtoul sc.rx)
      (λ r h.
        next_keeps env (record sc { rx = r.0 }) r.1 events _ (with_rx-Inv sc r.0 v h)
          (λ d l u. frames_keep fuel env d l u))
      (Ensures->>= Inv InvOfReceived _ _ (error_keeps env sc other_error) (λ s u. u))

with_bytes-Inv :
    (sc : Conn) (rx : RxBuf) → Inv sc → is_down sc.state ≡ false → Inv (record sc { rx = rx })
with_bytes-Inv sc rx v up = ground arith

inner_keeps :
    (env : Env) (sc : Conn) (buf : Bytes)
    → Inv sc
    → is_down sc.state ≡ false
    → Ensures InvOfReceived (receive_stomp_message_inner env sc buf)
unfolding receive_stomp_message_inner
inner_keeps env sc buf v up = ground (
  arith,
  Ensures->>= Inv InvOfReceived _
      (λ dropped. ok (record { conn = dropped; events = []; status = false }))
      (error_keeps env sc other_error) (λ s u. u),
  frames_keep (sc.rx.msglen + length buf + 1) env (record sc { rx = append_bytes sc.rx buf }) []
      (with_bytes-Inv sc _ v up),
)

pub receive_keeps :
    (env : Env) (read : Option Bytes) (sc : Conn)
    → Inv sc
    → is_down sc.state ≡ false
    → Ensures InvOf (receive_stomp_message env read sc)
unfolding receive_stomp_message
receive_keeps env none sc v up =
    Ensures->>= Inv InvOf _ _ (error_keeps env sc other_error) (λ s u. u)
receive_keeps env (some []) sc v up =
    Ensures->>= Inv InvOf _ _ (error_keeps env sc server_not_present) (λ s u. u)
receive_keeps env (some (c ∷ s)) sc v up =
    Ensures->>= InvOfReceived InvOf _ _ (inner_keeps env sc (c ∷ s) v up) (λ r u. u)
