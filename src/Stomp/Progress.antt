-- ===== src/Stomp/Progress.antt =====
-- src/core/stomp.c: the loop of ReceiveStompMessageInner ends.
use usp_agent_stomp.Common.{
  ℕ, zero, suc, ◌+◌, ◌-◌, ◌≤◌, ◌<◌, ◌≡◌, refl, ◌≢◌, ◌⊎◌, inr, false, Option, none, some, List, [],
  ◌++◌, arith, length, Bytes,
}
use usp_agent_stomp.Common.Int.{ℤ, pos, negsuc, pos_part}
use usp_agent_stomp.Result.{Result, ok, err, abort, out_of_fuel, ◌>>=◌, Ends, Ends->>=, Ends-try}
use usp_agent_stomp.Stomp.RxBuf.{RxBuf, remove_message_from_rx_buf, is_stomp_msg_complete}
use usp_agent_stomp.Stomp.Types.{
  State, idle, sending_stomp_frame, awaiting_connected_frame, sending_subscribe_frame, running,
  retrying, Failure, other_error, Conn,
}
use usp_agent_stomp.Stomp.Connection.{Env, handle_stomp_socket_error, start_sending_frame_subscribe}
use usp_agent_stomp.Stomp.Receive.{
  Event, Received, parse_connected_frame, handle_rx_msg_awaiting_connected_frame_state,
  post_usp_record, silent, handle_rx_msg_running_state, remove_handled, dispatch, buffer_of,
  handle_stomp_message, receive_next, receive_frames, append_bytes, receive_stomp_message_inner,
}

-- The bytes that wait in the buffer.
abbrev pending : RxBuf → ℕ
pending rx = elim rx.frame [ none ↦ 0 | some buf ↦ rx.msglen ]

abbrev Shorter : RxBuf → RxBuf × ℤ → Type 0
Shorter rx r = (pending r.0 ≤ pending rx) × (0 < pos_part r.1 → 0 < pending r.0)

remove_shortens :
    (rx : RxBuf) (n : ℕ) → Ends (λ r. pending r ≤ pending rx - n) (remove_message_from_rx_buf rx n)
unfolding remove_message_from_rx_buf
remove_shortens rx n = ground arith

complete_shortens :
    (strtoul : Bytes → ℕ × Bytes) (rx : RxBuf)
    → Ends (Shorter rx) (is_stomp_msg_complete strtoul rx)
unfolding is_stomp_msg_complete remove_message_from_rx_buf
complete_shortens strtoul rx = ground arith

-- What the handling of a frame leaves in the buffer, before the frame is removed.
abbrev SameLength : Conn → Conn × List Event → Type 0
SameLength sc r = (r.0.rx.frame ≡ none) ⊎ (r.0.rx.msglen ≡ sc.rx.msglen)

silent_error :
    (env : Env) (sc old : Conn) (cause : Failure)
    → Ends (SameLength old) (silent (handle_stomp_socket_error env sc cause))
unfolding handle_stomp_socket_error
silent_error env sc old cause = ground arith

post_same :
    (sc : Conn) (buf : Bytes) (n header_len : ℕ) (dest : Option Bytes)
    → Ends (SameLength sc) (post_usp_record sc buf n header_len dest)
unfolding post_usp_record
post_same sc buf n header_len dest = ground arith

awaiting_same :
    (env : Env) (sc : Conn) (buf : Bytes) (n : ℕ)
    → Ends (SameLength sc) (silent (handle_rx_msg_awaiting_connected_frame_state env sc buf n))
unfolding handle_rx_msg_awaiting_connected_frame_state parse_connected_frame
    start_sending_frame_subscribe handle_stomp_socket_error
awaiting_same env sc buf n = ground arith

running_same :
    (env : Env) (sc : Conn) (buf : Bytes) (n : ℕ)
    → Ends (SameLength sc) (handle_rx_msg_running_state env sc buf n)
unfolding handle_rx_msg_running_state
running_same env sc buf n = ground (arith, silent_error env sc sc other_error, post_same sc buf n)

dispatch_same :
    (env : Env) (sc : Conn) (state : State) (buf : Bytes) (n : ℕ)
    → Ends (SameLength sc) (dispatch env sc state buf n)
unfolding dispatch
dispatch_same env sc idle buf n = inr refl
dispatch_same env sc sending_stomp_frame buf n = inr refl
dispatch_same env sc awaiting_connected_frame buf n = awaiting_same env sc buf n
dispatch_same env sc sending_subscribe_frame buf n = inr refl
dispatch_same env sc running buf n = running_same env sc buf n
dispatch_same env sc retrying buf n = tt

abbrev IsLess : ℕ → Conn × List Event → Type 0
IsLess fuel r = pending r.0.rx < fuel

removed_shorter :
    (sc c : Conn) (n fuel : ℕ) (events : List Event)
    → 0 < n
    → 0 < pending sc.rx
    → pending sc.rx ≤ fuel
    → SameLength sc (c, events)
    → Ends (λ r. pending r.rx < fuel) (remove_handled c n)
unfolding remove_handled remove_message_from_rx_buf
removed_shorter sc c n fuel events pn pp le same = ground arith

message_shortens :
    (env : Env) (sc : Conn) (n fuel : ℕ)
    → 0 < n
    → 0 < pending sc.rx
    → pending sc.rx ≤ fuel
    → Ends (IsLess fuel) (handle_stomp_message env sc n)
unfolding handle_stomp_message
message_shortens env sc n fuel pn pp le =
    Ends->>= (SameLength sc) (IsLess fuel) _ _ (dispatch_same env sc sc.state (buffer_of sc.rx) n)
      (λ r same.
        Ends->>= (λ c. pending c.rx < fuel) (IsLess fuel) _ (λ c. ok (c, r.1))
          (removed_shorter sc r.0 n fuel r.1 pn pp le same) (λ c less. less))

abbrev Done : Received → Type 0
Done r = Unit

error-Done :
    (env : Env) (sc : Conn) (cause : Failure) (events : List Event)
    → Ends Done (
        handle_stomp_socket_error env sc cause
        >>= (λ dropped. ok (record { conn = dropped; events = events; status = false })))
unfolding handle_stomp_socket_error
error-Done env sc cause events = ground arith

next-Ends :
    (env : Env) (sc : Conn) (size : ℤ) (events : List Event) (fuel : ℕ)
    (more : Conn → List Event → Result Received)
    → (0 < pos_part size → 0 < pending sc.rx)
    → pending sc.rx ≤ fuel
    → ((c : Conn) (posted : List Event) → pending c.rx < fuel → Ends Done (more c posted))
    → Ends Done (receive_next env sc size events more)
unfolding receive_next
next-Ends env sc (pos zero) events fuel more h le k = tt
next-Ends env sc (negsuc n) events fuel more h le k = tt
next-Ends env sc (pos (suc n)) events fuel more h le k =
    Ends->>= (IsLess fuel) Done _ (λ r. more r.0 (events ++ r.1))
      (message_shortens env sc (suc n) fuel (omega arith) (h (omega arith)) le)
      (λ r less. k r.0 (events ++ r.1) less)

frames_end :
    (fuel : ℕ) (env : Env) (sc : Conn) (events : List Event)
    → pending sc.rx < fuel
    → Ends Done (receive_frames fuel env sc events)
unfolding receive_frames
frames_end zero env sc events lt = absurd (omega arith)
frames_end (suc fuel) env sc events lt =
    Ends-try (Shorter sc.rx) Done _ _ _ (complete_shortens env.strtoul sc.rx)
      (λ r s.
        next-Ends env (record sc { rx = r.0 }) r.1 events fuel (receive_frames fuel env) s.1
          (omega (arith, s.0)) (λ c posted less. frames_end fuel env c posted less))
      (error-Done env sc other_error events)

append_bound :
    (rx : RxBuf) (buf : Bytes) → pending (append_bytes rx buf) < rx.msglen + length buf + 1
unfolding append_bytes
append_bound rx buf = omega arith

inner-Ends :
    (env : Env) (sc : Conn) (buf : Bytes) → Ends Done (receive_stomp_message_inner env sc buf)
unfolding receive_stomp_message_inner
inner-Ends env sc buf = ground (
  arith,
  error-Done env sc other_error [],
  frames_end (sc.rx.msglen + length buf + 1) env (record sc { rx = append_bytes sc.rx buf }) []
      (append_bound sc.rx buf),
)

Done-ne : (r : Result Received) → Ends Done r → r ≢ out_of_fuel
Done-ne (ok a) h = λ e. cc
Done-ne (err x) h = λ e. cc
Done-ne abort h = λ e. cc
Done-ne out_of_fuel h = absurd h

-- ReceiveStompMessageInner leaves its loop on every input and in every state of the connection: a
-- frame that is handled leaves fewer bytes to handle, however the bytes are cut and whatever they
-- hold.
pub receive_stomp_message_inner-Ends :
    (env : Env) (sc : Conn) (buf : Bytes) → receive_stomp_message_inner env sc buf ≢ out_of_fuel
receive_stomp_message_inner-Ends env sc buf = Done-ne _ (inner-Ends env sc buf)
