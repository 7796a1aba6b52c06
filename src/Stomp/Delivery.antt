-- ===== src/Stomp/Delivery.antt =====
-- src/core/stomp.c: which USP records TransmitStompMessage takes off the send queue, and when.
pub mod Pieces
use usp_agent_stomp.Common.{zero, suc, ◌+◌, ◌≤◌, ◌<◌, ◌≡◌, ◌⊎◌, inl, true, List, [], ◌∷◌, arith}
use usp_agent_stomp.Common.Int.{ℤ, pos, negsuc}
use usp_agent_stomp.Result.{ok, ◌>>=◌, Returns, Returns->>=}
use usp_agent_stomp.Stomp.Types.{Failure, server_not_present, other_error, SendItem, Conn}
use usp_agent_stomp.Stomp.Connection.{Env, handle_stomp_socket_error}
use usp_agent_stomp.Stomp.Receive.{Event}
use usp_agent_stomp.Stomp.Transmit.{transmit_stomp_message}
use usp_agent_stomp.Stomp.Invariant.{is_some, Inv}
use usp_agent_stomp.Stomp.Retry.{next_range, IsDropped, handle_stomp_socket_error_lem}

-- StompWrite sent the last bytes of the frame.
abbrev pub IsComplete : ℤ → Conn → Type 0
IsComplete (pos n) sc = (0 < n) × (sc.txframe_len ≤ sc.txframe_sent_count + n)
IsComplete (negsuc n) sc = ⊥

-- The queue is kept, or the whole frame of its first item is sent and that item removed.
abbrev pub IsDelivery : ℤ → Conn → Conn → Type 0
IsDelivery sent sc r =
    (r.usp_record_send_queue ≡ sc.usp_record_send_queue)
    ⊎ (IsComplete sent sc
        × (sc.txframe_contains_usp_record ≡ true)
        × ((item : SendItem) × (sc.usp_record_send_queue ≡ item ∷ r.usp_record_send_queue)))

abbrev pub DeliveryOf : ℤ → Conn → Conn × List Event → Type 0
DeliveryOf sent sc r = IsDelivery sent sc r.0

kept :
    (env : Env) (sc : Conn) (cause : Failure) (sent : ℤ)
    → 0 < next_range env sc
    → Returns
        (DeliveryOf sent sc)
        (handle_stomp_socket_error env sc cause >>= (λ dropped. ok (dropped, [])))
kept env sc cause sent h =
    Returns->>= (IsDropped env sc cause) (DeliveryOf sent sc) _ (λ dropped. ok (dropped, []))
      (handle_stomp_socket_error_lem env sc cause h) (λ d v. inl v.queue_kept)

-- TransmitStompMessage returns on every result of the write, for a connection that keeps the
-- invariant and has a frame to send, where the range of the wait time is not 0; it takes at most the
-- first item off the send queue, and only when the last byte of a frame with a USP record is out.
pub transmit_stomp_message_lem :
    (env : Env) (sent : ℤ) (sc : Conn)
    → Inv sc
    → is_some sc.txframe ≡ true
    → 0 < next_range env sc
    → Returns (DeliveryOf sent sc) (transmit_stomp_message env sent sc)
unfolding transmit_stomp_message
transmit_stomp_message_lem env (negsuc n) sc v f h = kept env sc other_error (negsuc n) h
transmit_stomp_message_lem env (pos zero) sc v f h = kept env sc server_not_present (pos 0) h
transmit_stomp_message_lem env (pos (suc n)) sc v f h = ground (arith, v.queued)
