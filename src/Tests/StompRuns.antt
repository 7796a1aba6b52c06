-- ===== src/Tests/StompRuns.antt =====
-- src/core/stomp.c: runs on concrete connections.
use usp_agent_stomp.Common.{
  ℕ, ◌-◌, ◌*◌, ◌/◌, ◌^◌, ◌<◌, ◌≤◌, ◌≡◌, refl, ◌≢◌, ◌⊎◌, inl, inr, true, false, none, some, List, [],
  ◌∷◌, ◌++◌, arith, Bytes, codes,
}
use usp_agent_stomp.Common.Int.{pos}
use usp_agent_stomp.Result.{abort, out_of_fuel, Ensures, Returns}
use usp_agent_stomp.Text.Number.{decimal_value}
use usp_agent_stomp.Stomp.Types.{running, other_error, ConnParams, SendItem, Conn}
use usp_agent_stomp.Stomp.Connection.{
  Env, Link, connected, handle_stomp_socket_error, start_sending_frame_stomp,
  start_stomp_connection,
}
use usp_agent_stomp.Stomp.Receive.{handle_rx_msg_running_state, receive_stomp_message_inner}
use usp_agent_stomp.Stomp.Transmit.{transmit_stomp_message, update_stomp_connection_sock_set}
use usp_agent_stomp.Stomp.Table.{
  Stomp, find_stomp_conn_by_inst, with_conn, queue_conn, stomp_queue_binary_message, enable_conn,
  stomp_enable_connection, stomp_disable_connection, stomp_activate_scheduled_actions,
}
use usp_agent_stomp.Stomp.Invariant.{Inv}
use usp_agent_stomp.Stomp.Calls.{Call, queues, enables, disables, activates, call, run}
use usp_agent_stomp.Stomp.Connection.Params.{
  allocate_string_if_changed, copy_stomp_conn_params_to_next, copy_stomp_conn_params_from_next,
}
use usp_agent_stomp.Stomp.Delivery.{DeliveryOf, transmit_stomp_message_lem}
use usp_agent_stomp.Stomp.Delivery.Pieces.{transmit_all, IsSent, transmit_all_lem}
use usp_agent_stomp.Stomp.Handshake.{
  Posted, Refused, StopsOn, ReturnsOrStops, handle_rx_msg_running_state_lem,
}
use usp_agent_stomp.Stomp.Invariant.Calls.{AllInv}
use usp_agent_stomp.Stomp.Invariant.Reach.{run-Inv, status_safe}
use usp_agent_stomp.Stomp.Progress.{receive_stomp_message_inner-Ends}
use usp_agent_stomp.Stomp.Retry.{IsDropped, handle_stomp_socket_error_lem}
use usp_agent_stomp.Stomp.Table.Queueing.{IsQueued, stomp_queue_binary_message_lem}
use usp_agent_stomp.Stomp.Table.Start.{unused_conn, stomp_init}
use usp_agent_stomp.Stomp.Table.Status.{stomp_get_connection_status}
use usp_agent_stomp.Stomp.Upkeep.{HasRanges, HasHost, update_sock_set-HasHost}

abbrev pub digits_only : Bytes → ℕ × Bytes
digits_only s = (decimal_value 0 s, [])

abbrev env : Env
env = record {
  strtoul = digits_only;
  scan_heart_beat = λ value. none;
  retry_range = λ count interval multiplier. 5;
  now = 100;
  random = 7;
  endpoint_id = codes "os::agent";
}

abbrev item : SendItem
item = record {
  usp_msg_type = 1;
  pbuf = 10 ∷ 0 ∷ 20 ∷ [];
  controller_queue = some (codes "/queue/c");
  agent_queue = some (codes "/queue/a");
}

abbrev params : ConnParams
params = record unused_conn.params {
  instance_number = some 1;
  host = some (codes "host");
  virtual_host = some (codes "/");
  retry = record { initial_interval = 60; interval_multiplier = 2000; max_interval = 3840 };
}

-- A running connection that has sent 4 of the 9 bytes of a frame with a USP record.
abbrev sending : Conn
sending = record unused_conn {
  params = params;
  next_conn_params = params;
  state = running;
  txframe = some (codes "SEND\n\nab" ++ 0 ∷ []);
  txframe_len = 9;
  txframe_sent_count = 4;
  txframe_contains_usp_record = true;
  usp_record_send_queue = item ∷ [];
}

sending-Inv : Inv sending
sending-Inv = ground arith

transmit_stomp_message_lem_example :
    Returns (DeliveryOf (pos 5) sending) (transmit_stomp_message env (pos 5) sending)
transmit_stomp_message_lem_example =
    transmit_stomp_message_lem env (pos 5) sending sending-Inv refl (omega arith)

transmit_all_lem_example : Returns (IsSent []) (transmit_all env (2 ∷ 3 ∷ []) sending)
transmit_all_lem_example =
    transmit_all_lem (2 ∷ []) env sending item [] 3 refl refl refl (omega arith, tt) (omega arith)
      (omega arith) (omega arith)

handle_stomp_socket_error_lem_example :
    Returns (IsDropped env sending other_error) (handle_stomp_socket_error env sending other_error)
handle_stomp_socket_error_lem_example =
    handle_stomp_socket_error_lem env sending other_error (omega arith)

abbrev link : Link
link = record {
  fd = 3;
  ssl = none;
  cert_chain = none;
  role = 0;
  allowed_controllers = none;
  mgmt_ip_addr = codes "10.0.0.1";
  mgmt_if_name = codes "eth0";
}

receive_stomp_message_inner-Ends_example :
    receive_stomp_message_inner env sending (codes "\n\nMESSAGE\n") ≢ out_of_fuel
receive_stomp_message_inner-Ends_example =
    receive_stomp_message_inner-Ends env sending (codes "\n\nMESSAGE\n")

-- 60 * (2000 / 1000) ^ (count - 1), the range of the source for the parameters of the run.
abbrev doubling : Env
doubling = record env {
  retry_range =
      λ count interval multiplier. interval * multiplier ^ (count - 1) / 1000 ^ (count - 1);
}

one_or_two : (count : ℕ) → 0 < count → count ≤ 2 → (count ≡ 1) ⊎ (count ≡ 2)
one_or_two count above below = ground arith

sending-HasRanges : HasRanges doubling sending
sending-HasRanges count above below = elim (one_or_two count above below) [
  | inl e ↦ rw e (omega arith, omega arith)
  | inr e ↦ rw e (omega arith, omega arith)
]

update_sock_set-HasHost_example :
    Returns (λ r. HasHost r.0) (update_stomp_connection_sock_set doubling (connected link) sending)
update_sock_set-HasHost_example =
    update_sock_set-HasHost doubling (connected link) sending sending-HasRanges refl

abbrev pub message : Bytes
message =
    codes "MESSAGE\ncontent-type:application/octet-stream\ncontent-length:3\n\n"
    ++ 10 ∷ 0 ∷ 20 ∷ 0 ∷ []

abbrev receiving : Conn
receiving = record sending {
  rx = record {
    frame = some message;
    msglen = 68;
    maxlen = 68;
    frame_len = pos 68;
    header_len = some 64;
  };
}

handle_rx_msg_running_state_lem_example :
    ReturnsOrStops
      (λ r. Refused r ⊎ Posted receiving message 68 64 r)
      (StopsOn env receiving message 68 64)
      (handle_rx_msg_running_state env receiving message 68)
handle_rx_msg_running_state_lem_example =
    handle_rx_msg_running_state_lem env receiving message 68 64 refl

-- The table with one connection in use.
abbrev table : Stomp
table = record { conns = unused_conn ∷ sending ∷ []; exited = false }

finds_sending : find_stomp_conn_by_inst (some 1) table.conns ≡ some sending
unfolding find_stomp_conn_by_inst
finds_sending = refl

stomp_queue_binary_message_lem_example :
    Returns (IsQueued 1 item table sending) (stomp_queue_binary_message 1 item table)
stomp_queue_binary_message_lem_example =
    stomp_queue_binary_message_lem 1 item table sending finds_sending

-- A connection is enabled, a record queued for it, and the connection disabled again.
abbrev session : List Call
session =
    enables env (connected link) params (some (codes "/queue/a"))
    ∷ queues 1 item
    ∷ activates
    ∷ disables 1 true
    ∷ []

session-Returns : Returns (λ st. Unit) (run stomp_init session)
unfolding run call stomp_init stomp_enable_connection enable_conn with_conn start_stomp_connection
    start_sending_frame_stomp copy_stomp_conn_params_from_next stomp_queue_binary_message
    stomp_disable_connection allocate_string_if_changed copy_stomp_conn_params_to_next
    stomp_activate_scheduled_actions queue_conn
session-Returns = tt

run-Inv_example : Ensures AllInv (run stomp_init session)
run-Inv_example = run-Inv session

status_safe_example :
    Ensures (λ st. stomp_get_connection_status 1 st ≢ abort) (run stomp_init session)
status_safe_example = status_safe session 1
