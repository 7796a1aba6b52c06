-- ===== src/Stomp/Table/Start.antt =====
-- src/core/stomp.c: the table that STOMP_Init sets up.
use usp_agent_stomp.Common.{ℕ, false, Option, none, some, [], ◌∷◌}
use usp_agent_stomp.Common.Int.{pos}
use usp_agent_stomp.Stomp.Types.{idle, no_failure, off, ConnParams, Conn}
use usp_agent_stomp.Stomp.Table.{Stomp, no_retry}

-- stomp_connections behind STOMP_Init: cleared memory, and no slot in use.
abbrev no_params : Option ℕ → ConnParams
no_params inst = record {
  instance_number = inst;
  enable = false;
  host = none;
  port = 0;
  username = none;
  password = none;
  enable_encryption = false;
  virtual_host = none;
  enable_heartbeats = false;
  incoming_heartbeat_period = 0;
  outgoing_heartbeat_period = 0;
  retry = no_retry;
}

abbrev pub unused_conn : Conn
unused_conn = record {
  params = no_params none;
  provisionned_queue = none;
  state = idle;
  last_status_change = 0;
  stomp_handshake_timeout = 0;
  retry_count = 0;
  retry_time = 0;
  failure_code = no_failure;
  schedule_reconnect = off;
  socket_fd = some 0;
  ssl = none;
  cert_chain = none;
  allowed_controllers = none;
  role = 0;
  subscribe_dest = none;
  heartbeat_period = 0;
  next_heartbeat_time = some 0;
  rx = record { frame = none; msglen = 0; maxlen = 0; frame_len = pos 0; header_len = some 0 };
  txframe = none;
  txframe_len = 0;
  txframe_sent_count = 0;
  txframe_contains_usp_record = false;
  usp_record_send_queue = [];
  next_conn_params = no_params (some 0);
  next_provisionned_queue = none;
  mgmt_ip_addr = [];
  mgmt_if_name = [];
}

unfoldable pub stomp_init : Stomp
stomp_init = record {
  conns = unused_conn ∷ unused_conn ∷ unused_conn ∷ unused_conn ∷ unused_conn ∷ [];
  exited = false;
}
