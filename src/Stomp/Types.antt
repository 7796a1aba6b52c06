-- ===== src/Stomp/Types.antt =====
-- src/core/stomp.h and src/core/stomp.c: the state of a STOMP connection.
-- A pointer that may be NULL and an `int` or `time_t` that may be INVALID are options.
use usp_agent_stomp.Common.{ℕ, Bool, Option, List, Bytes}
use usp_agent_stomp.Stomp.RxBuf.{RxBuf}

-- stomp_state_t
pub data State : Type 0 where
  idle sending_stomp_frame awaiting_connected_frame : State
  sending_subscribe_frame running retrying : State

-- stomp_failure_t
pub data Failure : Type 0 where
  no_failure server_not_present authentication misconfigured other_error : Failure

-- scheduled_action_t
pub data ScheduledAction : Type 0 where
  off signalled activated : ScheduledAction

-- stomp_retry_params_t
pub record RetryParams : Type 0 where
  pub initial_interval : ℕ
  pub interval_multiplier : ℕ
  pub max_interval : ℕ

-- stomp_conn_params_t
pub record ConnParams : Type 0 where
  pub instance_number : Option ℕ
  pub enable : Bool
  pub host : Option Bytes
  pub port : ℕ
  pub username : Option Bytes
  pub password : Option Bytes
  pub enable_encryption : Bool
  pub virtual_host : Option Bytes
  pub enable_heartbeats : Bool
  pub incoming_heartbeat_period : ℕ
  pub outgoing_heartbeat_period : ℕ
  pub retry : RetryParams

-- stomp_send_item_t; `pbuf_len` is the length of `pbuf`.
pub record SendItem : Type 0 where
  pub usp_msg_type : ℕ
  pub pbuf : Bytes
  pub controller_queue : Option Bytes
  pub agent_queue : Option Bytes

-- stomp_connection_t. The parameters that a connection was started with are `params` (whose
-- `enable` the source does not keep), and the SSL objects are opaque handles.
pub record Conn : Type 0 where
  pub params : ConnParams
  pub provisionned_queue : Option Bytes
  pub state : State
  pub last_status_change : ℕ
  pub stomp_handshake_timeout : ℕ
  pub retry_count : ℕ
  pub retry_time : ℕ
  pub failure_code : Failure
  pub schedule_reconnect : ScheduledAction
  pub socket_fd : Option ℕ
  pub ssl : Option ℕ
  pub cert_chain : Option ℕ
  pub allowed_controllers : Option Bytes
  pub role : ℕ
  pub subscribe_dest : Option Bytes
  pub heartbeat_period : ℕ
  pub next_heartbeat_time : Option ℕ
  pub rx : RxBuf
  pub txframe : Option Bytes
  pub txframe_len : ℕ
  pub txframe_sent_count : ℕ
  pub txframe_contains_usp_record : Bool
  pub usp_record_send_queue : List SendItem
  pub next_conn_params : ConnParams
  pub next_provisionned_queue : Option Bytes
  pub mgmt_ip_addr : Bytes
  pub mgmt_if_name : Bytes
