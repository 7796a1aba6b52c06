-- ===== src/Stomp/Table.antt =====
-- src/core/stomp.c: the calls on the table of connections. Each takes the mutex for all of its work,
-- so the calls of the two threads happen one after another.
pub mod Status
pub mod Rounds
pub mod Start
pub mod Queueing
use usp_agent_stomp.Common.{
  ℕ, Bool, true, false, Option, none, some, List, [], ◌∷◌, ◌++◌, map, ◌==◌, if◌then◌else◌, Bytes,
}
use usp_agent_stomp.Result.{internal_error, Result, ok, err, ◌>>=◌}
use usp_agent_stomp.Stomp.Types.{
  no_failure, off, signalled, activated, RetryParams, ConnParams, SendItem, Conn,
}
use usp_agent_stomp.Stomp.Connection.{Env, Dial, stop_stomp_connection, start_stomp_connection}
use usp_agent_stomp.Stomp.Connection.Params.{copy_stomp_conn_params_to_next}

-- stomp_connections and is_mtp_thread_exited
pub record Stomp : Type 0 where
  pub conns : List Conn
  pub exited : Bool

abbrev pub same_instance : Option ℕ → Option ℕ → Bool
same_instance none none = true
same_instance none (some b) = false
same_instance (some a) none = false
same_instance (some a) (some b) = a == b

-- The first connection of that instance number; `none` finds an unused one, whose number is INVALID.
unfoldable pub find_stomp_conn_by_inst : Option ℕ → List Conn → Option Conn
find_stomp_conn_by_inst inst [] = none
find_stomp_conn_by_inst inst (sc ∷ l) =
    if same_instance sc.params.instance_number inst then some sc else find_stomp_conn_by_inst inst l

-- A call on the connection that is found, in its place; `none` where there is none.
unfoldable pub with_conn : Option ℕ → (Conn → Result Conn) → List Conn → Option (Result (List Conn))
with_conn inst f [] = none
with_conn inst f (sc ∷ l) =
    let rest = with_conn inst f l in
    if same_instance sc.params.instance_number inst
    then some (f sc >>= (λ d. ok (d ∷ l)))
    else elim rest [ none ↦ none | some r ↦ some (r >>= (λ k. ok (sc ∷ k))) ]

abbrev pub with_conns : Stomp → Result (List Conn) → Result Stomp
with_conns st r = r >>= (λ l. ok (record st { conns = l }))

-- DLLIST_LinkToTail
unfoldable pub queue_conn : SendItem → Conn → Conn
queue_conn item sc = record sc { usp_record_send_queue = sc.usp_record_send_queue ++ item ∷ [] }

unfoldable pub stomp_queue_binary_message : ℕ → SendItem → Stomp → Result Stomp
unfolding with_conn
stomp_queue_binary_message inst item st =
    if st.exited
    then ok st
    else elim (with_conn (some inst) (λ sc. ok (queue_conn item sc)) st.conns) [
      | none ↦ err internal_error
      | some r ↦ with_conns st r
    ]

-- The new parameters, and a start from the first attempt.
unfoldable pub enable_conn : Env → Dial → ConnParams → Option Bytes → Conn → Result Conn
enable_conn env dial sp stomp_queue sc =
    start_stomp_connection env dial (record (copy_stomp_conn_params_to_next sc sp stomp_queue) {
      retry_count = 0;
      failure_code = no_failure;
    })

unfoldable pub stomp_enable_connection :
    Env → Dial → ConnParams → Option Bytes → Stomp → Result Stomp
unfolding with_conn
stomp_enable_connection env dial sp stomp_queue st =
    let enable = enable_conn env dial sp stomp_queue in
    if st.exited then ok st else elim (with_conn sp.instance_number enable st.conns) [
      | some r ↦ with_conns st r
      | none ↦ elim (with_conn none enable st.conns) [
        | some r ↦ with_conns st r
        | none ↦ err internal_error
      ]
    ]

abbrev pub no_retry : RetryParams
no_retry = record { initial_interval = 0; interval_multiplier = 0; max_interval = 0 }

abbrev cleared : ConnParams → Option ℕ → ConnParams
cleared p inst = record p {
  instance_number = inst;
  host = none;
  port = 0;
  username = none;
  password = none;
  enable_encryption = false;
  virtual_host = none;
  enable_heartbeats = false;
  incoming_heartbeat_period = 0;
  outgoing_heartbeat_period = 0;
  retry = no_retry;
}

unfoldable pub disable_conn : Bool → Conn → Conn
disable_conn purge_queued_messages sc = record (stop_stomp_connection sc purge_queued_messages) {
  params = cleared sc.params none;
  provisionned_queue = none;
  next_conn_params = cleared sc.next_conn_params sc.next_conn_params.instance_number;
  next_provisionned_queue = none;
}

unfoldable pub stomp_disable_connection : ℕ → Bool → Stomp → Result Stomp
unfolding with_conn
stomp_disable_connection inst purge_queued_messages st =
    if st.exited
    then ok st
    else elim (with_conn (some inst) (λ sc. ok (disable_conn purge_queued_messages sc)) st.conns) [
      | none ↦ err internal_error
      | some r ↦ with_conns st r
    ]

unfoldable pub schedule_conn : ConnParams → Option Bytes → Conn → Conn
schedule_conn sp stomp_queue sc = record (copy_stomp_conn_params_to_next sc sp stomp_queue) {
  schedule_reconnect = signalled;
}

unfoldable pub stomp_schedule_reconnect : ConnParams → Option Bytes → Stomp → Result Stomp
unfolding with_conn
stomp_schedule_reconnect sp stomp_queue st =
    if st.exited
    then ok st
    else elim (with_conn sp.instance_number (λ sc. ok (schedule_conn sp stomp_queue sc)) st.conns) [
      | none ↦ ok st
      | some r ↦ with_conns st r
    ]

unfoldable pub activate_conn : Conn → Conn
activate_conn sc = elim sc.schedule_reconnect [
  | signalled ↦ record sc { schedule_reconnect = activated }
  | off ↦ sc
  | activated ↦ sc
]

unfoldable pub stomp_activate_scheduled_actions : Stomp → Stomp
unfolding activate_conn
stomp_activate_scheduled_actions st =
    if st.exited then st else record st { conns = map activate_conn st.conns }

unfoldable pub retry_params_conn : RetryParams → Conn → Conn
retry_params_conn retry_params sc = record sc { params = record sc.params { retry = retry_params } }

unfoldable pub stomp_update_retry_params : ℕ → RetryParams → Stomp → Result Stomp
unfolding with_conn
stomp_update_retry_params inst retry_params st =
    if st.exited
    then ok st
    else elim (with_conn (some inst) (λ sc. ok (retry_params_conn retry_params sc)) st.conns) [
      | none ↦ ok st
      | some r ↦ with_conns st r
    ]
