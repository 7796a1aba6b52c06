-- ===== src/Stomp/Table/Status.antt =====
-- src/core/stomp.c: what the table of connections reports of itself.
use usp_agent_stomp.Common.{
  ℕ, Bool, true, false, not, ◌&&◌, ◌||◌, Option, none, some, List, [], ◌∷◌, ◌==◌, if◌then◌else◌,
  Bytes, codes,
}
use usp_agent_stomp.Result.{Result, ok, abort}
use usp_agent_stomp.Stomp.Types.{
  State, running, Failure, no_failure, server_not_present, authentication, misconfigured,
  other_error, Conn,
}
use usp_agent_stomp.Stomp.Connection.{is_failure}
use usp_agent_stomp.Stomp.Receive.{is_byte_at, buffer_of}
use usp_agent_stomp.Stomp.Table.{Stomp, find_stomp_conn_by_inst}

pub data MtpStatus : Type 0 where
  up down : MtpStatus

unfoldable pub stomp_get_mtp_status : ℕ → Stomp → MtpStatus
unfolding find_stomp_conn_by_inst
stomp_get_mtp_status inst st =
    if st.exited then down else elim (find_stomp_conn_by_inst (some inst) st.conns) [
      | none ↦ down
      | some sc ↦ elim sc.state [ running ↦ up | _ ↦ down ]
    ]

abbrev failure_string : Failure → Bytes
failure_string no_failure = codes "No Error"
failure_string server_not_present = codes "ServerNotPresent"
failure_string authentication = codes "Error_AuthenticationFailure"
failure_string misconfigured = codes "Error_Misconfigured"
failure_string other_error = codes "Error"

abbrev state_string : State → Bytes
state_string running = codes "Enabled"
state_string _ = codes "Connecting"

-- The status of one connection; a failed connection that is running stops the process.
unfoldable pub connection_status : Conn → Result (Bytes × ℕ)
connection_status sc =
    if is_failure sc.failure_code no_failure
    then ok (state_string sc.state, sc.last_status_change)
    else elim sc.state [
      | running ↦ abort
      | _ ↦ ok (failure_string sc.failure_code, sc.last_status_change)
    ]

abbrev pub found_status : Option Conn → Result (Bytes × ℕ)
found_status none = ok (codes "Disabled", 0)
found_status (some sc) = connection_status sc

-- The status text and, where the thread runs, the date of the last change.
unfoldable pub stomp_get_connection_status : ℕ → Stomp → Result (Bytes × ℕ)
unfolding find_stomp_conn_by_inst
stomp_get_connection_status inst st =
    if st.exited
    then ok (codes "Connecting", 0)
    else found_status (find_stomp_conn_by_inst (some inst) st.conns)

-- Nothing is queued, nothing is being sent, and at most one heartbeat byte has been received.
unfoldable pub responses_sent : Conn → Bool
responses_sent sc =
    (elim sc.usp_record_send_queue [ [] ↦ true | item ∷ l ↦ false ])
    && (elim sc.txframe [ none ↦ true | some frame ↦ false ])
    && (sc.rx.msglen == 0 || (sc.rx.msglen == 1 && is_byte_at (buffer_of sc.rx) 0 b'\n'))

abbrev pub is_used : Conn → Bool
is_used sc = elim sc.params.instance_number [ none ↦ false | some inst ↦ true ]

all_sent : List Conn → Bool
all_sent [] = true
all_sent (sc ∷ l) = (not (is_used sc) || responses_sent sc) && all_sent l

unfoldable pub stomp_are_all_responses_sent : Stomp → Bool
unfolding all_sent responses_sent
stomp_are_all_responses_sent st = if st.exited then true else all_sent st.conns
