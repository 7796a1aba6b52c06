-- ===== src/Stomp/Table/Rounds.antt =====
-- src/core/stomp.c: the rounds of the socket loop over all connections.
use usp_agent_stomp.Common.{true, none, some, List, [], ◌∷◌, ◌++◌, if◌then◌else◌}
use usp_agent_stomp.Result.{Result, ok, ◌>>=◌}
use usp_agent_stomp.Stomp.Types.{off, signalled, activated, Conn}
use usp_agent_stomp.Stomp.Connection.{Env, Dial, stop_stomp_connection, start_stomp_connection}
use usp_agent_stomp.Stomp.Receive.{Event}
use usp_agent_stomp.Stomp.Transmit.{
  Request, update_timeout, update_stomp_connection_sock_set, Activity,
  process_stomp_connection_socket_activity,
}
use usp_agent_stomp.Stomp.Table.Status.{responses_sent, is_used}

-- Stop, forget the schedule and start again, where all responses have been sent; else look again in
-- a second.
unfoldable pub reconnect_if_due : Env → Dial → Conn → Result (Conn × List Request)
reconnect_if_due env dial sc = elim sc.schedule_reconnect [
  | off ↦ ok (sc, [])
  | signalled ↦ ok (sc, [])
  | activated ↦
      let stopped = stop_stomp_connection sc true in
      if responses_sent sc
      then start_stomp_connection env dial (record stopped { schedule_reconnect = off })
        >>= (λ started. ok (started, []))
      else ok (sc, update_timeout 1000 ∷ [])
]

-- One connection's turn in STOMP_UpdateAllSockSet.
unfoldable pub update_conn : Env → Dial → Conn → Result (Conn × List Request)
update_conn env dial sc =
    if is_used sc
    then reconnect_if_due env dial sc
      >>= (λ r. update_stomp_connection_sock_set env dial r.0 >>= (λ q. ok (q.0, r.1 ++ q.1)))
    else ok (sc, [])

-- One connection's turn in STOMP_ProcessAllSocketActivity.
unfoldable pub process_conn : Env → Activity → Conn → Result (Conn × List Event)
process_conn env act sc = elim sc.socket_fd [
  | none ↦ ok (sc, [])
  | some fd ↦
      if is_used sc then process_stomp_connection_socket_activity env act sc else ok (sc, [])
]

-- STOMP_UpdateAllSockSet, with the environment and the outcome of a dial for each connection.
unfoldable pub stomp_update_all_sock_set :
    List (Env × Dial) → List Conn → Result (List Conn × List Request)
stomp_update_all_sock_set envs [] = ok ([], [])
stomp_update_all_sock_set [] (sc ∷ l) = ok (sc ∷ l, [])
stomp_update_all_sock_set ((env, dial) ∷ envs) (sc ∷ l) =
    let rest = stomp_update_all_sock_set envs l in
    update_conn env dial sc >>= (λ r. rest >>= (λ k. ok (r.0 ∷ k.0, r.1 ++ k.1)))

-- STOMP_ProcessAllSocketActivity, with what the sockets report for each connection.
unfoldable pub stomp_process_all_socket_activity :
    List (Env × Activity) → List Conn → Result (List Conn × List Event)
stomp_process_all_socket_activity envs [] = ok ([], [])
stomp_process_all_socket_activity [] (sc ∷ l) = ok (sc ∷ l, [])
stomp_process_all_socket_activity ((env, act) ∷ envs) (sc ∷ l) =
    let rest = stomp_process_all_socket_activity envs l in
    process_conn env act sc >>= (λ r. rest >>= (λ k. ok (r.0 ∷ k.0, r.1 ++ k.1)))
