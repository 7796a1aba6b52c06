-- ===== src/Stomp/Calls.antt =====
-- src/core/stomp.c: the calls of the two threads as one sequence, each under the mutex.
use usp_agent_stomp.Common.{ℕ, Bool, true, Option, List, [], ◌∷◌, if◌then◌else◌, Bytes}
use usp_agent_stomp.Result.{Result, ok, ◌>>=◌, try}
use usp_agent_stomp.Stomp.Types.{RetryParams, ConnParams, SendItem}
use usp_agent_stomp.Stomp.Connection.{Env, Dial}
use usp_agent_stomp.Stomp.Transmit.{Activity}
use usp_agent_stomp.Stomp.Table.{
  Stomp, stomp_queue_binary_message, stomp_enable_connection, stomp_disable_connection,
  stomp_schedule_reconnect, stomp_activate_scheduled_actions, stomp_update_retry_params,
}
use usp_agent_stomp.Stomp.Table.Rounds.{
  stomp_update_all_sock_set, stomp_process_all_socket_activity,
}

-- A call with its arguments and what it finds outside; `exits` is the MTP thread setting
-- is_mtp_thread_exited.
pub data Call : Type 0 where
  queues : ℕ → SendItem → Call
  enables : Env → Dial → ConnParams → Option Bytes → Call
  disables : ℕ → Bool → Call
  schedules : ConnParams → Option Bytes → Call
  activates : Call
  sets_retry : ℕ → RetryParams → Call
  updates_sockets : List (Env × Dial) → Call
  processes_sockets : List (Env × Activity) → Call
  exits : Call

unfoldable pub call : Stomp → Call → Result Stomp
call st (queues inst item) = stomp_queue_binary_message inst item st
call st (enables env dial sp queue) = stomp_enable_connection env dial sp queue st
call st (disables inst purge) = stomp_disable_connection inst purge st
call st (schedules sp queue) = stomp_schedule_reconnect sp queue st
call st activates = ok (stomp_activate_scheduled_actions st)
call st (sets_retry inst retry) = stomp_update_retry_params inst retry st
call st (updates_sockets envs) =
    if st.exited
    then ok st
    else stomp_update_all_sock_set envs st.conns >>= (λ r. ok (record st { conns = r.0 }))
call st (processes_sockets envs) =
    if st.exited
    then ok st
    else stomp_process_all_socket_activity envs st.conns >>= (λ r. ok (record st { conns = r.0 }))
call st exits = ok (record st { exited = true })

-- An error code leaves the table as it was, and the caller goes on.
unfoldable pub run : Stomp → List Call → Result Stomp
run st [] = ok st
run st (c ∷ cs) = try (call st c) (λ s. run s cs) (run st cs)
