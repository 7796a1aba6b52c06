-- ===== src/Stomp/Invariant/Reach.antt =====
-- src/core/stomp.c: what holds of the table after any sequence of calls.
use usp_agent_stomp.Common.{
  ℕ, ◌≢◌, inl, inr, Option, none, some, List, [], ◌∷◌, arith, Bool-cases, All,
}
use usp_agent_stomp.Result.{ok, abort, Ensures, Ensures->>=, Ensures-try, Ensures-mono}
use usp_agent_stomp.Stomp.Types.{Conn}
use usp_agent_stomp.Stomp.Table.{Stomp, same_instance, find_stomp_conn_by_inst}
use usp_agent_stomp.Stomp.Invariant.{Inv}
use usp_agent_stomp.Stomp.Calls.{
  Call, queues, enables, disables, schedules, activates, sets_retry, updates_sockets,
  processes_sockets, exits, call, run,
}
use usp_agent_stomp.Stomp.Invariant.Calls.{
  AllInv, unless_exited, queue_keeps, enable_all_keeps, disable_all_keeps, schedule_all_keeps,
  retry_params_all_keeps, activate_all_keeps,
}
use usp_agent_stomp.Stomp.Invariant.Rounds.{InvOfTable, update-All_keep, process-All_keep}
use usp_agent_stomp.Stomp.Table.Start.{unused_conn, stomp_init}
use usp_agent_stomp.Stomp.Table.Status.{
  connection_status, found_status, stomp_get_connection_status,
}

init-AllInv : AllInv stomp_init
unfolding stomp_init
init-AllInv = (fresh, (fresh, (fresh, (fresh, (fresh, tt)))))
  where
    fresh : Inv unused_conn
    fresh = ground arith

pub call_keeps : (st : Stomp) (c : Call) → AllInv st → Ensures AllInv (call st c)
unfolding call
call_keeps st (queues inst item) v = queue_keeps inst item st v
call_keeps st (enables env dial sp queue) v = enable_all_keeps env dial sp queue st v
call_keeps st (disables inst purge) v = disable_all_keeps inst purge st v
call_keeps st (schedules sp queue) v = schedule_all_keeps sp queue st v
call_keeps st activates v = activate_all_keeps st v
call_keeps st (sets_retry inst retry) v = retry_params_all_keeps inst retry st v
call_keeps st (updates_sockets envs) v = unless_exited st _ v (
    Ensures->>= InvOfTable AllInv _ (λ r. ok (record st { conns = r.0 }))
      (update-All_keep envs st.conns v) (λ r u. u))
call_keeps st (processes_sockets envs) v = unless_exited st _ v (
    Ensures->>= InvOfTable AllInv _ (λ r. ok (record st { conns = r.0 }))
      (process-All_keep envs st.conns v) (λ r u. u))
call_keeps st exits v = v

run_keeps : (st : Stomp) (cs : List Call) → AllInv st → Ensures AllInv (run st cs)
unfolding run
run_keeps st [] v = v
run_keeps st (c ∷ cs) v =
    Ensures-try AllInv AllInv _ _ _ (call_keeps st c v) (λ s u. run_keeps s cs u)
      (run_keeps st cs v)

-- Along any sequence of calls from the initial table that does not stop the process, every
-- connection of the table keeps its invariant: in the running state no failure is recorded, a
-- connection that is idle or retrying holds no receive buffer and no frame to send, the states that
-- send a handshake frame have one, none is there while the CONNECTED frame is awaited, and while a
-- frame that holds a USP record is being sent the send queue is not empty.
pub run-Inv : (cs : List Call) → Ensures AllInv (run stomp_init cs)
run-Inv cs = run_keeps stomp_init cs init-AllInv

abbrev Found : Option Conn → Type 0
Found none = Unit
Found (some sc) = Inv sc

Found-Inv : (inst : Option ℕ) (l : List Conn) → All Inv l → Found (find_stomp_conn_by_inst inst l)
unfolding find_stomp_conn_by_inst
Found-Inv inst [] v = tt
Found-Inv inst (sc ∷ l) (v, vs) = elim (Bool-cases (same_instance sc.params.instance_number inst)) [
  | inl h ↦ rw h v
  | inr h ↦ rw h (Found-Inv inst l vs)
]

status-ne-abort : (sc : Conn) → Inv sc → connection_status sc ≢ abort
unfolding connection_status
status-ne-abort sc v = ground arith

found_status-ne-abort : (found : Option Conn) → Found found → found_status found ≢ abort
found_status-ne-abort none v = λ e. cc
found_status-ne-abort (some sc) v = status-ne-abort sc v

found-status_safe :
    (inst : ℕ) (st : Stomp) → AllInv st → stomp_get_connection_status inst st ≢ abort
unfolding stomp_get_connection_status
found-status_safe inst st v =
    let safe = found_status-ne-abort _ (Found-Inv (some inst) st.conns v) in
    elim (Bool-cases st.exited) [ inl h ↦ rw h (λ e. cc) | inr h ↦ rw h safe ]

-- After any sequence of calls that does not stop the process, STOMP_GetConnectionStatus does not
-- stop it either: its assertion, that a connection with a recorded failure is not running, holds for
-- every instance number.
pub status_safe :
    (cs : List Call) (inst : ℕ)
    → Ensures (λ st. stomp_get_connection_status inst st ≢ abort) (run stomp_init cs)
status_safe cs inst =
    Ensures-mono AllInv (λ st. stomp_get_connection_status inst st ≢ abort) (run stomp_init cs)
      (run-Inv cs) (λ st v. found-status_safe inst st v)
