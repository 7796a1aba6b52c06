-- ===== src/Stomp/Invariant/Rounds.antt =====
-- src/core/stomp.c: a round of the socket loop over the table keeps the invariant of each connection.
use usp_agent_stomp.Common.{inl, inr, true, List, [], ◌∷◌, arith, Bool-cases, All}
use usp_agent_stomp.Result.{ok, Ensures, Ensures->>=}
use usp_agent_stomp.Stomp.Types.{off, Conn}
use usp_agent_stomp.Stomp.Connection.{Env, Dial, stop_stomp_connection, start_stomp_connection}
use usp_agent_stomp.Stomp.Transmit.{Activity}
use usp_agent_stomp.Stomp.Invariant.{Inv, InvOf, start_keeps}
use usp_agent_stomp.Stomp.Invariant.SocketLoop.{activity_keeps, InvOfRequested, sock_set_keeps}
use usp_agent_stomp.Stomp.Table.Rounds.{
  reconnect_if_due, update_conn, process_conn, stomp_update_all_sock_set,
  stomp_process_all_socket_activity,
}
use usp_agent_stomp.Stomp.Table.Status.{is_used}

reconnect_keeps :
    (env : Env) (dial : Dial) (sc : Conn)
    → Inv sc
    → Ensures InvOfRequested (reconnect_if_due env dial sc)
unfolding reconnect_if_due
reconnect_keeps env dial sc v = ground (
  arith,
  Ensures->>= Inv InvOfRequested
      (start_stomp_connection env dial
        (record (stop_stomp_connection sc true) { schedule_reconnect = off }))
      (λ (started : Conn). ok (started, [])) (start_keeps env dial _) (λ s u. u),
)

update_keeps :
    (env : Env) (dial : Dial) (sc : Conn)
    → Inv sc
    → Ensures InvOfRequested (update_conn env dial sc)
unfolding update_conn
update_keeps env dial sc v = elim (Bool-cases (is_used sc)) [
  | inl e ↦ rw e (
      Ensures->>= InvOfRequested InvOfRequested _ _ (reconnect_keeps env dial sc v) (λ r u.
        Ensures->>= InvOfRequested InvOfRequested _ _ (sock_set_keeps env dial r.0 u) (λ q w. w)))
  | inr e ↦ rw e v
]

process_keeps :
    (env : Env) (act : Activity) (sc : Conn) → Inv sc → Ensures InvOf (process_conn env act sc)
unfolding process_conn
process_keeps env act sc v = ground (arith, activity_keeps env act sc v)

abbrev pub InvOfTable {ℓ} : {A : Type ℓ} → List Conn × A → Type 0
InvOfTable r = All Inv r.0

pub update-All_keep :
    (envs : List (Env × Dial)) (l : List Conn)
    → All Inv l
    → Ensures InvOfTable (stomp_update_all_sock_set envs l)
unfolding stomp_update_all_sock_set
update-All_keep envs [] v = tt
update-All_keep [] (sc ∷ l) v = v
update-All_keep ((env, dial) ∷ envs) (sc ∷ l) (v, vs) =
    Ensures->>= InvOfRequested InvOfTable _ _ (update_keeps env dial sc v)
      (λ r u. Ensures->>= InvOfTable InvOfTable _ _ (update-All_keep envs l vs) (λ k w. (u, w)))

pub process-All_keep :
    (envs : List (Env × Activity)) (l : List Conn)
    → All Inv l
    → Ensures InvOfTable (stomp_process_all_socket_activity envs l)
unfolding stomp_process_all_socket_activity
process-All_keep envs [] v = tt
process-All_keep [] (sc ∷ l) v = v
process-All_keep ((env, act) ∷ envs) (sc ∷ l) (v, vs) =
    Ensures->>= InvOf InvOfTable _ _ (process_keeps env act sc v)
      (λ r u. Ensures->>= InvOfTable InvOfTable _ _ (process-All_keep envs l vs) (λ k w. (u, w)))
