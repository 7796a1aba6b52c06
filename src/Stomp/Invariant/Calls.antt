-- ===== src/Stomp/Invariant/Calls.antt =====
-- src/core/stomp.c: every call on the table of connections keeps the invariant of each of them.
use usp_agent_stomp.Common.{
  ℕ, inl, inr, Bool, Option, none, some, List, [], ◌∷◌, map, arith, if◌then◌else◌, Bool-cases, All,
  Bytes,
}
use usp_agent_stomp.Result.{internal_error, Result, ok, err, ◌>>=◌, Ensures, Ensures->>=}
use usp_agent_stomp.Stomp.Types.{RetryParams, ConnParams, SendItem, Conn}
use usp_agent_stomp.Stomp.Connection.{Env, Dial, stop_stomp_connection}
use usp_agent_stomp.Stomp.Table.{
  Stomp, same_instance, with_conn, with_conns, queue_conn, stomp_queue_binary_message, enable_conn,
  stomp_enable_connection, disable_conn, stomp_disable_connection, schedule_conn,
  stomp_schedule_reconnect, activate_conn, stomp_activate_scheduled_actions, retry_params_conn,
  stomp_update_retry_params,
}
use usp_agent_stomp.Stomp.Invariant.{Inv, start_keeps}
use usp_agent_stomp.Stomp.Connection.Params.{copy_stomp_conn_params_to_next}

-- Every connection of the table keeps its invariant.
abbrev pub AllInv : Stomp → Type 0
AllInv st = All Inv st.conns

abbrev WhereFound {ℓ κ} : {A : Type ℓ} → (A → Type κ) → Option (Result A) → Type κ
WhereFound P none = Unit
WhereFound P (some r) = Ensures P r

in_place_keeps :
    (sc : Conn) (l : List Conn) (r : Result Conn)
    → Ensures Inv r
    → All Inv l
    → Ensures (All Inv) (r >>= (λ d. ok (d ∷ l)))
in_place_keeps sc l r h vs = Ensures->>= Inv (All Inv) r _ h (λ d u. (u, vs))

further_keeps :
    (sc : Conn) (rest : Option (Result (List Conn)))
    → Inv sc
    → WhereFound (All Inv) rest
    → WhereFound (All Inv) (elim rest [ none ↦ none | some r ↦ some (r >>= (λ k. ok (sc ∷ k))) ])
further_keeps sc none v h = tt
further_keeps sc (some r) v h = Ensures->>= (All Inv) (All Inv) r _ h (λ k u. (v, u))

with_conn_keeps :
    (inst : Option ℕ) (f : Conn → Result Conn) (l : List Conn)
    → ((sc : Conn) → Inv sc → Ensures Inv (f sc))
    → All Inv l
    → WhereFound (All Inv) (with_conn inst f l)
unfolding with_conn
with_conn_keeps inst f [] k v = tt
with_conn_keeps inst f (sc ∷ l) k (v, vs) =
    elim (Bool-cases (same_instance sc.params.instance_number inst)) [
      | inl e ↦ rw e (in_place_keeps sc l (f sc) (k sc v) vs)
      | inr e ↦ rw e (further_keeps sc (with_conn inst f l) v (with_conn_keeps inst f l k vs))
    ]

-- What a call makes of the outcome on the table.
stored_keeps :
    (st : Stomp) (found : Option (Result (List Conn))) (missing : Result Stomp)
    → WhereFound (All Inv) found
    → Ensures AllInv missing
    → Ensures AllInv (elim found [ none ↦ missing | some r ↦ with_conns st r ])
stored_keeps st none missing h m = m
stored_keeps st (some r) missing h m = Ensures->>= (All Inv) AllInv r _ h (λ l u. u)

pub unless_exited :
    (st : Stomp) (r : Result Stomp)
    → AllInv st
    → Ensures AllInv r
    → Ensures AllInv (if st.exited then ok st else r)
unless_exited st r v h = elim (Bool-cases st.exited) [ inl e ↦ rw e v | inr e ↦ rw e h ]

queued_keeps : (sc : Conn) (item : SendItem) → Inv sc → Inv (queue_conn item sc)
unfolding queue_conn
queued_keeps sc item v = ground arith

pub queue_keeps :
    (inst : ℕ) (item : SendItem) (st : Stomp)
    → AllInv st
    → Ensures AllInv (stomp_queue_binary_message inst item st)
unfolding stomp_queue_binary_message
queue_keeps inst item st v = unless_exited st _ v (
    stored_keeps st _ (err internal_error)
      (with_conn_keeps (some inst) (λ sc. ok (queue_conn item sc)) st.conns
        (λ sc u. queued_keeps sc item u) v)
      tt)

enable_keeps :
    (env : Env) (dial : Dial) (sp : ConnParams) (queue : Option Bytes) (sc : Conn)
    → Inv sc
    → Ensures Inv (enable_conn env dial sp queue sc)
unfolding enable_conn
enable_keeps env dial sp queue sc v = start_keeps env dial _

unused_keeps :
    (st : Stomp) (found unused : Option (Result (List Conn)))
    → WhereFound (All Inv) found
    → WhereFound (All Inv) unused
    → Ensures AllInv (elim found [
      | some r ↦ with_conns st r
      | none ↦ elim unused [ some r ↦ with_conns st r | none ↦ err internal_error ]
    ])
unused_keeps st (some r) unused h k = Ensures->>= (All Inv) AllInv r _ h (λ l u. u)
unused_keeps st none none h k = tt
unused_keeps st none (some r) h k = Ensures->>= (All Inv) AllInv r _ k (λ l u. u)

pub enable_all_keeps :
    (env : Env) (dial : Dial) (sp : ConnParams) (queue : Option Bytes) (st : Stomp)
    → AllInv st
    → Ensures AllInv (stomp_enable_connection env dial sp queue st)
unfolding stomp_enable_connection
enable_all_keeps env dial sp queue st v =
    let keeps = enable_keeps env dial sp queue in
    unless_exited st _ v (
      unused_keeps st _ _ (with_conn_keeps sp.instance_number _ st.conns keeps v)
        (with_conn_keeps none _ st.conns keeps v))

disable_keeps : (purge : Bool) (sc : Conn) → Inv (disable_conn purge sc)
unfolding disable_conn stop_stomp_connection
disable_keeps purge sc = ground arith

pub disable_all_keeps :
    (inst : ℕ) (purge : Bool) (st : Stomp)
    → AllInv st
    → Ensures AllInv (stomp_disable_connection inst purge st)
unfolding stomp_disable_connection
disable_all_keeps inst purge st v = unless_exited st _ v (
    stored_keeps st _ (err internal_error)
      (with_conn_keeps (some inst) (λ sc. ok (disable_conn purge sc)) st.conns
        (λ sc u. disable_keeps purge sc) v)
      tt)

schedule_keeps :
    (sp : ConnParams) (queue : Option Bytes) (sc : Conn) → Inv sc → Inv (schedule_conn sp queue sc)
unfolding schedule_conn copy_stomp_conn_params_to_next
schedule_keeps sp queue sc v = ground arith

pub schedule_all_keeps :
    (sp : ConnParams) (queue : Option Bytes) (st : Stomp)
    → AllInv st
    → Ensures AllInv (stomp_schedule_reconnect sp queue st)
unfolding stomp_schedule_reconnect
schedule_all_keeps sp queue st v = unless_exited st _ v (
    stored_keeps st _ (ok st)
      (with_conn_keeps sp.instance_number (λ sc. ok (schedule_conn sp queue sc)) st.conns
        (λ sc u. schedule_keeps sp queue sc u) v)
      v)

retry_params_keeps : (retry : RetryParams) (sc : Conn) → Inv sc → Inv (retry_params_conn retry sc)
unfolding retry_params_conn
retry_params_keeps retry sc v = ground arith

pub retry_params_all_keeps :
    (inst : ℕ) (retry : RetryParams) (st : Stomp)
    → AllInv st
    → Ensures AllInv (stomp_update_retry_params inst retry st)
unfolding stomp_update_retry_params
retry_params_all_keeps inst retry st v = unless_exited st _ v (
    stored_keeps st _ (ok st)
      (with_conn_keeps (some inst) (λ sc. ok (retry_params_conn retry sc)) st.conns
        (λ sc u. retry_params_keeps retry sc u) v)
      v)

activate_conn-Inv : (sc : Conn) → Inv sc → Inv (activate_conn sc)
unfolding activate_conn
activate_conn-Inv sc v = ground arith

map-Inv : (l : List Conn) → All Inv l → All Inv (map activate_conn l)
map-Inv [] v = tt
map-Inv (sc ∷ l) (v, vs) = (activate_conn-Inv sc v, map-Inv l vs)

pub activate_all_keeps : (st : Stomp) → AllInv st → AllInv (stomp_activate_scheduled_actions st)
unfolding stomp_activate_scheduled_actions
activate_all_keeps st v = elim (Bool-cases st.exited) [
  | inl e ↦ rw e v
  | inr e ↦ rw e (map-Inv st.conns v)
]
