-- ===== src/Stomp/Table/Queueing.antt =====
-- src/core/stomp.c: which connection STOMP_QueueBinaryMessage puts a record on.
use usp_agent_stomp.Common.{
  ℕ, ◌≡◌, refl, ◌⊎◌, inl, inr, true, false, Option, none, some, List, [], ◌∷◌, ◌++◌, arith,
  Bool-cases,
}
use usp_agent_stomp.Result.{
  internal_error, Result, ok, err, abort, out_of_fuel, ◌>>=◌, Returns, Returns_mono,
}
use usp_agent_stomp.Stomp.Types.{SendItem, Conn}
use usp_agent_stomp.Stomp.Table.{
  Stomp, same_instance, find_stomp_conn_by_inst, with_conn, with_conns, queue_conn,
  stomp_queue_binary_message,
}

abbrev KeepsInstance : (Conn → Conn) → Type 0
KeepsInstance f = (sc : Conn) → (f sc).params.instance_number ≡ sc.params.instance_number

abbrev Changed : Option ℕ → (Conn → Conn) → List Conn → Option (Result (List Conn)) → Type 0
Changed inst f l none = find_stomp_conn_by_inst inst l ≡ none
Changed inst f l (some r) =
    Returns
      (λ k.
        (sc : Conn) × (find_stomp_conn_by_inst inst l ≡ some sc)
        × (find_stomp_conn_by_inst inst k ≡ some (f sc)))
      r

Changed-here :
    (inst : Option ℕ) (f : Conn → Conn) (sc : Conn) (l : List Conn)
    → KeepsInstance f
    → same_instance sc.params.instance_number inst ≡ true
    → Changed inst f (sc ∷ l) (some (ok (f sc ∷ l)))
unfolding find_stomp_conn_by_inst
Changed-here inst f sc l h e = (sc, rw e refl, rw (h sc, e) refl)

Changed-behind :
    (inst : Option ℕ) (f : Conn → Conn) (sc : Conn) (l : List Conn)
    (t : Option (Result (List Conn)))
    → same_instance sc.params.instance_number inst ≡ false
    → Changed inst f l t
    → Changed inst f (sc ∷ l) (elim t [ none ↦ none | some r ↦ some (r >>= (λ k. ok (sc ∷ k))) ])
unfolding find_stomp_conn_by_inst
Changed-behind inst f sc l none e c = rw e c
Changed-behind inst f sc l (some (ok k)) e (s, a, b) = (s, rw e a, rw e b)
Changed-behind inst f sc l (some (err x)) e c = absurd c
Changed-behind inst f sc l (some abort) e c = absurd c
Changed-behind inst f sc l (some out_of_fuel) e c = absurd c

with_conn-Changed :
    (inst : Option ℕ) (f : Conn → Conn) (l : List Conn)
    → KeepsInstance f
    → Changed inst f l (with_conn inst (λ sc. ok (f sc)) l)
unfolding with_conn find_stomp_conn_by_inst
with_conn-Changed inst f [] h = refl
with_conn-Changed inst f (sc ∷ l) h =
    elim (Bool-cases (same_instance sc.params.instance_number inst)) [
      | inl e ↦ rw e (Changed-here inst f sc l h e)
      | inr e ↦ rw e (Changed-behind inst f sc l _ e (with_conn-Changed inst f l h))
    ]

queued_on :
    (inst : ℕ) (item : SendItem) (st : Stomp) (sc : Conn)
    → find_stomp_conn_by_inst (some inst) st.conns ≡ some sc
    → (t : Option (Result (List Conn))) → Changed (some inst) (queue_conn item) st.conns t
    → Returns
        (λ u. find_stomp_conn_by_inst (some inst) u.conns ≡ some (queue_conn item sc))
        (elim t [ none ↦ err internal_error | some r ↦ with_conns st r ])
queued_on inst item st sc found none c = cc
queued_on inst item st sc found (some (ok k)) (s, a, b) = cc
queued_on inst item st sc found (some (err x)) c = absurd c
queued_on inst item st sc found (some abort) c = absurd c
queued_on inst item st sc found (some out_of_fuel) c = absurd c

-- The record is last on the queue of the connection, or the thread has exited and nothing changes.
abbrev pub IsQueued : ℕ → SendItem → Stomp → Conn → Stomp → Type 0
IsQueued inst item st sc t =
    ((st.exited ≡ true) × (t ≡ st))
    ⊎ ((st.exited ≡ false)
        × (find_stomp_conn_by_inst (some inst) t.conns
            ≡ some (record sc { usp_record_send_queue = sc.usp_record_send_queue ++ item ∷ [] })))

-- A record that STOMP_QueueBinaryMessage is given for a connection of the table is put last on that
-- connection's queue, and the connection is otherwise left as it was; once the thread has exited,
-- all stays as it was instead.
pub stomp_queue_binary_message_lem :
    (inst : ℕ) (item : SendItem) (st : Stomp) (sc : Conn)
    → find_stomp_conn_by_inst (some inst) st.conns ≡ some sc
    → Returns (IsQueued inst item st sc) (stomp_queue_binary_message inst item st)
unfolding stomp_queue_binary_message queue_conn
stomp_queue_binary_message_lem inst item st sc found = elim (Bool-cases st.exited) [
  | inl gone ↦ ground arith
  | inr on ↦ simp on (
      Returns_mono (λ t. find_stomp_conn_by_inst (some inst) t.conns ≡ some (queue_conn item sc))
        (IsQueued inst item st sc) _
        (queued_on inst item st sc found
          (with_conn (some inst) (λ c. ok (queue_conn item c)) st.conns)
          (with_conn-Changed (some inst) (queue_conn item) st.conns (λ c. refl)))
        (λ t q. inr (on, q)))
]
