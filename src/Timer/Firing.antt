-- ===== src/Timer/Firing.antt =====
-- src/core/sync_timer.c: SYNC_TIMER_Execute, with call-backs that may reload timers.
use usp_agent_stomp.Common.{
  ℕ, zero, suc, ◌+◌, ◌≤◌, ◌<◌, ◌≡◌, refl, ◌∙◌, subst, ◌⊎◌, inl, inr, false, none, some, List, [],
  ◌∷◌, arith, ltb, ◌==◌, Bool-cases, length, get_elem?,
}
use usp_agent_stomp.Result.{Returns, Returns_mono, Returns->>=}
use usp_agent_stomp.Timer.{
  int_max, SyncTimer, Timers, change_at, is_due, mark_fired, Callbacks, fire, execute_loop,
  sync_timer_execute,
}
use usp_agent_stomp.Timer.Entries.{
  IsKeyed, NoneDue, IsCalm, length-change_at, get-change_at, lookup-get, IsKeyed-marked, All-get,
  NoneDue-marked, NoneDue-calmed, NoneDue-next,
}
use usp_agent_stomp.Timer.Keys.{IsTimers}
use usp_agent_stomp.Timer.Waiting.{first_loop-before}

-- Where the loop has got to.
record IsAt {W : Type 0} (cur : ℕ) (Inv : List SyncTimer × W → Type 0) (n i : ℕ) (s : Timers × W)
    : Type 0 where
  keyed : IsKeyed s.0.vector
  inv : Inv (s.0.vector, s.1)
  size : length s.0.vector ≡ n
  quiet : NoneDue cur i s.0.vector

fire-IsAt :
    {W : Type 0} (callback : Callbacks W) (cur : ℕ) (Inv : List SyncTimer × W → Type 0) (n i : ℕ)
    (ts : Timers) (w : W) (st : SyncTimer)
    → IsCalm callback cur Inv
    → IsAt cur Inv n i (ts, w)
    → get_elem? ts.vector i ≡ some st
    → Returns (IsAt cur Inv n (suc i)) (fire callback cur i st (ts, w))
fire-IsAt callback cur Inv n i ts w st c a e = elim (Bool-cases (is_due cur st)) [
  | inl d ↦
      let ts' = record ts { vector = change_at mark_fired i ts.vector } in
      let keyed = IsKeyed-marked i ts.vector a.keyed in
      let called : (st.timer_cb == 0) ≡ false =
        ground (arith, All-get i ts.vector st a.keyed.called e) in
      rw (d, called)
        (Returns_mono _ (IsAt cur Inv n (suc i)) (callback st.timer_cb st.id (ts', w))
          (c.calls ts' w (mark_fired st) keyed (c.marked i ts.vector w a.inv)
            (lookup-get i ts'.vector (mark_fired st) keyed.distinct
              (get-change_at mark_fired i ts.vector st e))
            (ground arith))
          (λ r h. record {
            keyed = h.0;
            inv = h.1;
            size = h.2.as_many ∙ length-change_at mark_fired i ts.vector ∙ a.size;
            quiet =
                NoneDue-calmed cur (suc i) ts'.vector r.0.vector h.2
                  (NoneDue-marked cur i ts.vector st e a.quiet);
          }))
  | inr d ↦ rw d (record {
    keyed = a.keyed;
    inv = a.inv;
    size = a.size;
    quiet = NoneDue-next cur i ts.vector st e d a.quiet;
  })
]

get-length :
    (l : List SyncTimer) (i : ℕ)
    → ((get_elem? l i ≡ none) × (length l ≤ i))
      ⊎ ((st : SyncTimer) × (get_elem? l i ≡ some st) × (i < length l))
get-length [] i = inl (refl, ground arith)
get-length (x ∷ l) zero = inr (x, refl, ground arith)
get-length (x ∷ l) (suc i) = elim (get-length l i) [
  | inl (e, h) ↦ inl (e, ground arith)
  | inr (st, e, h) ↦ inr (st, e, ground arith)
]

execute_loop-IsAt :
    {W : Type 0} (callback : Callbacks W) (cur : ℕ) (Inv : List SyncTimer × W → Type 0)
    (n fuel i : ℕ) (s : Timers × W)
    → IsCalm callback cur Inv
    → IsAt cur Inv n i s
    → n < fuel + i
    → i ≤ n
    → Returns (IsAt cur Inv n n) (execute_loop fuel callback cur i s)
unfolding execute_loop
execute_loop-IsAt callback cur Inv n zero i s c a f h = ground arith
execute_loop-IsAt callback cur Inv n (suc fuel) i s c a f h = elim (get-length s.0.vector i) [
  | inl (e, k) ↦ rw (execute_loop, e) (subst (λ k. IsAt cur Inv n k s) (ground (arith, a.size)) a)
  | inr (st, e, k) ↦
      rw (execute_loop, e)
        (Returns->>= (IsAt cur Inv n (suc i)) (IsAt cur Inv n n) (fire callback cur i st s)
          (execute_loop fuel callback cur (suc i)) (fire-IsAt callback cur Inv n i s.0 s.1 st c a e)
          (λ r b.
            execute_loop-IsAt callback cur Inv n fuel (suc i) r c b (ground arith)
              (ground (arith, a.size))))
]

-- Nothing is due before the time at which the first timer fires.
not_yet :
    (cur j : ℕ) (ts : Timers) (st : SyncTimer)
    → IsTimers ts
    → cur < ts.first_sync_timer_time
    → get_elem? ts.vector j ≡ some st
    → is_due cur st ≡ false
not_yet cur j ts st h lt e = elim (Bool-cases st.enabled) [
  | inl on ↦
      let first =
        first_loop-before st.timer_cb st.id ts.vector st int_max
          (lookup-get j ts.vector st h.distinct e) on in
      ground (arith, first, h.first)
  | inr off ↦ ground arith
]

index_bound : (l : List SyncTimer) (j : ℕ) (st : SyncTimer) → get_elem? l j ≡ some st → j < length l
index_bound [] j st e = cc
index_bound (x ∷ l) zero st e = ground arith
index_bound (x ∷ l) (suc j) st e = ground (arith, index_bound l j st e)

-- The timers are in order, and none of them is due.
pub record IsIdle {W : Type 0} (cur_time : ℕ) (Inv : List SyncTimer × W → Type 0) (r : Timers × W)
    : Type 0 where
  pub timers : IsTimers r.0
  pub inv : Inv (r.0.vector, r.1)
  pub idle :
      (j : ℕ) (st : SyncTimer) → get_elem? r.0.vector j ≡ some st → is_due cur_time st ≡ false

-- SYNC_TIMER_Execute ends, with one round for each timer, passes its assertions, and leaves the
-- timers in order and none of them due, where the call-backs are those of `IsCalm`: they may reload
-- timers, their own among them, to a later time.
pub sync_timer_execute_lem :
    {W : Type 0} (callback : Callbacks W) (cur_time fuel : ℕ) (Inv : List SyncTimer × W → Type 0)
    (ts : Timers) (w : W)
    → IsCalm callback cur_time Inv
    → IsTimers ts
    → Inv (ts.vector, w)
    → length ts.vector < fuel
    → Returns (IsIdle cur_time Inv) (sync_timer_execute fuel callback cur_time (ts, w))
unfolding sync_timer_execute
sync_timer_execute_lem callback cur fuel Inv ts w c h i f =
    elim (Bool-cases (ltb cur ts.first_sync_timer_time)) [
      | inl k ↦
          rw k (record {
            timers = h;
            inv = i;
            idle = λ j st e. not_yet cur j ts st h (ground arith) e;
          })
      | inr k ↦ rw k (
          Returns->>= (IsAt cur Inv (length ts.vector) (length ts.vector)) (IsIdle cur Inv)
            (execute_loop fuel callback cur 0 (ts, w)) _
            (execute_loop-IsAt callback cur Inv (length ts.vector) fuel 0 (ts, w) c
              (record {
                keyed = record { distinct = h.distinct; called = h.called };
                inv = i;
                size = refl;
                quiet = λ j st lt e. ground arith;
              })
              (ground arith) (ground arith))
            (λ r a. record {
              timers = record {
                distinct = a.keyed.distinct;
                called = a.keyed.called;
                first = refl;
              };
              inv = a.inv;
              idle =
                  λ j st e. a.quiet j st (ground (arith, index_bound r.0.vector j st e, a.size)) e;
            }))
    ]
