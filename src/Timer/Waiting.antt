-- ===== src/Timer/Waiting.antt =====
-- src/core/sync_timer.c: how long the data model thread sleeps.
use usp_agent_stomp.Common.{
  ℕ, ◌-◌, ◌*◌, ◌/◌, ◌≤◌, ◌≡◌, sym, subst, inl, inr, true, some, List, [], ◌∷◌, arith, ltb,
  if◌then◌else◌, Bool-cases,
}
use usp_agent_stomp.Timer.{
  int_max, int_difference, SyncTimer, Timers, is_timer, first_loop, sync_timer_time_to_next,
}
use usp_agent_stomp.Timer.Keys.{IsTimers, lookup}

-- The earliest time once `st` has been looked at.
abbrev pub earlier : SyncTimer → ℕ → ℕ
earlier st first =
    if st.enabled then if ltb st.next_timeout first then st.next_timeout else first else first

pub earlier_bounds :
    (st : SyncTimer) (first : ℕ)
    → (earlier st first ≤ first) × (st.enabled ≡ true → earlier st first ≤ st.next_timeout)
earlier_bounds st first = (ground arith, λ e. ground arith)

pub first_loop-le : (l : List SyncTimer) (first : ℕ) → first_loop l first ≤ first
unfolding first_loop
first_loop-le [] first = ground arith
first_loop-le (st ∷ l) first =
    ground (arith, first_loop-le l (earlier st first), (earlier_bounds st first).0)

-- The time is no later than that of any enabled timer.
pub first_loop-before :
    (cb id : ℕ) (l : List SyncTimer) (st : SyncTimer) (first : ℕ)
    → lookup cb id l ≡ some st
    → st.enabled ≡ true
    → first_loop l first ≤ st.next_timeout
unfolding first_loop lookup
first_loop-before cb id [] st first h e = ground arith
first_loop-before cb id (x ∷ l) st first h e = elim (Bool-cases (is_timer cb id x)) [
  | inl k ↦
      let same : x ≡ st = ground arith in
      let after : first_loop l (earlier x first) ≤ x.next_timeout = ground (
        arith,
        first_loop-le l (earlier x first),
        (earlier_bounds x first).1 (subst (λ (s : SyncTimer). s.enabled ≡ true) (sym same) e),
      ) in
      subst (λ (s : SyncTimer). first_loop l (earlier x first) ≤ s.next_timeout) same after
  | inr k ↦ first_loop-before cb id l st (earlier x first) (ground arith) e
]

wait_bound :
    (cur first next : ℕ)
    → first ≤ next
    → ((if ltb (int_max / 1000) (first - cur) then int_max else (first - cur) * 1000)
        ≤ (next - cur) * 1000)
      × ((if ltb (int_max / 1000) (first - cur) then int_max else (first - cur) * 1000) ≤ int_max)
wait_bound cur first next h = ground arith

-- Two times that an `int` holds: the difference is not cut off.
difference_lem : (a b : ℕ) → a ≤ int_max → b ≤ int_max → int_difference a b ≡ a - b
unfolding int_difference
difference_lem a b ha hb = ground arith

-- Up to the time INT_MAX SYNC_TIMER_TimeToNext never has the thread sleep past the time of an
-- enabled timer, and its result fits an `int`.
pub sync_timer_time_to_next_lem :
    (cur_time cb id : ℕ) (ts : Timers) (st : SyncTimer)
    → cur_time ≤ int_max
    → IsTimers ts
    → lookup cb id ts.vector ≡ some st
    → st.enabled ≡ true
    → (sync_timer_time_to_next cur_time ts ≤ (st.next_timeout - cur_time) * 1000)
      × (sync_timer_time_to_next cur_time ts ≤ int_max)
unfolding sync_timer_time_to_next
sync_timer_time_to_next_lem cur_time cb id ts st now h l e =
    let before : ts.first_sync_timer_time ≤ st.next_timeout =
      rw h.first (first_loop-before cb id ts.vector st int_max l e) in
    let small : ts.first_sync_timer_time ≤ int_max = rw h.first (first_loop-le ts.vector int_max) in
    rw (difference_lem ts.first_sync_timer_time cur_time small now)
      (wait_bound cur_time ts.first_sync_timer_time st.next_timeout before)
