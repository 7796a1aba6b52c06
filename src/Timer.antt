-- ===== src/Timer.antt =====
-- src/core/sync_timer.c: the timers of the data model thread. A call-back is a number, and NULL is 0;
-- the ids in use are not negative; times are seconds since the epoch.
pub mod Keys
pub mod Changes
pub mod Entries
pub mod Firing
pub mod Waiting
use usp_agent_stomp.Common.{
  ℕ, zero, suc, ◌+◌, ◌-◌, ◌*◌, ◌/◌, ◌%◌, Bool, true, false, not, ◌&&◌, Option, none, some, List, [],
  ◌∷◌, ◌++◌, ltb, leb, ◌==◌, if◌then◌else◌, get_elem?, take, drop,
}
use usp_agent_stomp.Result.{internal_error, Result, ok, err, out_of_fuel, ◌>>=◌, ◌>>◌, assert}

-- INT_MAX
abbrev pub int_max : ℕ
int_max = 2147483647

-- sync_timer_t
pub record SyncTimer : Type 0 where
  pub enabled : Bool
  pub next_timeout : ℕ
  pub timer_cb : ℕ
  pub id : ℕ

-- `sync_timers` and `first_sync_timer_time`
pub record Timers : Type 0 where
  pub vector : List SyncTimer
  pub first_sync_timer_time : ℕ

abbrev pub sync_timer_init : Timers
sync_timer_init = record { vector = []; first_sync_timer_time = int_max }

abbrev pub is_timer : ℕ → ℕ → SyncTimer → Bool
is_timer timer_cb id st = (st.timer_cb == timer_cb) && (st.id == id)

unfoldable pub find_loop : ℕ → ℕ → List SyncTimer → ℕ → Option ℕ
find_loop timer_cb id [] i = none
find_loop timer_cb id (st ∷ vector) i =
    let rest = find_loop timer_cb id vector (suc i) in
    if is_timer timer_cb id st then some i else rest

abbrev pub find_sync_timer : ℕ → ℕ → Timers → Option ℕ
find_sync_timer timer_cb id ts = find_loop timer_cb id ts.vector 0

unfoldable pub first_loop : List SyncTimer → ℕ → ℕ
first_loop [] first = first
first_loop (st ∷ vector) first =
    first_loop vector
      (if st.enabled then if ltb st.next_timeout first then st.next_timeout else first else first)

abbrev pub update_first_sync_timer_time : List SyncTimer → Timers
update_first_sync_timer_time vector = record {
  vector = vector;
  first_sync_timer_time = first_loop vector int_max;
}

abbrev pub fresh_timer : ℕ → ℕ → ℕ → SyncTimer
fresh_timer timer_cb id callback_time = record {
  enabled = true;
  next_timeout = callback_time;
  timer_cb = timer_cb;
  id = id;
}

unfoldable pub sync_timer_add : ℕ → ℕ → ℕ → Timers → Result Timers
sync_timer_add timer_cb id callback_time ts =
    if timer_cb == 0 then err internal_error else elim (find_sync_timer timer_cb id ts) [
      | some index ↦ err internal_error
      | none ↦
          ok
            (update_first_sync_timer_time (ts.vector ++ fresh_timer timer_cb id callback_time ∷ []))
    ]

abbrev pub reload_timer : ℕ → SyncTimer → SyncTimer
reload_timer callback_time st = record st { enabled = true; next_timeout = callback_time }

-- The entry at an index, changed in place.
unfoldable pub change_at : (SyncTimer → SyncTimer) → ℕ → List SyncTimer → List SyncTimer
change_at f i [] = []
change_at f zero (st ∷ vector) = f st ∷ vector
change_at f (suc i) (st ∷ vector) = st ∷ change_at f i vector

unfoldable pub sync_timer_reload : ℕ → ℕ → ℕ → Timers → Result Timers
sync_timer_reload timer_cb id callback_time ts = elim (find_sync_timer timer_cb id ts) [
  | none ↦ err internal_error
  | some index ↦
      ok (update_first_sync_timer_time (change_at (reload_timer callback_time) index ts.vector))
]

unfoldable pub sync_timer_remove : ℕ → ℕ → Timers → Result Timers
sync_timer_remove timer_cb id ts = elim (find_sync_timer timer_cb id ts) [
  | none ↦ err internal_error
  | some index ↦
      ok (update_first_sync_timer_time (take index ts.vector ++ drop (suc index) ts.vector))
]

-- The difference of two times in an `int`, which keeps 32 bits of it, and 0 where that is negative.
unfoldable pub int_difference : ℕ → ℕ → ℕ
int_difference a b =
    let bits = (a % 4294967296 + 4294967296 - b % 4294967296) % 4294967296 in
    if leb bits int_max then bits else 0

-- In milliseconds; a time that has passed is no delay.
unfoldable pub sync_timer_time_to_next : ℕ → Timers → ℕ
unfolding int_difference
sync_timer_time_to_next cur_time ts =
    let delta = int_difference ts.first_sync_timer_time cur_time in
    if ltb (int_max / 1000) delta then int_max else delta * 1000

abbrev pub is_due : ℕ → SyncTimer → Bool
is_due cur_time st = st.enabled && leb st.next_timeout cur_time

abbrev pub mark_fired : SyncTimer → SyncTimer
mark_fired st = record st { enabled = false }

-- What the call-backs do, with the timers and with all else.
abbrev pub Callbacks : Type 0 → Type 0
Callbacks W = ℕ → ℕ → Timers × W → Result (Timers × W)

-- The timer at index `i`, which its call-back may reload or remove.
abbrev pub fire : {W : Type 0} → Callbacks W → ℕ → ℕ → SyncTimer → Timers × W → Result (Timers × W)
fire callback cur_time i st (ts, w) =
    if is_due cur_time st
    then (assert (not (st.timer_cb == 0))
        >> callback st.timer_cb st.id (record ts { vector = change_at mark_fired i ts.vector }, w))
    else ok (ts, w)

unfoldable pub execute_loop :
    {W : Type 0} → ℕ → Callbacks W → ℕ → ℕ → Timers × W → Result (Timers × W)
execute_loop zero callback cur_time i s = out_of_fuel
execute_loop (suc fuel) callback cur_time i s = elim (get_elem? s.0.vector i) [
  | none ↦ ok s
  | some st ↦ fire callback cur_time i st s >>= execute_loop fuel callback cur_time (suc i)
]

unfoldable pub sync_timer_execute :
    {W : Type 0} → ℕ → Callbacks W → ℕ → Timers × W → Result (Timers × W)
sync_timer_execute fuel callback cur_time s =
    if ltb cur_time s.0.first_sync_timer_time
    then ok s
    else execute_loop fuel callback cur_time 0 s
      >>= (λ r. ok (update_first_sync_timer_time r.0.vector, r.1))
