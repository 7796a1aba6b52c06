-- ===== src/SubsRetry.antt =====
-- src/core/subs_retry.c, src/core/retry_wait.c: the notifications that are sent again until the
-- controller answers. An entry that is marked for deletion is `none`; times are seconds since the
-- epoch, and an `unsigned` wraps round at 2 ^ 32.
pub mod Calls
pub mod Loop
pub mod Wait
pub mod Exec
pub mod Timing
pub mod Unique
use usp_agent_stomp.Common.{
  ℕ, suc, ◌+◌, ◌-◌, ◌%◌, ◌^◌, Bool, true, Option, none, some, List, [], ◌∷◌, ltb, ◌==◌,
  if◌then◌else◌, str_eq,
}
use usp_agent_stomp.Result.{Result, ok, err, abort, out_of_fuel, ◌>>=◌}
use usp_agent_stomp.Timer.{int_max, Timers, sync_timer_add, sync_timer_reload}

-- subs_retry_t
pub record Retry : Type 0 where
  pub instance : ℕ
  pub msg_id : List ℕ
  pub subscription_id : List ℕ
  pub dest_endpoint : List ℕ
  pub differentiator : Option (List ℕ)
  pub pbuf : List ℕ
  pub retry_expiry_time : ℕ
  pub retry_count : ℕ
  pub min_wait_interval : ℕ
  pub interval_multiplier : ℕ
  pub next_retry_time : ℕ

-- `subs_retry`, `first_retry_time`, the seed of the random numbers and the messages that have been
-- queued, each with its endpoint.
pub record Subs : Type 0 where
  pub vector : List Retry
  pub first_retry_time : ℕ
  pub seed : ℕ
  pub sent : List (List ℕ × List ℕ)

-- The address of SubsRetryExec, `(unsigned) (m * pow(k / 1000, n))` and `rand_r` of the C library,
-- DEVICE_CONTROLLER_GetSubsRetryParams, and the values of two variables that nothing has set.
pub record RetryEnv : Type 0 where
  pub subs_retry_exec : ℕ
  pub scaled_pow : ℕ → ℕ → ℕ → ℕ
  pub rand_r : ℕ → ℕ × ℕ
  pub get_subs_retry_params : List ℕ → Option (ℕ × ℕ)
  pub unset : ℕ × ℕ

abbrev pub uint_size : ℕ
uint_size = 2 ^ 32

abbrev pub limited_count : ℕ → ℕ
limited_count retry_count =
    if ltb 10 retry_count then 10 else if retry_count == 0 then 1 else retry_count

-- The seconds to wait, and the next seed.
unfoldable pub retry_wait_calculate : RetryEnv → ℕ → ℕ → ℕ → ℕ → ℕ × ℕ
retry_wait_calculate env retry_count m k seed =
    let count = limited_count retry_count in
    let min_seconds = env.scaled_pow m k (count - 1) in
    let max_seconds = env.scaled_pow m k count in
    let range = (max_seconds + uint_size - min_seconds) % uint_size in
    let random = env.rand_r seed in
    (if ltb 0 range then (min_seconds + random.0 % range) % uint_size else min_seconds, random.1)

unfoldable pub calc_next_subs_retry_time : RetryEnv → ℕ → Retry → ℕ → ℕ × ℕ
calc_next_subs_retry_time env cur_time sr seed =
    let r =
      retry_wait_calculate env sr.retry_count sr.min_wait_interval sr.interval_multiplier seed in
    (cur_time + r.0, r.1)

unfoldable pub first_retry : List Retry → ℕ → ℕ
first_retry [] first = first
first_retry (sr ∷ vector) first =
    first_retry vector (if ltb sr.next_retry_time first then sr.next_retry_time else first)

-- The result of SYNC_TIMER_Reload is not looked at.
unfoldable pub reloaded : RetryEnv → ℕ → Timers → Timers
reloaded env first ts = elim (sync_timer_reload env.subs_retry_exec 0 first ts) [
  | ok ts' ↦ ts'
  | err e ↦ ts
  | abort ↦ ts
  | out_of_fuel ↦ ts
]

unfoldable pub update_first_retry_time : RetryEnv → Timers × Subs → Timers × Subs
update_first_retry_time env (ts, s) =
    let first = first_retry s.vector int_max in
    (reloaded env first ts, record s { first_retry_time = first })

-- The result of SYNC_TIMER_Add is not looked at.
unfoldable pub subs_retry_init : RetryEnv → Timers → Timers
subs_retry_init env ts = elim (sync_timer_add env.subs_retry_exec 0 int_max ts) [
  | ok ts' ↦ ts'
  | err e ↦ ts
  | abort ↦ ts
  | out_of_fuel ↦ ts
]

unfoldable pub garbage_collect_subs_retry : List (Option Retry) → List Retry
garbage_collect_subs_retry [] = []
garbage_collect_subs_retry (none ∷ marked) = garbage_collect_subs_retry marked
garbage_collect_subs_retry (some sr ∷ marked) = sr ∷ garbage_collect_subs_retry marked

-- strcmp stops the process where the entry has a differentiator and none is looked for.
unfoldable pub same_differentiator : Option (List ℕ) → Option (List ℕ) → Result Bool
same_differentiator none differentiator = ok true
same_differentiator (some d) none = abort
same_differentiator (some d) (some differentiator) = ok (str_eq d differentiator)

unfoldable pub find_retry_entry : ℕ → Option (List ℕ) → List Retry → ℕ → Result (Option ℕ)
find_retry_entry instance differentiator [] i = ok none
find_retry_entry instance differentiator (sr ∷ vector) i =
    let rest = find_retry_entry instance differentiator vector (suc i) in
    if sr.instance == instance
    then (same_differentiator sr.differentiator differentiator
        >>= (λ same. if same then ok (some i) else rest))
    else rest
