-- ===== src/Tests/TimerRuns.antt =====
-- src/core/sync_timer.c, src/core/subs_retry.c: runs with the timer of the retries and another.
use usp_agent_stomp.Common.{
  ℕ, zero, suc, ◌+◌, ◌-◌, ◌*◌, ◌/◌, ◌^◌, ◌≤◌, ◌<◌, ◌≡◌, refl, inl, none, some, [], ◌∷◌, arith,
}
use usp_agent_stomp.Result.{ok, Returns}
use usp_agent_stomp.SubsRetry.{Retry, Subs, RetryEnv, uint_size, limited_count}
use usp_agent_stomp.SubsRetry.Calls.{Message, subs_retry_add}
use usp_agent_stomp.SubsRetry.Exec.{Waits, due_messages}
use usp_agent_stomp.SubsRetry.Loop.{subs_retry_exec}
use usp_agent_stomp.SubsRetry.Timing.{IsSynced, IsSynced-marked}
use usp_agent_stomp.SubsRetry.Unique.{IsStored, subs_retry_add_lem}
use usp_agent_stomp.Timer.{
  int_max, Timers, first_loop, fresh_timer, sync_timer_remove, sync_timer_time_to_next, Callbacks,
  sync_timer_execute,
}
use usp_agent_stomp.Timer.Changes.{Map, timer_at, Is, sync_timer_remove_lem}
use usp_agent_stomp.Timer.Entries.{IsCalm}
use usp_agent_stomp.Timer.Firing.{IsIdle, sync_timer_execute_lem}
use usp_agent_stomp.Timer.Keys.{has_timer, IsTimers, lookup}
use usp_agent_stomp.Timer.Waiting.{sync_timer_time_to_next_lem}

-- A timer of the call-back 7, and the one of SubsRetryExec, which is 5.
abbrev timers : Timers
timers = record {
  vector = fresh_timer 7 2 130 ∷ fresh_timer 5 0 100 ∷ [];
  first_sync_timer_time = 100;
}

timers-IsTimers : IsTimers timers
unfolding has_timer first_loop
timers-IsTimers = record {
  distinct = (refl, (refl, tt));
  called = (ground arith, (ground arith, tt));
  first = refl;
}

abbrev timer_map : Map
timer_map c j = lookup c j timers.vector

looked_up : timer_map 7 2 ≡ some (fresh_timer 7 2 130)
unfolding lookup
looked_up = refl

sync_timer_remove_lem_example :
    Returns (Is (timer_at 7 2 none timer_map)) (sync_timer_remove 7 2 timers)
sync_timer_remove_lem_example =
    sync_timer_remove_lem 7 2 timer_map timers (fresh_timer 7 2 130)
      (record { timers = timers-IsTimers; same = λ c j. refl }) looked_up

sync_timer_time_to_next_lem_example :
    (sync_timer_time_to_next 90 timers ≤ 40000) × (sync_timer_time_to_next 90 timers ≤ int_max)
sync_timer_time_to_next_lem_example =
    sync_timer_time_to_next_lem 90 7 2 timers (fresh_timer 7 2 130) (omega arith) timers-IsTimers
      looked_up refl

-- The bounds of the waits are those of the source, m * (k / 1000) ^ n.
abbrev env : RetryEnv
env = record {
  subs_retry_exec = 5;
  scaled_pow = λ m k n. m * k ^ n / 1000 ^ n;
  rand_r = λ seed. (seed, seed + 1);
  get_subs_retry_params = λ endpoint. some (5, 2000);
  unset = (0, 0);
}

abbrev retry : ℕ → ℕ → Retry
retry instance next = record {
  instance = instance;
  msg_id = 1 ∷ [];
  subscription_id = 2 ∷ [];
  dest_endpoint = 3 ∷ [];
  differentiator = none;
  pbuf = 4 ∷ 5 ∷ [];
  retry_expiry_time = 1000;
  retry_count = 1;
  min_wait_interval = 5;
  interval_multiplier = 2000;
  next_retry_time = next;
}

pow_bounds :
    (n : ℕ)
    → 0 < n
    → n ≤ 10
    → (0 < 5 * 2000 ^ (n - 1) / 1000 ^ (n - 1))
      × (5 * 2000 ^ (n - 1) / 1000 ^ (n - 1) ≤ 5 * 2000 ^ n / 1000 ^ n)
      × (5 * 2000 ^ n / 1000 ^ n < uint_size)
pow_bounds zero a b = absurd (omega arith)
pow_bounds (suc zero) a b = (omega arith, omega arith, omega arith)
pow_bounds (suc (suc zero)) a b = (omega arith, omega arith, omega arith)
pow_bounds (suc (suc (suc zero))) a b = (omega arith, omega arith, omega arith)
pow_bounds (suc (suc (suc (suc zero)))) a b = (omega arith, omega arith, omega arith)
pow_bounds (suc (suc (suc (suc (suc zero))))) a b = (omega arith, omega arith, omega arith)
pow_bounds (suc (suc (suc (suc (suc (suc zero)))))) a b = (omega arith, omega arith, omega arith)
pow_bounds (suc (suc (suc (suc (suc (suc (suc zero))))))) a b =
    (omega arith, omega arith, omega arith)
pow_bounds (suc (suc (suc (suc (suc (suc (suc (suc zero)))))))) a b =
    (omega arith, omega arith, omega arith)
pow_bounds (suc (suc (suc (suc (suc (suc (suc (suc (suc zero))))))))) a b =
    (omega arith, omega arith, omega arith)
pow_bounds (suc (suc (suc (suc (suc (suc (suc (suc (suc (suc zero)))))))))) a b =
    (omega arith, omega arith, omega arith)
pow_bounds (suc (suc (suc (suc (suc (suc (suc (suc (suc (suc (suc n))))))))))) a b =
    absurd (omega arith)

retry-Waits : (instance next : ℕ) → Waits env (retry instance next)
retry-Waits instance next count = pow_bounds (limited_count count) (ground arith) (ground arith)

abbrev subs : Subs
subs = record {
  vector = retry 1 100 ∷ retry 2 200 ∷ [];
  first_retry_time = 100;
  seed = 0;
  sent = [];
}

subs-IsSynced : IsSynced env (timers.vector, subs)
unfolding lookup has_timer
subs-IsSynced = record {
  timer = fresh_timer 5 0 100;
  there = refl;
  alone = λ id p. ground arith;
  same_time = refl;
  waits = (retry-Waits 1 100, (retry-Waits 2 200, tt));
}

sends_the_first : due_messages 150 subs.vector ≡ (3 ∷ [], 4 ∷ 5 ∷ []) ∷ []
unfolding due_messages
sends_the_first = refl

abbrev idle_callback : Callbacks Subs
idle_callback timer_cb id s = ok s

idle-IsCalm : IsCalm idle_callback 150 (IsSynced env)
idle-IsCalm = record {
  marked = λ i l s. IsSynced-marked env i l s;
  calls =
      λ ts s st k h there due. (k, h, record { as_many = refl; no_new = λ j st' e d. (st', e, d) });
}

sync_timer_execute_lem_example :
    Returns (IsIdle 150 (IsSynced env)) (sync_timer_execute 3 idle_callback 150 (timers, subs))
sync_timer_execute_lem_example =
    sync_timer_execute_lem idle_callback 150 3 (IsSynced env) timers subs idle-IsCalm
      timers-IsTimers subs-IsSynced (ground arith)

abbrev message : Message
message = record {
  instance = 2;
  msg_id = 6 ∷ [];
  subscription_id = 2 ∷ [];
  dest_endpoint = 3 ∷ [];
  differentiator = some (9 ∷ []);
  pbuf = 8 ∷ [];
  retry_expiry_time = 2000;
}

subs_retry_add_lem_example :
    Returns
      (IsStored env 150 message (5, 2000) subs)
      (subs_retry_add env 150 message (timers, subs))
subs_retry_add_lem_example =
    subs_retry_add_lem env 150 message timers subs (5, 2000) refl
      (λ e. inl refl, (λ e. inl refl, tt)) ((refl, tt), (tt, tt))
