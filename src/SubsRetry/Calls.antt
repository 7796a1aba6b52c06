-- ===== src/SubsRetry/Calls.antt =====
-- src/core/subs_retry.c: SUBS_RETRY_Add, SUBS_RETRY_Remove and SUBS_RETRY_Delete.
use usp_agent_stomp.Common.{
  ℕ, suc, Bool, ◌&&◌, Option, none, some, List, [], ◌∷◌, ◌++◌, ◌==◌, if◌then◌else◌, set, take, drop,
  str_eq,
}
use usp_agent_stomp.Result.{Result, ok, ◌>>=◌}
use usp_agent_stomp.SubsRetry.{
  Retry, Subs, RetryEnv, calc_next_subs_retry_time, update_first_retry_time,
  garbage_collect_subs_retry, find_retry_entry,
}
use usp_agent_stomp.Timer.{Timers}

-- What the caller of SUBS_RETRY_Add hands over.
pub record Message : Type 0 where
  pub instance : ℕ
  pub msg_id : List ℕ
  pub subscription_id : List ℕ
  pub dest_endpoint : List ℕ
  pub differentiator : Option (List ℕ)
  pub pbuf : List ℕ
  pub retry_expiry_time : ℕ

abbrev pub entry_of : Message → ℕ × ℕ → Retry
entry_of m params = record {
  instance = m.instance;
  msg_id = m.msg_id;
  subscription_id = m.subscription_id;
  dest_endpoint = m.dest_endpoint;
  differentiator = m.differentiator;
  pbuf = m.pbuf;
  retry_expiry_time = m.retry_expiry_time;
  retry_count = 1;
  min_wait_interval = params.0;
  interval_multiplier = params.1;
  next_retry_time = 0;
}

abbrev pub timed : RetryEnv → ℕ → Retry → ℕ → Retry
timed env cur_time sr seed = record sr {
  next_retry_time = (calc_next_subs_retry_time env cur_time sr seed).0;
}

abbrev pub next_seed : RetryEnv → ℕ → Retry → ℕ → ℕ
next_seed env cur_time sr seed = (calc_next_subs_retry_time env cur_time sr seed).1

-- The new entry, in the place of the one it replaces or behind all others.
abbrev pub put : Option ℕ → Retry → List Retry → List Retry
put none sr vector = vector ++ sr ∷ []
put (some i) sr vector = set vector i sr

abbrev pub store : RetryEnv → ℕ → Message → ℕ × ℕ → Timers × Subs → Result (Timers × Subs)
store env cur_time m params (ts, s) =
    find_retry_entry m.instance m.differentiator s.vector 0 >>= (λ found.
      let sr = entry_of m params in
      ok (
        update_first_retry_time env (
          ts,
          record s {
            vector = put found (timed env cur_time sr s.seed) s.vector;
            seed = next_seed env cur_time sr s.seed;
          },
        )))

-- The controller is disabled: an entry that exists is deleted, and the time of the first retry stays.
abbrev pub drop_entry : Timers × Subs → ℕ → Timers × Subs
drop_entry (ts, s) i = (ts, record s { vector = take i s.vector ++ drop (suc i) s.vector })

unfoldable pub subs_retry_add : RetryEnv → ℕ → Message → Timers × Subs → Result (Timers × Subs)
subs_retry_add env cur_time m (ts, s) = elim (env.get_subs_retry_params m.dest_endpoint) [
  | some params ↦ store env cur_time m params (ts, s)
  | none ↦ find_retry_entry m.instance m.differentiator s.vector 0 >>= (λ found. elim found [
    | some i ↦ ok (drop_entry (ts, s) i)
    | none ↦ store env cur_time m env.unset (ts, s)
  ])
]

abbrev pub is_answered : List ℕ → List ℕ → Retry → Bool
is_answered msg_id subscription_id sr =
    str_eq sr.msg_id msg_id && str_eq sr.subscription_id subscription_id

-- The first entry that is answered is marked; `none` if there is no such entry.
unfoldable pub remove_loop : List ℕ → List ℕ → List Retry → Option (List Retry)
remove_loop msg_id subscription_id [] = none
remove_loop msg_id subscription_id (sr ∷ vector) =
    let rest = remove_loop msg_id subscription_id vector in
    if is_answered msg_id subscription_id sr
    then some vector
    else elim rest [ none ↦ none | some kept ↦ some (sr ∷ kept) ]

unfoldable pub subs_retry_remove : RetryEnv → List ℕ → List ℕ → Timers × Subs → Timers × Subs
subs_retry_remove env msg_id subscription_id (ts, s) =
    elim (remove_loop msg_id subscription_id s.vector) [
      | none ↦ (ts, s)
      | some kept ↦ update_first_retry_time env (ts, record s { vector = kept })
    ]

unfoldable pub delete_loop : ℕ → List Retry → List (Option Retry)
delete_loop instance [] = []
delete_loop instance (sr ∷ vector) =
    (if sr.instance == instance then none else some sr) ∷ delete_loop instance vector

unfoldable pub subs_retry_delete : RetryEnv → ℕ → Timers × Subs → Timers × Subs
subs_retry_delete env instance (ts, s) =
    update_first_retry_time env
      (ts, record s { vector = garbage_collect_subs_retry (delete_loop instance s.vector) })
