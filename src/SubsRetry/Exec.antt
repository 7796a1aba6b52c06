-- ===== src/SubsRetry/Exec.antt =====
-- src/core/subs_retry.c: the loop of SubsRetryExec.
use usp_agent_stomp.Common.{
  ℕ, ◌+◌, ◌≤◌, ◌<◌, ◌≡◌, refl, ap, ◌∙◌, subst, inl, inr, ◌&&◌, Option, none, some, List, [], ◌∷◌,
  arith, ltb, leb, if◌then◌else◌, Bool-cases, All,
}
use usp_agent_stomp.SubsRetry.{
  Retry, RetryEnv, uint_size, retry_wait_calculate, calc_next_subs_retry_time,
  garbage_collect_subs_retry,
}
use usp_agent_stomp.SubsRetry.Calls.{timed, next_seed}
use usp_agent_stomp.SubsRetry.Wait.{least_wait, most_wait, retry_wait_calculate_bounds}
use usp_agent_stomp.SubsRetry.Loop.{counted, retried, Swept, with_entry, exec_loop}

-- The bounds of each wait of the entry are at least a second, in order, and fit an `unsigned`.
abbrev pub Waits : RetryEnv → Retry → Type 0
Waits env sr =
    (count : ℕ)
    → (0 < least_wait env count sr.min_wait_interval sr.interval_multiplier)
      × (least_wait env count sr.min_wait_interval sr.interval_multiplier
          ≤ most_wait env count sr.min_wait_interval sr.interval_multiplier)
      × (most_wait env count sr.min_wait_interval sr.interval_multiplier < uint_size)

wait-pos :
    (env : RetryEnv) (sr : Retry) (count seed : ℕ)
    → Waits env sr
    → 0 < (retry_wait_calculate env count sr.min_wait_interval sr.interval_multiplier seed).0
wait-pos env sr count seed w =
    let (above, ordered, small) = w count in
    let bounds =
      retry_wait_calculate_bounds env count sr.min_wait_interval sr.interval_multiplier seed ordered
        small in
    omega (arith, above, bounds.0)

-- The entry is to be retried later, and before it expires.
pub record IsWaiting (cur_time : ℕ) (sr : Retry) : Type 0 where
  pub later : cur_time < sr.next_retry_time
  pub unexpired : cur_time < sr.retry_expiry_time

-- What the loop should send: each entry that is due and has not expired, in order.
unfoldable pub due_messages : ℕ → List Retry → List (List ℕ × List ℕ)
due_messages cur_time [] = []
due_messages cur_time (sr ∷ vector) =
    let rest = due_messages cur_time vector in
    if leb sr.next_retry_time cur_time && ltb cur_time sr.retry_expiry_time
    then (sr.dest_endpoint, sr.pbuf) ∷ rest
    else rest

pub exec_loop-sent :
    (env : RetryEnv) (cur : ℕ) (l : List Retry) (seed : ℕ)
    → (exec_loop env cur l seed).2 ≡ due_messages cur l
unfolding exec_loop due_messages
exec_loop-sent env cur [] seed = refl
exec_loop-sent env cur (sr ∷ l) seed = elim (Bool-cases (leb sr.retry_expiry_time cur)) [
  | inl e ↦ rw e (exec_loop-sent env cur l seed ∙ ground arith)
  | inr e ↦ elim (Bool-cases (leb sr.next_retry_time cur)) [
    | inl d ↦
        rw (e, d)
          (ap (◌∷◌ (sr.dest_endpoint, sr.pbuf))
              (exec_loop-sent env cur l (next_seed env cur (counted sr) seed))
            ∙ ground arith)
    | inr d ↦ rw (e, d) (exec_loop-sent env cur l seed ∙ ground arith)
  ]
]

collected-IsWaiting :
    (cur : ℕ) (sr : Option Retry) (r : Swept)
    → ((kept : Retry) → sr ≡ some kept → IsWaiting cur kept)
    → All (IsWaiting cur) (garbage_collect_subs_retry r.0)
    → All (IsWaiting cur) (garbage_collect_subs_retry (with_entry sr r).0)
unfolding garbage_collect_subs_retry
collected-IsWaiting cur none r h a = a
collected-IsWaiting cur (some sr) r h a = (h sr refl, a)

kept-IsWaiting :
    (cur : ℕ) (next kept : Retry)
    → cur < next.next_retry_time
    → (if leb next.retry_expiry_time next.next_retry_time then none else some next) ≡ some kept
    → IsWaiting cur kept
kept-IsWaiting cur next kept lt e =
    elim (Bool-cases (leb next.retry_expiry_time next.next_retry_time)) [
      | inl k ↦ ground arith
      | inr k ↦
          let same : next ≡ kept = ground arith in
          subst (IsWaiting cur) same (record { later = lt; unexpired = ground arith })
    ]

retried-IsWaiting :
    (env : RetryEnv) (cur : ℕ) (sr : Retry) (seed : ℕ) (kept : Retry)
    → Waits env sr
    → retried env cur sr seed ≡ some kept
    → IsWaiting cur kept
unfolding calc_next_subs_retry_time
retried-IsWaiting env cur sr seed kept w e =
    kept-IsWaiting cur (timed env cur (counted sr) seed) kept
      (ground (arith, wait-pos env sr (sr.retry_count + 1) seed w)) e

nothing : (cur : ℕ) → All (IsWaiting cur) (garbage_collect_subs_retry [])
unfolding garbage_collect_subs_retry
nothing cur = tt

pub exec_loop-IsWaiting :
    (env : RetryEnv) (cur : ℕ) (l : List Retry) (seed : ℕ)
    → All (Waits env) l
    → All (IsWaiting cur) (garbage_collect_subs_retry (exec_loop env cur l seed).0)
unfolding exec_loop
exec_loop-IsWaiting env cur [] seed w = nothing cur
exec_loop-IsWaiting env cur (sr ∷ l) seed (w, ws) =
    elim (Bool-cases (leb sr.retry_expiry_time cur)) [
      | inl e ↦ rw e (
          collected-IsWaiting cur none (exec_loop env cur l seed) (λ k q. cc)
            (exec_loop-IsWaiting env cur l seed ws))
      | inr e ↦ elim (Bool-cases (leb sr.next_retry_time cur)) [
        | inl d ↦
            let seed' = next_seed env cur (counted sr) seed in
            rw (e, d)
              (collected-IsWaiting cur (retried env cur sr seed) (exec_loop env cur l seed')
                (λ k q. retried-IsWaiting env cur sr seed k w q)
                (exec_loop-IsWaiting env cur l seed' ws))
        | inr d ↦
            rw (e, d)
              (collected-IsWaiting cur (some sr) (exec_loop env cur l seed)
                (λ k q.
                  let same : sr ≡ k = cc in
                  subst (IsWaiting cur) same
                    (record { later = ground arith; unexpired = ground arith }))
                (exec_loop-IsWaiting env cur l seed ws))
      ]
    ]

collected-Waits :
    (env : RetryEnv) (sr : Option Retry) (r : Swept)
    → ((kept : Retry) → sr ≡ some kept → Waits env kept)
    → All (Waits env) (garbage_collect_subs_retry r.0)
    → All (Waits env) (garbage_collect_subs_retry (with_entry sr r).0)
unfolding garbage_collect_subs_retry
collected-Waits env none r h a = a
collected-Waits env (some sr) r h a = (h sr refl, a)

-- An entry that is sent again keeps its interval and its multiplier.
retried-Waits :
    (env : RetryEnv) (cur : ℕ) (sr : Retry) (seed : ℕ) (kept : Retry)
    → Waits env sr
    → retried env cur sr seed ≡ some kept
    → Waits env kept
retried-Waits env cur sr seed kept w e =
    let next = timed env cur (counted sr) seed in
    elim (Bool-cases (leb next.retry_expiry_time next.next_retry_time)) [
      | inl k ↦ ground arith
      | inr k ↦ let same : next ≡ kept = ground arith in subst (Waits env) same w
    ]

empty-Waits : (env : RetryEnv) → All (Waits env) (garbage_collect_subs_retry [])
unfolding garbage_collect_subs_retry
empty-Waits env = tt

pub exec_loop-Waits :
    (env : RetryEnv) (cur : ℕ) (l : List Retry) (seed : ℕ)
    → All (Waits env) l
    → All (Waits env) (garbage_collect_subs_retry (exec_loop env cur l seed).0)
unfolding exec_loop
exec_loop-Waits env cur [] seed w = empty-Waits env
exec_loop-Waits env cur (sr ∷ l) seed (w, ws) = elim (Bool-cases (leb sr.retry_expiry_time cur)) [
  | inl e ↦ rw e (
      collected-Waits env none (exec_loop env cur l seed) (λ k q. cc)
        (exec_loop-Waits env cur l seed ws))
  | inr e ↦ elim (Bool-cases (leb sr.next_retry_time cur)) [
    | inl d ↦
        let seed' = next_seed env cur (counted sr) seed in
        rw (e, d)
          (collected-Waits env (retried env cur sr seed) (exec_loop env cur l seed')
            (λ k q. retried-Waits env cur sr seed k w q) (exec_loop-Waits env cur l seed' ws))
    | inr d ↦
        rw (e, d)
          (collected-Waits env (some sr) (exec_loop env cur l seed)
            (λ k q. let same : sr ≡ k = cc in subst (Waits env) same w)
            (exec_loop-Waits env cur l seed ws))
  ]
]
