-- ===== src/SubsRetry/Timing.antt =====
-- src/core/subs_retry.c: SubsRetryExec, and how it works with the timers.
use usp_agent_stomp.Common.{
  ℕ, zero, suc, ◌<◌, ◌≡◌, refl, ap, ◌∙◌, inl, inr, false, some, List, [], ◌∷◌, ◌++◌, arith,
  Bool-cases, All,
}
use usp_agent_stomp.SubsRetry.{Subs, RetryEnv}
use usp_agent_stomp.SubsRetry.Exec.{Waits, IsWaiting, due_messages}
use usp_agent_stomp.SubsRetry.Loop.{subs_retry_exec}
use usp_agent_stomp.Timer.{SyncTimer, Timers, is_timer, change_at, mark_fired}
use usp_agent_stomp.Timer.Entries.{IsKeyed, IsCalmed}
use usp_agent_stomp.Timer.Keys.{has_timer, lookup, has-change_at}

-- What the reload of the retries' timer leaves.
record IsReloaded (env : RetryEnv) (cur first : ℕ) (l l' : List SyncTimer) : Type 0 where
  keyed : IsKeyed l'
  calmed : IsCalmed cur l l'
  same_keys : (c j : ℕ) → has_timer c j l' ≡ has_timer c j l
  timer : (st : SyncTimer) × (lookup env.subs_retry_exec 0 l' ≡ some st) × (st.next_timeout ≡ first)

-- SubsRetryExec has one timer, with the id 0, which is set to the time of the first retry, and the
-- waits of the entries have bounds as `Waits` asks.
pub record IsSynced (env : RetryEnv) (s : List SyncTimer × Subs) : Type 0 where
  pub timer : SyncTimer
  pub there : lookup env.subs_retry_exec 0 s.0 ≡ some timer
  pub alone : (id : ℕ) → 0 < id → has_timer env.subs_retry_exec id s.0 ≡ false
  pub same_time : timer.next_timeout ≡ s.1.first_retry_time
  pub waits : All (Waits env) s.1.vector

-- What a run of SubsRetryExec leaves.
pub record IsSwept (env : RetryEnv) (cur : ℕ) (ts : Timers) (s : Subs) (r : Timers × Subs)
    : Type 0 where
  pub sent : r.1.sent ≡ s.sent ++ due_messages cur s.vector
  pub waiting : All (IsWaiting cur) r.1.vector
  pub synced : IsSynced env (r.0.vector, r.1)
  pub keyed : IsKeyed r.0.vector
  pub calmed : IsCalmed cur ts.vector r.0.vector

lookup-marked :
    (c j i : ℕ) (l : List SyncTimer) (st : SyncTimer)
    → lookup c j l ≡ some st
    → (st' : SyncTimer) × (lookup c j (change_at mark_fired i l) ≡ some st')
      × (st'.next_timeout ≡ st.next_timeout)
unfolding lookup change_at
lookup-marked c j i [] st h = cc
lookup-marked c j zero (x ∷ l) st h = elim (Bool-cases (is_timer c j x)) [
  | inl e ↦
      let same : x ≡ st = ground arith in
      (mark_fired x, ground arith, ap (λ (s : SyncTimer). s.next_timeout) same)
  | inr e ↦ (st, ground arith, refl)
]
lookup-marked c j (suc i) (x ∷ l) st h = elim (Bool-cases (is_timer c j x)) [
  | inl e ↦
      let same : x ≡ st = ground arith in
      (x, ground arith, ap (λ (s : SyncTimer). s.next_timeout) same)
  | inr e ↦ let (st', f, t) = lookup-marked c j i l st (ground arith) in (st', ground arith, t)
]

pub IsSynced-marked :
    (env : RetryEnv) (i : ℕ) (l : List SyncTimer) (s : Subs)
    → IsSynced env (l, s)
    → IsSynced env (change_at mark_fired i l, s)
IsSynced-marked env i l s h =
    let (st, e, t) = lookup-marked env.subs_retry_exec 0 i l h.timer h.there in
    record {
      timer = st;
      there = e;
      alone =
          λ id p. has-change_at mark_fired i env.subs_retry_exec id l (λ x. refl) ∙ h.alone id p;
      same_time = t ∙ h.same_time;
      waits = h.waits;
    }
