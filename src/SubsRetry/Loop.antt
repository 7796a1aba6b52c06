-- ===== src/SubsRetry/Loop.antt =====
-- src/core/subs_retry.c: SubsRetryExec.
use usp_agent_stomp.Common.{
  ℕ, ◌+◌, Bool, true, false, Option, none, some, List, [], ◌∷◌, ◌++◌, leb, ◌==◌, if◌then◌else◌,
}
use usp_agent_stomp.Result.{Result, ok, ◌>>◌, assert}
use usp_agent_stomp.SubsRetry.{
  Retry, Subs, RetryEnv, update_first_retry_time, garbage_collect_subs_retry,
}
use usp_agent_stomp.SubsRetry.Calls.{timed, next_seed}
use usp_agent_stomp.Timer.{Timers, is_due, Callbacks}

-- An entry whose time has come is sent again; the marks are those of the loop.
abbrev pub counted : Retry → Retry
counted sr = record sr { retry_count = sr.retry_count + 1 }

abbrev pub retried : RetryEnv → ℕ → Retry → ℕ → Option Retry
retried env cur_time sr seed =
    let next = timed env cur_time (counted sr) seed in
    if leb next.retry_expiry_time next.next_retry_time then none else some next

-- What the loop has made of the entries: the entries, the seed and the messages.
abbrev pub Swept : Type 0
Swept = List (Option Retry) × ℕ × List (List ℕ × List ℕ)

abbrev pub with_entry : Option Retry → Swept → Swept
with_entry sr (marked, seed, sent) = (sr ∷ marked, seed, sent)

abbrev pub with_message : Retry → Swept → Swept
with_message sr (marked, seed, sent) = (marked, seed, (sr.dest_endpoint, sr.pbuf) ∷ sent)

-- A round of the loop, by whether the entry has expired and whether it is due; `rest` is what the
-- other rounds make of the seed.
abbrev pub sweep : Bool → Bool → RetryEnv → ℕ → Retry → ℕ → (ℕ → Swept) → Swept
sweep true is_due env cur_time sr seed rest = with_entry none (rest seed)
sweep false true env cur_time sr seed rest =
    with_entry (retried env cur_time sr seed)
      (with_message sr (rest (next_seed env cur_time (counted sr) seed)))
sweep false false env cur_time sr seed rest = with_entry (some sr) (rest seed)

unfoldable pub exec_loop : RetryEnv → ℕ → List Retry → ℕ → Swept
exec_loop env cur_time [] seed = ([], seed, [])
exec_loop env cur_time (sr ∷ vector) seed =
    sweep (leb sr.retry_expiry_time cur_time) (leb sr.next_retry_time cur_time) env cur_time sr seed
      (exec_loop env cur_time vector)

unfoldable pub subs_retry_exec : RetryEnv → ℕ → Timers × Subs → Result (Timers × Subs)
subs_retry_exec env cur_time (ts, s) = do
  assert (leb s.first_retry_time cur_time)
  let r = exec_loop env cur_time s.vector s.seed
  ok (
      update_first_retry_time env (
        ts,
        record s { vector = garbage_collect_subs_retry r.0; seed = r.1; sent = s.sent ++ r.2 },
      ))

-- The call-backs of the timers, of which SubsRetryExec is one.
unfoldable pub dispatch : RetryEnv → ℕ → Callbacks Subs → Callbacks Subs
dispatch env cur_time others timer_cb id s =
    if timer_cb == env.subs_retry_exec then subs_retry_exec env cur_time s else others timer_cb id s
