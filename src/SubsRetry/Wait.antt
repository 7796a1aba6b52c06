-- ===== src/SubsRetry/Wait.antt =====
-- src/core/retry_wait.c: how long to wait before a retry.
use native.Mathlib.Nat.{mod-lt}
use usp_agent_stomp.Common.{
  ℕ, ◌+◌, ◌-◌, ◌%◌, ◌≤◌, ◌<◌, ◌≡◌, refl, sym, subst, ◌⊎◌, inl, inr, arith, ltb, if◌then◌else◌,
  Bool-cases,
}
use usp_agent_stomp.SubsRetry.{RetryEnv, uint_size, limited_count, retry_wait_calculate}

-- The bounds of the wait for a count, which grow up to the tenth retry.
abbrev pub least_wait : RetryEnv → ℕ → ℕ → ℕ → ℕ
least_wait env retry_count m k = env.scaled_pow m k (limited_count retry_count - 1)

abbrev pub most_wait : RetryEnv → ℕ → ℕ → ℕ → ℕ
most_wait env retry_count m k = env.scaled_pow m k (limited_count retry_count)

range_lem :
    (least most : ℕ)
    → least ≤ most
    → most < uint_size
    → (most + uint_size - least) % uint_size ≡ most - least
range_lem least most h b = ground arith

abbrev chosen : ℕ → ℕ → ℕ → ℕ
chosen least range random = if ltb 0 range then (least + random % range) % uint_size else least

-- The wait is within the bounds.
abbrev IsBetween : ℕ → ℕ → ℕ → Type 0
IsBetween least most wait = (least ≤ wait) × ((least ≡ wait) ⊎ (wait < most))

chosen-IsBetween :
    (least most random : ℕ)
    → least ≤ most
    → most < uint_size
    → IsBetween least most (chosen least (most - least) random)
chosen-IsBetween least most random h b = elim (Bool-cases (ltb 0 (most - least))) [
  | inl e ↦
      let small = mod-lt random {m = most - least} (ground arith) in
      rw e (ground arith, inr (ground arith))
  | inr e ↦ rw e (ground arith, inl refl)
]

-- RETRY_WAIT_Calculate returns at least the lower bound, and less than the upper one where there is
-- room between them, whatever the random number, if the bounds are in order and fit 32 bits.
pub retry_wait_calculate_bounds :
    (env : RetryEnv) (retry_count m k seed : ℕ)
    → least_wait env retry_count m k ≤ most_wait env retry_count m k
    → most_wait env retry_count m k < uint_size
    → let wait = (retry_wait_calculate env retry_count m k seed).0 in
      (least_wait env retry_count m k ≤ wait)
      × ((least_wait env retry_count m k ≡ wait) ⊎ (wait < most_wait env retry_count m k))
unfolding retry_wait_calculate
retry_wait_calculate_bounds env retry_count m k seed h b =
    let least = least_wait env retry_count m k in
    let most = most_wait env retry_count m k in
    subst (λ range. IsBetween least most (chosen least range (env.rand_r seed).0))
      (sym (range_lem least most h b)) (chosen-IsBetween least most (env.rand_r seed).0 h b)
