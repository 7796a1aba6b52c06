-- ===== src/Result.antt =====
-- The outcome of a function that reports USP error codes (src/include/usp_err_codes.h) or that may
-- stop the process by USP_ASSERT or a trap.
use usp_agent_stomp.Common.{Bool, true, false}

-- The error codes that the modelled functions return.
pub data UspErr : Type 0 where
  internal_error invalid_arguments resources_exceeded : UspErr
  invalid_path request_denied not_a_table object_does_not_exist : UspErr
  object_not_creatable : UspErr
  invalid_type invalid_value invalid_path_syntax : UspErr

-- `abort` is a failed USP_ASSERT, a division by zero, TERMINATE_BAD_CASE, memory that cannot be
-- allocated, a write outside a buffer or the overflow of a signed number, which C leaves undefined;
-- `out_of_fuel` is a loop whose bound on the rounds was too small.
pub data Result {ℓ} (A : Type ℓ) : Type ℓ where
  ok : A → Result A
  err : UspErr → Result A
  abort : Result A
  out_of_fuel : Result A

infixl 5 ◌>>=◌ ◌>>◌
abbrev pub ◌>>=◌ {ℓ κ} : {A : Type ℓ} {B : Type κ} → Result A → (A → Result B) → Result B
ok a >>= f = f a
err e >>= f = err e
abort >>= f = abort
out_of_fuel >>= f = out_of_fuel

abbrev pub ◌>>◌ {ℓ} : {B : Type ℓ} → Result (Unit {0}) → Result B → Result B
m >> k = m >>= λ _. k

-- USP_ASSERT
abbrev pub assert : Bool → Result (Unit {0})
assert true = ok tt
assert false = abort

abbrev pub guard : Bool → UspErr → Result (Unit {0})
guard true e = ok tt
guard false e = err e

-- `if (err != USP_ERR_OK)`: go on with the value, or take the error path.
abbrev pub try {ℓ κ} : {A : Type ℓ} {B : Type κ} → Result A → (A → Result B) → Result B → Result B
try (ok a) f failed = f a
try (err e) f failed = failed
try abort f failed = abort
try out_of_fuel f failed = out_of_fuel

-- A property of the value that a function returns, where it returns one.
abbrev pub Ensures {ℓ κ} : {A : Type ℓ} → (A → Type κ) → Result A → Type κ
Ensures P (ok a) = P a
Ensures P (err e) = Unit
Ensures P abort = Unit
Ensures P out_of_fuel = Unit

pub always : {A : Type 0} (r : Result A) → Ensures (λ _. Unit {0}) r
always (ok a) = tt
always (err e) = tt
always abort = tt
always out_of_fuel = tt

module _ {ℓ κ} {A B : Type ℓ} (P : A → Type κ) (Q : B → Type κ) where
  pub Ensures->>= :
      (r : Result A) (f : A → Result B)
      → Ensures P r
      → ((a : A) → P a → Ensures Q (f a))
      → Ensures Q (r >>= f)
  Ensures->>= (ok a) f h k = k a h
  Ensures->>= (err e) f h k = tt
  Ensures->>= abort f h k = tt
  Ensures->>= out_of_fuel f h k = tt

  pub Ensures-try :
      (r : Result A) (f : A → Result B) (failed : Result B)
      → Ensures P r
      → ((a : A) → P a → Ensures Q (f a))
      → Ensures Q failed
      → Ensures Q (try r f failed)
  Ensures-try (ok a) f failed h k e = k a h
  Ensures-try (err x) f failed h k e = e
  Ensures-try abort f failed h k e = tt
  Ensures-try out_of_fuel f failed h k e = tt

module _ {ℓ κ} {A : Type ℓ} (P Q : A → Type κ) where
  pub Ensures-mono : (r : Result A) → Ensures P r → ((a : A) → P a → Q a) → Ensures Q r
  Ensures-mono (ok a) h k = k a h
  Ensures-mono (err e) h k = tt
  Ensures-mono abort h k = tt
  Ensures-mono out_of_fuel h k = tt

-- The function returns a value with the property, and does nothing else.
abbrev pub Returns {ℓ} : {A : Type ℓ} → (A → Type 0) → Result A → Type 0
Returns P (ok a) = P a
Returns P (err e) = ⊥
Returns P abort = ⊥
Returns P out_of_fuel = ⊥

module _ {ℓ} {A : Type ℓ} (P Q : A → Type 0) where
  pub Returns_mono : (r : Result A) → Returns P r → ((a : A) → P a → Q a) → Returns Q r
  Returns_mono (ok a) h k = k a h
  Returns_mono (err e) h k = absurd h
  Returns_mono abort h k = absurd h
  Returns_mono out_of_fuel h k = absurd h

pub Ensures-Returns :
    {A : Type 0} (P : A → Type 0) (r : Result A)
    → Ensures P r
    → Returns (λ _. Unit {0}) r
    → Returns P r
Ensures-Returns P (ok a) h k = h
Ensures-Returns P (err e) h k = absurd k
Ensures-Returns P abort h k = absurd k
Ensures-Returns P out_of_fuel h k = absurd k

-- The function returns a value with the property, reports an error or stops the process.
abbrev pub Ends {ℓ} : {A : Type ℓ} → (A → Type 0) → Result A → Type 0
Ends P (ok a) = P a
Ends P (err e) = Unit
Ends P abort = Unit
Ends P out_of_fuel = ⊥

module _ {ℓ} {A B : Type ℓ} (P : A → Type 0) (Q : B → Type 0) where
  pub Returns->>= :
      (r : Result A) (f : A → Result B)
      → Returns P r
      → ((a : A) → P a → Returns Q (f a))
      → Returns Q (r >>= f)
  Returns->>= (ok a) f h k = k a h
  Returns->>= (err e) f h k = absurd h
  Returns->>= abort f h k = absurd h
  Returns->>= out_of_fuel f h k = absurd h

  pub Ends->>= :
      (r : Result A) (f : A → Result B)
      → Ends P r
      → ((a : A) → P a → Ends Q (f a))
      → Ends Q (r >>= f)
  Ends->>= (ok a) f h k = k a h
  Ends->>= (err e) f h k = tt
  Ends->>= abort f h k = tt
  Ends->>= out_of_fuel f h k = absurd h

  pub Ends-try :
      (r : Result A) (f : A → Result B) (failed : Result B)
      → Ends P r
      → ((a : A) → P a → Ends Q (f a))
      → Ends Q failed
      → Ends Q (try r f failed)
  Ends-try (ok a) f failed h k e = k a h
  Ends-try (err x) f failed h k e = e
  Ends-try abort f failed h k e = tt
  Ends-try out_of_fuel f failed h k e = absurd h

-- The function returns a value with the property or reports an error, and does nothing else.
abbrev pub Answers {ℓ} : {A : Type ℓ} → (A → Type 0) → Result A → Type 0
Answers P (ok a) = P a
Answers P (err e) = Unit
Answers P abort = ⊥
Answers P out_of_fuel = ⊥

module _ {ℓ} {A B : Type ℓ} (P : A → Type 0) (Q : B → Type 0) where
  pub Returns-try :
      (r : Result A) (f : A → Result B) (failed : Result B)
      → Answers P r
      → ((a : A) → P a → Returns Q (f a))
      → Returns Q failed
      → Returns Q (try r f failed)
  Returns-try (ok a) f failed h k e = k a h
  Returns-try (err x) f failed h k e = e
  Returns-try abort f failed h k e = absurd h
  Returns-try out_of_fuel f failed h k e = absurd h
