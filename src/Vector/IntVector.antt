-- ===== src/Vector/IntVector.antt =====
-- src/core/int_vector.c: a bounded vector of 16-bit instance numbers.
use usp_agent_stomp.Common.{
  ℕ, ◌+◌, ◌-◌, ◌%◌, ◌≤◌, ◌<◌, ◌≡◌, refl, inl, inr, Bool, false, Option, none, some, List, [], ◌∷◌,
  ◌++◌, arith, ltb, leb, ◌==◌, if◌then◌else◌, Bool-cases, length, length-append, All, All-append,
}
use usp_agent_stomp.Common.Int.{ℤ, pos, negsuc}
use usp_agent_stomp.Result.{internal_error, Result, ok, err}

abbrev pub max_dm_instances : ℕ
max_dm_instances = 128

-- (short) number
abbrev pub short_of_int : ℤ → ℤ
short_of_int (pos n) =
    let low = n % 65536 in if ltb low 32768 then pos low else negsuc (65535 - low)
short_of_int (negsuc n) =
    let low = n % 65536 in if ltb low 32768 then negsuc low else pos (65535 - low)

abbrev pub int_eq : ℤ → ℤ → Bool
int_eq (pos a) (pos b) = a == b
int_eq (pos a) (negsuc b) = false
int_eq (negsuc a) (pos b) = false
int_eq (negsuc a) (negsuc b) = a == b

abbrev pub int_vector_init : List ℤ
int_vector_init = []

unfoldable pub int_vector_add : List ℤ → ℤ → Result (List ℤ)
int_vector_add iv number =
    if leb max_dm_instances (length iv)
    then err internal_error
    else ok (iv ++ short_of_int number ∷ [])

find_loop : List ℤ → ℤ → ℕ → Option ℕ
find_loop [] number i = none
find_loop (n ∷ iv) number i = if int_eq n number then some i else find_loop iv number (i + 1)

unfoldable pub int_vector_find : List ℤ → ℤ → Option ℕ
unfolding find_loop
int_vector_find iv number = find_loop iv number 0

-- The numbers that a `short` holds.
abbrev pub IsShort : ℤ → Type 0
IsShort (pos n) = n < 32768
IsShort (negsuc n) = n < 32768

find_loop-append :
    (iv : List ℤ) (number : ℤ) (i : ℕ)
    → IsShort number
    → (j : ℕ) × (find_loop (iv ++ short_of_int number ∷ []) number i ≡ some j) × (j ≤ i + length iv)
unfolding find_loop
find_loop-append [] (pos n) i h = (i, ground arith, omega arith)
find_loop-append [] (negsuc n) i h = (i, ground arith, omega arith)
find_loop-append (m ∷ iv) number i h = elim (Bool-cases (int_eq m number)) [
  | inl e ↦ (i, rw e, omega arith)
  | inr e ↦
      let (j, found, bound) = find_loop-append iv number (i + 1) h in (j, rw e found, omega arith)
]

added_eq :
    (iv : List ℤ) (number : ℤ) {iv' : List ℤ}
    → int_vector_add iv number ≡ ok iv'
    → iv' ≡ iv ++ short_of_int number ∷ []
unfolding int_vector_add
added_eq iv number h = ground arith

-- A number that fits a short is found after it has been added, at its own place or before it.
pub int_vector_find-add :
    (iv : List ℤ) (number : ℤ) {iv' : List ℤ}
    → IsShort number
    → int_vector_add iv number ≡ ok iv'
    → (j : ℕ) × (int_vector_find iv' number ≡ some j) × (j < length iv')
unfolding int_vector_find
int_vector_find-add iv number {iv'} h added =
    let e = added_eq iv number added in
    let (j, found, bound) = find_loop-append iv number 0 h in
    (j, rw e found, rw e (omega (arith, length-append iv (short_of_int number ∷ []))))

find_loop_wide :
    (iv : List ℤ) (n i : ℕ) → All IsShort iv → 32768 ≤ n → find_loop iv (pos n) i ≡ none
unfolding find_loop
find_loop_wide [] n i h big = refl
find_loop_wide (pos m ∷ iv) n i (hm, hs) big = ground (arith, find_loop_wide iv n (i + 1) hs big)
find_loop_wide (negsuc m ∷ iv) n i (hm, hs) big = find_loop_wide iv n (i + 1) hs big

short_of_int-IsShort : (number : ℤ) → IsShort (short_of_int number)
short_of_int-IsShort (pos n) = ground arith
short_of_int-IsShort (negsuc n) = ground arith

-- A number of 32768 or more is never found, also right after it was added.
pub int_vector_find_wide :
    (iv : List ℤ) (n : ℕ) {iv' : List ℤ}
    → All IsShort iv
    → 32768 ≤ n
    → int_vector_add iv (pos n) ≡ ok iv'
    → All IsShort iv' × (int_vector_find iv' (pos n) ≡ none)
unfolding int_vector_find
int_vector_find_wide iv n {iv'} h big added =
    let e = added_eq iv (pos n) added in
    let kept = All-append IsShort iv _ h (short_of_int-IsShort (pos n), tt) in
    (rw e kept, rw e (find_loop_wide _ n 0 kept big))
