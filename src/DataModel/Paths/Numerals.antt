-- ===== src/DataModel/Paths/Numerals.antt =====
-- src/core/data_model.c: instance numbers written to a text and read back.
use usp_agent_stomp.Common.{
  ℕ, zero, suc, ◌+◌, ◌-◌, ◌*◌, ◌/◌, ◌%◌, ◌≤◌, ◌<◌, ◌≡◌, refl, sym, ap, ◌∙◌, ◌≢◌, inl, inr, some,
  List, [], ◌∷◌, ◌++◌, append_assoc, append-nil, arith, ◌==◌, ==_iff, ==_refl, Bool-cases, length,
  length-append, take-all, All, Bytes,
}
use usp_agent_stomp.Result.{ok, Returns}
use usp_agent_stomp.Text.Number.{decimal_value, IsDigit, print_digits, print_unsigned}
use usp_agent_stomp.DataModel.Instances.{max_dm_instance_order}
use usp_agent_stomp.DataModel.Paths.{
  instance_string_loop, form_instance_string, parse_instance_integer, parse_instances_loop,
  parse_instance_string,
}

print_digits-value :
    (fuel n : ℕ) (out : Bytes)
    → n ≤ fuel
    → decimal_value 0 (print_digits fuel n out) ≡ decimal_value n out
unfolding print_digits
print_digits-value zero n out h = let e : n ≡ 0 = omega arith in rw e
print_digits-value (suc fuel) n out h = elim (Bool-cases (n == 0)) [
  | inl e ↦ rw (e, (==_iff n 0).0 e)
  | inr e ↦ rw e (
      print_digits-value fuel (n / 10) ((b'0' + n % 10) ∷ out) (ground arith)
      ∙ ap (λ m. decimal_value m out) (omega arith))
]

print_digits-IsDigit :
    (fuel n : ℕ) (out : Bytes) → All IsDigit out → All IsDigit (print_digits fuel n out)
unfolding print_digits
print_digits-IsDigit zero n out h = h
print_digits-IsDigit (suc fuel) n out h = elim (Bool-cases (n == 0)) [
  | inl e ↦ rw e h
  | inr e ↦
      rw e
        (print_digits-IsDigit fuel (n / 10) ((b'0' + n % 10) ∷ out) ((omega arith, omega arith), h))
]

has_digit : (s : Bytes) → decimal_value 0 s ≢ 0 → 0 < length s
has_digit [] h = absurd (h refl)
has_digit (c ∷ s) h = omega arith

-- A number in decimal: its digits, and nothing else.
pub record IsNumeral (n : ℕ) (s : Bytes) : Type 0 where
  pub digits : All IsDigit s
  pub value : decimal_value 0 s ≡ n
  pub some_digit : 0 < length s

pub print_unsigned-IsNumeral : (n : ℕ) → IsNumeral n (print_unsigned n)
unfolding print_unsigned
print_unsigned-IsNumeral n = elim (Bool-cases (n == 0)) [
  | inl e ↦
      rw e
        (record { digits = omega arith; value = sym ((==_iff n 0).0 e); some_digit = omega arith })
  | inr e ↦ rw e (record {
    digits = print_digits-IsDigit n n [] tt;
    value = print_digits-value n n [] (omega arith);
    some_digit =
        has_digit (print_digits n n [])
          (λ z. cc (print_digits-value n n [] (omega arith), z, e, ==_refl n));
  })
]

parse-digits :
    (value : ℕ) (s rest : Bytes)
    → All IsDigit s
    → parse_instance_integer value (s ++ rest) ≡ parse_instance_integer (decimal_value value s) rest
unfolding parse_instance_integer
parse-digits value [] rest h = refl
parse-digits value (c ∷ s) rest (d, h) =
    ground (arith, parse-digits (value * 10 + (c - b'0')) s rest h)

-- The texts of the numbers, each behind the separator but the first, which is behind `separator`.
abbrev pub numerals : Bytes → List ℕ → Bytes
numerals separator [] = []
numerals separator (n ∷ numbers) = (separator ++ print_unsigned n) ++ numerals (b'.' ∷ []) numbers

form-step :
    (numbers : List ℕ) (separator : Bytes) (n len : ℕ) (buf : Bytes)
    → 0 < length (separator ++ print_unsigned n)
    → length (separator ++ print_unsigned n) < len
    → instance_string_loop (n ∷ numbers) separator len buf
      ≡ instance_string_loop numbers
          (b'.' ∷ [])
          (len - length (separator ++ print_unsigned n))
          (buf ++ (separator ++ print_unsigned n))
unfolding instance_string_loop
form-step numbers separator n len buf pos fits =
    ground (arith, take-all (len - 1) (separator ++ print_unsigned n) (omega arith))

form-loop :
    (numbers : List ℕ) (separator : Bytes) (len : ℕ) (buf : Bytes)
    → length (numerals separator numbers) < len
    → instance_string_loop numbers separator len buf ≡ ok (buf ++ numerals separator numbers)
unfolding instance_string_loop
form-loop [] separator len buf h = rw (append-nil buf)
form-loop (n ∷ numbers) separator len buf h =
    let text = separator ++ print_unsigned n in
    let later = numerals (b'.' ∷ []) numbers in
    let sum = length-append text later in
    let digits = (print_unsigned-IsNumeral n).some_digit in
    form-step numbers separator n len buf
      (omega (arith, length-append separator (print_unsigned n), digits)) (omega (arith, sum, h))
    ∙ form-loop numbers (b'.' ∷ []) (len - length text) (buf ++ text) (omega (arith, sum, h))
    ∙ ap ok (append_assoc buf text later)

parse-numeral-last : (n : ℕ) → parse_instance_integer 0 (print_unsigned n ++ []) ≡ some (n, [])
unfolding parse_instance_integer
parse-numeral-last n =
    let p = print_unsigned-IsNumeral n in
    parse-digits 0 (print_unsigned n) [] p.digits ∙ rw (p.value)

parse-numeral-next :
    (n : ℕ) (rest : Bytes)
    → parse_instance_integer 0 (print_unsigned n ++ (b'.' ∷ rest)) ≡ some (n, rest)
unfolding parse_instance_integer
parse-numeral-next n rest =
    let p = print_unsigned-IsNumeral n in
    parse-digits 0 (print_unsigned n) (b'.' ∷ rest) p.digits ∙ rw (p.value)

parse_loop-step :
    (fuel : ℕ) (s rest : Bytes) (n : ℕ) (numbers : List ℕ)
    → 0 < length s
    → length numbers < max_dm_instance_order
    → parse_instance_integer 0 s ≡ some (n, rest)
    → parse_instances_loop (suc fuel) s numbers ≡ parse_instances_loop fuel rest (numbers ++ n ∷ [])
unfolding parse_instances_loop
parse_loop-step fuel [] rest n numbers pos few e = absurd (omega arith)
parse_loop-step fuel (c ∷ s) rest n numbers pos few e = ground arith

parse_nothing : (fuel : ℕ) (numbers : List ℕ) → parse_instances_loop fuel [] numbers ≡ ok numbers
unfolding parse_instances_loop
parse_nothing zero numbers = refl
parse_nothing (suc fuel) numbers = refl

parse-loop :
    (numbers : List ℕ) (n fuel : ℕ) (before : List ℕ)
    → length before + suc (length numbers) ≤ max_dm_instance_order
    → length numbers < fuel
    → parse_instances_loop fuel (numerals [] (n ∷ numbers)) before ≡ ok (before ++ n ∷ numbers)
parse-loop numbers n zero before few h = absurd (omega arith)
parse-loop [] n (suc fuel) before few h =
    parse_loop-step fuel (print_unsigned n ++ []) [] n before
      (omega (arith, length-append (print_unsigned n) [], (print_unsigned-IsNumeral n).some_digit))
      (omega (arith, few)) (parse-numeral-last n)
    ∙ parse_nothing fuel (before ++ n ∷ [])
parse-loop (m ∷ numbers) n (suc fuel) before few h =
    let rest = numerals [] (m ∷ numbers) in
    parse_loop-step fuel (print_unsigned n ++ (b'.' ∷ rest)) rest n before
      (omega (
        arith,
        length-append (print_unsigned n) (b'.' ∷ rest),
        (print_unsigned-IsNumeral n).some_digit,
      ))
      (omega (arith, few)) (parse-numeral-next n rest)
    ∙ parse-loop numbers m fuel (before ++ n ∷ [])
        (omega (arith, few, length-append before (n ∷ []))) (omega (arith, h))
    ∙ ap ok (append_assoc before (n ∷ []) (m ∷ numbers))

length-numerals :
    (numbers : List ℕ) (separator : Bytes) → length numbers ≤ length (numerals separator numbers)
length-numerals [] separator = omega arith
length-numerals (n ∷ numbers) separator = omega (
  arith,
  length-append (separator ++ print_unsigned n) (numerals (b'.' ∷ []) numbers),
  length-append separator (print_unsigned n),
  (print_unsigned-IsNumeral n).some_digit,
  length-numerals numbers (b'.' ∷ []),
)

parse-numerals :
    (numbers : List ℕ)
    → length numbers ≤ max_dm_instance_order
    → parse_instance_string (numerals [] numbers) ≡ ok numbers
unfolding parse_instance_string
parse-numerals [] few = refl
parse-numerals (n ∷ numbers) few =
    parse-loop numbers n (length (numerals [] (n ∷ numbers))) [] (omega (arith, few))
      (omega (arith, length-numerals (n ∷ numbers) []))

-- FormInstanceString, for up to six instance numbers whose text is shorter than the buffer, returns
-- a text of digits and dots that ParseInstanceString reads back as these numbers.
pub parse-form_instance_string :
    (numbers : List ℕ) (len : ℕ)
    → length numbers ≤ max_dm_instance_order
    → length (numerals [] numbers) < len
    → Returns (λ text. parse_instance_string text ≡ ok numbers) (form_instance_string numbers len)
unfolding form_instance_string
parse-form_instance_string numbers len few fits =
    rw (form-loop numbers [] len [] fits) (parse-numerals numbers few)
