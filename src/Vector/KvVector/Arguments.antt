-- ===== src/Vector/KvVector/Arguments.antt =====
-- src/core/kv_vector.c: what KV_VECTOR_ValidateArguments accepts.
use usp_agent_stomp.Common.{
  ℕ, zero, suc, ◌+◌, ◌<◌, ◌≡◌, refl, sym, ◌≢◌, ◌↔◌, ◌⊎◌, none, List, [], ◌∷◌, arith, length, take,
  drop, All, Bytes, str_eq_iff,
}
use usp_agent_stomp.Common.Int.{pos}
use usp_agent_stomp.Result.{ok}
use usp_agent_stomp.Text.Path.{path_to_schema_form}
use usp_agent_stomp.Vector.KvVector.{
  KvPair, kv_vector_find_key, duplicates_loop, schema_check, kv_vector_validate_arguments,
}
use usp_agent_stomp.Vector.KvVector.Lookup.{HasNot, find_key_none_iff}
use usp_agent_stomp.Vector.StrVector.{find_loop, str_vector_find}

-- No two entries have the same key.
abbrev pub Distinct : List KvPair → Type 0
Distinct [] = Unit
Distinct (pair ∷ kvv) = HasNot pair.0 kvv × Distinct kvv

abbrev Member : Bytes → List Bytes → Type 0
Member str [] = ⊥
Member str (s ∷ sv) = (s ≡ str) ⊎ Member str sv

-- The schema form of every key is one of the expected ones.
abbrev pub Known : List Bytes → List KvPair → Type 0
Known expected_schema args = All (λ kv. Member (path_to_schema_form kv.0 256) expected_schema) args

find_loop-Member :
    (sv : List Bytes) (str : Bytes) (i : ℕ) → (find_loop sv str i ≢ none) ↔ Member str sv
unfolding find_loop
find_loop-Member [] str i = ground arith
find_loop-Member (s ∷ sv) str i = ground (arith, str_eq_iff s str, find_loop-Member sv str (i + 1))

check-Known :
    (args : List KvPair) (expected_schema : List Bytes)
    → (schema_check args expected_schema ≡ ok tt) ↔ Known expected_schema args
unfolding schema_check str_vector_find
check-Known [] sv = ground arith
check-Known (kv ∷ args) sv =
    ground (arith, find_loop-Member sv (path_to_schema_form kv.0 256) 0, check-Known args sv)

drop_tail :
    (i : ℕ) (kvv : List KvPair) (kv : KvPair) (rest : List KvPair)
    → drop i kvv ≡ kv ∷ rest
    → (drop (i + 1) kvv ≡ rest) × (i < length kvv)
drop_tail zero [] kv rest e = ground arith
drop_tail zero (k ∷ kvv) kv rest e = ground arith
drop_tail (suc i) [] kv rest e = ground arith
drop_tail (suc i) (k ∷ kvv) kv rest e = ground (arith, drop_tail i kvv kv rest e)

take_more :
    (i : ℕ) (kvv : List KvPair) (kv : KvPair) (rest : List KvPair) (key : Bytes)
    → drop i kvv ≡ kv ∷ rest
    → kv.0 ≢ key
    → HasNot key (take i kvv)
    → HasNot key (take (i + 1) kvv)
take_more zero [] kv rest key e ne h = tt
take_more zero (k ∷ kvv) kv rest key e ne h = ground arith
take_more (suc i) [] kv rest key e ne h = ground arith
take_more (suc i) (k ∷ kvv) kv rest key e ne h = ground (arith, take_more i kvv kv rest key e ne)

-- What FindKey reads when the key of the entry at `i` is searched for from the next one.
search_none :
    (args : List KvPair) (i : ℕ) (kv : KvPair) (rest : List KvPair)
    → drop i args ≡ kv ∷ rest
    → (kv_vector_find_key args kv.0 (pos (i + 1)) ≡ none)
      ↔ (HasNot kv.0 rest × HasNot kv.0 (take i args))
search_none args i kv rest e =
    ground (arith, drop_tail i args kv rest e, find_key_none_iff args kv.0 (i + 1))

duplicates_sound :
    (rest args : List KvPair) (i : ℕ)
    → drop i args ≡ rest
    → duplicates_loop args i rest ≡ ok tt
    → Distinct rest
unfolding duplicates_loop
duplicates_sound [] args i e h = tt
duplicates_sound (kv ∷ []) args i e h = (tt, tt)
duplicates_sound (kv ∷ next ∷ rest) args i e h = ground (
  arith,
  search_none args i kv (next ∷ rest) e,
  duplicates_sound (next ∷ rest) args (i + 1) (drop_tail i args kv (next ∷ rest) e).0,
)

-- None of the keys of `rest` is one of the first `i`.
abbrev Apart : List KvPair → ℕ → List KvPair → Type 0
Apart args i rest = All (λ kv. HasNot kv.0 (take i args)) rest

Apart-more :
    (args : List KvPair) (i : ℕ) (kv : KvPair) (tail rest : List KvPair)
    → drop i args ≡ kv ∷ tail
    → HasNot kv.0 rest
    → Apart args i rest
    → Apart args (i + 1) rest
Apart-more args i kv tail [] e h a = tt
Apart-more args i kv tail (k ∷ rest) e (ne, h) (a, more) =
    (take_more i args kv tail k.0 e (λ x. ne (sym x)) a, Apart-more args i kv tail rest e h more)

duplicates_complete :
    (rest args : List KvPair) (i : ℕ)
    → drop i args ≡ rest
    → Distinct rest
    → Apart args i rest
    → duplicates_loop args i rest ≡ ok tt
unfolding duplicates_loop
duplicates_complete [] args i e h a = refl
duplicates_complete (kv ∷ []) args i e h a = refl
duplicates_complete (kv ∷ next ∷ rest) args i e (h, hs) (a, more) = ground (
  arith,
  (search_none args i kv (next ∷ rest) e).1 (h, a),
  duplicates_complete (next ∷ rest) args (i + 1) (drop_tail i args kv (next ∷ rest) e).0 hs
      (Apart-more args i kv (next ∷ rest) (next ∷ rest) e h more),
)

Apart-zero : (args rest : List KvPair) → Apart args 0 rest
Apart-zero args [] = tt
Apart-zero args (kv ∷ rest) = (tt, Apart-zero args rest)

-- KV_VECTOR_ValidateArguments accepts exactly the argument lists whose keys are distinct and whose
-- keys have schema forms that are all among the expected ones.
pub validate_arguments_iff :
    (args : List KvPair) (expected_schema : List Bytes)
    → (kv_vector_validate_arguments args expected_schema ≡ ok tt)
      ↔ (Distinct args × Known expected_schema args)
unfolding kv_vector_validate_arguments
validate_arguments_iff args expected_schema = ground (
  arith,
  check-Known args expected_schema,
  duplicates_sound args args 0 refl,
  duplicates_complete args args 0 refl,
  Apart-zero args args,
)
