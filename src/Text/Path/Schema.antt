-- ===== src/Text/Path/Schema.antt =====
-- src/core/text_utils.c: what TEXT_UTILS_PathToSchemaForm makes of a path.
use usp_agent_stomp.Common.{
  ℕ, ◌+◌, ◌-◌, ◌≤◌, ◌<◌, ◌≡◌, refl, ◌∙◌, Bool, true, false, [], ◌∷◌, ◌++◌, arith, if◌then◌else◌,
  length, All, Bytes, codes, is_numeric,
}
use usp_agent_stomp.Text.Path.{schema_loop, path_to_schema_form}

abbrev pub NoDigits : Bytes → Type 0
NoDigits = All (λ c. is_numeric c ≡ false)

-- Each run of digits replaced, with no bound on the length.
unfoldable pub schema_of : Bytes → Bool → Bytes
schema_of [] in_number = []
schema_of (c ∷ path) in_number =
    let skipped = schema_of path true in
    let plain = schema_of path false in
    if is_numeric c then if in_number then skipped else codes "{i}" ++ skipped else c ∷ plain

schema_of-NoDigits : (path : Bytes) (b : Bool) → NoDigits (schema_of path b)
unfolding schema_of
schema_of-NoDigits [] b = tt
schema_of-NoDigits (c ∷ path) b =
    ground (arith, schema_of-NoDigits path true, schema_of-NoDigits path false)

schema_of_plain : (path : Bytes) → NoDigits path → schema_of path false ≡ path
unfolding schema_of
schema_of_plain [] h = refl
schema_of_plain (c ∷ path) (hc, hs) = ground (arith, schema_of_plain path hs)

schema_loop-schema_of :
    (path : Bytes) (len : ℕ) (b : Bool)
    → length (schema_of path b) + 4 ≤ len
    → schema_loop path len b ≡ schema_of path b
unfolding schema_loop schema_of
schema_loop-schema_of [] len b h = refl
schema_loop-schema_of (c ∷ path) len b h = ground (
  arith,
  schema_loop-schema_of path len true,
  schema_loop-schema_of path (len - 3) true,
  schema_loop-schema_of path (len - 1) false,
)

schema_loop_bound :
    (path : Bytes) (len : ℕ) (b : Bool) → 4 ≤ len → length (schema_loop path len b) < len
unfolding schema_loop
schema_loop_bound [] len b h = omega arith
schema_loop_bound (c ∷ path) len b h = ground (
  arith,
  schema_loop_bound path len true,
  schema_loop_bound path (len - 3) true,
  schema_loop_bound path (len - 1) false,
)

schema_loop-NoDigits : (path : Bytes) (len : ℕ) (b : Bool) → NoDigits (schema_loop path len b)
unfolding schema_loop
schema_loop-NoDigits [] len b = tt
schema_loop-NoDigits (c ∷ path) len b = ground (
  arith,
  schema_loop-NoDigits path len true,
  schema_loop-NoDigits path (len - 3) true,
  schema_loop-NoDigits path (len - 1) false,
)

-- For a buffer of at least 4 bytes the schema form leaves room for its terminator and holds no
-- digit.
pub path_to_schema_form_bound :
    (path : Bytes) (len : ℕ)
    → 4 ≤ len
    → (length (path_to_schema_form path len) < len) × NoDigits (path_to_schema_form path len)
unfolding path_to_schema_form
path_to_schema_form_bound path len h =
    (schema_loop_bound path len false h, schema_loop-NoDigits path len false)

-- Where the path with each run of digits replaced by {i} fits with 4 bytes to spare, it is the
-- schema form.
pub path_to_schema_form-schema_of :
    (path : Bytes) (len : ℕ)
    → length (schema_of path false) + 4 ≤ len
    → path_to_schema_form path len ≡ schema_of path false
unfolding path_to_schema_form
path_to_schema_form-schema_of path len h = schema_loop-schema_of path len false h

-- The schema form of a schema form is itself, where it fits the second buffer with 4 bytes to spare.
pub path_to_schema_form_idem :
    (path : Bytes) (len size : ℕ)
    → length (path_to_schema_form path len) + 4 ≤ size
    → path_to_schema_form (path_to_schema_form path len) size ≡ path_to_schema_form path len
unfolding path_to_schema_form
path_to_schema_form_idem path len size h =
    let form = schema_loop path len false in
    let plain = schema_of_plain form (schema_loop-NoDigits path len false) in
    schema_loop-schema_of form size false (rw plain h) ∙ plain
