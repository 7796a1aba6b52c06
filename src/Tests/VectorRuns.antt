-- ===== src/Tests/VectorRuns.antt =====
-- src/core/int_vector.c, str_vector.c and kv_vector.c: runs on concrete vectors.
use usp_agent_stomp.Common.{
  ◌<◌, ◌≡◌, refl, ◌↔◌, true, false, none, some, List, [], ◌∷◌, ◌++◌, arith, All, Bytes, codes,
}
use usp_agent_stomp.Common.Int.{ℤ, pos}
use usp_agent_stomp.Result.{ok}
use usp_agent_stomp.Text.Hex.{hex_digit_to_value, hex_byte, unescape_loop, unescape_string}
use usp_agent_stomp.Text.Number.{decimal_value}
use usp_agent_stomp.Text.Path.{count_consecutive_digits}
use usp_agent_stomp.Text.Split.{trim_scan, trim_buffer, starts_with}
use usp_agent_stomp.Text.Split.Trim.{more}
use usp_agent_stomp.Vector.ExprVector.{
  equal, op_text, cut_at, first_operator, ends_with, any_char, parse_expr_component,
}
use usp_agent_stomp.Vector.ExprVector.Parse.{quoted, parse_expr_component_lem}
use usp_agent_stomp.Vector.IntVector.{int_vector_add}
use usp_agent_stomp.Vector.KvVector.{
  KvPair, kv_vector_add_hex_number, kv_vector_get_hex_number, kv_vector_validate_arguments,
}
use usp_agent_stomp.Vector.KvVector.Arguments.{Distinct, Known, validate_arguments_iff}
use usp_agent_stomp.Vector.KvVector.Lookup.{get_hex_number-add_hex_number}
use usp_agent_stomp.Vector.StrVector.{natural_str_cmp}
use usp_agent_stomp.Vector.StrVector.Order.{IsChar, is_before}
use usp_agent_stomp.Vector.StrVector.Order.Numerals.{is_before_iff}
use usp_agent_stomp.Vector.StrVector.Order.Transitive.{before_trans}

abbrev instances : List ℤ
instances = pos 4 ∷ pos 7 ∷ []

adds_nine : int_vector_add instances (pos 9) ≡ ok (pos 4 ∷ pos 7 ∷ pos 9 ∷ [])
unfolding int_vector_add
adds_nine = refl

abbrev names : List Bytes
names = codes "a" ∷ codes "b10" ∷ []

nine_chars : All IsChar (codes "a9")
nine_chars = ground arith

ten_chars : All IsChar (codes "a10")
ten_chars = ground arith

letter_chars : All IsChar (codes "b")
letter_chars = ((omega arith, omega arith), tt)

nine_before_ten : is_before (codes "a9") (codes "a10") ≡ true
unfolding is_before natural_str_cmp count_consecutive_digits
nine_before_ten = refl

ten_before_letter : is_before (codes "a10") (codes "b") ≡ true
unfolding is_before natural_str_cmp count_consecutive_digits
ten_before_letter = refl

before_trans_example : is_before (codes "a9") (codes "b") ≡ true
before_trans_example =
    before_trans (codes "a9") (codes "a10") (codes "b") nine_chars ten_chars letter_chars
      nine_before_ten ten_before_letter

is_before_iff_example :
    (is_before (codes "9") (codes "10") ≡ true)
    ↔ (decimal_value 0 (codes "9") < decimal_value 0 (codes "10"))
is_before_iff_example = is_before_iff (codes "9") (codes "10") (ground arith) (ground arith)

same_strings : natural_str_cmp (codes "a9") (codes "a9") ≡ pos 0
unfolding natural_str_cmp
same_strings = refl

abbrev arguments : List KvPair
arguments = (codes "Host", some (codes "x")) ∷ (codes "Stat.3.Name", none) ∷ []

get_hex_number-add_hex_number_example :
    kv_vector_get_hex_number
      (kv_vector_add_hex_number arguments (codes "Id") (1 ∷ 254 ∷ []))
      (codes "Id")
      2
    ≡ ok (1 ∷ 254 ∷ [])
get_hex_number-add_hex_number_example =
    get_hex_number-add_hex_number arguments (codes "Id") (1 ∷ 254 ∷ []) 2 (λ e. cc, (λ e. cc, tt))
      (ground arith) (omega arith)

abbrev schema : List Bytes
schema = codes "Stat.{i}.Name" ∷ codes "Host" ∷ []

validate_arguments_iff_example :
    (kv_vector_validate_arguments arguments schema ≡ ok tt)
    ↔ (Distinct arguments × Known schema arguments)
validate_arguments_iff_example = validate_arguments_iff arguments schema

-- Alias == "a%3d"
abbrev alias : Bytes
alias = codes "Alias"

abbrev constant : Bytes
constant = codes "a%3d"

parses :
    parse_expr_component false (codes " Alias == \"a%3d\" ")
    ≡ ok (record { param = alias; op = equal; value = some (codes "a=") })
unfolding parse_expr_component first_operator cut_at starts_with trim_buffer trim_scan ends_with
    any_char unescape_string unescape_loop hex_byte hex_digit_to_value
parses = refl

parse_expr_component_lem_example :
    parse_expr_component false (alias ++ (op_text equal ++ quoted constant))
    ≡ ok (record { param = alias; op = equal; value = unescape_string constant })
unfolding any_char
parse_expr_component_lem_example =
    parse_expr_component_lem false alias equal constant (more b'A' (codes "lia") b's' refl refl)
      (refl, (refl, (refl, (refl, (refl, tt))))) refl (refl, (refl, (refl, (refl, tt)))) refl
