-- ===== src/Vector/ExprVector.antt =====
-- src/core/expr_vector.c: vectors of key expressions, each a parameter, an operator and a constant.
pub mod Operator
pub mod Parse
use usp_agent_stomp.Common.{
  ℕ, ◌-◌, Bool, true, false, not, ◌&&◌, ◌||◌, Option, none, some, List, [], ◌∷◌, ◌++◌, ◌==◌,
  if◌then◌else◌, length, take, drop, Bytes, codes, str_eq,
}
use usp_agent_stomp.Result.{invalid_path_syntax, Result, ok, err, out_of_fuel, ◌>>=◌, ◌>>◌, guard}
use usp_agent_stomp.Text.Hex.{unescape_string}
use usp_agent_stomp.Text.Split.{is_space, trim_buffer, starts_with, is_quote, split_string}

-- expr_op_t
pub data ExprOp : Type 0 where
  equal not_equal less_than_or_equal greater_than_or_equal less_than greater_than equals : ExprOp

abbrev pub op_text : ExprOp → Bytes
op_text equal = codes "=="
op_text not_equal = codes "!="
op_text less_than_or_equal = codes "<="
op_text greater_than_or_equal = codes ">="
op_text less_than = codes "<"
op_text greater_than = codes ">"
op_text equals = codes "="

-- expr_comp_t; a constant whose escapes are wrong is NULL.
pub record ExprComp : Type 0 where
  pub param : Bytes
  pub op : ExprOp
  pub value : Option Bytes

abbrev pub expr_vector_add : List ExprComp → Bytes → ExprOp → Option Bytes → List ExprComp
expr_vector_add ev param op value = ev ++ record { param = param; op = op; value = value } ∷ []

abbrev pub behind : ℕ → Option (Bytes × Bytes) → Option (Bytes × Bytes)
behind c none = none
behind c (some (before, after)) = some (c ∷ before, after)

-- The text before the first place at which strstr finds the needle, and the text behind the needle.
unfoldable pub cut_at : Bytes → Bytes → Option (Bytes × Bytes)
cut_at needle [] = none
cut_at needle (c ∷ buf) =
    let rest = behind c (cut_at needle buf) in
    if starts_with needle (c ∷ buf) then some ([], drop (length needle) (c ∷ buf)) else rest

-- The operators in the order in which they are looked for.
unfoldable pub first_operator : List ExprOp → Bytes → Option (ExprOp × (Bytes × Bytes))
first_operator [] buf = none
first_operator (op ∷ ops) buf = elim (cut_at (op_text op) buf) [
  | none ↦ first_operator ops buf
  | some parts ↦ some (op, parts)
]

abbrev pub operators : List ExprOp
operators =
    equal ∷ not_equal ∷ less_than_or_equal ∷ greater_than_or_equal ∷ less_than ∷ greater_than
    ∷ equals ∷ []

abbrev pub split_on_operator : Bytes → Option (ExprOp × (Bytes × Bytes))
split_on_operator buf = first_operator operators buf

abbrev pub is_empty : Bytes → Bool
is_empty [] = true
is_empty (c ∷ s) = false

unfoldable pub ends_with : ℕ → Bytes → Bool
ends_with q [] = false
ends_with q (c ∷ []) = c == q
ends_with q (c ∷ d ∷ s) = ends_with q (d ∷ s)

abbrev pub begins_with : ℕ → Bytes → Bool
begins_with q [] = false
begins_with q (c ∷ s) = c == q

-- The constant stands between two of these; a lone one is both.
abbrev pub is_within : ℕ → Bytes → Bool
is_within q s = begins_with q s && ends_with q s

abbrev pub stripped : Bytes → Bytes
stripped s = drop 1 (take (length s - 1) s)

-- The length is not taken again behind the first removal, so that the quotes of a constant that
-- stood in speech marks stay.
abbrev pub unquoted : Bool → Bytes → Bytes
unquoted is_cli_parser s =
    if is_within b'"' s
    then stripped s
    else if is_cli_parser && is_within b'\'' s
    then stripped s
    else s

abbrev pub is_illegal : ℕ → Bool
is_illegal c = is_space c || is_quote c

unfoldable pub any_char : (ℕ → Bool) → Bytes → Bool
any_char f [] = false
any_char f (c ∷ s) = f c || any_char f s

abbrev pub checked : Bool → Bytes → ExprOp → Bytes → Result ExprComp
checked is_cli_parser expr_param op expr_const = do
  guard (not (is_empty expr_param)) invalid_path_syntax
  guard (not (is_empty expr_const)) invalid_path_syntax
  guard (not (any_char is_illegal expr_param)) invalid_path_syntax
  guard (not (any_char (λ c. c == b'"') (unquoted is_cli_parser expr_const))) invalid_path_syntax
  ok (record {
    param = expr_param;
    op = op;
    value = unescape_string (unquoted is_cli_parser expr_const);
  })

unfoldable pub parse_expr_component : Bool → Bytes → Result ExprComp
parse_expr_component is_cli_parser buf = elim (split_on_operator buf) [
  | none ↦ err invalid_path_syntax
  | some (op, (before, after)) ↦ checked is_cli_parser (trim_buffer before) op (trim_buffer after)
]

unfoldable pub same_op : ExprOp → ExprOp → Bool
same_op a b = str_eq (op_text a) (op_text b)

unfoldable pub is_operator_in_array : ExprOp → List ExprOp → Bool
is_operator_in_array expr_op [] = false
is_operator_in_array expr_op (op ∷ valid_ops) =
    same_op op expr_op || is_operator_in_array expr_op valid_ops

unfoldable pub split_expressions_loop :
    Bool → List ExprOp → List Bytes → List ExprComp → Result (List ExprComp)
split_expressions_loop is_cli_parser valid_ops [] ev = ok ev
split_expressions_loop is_cli_parser valid_ops (s ∷ key_expressions) ev = do
  ec ← parse_expr_component is_cli_parser s
  guard (is_operator_in_array ec.op valid_ops) invalid_path_syntax
  split_expressions_loop is_cli_parser valid_ops key_expressions
      (expr_vector_add ev ec.param ec.op ec.value)

unfoldable pub expr_vector_split_expressions :
    Bytes → Bytes → List ExprOp → Bool → Result (List ExprComp)
expr_vector_split_expressions str separator valid_ops is_cli_parser =
    elim (split_string str separator) [
      | none ↦ out_of_fuel
      | some key_expressions ↦ split_expressions_loop is_cli_parser valid_ops key_expressions []
    ]
