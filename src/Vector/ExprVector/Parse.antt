-- ===== src/Vector/ExprVector/Parse.antt =====
-- src/core/expr_vector.c: what ParseExprComponent makes of a well formed expression.
use usp_agent_stomp.Common.{
  ℕ, suc, ◌-◌, ◌≡◌, refl, ap, ◌∙◌, subst, Bool, true, false, [], ◌∷◌, ◌++◌, append-nil, arith, ◌==◌,
  ==_refl, length, take, drop, length-append, take-append, All-append, Bytes,
}
use usp_agent_stomp.Result.{ok}
use usp_agent_stomp.Text.Hex.{unescape_string}
use usp_agent_stomp.Text.Split.{trim_buffer}
use usp_agent_stomp.Text.Split.Trim.{IsSolid, one, more, trim_buffer_lem}
use usp_agent_stomp.Vector.ExprVector.{
  ExprOp, op_text, is_empty, ends_with, stripped, unquoted, is_illegal, any_char, checked,
  parse_expr_component,
}
use usp_agent_stomp.Vector.ExprVector.Operator.{is_op_char, IsPlain, split_on_operator_lem}

abbrev pub quoted : Bytes → Bytes
quoted v = b'"' ∷ (v ++ b'"' ∷ [])

ends-snoc : (q : ℕ) (v : Bytes) → ends_with q (v ++ q ∷ []) ≡ true
unfolding ends_with
ends-snoc q [] = ==_refl q
ends-snoc q (c ∷ []) = ==_refl q
ends-snoc q (c ∷ d ∷ v) = ends-snoc q (d ∷ v)

ends-quoted : (v : Bytes) → ends_with b'"' (quoted v) ≡ true
ends-quoted v = ends-snoc b'"' (b'"' ∷ v)

stripped-quoted : (v : Bytes) → stripped (quoted v) ≡ v
stripped-quoted v =
    let size : length (quoted v) - 1 ≡ suc (length v) =
      ground (arith, length-append v (b'"' ∷ [])) in
    ap (λ n. drop 1 (take n (quoted v))) size ∙ take-append v (b'"' ∷ [])

unquoted-quoted : (is_cli : Bool) (v : Bytes) → unquoted is_cli (quoted v) ≡ v
unquoted-quoted is_cli v = rw (ends-quoted v) (stripped-quoted v)

IsSolid-full : (p : Bytes) → IsSolid p → is_empty p ≡ false
IsSolid-full _ (one c h) = refl
IsSolid-full _ (more c m d h k) = refl

trim-solid : (p : Bytes) → IsSolid p → trim_buffer p ≡ p
trim-solid p h = subst (λ s. trim_buffer s ≡ p) (append-nil p) (trim_buffer_lem [] p [] tt h tt)

checked-quoted :
    (is_cli : Bool) (p : Bytes) (op : ExprOp) (v : Bytes)
    → IsSolid p
    → any_char is_illegal p ≡ false
    → any_char (λ c. c == b'"') v ≡ false
    → checked is_cli p op (quoted v) ≡ ok (record { param = p; op = op; value = unescape_string v })
checked-quoted is_cli p op v hp hi hv =
    rw (IsSolid-full p hp, hi, unquoted-quoted is_cli v, hv) refl

-- ParseExprComponent reads an expression with its constant in speech marks, for a parameter without
-- spaces and quotes, back as the parameter, the operator and the constant, its escapes undone; the
-- characters of the operators stand in neither, and no speech mark in the constant.
pub parse_expr_component_lem :
    (is_cli_parser : Bool) (p : Bytes) (op : ExprOp) (v : Bytes)
    → IsSolid p
    → IsPlain p
    → any_char is_illegal p ≡ false
    → IsPlain v
    → any_char (λ c. c == b'"') v ≡ false
    → parse_expr_component is_cli_parser (p ++ (op_text op ++ quoted v))
      ≡ ok (record { param = p; op = op; value = unescape_string v })
unfolding parse_expr_component
parse_expr_component_lem is_cli p op v hs hp hi hv hq =
    let plain : IsPlain (quoted v) =
      (refl, All-append (λ c. is_op_char c ≡ false) v (b'"' ∷ []) hv (refl, tt)) in
    rw
      (
        parse_expr_component,
        split_on_operator_lem p op (quoted v) hp plain,
        trim-solid p hs,
        trim-solid (quoted v) (more b'"' v b'"' refl refl),
      )
      (checked-quoted is_cli p op v hs hi hq)
