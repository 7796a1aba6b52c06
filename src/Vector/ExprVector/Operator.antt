-- ===== src/Vector/ExprVector/Operator.antt =====
-- src/core/expr_vector.c: the operator at which an expression is split.
use usp_agent_stomp.Common.{
  ℕ, ◌≡◌, refl, ap, ◌∙◌, Bool, true, false, ◌||◌, Option, none, some, List, [], ◌∷◌, ◌++◌,
  append-nil, arith, ◌==◌, All, Bytes,
}
use usp_agent_stomp.Text.Split.{starts_with}
use usp_agent_stomp.Vector.ExprVector.{
  ExprOp, equal, not_equal, less_than_or_equal, greater_than_or_equal, less_than, greater_than,
  equals, op_text, behind, cut_at, first_operator, operators, split_on_operator,
}

abbrev pub is_op_char : ℕ → Bool
is_op_char c = c == b'=' || c == b'!' || c == b'<' || c == b'>'

-- A text in which no operator can start.
abbrev pub IsPlain : Bytes → Type 0
IsPlain s = All (λ c. is_op_char c ≡ false) s

abbrev put_front : Bytes → Option (Bytes × Bytes) → Option (Bytes × Bytes)
put_front p none = none
put_front p (some (before, after)) = some (p ++ before, after)

abbrev IsOpHead : Bytes → Type 0
IsOpHead [] = ⊥
IsOpHead (n ∷ needle) = is_op_char n ≡ true

cut_at_plain : (needle v : Bytes) → IsOpHead needle → IsPlain v → cut_at needle v ≡ none
unfolding cut_at starts_with
cut_at_plain needle [] n h = refl
cut_at_plain [] (c ∷ v) n (h, hs) = absurd n
cut_at_plain (x ∷ needle) (c ∷ v) n (h, hs) = ground (arith, cut_at_plain (x ∷ needle) v n hs)

put_front_nil : (o : Option (Bytes × Bytes)) → o ≡ put_front [] o
put_front_nil none = refl
put_front_nil (some x) = refl

behind_front :
    (c : ℕ) (p : Bytes) (o : Option (Bytes × Bytes))
    → behind c (put_front p o) ≡ put_front (c ∷ p) o
behind_front c p none = refl
behind_front c p (some x) = refl

op_text-IsOpHead : (op : ExprOp) → IsOpHead (op_text op)
op_text-IsOpHead equal = refl
op_text-IsOpHead not_equal = refl
op_text-IsOpHead less_than_or_equal = refl
op_text-IsOpHead greater_than_or_equal = refl
op_text-IsOpHead less_than = refl
op_text-IsOpHead greater_than = refl
op_text-IsOpHead equals = refl

cut_at-append :
    (needle p s : Bytes)
    → IsOpHead needle
    → IsPlain p
    → cut_at needle (p ++ s) ≡ put_front p (cut_at needle s)
unfolding cut_at starts_with
cut_at-append needle [] s n h = put_front_nil (cut_at needle s)
cut_at-append [] (c ∷ p) s n (h, hs) = absurd n
cut_at-append (x ∷ needle) (c ∷ p) s n (h, hs) =
    let no : (c == x) ≡ false = ground arith in
    rw (no, cut_at-append (x ∷ needle) p s n hs) (behind_front c p (cut_at (x ∷ needle) s))

abbrev with_front : Bytes → Option (ExprOp × (Bytes × Bytes)) → Option (ExprOp × (Bytes × Bytes))
with_front p none = none
with_front p (some (op, (before, after))) = some (op, (p ++ before, after))

through :
    (p : Bytes) (o : Option (Bytes × Bytes)) (op : ExprOp)
    (r r' : Option (ExprOp × (Bytes × Bytes)))
    → r ≡ with_front p r'
    → (elim (put_front p o) as (λ _. Option (ExprOp × (Bytes × Bytes))) [
      | none ↦ r
      | some parts ↦ some (op, parts)
    ])
      ≡ with_front p (elim o as (λ _. Option (ExprOp × (Bytes × Bytes))) [
        | none ↦ r'
        | some parts ↦ some (op, parts)
      ])
through p none op r r' h = h
through p (some x) op r r' h = refl

first_operator-append :
    (ops : List ExprOp) (p s : Bytes)
    → IsPlain p
    → first_operator ops (p ++ s) ≡ with_front p (first_operator ops s)
unfolding first_operator
first_operator-append [] p s h = refl
first_operator-append (op ∷ ops) p s h =
    rw (first_operator, cut_at-append (op_text op) p s (op_text-IsOpHead op) h)
      (through p (cut_at (op_text op) s) op (first_operator ops (p ++ s)) (first_operator ops s)
        (first_operator-append ops p s h))

no_equals : (v : Bytes) → IsPlain v → starts_with (b'=' ∷ []) v ≡ false
unfolding starts_with
no_equals [] h = refl
no_equals (c ∷ v) (h, hs) = ground arith

at_operator :
    (op : ExprOp) (v : Bytes) → IsPlain v → split_on_operator (op_text op ++ v) ≡ some (op, ([], v))
unfolding first_operator cut_at starts_with
at_operator equal v h = refl
at_operator not_equal v h = rw (no_equals v h, cut_at_plain (op_text equal) v refl h) refl
at_operator less_than_or_equal v h =
    rw
      (
        no_equals v h,
        cut_at_plain (op_text equal) v refl h,
        cut_at_plain (op_text not_equal) v refl h,
      )
      refl
at_operator greater_than_or_equal v h =
    rw
      (
        no_equals v h,
        cut_at_plain (op_text equal) v refl h,
        cut_at_plain (op_text not_equal) v refl h,
        cut_at_plain (op_text less_than_or_equal) v refl h,
      )
      refl
at_operator less_than v h =
    rw
      (
        first_operator,
        cut_at,
        cut_at_plain (op_text equal) v refl h,
        cut_at_plain (op_text not_equal) v refl h,
        no_equals v h,
        cut_at_plain (op_text less_than_or_equal) v refl h,
        cut_at_plain (op_text greater_than_or_equal) v refl h,
      )
      refl
at_operator greater_than v h =
    rw
      (
        first_operator,
        cut_at,
        cut_at_plain (op_text equal) v refl h,
        cut_at_plain (op_text not_equal) v refl h,
        cut_at_plain (op_text less_than_or_equal) v refl h,
        no_equals v h,
        cut_at_plain (op_text greater_than_or_equal) v refl h,
        cut_at_plain (op_text less_than) v refl h,
      )
      refl
at_operator equals v h =
    rw
      (
        no_equals v h,
        cut_at_plain (op_text equal) v refl h,
        cut_at_plain (op_text not_equal) v refl h,
        cut_at_plain (op_text less_than_or_equal) v refl h,
        cut_at_plain (op_text greater_than_or_equal) v refl h,
        cut_at_plain (op_text less_than) v refl h,
        cut_at_plain (op_text greater_than) v refl h,
      )
      refl

-- An expression is split at the operator that stands between two texts in which none can start.
pub split_on_operator_lem :
    (p : Bytes) (op : ExprOp) (v : Bytes)
    → IsPlain p
    → IsPlain v
    → split_on_operator (p ++ (op_text op ++ v)) ≡ some (op, (p, v))
split_on_operator_lem p op v hp hv =
    first_operator-append operators p (op_text op ++ v) hp
    ∙ ap (with_front p) (at_operator op v hv)
    ∙ ap (λ b. some (op, (b, v))) (append-nil p)
