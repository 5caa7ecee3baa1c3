-- ===== src/Expressions/Spec.antt =====
-- How the functions and operators of expressions/kubemod_jsonpath.go agree with each other.
use kubemod.Prelude.{
  String, ◌≡◌, refl, sym, Result, Bool, true, false, not, ◌&&◌, List, [], ◌∷◌, ok, is_ok, ap,
  ok-injective, Result-cases, inl, inr,
}
use kubemod.Json.{Value, null, undefined, boolean, int, float, string, array, object}
use kubemod.Expressions.{
  val_length, is_empty_gval_function, is_not_empty_gval_function, is_defined_gval_function,
  is_undefined_gval_function, infix_bool_operator, not_operator, and_operator, or_operator,
  and_short_circuit, or_short_circuit, coalesce_operator, coalesce_short_circuit,
}

-- A short circuit of `&&` or `||` that fires on a left operand gives what the operator gives for it
-- and any Boolean on the right; one of `??` that fires gives what the operator gives for any right
-- operand.
short_circuits-agree :
    (type_name : Value → String) (a : Value) (b : Bool) (w : Value)
    → ((and_short_circuit a).1 ≡ true
        → and_operator type_name a (boolean b) ≡ ok (and_short_circuit a).0)
      × ((or_short_circuit a).1 ≡ true
          → or_operator type_name a (boolean b) ≡ ok (or_short_circuit a).0)
      × ((coalesce_short_circuit a).1 ≡ true
          → coalesce_operator a w ≡ ok (coalesce_short_circuit a).0)
unfolding and_short_circuit or_short_circuit coalesce_short_circuit and_operator or_operator
    coalesce_operator infix_bool_operator
short_circuits-agree type_name (boolean true) b w = (λ h. absurd (cc), λ h. refl, λ h. refl)
short_circuits-agree type_name (boolean false) b w = (λ h. refl, λ h. absurd (cc), λ h. absurd (cc))
short_circuits-agree type_name null b w = (λ h. absurd (cc), λ h. absurd (cc), λ h. absurd (cc))
short_circuits-agree type_name undefined b w = (λ h. absurd (cc), λ h. absurd (cc), λ h. refl)
short_circuits-agree type_name (int n) b w = (λ h. absurd (cc), λ h. absurd (cc), λ h. refl)
short_circuits-agree type_name (float n) b w = (λ h. absurd (cc), λ h. absurd (cc), λ h. refl)
short_circuits-agree type_name (string s) b w = (λ h. absurd (cc), λ h. absurd (cc), λ h. refl)
short_circuits-agree type_name (array vs) b w = (λ h. absurd (cc), λ h. absurd (cc), λ h. refl)
short_circuits-agree type_name (object fs) b w = (λ h. absurd (cc), λ h. absurd (cc), λ h. refl)

-- What gval documents of an operator with a short circuit: if it fires, the right operand is not
-- evaluated.
abbrev pub with_short_circuit : Value × Bool → Result Value → Result Value
with_short_circuit (v, true) r = ok v
with_short_circuit (v, false) r = r

fires_alike :
    (p : Value × Bool) (r : Result Value) → (p.1 ≡ true → r ≡ ok p.0) → with_short_circuit p r ≡ r
fires_alike (v, true) r h = sym (h refl)
fires_alike (v, false) r h = refl

-- The short circuits of `&&` and `||` change no outcome for any left operand and a Boolean on the
-- right, and that of `??` changes none for any two operands.
pub with_short_circuit-operators :
    (type_name : Value → String) (a : Value) (b : Bool) (w : Value)
    → (with_short_circuit (and_short_circuit a) (and_operator type_name a (boolean b))
        ≡ and_operator type_name a (boolean b))
      × (with_short_circuit (or_short_circuit a) (or_operator type_name a (boolean b))
          ≡ or_operator type_name a (boolean b))
      × (with_short_circuit (coalesce_short_circuit a) (coalesce_operator a w)
          ≡ coalesce_operator a w)
with_short_circuit-operators type_name a b w =
    let (on_and, on_or, on_coalesce) = short_circuits-agree type_name a b w in
    (
      fires_alike (and_short_circuit a) (and_operator type_name a (boolean b)) on_and,
      fires_alike (or_short_circuit a) (or_operator type_name a (boolean b)) on_or,
      fires_alike (coalesce_short_circuit a) (coalesce_operator a w) on_coalesce,
    )

abbrev pub negated : Value → Value
negated (boolean b) = boolean (not b)
negated v = v

-- On every list of arguments `isNotEmpty` answers the opposite of `isEmpty`, and fails exactly when
-- `isEmpty` does; `isDefined` does the same beside `isUndefined`.
is_not_empty-is_empty :
    (args : List Value)
    → (is_ok (is_not_empty_gval_function args) ≡ is_ok (is_empty_gval_function args))
      × ((v : Value)
          → is_empty_gval_function args ≡ ok v
          → is_not_empty_gval_function args ≡ ok (negated v))
      × (is_ok (is_defined_gval_function args) ≡ is_ok (is_undefined_gval_function args))
      × ((v : Value)
          → is_undefined_gval_function args ≡ ok v
          → is_defined_gval_function args ≡ ok (negated v))
unfolding is_not_empty_gval_function is_empty_gval_function is_defined_gval_function
    is_undefined_gval_function
is_not_empty-is_empty [] = (refl, λ v h. absurd (cc), refl, λ v h. absurd (cc))
is_not_empty-is_empty (a ∷ b ∷ rest) = (refl, λ v h. absurd (cc), refl, λ v h. absurd (cc))
is_not_empty-is_empty (a ∷ []) = elim (Result-cases (val_length a)) [
  | inl (l, e) ↦ rw e (
    refl,
    λ v h. ap (λ w. ok (negated w)) (ok-injective h),
    refl,
    λ v h. ap (λ w. ok (negated w)) (ok-injective h),
  )
  | inr (x, e) ↦
      rw e (refl, λ v h. absurd (cc), refl, λ v h. ap (λ w. ok (negated w)) (ok-injective h))
]

abbrev pub is_boolean : Value → Bool
is_boolean (boolean b) = true
is_boolean v = false

-- The logic has no truthy values: an infix operator succeeds exactly on two Booleans, and the
-- negation exactly on one. An undefined value is an operand of neither.
infix_bool_operator-is_ok :
    (type_name : Value → String) (f : Bool → Bool → Bool) (a b : Value)
    → (is_ok (infix_bool_operator type_name f a b) ≡ (is_boolean a && is_boolean b))
      × (is_ok (not_operator type_name a) ≡ is_boolean a)
unfolding infix_bool_operator not_operator
infix_bool_operator-is_ok type_name f a b = (infix_ok a b, not_ok a)
  where
    infix_ok :
        (a b : Value) → is_ok (infix_bool_operator type_name f a b) ≡ (is_boolean a && is_boolean b)
    infix_ok (boolean x) (boolean y) = refl
    infix_ok (boolean x) null = refl
    infix_ok (boolean x) undefined = refl
    infix_ok (boolean x) (int n) = refl
    infix_ok (boolean x) (float n) = refl
    infix_ok (boolean x) (string s) = refl
    infix_ok (boolean x) (array vs) = refl
    infix_ok (boolean x) (object fs) = refl
    infix_ok null b = refl
    infix_ok undefined b = refl
    infix_ok (int n) b = refl
    infix_ok (float n) b = refl
    infix_ok (string s) b = refl
    infix_ok (array vs) b = refl
    infix_ok (object fs) b = refl

    not_ok : (a : Value) → is_ok (not_operator type_name a) ≡ is_boolean a
    not_ok (boolean x) = refl
    not_ok null = refl
    not_ok undefined = refl
    not_ok (int n) = refl
    not_ok (float n) = refl
    not_ok (string s) = refl
    not_ok (array vs) = refl
    not_ok (object fs) = refl
