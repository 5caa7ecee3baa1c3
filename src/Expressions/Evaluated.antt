-- ===== src/Expressions/Evaluated.antt =====
-- What the operators of the query language (expressions/kubemod_jsonpath.go) evaluate to, with their
-- short circuits, and what its functions take.
use kubemod.Prelude.{
  String, ◌==◌, ◌≡◌, refl, ap, Bool, Option, none, some, List, [], ◌∷◌, if◌then◌else◌, Result,
  Error,
}
use kubemod.Json.{Value, boolean}
use kubemod.Library.{Evaluable}
use kubemod.Expressions.{and_operator, or_operator, coalesce_operator, in_array, Token}
use kubemod.Expressions.Date.{Layout}
use kubemod.Expressions.Language.{
  Extension, infix_operator, infix_short_circuit, new_kube_mod_jsonpath_language,
}
use kubemod.Expressions.Spec.{with_short_circuit, with_short_circuit-operators}

abbrev skipping : Option (Value → Value × Bool) → Value → Result Value → Result Value
skipping none a r = r
skipping (some s) a r = with_short_circuit (s a) r

abbrev applied :
    Option (Value → Value → Result Value)
    → Option (Value → Value × Bool)
    → Value
    → Value
    → Option (Result Value)
applied none s a b = none
applied (some f) s a b = some (skipping s a (f a b))

module _ {ℓ} {P : Type ℓ} where
  infix_named : String → List (Extension P) → Option (Value → Value → Result Value)
  infix_named name [] = none
  infix_named name (infix_operator n f ∷ rest) = if n == name then some f else infix_named name rest
  infix_named name (_ ∷ rest) = infix_named name rest

  short_circuit_named : String → List (Extension P) → Option (Value → Value × Bool)
  short_circuit_named name [] = none
  short_circuit_named name (infix_short_circuit n f ∷ rest) =
      if n == name then some f else short_circuit_named name rest
  short_circuit_named name (_ ∷ rest) = short_circuit_named name rest

  -- `a name b` in a language, for two values.
  unfoldable pub evaluated : List (Extension P) → String → Value → Value → Option (Result Value)
  unfolding infix_named short_circuit_named
  evaluated language name a b =
      applied (infix_named name language) (short_circuit_named name language) a b

module _ {ℓ κ} {P : Type ℓ} {T : Type κ} (type_name : Value → String)
    (deep_equal : Value → Value → Bool) (parse_expression : P → Result Evaluable × P)
    (scan : P → Token × P) (expected : P → Error) (parse_in_location : Layout → String → Result T)
    (of_time : T → Value) where
  abbrev language : List (Extension P)
  language =
      new_kube_mod_jsonpath_language type_name deep_equal parse_expression scan expected
        parse_in_location of_time

  -- In the language as it is put together, `&&` and `||` with a Boolean on the right, and `??` and
  -- `in` with any value there, evaluate to what their operators give, for any value on the left: the
  -- short circuits change nothing.
  pub evaluated-operators :
      (a : Value) (b : Bool) (w : Value)
      → (evaluated language "&&" a (boolean b) ≡ some (and_operator type_name a (boolean b)))
        × (evaluated language "||" a (boolean b) ≡ some (or_operator type_name a (boolean b)))
        × (evaluated language "??" a w ≡ some (coalesce_operator a w))
        × (evaluated language "in" a w ≡ some (in_array type_name deep_equal a w))
  unfolding evaluated new_kube_mod_jsonpath_language
  evaluated-operators a b w =
      let (on_and, on_or, on_coalesce) = with_short_circuit-operators type_name a b w in
      (ap some on_and, ap some on_or, ap some on_coalesce, refl)
