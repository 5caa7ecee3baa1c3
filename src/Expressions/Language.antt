-- ===== src/Expressions/Language.antt =====
-- The query language that `NewKubeModJSONPathLanguage` puts together
-- (expressions/kubemod_jsonpath.go): gval's and jsonpath's own extensions by the calls that make
-- them, and KubeMod's with what they do. A language among the extensions stands for its own ones.
-- `of_time` is how an `interface{}` holds what `date()` returns.
use kubemod.Prelude.{String, Bool, not, differs, List, [], ◌∷◌, ◌++◌, Result, ok, and_then, Error}
use kubemod.Json.{Value}
use kubemod.Library.{Evaluable}
use kubemod.Expressions.{
  not_operator, and_short_circuit, and_operator, or_short_circuit, or_operator, infix_bool_operator,
  in_array, coalesce_short_circuit, coalesce_operator, parse_if, Token, length_gval_function,
  is_defined_gval_function, is_undefined_gval_function, is_empty_gval_function,
  is_not_empty_gval_function,
}
use kubemod.Expressions.Date.{Layout, date_gval_function}

pub data Extension {ℓ} (P : Type ℓ) : Type ℓ where
  from_library : String → Extension P
  prefix_operator : String → (Value → Result Value) → Extension P
  infix_operator : String → (Value → Value → Result Value) → Extension P
  infix_short_circuit : String → (Value → Value × Bool) → Extension P
  postfix_operator : String → (P → Evaluable → Result Evaluable × P) → Extension P
  function : String → (List Value → Result Value) → Extension P

-- `kubeModPropositionalLogic`.
unfoldable pub propositional_logic {ℓ} : {P : Type ℓ} → (Value → String) → List (Extension P)
propositional_logic type_name =
    prefix_operator "!" (not_operator type_name)
    ∷ infix_short_circuit "&&" and_short_circuit
    ∷ infix_operator "&&" (and_operator type_name)
    ∷ infix_short_circuit "||" or_short_circuit
    ∷ infix_operator "||" (or_operator type_name)
    ∷ infix_operator "==" (infix_bool_operator type_name (λ a b. not (differs a b)))
    ∷ infix_operator "!=" (infix_bool_operator type_name differs)
    ∷ from_library "gval.Base()"
    ∷ []

module _ {ℓ κ} {P : Type ℓ} {T : Type κ} (type_name : Value → String)
    (deep_equal : Value → Value → Bool) (parse_expression : P → Result Evaluable × P)
    (scan : P → Token × P) (expected : P → Error) (parse_in_location : Layout → String → Result T)
    (of_time : T → Value) where
  -- `NewKubeModJSONPathLanguage`.
  unfoldable pub new_kube_mod_jsonpath_language : List (Extension P)
  unfolding propositional_logic
  new_kube_mod_jsonpath_language =
      from_library "gval.Arithmetic()"
        ∷ from_library "gval.Bitmask()"
        ∷ from_library "gval.Text()"
        ∷ propositional_logic type_name
      ++ from_library "gval.JSON()"
        ∷ infix_operator "in" (in_array type_name deep_equal)
        ∷ infix_short_circuit "??" coalesce_short_circuit
        ∷ infix_operator "??" (λ a b. coalesce_operator a b)
        ∷ postfix_operator "?" (parse_if parse_expression scan expected)
        ∷ function "date" (λ arguments.
          and_then (date_gval_function parse_in_location arguments) (λ t. ok (of_time t)))
        ∷ from_library "jsonpath.PlaceholderExtension()"
        ∷ function "length" length_gval_function
        ∷ function "isDefined" is_defined_gval_function
        ∷ function "isUndefined" is_undefined_gval_function
        ∷ function "isEmpty" is_empty_gval_function
        ∷ function "isNotEmpty" is_not_empty_gval_function
        ∷ []
