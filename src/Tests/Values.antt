-- ===== src/Tests/Values.antt =====
-- The functions of the query language, the name pool and the factory, at the fixtures.
use Prim.Native.Nat.{◌%◌, ◌^◌}
use kubemod.Prelude.{ℕ, ◌+◌, String, ◌≡◌, true, done, List, err, some, false}
use kubemod.Json.{Value, boolean, undefined}
use kubemod.Expressions.{and_operator, or_operator, coalesce_operator, in_array, eof}
use kubemod.Expressions.Language.{Extension, new_kube_mod_jsonpath_language}
use kubemod.Expressions.Evaluated.{evaluated, evaluated-operators}
use kubemod.NamePool.{get_next_name, new_name_pool, reset_index}
use kubemod.NamePool.Spec.{get_next_name-new_name_pool, counted}
use kubemod.Tests.Fixtures.{pod}

abbrev type_name : Value → String
type_name v = "interface {}"

-- A parser that has come to the end, and no time that can be read.
abbrev sample : List (Extension (Unit {0}))
sample =
    new_kube_mod_jsonpath_language type_name (λ a b. false) (λ p. (err "end", p)) (λ p. (eof, p))
      (λ p. "expected") (λ layout text. err text) (λ (t : Value). t)

evaluated-operators_example :
    (evaluated sample "&&" undefined (boolean true)
      ≡ some (and_operator type_name undefined (boolean true)))
    × (evaluated sample "||" undefined (boolean true)
        ≡ some (or_operator type_name undefined (boolean true)))
    × (evaluated sample "??" undefined pod ≡ some (coalesce_operator undefined pod))
    × (evaluated sample "in" undefined pod ≡ some (in_array type_name (λ a b. false) undefined pod))
evaluated-operators_example =
    evaluated-operators type_name (λ a b. false) (λ (p : Unit {0}). (err "end", p)) (λ p. (eof, p))
      (λ p. "expected") (λ layout text. err text) (λ (t : Value). t) undefined true pod

abbrev numbered : ℕ → String
numbered n = "name"

get_next_name-new_name_pool_example :
    (get_next_name (counted numbered 3 7)
      ≡ done (numbered ((7 + 1) % 2 ^ 64 % 3), counted numbered 3 ((7 + 1) % 2 ^ 64)))
    × (reset_index (counted numbered 3 7) ≡ new_name_pool numbered 3)
get_next_name-new_name_pool_example = get_next_name-new_name_pool numbered 2 7
