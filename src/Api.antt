-- ===== src/Api.antt =====
-- The ModRule resource (api/v1beta1/modrule_types.go). Go's string types with constants are
-- strings, since the code also meets other values of them; a pointer is an `Option`.
pub mod Validation
use kubemod.Prelude.{String, Bool, Option, List}
use kubemod.Prelude.Int16.{ℤ}
use kubemod.Prelude.Text.{join}
use mathlib.Core.List.{[], ◌∷◌}

abbrev pub mod_rule_type_patch : String
mod_rule_type_patch = "Patch"

abbrev pub mod_rule_type_reject : String
mod_rule_type_reject = "Reject"

abbrev pub match_for_type_any : String
match_for_type_any = "Any"

abbrev pub match_for_type_all : String
match_for_type_all = "All"

pub record MatchItem : Type 0 where
  pub select : String
  pub match_for : String
  pub match_value : Option String
  pub match_values : List String
  pub match_regex : Option String
  pub negate : Bool

pub record PatchOperation : Type 0 where
  pub operation : String
  pub select : Option String
  pub path : String
  pub value : Option String

pub record ModRuleSpec : Type 0 where
  pub type : String
  pub execution_tier : ℤ
  pub admission_operations : List String
  pub match : List MatchItem
  pub patch : List PatchOperation
  pub reject_message : Option String
  pub target_namespace_regex : Option String

pub record ModRule : Type 0 where
  pub namespace : String
  pub name : String
  pub spec : ModRuleSpec

-- `GetNamespacedName`.
unfoldable pub get_namespaced_name : ModRule → String
unfolding join
get_namespaced_name m = join "/" (m.namespace ∷ m.name ∷ [])
