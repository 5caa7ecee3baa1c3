-- ===== src/Api/Validation.antt =====
-- The webhook of the ModRule resource (api/v1beta1/modrule_webhook.go): defaults and validation.
-- An error is the path of its field and its text; how `NewInvalid` prints them is not modelled.
pub mod Spec
use kubemod.Prelude.{
  ℕ, zero, suc, String, ◌==◌, Bool, true, false, ◌&&◌, ◌||◌, not, Option, none, some, List, [], ◌∷◌,
  ◌++◌, map, if◌then◌else◌, is_some, Result, ok, err, Error,
}
use kubemod.Prelude.Int16.{ℤ, eqb_ℤ, max_int16, min_int16}
use kubemod.Library.{Library}
use kubemod.Api.{
  ModRule, ModRuleSpec, MatchItem, PatchOperation, mod_rule_type_patch, mod_rule_type_reject,
  match_for_type_any, match_for_type_all,
}
use kubemod.ValueTemplates.{pre_process_mod_rule_go_template}

-- `Default`.
abbrev default_match_item : MatchItem → MatchItem
default_match_item m = if m.match_for == "" then record m { match_for = match_for_type_any } else m

abbrev pub or_default_operations : List String → List String
or_default_operations [] = "CREATE" ∷ "UPDATE" ∷ []
or_default_operations (o ∷ os) = o ∷ os

unfoldable pub default : ModRule → ModRule
default r = record r {
  spec = record r.spec {
    match = map default_match_item r.spec.match;
    admission_operations = or_default_operations r.spec.admission_operations;
  };
}

-- The path of a field under `spec`.
pub data FieldPath : Type 0 where
  type_field patch_field reject_message_field execution_tier_field : FieldPath
  match_select match_regex_field match_for_field : ℕ → FieldPath
  patch_value_field patch_select_field : ℕ → FieldPath

pub record FieldError : Type 0 where
  pub at : FieldPath
  pub message : String

abbrev error_if : Bool → FieldPath → String → List FieldError
error_if true at message = record { at = at; message = message } ∷ []
error_if false at message = []

-- The error of a compilation, if it failed.
abbrev pub error_of : {A : Type 0} → FieldPath → Result A → List FieldError
error_of at (ok a) = []
error_of at (err e) = record { at = at; message = e } ∷ []

abbrev pub is_empty : {A : Type 0} → List A → Bool
is_empty [] = true
is_empty (x ∷ xs) = false

-- The tests of the type, the patch, the message and the tier.
unfoldable pub validate_head : ModRuleSpec → List FieldError
validate_head spec =
    error_if (not (spec.type == mod_rule_type_patch) && not (spec.type == mod_rule_type_reject))
      type_field "unrecognized ModRule type"
    ++ error_if (not (spec.type == mod_rule_type_patch) && not (is_empty spec.patch)) patch_field
        "field 'patch' should be present only for ModRules of type Patch"
    ++ error_if (spec.type == mod_rule_type_patch && is_empty spec.patch) patch_field
        "field 'patch' cannot be empty for ModRules of type Patch"
    ++ error_if (not (spec.type == mod_rule_type_reject) && is_some spec.reject_message)
        reject_message_field
        "field 'rejectMessage' should be present only for ModRules of type Reject"
    ++ error_if (eqb_ℤ spec.execution_tier min_int16 || eqb_ℤ spec.execution_tier max_int16)
        execution_tier_field
        "field 'executionTier' should be an integer value between -32767 and 32766"

module _ (lib : Library) where
  unfoldable pub validate_select : ℕ → String → List FieldError
  validate_select i select =
      if select == ""
      then error_if true (match_select i) "spec.match[].select in body must be non-empty string"
      else error_of (match_select i) (lib.new_evaluable select)

  unfoldable pub validate_regex : ℕ → Option String → List FieldError
  validate_regex i none = []
  validate_regex i (some r) = error_of (match_regex_field i) (lib.compile_regexp r)

  unfoldable pub validate_match_item : ℕ → MatchItem → List FieldError
  unfolding validate_select validate_regex
  validate_match_item i m =
      validate_select i m.select
      ++ validate_regex i m.match_regex
      ++ error_if
          (not (m.match_for == match_for_type_any) && not (m.match_for == match_for_type_all))
          (match_for_field i) "unrecognized matchFor value"

  -- The loop over the match items from index `i` on.
  unfoldable pub validate_match : ℕ → List MatchItem → List FieldError
  unfolding validate_match_item
  validate_match i [] = []
  validate_match i (m ∷ ms) = validate_match_item i m ++ validate_match (suc i) ms

  unfoldable pub validate_patch_select : ℕ → Option String → List FieldError
  validate_patch_select i none = []
  validate_patch_select i (some s) =
      if s == "" then [] else error_of (patch_select_field i) (lib.new_evaluable s)

  -- The select query is tested only beside a value.
  unfoldable pub validate_patch_value : ℕ → PatchOperation → Option String → List FieldError
  unfolding validate_patch_select
  validate_patch_value i po none = []
  validate_patch_value i po (some value) =
      error_of (patch_value_field i)
        (lib.parse_template po.path (pre_process_mod_rule_go_template value))
      ++ validate_patch_select i po.select

  unfoldable pub validate_patch : ℕ → List PatchOperation → List FieldError
  unfolding validate_patch_value
  validate_patch i [] = []
  validate_patch i (po ∷ rest) = validate_patch_value i po po.value ++ validate_patch (suc i) rest

  unfoldable pub validate_message : Option String → List FieldError
  validate_message none = []
  validate_message (some m) = error_of reject_message_field (lib.parse_template "rejectMessage" m)

  -- `validateModRule`, which `ValidateCreate` and `ValidateUpdate` return; no error is nil.
  unfoldable pub validate_mod_rule : ModRule → List FieldError
  unfolding validate_head validate_match validate_patch validate_message
  validate_mod_rule r =
      validate_head r.spec
      ++ validate_match 0 r.spec.match
      ++ validate_patch 0 r.spec.patch
      ++ validate_message r.spec.reject_message
