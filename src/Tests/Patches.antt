-- ===== src/Tests/Patches.antt =====
-- The patches and value templates of rules, at concrete ones.
use kubemod.Prelude.{String, ◌≡◌, ◌≢◌, refl, some, none, [], ◌∷◌, ok, done, ◌>>=◌, lift, inl, arith}
use kubemod.Prelude.Lists.{All, get_elem?}
use kubemod.Prelude.Text.{concat, join}
use kubemod.Prelude.Decimal.{atoi}
use kubemod.Json.{null, end, field, object, Fields}
use kubemod.Library.{Evaluable}
use kubemod.Paths.{key_parts_from_select_key, path_template_to_sprintf_template}
use kubemod.Paths.Render.{PathTemplate, Hole, IsTemplate, IsPlainKey, print}
use kubemod.ValueTemplates.{pre_process_mod_rule_go_template}
use kubemod.ValueTemplates.Render
use kubemod.ValueTemplates.Render.{
  ValueTemplate, with_indices, pre_process_mod_rule_go_template-print,
}
use kubemod.Item.{ModRuleStoreItem, CompiledJsonPatchOperation, new_mod_rule_store_item}
use kubemod.Item.Accepted.{SelectCompiles}
use kubemod.Api.{ModRule}
use kubemod.Api.Validation.{validate_mod_rule}
use kubemod.Item.Patch.{calculate_patch}
use kubemod.Item.Patch.Text.{operations, calculate_patch-operations}
use kubemod.Item.Patch.Missing.{calculate_patch-missing}
use kubemod.Store.Contents.{stored}
use kubemod.Controller.{Fetched, found, reconcile}
use kubemod.Controller.Accepted.{reconcile-accepted}
use kubemod.Tests.Stores.{empty-IsValid}
use kubemod.Tests.Fixtures.{
  sort, rearranges, empty, lib, no_nginx_item, add_label, pod, constant, same,
}

abbrev second_key : Hole
second_key = record { index = 1; after = "" }

abbrev at_second_key : PathTemplate
at_second_key = record { first = "/x/"; holes = second_key ∷ [] }

at_second_key-IsTemplate : IsTemplate at_second_key
at_second_key-IsTemplate = (
  ((refl, (refl, (refl, tt))), (refl, (refl, (refl, tt)))),
  (record { fits = omega arith; text = (tt, tt); ends = tt }, tt),
)

-- A select expression whose matches have one key.
abbrev one_match : Fields
one_match = field "$[\"a\"]" null end

abbrev select_one : Evaluable
select_one v = ok (object one_match)

abbrev replace_second : CompiledJsonPatchOperation
replace_second = record {
  op = "replace";
  patch_select = some select_one;
  path = "/x/#1";
  path_sprintf_template = path_template_to_sprintf_template lib (print at_second_key);
  value_template = constant "1";
}

abbrev replaces : ModRuleStoreItem
replaces = record no_nginx_item { compiled_json_patch = replace_second ∷ [] }

one_key-IsPlainKey : All IsPlainKey (key_parts_from_select_key "$[\"a\"]")
unfolding key_parts_from_select_key concat atoi
one_key-IsPlainKey = ((refl, tt), tt)

no_second_key : get_elem? (key_parts_from_select_key "$[\"a\"]") 1 ≡ none
unfolding key_parts_from_select_key concat
no_second_key = refl

calculate_patch-operations_example : calculate_patch lib replaces "default" pod ≡ (
    operations lib "default" pod (replace_second ∷ []) >>= λ ops.
    lift (lib.decode_patch (concat (concat "[" (join "," ops)) "]")))
calculate_patch-operations_example = calculate_patch-operations lib replaces "default" pod

calculate_patch-missing_example : calculate_patch lib replaces "default" pod ≢ done same
calculate_patch-missing_example =
    calculate_patch-missing lib replaces "default" pod replace_second select_one at_second_key
      second_key "$[\"a\"]" null one_match (inl refl) refl refl at_second_key-IsTemplate refl
      (inl refl) one_key-IsPlainKey (inl refl) no_second_key same

-- `a..#0}`: a dot in front of a placeholder.
abbrev dots : ValueTemplate
dots = record { first = "a."; placeholders = record { index = 0; after = "}" } ∷ [] }

pre_process_mod_rule_go_template-print_example :
    pre_process_mod_rule_go_template (Render.print dots) ≡ with_indices dots
pre_process_mod_rule_go_template-print_example =
    pre_process_mod_rule_go_template-print dots
      ((refl, (refl, tt)), (record { text = (refl, tt); ends = refl }, tt))

-- A rule with a select expression beside a value.
abbrev label_selected : ModRule
label_selected = record add_label {
  spec = record add_label.spec {
    patch =
        record {
          operation = "add";
          select = some "images";
          path = "/metadata/labels/web";
          value = some "nginx";
        }
        ∷ [];
  };
}

label_selected-accepted : validate_mod_rule lib label_selected ≡ []
unfolding validate_mod_rule
label_selected-accepted = refl

select_compiles : All (SelectCompiles lib) label_selected.spec.patch
unfolding concat
select_compiles = (refl, tt)

-- The API server has that rule, whatever it is asked for.
abbrev has_label_selected : String → String → Fetched
has_label_selected namespace name = found label_selected

reconcile-accepted_example :
    (si : ModRuleStoreItem) × (new_mod_rule_store_item lib label_selected ≡ ok si)
    × (stored
          (reconcile lib sort has_label_selected empty "default" "add-label").0
          "default"
          "add-label"
        ≡ some si)
reconcile-accepted_example =
    reconcile-accepted lib sort rearranges has_label_selected empty "default" "add-label"
      label_selected (λ path. refl) empty-IsValid refl refl label_selected-accepted refl
      select_compiles
