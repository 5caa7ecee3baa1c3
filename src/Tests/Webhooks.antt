-- ===== src/Tests/Webhooks.antt =====
-- The webhooks and the reconciler, at the fixtures.
use kubemod.Prelude.{
  String, ◌==◌, ◌≡◌, refl, ◌&&◌, not, true, none, some, List, [], ◌∷◌, if◌then◌else◌, ok, done,
  arith, ◌⊎◌, is_some,
}
use kubemod.Prelude.Int16.{pos, increment, min_int16, max_int16, ◌≤ℤ◌, ◌<ℤ◌}
use kubemod.Prelude.Dict
use kubemod.Prelude.Text.{concat, join}
use kubemod.Json.{Value, get_field}
use kubemod.Library.{JsonPatchOperation, Bytes}
use kubemod.Api.{mod_rule_type_patch, mod_rule_type_reject, get_namespaced_name}
use kubemod.Api.Validation.{
  is_empty, validate_mod_rule, default, validate_head, validate_select, validate_regex,
  validate_match_item, validate_match, validate_patch_select, validate_patch_value, validate_patch,
  validate_message,
}
use kubemod.Api.Validation.Spec.{validate_mod_rule-accepted}
use kubemod.Kubernetes.{Response, denied}
use kubemod.Store.{put, items_in, store_item}
use kubemod.Store.Contents.{stored}
use kubemod.Store.Calculate.{
  calculate_store_patch, determine_rejections, patch_tiers, run_tiers, apply_rules, finish,
  reject_tiers, add_messages, rejection_message, quoted,
}
use kubemod.Store.Calculate.Rejections.{rejecting_rules}
use kubemod.Dragnet.{
  Request, handle, inject_synthetic_refs, request_object, store_namespace, rejection_response,
}
use kubemod.Dragnet.Outcome.{Outcome, handle-Outcome}
use kubemod.Dragnet.Spec as DragnetSpec
use kubemod.Dragnet.Spec.{handle-denied, handle-fails_open, is_denied}
use kubemod.Controller.{Fetched, found, not_found, reconcile}
use kubemod.Controller.Spec.{reconcile-stored, desired}
use kubemod.PodBinding
use kubemod.PodBinding.{BindingRequest}
use kubemod.PodBinding.Spec.{handle-Updates, Updates, is_allowed}
use kubemod.Item.{
  new_mod_rule_store_item, new_compiled_match_selects, compiled_selects_from, new_compiled_regexes,
  compiled_regexes_from, new_compiled_json_patch, cached,
}
use kubemod.Item.Match.{
  is_match, is_match_from, is_item_match, match_result, match_values, any_loop, is_string_match,
}
use kubemod.Store.Annotation.{extract_last_applied_configuration, get_value_from_json_object}
use kubemod.Store.Matching.{
  get_matching_mod_rule_store_items, keep_lowest, process_potential_rule, scan_cluster,
  scan_namespace, potential_rules, matching,
}
use kubemod.Tests.Fixtures.{lib, sort, rearranges, no_nginx, empty, pod, k, query}
use kubemod.Tests.Stores.{one_rule, one_rule-IsValid, empty-IsValid}

abbrev pub create : Request
create = record {
  operation = "CREATE";
  namespace = "default";
  kind = record { group = ""; version = "v1"; kind = "Pod" };
  object_raw = some "{}";
  old_object_raw = none;
}

pub injected :
    inject_synthetic_refs k (request_object create) (store_namespace create) ≡ ok (some "{}")
unfolding inject_synthetic_refs
injected = refl

pub calculated :
    calculate_store_patch lib one_rule "CREATE" "default" (some "{}") ≡ some (done (pod, []))
unfolding calculate_store_patch patch_tiers apply_rules finish extract_last_applied_configuration
    get_value_from_json_object increment put store_item items_in Dict.get Dict.put
    new_mod_rule_store_item new_compiled_match_selects compiled_selects_from new_compiled_regexes
    compiled_regexes_from new_compiled_json_patch get_matching_mod_rule_store_items keep_lowest
    process_potential_rule scan_cluster scan_namespace potential_rules matching is_match
    is_match_from is_item_match match_result match_values any_loop is_string_match cached run_tiers
calculated = refl

rejected :
    determine_rejections lib one_rule "CREATE" "default" pod
    ≡ some (done ("default/no-nginx: \"nginx is not allowed\"" ∷ []))
unfolding determine_rejections reject_tiers add_messages rejection_message quoted
    get_namespaced_name concat join increment put store_item items_in Dict.get Dict.put
    new_mod_rule_store_item new_compiled_match_selects compiled_selects_from new_compiled_regexes
    compiled_regexes_from new_compiled_json_patch get_matching_mod_rule_store_items keep_lowest
    process_potential_rule scan_cluster scan_namespace potential_rules matching is_match
    is_match_from is_item_match match_result match_values any_loop is_string_match cached run_tiers
    query get_field
rejected = refl

was_denied :
    handle lib k one_rule create
    ≡ some (
        done (
          denied (
            concat "operation rejected by the following ModRule(s): "
              (join "," ("default/no-nginx: \"nginx is not allowed\"" ∷ [])))))
unfolding handle rejection_response
was_denied = rw (injected, calculated, rejected) refl

handle-denied_example :
    (r : Response) × (handle lib k one_rule create ≡ some (done r))
    × (is_denied r
        ≡ not (DragnetSpec.is_empty (rejecting_rules lib one_rule "CREATE" "default" pod)))
handle-denied_example =
    handle-denied lib k one_rule create (some "{}") pod [] one_rule-IsValid injected calculated

handle-fails_open_example :
    (obj : Bytes) × (inject_synthetic_refs k (some "{}") "default" ≡ ok obj)
    × (p : Value × List JsonPatchOperation) × (calculate_store_patch lib one_rule "CREATE" "default"
          obj
        ≡ some (done p))
handle-fails_open_example = handle-fails_open lib k one_rule create _ was_denied

handle-Outcome_example : Outcome lib k one_rule create (handle lib k one_rule create)
handle-Outcome_example = handle-Outcome lib k one_rule create one_rule-IsValid

-- An API server that holds one rule.
abbrev pub server : String → String → Fetched
server namespace name =
    if name == "no-nginx" then found (record no_nginx { namespace = namespace }) else not_found

reconcile-stored_example :
    stored (reconcile lib sort server empty "default" "no-nginx").0 "default" "no-nginx" ≡ (
      if "default" == "default" && "no-nginx" == "no-nginx"
      then desired lib "default" (stored empty "default" "no-nginx") (server "default" "no-nginx")
      else stored empty "default" "no-nginx")
reconcile-stored_example =
    reconcile-stored lib sort rearranges server empty "default" "no-nginx" "default" "no-nginx"
      empty-IsValid refl

abbrev binding : BindingRequest
binding = record { resource = "pods"; sub_resource = "binding"; object_raw = some "{}" }

handle-Updates_example :
    Updates k binding (PodBinding.handle k binding).1
    × (is_allowed (PodBinding.handle k binding).0 ≡ true)
handle-Updates_example = handle-Updates k binding

pub accepted : validate_mod_rule lib no_nginx ≡ []
unfolding validate_mod_rule validate_head validate_select validate_regex validate_match_item
    validate_match validate_patch_select validate_patch_value validate_patch validate_message
    default query get_field
accepted = refl

validate_mod_rule-accepted_example :
    ((no_nginx.spec.type ≡ mod_rule_type_patch) ⊎ (no_nginx.spec.type ≡ mod_rule_type_reject))
    × (is_empty no_nginx.spec.patch ≡ not (no_nginx.spec.type == mod_rule_type_patch))
    × ((is_some no_nginx.spec.reject_message ≡ true) → no_nginx.spec.type ≡ mod_rule_type_reject)
    × (increment min_int16 ≤ℤ pos 3)
    × (pos 3 <ℤ max_int16)
validate_mod_rule-accepted_example =
    validate_mod_rule-accepted lib no_nginx accepted (omega arith, omega arith)
