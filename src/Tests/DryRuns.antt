-- ===== src/Tests/DryRuns.antt =====
-- The dry run, at the fixtures.
use mathlib.Core.List.{Permᴰ}
use kubemod.Prelude.{String, ◌≡◌, refl, none, some, List, [], ◌∷◌, ok, done, map}
use kubemod.Prelude.Lists.{All}
use kubemod.Prelude.Dict
use kubemod.Prelude.Text.{split}
use kubemod.Json.{Value, get_field}
use kubemod.Library.{JsonPatchOperation}
use kubemod.Api.Validation.{
  validate_mod_rule, default, validate_head, validate_select, validate_regex, validate_match_item,
  validate_match, validate_patch_select, validate_patch_value, validate_patch, validate_message,
}
use kubemod.Store.{put, ModRuleStore, new_mod_rule_store, store_item}
use kubemod.Store.Contents.{IsValid}
use kubemod.Store.Calculate.{calculate_store_patch, rejection_message}
use kubemod.Store.Calculate.Rejections.{rejecting_rules}
use kubemod.DryRun.Loaded.{IsAccepted, Holds}
use kubemod.DryRun.Response.{IsDiff, IsResponse}
use kubemod.DryRun.Answer.{dry_run_answer-IsResponse, dry_run_answer-accepted}
use kubemod.DryRun.{
  dry_run_handler, DryRunRequest, load_rules, prepared, validated_put, dry_run_answer,
  DryRunResponse, response_body, dry_run_operation, dry_run_namespace,
}
use kubemod.DryRun.Spec.{dry_run_handler-tries_nothing}
use kubemod.Item.{
  new_mod_rule_store_item, new_compiled_match_selects, compiled_selects_from, new_compiled_regexes,
  compiled_regexes_from, new_compiled_json_patch,
}
use kubemod.Store.Annotation.{
  value_at, extract_last_applied_configuration, get_value_from_json_object,
}
use kubemod.Tests.Fixtures.{lib, sort, rearranges, no_nginx, empty, pod, tools, query}

abbrev manifest : DryRunRequest
manifest = record { resource_manifest = pod; mod_rules = some no_nginx ∷ [] }

loaded :
    load_rules lib sort tools empty (some no_nginx ∷ [])
    ≡ done (put lib sort empty (prepared no_nginx)).0
unfolding load_rules validated_put put store_item Dict.get Dict.put new_mod_rule_store_item
    new_compiled_match_selects compiled_selects_from new_compiled_regexes compiled_regexes_from
    new_compiled_json_patch validate_mod_rule validate_head validate_select validate_regex
    validate_match_item validate_match validate_patch_select validate_patch_value validate_patch
    validate_message default query get_field
loaded = refl

plain : extract_last_applied_configuration pod ≡ none
unfolding extract_last_applied_configuration get_value_from_json_object value_at split get_field
plain = refl

dry_run_handler-tries_nothing_example :
    dry_run_handler lib sort tools "kubemod-system" manifest
    ≡ some (done (record { patch = []; diff = ""; rejections = [] }))
dry_run_handler-tries_nothing_example =
    dry_run_handler-tries_nothing lib sort rearranges tools "kubemod-system" manifest
      (put lib sort empty (prepared no_nginx)).0 (some "{}") pod (refl, tt) loaded refl refl plain
      refl

abbrev nothing : DryRunResponse
nothing = record { patch = []; diff = ""; rejections = [] }

answered :
    dry_run_answer lib sort tools "kubemod-system" (ok manifest)
    ≡ some (done (record { status = 200; body = response_body nothing }))
unfolding dry_run_answer
answered =
    rw
      (dry_run_handler-tries_nothing lib sort rearranges tools "kubemod-system" manifest
        (put lib sort empty (prepared no_nginx)).0 (some "{}") pod (refl, tt) loaded refl refl plain
        refl)
      refl

dry_run_answer-IsResponse_example :
    (request : DryRunRequest) × (response : DryRunResponse) × (ok manifest ≡ ok request)
    × (response_body nothing ≡ response_body response)
    × IsResponse lib tools "kubemod-system" request response
dry_run_answer-IsResponse_example =
    dry_run_answer-IsResponse lib sort tools rearranges "kubemod-system" (ok manifest)
      (record { status = 200; body = response_body nothing }) answered refl

prepared-IsAccepted : All (IsAccepted lib) manifest.mod_rules
unfolding load_rules validated_put put store_item Dict.get Dict.put new_mod_rule_store_item
    new_compiled_match_selects compiled_selects_from new_compiled_regexes compiled_regexes_from
    new_compiled_json_patch validate_mod_rule validate_head validate_select validate_regex
    validate_match_item validate_match validate_patch_select validate_patch_value validate_patch
    validate_message default query get_field
prepared-IsAccepted = ((refl, (_, refl)), tt)

dry_run_answer-accepted_example :
    (s : ModRuleStore) × IsValid lib s
    × Holds lib manifest.mod_rules (new_mod_rule_store "kubemod-system") s
    × ((patched : Value) (ops : List JsonPatchOperation) (diff : String)
        → calculate_store_patch lib s dry_run_operation dry_run_namespace (some "{}")
          ≡ some (done (patched, ops))
        → IsDiff tools (some "{}") patched ops diff
        → (messages : List String) × Permᴰ messages (
            map
              (rejection_message lib s dry_run_operation dry_run_namespace patched)
              (rejecting_rules lib s dry_run_operation dry_run_namespace patched))
          × (dry_run_answer lib sort tools "kubemod-system" (ok manifest)
              ≡ some (
                  done (record {
                    status = 200;
                    body =
                        response_body (record { patch = ops; diff = diff; rejections = messages });
                  }))))
dry_run_answer-accepted_example =
    dry_run_answer-accepted lib sort tools rearranges "kubemod-system" manifest (some "{}")
      prepared-IsAccepted refl
