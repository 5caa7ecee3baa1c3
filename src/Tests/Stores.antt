-- ===== src/Tests/Stores.antt =====
-- The store and its rules, at the fixtures.
use mathlib.Core.List.{Permᴰ}
use kubemod.Prelude.{
  ◌>>=◌, String, ◌==◌, ◌≡◌, refl, ◌&&◌, none, some, List, map, if◌then◌else◌, ok, err, done, panic,
  lift, ◌⊎◌,
}
use kubemod.Prelude.Int16.{pos, max_int16}
use kubemod.Prelude.Lists.{select}
use kubemod.Item.{
  new_mod_rule_store_item, new_compiled_match_selects, compiled_selects_from, new_compiled_regexes,
  compiled_regexes_from, new_compiled_json_patch,
}
use kubemod.Item.Match.Verdict.{IsCompiled}
use kubemod.Store.{ModRuleStore, put, delete}
use kubemod.Store.Contents.{stored, IsValid}
use kubemod.Store.Put.{stored-put, put-IsValid}
use kubemod.Store.Delete.{stored-delete, delete-IsValid}
use kubemod.Store.Matching.{get_matching_mod_rule_store_items}
use kubemod.Store.Matching.Spec.{get_matching_lem, wanted}
use kubemod.Store.Matching.Lowest.{in_tier, lowest, applicable}
use kubemod.Store.Calculate.{
  determine_rejections, rejection_message, calculate_store_patch, finish, PatchState,
}
use kubemod.Store.Calculate.Rejections.{rejecting_rules, determine_rejections-rejecting_rules}
use kubemod.Controller.Converge.{started, Reachable-IsValid}
use kubemod.Store.Annotation.{extract_last_applied_configuration}
use kubemod.Json.{Value, Fields, field, object, string, end}
use kubemod.Store.Annotation.Written.{annotations_of, IsWritten}
use kubemod.Store.Calculate.Finish.{finish-IsWritten}
use kubemod.Store.Calculate.Patched.{patched_by_tiers, calculate_store_patch-patched_by_tiers}
use kubemod.Tests.Fixtures.{
  add_label, lib, sort, rearranges, no_nginx, no_nginx_item, bad_regex, empty, pod, runs_nginx,
}

no_nginx-compiles : new_mod_rule_store_item lib no_nginx ≡ ok no_nginx_item
unfolding new_mod_rule_store_item new_compiled_match_selects compiled_selects_from
    new_compiled_regexes compiled_regexes_from new_compiled_json_patch
no_nginx-compiles = refl

abbrev pub one_rule : ModRuleStore
one_rule = (put lib sort empty no_nginx).0

pub empty-IsValid : IsValid lib empty
empty-IsValid = Reachable-IsValid lib sort rearranges "kubemod-system" empty started

pub one_rule-IsValid : IsValid lib one_rule
one_rule-IsValid = put-IsValid lib sort rearranges empty no_nginx empty-IsValid

abbrev two_rules : ModRuleStore
two_rules = (put lib sort one_rule add_label).0

two_rules-IsValid : IsValid lib two_rules
two_rules-IsValid = put-IsValid lib sort rearranges one_rule add_label one_rule-IsValid

calculate_store_patch-patched_by_tiers_example :
    calculate_store_patch lib two_rules "CREATE" "default" (some "{}")
    ≡ some (
        patched_by_tiers lib two_rules "CREATE" "default" (record {
          jsonv = pod;
          modified_json = some "{}";
          last_applied = extract_last_applied_configuration pod;
        })
        >>= finish lib two_rules "CREATE" "default" (some "{}"))
calculate_store_patch-patched_by_tiers_example =
    calculate_store_patch-patched_by_tiers lib two_rules "CREATE" "default" (some "{}") pod
      two_rules-IsValid refl

determine_rejections-rejecting_rules_example :
    (messages : List String) × (determine_rejections lib one_rule "CREATE" "default" pod
      ≡ some (done messages))
    × Permᴰ messages (
        map
          (rejection_message lib one_rule "CREATE" "default" pod)
          (rejecting_rules lib one_rule "CREATE" "default" pod))
determine_rejections-rejecting_rules_example =
    determine_rejections-rejecting_rules lib one_rule "CREATE" "default" pod one_rule-IsValid

get_matching_lem_example :
    get_matching_mod_rule_store_items lib one_rule "CREATE" "default" (pos 0) "Reject" pod
    ≡ done (
      select (wanted lib "Reject" pod) (
          in_tier
            (lowest max_int16 (applicable "CREATE" "default" (pos 0) one_rule))
            (applicable "CREATE" "default" (pos 0) one_rule)),
      lowest max_int16 (applicable "CREATE" "default" (pos 0) one_rule),
    )
get_matching_lem_example =
    get_matching_lem lib "CREATE" "default" (pos 0) one_rule one_rule-IsValid "Reject" pod

no_regex : IsCompiled lib runs_nginx none
no_regex r h = absurd (cc)

stored-put_example : stored one_rule "default" "no-nginx" ≡ (
    if "default" == "default" && "no-nginx" == "no-nginx"
    then some no_nginx_item
    else stored empty "default" "no-nginx")
stored-put_example =
    stored-put lib sort rearranges empty no_nginx no_nginx_item "default" "no-nginx" empty-IsValid
      no_nginx-compiles

bad_regex-fails : new_mod_rule_store_item lib bad_regex ≡ err "missing )"
unfolding new_mod_rule_store_item
bad_regex-fails = refl

delete-IsValid_example : IsValid lib (delete two_rules "default" "no-nginx")
delete-IsValid_example = delete-IsValid lib two_rules "default" "no-nginx" two_rules-IsValid

stored-delete_example : stored (delete one_rule "default" "no-nginx") "default" "no-nginx" ≡ (
    if "default" == "default" && "no-nginx" == "no-nginx"
    then none
    else stored one_rule "default" "no-nginx")
stored-delete_example =
    stored-delete lib one_rule "default" "no-nginx" "default" "no-nginx" one_rule-IsValid

put-IsValid_example : IsValid lib (put lib sort one_rule bad_regex).0
put-IsValid_example = put-IsValid lib sort rearranges one_rule bad_regex one_rule-IsValid

-- A patched document that has kept its annotations.
abbrev annotated : PatchState
annotated = record {
  jsonv = object (
      field "metadata" (object (field "annotations" (object (field "a" (string "b") end)) end))
        end);
  modified_json = some "{}";
  last_applied = some "{}";
}

finish-IsWritten_example :
    ((annotations_of annotated.jsonv ≡ none)
      × (finish lib one_rule "CREATE" "default" (some "{}") annotated ≡ panic))
    ⊎ ((w : Value) × (before after : Fields) × IsWritten annotated.jsonv w "{}" before after
        × (finish lib one_rule "CREATE" "default" (some "{}") annotated ≡ (
            lift (lib.marshal w) >>= λ doc.
            lift (lib.create_patch (some "{}") doc) >>= λ ops. done (w, ops))))
finish-IsWritten_example =
    finish-IsWritten lib one_rule "CREATE" "default" (some "{}") annotated "{}" refl
