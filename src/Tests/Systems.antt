-- ===== src/Tests/Systems.antt =====
-- The whole program, at the fixtures.
use kubemod.Prelude.{
  List, false, String, ◌==◌, eq_iff, ◌≡◌, refl, sym, true, ◌&&◌, Option, none, some, [], ◌∷◌,
  if◌then◌else◌, done, arith, Bool-cases, inl, inr, ℕ, ok,
}
use kubemod.Prelude.Member.{In}
use kubemod.Prelude.Dict
use kubemod.Prelude.Int16.{increment}
use kubemod.Json.{object, Fields, set_field, get_field}
use kubemod.Item.{
  ModRuleStoreItem, new_mod_rule_store_item, new_compiled_match_selects, compiled_selects_from,
  new_compiled_regexes, compiled_regexes_from, new_compiled_json_patch, cached,
}
use kubemod.Store.Calculate.Rejections.{rejecting_rules}
use kubemod.Controller.{found, reconcile_fetched}
use kubemod.Dragnet.During.{handle_during-denied, handle_during}
use kubemod.Dragnet.Inject.{inject_synthetic_refs-ok}
use kubemod.Dragnet.References.{NamespaceRef, NodeRef}
use kubemod.Tests.Orders.{emptied, emptied-IsValid}
use kubemod.Tests.Webhooks.{accepted, create, injected}
use kubemod.Tests.Fixtures.{lib, sort, rearranges, no_nginx, pod, k, query}
use kubemod.Tests.Stores.{one_rule}
use kubemod.Kubernetes.{Response}
use kubemod.Api.{ModRule}
use kubemod.Item.Match.{
  is_match, is_match_from, is_item_match, match_result, match_values, any_loop, is_string_match,
  expression_text,
}
use kubemod.Store.{items_in, store_item, put}
use kubemod.Store.Annotation.{extract_last_applied_configuration, get_value_from_json_object}
use kubemod.Store.Calculate.{run_tiers, apply_rules, finish}
use kubemod.Store.Matching.{
  get_matching_mod_rule_store_items, keep_lowest, process_potential_rule, scan_cluster,
  scan_namespace, potential_rules, matching,
}
use kubemod.Store.Calculate.Interleaved.{calculate_patch_during}
use kubemod.Store.Contents.{stored}
use kubemod.Controller.Spec.{IsNamed, desired}
use kubemod.Controller.Converge.{Settles}
use kubemod.Dragnet.Spec.{is_denied}
use kubemod.System.Reach.{own}
use kubemod.System.{
  System, Call, answer, started_system, fetches, finished, Reached, at_start, moved, fetched_rule,
  acted,
}
use kubemod.System.Synced.{IsSynced, Reached-IsSynced}
use kubemod.System.Progress.{Calls, served, served-stored}
use kubemod.System.Enforced.{Reached-enforced}

-- The server that holds one rule, and the operator beside it before and after its call.
abbrev one_held : String → String → Option ModRule
one_held namespace name =
    if namespace == "default" && name == "no-nginx" then some no_nginx else none

one_held-IsNamed : (n m : String) → IsNamed m (answer (one_held n m))
one_held-IsNamed n m = elim (Bool-cases (m == "no-nginx")) [
  | inl e ↦ elim (Bool-cases (n == "default")) [
    | inl d ↦ rw (d, e) (sym ((eq_iff m "no-nginx").0 e))
    | inr d ↦ rw d tt
  ]
  | inr e ↦ ground (arith, e)
]

abbrev before : System
before = started_system "kubemod-system" one_held

before-Reached : Reached lib sort "kubemod-system" before
before-Reached = at_start one_held one_held-IsNamed

abbrev call : Call
call = record { namespace = "default"; name = "no-nginx"; fetched = found no_nginx }

abbrev after : System
after = finished lib sort (fetches before "default" "no-nginx" (found no_nginx) false) call

after-Reached : Reached lib sort "kubemod-system" after
after-Reached =
    moved (moved before-Reached (fetched_rule "default" "no-nginx" refl)) (acted call refl)

Reached-IsSynced_example : IsSynced lib "kubemod-system" after
Reached-IsSynced_example = Reached-IsSynced lib sort rearranges "kubemod-system" after after-Reached

abbrev owed : List (String × String)
owed = ("default", "no-nginx") ∷ []

no_nginx-Settles : Settles lib "default" (found no_nginx)
unfolding new_mod_rule_store_item new_compiled_match_selects compiled_selects_from
    new_compiled_regexes compiled_regexes_from new_compiled_json_patch
no_nginx-Settles = refl

served-stored_example :
    Calls lib sort before (served lib sort owed before)
    × ((served lib sort owed before).server ≡ one_held)
    × ((served lib sort owed before).running ≡ none)
    × ((served lib sort owed before).pending "default" "no-nginx" ≡ false)
    × (stored (served lib sort owed before).store "default" "no-nginx"
        ≡ desired lib "default" none (found no_nginx))
served-stored_example =
    served-stored lib sort rearranges "kubemod-system" before owed "default" "no-nginx"
      before-Reached (λ h. refl) no_nginx-Settles

calculated_during :
    calculate_patch_during lib (λ j. one_rule) "CREATE" "default" (some "{}")
    ≡ some (done (pod, []))
unfolding calculate_patch_during apply_rules finish extract_last_applied_configuration
    get_value_from_json_object increment put store_item items_in Dict.get Dict.put
    new_mod_rule_store_item new_compiled_match_selects compiled_selects_from new_compiled_regexes
    compiled_regexes_from new_compiled_json_patch get_matching_mod_rule_store_items keep_lowest
    process_potential_rule scan_cluster scan_namespace potential_rules matching is_match
    is_match_from is_item_match match_result match_values any_loop is_string_match cached run_tiers
calculated_during = refl

-- The operator is as it was after its call in every round.
Reached-enforced_example :
    (response : Response) × (handle_during lib k (λ j. one_rule) (λ j. after.store) create
      ≡ some (done response))
    × (is_denied response ≡ true)
unfolding reconcile_fetched query get_field expression_text
Reached-enforced_example =
    Reached-enforced lib sort rearranges k "kubemod-system" (λ j. one_rule) (λ j. after) "default"
      "no-nginx" no_nginx create (some "{}") pod [] (λ j. after-Reached)
      (λ j. record { held = refl; not_owed = refl; not_running = refl }) accepted refl
      (omega arith, omega arith) refl (own refl refl) refl refl injected calculated_during

handle_during-denied_example :
    (answer : Response) × (handle_during lib k (λ j. one_rule) emptied create ≡ some (done answer))
    × ((si : ModRuleStoreItem)
        → ((j : ℕ) → In si (rejecting_rules lib (emptied j) "CREATE" "default" pod))
        → is_denied answer ≡ true)
    × (is_denied answer ≡ true
        → (j : ℕ) × (si : ModRuleStoreItem) × In si
            (rejecting_rules lib (emptied j) "CREATE" "default" pod))
handle_during-denied_example =
    handle_during-denied lib k (λ j. one_rule) emptied create (some "{}") pod [] emptied-IsValid
      injected calculated_during

inject_synthetic_refs-ok_example :
    (obj refs : Fields) × (k.decode (some "{}") ≡ ok obj)
    × (k.encode (k.drop_managed_fields (set_field "syntheticRefs" (object refs) obj))
        ≡ ok (some "{}"))
    × NamespaceRef k "default" (get_field "namespace" refs)
    × NodeRef k obj (get_field "node" refs)
inject_synthetic_refs-ok_example =
    inject_synthetic_refs-ok k (some "{}") (some "{}") "default" injected
