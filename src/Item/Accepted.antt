-- ===== src/Item/Accepted.antt =====
-- From the webhook to the store: a rule that validation accepts (api/v1beta1/modrule_webhook.go) and
-- its compilation (core/modrulestoreitem.go).
use kubemod.Prelude.{
  is_ok-and_then, is_ok-cases, ℕ, suc, String, ◌==◌, ◌≡◌, refl, Bool, true, Option, none, some,
  List, [], ◌∷◌, ◌++◌, Result, ok, err, is_ok, Bool-cases, inl, inr, arith,
}
use kubemod.Prelude.Lists.{All}
use kubemod.Library.{Library}
use kubemod.Api.{ModRule, MatchItem, PatchOperation}
use kubemod.Api.Validation.{
  FieldPath, error_of, validate_head, validate_select, validate_regex, validate_match_item,
  validate_match, validate_patch_value, validate_patch, validate_message, validate_mod_rule,
}
use kubemod.Api.Validation.Spec.{append-eq-nil}
use kubemod.ValueTemplates.{pre_process_mod_rule_go_template}
use kubemod.Item.{
  ModRuleStoreItem, compiled_selects_from, new_compiled_match_selects, with_regex,
  compiled_regexes_from, new_compiled_regexes, compile_patch_select, compile_patch_value,
  compile_patch_operation, new_compiled_json_patch, compile_target_regex, compile_reject_message,
  new_mod_rule_store_item,
}

-- The select expression of a patch operation, if it has one, compiles as it is compiled with the rule:
-- as the key of an object, which is more than validation looks at.
abbrev pub SelectCompiles : Library → PatchOperation → Type 0
SelectCompiles lib po = is_ok (compile_patch_select lib po.select) ≡ true

is_ok-error_of : {A : Type 0} (at : FieldPath) (r : Result A) → error_of at r ≡ [] → is_ok r ≡ true
is_ok-error_of at (ok a) h = refl
is_ok-error_of at (err e) h = absurd (ground (arith, h))

module _ (lib : Library) where
  is_ok-validate_select :
      (i : ℕ) (select : String)
      → validate_select lib i select ≡ []
      → is_ok (lib.new_evaluable select) ≡ true
  unfolding validate_select
  is_ok-validate_select i select h = elim (Bool-cases (select == "")) [
    | inl e ↦ absurd (ground (arith, rw (validate_select, e) at h))
    | inr e ↦ is_ok-error_of _ (lib.new_evaluable select) (rw (validate_select, e) at h)
  ]

  is_ok-with_regex :
      (i : ℕ) (r : Option String) (rest : Result (List (ℕ × (String → Bool))))
      → validate_regex lib i r ≡ []
      → is_ok rest ≡ true
      → is_ok (with_regex lib i r rest) ≡ true
  unfolding validate_regex
  is_ok-with_regex i none rest h k = k
  is_ok-with_regex i (some r) rest h k =
      is_ok-and_then (lib.compile_regexp r) _ (is_ok-error_of _ (lib.compile_regexp r) h)
        (λ rex. is_ok-and_then rest _ k (λ cache. refl))

  is_ok-validate_match :
      (i : ℕ) (ms : List MatchItem)
      → validate_match lib i ms ≡ []
      → (is_ok (compiled_selects_from lib i ms) ≡ true)
        × (is_ok (compiled_regexes_from lib i ms) ≡ true)
  unfolding validate_match validate_match_item compiled_selects_from compiled_regexes_from
  is_ok-validate_match i [] h = (refl, refl)
  is_ok-validate_match i (m ∷ ms) h =
      let (item, rest) = append-eq-nil (validate_match_item lib i m) _ h in
      let (tests, kind) =
        append-eq-nil (validate_select lib i m.select ++ validate_regex lib i m.match_regex) _
          item in
      let (select, regex) = append-eq-nil (validate_select lib i m.select) _ tests in
      let ih = is_ok-validate_match (suc i) ms rest in
      (
        is_ok-and_then (lib.new_evaluable m.select) _ (is_ok-validate_select i m.select select)
            (λ e. is_ok-and_then (compiled_selects_from lib (suc i) ms) _ ih.0 (λ cache. refl)),
        is_ok-with_regex i m.match_regex (compiled_regexes_from lib (suc i) ms) regex ih.1,
      )

  is_ok-validate_message :
      (message : Option String)
      → validate_message lib message ≡ []
      → is_ok (compile_reject_message lib message) ≡ true
  unfolding validate_message
  is_ok-validate_message none h = refl
  is_ok-validate_message (some m) h =
      is_ok-and_then (lib.parse_template "rejectMessage" m) _
        (is_ok-error_of _ (lib.parse_template "rejectMessage" m) h) (λ t. refl)

  module _
      (nulls : (path : String)
        → is_ok (lib.parse_template path (pre_process_mod_rule_go_template "null")) ≡ true) where
    is_ok-validate_patch_value :
        (i : ℕ) (po : PatchOperation)
        → validate_patch_value lib i po po.value ≡ []
        → is_ok (compile_patch_value lib po) ≡ true
    unfolding validate_patch_value
    is_ok-validate_patch_value i po h =
        elim po.value
            as (λ v.
              validate_patch_value lib i po v ≡ []
              → is_ok (
                  lib.parse_template po.path
                    (pre_process_mod_rule_go_template (elim v [ none ↦ "null" | some u ↦ u ])))
                ≡ true) [
                  | none ↦ λ k. nulls po.path
                  | some v ↦ λ k. is_ok-error_of _ _ (append-eq-nil _ _ k).0
                ]
          h

    is_ok-validate_patch :
        (i : ℕ) (ops : List PatchOperation)
        → All (SelectCompiles lib) ops
        → validate_patch lib i ops ≡ []
        → is_ok (new_compiled_json_patch lib ops) ≡ true
    unfolding validate_patch new_compiled_json_patch compile_patch_operation
    is_ok-validate_patch i [] v h = refl
    is_ok-validate_patch i (po ∷ rest) v h =
        let (one, more) = append-eq-nil (validate_patch_value lib i po po.value) _ h in
        is_ok-and_then (compile_patch_operation lib po) _
          (is_ok-and_then (compile_patch_select lib po.select) _ v.0 (λ sel.
            is_ok-and_then (compile_patch_value lib po) _ (is_ok-validate_patch_value i po one)
              (λ tpl. refl)))
          (λ c.
            is_ok-and_then (new_compiled_json_patch lib rest) _
              (is_ok-validate_patch (suc i) rest v.1 more) (λ cs. refl))

-- The parts of the validation that `validate_mod_rule` joins.
accepted-parts :
    (lib : Library) (r : ModRule)
    → validate_mod_rule lib r ≡ []
    → (validate_match lib 0 r.spec.match ≡ [])
      × (validate_patch lib 0 r.spec.patch ≡ [])
      × (validate_message lib r.spec.reject_message ≡ [])
unfolding validate_mod_rule
accepted-parts lib r accepted =
    let (hmp, message) =
      append-eq-nil
        (validate_head r.spec
          ++ validate_match lib 0 r.spec.match
          ++ validate_patch lib 0 r.spec.patch)
        _ accepted in
    let (hm, patch) =
      append-eq-nil (validate_head r.spec ++ validate_match lib 0 r.spec.match) _ hmp in
    let (head, match_items) = append-eq-nil (validate_head r.spec) _ hm in
    (match_items, patch, message)

-- A rule that validation accepts compiles, if its expression for the target namespaces and its patch
-- operations do.
pub new_mod_rule_store_item-compiled :
    (lib : Library) (r : ModRule)
    → validate_mod_rule lib r ≡ []
    → is_ok (compile_target_regex lib r.spec.target_namespace_regex) ≡ true
    → is_ok (new_compiled_json_patch lib r.spec.patch) ≡ true
    → (si : ModRuleStoreItem) × (new_mod_rule_store_item lib r ≡ ok si)
unfolding new_mod_rule_store_item new_compiled_match_selects new_compiled_regexes
new_mod_rule_store_item-compiled lib r accepted target patch =
    let (match_items, _, message) = accepted-parts lib r accepted in
    let m = is_ok-validate_match lib 0 r.spec.match match_items in
    is_ok-cases (new_mod_rule_store_item lib r) (
      is_ok-and_then (compile_target_regex lib r.spec.target_namespace_regex) _ target λ t.
        is_ok-and_then (new_compiled_match_selects lib r.spec.match) _ m.0 λ s.
          is_ok-and_then (new_compiled_regexes lib r.spec.match) _ m.1 λ x.
            is_ok-and_then (new_compiled_json_patch lib r.spec.patch) _ patch λ p.
              is_ok-and_then (compile_reject_message lib r.spec.reject_message) _
                (is_ok-validate_message lib r.spec.reject_message message) λ n. refl)

-- A rule that validation accepts compiles, if what validation does not look at is in order: the
-- expression for the target namespaces compiles, and the select expressions do as keys of objects. Of
-- the template engine this asks that `null` is a template.
pub new_mod_rule_store_item-accepted :
    (lib : Library) (r : ModRule)
    → ((path : String)
        → is_ok (lib.parse_template path (pre_process_mod_rule_go_template "null")) ≡ true)
    → validate_mod_rule lib r ≡ []
    → is_ok (compile_target_regex lib r.spec.target_namespace_regex) ≡ true
    → All (SelectCompiles lib) r.spec.patch
    → (si : ModRuleStoreItem) × (new_mod_rule_store_item lib r ≡ ok si)
new_mod_rule_store_item-accepted lib r nulls accepted target selects =
    let (_, patch, _) = accepted-parts lib r accepted in
    new_mod_rule_store_item-compiled lib r accepted target
      (is_ok-validate_patch lib nulls 0 r.spec.patch selects patch)
