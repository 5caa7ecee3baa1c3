-- ===== src/DryRun/Spec.antt =====
-- A dry run asks for the operation "" (app/webapp_handlers.go), which no rule with the operations
-- of the API admits: no rule is tried.
use kubemod.Prelude.{
  ℕ, done-injective, String, ◌==◌, ◌≡◌, refl, sym, subst, false, Option, none, some, List, [], ◌∷◌,
  Result, ok, err, done, >>=-eq-done, Bool-cases, Result-cases, inl, inr,
}
use kubemod.Prelude.Dict
use kubemod.Prelude.Lists.{All, any}
use kubemod.Prelude.Keyed.{All-perm}
use kubemod.Json.{Value}
use kubemod.Library.{Library, Bytes}
use kubemod.Api.{ModRule}
use kubemod.Api.Validation.{default, or_default_operations, FieldError}
use kubemod.Item.{ModRuleStoreItem, new_mod_rule_store_item}
use kubemod.Store.{ModRuleStore, Sort, items_in, put, new_mod_rule_store, replaced}
use kubemod.Store.Contents.{Rearranges, All-set, All-append}
use kubemod.Store.Put.{item-mod_rule, items_in-put, slices-put_error}
use kubemod.Store.Matching.{admits}
use kubemod.Store.Annotation.{extract_last_applied_configuration}
use kubemod.Store.Calculate.Idle.{NoneAdmits, calculate_store_patch-idle, determine_rejections-idle}
use kubemod.DryRun.{
  dry_run_handler, dry_run_operation, prepared, load_rules, validated_put, put_result,
  DryRunRequest, Tools, diff_text, dry_run_namespace,
}

abbrev pub NoRuleAdmits : String → ModRuleStore → Type 0
NoRuleAdmits operation s = (n : String) → NoneAdmits operation (items_in s n)

-- The operations that the rule names are not empty texts.
abbrev pub NamesOperations : Option ModRule → Type 0
NamesOperations none = Unit
NamesOperations (some r) = any (λ o. dry_run_operation == o) r.spec.admission_operations ≡ false

any-or_default_operations :
    (os : List String)
    → any (λ o. dry_run_operation == o) os ≡ false
    → any (λ o. dry_run_operation == o) (or_default_operations os) ≡ false
any-or_default_operations [] h = refl
any-or_default_operations (o ∷ os) h = h

module _ (lib : Library) (sort : Sort) (rearranges : Rearranges sort) where
  NoneAdmits-replaced :
      (operation : String) (items : List ModRuleStoreItem) (i : Option ℕ) (si : ModRuleStoreItem)
      → admits operation si ≡ false
      → NoneAdmits operation items
      → NoneAdmits operation (replaced items i si)
  NoneAdmits-replaced operation items none si h v = All-append _ items si h v
  NoneAdmits-replaced operation items (some i) si h v = All-set _ items i si h v

  -- `Put` of a rule that does not admit the operation.
  put-NoRuleAdmits :
      (operation : String) (s : ModRuleStore) (r : ModRule)
      → any (λ o. operation == o) r.spec.admission_operations ≡ false
      → NoRuleAdmits operation s
      → NoRuleAdmits operation (put lib sort s r).0
  put-NoRuleAdmits operation s r h v n = elim (Result-cases (new_mod_rule_store_item lib r)) [
    | inr (e, failed) ↦ rw (slices-put_error lib sort rearranges s r e n failed) (v n)
    | inl (item, made) ↦ elim (Bool-cases (r.namespace == n)) [
      | inr other ↦ rw (items_in-put lib sort rearranges s r item n made, other) (v n)
      | inl same ↦
          rw (items_in-put lib sort rearranges s r item n made, same)
            (All-perm (λ si. admits operation si ≡ false) (rearranges _)
              (NoneAdmits-replaced operation (items_in s r.namespace) _ item
                (subst
                  (λ (m : ModRule). any (λ o. operation == o) m.spec.admission_operations ≡ false)
                  (sym (item-mod_rule lib sort rearranges r item made)) h)
                (v r.namespace)))
    ]
  ]

  module _ (tools : Tools) where
    pub put_result-eq-done :
        (x : ModRuleStore × Result (Unit {0})) (s : ModRuleStore)
        → put_result lib sort tools x ≡ done s
        → x.0 ≡ s
    put_result-eq-done (s', ok u) s h = done-injective h
    put_result-eq-done (s', err e) s h = cc

    validated_put-NoRuleAdmits :
        (s : ModRuleStore) (r : ModRule) (errors : List FieldError) (s' : ModRuleStore)
        → any (λ o. dry_run_operation == o) r.spec.admission_operations ≡ false
        → NoRuleAdmits dry_run_operation s
        → validated_put lib sort tools s r errors ≡ done s'
        → NoRuleAdmits dry_run_operation s'
    unfolding validated_put
    validated_put-NoRuleAdmits s r [] s' h v e =
        subst (NoRuleAdmits dry_run_operation) (put_result-eq-done (put lib sort s r) s' e)
          (put-NoRuleAdmits dry_run_operation s r h v)
    validated_put-NoRuleAdmits s r (x ∷ xs) s' h v e = absurd (cc)

    load_rules-NoRuleAdmits :
        (rules : List (Option ModRule)) (s s' : ModRuleStore)
        → All NamesOperations rules
        → NoRuleAdmits dry_run_operation s
        → load_rules lib sort tools s rules ≡ done s'
        → NoRuleAdmits dry_run_operation s'
    unfolding load_rules default
    load_rules-NoRuleAdmits [] s s' h v e =
        subst (NoRuleAdmits dry_run_operation) (done-injective e) v
    load_rules-NoRuleAdmits (none ∷ rest) s s' h v e = absurd (cc)
    load_rules-NoRuleAdmits (some r ∷ rest) s s' h v e =
        let (s1, e1, e2) = >>=-eq-done _ _ e in
        load_rules-NoRuleAdmits rest s1 s' h.1
          (validated_put-NoRuleAdmits s (prepared r) _ s1
            (any-or_default_operations r.spec.admission_operations h.0) v e1)
          e2

    new_mod_rule_store-NoRuleAdmits :
        (cluster : String) → NoRuleAdmits dry_run_operation (new_mod_rule_store cluster)
    unfolding items_in Dict.get
    new_mod_rule_store-NoRuleAdmits cluster n = tt

    -- With a sort that leaves the same elements: a dry run whose rules load into a store, none of
    -- them with an empty operation in its list, rejects nothing and patches nothing. On a manifest
    -- that can be marshalled and read back, without a last applied configuration, and if the diff
    -- of a document with itself is empty, the answer is empty, whatever the rules say.
    pub dry_run_handler-tries_nothing :
        (cluster : String) (request : DryRunRequest) (s : ModRuleStore) (original : Bytes)
        (v : Value)
        → All NamesOperations request.mod_rules
        → load_rules lib sort tools (new_mod_rule_store cluster) request.mod_rules ≡ done s
        → lib.marshal request.resource_manifest ≡ ok original
        → lib.unmarshal original ≡ ok v
        → extract_last_applied_configuration v ≡ none
        → lib.create_patch original original ≡ ok []
        → dry_run_handler lib sort tools cluster request
          ≡ some (done (record { patch = []; diff = ""; rejections = [] }))
    unfolding dry_run_handler diff_text
    dry_run_handler-tries_nothing cluster request s original v named loaded encoded decoded plain
          same =
        let nobody =
          load_rules-NoRuleAdmits request.mod_rules (new_mod_rule_store cluster) s named
            (new_mod_rule_store-NoRuleAdmits cluster) loaded in
        rw (
          loaded,
          encoded,
          calculate_store_patch-idle lib s dry_run_operation dry_run_namespace nobody original v
              decoded plain,
          same,
          determine_rejections-idle lib s dry_run_operation dry_run_namespace nobody v,
        )
