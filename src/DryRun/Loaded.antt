-- ===== src/DryRun/Loaded.antt =====
-- The store of a dry run (app/webapp_handlers.go, the loop over the rules of the payload).
use kubemod.Prelude.{
  String, ◌==◌, ◌≡◌, refl, subst, Option, none, some, List, [], ◌∷◌, if◌then◌else◌, Result, ok, err,
  done, >>=-eq-done, done-injective, Bool-cases, Result-cases, inl, inr, arith, Option-cases,
}
use kubemod.Prelude.Lists.{All}
use kubemod.Library.{Library}
use kubemod.Api.{ModRule}
use kubemod.Api.Validation.{default, validate_mod_rule, FieldError}
use kubemod.Item.{ModRuleStoreItem, new_mod_rule_store_item}
use kubemod.Prelude.Dict
use kubemod.Store.{ModRuleStore, Sort, put, store_item}
use kubemod.Store.Contents.{Rearranges, IsValid, stored}
use kubemod.Store.Put.{stored-put, stored-put_error, put-IsValid}
use kubemod.DryRun.{Tools, prepared, load_rules, validated_put, put_result, dry_run_namespace}
use kubemod.DryRun.Spec.{put_result-eq-done}

-- A rule of the payload that validation accepts, after its preparation, and that compiles.
abbrev pub IsAccepted : Library → Option ModRule → Type 0
IsAccepted lib none = ⊥
IsAccepted lib (some r) =
    (validate_mod_rule lib (prepared r) ≡ [])
    × ((si : ModRuleStoreItem) × (new_mod_rule_store_item lib (prepared r) ≡ ok si))

abbrev item_of : Result ModRuleStoreItem → Option ModRuleStoreItem
item_of (ok si) = some si
item_of (err e) = none

-- The item of the last of the rules with a name, and `before` if none has it.
abbrev pub last_named :
    Library → String → List (Option ModRule) → Option ModRuleStoreItem → Option ModRuleStoreItem
last_named lib name [] before = before
last_named lib name (none ∷ rest) before = last_named lib name rest before
last_named lib name (some r ∷ rest) before =
    last_named lib name rest
      (if r.name == name then item_of (new_mod_rule_store_item lib (prepared r)) else before)

-- The store holds the last rule of each name, in the namespace of the dry run.
abbrev pub Holds : Library → List (Option ModRule) → ModRuleStore → ModRuleStore → Type 0
Holds lib rules s s' =
    (namespace name : String)
    → stored s' namespace name ≡ (
        if dry_run_namespace == namespace
        then last_named lib name rules (stored s namespace name)
        else stored s namespace name)

module _ (lib : Library) (sort : Sort) (rearranges : Rearranges sort) (tools : Tools) where
  put-eq-done :
      (s : ModRuleStore) (r : ModRule) (s' : ModRuleStore)
      → put_result lib sort tools (put lib sort s r) ≡ done s'
      → (si : ModRuleStoreItem) × (new_mod_rule_store_item lib r ≡ ok si)
  put-eq-done s r s' h = elim (Result-cases (new_mod_rule_store_item lib r)) [
    | inl (si, made) ↦ (si, made)
    | inr (e, failed) ↦
        let refused = (stored-put_error lib sort rearranges s r e "" "" failed).0 in
        absurd (refused_put (put lib sort s r) refused h)
  ]
    where
      refused_put :
          (x : ModRuleStore × Result (Unit {0})) {e : String}
          → x.1 ≡ err e
          → put_result lib sort tools x ≡ done s'
          → ⊥
      refused_put (s1, ok u) p q = cc
      refused_put (s1, err e) p q = cc

  validated_put-eq-done :
      (s : ModRuleStore) (r : ModRule) (errors : List FieldError) (s' : ModRuleStore)
      → validated_put lib sort tools s r errors ≡ done s'
      → (errors ≡ [])
        × ((si : ModRuleStoreItem) × (new_mod_rule_store_item lib r ≡ ok si))
        × ((put lib sort s r).0 ≡ s')
  unfolding validated_put
  validated_put-eq-done s r [] s' h =
      (refl, put-eq-done s r s' h, put_result-eq-done lib sort rearranges tools _ s' h)
  validated_put-eq-done s r (e ∷ es) s' h = absurd (cc)

  -- One rule more.
  put-Holds :
      (s s' : ModRuleStore) (r : ModRule) (rest : List (Option ModRule)) (si : ModRuleStoreItem)
      → IsValid lib s
      → new_mod_rule_store_item lib (prepared r) ≡ ok si
      → Holds lib rest (put lib sort s (prepared r)).0 s'
      → Holds lib (some r ∷ rest) s s'
  unfolding default
  put-Holds s s' r rest si valid made holds namespace name =
      let now = stored-put lib sort rearranges s (prepared r) si namespace name valid made in
      elim (Bool-cases (dry_run_namespace == namespace)) [
        | inr other ↦ rw (holds namespace name, now, other) refl
        | inl same ↦ rw (holds namespace name, now, same, made) refl
      ]

  pub load_rules-Holds :
      (rules : List (Option ModRule)) (s s' : ModRuleStore)
      → IsValid lib s
      → load_rules lib sort tools s rules ≡ done s'
      → IsValid lib s' × All (IsAccepted lib) rules × Holds lib rules s s'
  unfolding load_rules
  load_rules-Holds [] s s' valid h =
      let same = done-injective h in
      (
        subst (IsValid lib) same valid,
        tt,
        λ namespace name.
            subst
              (λ s1. stored s1 namespace name ≡ (
                if dry_run_namespace == namespace
                then stored s namespace name
                else stored s namespace name))
              same (ground arith),
      )
  load_rules-Holds (none ∷ rest) s s' valid h = absurd (cc)
  load_rules-Holds (some r ∷ rest) s s' valid h =
      let (s1, first, later) = >>=-eq-done _ _ h in
      let (none_wrong, (si, made), same) = validated_put-eq-done s (prepared r) _ s1 first in
      let (valid', accepted, holds) =
        load_rules-Holds rest (put lib sort s (prepared r)).0 s'
          (put-IsValid lib sort rearranges s (prepared r) valid) (rw same later) in
      (valid', ((none_wrong, (si, made)), accepted), put-Holds s s' r rest si valid made holds)

  put_result-accepted :
      (s : ModRuleStore) (r : ModRule) (si : ModRuleStoreItem)
      → new_mod_rule_store_item lib r ≡ ok si
      → put_result lib sort tools (put lib sort s r) ≡ done (put lib sort s r).0
  unfolding put store_item
  put_result-accepted s r si made = elim (Option-cases (Dict.get r.namespace s.mod_rule_list_map)) [
    | inl e ↦ rw (e, made) refl
    | inr (items, e) ↦ rw (e, made) refl
  ]

  -- The loop ends with a store if every rule is accepted.
  pub load_rules-accepted :
      (rules : List (Option ModRule)) (s : ModRuleStore)
      → All (IsAccepted lib) rules
      → (s' : ModRuleStore) × (load_rules lib sort tools s rules ≡ done s')
  unfolding load_rules validated_put
  load_rules-accepted [] s accepted = (s, refl)
  load_rules-accepted (none ∷ rest) s accepted = absurd accepted.0
  load_rules-accepted (some r ∷ rest) s ((valid, (si, made)), accepted) =
      let (s', loads) = load_rules-accepted rest (put lib sort s (prepared r)).0 accepted in
      (s', rw (valid, put_result-accepted s (prepared r) si made) loads)
