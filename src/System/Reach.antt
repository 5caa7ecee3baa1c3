-- ===== src/System/Reach.antt =====
-- Which rules reach an object and reject it, and that the lookup of the store
-- (core/modrulestore.go) meets a rule of that kind that the store holds.
use kubemod.Prelude.{
  if◌then◌else◌, String, ◌==◌, ◌≡◌, refl, sym, eq_of_some, subst, ◌∙◌, Bool, true, false, ◌&&◌, not,
  Option, some, List, [], ◌∷◌, is_some, ◌||◌, ok, ok-injective, arith, inl, inr, Bool-cases, is_ok,
}
use kubemod.Prelude.Int16.{increment, min_int16, max_int16, ◌≤ℤ◌, ◌<ℤ◌, leb_ℤ, IsInt16}
use kubemod.Prelude.Keyed.{find}
use kubemod.Prelude.Member.{In, In-select, In-append_left, In-append_right}
use kubemod.Prelude.Lists.{any, select}
use kubemod.Api.{PatchOperation, ModRule, mod_rule_type_reject}
use kubemod.Api.Validation.{validate_mod_rule}
use kubemod.Api.Validation as Validation
use kubemod.Api.Validation.Spec.{validate_mod_rule-accepted}
use kubemod.Item.{
  new_compiled_json_patch, ModRuleStoreItem, new_mod_rule_store_item, compile_target_regex,
}
use kubemod.Item.Accepted.{new_mod_rule_store_item-compiled}
use kubemod.Json.{Value}
use kubemod.Library.{Library, Regexp}
use kubemod.Item.Factory.{new_mod_rule_store_item-IsCompiledFrom}
use kubemod.Item.Match.Verdict.{rule_matches}
use kubemod.Store.{ModRuleStore, item_name, item_tier, items_in}
use kubemod.Store.Contents.{stored}
use kubemod.Store.Matching.{admits, targets, regex_matches}
use kubemod.Store.Matching.Lowest.{applicable, applies_cluster_wide, applies_in_namespace}
use kubemod.Store.Matching.Spec.{wanted}
use kubemod.Store.Calculate.Split.{wanted_below}
use kubemod.Store.Calculate.Rejections.{rejecting_rules}

In-find :
    {A : Type 0}
    → (key : A → String) (k : String) (xs : List A) (x : A) → find key k xs ≡ some x
    → In x xs
unfolding find
In-find key k [] x h = absurd (cc)
In-find key k (y ∷ ys) x h = elim (Bool-cases (key y == k)) [
  | inl e ↦ inl (sym (eq_of_some (rw e at h)))
  | inr e ↦ inr (In-find key k ys x (rw e at h))
]

-- A rule of `namespace` reaches objects whose namespace is `asked`: it is their own namespace, or
-- the one of the cluster-wide rules, and then its expression decides.
abbrev pub reaches : Option Regexp → String → Bool
reaches rex asked = (asked == "" && not (is_some rex)) || regex_matches rex asked

pub data IsInReach (lib : Library) (cluster namespace asked : String) (r : ModRule) : Type 0 where
  own : namespace ≡ asked → (asked == "") ≡ false → IsInReach lib cluster namespace asked r
  cluster_wide :
      (rex : Option Regexp)
      → namespace ≡ cluster
      → compile_target_regex lib r.spec.target_namespace_regex ≡ ok rex
      → reaches rex asked ≡ true
      → IsInReach lib cluster namespace asked r

-- What makes a rule one that rejects an object in an operation.
pub record IsRejecting (lib : Library) (r : ModRule) (operation : String) (v : Value) : Type 0 where
  pub reject : r.spec.type ≡ mod_rule_type_reject
  pub above : increment min_int16 ≤ℤ r.spec.execution_tier
  pub below : r.spec.execution_tier <ℤ max_int16
  pub admitted : any (λ o. operation == o) r.spec.admission_operations ≡ true
  pub matches : rule_matches lib r v ≡ true

module _ (lib : Library) (s : ModRuleStore) (r : ModRule) (si : ModRuleStoreItem)
    (made : new_mod_rule_store_item lib r ≡ ok si) (operation asked : String) (v : Value)
    (rejecting : IsRejecting lib r operation v) where
  is_mod_rule : si.mod_rule ≡ r
  is_mod_rule = (new_mod_rule_store_item-IsCompiledFrom lib r si made).mod_rule

  is_wanted : wanted_below (wanted lib mod_rule_type_reject v) si ≡ true
  is_wanted =
      rw (is_mod_rule, rejecting.reject, rejecting.matches) (ground (arith, rejecting.below))

  in_tiers : leb_ℤ (increment min_int16) (item_tier si) ≡ true
  in_tiers = rw is_mod_rule (ground (arith, rejecting.above))

  is_admitted : admits operation si ≡ true
  is_admitted = rw is_mod_rule rejecting.admitted

  -- A rule that the store holds, that reaches the object and rejects it, is one of those that the
  -- loop over the tiers is to run.
  pub stored-rejecting_rules :
      (namespace name : String)
      → stored s namespace name ≡ some si
      → IsInReach lib s.cluster_mod_rules_namespace namespace asked r
      → In si (rejecting_rules lib s operation asked v)
  unfolding stored applicable
  stored-rejecting_rules namespace name held (own same some_namespace) =
      let there : In si (items_in s asked) =
        In-find item_name name (items_in s asked) si
          (subst (λ n. find item_name name (items_in s n) ≡ some si) same held) in
      let applies : In si (applicable operation asked (increment min_int16) s) = rw some_namespace (
        In-append_right si
          (select (applies_cluster_wide operation asked (increment min_int16))
            (items_in s s.cluster_mod_rules_namespace))
          (select (applies_in_namespace operation asked (increment min_int16)) (items_in s asked))
          (In-select (applies_in_namespace operation asked (increment min_int16)) si
            (items_in s asked) there (rw (in_tiers, is_admitted) refl))) in
      In-select (wanted_below (wanted lib mod_rule_type_reject v)) si
        (applicable operation asked (increment min_int16) s) applies is_wanted
  stored-rejecting_rules namespace name held (cluster_wide rex same compiled reached) =
      let is_target : targets asked si ≡ true =
        rw
          (ok-injective
            (sym (new_mod_rule_store_item-IsCompiledFrom lib r si made).target ∙ compiled))
          reached in
      let there : In si (items_in s s.cluster_mod_rules_namespace) =
        In-find item_name name (items_in s s.cluster_mod_rules_namespace) si
          (subst (λ n. find item_name name (items_in s n) ≡ some si) same held) in
      let applies : In si (applicable operation asked (increment min_int16) s) =
        In-append_left si
          (select (applies_cluster_wide operation asked (increment min_int16))
            (items_in s s.cluster_mod_rules_namespace))
          (if asked == ""
            then []
            else select (applies_in_namespace operation asked (increment min_int16))
                (items_in s asked))
          (In-select (applies_cluster_wide operation asked (increment min_int16)) si
            (items_in s s.cluster_mod_rules_namespace) there
            (rw (in_tiers, is_target, is_admitted) refl)) in
      In-select (wanted_below (wanted lib mod_rule_type_reject v)) si
        (applicable operation asked (increment min_int16) s) applies is_wanted

no_patch-is_ok :
    (lib : Library) (ops : List PatchOperation)
    → Validation.is_empty ops ≡ true
    → is_ok (new_compiled_json_patch lib ops) ≡ true
unfolding new_compiled_json_patch
no_patch-is_ok lib [] h = refl
no_patch-is_ok lib (po ∷ ops) h = absurd (cc)

module _ (lib : Library) (r : ModRule) (accepted : validate_mod_rule lib r ≡ [])
    (reject : r.spec.type ≡ mod_rule_type_reject) (range : IsInt16 r.spec.execution_tier) where
  -- It compiles in every namespace, if its expression for the target namespaces does: it has no patch
  -- operations.
  pub reject-compiled :
      (namespace : String)
      → is_ok (compile_target_regex lib r.spec.target_namespace_regex) ≡ true
      → (si : ModRuleStoreItem) × (new_mod_rule_store_item lib (record r { namespace = namespace })
          ≡ ok si)
  unfolding validate_mod_rule
  reject-compiled namespace target =
      let (_, patch, _, _, _) = validate_mod_rule-accepted lib r accepted range in
      new_mod_rule_store_item-compiled lib (record r { namespace = namespace }) accepted target
        (no_patch-is_ok lib r.spec.patch (patch ∙ rw reject refl))

  pub accepted-IsRejecting :
      (namespace operation : String) (v : Value)
      → any (λ o. operation == o) r.spec.admission_operations ≡ true
      → rule_matches lib r v ≡ true
      → IsRejecting lib (record r { namespace = namespace }) operation v
  accepted-IsRejecting namespace operation v admitted matches =
      let (_, _, _, above, below) = validate_mod_rule-accepted lib r accepted range in
      record {
        reject = reject;
        above = above;
        below = below;
        admitted = admitted;
        matches = matches;
      }
