-- ===== src/Store/Matching/Spec.antt =====
-- What `getMatchingModRuleStoreItems` (core/modrulestore.go) returns on a well-formed store.
use kubemod.Prelude.{
  String, ◌==◌, ◌≡◌, refl, Bool, true, false, ◌&&◌, List, [], ◌∷◌, if◌then◌else◌, done, arith,
  Bool-cases, inl, inr, ok,
}
use kubemod.Prelude.Int16.{ℤ, eqb_ℤ, max_int16}
use kubemod.Prelude.Lists.{All-++, All, select}
use kubemod.Json.{Value}
use kubemod.Library.{Library}
use kubemod.Item.{ModRuleStoreItem, new_mod_rule_store_item}
use kubemod.Item.Match.Verdict.{rule_matches}
use kubemod.Item.Match.Spec.{is_match-rule_matches}
use kubemod.Store.{ModRuleStore, item_tier, items_in}
use kubemod.Store.Contents.{IsValid, Made}
use kubemod.Store.Matching.{matching, get_matching_mod_rule_store_items}
use kubemod.Store.Matching.Lowest.{
  applicable, applies_cluster_wide, applies_in_namespace, in_tier, lowest, potential_rules_lem,
}

abbrev IsMade : Library → ModRuleStoreItem → Type 0
IsMade lib si = new_mod_rule_store_item lib si.mod_rule ≡ ok si

All-select :
    (P : ModRuleStoreItem → Type 0) (p : ModRuleStoreItem → Bool) (xs : List ModRuleStoreItem)
    → All P xs
    → All P (select p xs)
All-select P p [] h = tt
All-select P p (x ∷ xs) h = elim (Bool-cases (p x)) [
  | inl e ↦ rw e (h.0, All-select P p xs h.1)
  | inr e ↦ rw e (All-select P p xs h.1)
]

All-Made :
    (lib : Library) (namespace : String) (xs : List ModRuleStoreItem)
    → All (Made lib namespace) xs
    → All (IsMade lib) xs
All-Made lib n [] h = tt
All-Made lib n (x ∷ xs) h = (h.0.0, All-Made lib n xs h.1)

module _ (lib : Library) where
  -- The rules of the type whose match items all hold on the object.
  abbrev pub wanted : String → Value → ModRuleStoreItem → Bool
  wanted type v si = si.mod_rule.spec.type == type && rule_matches lib si.mod_rule v

  matching_lem :
      (type : String) (v : Value) (items : List ModRuleStoreItem)
      → All (IsMade lib) items
      → matching lib type v items ≡ done (select (wanted type v) items)
  unfolding matching
  matching_lem type v [] h = refl
  matching_lem type v (si ∷ items) h =
      rw (is_match-rule_matches lib si.mod_rule si v h.0, matching_lem type v items h.1)
        (ground arith)

  module _ (operation namespace : String) (min_tier : ℤ) (s : ModRuleStore)
      (valid : IsValid lib s) where
    applicable-IsMade : All (IsMade lib) (applicable operation namespace min_tier s)
    unfolding applicable
    applicable-IsMade =
        All-++ (IsMade lib) _ _
          (All-select (IsMade lib) (applies_cluster_wide operation namespace min_tier) _ (
            All-Made lib s.cluster_mod_rules_namespace _
              (valid s.cluster_mod_rules_namespace).made))
          (own (namespace == ""))
      where
        own :
            (b : Bool)
            → All (IsMade lib) (
                if b
                then []
                else select
                    (applies_in_namespace operation namespace min_tier)
                    (items_in s namespace))
        own true = tt
        own false =
            All-select (IsMade lib) (applies_in_namespace operation namespace min_tier)
              (items_in s namespace)
              (All-Made lib namespace (items_in s namespace) (valid namespace).made)

    in_tier-IsMade : All (IsMade lib) (
        in_tier
          (lowest max_int16 (applicable operation namespace min_tier s))
          (applicable operation namespace min_tier s))
    in_tier-IsMade =
        All-select (IsMade lib)
          (λ si.
            eqb_ℤ (item_tier si) (lowest max_int16 (applicable operation namespace min_tier s)))
          (applicable operation namespace min_tier s) applicable-IsMade

    -- On a well-formed store the lookup never panics. It returns the lowest tier of the applicable
    -- rules from the tier that is asked for up, or the greatest `int16` if there is none below it,
    -- and the applicable rules of that tier which have the type and match the object, in the order
    -- of the store.
    pub get_matching_lem :
        (type : String) (v : Value)
        → get_matching_mod_rule_store_items lib s operation namespace min_tier type v
          ≡ done (
            select (wanted type v) (
                in_tier
                  (lowest max_int16 (applicable operation namespace min_tier s))
                  (applicable operation namespace min_tier s)),
            lowest max_int16 (applicable operation namespace min_tier s),
          )
    unfolding get_matching_mod_rule_store_items
    get_matching_lem type v =
        let (tier, rules) = potential_rules_lem operation namespace min_tier s in
        rw (tier, rules, matching_lem type v _ in_tier-IsMade)
