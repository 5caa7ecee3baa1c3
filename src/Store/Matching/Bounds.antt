-- ===== src/Store/Matching/Bounds.antt =====
-- Bounds on the tiers that `getMatchingModRuleStoreItems` (core/modrulestore.go) looks at.
use kubemod.Prelude.{
  String, ◌==◌, ◌≡◌, sym, ap, subst, ◌∙◌, Bool, true, false, List, [], ◌∷◌, if◌then◌else◌, Exec,
  done, fail, panic, ◌>>=◌, done-injective, arith, Bool-cases, inl, inr,
}
use kubemod.Prelude.Int16.{ℤ, ◌≤ℤ◌, ltb_ℤ, max_int16}
use kubemod.Prelude.Lists.{All-++, All, select}
use kubemod.Json.{Value}
use kubemod.Library.{Library}
use kubemod.Item.{ModRuleStoreItem}
use kubemod.Store.{ModRuleStore, item_tier, items_in}
use kubemod.Store.Matching.{potential_rules, matching, get_matching_mod_rule_store_items}
use kubemod.Store.Matching.Lowest.{
  applicable, applies_cluster_wide, applies_in_namespace, lowest, lowest-le, potential_rules_lem,
}

-- Every rule that applies has at least the tier that is asked for, and so has the lowest one.
pub lowest-ge :
    (t c : ℤ) (xs : List ModRuleStoreItem)
    → t ≤ℤ c
    → All (λ si. t ≤ℤ item_tier si) xs
    → t ≤ℤ lowest c xs
unfolding lowest
lowest-ge t c [] h a = h
lowest-ge t c (x ∷ xs) h a = elim (Bool-cases (ltb_ℤ (item_tier x) c)) [
  | inl e ↦ rw e (lowest-ge t (item_tier x) xs a.0 a.1)
  | inr e ↦ rw e (lowest-ge t c xs h a.1)
]

lowest-le-head :
    (c : ℤ) (x : ModRuleStoreItem) (xs : List ModRuleStoreItem)
    → lowest (if ltb_ℤ (item_tier x) c then item_tier x else c) xs ≤ℤ item_tier x
lowest-le-head c x xs =
    ground (arith, lowest-le (if ltb_ℤ (item_tier x) c then item_tier x else c) xs)

-- The lowest tier is at most every tier.
pub lowest-le-All :
    (c : ℤ) (xs : List ModRuleStoreItem) → All (λ si. lowest c xs ≤ℤ item_tier si) xs
unfolding lowest
lowest-le-All c [] = tt
lowest-le-All c (x ∷ xs) =
    (lowest-le-head c x xs, lowest-le-All (if ltb_ℤ (item_tier x) c then item_tier x else c) xs)

All-passed :
    (P : ModRuleStoreItem → Type 0) (p : ModRuleStoreItem → Bool)
    (sound : (si : ModRuleStoreItem) → p si ≡ true → P si) (xs : List ModRuleStoreItem)
    → All P (select p xs)
All-passed P p sound [] = tt
All-passed P p sound (x ∷ xs) = elim (Bool-cases (p x)) [
  | inl e ↦ rw e (sound x e, All-passed P p sound xs)
  | inr e ↦ rw e (All-passed P p sound xs)
]

module _ (operation namespace : String) (min_tier : ℤ) (s : ModRuleStore) where
  pub applicable-ge :
      All (λ si. min_tier ≤ℤ item_tier si) (applicable operation namespace min_tier s)
  unfolding applicable
  applicable-ge =
      All-++ (λ si. min_tier ≤ℤ item_tier si) _ _
        (All-passed (λ si. min_tier ≤ℤ item_tier si)
          (applies_cluster_wide operation namespace min_tier) (λ si e. ground arith)
          (items_in s s.cluster_mod_rules_namespace))
        (own (namespace == ""))
    where
      own :
          (b : Bool)
          → All
              (λ si. min_tier ≤ℤ item_tier si)
              (if b
                then []
                else select
                    (applies_in_namespace operation namespace min_tier)
                    (items_in s namespace))
      own true = tt
      own false =
          All-passed (λ si. min_tier ≤ℤ item_tier si)
            (applies_in_namespace operation namespace min_tier) (λ si e. ground arith)
            (items_in s namespace)

  tier_of :
      (m : Exec (List ModRuleStoreItem)) {c t : ℤ} {rules : List ModRuleStoreItem}
      → ◌>>=◌ {B = List ModRuleStoreItem × ℤ} m (λ items. done (items, c)) ≡ done (rules, t)
      → c ≡ t
  tier_of (done items) e = ap (λ (p : List ModRuleStoreItem × ℤ). p.1) (done-injective e)
  tier_of (fail x) e = absurd (cc)
  tier_of panic e = absurd (cc)

  -- On any store, if the tier asked for is at most the greatest `int16` and the lookup does not
  -- panic, the tier that it returns lies between the one asked for and the greatest `int16`.
  pub get_matching_tier :
      (lib : Library) (type : String) (v : Value) (rules : List ModRuleStoreItem) (t : ℤ)
      → min_tier ≤ℤ max_int16
      → get_matching_mod_rule_store_items lib s operation namespace min_tier type v
        ≡ done (rules, t)
      → (min_tier ≤ℤ t) × (t ≤ℤ max_int16)
  unfolding get_matching_mod_rule_store_items
  get_matching_tier lib type v rules t h e =
      subst (λ u. (min_tier ≤ℤ u) × (u ≤ℤ max_int16))
        (sym (potential_rules_lem operation namespace min_tier s).0
          ∙ tier_of (matching lib type v (potential_rules operation namespace min_tier s).potential)
              e)
        (lowest-ge min_tier max_int16 _ h applicable-ge, lowest-le max_int16 _)
