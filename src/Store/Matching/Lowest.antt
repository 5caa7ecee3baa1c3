-- ===== src/Store/Matching/Lowest.antt =====
-- The scans of `getMatchingModRuleStoreItems` (core/modrulestore.go): of the rules that apply to the
-- request, those of the lowest tier.
use mathlib.Core.List.{append_assoc, append-nil}
use kubemod.Prelude.{
  String, ◌==◌, ◌≡◌, refl, sym, ap, subst, ◌∙◌, Bool, true, false, ◌&&◌, List, [], ◌∷◌, ◌++◌,
  if◌then◌else◌, arith, Bool-cases, inl, inr,
}
use kubemod.Prelude.Int16.{ℤ, ◌≤ℤ◌, ltb_ℤ, leb_ℤ, eqb_ℤ, max_int16}
use kubemod.Prelude.Lists.{select}
use kubemod.Item.{ModRuleStoreItem}
use kubemod.Store.{ModRuleStore, item_tier, items_in}
use kubemod.Store.Matching.{
  Scan, admits, targets, keep_lowest, process_potential_rule, scan_cluster, scan_namespace,
  potential_rules,
}

module _ (operation namespace : String) (min_tier : ℤ) where
  -- The tests that a cluster-wide rule and a rule of the resource's namespace pass.
  abbrev pub applies_cluster_wide : ModRuleStoreItem → Bool
  applies_cluster_wide si =
      leb_ℤ min_tier (item_tier si) && (targets namespace si && admits operation si)

  abbrev pub applies_in_namespace : ModRuleStoreItem → Bool
  applies_in_namespace si = leb_ℤ min_tier (item_tier si) && admits operation si

  -- The rules of a store that apply to a request, in the order in which they are met.
  unfoldable pub applicable : ModRuleStore → List ModRuleStoreItem
  applicable s =
      select applies_cluster_wide (items_in s s.cluster_mod_rules_namespace)
      ++ (if namespace == "" then [] else select applies_in_namespace (items_in s namespace))

-- The lowest tier of a list that is below `c`, or `c`.
unfoldable pub lowest : ℤ → List ModRuleStoreItem → ℤ
lowest c [] = c
lowest c (si ∷ items) = lowest (if ltb_ℤ (item_tier si) c then item_tier si else c) items

if_same : {A : Type 0} (b : Bool) (a : A) → (if b then a else a) ≡ a
if_same true a = refl
if_same false a = refl

abbrev pub in_tier : ℤ → List ModRuleStoreItem → List ModRuleStoreItem
in_tier t = select (λ si. eqb_ℤ (item_tier si) t)

fold_lowest : Scan → List ModRuleStoreItem → Scan
fold_lowest c [] = c
fold_lowest c (si ∷ items) = fold_lowest (keep_lowest c si) items

fold_lowest-append :
    (c : Scan) (xs ys : List ModRuleStoreItem)
    → fold_lowest c (xs ++ ys) ≡ fold_lowest (fold_lowest c xs) ys
unfolding fold_lowest
fold_lowest-append c [] ys = refl
fold_lowest-append c (x ∷ xs) ys = fold_lowest-append (keep_lowest c x) xs ys

scan_cluster_lem :
    (operation namespace : String) (min_tier : ℤ) (c : Scan) (items : List ModRuleStoreItem)
    → scan_cluster operation namespace min_tier c items
      ≡ fold_lowest c (select (applies_cluster_wide operation namespace min_tier) items)
unfolding scan_cluster fold_lowest process_potential_rule
scan_cluster_lem o n t c [] = refl
scan_cluster_lem o n t c (si ∷ items) =
    ground (arith, scan_cluster_lem o n t c items, scan_cluster_lem o n t (keep_lowest c si) items)

scan_namespace_lem :
    (operation namespace : String) (min_tier : ℤ) (c : Scan) (items : List ModRuleStoreItem)
    → scan_namespace operation namespace min_tier c items
      ≡ fold_lowest c (select (applies_in_namespace operation namespace min_tier) items)
unfolding scan_namespace fold_lowest process_potential_rule
scan_namespace_lem o n t c [] = refl
scan_namespace_lem o n t c (si ∷ items) =
    ground
      (arith, scan_namespace_lem o n t c items, scan_namespace_lem o n t (keep_lowest c si) items)

pub lowest-le : (c : ℤ) (xs : List ModRuleStoreItem) → lowest c xs ≤ℤ c
unfolding lowest
lowest-le c [] = omega arith
lowest-le c (x ∷ xs) = elim (Bool-cases (ltb_ℤ (item_tier x) c)) [
  | inl e ↦ rw e (ground (arith, lowest-le (item_tier x) xs))
  | inr e ↦ rw e (lowest-le c xs)
]

-- The three cases of one rule, with the tier of the scan as `lowest` computes it.
module _ (c : Scan) (x : ModRuleStoreItem) (xs : List ModRuleStoreItem) where
  current-keep_lowest :
      (keep_lowest c x).current ≡ (if ltb_ℤ (item_tier x) c.current then item_tier x else c.current)
  unfolding keep_lowest
  current-keep_lowest = ground arith

  potential-keep_lowest : (keep_lowest c x).potential ≡ (
      if ltb_ℤ (item_tier x) c.current
      then x ∷ []
      else if eqb_ℤ (item_tier x) c.current
      then c.potential ++ x ∷ []
      else c.potential)
  unfolding keep_lowest
  potential-keep_lowest = ground arith

current-fold_lowest :
    (c : Scan) (xs : List ModRuleStoreItem) → (fold_lowest c xs).current ≡ lowest c.current xs
unfolding fold_lowest lowest
current-fold_lowest c [] = refl
current-fold_lowest c (x ∷ xs) =
    current-fold_lowest (keep_lowest c x) xs ∙ ap (λ t. lowest t xs) (current-keep_lowest c x xs)

-- What the scan holds in the end, for the tier `t` that it ends with.
abbrev kept : Scan → ℤ → List ModRuleStoreItem
kept c t = if eqb_ℤ t c.current then c.potential else []

kept-keep_lowest :
    (c : Scan) (x : ModRuleStoreItem) (t : ℤ) (rest : List ModRuleStoreItem)
    → t ≤ℤ (keep_lowest c x).current
    → kept (keep_lowest c x) t ++ rest
      ≡ kept c t ++ (if eqb_ℤ (item_tier x) t then x ∷ rest else rest)
kept-keep_lowest c x t rest h =
    rw (current-keep_lowest c x [], potential-keep_lowest c x [])
      (ground (arith, h, current-keep_lowest c x [], append_assoc c.potential (x ∷ []) rest))

lowest-cons :
    (c : Scan) (x : ModRuleStoreItem) (xs : List ModRuleStoreItem)
    → lowest c.current (x ∷ xs) ≡ lowest (keep_lowest c x).current xs
unfolding lowest
lowest-cons c x xs = ap (λ t. lowest t xs) (sym (current-keep_lowest c x xs))

potential-end :
    (c : Scan) → c.potential ≡ kept c (lowest c.current []) ++ in_tier (lowest c.current []) []
unfolding lowest
potential-end c = ground (arith, append-nil c.potential)

potential-fold_lowest :
    (c : Scan) (xs : List ModRuleStoreItem)
    → (fold_lowest c xs).potential
      ≡ kept c (lowest c.current xs) ++ in_tier (lowest c.current xs) xs
unfolding fold_lowest
potential-fold_lowest c [] = potential-end c
potential-fold_lowest c (x ∷ xs) =
    subst (λ t. (fold_lowest (keep_lowest c x) xs).potential ≡ kept c t ++ in_tier t (x ∷ xs))
      (sym (lowest-cons c x xs))
      (potential-fold_lowest (keep_lowest c x) xs
        ∙ kept-keep_lowest c x (lowest (keep_lowest c x).current xs)
            (in_tier (lowest (keep_lowest c x).current xs) xs)
            (lowest-le (keep_lowest c x).current xs))

module _ (operation namespace : String) (min_tier : ℤ) (s : ModRuleStore) where
  potential_rules-fold_lowest :
      potential_rules operation namespace min_tier s
      ≡ fold_lowest
          (record { current = max_int16; potential = [] })
          (applicable operation namespace min_tier s)
  unfolding potential_rules applicable
  potential_rules-fold_lowest = elim (Bool-cases (namespace == "")) [
    | inl e ↦ rw (e, append-nil, scan_cluster_lem)
    | inr e ↦ rw (e, scan_cluster_lem, scan_namespace_lem, fold_lowest-append)
  ]

-- The scan ends with the lowest tier of the applicable rules that is not above the greatest
-- number, and with the applicable rules of that tier, in order.
pub potential_rules_lem :
    (operation namespace : String) (min_tier : ℤ) (s : ModRuleStore)
    → ((potential_rules operation namespace min_tier s).current
        ≡ lowest max_int16 (applicable operation namespace min_tier s))
      × ((potential_rules operation namespace min_tier s).potential
          ≡ in_tier
              (lowest max_int16 (applicable operation namespace min_tier s))
              (applicable operation namespace min_tier s))
potential_rules_lem o n t s = rw potential_rules-fold_lowest (
  current-fold_lowest _ (applicable o n t s),
  (potential-fold_lowest _ (applicable o n t s)
      ∙ ap (λ l. l ++ in_tier (lowest max_int16 (applicable o n t s)) (applicable o n t s))
          (if_same (eqb_ℤ (lowest max_int16 (applicable o n t s)) max_int16) [])),
)
