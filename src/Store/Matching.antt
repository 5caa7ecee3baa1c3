-- ===== src/Store/Matching.antt =====
-- `getMatchingModRuleStoreItems` (core/modrulestore.go): the rules of the lowest tier that apply.
pub mod Lowest
pub mod Spec
pub mod Bounds
use kubemod.Prelude.{
  String, ◌==◌, Bool, true, false, ◌&&◌, ◌||◌, not, Option, none, some, List, [], ◌∷◌, ◌++◌,
  if◌then◌else◌, is_some, Exec, done, panic, ◌>>=◌,
}
use kubemod.Prelude.Int16.{ℤ, ltb_ℤ, leb_ℤ, eqb_ℤ, max_int16}
use kubemod.Prelude.Lists.{any, select}
use kubemod.Json.{Value}
use kubemod.Library.{Library, Regexp}
use kubemod.Item.{ModRuleStoreItem}
use kubemod.Item.Match.{is_match}
use kubemod.Store.{ModRuleStore, item_tier, items_in}

-- The rule applies to the operation of the request.
abbrev pub admits : String → ModRuleStoreItem → Bool
admits operation si = any (λ o. operation == o) si.mod_rule.spec.admission_operations

abbrev pub regex_matches : Option Regexp → String → Bool
regex_matches none namespace = false
regex_matches (some rex) namespace = rex namespace

-- A cluster-wide rule targets objects with no namespace if it has no target expression, and those
-- whose namespace matches the expression otherwise.
abbrev pub targets : String → ModRuleStoreItem → Bool
targets namespace si =
    (namespace == "" && not (is_some si.compiled_target_namespace_regex))
    || regex_matches si.compiled_target_namespace_regex namespace

-- `currentExecutionTier` and `potentialRules`.
pub record Scan : Type 0 where
  pub current : ℤ
  pub potential : List ModRuleStoreItem

-- The tests of `processPotentialRule` after the one on the operation.
unfoldable pub keep_lowest : Scan → ModRuleStoreItem → Scan
keep_lowest c si =
    let c' : Scan =
      if ltb_ℤ (item_tier si) c.current
      then record { current = item_tier si; potential = [] }
      else c in
    if eqb_ℤ (item_tier si) c'.current
    then record c' { potential = c'.potential ++ si ∷ [] }
    else c'

unfoldable pub process_potential_rule : String → Scan → ModRuleStoreItem → Scan
unfolding keep_lowest
process_potential_rule operation c si = if admits operation si then keep_lowest c si else c

module _ (operation namespace : String) (min_tier : ℤ) where
  -- The loop over the cluster-wide rules.
  unfoldable pub scan_cluster : Scan → List ModRuleStoreItem → Scan
  unfolding process_potential_rule
  scan_cluster c [] = c
  scan_cluster c (si ∷ items) =
      scan_cluster
        (if leb_ℤ min_tier (item_tier si) && targets namespace si
          then process_potential_rule operation c si
          else c)
        items

  -- The loop over the rules of the resource's own namespace.
  unfoldable pub scan_namespace : Scan → List ModRuleStoreItem → Scan
  unfolding process_potential_rule
  scan_namespace c [] = c
  scan_namespace c (si ∷ items) =
      scan_namespace
        (if leb_ℤ min_tier (item_tier si) then process_potential_rule operation c si else c) items

  unfoldable pub potential_rules : ModRuleStore → Scan
  unfolding scan_cluster scan_namespace
  potential_rules s =
      let cluster =
        scan_cluster (record { current = max_int16; potential = [] })
          (items_in s s.cluster_mod_rules_namespace) in
      if namespace == "" then cluster else scan_namespace cluster (items_in s namespace)

-- The loop that keeps the rules of the type that match the object.
unfoldable pub matching :
    Library → String → Value → List ModRuleStoreItem → Exec (List ModRuleStoreItem)
matching lib type v [] = done []
matching lib type v (si ∷ items) =
    (if si.mod_rule.spec.type == type then is_match lib si v else done false) >>= λ b.
    matching lib type v items >>= λ rest. done (if b then si ∷ rest else rest)

unfoldable pub get_matching_mod_rule_store_items :
    Library → ModRuleStore → String → String → ℤ → String → Value → Exec (List ModRuleStoreItem × ℤ)
unfolding potential_rules matching
get_matching_mod_rule_store_items lib s operation namespace min_tier type v =
    let c = potential_rules operation namespace min_tier s in
    matching lib type v c.potential >>= λ items. done (items, c.current)
