-- ===== src/Store.antt =====
-- `ModRuleStore` (core/modrulestore.go): the store items by namespace. `Put`, `Delete` and each
-- call of `getMatchingModRuleStoreItems` hold the store's lock, so each is one step. `sort.Sort` is
-- not stable, so the order of equal tiers is its own: it is the parameter `sort`.
pub mod Contents
pub mod Put
pub mod Cluster
pub mod Delete
pub mod Matching
pub mod Annotation
pub mod Calculate
use kubemod.Prelude.{
  ℕ, zero, suc, String, ◌==◌, Bool, true, false, ◌&&◌, ◌||◌, not, Option, none, some, List, [], ◌∷◌,
  ◌++◌, map, if◌then◌else◌, is_some, Result, ok, err, and_then, Exec, done, fail, panic, ◌>>=◌,
  lift,
}
use kubemod.Prelude.Int16.{ℤ, ltb_ℤ, leb_ℤ, eqb_ℤ, increment, max_int16, min_int16}
use kubemod.Prelude.Lists.{length, get_elem?, set, any, select}
use kubemod.Prelude.Dict
use kubemod.Prelude.Dict.{Dict}
use kubemod.Prelude.Keyed.{index_from, last?, drop_last}
use kubemod.Prelude.Text.{concat}
use kubemod.Json.{Value}
use kubemod.Library.{Library}
use kubemod.Api.{ModRule}
use kubemod.Item.{ModRuleStoreItem, new_mod_rule_store_item}
use kubemod.Item.Match.{is_match}

pub record ModRuleStore : Type 0 where
  pub mod_rule_list_map : Dict (List ModRuleStoreItem)
  pub cluster_mod_rules_namespace : String

-- `NewModRuleStore`.
abbrev pub new_mod_rule_store : String → ModRuleStore
new_mod_rule_store cluster = record {
  mod_rule_list_map = [];
  cluster_mod_rules_namespace = cluster;
}

abbrev pub item_name : ModRuleStoreItem → String
item_name si = si.mod_rule.name

abbrev pub item_tier : ModRuleStoreItem → ℤ
item_tier si = si.mod_rule.spec.execution_tier

-- `ByExecutionTier.Less`.
unfoldable pub less : ModRuleStoreItem → ModRuleStoreItem → Bool
less a b = ltb_ℤ (item_tier a) (item_tier b)

abbrev pub Sort : Type 0
Sort = (ModRuleStoreItem → ModRuleStoreItem → Bool) → List ModRuleStoreItem → List ModRuleStoreItem

-- `findItemIndexByName`; `none` is -1.
unfoldable pub find_item_index_by_name : List ModRuleStoreItem → String → Option ℕ
unfolding index_from
find_item_index_by_name items name = index_from item_name 0 items name

abbrev or_empty : Option (List ModRuleStoreItem) → List ModRuleStoreItem
or_empty none = []
or_empty (some items) = items

-- The slice of a namespace, nil if there is none.
unfoldable pub items_in : ModRuleStore → String → List ModRuleStoreItem
items_in s namespace = or_empty (Dict.get namespace s.mod_rule_list_map)

abbrev pub with_items : ModRuleStore → String → List ModRuleStoreItem → ModRuleStore
with_items s namespace items = record s {
  mod_rule_list_map = Dict.put namespace items s.mod_rule_list_map;
}

abbrev pub replaced : List ModRuleStoreItem → Option ℕ → ModRuleStoreItem → List ModRuleStoreItem
replaced items none item = items ++ item ∷ []
replaced items (some i) item = set items i item

-- The end of `Put`, after the item is made.
unfoldable pub store_item :
    Sort
    → ModRuleStore
    → String
    → List ModRuleStoreItem
    → Option ℕ
    → Result ModRuleStoreItem
    → ModRuleStore × Result (Unit {0})
store_item sort s namespace items index (err e) =
    (s, err (concat "failed to add ModRule to ModRuleStore: " e))
store_item sort s namespace items index (ok item) =
    (with_items s namespace (sort less (replaced items index item)), ok tt)

abbrev put_slice :
    Library
    → Sort
    → ModRuleStore
    → ModRule
    → Option (List ModRuleStoreItem)
    → ModRuleStore × Result (Unit {0})
put_slice lib sort s r none =
    store_item sort (with_items s r.namespace []) r.namespace [] none
      (new_mod_rule_store_item lib r)
put_slice lib sort s r (some items) =
    store_item sort s r.namespace items (find_item_index_by_name items r.name)
      (new_mod_rule_store_item lib r)

unfoldable pub put : Library → Sort → ModRuleStore → ModRule → ModRuleStore × Result (Unit {0})
unfolding store_item
put lib sort s r = put_slice lib sort s r (Dict.get r.namespace s.mod_rule_list_map)

-- The end of `Delete`, with what the slice holds after the last element has moved.
store_rest : ModRuleStore → String → List ModRuleStoreItem → ModRuleStore
store_rest s namespace [] = record s {
  mod_rule_list_map = Dict.remove namespace s.mod_rule_list_map;
}
store_rest s namespace (item ∷ items) = with_items s namespace (item ∷ items)

abbrev moved_last : List ModRuleStoreItem → ℕ → Option ModRuleStoreItem → List ModRuleStoreItem
moved_last items i none = items
moved_last items i (some z) = drop_last (set items i z)

abbrev delete_at : ModRuleStore → String → List ModRuleStoreItem → Option ℕ → ModRuleStore
delete_at s namespace items none = s
delete_at s namespace items (some i) = store_rest s namespace (moved_last items i (last? items))

abbrev delete_from : ModRuleStore → String → String → Option (List ModRuleStoreItem) → ModRuleStore
delete_from s namespace name none = s
delete_from s namespace name (some items) =
    delete_at s namespace items (find_item_index_by_name items name)

unfoldable pub delete : ModRuleStore → String → String → ModRuleStore
unfolding store_rest drop_last last? find_item_index_by_name
delete s namespace name = delete_from s namespace name (Dict.get namespace s.mod_rule_list_map)

-- `GetStats`.
unfoldable pub get_stats : ModRuleStore → Dict ℕ
get_stats s = map (λ e. (e.0, length e.1)) s.mod_rule_list_map
