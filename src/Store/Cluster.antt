-- ===== src/Store/Cluster.antt =====
-- The namespace of the cluster-wide rules, `ClusterModRulesNamespace`, which no operation of the
-- store changes (core/modrulestore.go).
use kubemod.Prelude.{
  String, ◌≡◌, refl, ℕ, List, [], ◌∷◌, Option, none, some, Option-cases, Result-cases, inl, inr,
}
use kubemod.Prelude.Dict
use kubemod.Library.{Library}
use kubemod.Api.{ModRule}
use kubemod.Item.{ModRuleStoreItem, new_mod_rule_store_item}
use kubemod.Store.{ModRuleStore, Sort, put, store_item, delete, store_rest, delete_at, delete_from}

pub put-cluster :
    (lib : Library) (sort : Sort) (s : ModRuleStore) (r : ModRule)
    → (put lib sort s r).0.cluster_mod_rules_namespace ≡ s.cluster_mod_rules_namespace
unfolding put store_item
put-cluster lib sort s r = elim (Option-cases (Dict.get r.namespace s.mod_rule_list_map)) [
  | inl e ↦ elim (Result-cases (new_mod_rule_store_item lib r)) [
    | inl (item, made) ↦ rw (e, made)
    | inr (x, failed) ↦ rw (e, failed)
  ]
  | inr (items, e) ↦ elim (Result-cases (new_mod_rule_store_item lib r)) [
    | inl (item, made) ↦ rw (e, made)
    | inr (x, failed) ↦ rw (e, failed)
  ]
]

store_rest-cluster :
    (s : ModRuleStore) (namespace : String) (items : List ModRuleStoreItem)
    → (store_rest s namespace items).cluster_mod_rules_namespace ≡ s.cluster_mod_rules_namespace
unfolding store_rest
store_rest-cluster s namespace [] = refl
store_rest-cluster s namespace (item ∷ items) = refl

delete_at-cluster :
    (s : ModRuleStore) (namespace : String) (items : List ModRuleStoreItem) (index : Option ℕ)
    → (delete_at s namespace items index).cluster_mod_rules_namespace
      ≡ s.cluster_mod_rules_namespace
delete_at-cluster s namespace items none = refl
delete_at-cluster s namespace items (some i) = store_rest-cluster s namespace _

delete_from-cluster :
    (s : ModRuleStore) (namespace name : String) (o : Option (List ModRuleStoreItem))
    → (delete_from s namespace name o).cluster_mod_rules_namespace ≡ s.cluster_mod_rules_namespace
delete_from-cluster s namespace name none = refl
delete_from-cluster s namespace name (some items) = delete_at-cluster s namespace items _

pub delete-cluster :
    (s : ModRuleStore) (namespace name : String)
    → (delete s namespace name).cluster_mod_rules_namespace ≡ s.cluster_mod_rules_namespace
unfolding delete
delete-cluster s namespace name =
    delete_from-cluster s namespace name (Dict.get namespace s.mod_rule_list_map)
