-- ===== src/Controller/Spec.antt =====
-- A reconciliation brings the store's entry to what the API server holds.
use kubemod.Prelude.{
  String, ◌==◌, eq_iff, ◌≡◌, refl, sym, ◌∙◌, ◌&&◌, Option, none, some, Result, ok, err,
  if◌then◌else◌, arith, Result-cases, inl, inr,
}
use kubemod.Library.{Library}
use kubemod.Item.{ModRuleStoreItem, new_mod_rule_store_item}
use kubemod.Store.{ModRuleStore, Sort}
use kubemod.Store.Contents.{stored, Rearranges, IsValid}
use kubemod.Store.Put.{stored-put, stored-put_error, put-IsValid}
use kubemod.Store.Cluster.{put-cluster, delete-cluster}
use kubemod.Store.Delete.{stored-delete, delete-IsValid}
use kubemod.Controller.{Fetched, found, not_found, failed, reconcile, reconcile_fetched}

abbrev or_else : Result ModRuleStoreItem → Option ModRuleStoreItem → Option ModRuleStoreItem
or_else (ok item) old = some item
or_else (err e) old = old

-- The entry after a rule was fetched, where `old` was the entry before.
abbrev pub desired : Library → String → Option ModRuleStoreItem → Fetched → Option ModRuleStoreItem
desired lib namespace old (found r) =
    or_else (new_mod_rule_store_item lib (record r { namespace = namespace })) old
desired lib namespace old not_found = none
desired lib namespace old (failed e) = old

-- The API server answers with a rule of the name that it was asked for.
abbrev pub IsNamed : String → Fetched → Type 0
IsNamed name (found r) = r.name ≡ name
IsNamed name not_found = Unit
IsNamed name (failed e) = Unit

same_or_old :
    {A : Type 0}
    → (n n' m m' : String) (f : String → String → A)
    → (if n == n' && m == m' then f n m else f n' m') ≡ f n' m'
same_or_old n n' m m' f = ground (arith, eq_iff n n', eq_iff m m')

pub reconcile_fetched-cluster :
    (lib : Library) (sort : Sort) (s : ModRuleStore) (namespace name : String) (f : Fetched)
    → (reconcile_fetched lib sort s namespace name f).0.cluster_mod_rules_namespace
      ≡ s.cluster_mod_rules_namespace
unfolding reconcile_fetched
reconcile_fetched-cluster lib sort s namespace name not_found = delete-cluster s namespace name
reconcile_fetched-cluster lib sort s namespace name (failed e) = refl
reconcile_fetched-cluster lib sort s namespace name (found r) =
    put-cluster lib sort s (record r { namespace = namespace })

module _ (lib : Library) (sort : Sort) (rearranges : Rearranges sort) where
  pub reconcile_fetched-stored :
      (s : ModRuleStore) (namespace name n m : String) (f : Fetched)
      → IsValid lib s
      → IsNamed name f
      → stored (reconcile_fetched lib sort s namespace name f).0 n m ≡ (
          if namespace == n && name == m
          then desired lib namespace (stored s namespace name) f
          else stored s n m)
  unfolding reconcile_fetched
  reconcile_fetched-stored s namespace name n m not_found valid named =
      stored-delete lib s namespace name n m valid
  reconcile_fetched-stored s namespace name n m (failed e) valid named =
      sym (same_or_old namespace n name m (stored s))
  reconcile_fetched-stored s namespace name n m (found r) valid named =
      elim (Result-cases (new_mod_rule_store_item lib (record r { namespace = namespace }))) [
        | inl (item, made) ↦ rw (
          stored-put lib sort rearranges s (record r { namespace = namespace }) item n m valid made,
          made,
          named,
        )
        | inr (e, refused) ↦
            (stored-put_error lib sort rearranges s (record r { namespace = namespace }) e n m
              refused).1
            ∙ rw refused (sym (same_or_old namespace n name m (stored s)))
      ]

  pub reconcile_fetched-IsValid :
      (s : ModRuleStore) (namespace name : String) (f : Fetched)
      → IsValid lib s
      → IsValid lib (reconcile_fetched lib sort s namespace name f).0
  unfolding reconcile_fetched
  reconcile_fetched-IsValid s namespace name not_found valid =
      delete-IsValid lib s namespace name valid
  reconcile_fetched-IsValid s namespace name (failed e) valid = valid
  reconcile_fetched-IsValid s namespace name (found r) valid =
      put-IsValid lib sort rearranges s (record r { namespace = namespace }) valid

  module _ (get : String → String → Fetched) where
    -- With a sort that leaves the same elements, on a well-formed store, and if the API server
    -- answers with a rule of the name that it was asked for: a reconciliation changes only the entry
    -- of its namespace and name. It becomes the item made from the rule that was fetched, none if the
    -- rule is gone, and stays what it was if the call failed or the rule does not compile.
    pub reconcile-stored :
        (s : ModRuleStore) (namespace name n m : String)
        → IsValid lib s
        → IsNamed name (get namespace name)
        → stored (reconcile lib sort get s namespace name).0 n m ≡ (
            if namespace == n && name == m
            then desired lib namespace (stored s namespace name) (get namespace name)
            else stored s n m)
    unfolding reconcile
    reconcile-stored s namespace name n m valid named =
        reconcile_fetched-stored s namespace name n m (get namespace name) valid named

    -- With a sort that leaves the same elements, a reconciliation keeps a well-formed store well
    -- formed, whatever the API server answers.
    pub reconcile-IsValid :
        (s : ModRuleStore) (namespace name : String)
        → IsValid lib s
        → IsValid lib (reconcile lib sort get s namespace name).0
    unfolding reconcile
    reconcile-IsValid s namespace name valid =
        reconcile_fetched-IsValid s namespace name (get namespace name) valid
