-- ===== src/Controller/Converge.antt =====
-- The stores that reconciliations reach, and that they come to agree with the API server.
use kubemod.Prelude.{
  String, ◌==◌, eq_iff, ◌≡◌, refl, ◌∙◌, Bool, true, false, ◌&&◌, Option, none, List, [], ◌∷◌, is_ok,
  ◌⊎◌, ◌||◌, arith, Bool-cases, Result-cases, inl, inr,
}
use kubemod.Prelude.Lists.{any}
use kubemod.Prelude.Dict
use kubemod.Library.{Library}
use kubemod.Item.{ModRuleStoreItem, new_mod_rule_store_item}
use kubemod.Store.{ModRuleStore, Sort, new_mod_rule_store, items_in}
use kubemod.Store.Contents.{stored, Rearranges, IsValid}
use kubemod.Controller.{Fetched, found, not_found, failed, reconcile}
use kubemod.Controller.Spec.{desired, IsNamed, reconcile-stored, reconcile-IsValid}

-- The API server may answer differently at every step.
pub data Reachable (lib : Library) (sort : Sort) (cluster : String) : ModRuleStore → Type 0 where
  started : Reachable lib sort cluster (new_mod_rule_store cluster)
  reconciled :
      (get : String → String → Fetched) (s : ModRuleStore) (namespace name : String)
      → Reachable lib sort cluster s
      → Reachable lib sort cluster (reconcile lib sort get s namespace name).0

-- The rule is gone, or it is there and compiles.
abbrev pub Settles : Library → String → Fetched → Type 0
Settles lib namespace (found r) =
    is_ok (new_mod_rule_store_item lib (record r { namespace = namespace })) ≡ true
Settles lib namespace not_found = Unit
Settles lib namespace (failed e) = ⊥

pub new_mod_rule_store-IsValid :
    (lib : Library) (cluster : String) → IsValid lib (new_mod_rule_store cluster)
unfolding items_in Dict.get
new_mod_rule_store-IsValid lib cluster n = record { distinct = tt; made = tt }

later : (p q : Bool) → p ≡ false → p || q ≡ true → q ≡ true
later p q e h = ground arith

pub both : (p q : Bool) → p && q ≡ true → (p ≡ true) × (q ≡ true)
both p q h = (ground arith, ground arith)

pub desired-Settles :
    (lib : Library) (namespace : String) (f : Fetched) (old new : Option ModRuleStoreItem)
    → Settles lib namespace f
    → desired lib namespace old f ≡ desired lib namespace new f
desired-Settles lib namespace (found r) old new h =
    elim (Result-cases (new_mod_rule_store_item lib (record r { namespace = namespace }))) [
      | inl (item, e) ↦ rw e
      | inr (x, e) ↦ absurd (cc)
    ]
desired-Settles lib namespace not_found old new h = refl
desired-Settles lib namespace (failed e) old new h = absurd h

module _ (lib : Library) (sort : Sort) (rearranges : Rearranges sort) where
  -- With a sort that leaves the same elements, every store that reconciliations reach from the
  -- empty store is well formed: it holds no name twice in a namespace, and every item was made from
  -- its own rule.
  pub Reachable-IsValid :
      (cluster : String) (s : ModRuleStore) → Reachable lib sort cluster s → IsValid lib s
  Reachable-IsValid cluster s started = new_mod_rule_store-IsValid lib cluster
  Reachable-IsValid cluster s (reconciled get s' namespace name before) =
      reconcile-IsValid lib sort rearranges get s' namespace name
        (Reachable-IsValid cluster s' before)

  module _ (get : String → String → Fetched) where
    -- The store after a list of reconciliations.
    reconcile_all : List (String × String) → ModRuleStore → ModRuleStore
    reconcile_all [] s = s
    reconcile_all (k ∷ ks) s = reconcile_all ks (reconcile lib sort get s k.0 k.1).0

    module _ (named : (n m : String) → IsNamed m (get n m)) (n m : String)
        (settles : Settles lib n (get n m)) where
      at_key :
          (s : ModRuleStore) (k : String × String)
          → IsValid lib s
          → k.0 == n && k.1 == m ≡ true
          → stored (reconcile lib sort get s k.0 k.1).0 n m ≡ desired lib n none (get n m)
      at_key s k valid same =
          let (same_n, same_m) = both (k.0 == n) (k.1 == m) same in
          let k₀ : k.0 ≡ n = (eq_iff k.0 n).0 same_n in
          let k₁ : k.1 ≡ m = (eq_iff k.1 m).0 same_m in
          reconcile-stored lib sort rearranges get s k.0 k.1 n m valid (named k.0 k.1)
          ∙ rw (same, k₀, k₁) (desired-Settles lib n (get n m) (stored s n m) none settles)

      one_step :
          (s : ModRuleStore) (k : String × String)
          → IsValid lib s
          → (k.0 == n && k.1 == m ≡ true) ⊎ (stored s n m ≡ desired lib n none (get n m))
          → stored (reconcile lib sort get s k.0 k.1).0 n m ≡ desired lib n none (get n m)
      one_step s k valid (inl same) = at_key s k valid same
      one_step s k valid (inr agrees) = elim (Bool-cases (k.0 == n && k.1 == m)) [
        | inl same ↦ at_key s k valid same
        | inr other ↦
            reconcile-stored lib sort rearranges get s k.0 k.1 n m valid (named k.0 k.1)
            ∙ rw other agrees
      ]

      stays :
          (ks : List (String × String)) (s : ModRuleStore)
          → IsValid lib s
          → stored s n m ≡ desired lib n none (get n m)
          → stored (reconcile_all ks s) n m ≡ desired lib n none (get n m)
      unfolding reconcile_all
      stays [] s valid agrees = agrees
      stays (k ∷ ks) s valid agrees =
          stays ks _ (reconcile-IsValid lib sort rearranges get s k.0 k.1 valid)
            (one_step s k valid (inr agrees))

      -- With a sort that leaves the same elements, while the API server does not change, and if it
      -- answers with rules of the names asked for: let the rule of a key be gone, or there and
      -- compile. Then reconciliations in any order and number that come by this key lead from any
      -- well-formed store to one that holds for the key what the server holds.
      reconcile_all-converges :
          (ks : List (String × String)) (s : ModRuleStore)
          → IsValid lib s
          → any (λ k. k.0 == n && k.1 == m) ks ≡ true
          → stored (reconcile_all ks s) n m ≡ desired lib n none (get n m)
      unfolding reconcile_all
      reconcile_all-converges [] s valid h = absurd (cc)
      reconcile_all-converges (k ∷ ks) s valid h = elim (Bool-cases (k.0 == n && k.1 == m)) [
        | inl same ↦
            stays ks _ (reconcile-IsValid lib sort rearranges get s k.0 k.1 valid)
              (one_step s k valid (inl same))
        | inr other ↦
            reconcile_all-converges ks _ (reconcile-IsValid lib sort rearranges get s k.0 k.1 valid)
              (later _ _ other h)
      ]
