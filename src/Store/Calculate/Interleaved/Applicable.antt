-- ===== src/Store/Calculate/Interleaved/Applicable.antt =====
-- The rules that apply from a tier up (core/modrulestore.go), at one tier and at another.
use kubemod.Prelude.{
  String, ◌==◌, ◌≡◌, refl, Bool, true, false, List, [], ◌∷◌, ◌++◌, map, if◌then◌else◌, arith, inl,
  inr, Bool-cases,
}
use kubemod.Prelude.Int16.{ℤ, ◌≤ℤ◌}
use kubemod.Prelude.Lists.{All, select}
use kubemod.Prelude.Member.{
  In, In-append_left, In-append_right, In-append, In-select, In-of_select, All-In,
}
use kubemod.Item.{ModRuleStoreItem}
use kubemod.Store.{ModRuleStore, item_tier, items_in}
use kubemod.Store.Matching.Lowest.{applicable, applies_cluster_wide, applies_in_namespace}
use kubemod.Store.Matching.Bounds.{applicable-ge}

module _ (p q : ModRuleStoreItem → Bool) (si : ModRuleStoreItem) where
  -- A rule stays in a filtered slice when the filter changes, if it passes the new one.
  In-refilter :
      (xs : List ModRuleStoreItem)
      → (p si ≡ true → q si ≡ true)
      → In si (select p xs)
      → In si (select q xs)
  In-refilter xs f i = let (j, e) = In-of_select p si xs i in In-select q si xs j (f e)

module _ (operation namespace : String) (s : ModRuleStore) (si : ModRuleStoreItem) where
  pub In-applicable_ge : (m : ℤ) → In si (applicable operation namespace m s) → m ≤ℤ item_tier si
  In-applicable_ge m i =
      All-In (λ x. m ≤ℤ item_tier x) si _ (applicable-ge operation namespace m s) i

  -- A rule that applies from some tier up applies from any tier up that is not above its own.
  pub In-applicable :
      (l m : ℤ)
      → m ≤ℤ item_tier si
      → In si (applicable operation namespace l s)
      → In si (applicable operation namespace m s)
  unfolding applicable
  In-applicable l m h i = elim (Bool-cases (namespace == "")) [
    | inl e ↦ rw e (parts true (rw e at i))
    | inr e ↦ rw e (parts false (rw e at i))
  ]
    where
      cluster : List ModRuleStoreItem
      cluster = items_in s s.cluster_mod_rules_namespace

      own : Bool → ℤ → List ModRuleStoreItem
      own b t =
          if b
          then []
          else select (applies_in_namespace operation namespace t) (items_in s namespace)

      own_part : (b : Bool) → In si (own b l) → In si (own b m)
      own_part true j = j
      own_part false j =
          In-refilter (applies_in_namespace operation namespace l)
            (applies_in_namespace operation namespace m) si (items_in s namespace)
            (λ e. ground (arith, e, h)) j

      parts :
          (b : Bool)
          → In si (select (applies_cluster_wide operation namespace l) cluster ++ own b l)
          → In si (select (applies_cluster_wide operation namespace m) cluster ++ own b m)
      parts b j =
          elim (In-append si (select (applies_cluster_wide operation namespace l) cluster) (own b l)
            j) [
              | inl c ↦ In-append_left si _ (own b m) (
                  In-refilter (applies_cluster_wide operation namespace l)
                    (applies_cluster_wide operation namespace m) si cluster
                    (λ e. ground (arith, e, h)) c)
              | inr o ↦
                  In-append_right si (select (applies_cluster_wide operation namespace m) cluster)
                    (own b m) (own_part b o)
            ]

pub All-map :
    {A B : Type 0} (P : B → Type 0) (f : A → B) (xs : List A)
    → ((a : A) → In a xs → P (f a))
    → All P (map f xs)
All-map P f [] h = tt
All-map P f (x ∷ xs) h = (h x (inl refl), All-map P f xs (λ a i. h a (inr i)))
