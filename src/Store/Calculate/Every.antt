-- ===== src/Store/Calculate/Every.antt =====
-- The loop over the tiers jumps from tier to tier; it agrees with a loop that visits every tier.
use kubemod.Prelude.{
  ℕ, zero, suc, ◌+◌, ◌-◌, ◌<◌, String, ◌==◌, ◌≡◌, refl, sym, ap, subst, ◌∙◌, Bool, ◌&&◌, Option,
  some, List, [], ◌∷◌, ◌++◌, Exec, done, fail, panic, ◌>>=◌, arith, inl, inr, Bool-cases,
}
use kubemod.Prelude.Int16.{
  ℤ, pos_part, neg_part, ◌≤ℤ◌, ◌<ℤ◌, ltb_ℤ, leb_ℤ, eqb_ℤ, increment, increment_parts, max_int16,
  room, eq_of_parts,
}
use kubemod.Prelude.Lists.{All, select, select-append}
use kubemod.Json.{Value}
use kubemod.Library.{Library}
use kubemod.Item.{ModRuleStoreItem}
use kubemod.Store.{ModRuleStore, item_tier, items_in}
use kubemod.Store.Contents.{IsValid}
use kubemod.Store.Matching.{get_matching_mod_rule_store_items}
use kubemod.Store.Matching.Lowest.{
  in_tier, applicable, lowest, lowest-le, applies_cluster_wide, applies_in_namespace,
}
use kubemod.Store.Matching.Bounds.{applicable-ge, lowest-ge, lowest-le-All}
use kubemod.Store.Matching.Spec.{wanted, get_matching_lem}
use kubemod.Store.Calculate.{run_tiers, go_on}

-- No element of a list from tier `l` up has a lower tier.
in_tier-none :
    (u l : ℤ) (xs : List ModRuleStoreItem)
    → u <ℤ l
    → All (λ si. l ≤ℤ item_tier si) xs
    → in_tier u xs ≡ []
in_tier-none u l [] h a = refl
in_tier-none u l (x ∷ xs) h a = ground (arith, h, a.0, in_tier-none u l xs h a.1)

select-eq :
    (p q : ModRuleStoreItem → Bool)
    → ((x : ModRuleStoreItem) → p x ≡ q x)
    → (xs : List ModRuleStoreItem) → select p xs ≡ select q xs
select-eq p q h [] = refl
select-eq p q h (x ∷ xs) = rw (h x, select-eq p q h xs) refl

in_tier-of_select :
    (u : ℤ) (p : ModRuleStoreItem → Bool) (xs : List ModRuleStoreItem)
    → in_tier u (select p xs) ≡ select (λ si. p si && eqb_ℤ (item_tier si) u) xs
in_tier-of_select u p [] = refl
in_tier-of_select u p (x ∷ xs) = elim (Bool-cases (p x)) [
  | inl e ↦ rw (e, in_tier-of_select u p xs)
  | inr e ↦ rw (e, in_tier-of_select u p xs)
]

same_bound :
    (m u : ℤ) (rest : ModRuleStoreItem → Bool)
    → m ≤ℤ u
    → (si : ModRuleStoreItem)
    → (leb_ℤ m (item_tier si) && rest si) && eqb_ℤ (item_tier si) u
      ≡ ((leb_ℤ u (item_tier si) && rest si) && eqb_ℤ (item_tier si) u)
same_bound m u rest h si = elim (Bool-cases (eqb_ℤ (item_tier si) u)) [
  | inl e ↦ ground (arith, e, h)
  | inr e ↦ rw e (ground arith)
]

-- A lower bound below the tier changes nothing.
in_tier-select :
    (m u : ℤ) (rest : ModRuleStoreItem → Bool) (xs : List ModRuleStoreItem)
    → m ≤ℤ u
    → in_tier u (select (λ si. leb_ℤ m (item_tier si) && rest si) xs)
      ≡ in_tier u (select (λ si. leb_ℤ u (item_tier si) && rest si) xs)
in_tier-select m u rest xs h =
    in_tier-of_select u (λ si. leb_ℤ m (item_tier si) && rest si) xs
    ∙ select-eq _ _ (same_bound m u rest h) xs
    ∙ sym (in_tier-of_select u (λ si. leb_ℤ u (item_tier si) && rest si) xs)

module _ (lib : Library) (s : ModRuleStore) (operation namespace : String) where
  -- The rules of one tier that apply.
  abbrev pub at_tier : ℤ → List ModRuleStoreItem
  at_tier u = in_tier u (applicable operation namespace u s)

  in_tier-applicable :
      (m u : ℤ) → m ≤ℤ u → in_tier u (applicable operation namespace m s) ≡ at_tier u
  unfolding applicable
  in_tier-applicable m u h = elim (Bool-cases (namespace == "")) [
    | inl e ↦
        rw (e, select-append, select-append)
          (ap (λ xs. xs ++ []) (in_tier-select m u _ (items_in s s.cluster_mod_rules_namespace) h))
    | inr e ↦
        rw (e, select-append, select-append)
          (ap
              (λ xs.
                xs
                ++ in_tier u
                    (select (applies_in_namespace operation namespace m) (items_in s namespace)))
              (in_tier-select m u _ (items_in s s.cluster_mod_rules_namespace) h)
            ∙ ap
                (λ ys.
                  in_tier u (
                    select (applies_cluster_wide operation namespace u)
                      (items_in s s.cluster_mod_rules_namespace))
                  ++ ys)
                (in_tier-select m u _ (items_in s namespace) h))
  ]

  module _ {S : Type 0} (type : String) (object : S → Value)
      (body : List ModRuleStoreItem → S → Exec S) where
    -- The rules of a tier that have the type and match the object as it is by then.
    abbrev pub chosen : ℤ → S → List ModRuleStoreItem
    chosen u st = select (wanted lib type (object st)) (at_tier u)

    -- The loop that visits `n` tiers from `u` on.
    unfoldable pub every_tier : ℕ → ℤ → S → Exec S
    every_tier zero u st = done st
    every_tier (suc n) u st = body (chosen u st) st >>= every_tier n (increment u)

    abbrev lookup_from : ℤ → S → Exec (List ModRuleStoreItem × ℤ)
    lookup_from t st =
        get_matching_mod_rule_store_items lib s operation namespace t type (object st)

    module _ (valid : IsValid lib s) (nothing : (st : S) → body [] st ≡ done st) where
      -- Tiers with no rules are passed over.
      skip :
          (n k : ℕ) (u l : ℤ) (st : S)
          → u ≤ℤ l
          → l ≤ℤ max_int16
          → pos_part l + neg_part u + k ≡ pos_part u + neg_part l + n
          → ((v : ℤ) → u ≤ℤ v → v <ℤ l → at_tier v ≡ [])
          → every_tier n u st ≡ every_tier k l st
      unfolding every_tier
      skip zero k u l st ul lm e none_between =
          let k_zero : 0 ≡ k = omega arith in
          subst (λ k'. every_tier zero u st ≡ every_tier k' l st) k_zero refl
      skip (suc n) k u l st ul lm e none_between = elim (Bool-cases (ltb_ℤ u l)) [
        | inr there ↦
            let same_tier : u ≡ l = eq_of_parts u l (ground (arith, there)) in
            let same_count : suc n ≡ k = ground (arith, there) in
            subst (λ k'. every_tier (suc n) u st ≡ every_tier k' l st) same_count
              (ap (λ t. every_tier (suc n) t st) same_tier)
        | inl below ↦
            let u_l : u <ℤ l = ground (arith, below) in
            let u_max : u <ℤ max_int16 = omega arith in
            rw (none_between u (omega arith) u_l, nothing st)
              (skip n k (increment u) l st (omega (arith, increment_parts u u_max)) lm
                (omega (arith, increment_parts u u_max))
                (λ v uv vl. none_between v (omega (arith, increment_parts u u_max)) vl))
      ]

      -- One round, given what the later ones do.
      round :
          (rest : ℤ → S → Option (Exec S)) (k : ℕ) (l : ℤ) (r : Exec S)
          → ((st : S) → rest l st ≡ some (every_tier k (increment l) st))
          → go_on lookup_from body rest l r ≡ some (r >>= every_tier k (increment l))
      round rest k l (done st) later = later st
      round rest k l (fail e) later = refl
      round rest k l panic later = refl

      pub run_tiers-every_tier :
          (fuel n : ℕ) (t : ℤ) (st : S)
          → t <ℤ max_int16
          → room t < fuel
          → 32767 + neg_part (increment t) ≡ pos_part (increment t) + n
          → run_tiers lookup_from body fuel t st ≡ some (every_tier n (increment t) st)
      unfolding run_tiers every_tier
      run_tiers-every_tier zero n t st h r e = absurd (omega arith)
      run_tiers-every_tier (suc fuel) n t st h r e =
          let m = increment t in
          let ahead = applicable operation namespace m s in
          let l = lowest max_int16 ahead in
          let ge : m ≤ℤ l =
            lowest-ge m max_int16 ahead (omega (arith, increment_parts t))
              (applicable-ge operation namespace m s) in
          let le : l ≤ℤ max_int16 = lowest-le max_int16 ahead in
          let none_between : (v : ℤ) → m ≤ℤ v → v <ℤ l → at_tier v ≡ [] = λ v mv vl.
            sym (in_tier-applicable m v mv)
            ∙ in_tier-none v l ahead vl (lowest-le-All max_int16 ahead) in
          elim (Bool-cases (eqb_ℤ l max_int16)) [
            | inl last ↦
                rw (get_matching_lem lib operation namespace m s valid type (object st), last)
                  (ap some (sym (skip n 0 m l st ge le (ground (arith, last)) none_between)))
            | inr more ↦
                let below : l <ℤ max_int16 = ground (arith, more) in
                let k = room l - 1 in
                rw
                  (
                    get_matching_lem lib operation namespace m s valid type (object st),
                    more,
                    in_tier-applicable m l ge,
                  )
                  (round (run_tiers lookup_from body fuel) k l (body (chosen l st) st) (λ st'.
                      run_tiers-every_tier fuel k l st' below (omega (arith, increment_parts t))
                        (omega (arith, increment_parts l)))
                    ∙ ap some (sym (skip n (suc k) m l st ge le (omega arith) none_between)))
          ]
