-- ===== src/Store/Calculate/Tiers.antt =====
-- The loop over the tiers ends: each round is at a tier above the last one.
use kubemod.Prelude.{
  ℕ, zero, suc, ◌<◌, String, ◌≡◌, ◌≢◌, refl, Option, none, some, List, [], Result, ok, err, Exec,
  done, fail, panic, arith, inl, inr, Bool-cases,
}
use kubemod.Prelude.Int16.{
  ℤ, ◌≤ℤ◌, ◌<ℤ◌, eqb_ℤ, increment, increment_parts, max_int16, min_int16, room,
}
use kubemod.Json.{Value}
use kubemod.Library.{Library, Bytes}
use kubemod.Api.{mod_rule_type_patch, mod_rule_type_reject}
use kubemod.Item.{ModRuleStoreItem}
use kubemod.Store.{ModRuleStore}
use kubemod.Store.Matching.{get_matching_mod_rule_store_items}
use kubemod.Store.Matching.Bounds.{get_matching_tier}
use kubemod.Store.Calculate.{
  run_tiers, go_on, after_next, patch_tiers, apply_rules, reject_tiers, add_messages, all_tiers,
  calculate_store_patch, determine_rejections, PatchState, from_value, and_finish,
}

module _ {S : Type 0} (next : ℤ → S → Exec (List ModRuleStoreItem × ℤ))
    (body : List ModRuleStoreItem → S → Exec S) where
  go_on-ne-none :
      (rest : ℤ → S → Option (Exec S)) (t : ℤ)
      → ((s : S) → rest t s ≢ none)
      → (m : Exec S) → go_on next body rest t m ≢ none
  go_on-ne-none rest t go (done s) = go s
  go_on-ne-none rest t go (fail e) = λ h. cc
  go_on-ne-none rest t go panic = λ h. cc

  -- A round that goes on does so at a tier below the greatest number.
  after_next-ne-none :
      (low : ℤ) (rest : ℤ → S → Option (Exec S))
      → ((t : ℤ) (s : S) → low ≤ℤ t → t <ℤ max_int16 → rest t s ≢ none)
      → (s : S) (m : Exec (List ModRuleStoreItem × ℤ))
      → ((rules : List ModRuleStoreItem) (t : ℤ)
          → m ≡ done (rules, t)
          → (low ≤ℤ t) × (t ≤ℤ max_int16))
      → after_next next body rest s m ≢ none
  after_next-ne-none low rest go s panic b = λ h. cc
  after_next-ne-none low rest go s (fail e) b = λ h. cc
  after_next-ne-none low rest go s (done (rules, t)) b = elim (Bool-cases (eqb_ℤ t max_int16)) [
    | inl last ↦ rw last (λ h. cc)
    | inr more ↦ rw more (
        go_on-ne-none rest t
          (λ s'. go t s' (b rules t refl).0 (ground (arith, more, (b rules t refl).1)))
          (body rules s))
  ]

module _ {S : Type 0} (next : ℤ → S → Exec (List ModRuleStoreItem × ℤ))
    (body : List ModRuleStoreItem → S → Exec S)
    (bounded : (t : ℤ) (s : S) (rules : List ModRuleStoreItem) (t' : ℤ)
      → t ≤ℤ max_int16
      → next t s ≡ done (rules, t')
      → (t ≤ℤ t') × (t' ≤ℤ max_int16)) where
  pub run_tiers-ne-none :
      (fuel : ℕ) (t : ℤ) (s : S)
      → t <ℤ max_int16
      → room t < fuel
      → run_tiers next body fuel t s ≢ none
  unfolding run_tiers
  run_tiers-ne-none zero t s h r = absurd (omega arith)
  run_tiers-ne-none (suc fuel) t s h r =
      after_next-ne-none next body (increment t) (run_tiers next body fuel)
        (λ t' s' lo more. run_tiers-ne-none fuel t' s' more (omega (arith, increment_parts t))) s
        (next (increment t) s)
        (λ rules t' e. bounded (increment t) s rules t' (omega (arith, increment_parts t)) e)

module _ (lib : Library) (s : ModRuleStore) (operation namespace : String) where
  patch_tiers-ne-none :
      (st : PatchState) → patch_tiers lib s operation namespace all_tiers st ≢ none
  unfolding patch_tiers
  patch_tiers-ne-none st =
      run_tiers-ne-none
        (λ t u.
          get_matching_mod_rule_store_items lib s operation namespace t mod_rule_type_patch u.jsonv)
        (apply_rules lib s operation namespace)
        (λ t u rules t' h.
          get_matching_tier operation namespace t s lib mod_rule_type_patch u.jsonv rules t' h)
        all_tiers min_int16 st (omega arith) (omega arith)

  and_finish-ne-none :
      (original : Bytes) (o : Option (Exec PatchState))
      → o ≢ none
      → and_finish lib s operation namespace original o ≢ none
  and_finish-ne-none original none h = absurd (h refl)
  and_finish-ne-none original (some r) h = λ e. cc

  from_value-ne-none :
      (original : Bytes) (r : Result Value) → from_value lib s operation namespace original r ≢ none
  from_value-ne-none original (err e) = λ h. cc
  from_value-ne-none original (ok v) = and_finish-ne-none original _ (patch_tiers-ne-none _)

  -- On every store, operation, namespace and document the loop of `CalculatePatch` over the tiers
  -- comes to an end within the number of tiers of an `int16`.
  pub calculate_store_patch-ne-none :
      (original : Bytes) → calculate_store_patch lib s operation namespace original ≢ none
  unfolding calculate_store_patch
  calculate_store_patch-ne-none original = from_value-ne-none original (lib.unmarshal original)

  -- On every store, operation, namespace and object the loop of `DetermineRejections` over the
  -- tiers comes to an end within the number of tiers of an `int16`.
  pub determine_rejections-ne-none :
      (jsonv : Value) → determine_rejections lib s operation namespace jsonv ≢ none
  unfolding determine_rejections reject_tiers
  determine_rejections-ne-none jsonv =
      run_tiers-ne-none
        (λ t u.
          get_matching_mod_rule_store_items lib s operation namespace t mod_rule_type_reject jsonv)
        (λ rules messages. done (add_messages lib s operation namespace jsonv rules messages))
        (λ t u rules t' h.
          get_matching_tier operation namespace t s lib mod_rule_type_reject jsonv rules t' h)
        all_tiers min_int16 [] (omega arith) (omega arith)
