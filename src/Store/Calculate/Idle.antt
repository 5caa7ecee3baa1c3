-- ===== src/Store/Calculate/Idle.antt =====
-- Both functions on a store none of whose rules admits the operation of the request.
use kubemod.Prelude.{
  ℕ, suc, String, ◌==◌, ◌≡◌, false, none, some, List, [], ok, Exec, done, ◌>>=◌, arith, Bool-cases,
  inl, inr, lift,
}
use kubemod.Prelude.Lists.{All, select-none, All-implied}
use kubemod.Prelude.Int16.{ℤ, max_int16, min_int16, increment}
use kubemod.Json.{Value}
use kubemod.Library.{Library, Bytes}
use kubemod.Api.{mod_rule_type_patch, mod_rule_type_reject}
use kubemod.Store.Annotation.{extract_last_applied_configuration}
use kubemod.Item.{ModRuleStoreItem}
use kubemod.Store.{ModRuleStore, items_in}
use kubemod.Store.Matching.{admits, get_matching_mod_rule_store_items}
use kubemod.Store.Matching.Lowest.{
  applicable, applies_cluster_wide, applies_in_namespace, lowest, potential_rules_lem,
}
use kubemod.Store.Calculate.{
  calculate_store_patch, determine_rejections, patch_tiers, reject_tiers, run_tiers, PatchState,
  finish, apply_rules, add_messages,
}

-- No rule of a slice admits an operation.
abbrev pub NoneAdmits : String → List ModRuleStoreItem → Type 0
NoneAdmits operation = All (λ si. admits operation si ≡ false)

module _ (lib : Library) (s : ModRuleStore) (operation namespace : String)
    (nobody : (n : String) → NoneAdmits operation (items_in s n)) where
  applicable-none : (t : ℤ) → applicable operation namespace t s ≡ []
  unfolding applicable
  applicable-none t =
      rw
        (
          select-none (applies_cluster_wide operation namespace t)
              (items_in s s.cluster_mod_rules_namespace)
              (All-implied _ _ (λ si h. ground (arith, h)) _
                (nobody s.cluster_mod_rules_namespace)),
          select-none (applies_in_namespace operation namespace t) (items_in s namespace)
              (All-implied _ _ (λ si h. ground (arith, h)) _ (nobody namespace)),
        )
        (elim (Bool-cases (namespace == "")) [ inl e ↦ rw e | inr e ↦ rw e ])

  get_matching-none :
      (t : ℤ) (type : String) (v : Value)
      → get_matching_mod_rule_store_items lib s operation namespace t type v ≡ done ([], max_int16)
  unfolding get_matching_mod_rule_store_items lowest
  get_matching-none t type v =
      let (tier, rules) = potential_rules_lem operation namespace t s in
      rw (tier, rules, applicable-none t)

  run_tiers-none :
      {S : Type 0} (body : List ModRuleStoreItem → S → Exec S) (type : String) (f : S → Value)
      (fuel : ℕ) (t : ℤ) (st : S)
      → run_tiers
          (λ u st'. get_matching_mod_rule_store_items lib s operation namespace u type (f st'))
          body
          (suc fuel)
          t
          st
        ≡ some (done st)
  unfolding run_tiers
  run_tiers-none body type f fuel t st = rw (get_matching-none (increment t) type (f st))

  patch_tiers-idle :
      (fuel : ℕ) (st : PatchState)
      → patch_tiers lib s operation namespace (suc fuel) st ≡ some (done st)
  unfolding patch_tiers
  patch_tiers-idle fuel st =
      run_tiers-none (apply_rules lib s operation namespace) mod_rule_type_patch
        (λ (st' : PatchState). st'.jsonv) fuel min_int16 st

  -- No rule is tried: the document is compared with itself.
  pub calculate_store_patch-idle :
      (original : Bytes) (v : Value)
      → lib.unmarshal original ≡ ok v
      → extract_last_applied_configuration v ≡ none
      → calculate_store_patch lib s operation namespace original
        ≡ some (lift (lib.create_patch original original) >>= λ ops. done (v, ops))
  unfolding calculate_store_patch finish
  calculate_store_patch-idle original v h e = rw (h, e, patch_tiers-idle 65535 _)

  -- No rule rejects.
  pub determine_rejections-idle :
      (v : Value) → determine_rejections lib s operation namespace v ≡ some (done [])
  unfolding determine_rejections reject_tiers
  determine_rejections-idle v =
      run_tiers-none
        (λ rules messages. done (add_messages lib s operation namespace v rules messages))
        mod_rule_type_reject (λ _. v) 65535 min_int16 []
