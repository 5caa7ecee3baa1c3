-- ===== src/Store/Calculate/Interleaved/Ends.antt =====
-- The loops over the tiers end although the store changes under them.
use kubemod.Prelude.{
  ℕ, String, ◌≢◌, refl, Option, none, some, List, [], Result, ok, err, Exec, arith,
}
use kubemod.Prelude.Int16.{min_int16}
use kubemod.Json.{Value}
use kubemod.Library.{Library, Bytes}
use kubemod.Api.{mod_rule_type_patch, mod_rule_type_reject}
use kubemod.Store.{ModRuleStore}
use kubemod.Store.Matching.Bounds.{get_matching_tier}
use kubemod.Store.Calculate.{all_tiers, PatchState}
use kubemod.Store.Calculate.Tiers.{run_tiers-ne-none}
use kubemod.Store.Calculate.Interleaved.{
  patches_at, apply_round, finish_rounds, rounds_from, calculate_patch_during, rejects_at,
  reject_round, messages_of, determine_rejections_during,
}

module _ (lib : Library) (stores : ℕ → ModRuleStore) (operation namespace : String) where
  finish_rounds-ne-none :
      (original : Bytes) (o : Option (Exec (ℕ × PatchState)))
      → o ≢ none
      → finish_rounds lib stores operation namespace original o ≢ none
  finish_rounds-ne-none original none h = absurd (h refl)
  finish_rounds-ne-none original (some r) h = λ e. cc

  rounds_from-ne-none :
      (original : Bytes) (r : Result Value)
      → rounds_from lib stores operation namespace original r ≢ none
  rounds_from-ne-none original (err e) = λ h. cc
  rounds_from-ne-none original (ok v) = finish_rounds-ne-none original _ (
      run_tiers-ne-none (patches_at lib stores operation namespace)
        (apply_round lib stores operation namespace)
        (λ t c.
          get_matching_tier operation namespace t (stores c.0) lib mod_rule_type_patch c.1.jsonv)
        all_tiers min_int16 _ (omega arith) (omega arith))

  messages_of-ne-none :
      (o : Option (Exec (ℕ × List String)))
      → o ≢ none
      → messages_of lib stores operation namespace o ≢ none
  messages_of-ne-none none h = absurd (h refl)
  messages_of-ne-none (some r) h = λ e. cc

  -- However the store changes between the rounds, and whether it is well formed or not, the loops
  -- of `CalculatePatch` and of `DetermineRejections` over the tiers come to an end.
  pub during-ne-none :
      (original : Bytes) (v : Value)
      → (calculate_patch_during lib stores operation namespace original ≢ none)
        × (determine_rejections_during lib stores operation namespace v ≢ none)
  unfolding calculate_patch_during determine_rejections_during
  during-ne-none original v = (
    rounds_from-ne-none original (lib.unmarshal original),
    messages_of-ne-none _ (
        run_tiers-ne-none (rejects_at lib stores operation namespace v)
          (reject_round lib stores operation namespace v)
          (λ t c. get_matching_tier operation namespace t (stores c.0) lib mod_rule_type_reject v)
          all_tiers min_int16 (0, []) (omega arith) (omega arith)),
  )
