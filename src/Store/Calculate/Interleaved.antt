-- ===== src/Store/Calculate/Interleaved.antt =====
-- `CalculatePatch` and `DetermineRejections` (core/modrulestore.go) while other goroutines change the
-- store. Only each call of `getMatchingModRuleStoreItems` runs under the lock, so that `Put` and
-- `Delete` come between two rounds of a loop over the tiers. `stores i` is the store as the call in
-- round `i` finds it; the loop's state carries the number of the round. The helpers that take a
-- store here do not read it.
pub mod Ends
pub mod Applicable
pub mod Rejections
use kubemod.Prelude.{
  ℕ, zero, suc, String, Option, none, some, List, [], Result, ok, err, Exec, done, fail, panic,
  ◌>>=◌,
}
use kubemod.Prelude.Int16.{ℤ, min_int16}
use kubemod.Json.{Value}
use kubemod.Library.{Library, Bytes, JsonPatchOperation}
use kubemod.Api.{mod_rule_type_patch, mod_rule_type_reject}
use kubemod.Item.{ModRuleStoreItem}
use kubemod.Store.{ModRuleStore}
use kubemod.Store.Annotation.{extract_last_applied_configuration}
use kubemod.Store.Matching.{get_matching_mod_rule_store_items}
use kubemod.Store.Calculate.{run_tiers, all_tiers, PatchState, apply_rules, finish, add_messages}

module _ (lib : Library) (stores : ℕ → ModRuleStore) (operation namespace : String) where
  abbrev pub patches_at : ℤ → ℕ × PatchState → Exec (List ModRuleStoreItem × ℤ)
  patches_at t (i, st) =
      get_matching_mod_rule_store_items lib (stores i) operation namespace t mod_rule_type_patch
        st.jsonv

  abbrev pub apply_round : List ModRuleStoreItem → ℕ × PatchState → Exec (ℕ × PatchState)
  apply_round rules (i, st) =
      apply_rules lib (stores i) operation namespace rules st >>= λ st'. done (suc i, st')

  abbrev pub finish_rounds :
      Bytes → Option (Exec (ℕ × PatchState)) → Option (Exec (Value × List JsonPatchOperation))
  finish_rounds original none = none
  finish_rounds original (some r) =
      some (r >>= λ c. finish lib (stores c.0) operation namespace original c.1)

  abbrev pub rounds_from : Bytes → Result Value → Option (Exec (Value × List JsonPatchOperation))
  rounds_from original (err e) = some (fail e)
  rounds_from original (ok v) = finish_rounds original (
      run_tiers patches_at apply_round all_tiers min_int16 (
        0,
        record {
          jsonv = v;
          modified_json = original;
          last_applied = extract_last_applied_configuration v;
        },
      ))

  -- `CalculatePatch`.
  unfoldable pub calculate_patch_during : Bytes → Option (Exec (Value × List JsonPatchOperation))
  unfolding run_tiers apply_rules finish
  calculate_patch_during original = rounds_from original (lib.unmarshal original)

  abbrev pub rejects_at : Value → ℤ → ℕ × List String → Exec (List ModRuleStoreItem × ℤ)
  rejects_at v t (i, messages) =
      get_matching_mod_rule_store_items lib (stores i) operation namespace t mod_rule_type_reject v

  abbrev pub reject_round : Value → List ModRuleStoreItem → ℕ × List String → Exec (ℕ × List String)
  reject_round v rules (i, messages) =
      done (suc i, add_messages lib (stores 0) operation namespace v rules messages)

  abbrev pub messages_of : Option (Exec (ℕ × List String)) → Option (Exec (List String))
  messages_of none = none
  messages_of (some r) = some (r >>= λ c. done c.1)

  -- `DetermineRejections`.
  unfoldable pub determine_rejections_during : Value → Option (Exec (List String))
  unfolding run_tiers
  determine_rejections_during v =
      messages_of (run_tiers (rejects_at v) (reject_round v) all_tiers min_int16 (0, []))
