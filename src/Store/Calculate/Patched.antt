-- ===== src/Store/Calculate/Patched.antt =====
-- `CalculatePatch` against its specification: the matching rules of every tier, from the lowest to
-- the greatest, each tier on the document that the tiers below have left.
use kubemod.Prelude.{ℕ, String, ◌≡◌, refl, some, [], ok, Exec, done, ◌>>=◌, arith}
use kubemod.Prelude.Int16.{increment, min_int16}
use kubemod.Json.{Value}
use kubemod.Library.{Library, Bytes}
use kubemod.Api.{mod_rule_type_patch}
use kubemod.Store.{ModRuleStore}
use kubemod.Store.Contents.{IsValid}
use kubemod.Store.Annotation.{extract_last_applied_configuration}
use kubemod.Store.Calculate.{
  calculate_store_patch, patch_tiers, apply_rules, finish, PatchState, all_tiers,
}
use kubemod.Store.Calculate.Every.{every_tier, run_tiers-every_tier}

-- The number of tiers between the two ends of an `int16`.
abbrev pub inner_tiers : ℕ
inner_tiers = 65534

-- Every tier in turn, with no jumps and no fuel.
abbrev pub patched_by_tiers :
    Library → ModRuleStore → String → String → PatchState → Exec PatchState
patched_by_tiers lib s operation namespace =
    every_tier lib s operation namespace mod_rule_type_patch (λ (st : PatchState). st.jsonv)
      (apply_rules lib s operation namespace) inner_tiers (increment min_int16)

module _ (lib : Library) (s : ModRuleStore) (operation namespace : String) where
  nothing_to_apply : (st : PatchState) → apply_rules lib s operation namespace [] st ≡ done st
  unfolding apply_rules
  nothing_to_apply st = refl

  patch_tiers-patched_by_tiers :
      (st : PatchState)
      → IsValid lib s
      → patch_tiers lib s operation namespace all_tiers st
        ≡ some (patched_by_tiers lib s operation namespace st)
  unfolding patch_tiers increment
  patch_tiers-patched_by_tiers st valid =
      run_tiers-every_tier lib s operation namespace mod_rule_type_patch
        (λ (st' : PatchState). st'.jsonv) (apply_rules lib s operation namespace) valid
        nothing_to_apply all_tiers inner_tiers min_int16 st (omega arith) (omega arith)
        (omega (arith))

  -- On a well-formed store and a document that can be read, `CalculatePatch` ends, and does what a
  -- plain loop over every tier between the two ends of an `int16` does: to apply in each tier the
  -- applicable Patch rules that match the document as the tiers below left it; then it compares the
  -- result with the original. Jumping from tier to tier leaves no rule out and repeats none.
  pub calculate_store_patch-patched_by_tiers :
      (original : Bytes) (v : Value)
      → IsValid lib s
      → lib.unmarshal original ≡ ok v
      → calculate_store_patch lib s operation namespace original
        ≡ some (
            patched_by_tiers lib s operation namespace (record {
              jsonv = v;
              modified_json = original;
              last_applied = extract_last_applied_configuration v;
            })
            >>= finish lib s operation namespace original)
  unfolding calculate_store_patch
  calculate_store_patch-patched_by_tiers original v valid decoded =
      rw (decoded, patch_tiers-patched_by_tiers _ valid)
