-- ===== src/Item/Factory.antt =====
-- What `NewModRuleStoreItem` succeeding means: every part of the ModRule compiled.
use kubemod.Prelude.{◌≡◌, refl, ok, ok-injective, and_then-eq-ok, subst}
use kubemod.Library.{Library}
use kubemod.Api.{ModRule}
use kubemod.Item.{
  ModRuleStoreItem, new_mod_rule_store_item, compile_target_regex, new_compiled_match_selects,
  new_compiled_regexes, new_compiled_json_patch, compile_reject_message,
}

-- The item holds the ModRule and the compiled form of each of its parts.
pub record IsCompiledFrom (lib : Library) (r : ModRule) (si : ModRuleStoreItem) : Type 0 where
  pub mod_rule : si.mod_rule ≡ r
  pub target :
      compile_target_regex lib r.spec.target_namespace_regex ≡ ok si.compiled_target_namespace_regex
  pub selects : new_compiled_match_selects lib r.spec.match ≡ ok si.compiled_match_selects
  pub regexes : new_compiled_regexes lib r.spec.match ≡ ok si.compiled_regexes
  pub patch : new_compiled_json_patch lib r.spec.patch ≡ ok si.compiled_json_patch
  pub message : compile_reject_message lib r.spec.reject_message ≡ ok si.reject_message_template

module _ (lib : Library) (r : ModRule) where
  pub new_mod_rule_store_item-IsCompiledFrom :
      (si : ModRuleStoreItem) → new_mod_rule_store_item lib r ≡ ok si → IsCompiledFrom lib r si
  unfolding new_mod_rule_store_item
  new_mod_rule_store_item-IsCompiledFrom si h =
      let (target, t, h₁) =
        and_then-eq-ok (compile_target_regex lib r.spec.target_namespace_regex) _ h in
      let (selects, s, h₂) = and_then-eq-ok (new_compiled_match_selects lib r.spec.match) _ h₁ in
      let (regexes, x, h₃) = and_then-eq-ok (new_compiled_regexes lib r.spec.match) _ h₂ in
      let (patch, p, h₄) = and_then-eq-ok (new_compiled_json_patch lib r.spec.patch) _ h₃ in
      let (message, m, h₅) =
        and_then-eq-ok (compile_reject_message lib r.spec.reject_message) _ h₄ in
      subst (IsCompiledFrom lib r) (ok-injective h₅)
        (record { mod_rule = refl; target = t; selects = s; regexes = x; patch = p; message = m })

  -- The factory makes an item exactly from a ModRule all of whose parts compile.
  pub IsCompiledFrom-new_mod_rule_store_item :
      (si : ModRuleStoreItem) → IsCompiledFrom lib r si → new_mod_rule_store_item lib r ≡ ok si
  unfolding new_mod_rule_store_item
  IsCompiledFrom-new_mod_rule_store_item si c =
      rw (c.target, c.selects, c.regexes, c.patch, c.message, ← c.mod_rule) refl
