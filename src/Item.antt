-- ===== src/Item.antt =====
-- The store items (core/modrulestoreitem.go): a ModRule with its queries, regular expressions and
-- templates compiled. A cache keyed by the addresses `&matchItems[i]` is keyed by the indices `i`.
pub mod Accepted
pub mod Factory
pub mod Match
pub mod Patch
use kubemod.Prelude.{
  ℕ, suc, String, ◌==◌, Option, none, some, List, [], ◌∷◌, eqb, if◌then◌else◌, Result, ok, and_then,
}
use kubemod.Prelude.Text.{concat}
use kubemod.Library.{Library, Evaluable, Regexp, Template}
use kubemod.Api.{ModRule, MatchItem, PatchOperation}
use kubemod.Paths.{path_template_to_sprintf_template}
use kubemod.ValueTemplates.{pre_process_mod_rule_go_template}

pub record CompiledJsonPatchOperation : Type 0 where
  pub op : String
  pub patch_select : Option Evaluable
  pub path : String
  pub path_sprintf_template : String
  pub value_template : Template

-- A map from the indices of the match items.
abbrev pub Cache : Type 0 → Type 0
Cache A = List (ℕ × A)

unfoldable pub cached : {A : Type 0} → ℕ → Cache A → Option A
cached i [] = none
cached i ((j, a) ∷ c) = if eqb j i then some a else cached i c

pub record ModRuleStoreItem : Type 0 where
  pub mod_rule : ModRule
  pub compiled_target_namespace_regex : Option Regexp
  pub compiled_match_selects : Cache Evaluable
  pub compiled_regexes : Cache Regexp
  pub compiled_json_patch : List CompiledJsonPatchOperation
  pub reject_message_template : Option Template

module _ (lib : Library) where
  -- The first argument of these loops is the index of the next match item.
  unfoldable pub compiled_selects_from : ℕ → List MatchItem → Result (Cache Evaluable)
  compiled_selects_from i [] = ok []
  compiled_selects_from i (m ∷ ms) =
      and_then (lib.new_evaluable m.select)
        λ e. and_then (compiled_selects_from (suc i) ms) (λ cache. ok ((i, e) ∷ cache))

  unfoldable pub new_compiled_match_selects : List MatchItem → Result (Cache Evaluable)
  unfolding compiled_selects_from
  new_compiled_match_selects = compiled_selects_from 0

  abbrev with_regex : ℕ → Option String → Result (Cache Regexp) → Result (Cache Regexp)
  with_regex i none rest = rest
  with_regex i (some r) rest =
      and_then (lib.compile_regexp r) (λ rex. and_then rest (λ cache. ok ((i, rex) ∷ cache)))

  unfoldable pub compiled_regexes_from : ℕ → List MatchItem → Result (Cache Regexp)
  compiled_regexes_from i [] = ok []
  compiled_regexes_from i (m ∷ ms) = with_regex i m.match_regex (compiled_regexes_from (suc i) ms)

  unfoldable pub new_compiled_regexes : List MatchItem → Result (Cache Regexp)
  unfolding compiled_regexes_from
  new_compiled_regexes = compiled_regexes_from 0

  -- The value of a patch operation, JSON's `null` by default.
  abbrev pub patch_value : PatchOperation → String
  patch_value po = elim po.value [ none ↦ "null" | some v ↦ v ]

  -- A select expression is compiled as the key of a JSON object, `{#: select}`.
  abbrev pub select_expression : String → String
  select_expression s = concat "{#: " (concat s "}")

  abbrev pub compile_patch_select : Option String → Result (Option Evaluable)
  compile_patch_select none = ok none
  compile_patch_select (some s) =
      and_then (lib.new_evaluable (select_expression s)) (λ e. ok (some e))

  abbrev pub compile_patch_value : PatchOperation → Result Template
  compile_patch_value po =
      lib.parse_template po.path (pre_process_mod_rule_go_template (patch_value po))

  compile_patch_operation : PatchOperation → Result CompiledJsonPatchOperation
  compile_patch_operation po = and_then (compile_patch_select po.select) λ sel.
      and_then (compile_patch_value po) λ tpl. ok (record {
        op = po.operation;
        patch_select = sel;
        path = po.path;
        path_sprintf_template = path_template_to_sprintf_template lib po.path;
        value_template = tpl;
      })

  unfoldable pub new_compiled_json_patch :
      List PatchOperation → Result (List CompiledJsonPatchOperation)
  unfolding compile_patch_operation
  new_compiled_json_patch [] = ok []
  new_compiled_json_patch (po ∷ rest) =
      and_then (compile_patch_operation po)
        λ c. and_then (new_compiled_json_patch rest) (λ cs. ok (c ∷ cs))

  abbrev pub compile_target_regex : Option String → Result (Option Regexp)
  compile_target_regex none = ok none
  compile_target_regex (some r) =
      if r == "" then ok none else and_then (lib.compile_regexp r) (λ rex. ok (some rex))

  abbrev pub compile_reject_message : Option String → Result (Option Template)
  compile_reject_message none = ok none
  compile_reject_message (some m) =
      and_then (lib.parse_template "rejectMessage" m) (λ t. ok (some t))

  -- `NewModRuleStoreItem`.
  unfoldable pub new_mod_rule_store_item : ModRule → Result ModRuleStoreItem
  unfolding new_compiled_match_selects new_compiled_regexes new_compiled_json_patch
  new_mod_rule_store_item m =
      and_then (compile_target_regex m.spec.target_namespace_regex) λ target.
        and_then (new_compiled_match_selects m.spec.match) λ selects.
          and_then (new_compiled_regexes m.spec.match) λ regexes.
            and_then (new_compiled_json_patch m.spec.patch) λ patch.
              and_then (compile_reject_message m.spec.reject_message) λ message. ok (record {
                mod_rule = m;
                compiled_target_namespace_regex = target;
                compiled_match_selects = selects;
                compiled_regexes = regexes;
                compiled_json_patch = patch;
                reject_message_template = message;
              })
