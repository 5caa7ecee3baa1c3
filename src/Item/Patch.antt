-- ===== src/Item/Patch.antt =====
-- `calculatePatch` (core/modrulestoreitem.go).
pub mod Text
pub mod Missing
use kubemod.Prelude.{
  ℕ, suc, String, none, some, List, [], ◌∷◌, ltb, if◌then◌else◌, Result, ok, err, Exec, done, fail,
  panic, ◌>>=◌, lift,
}
use kubemod.Prelude.Text.{concat}
use kubemod.Json.{Value, null, object, Fields, end, field}
use kubemod.Library.{Library, KeyPart, Patch, patch_template_context}
use kubemod.Paths.{contains, key_parts_from_select_key, path_from_key_parts}
use kubemod.Item.{ModRuleStoreItem, CompiledJsonPatchOperation}

pub record PatchPathItem : Type 0 where
  pub path : String
  pub select_key_parts : List KeyPart
  pub selected_item : Value

pub bad_path_error : String → String → String
bad_path_error template path =
    concat "failed to generate Patch path from path template \""
      (concat template (concat "\": generated value \"" (concat path "\" ")))

-- Each step of the loop over the operations adds to the text of the patch, and counts the
-- operations that it holds.
pub record PatchText : Type 0 where
  pub text : String
  pub operation_index : ℕ

module _ (lib : Library) where
  -- The loop over the results of a select expression.
  pub selected_path_items : CompiledJsonPatchOperation → Fields → Exec (List PatchPathItem)
  unfolding bad_path_error
  selected_path_items cop end = done []
  selected_path_items cop (field key val rest) =
      let parts = key_parts_from_select_key key in
      let path = path_from_key_parts lib parts cop.path_sprintf_template in
      if contains "(BADINDEX)" path
      then fail (bad_path_error cop.path path)
      else selected_path_items cop rest >>= λ items.
          done (record { path = path; select_key_parts = parts; selected_item = val } ∷ items)

  -- `result.(map[string]interface{})` has no check.
  select_result : CompiledJsonPatchOperation → Result Value → Exec (List PatchPathItem)
  unfolding selected_path_items
  select_result cop (err e) = fail e
  select_result cop (ok (object fs)) = selected_path_items cop fs
  select_result cop (ok _) = panic

  pub path_items : CompiledJsonPatchOperation → Value → Exec (List PatchPathItem)
  unfolding select_result
  path_items cop jsonv = elim cop.patch_select [
    | some select ↦ select_result cop (select jsonv)
    | none ↦ done (record { path = cop.path; select_key_parts = []; selected_item = null } ∷ [])
  ]

  pub operation_text : String → String → String → String
  operation_text op path value = concat "{\"op\": \"" (
      concat op
        (concat "\", \"path\": \"" (concat path (concat "\", \"value\": " (concat value "}")))))

  append_operation : PatchText → String → PatchText
  append_operation t op = record {
    text = concat t.text (concat (if ltb 0 t.operation_index then "," else "") op);
    operation_index = suc t.operation_index;
  }

  -- The loop over the path items of one operation.
  render_items :
      String → Value → CompiledJsonPatchOperation → List PatchPathItem → PatchText → Exec PatchText
  unfolding operation_text append_operation
  render_items namespace target cop [] t = done t
  render_items namespace target cop (item ∷ items) t =
      lift (
        cop.value_template
          (patch_template_context namespace target item.select_key_parts item.selected_item))
      >>= λ value. lift (lib.yaml_to_json value) >>= λ json.
          render_items namespace target cop items
            (append_operation t (operation_text cop.op item.path json))

  -- The loop over the operations.
  render_operations : String → Value → List CompiledJsonPatchOperation → PatchText → Exec PatchText
  unfolding path_items render_items
  render_operations namespace target [] t = done t
  render_operations namespace target (cop ∷ cops) t = path_items cop target >>= λ items.
      render_items namespace target cop items t >>= λ t'. render_operations namespace target cops t'

  -- The target of the template context is the value that the patch is calculated for.
  unfoldable pub calculate_patch : ModRuleStoreItem → String → Value → Exec Patch
  unfolding render_operations
  calculate_patch si namespace target =
      render_operations namespace target si.compiled_json_patch
        (record { text = "["; operation_index = 0 })
      >>= λ t. lift (lib.decode_patch (concat t.text "]"))
