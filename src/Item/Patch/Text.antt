-- ===== src/Item/Patch/Text.antt =====
-- The text of a patch (core/modrulestoreitem.go, `calculatePatch`), without the builder and the
-- counter of the code.
use native.Mathlib.Omega.{arith}
use kubemod.Prelude.{
  true, ℕ, suc, String, ◌≡◌, refl, sym, ap, ◌∙◌, List, [], ◌∷◌, ◌++◌, ltb, if◌then◌else◌, Exec,
  done, ◌>>=◌, >>=_assoc, >>=-ext, lift, Result-cases, inl, inr,
}
use kubemod.Prelude.Text.{concat, join}
use kubemod.Prelude.Strings.{concat-nil, concat_nil, concat_assoc}
use kubemod.Json.{Value}
use kubemod.Library.{Library, patch_template_context}
use kubemod.Item.{ModRuleStoreItem, CompiledJsonPatchOperation}
use kubemod.Item.Patch.{
  PatchPathItem, PatchText, path_items, operation_text, append_operation, render_items,
  render_operations, calculate_patch,
}

module _ (lib : Library) (namespace : String) (target : Value) where
  -- The operation that a path item makes.
  pub item_operation : CompiledJsonPatchOperation → PatchPathItem → Exec String
  item_operation cop item =
      lift (
        cop.value_template
          (patch_template_context namespace target item.select_key_parts item.selected_item))
      >>= λ value.
          lift (lib.yaml_to_json value) >>= λ json. done (operation_text lib cop.op item.path json)

  pub item_operations : CompiledJsonPatchOperation → List PatchPathItem → Exec (List String)
  unfolding item_operation
  item_operations cop [] = done []
  item_operations cop (item ∷ items) =
      item_operation cop item >>= λ op. item_operations cop items >>= λ ops. done (op ∷ ops)

  -- The operations of a rule, in the order of its spec: all the paths of one before its values, and
  -- the first error ends it.
  unfoldable pub operations : List CompiledJsonPatchOperation → Exec (List String)
  unfolding item_operations
  operations [] = done []
  operations (cop ∷ cops) = path_items lib cop target >>= λ items.
      item_operations cop items >>= λ ops. operations cops >>= λ more. done (ops ++ more)

  abbrev append_all : PatchText → List String → PatchText
  append_all t [] = t
  append_all t (op ∷ ops) = append_all (append_operation lib t op) ops

  append_all-++ :
      (t : PatchText) (a b : List String) → append_all t (a ++ b) ≡ append_all (append_all t a) b
  append_all-++ t [] b = refl
  append_all-++ t (op ∷ a) b = append_all-++ (append_operation lib t op) a b

  render_items-operations :
      (cop : CompiledJsonPatchOperation) (items : List PatchPathItem) (t : PatchText)
      → render_items lib namespace target cop items t
        ≡ (item_operations cop items >>= λ ops. done (append_all t ops))
  unfolding render_items item_operations item_operation
  render_items-operations cop [] t = refl
  render_items-operations cop (item ∷ items) t =
      elim (Result-cases (
        cop.value_template
          (patch_template_context namespace target item.select_key_parts item.selected_item))) [
            | inr (e, failed) ↦ rw (item_operation, failed) refl
            | inl (value, made) ↦
                rw (item_operation, made)
                  (elim (Result-cases (lib.yaml_to_json value)) [
                    | inr (e, failed) ↦ rw failed refl
                    | inl (json, read) ↦ rw read (
                        render_items-operations cop items
                          (append_operation lib t (operation_text lib cop.op item.path json))
                        ∙ sym (>>=_assoc (item_operations cop items) _ _))
                  ])
          ]

  render_operations-operations :
      (cops : List CompiledJsonPatchOperation) (t : PatchText)
      → render_operations lib namespace target cops t
        ≡ (operations cops >>= λ ops. done (append_all t ops))
  unfolding render_operations operations
  render_operations-operations [] t = refl
  render_operations-operations (cop ∷ cops) t =
      >>=-ext (path_items lib cop target) _ _ (λ items.
        ap (λ m. m >>= λ t'. render_operations lib namespace target cops t')
          (render_items-operations cop items t)
        ∙ >>=_assoc (item_operations cop items) _ _
        ∙ >>=-ext (item_operations cop items) _ _ (λ ops.
          render_operations-operations cops (append_all t ops)
          ∙ >>=-ext (operations cops) _ _ (λ more. ap done (sym (append_all-++ t ops more)))
          ∙ sym (>>=_assoc (operations cops) _ _))
        ∙ sym (>>=_assoc (item_operations cop items) _ _))
      ∙ sym (>>=_assoc (path_items lib cop target) _ _)

  -- The operations behind the first one, each with a comma in front.
  commas : List String → String
  commas [] = ""
  commas (op ∷ ops) = concat "," (concat op (commas ops))

  join-commas : (op : String) (ops : List String) → join "," (op ∷ ops) ≡ concat op (commas ops)
  unfolding join commas
  join-commas op [] = sym (concat-nil op)
  join-commas op (o ∷ ops) = ap (λ s. concat op (concat "," s)) (join-commas o ops)

  append_all-commas :
      (text : String) (i : ℕ) (ops : List String)
      → (append_all (record { text = text; operation_index = suc i }) ops).text
        ≡ concat text (commas ops)
  unfolding append_operation commas
  append_all-commas text i [] = sym (concat-nil text)
  append_all-commas text i (op ∷ ops) =
      let behind : ltb 0 (suc i) ≡ true = ground arith in
      ap
        (λ b.
          (append_all
            (record {
              text = concat text (concat (if b then "," else "") op);
              operation_index = suc (suc i);
            })
            ops).text)
        behind
      ∙ append_all-commas (concat text (concat "," op)) (suc i) ops
      ∙ concat_assoc text (concat "," op) (commas ops)
      ∙ ap (concat text) (concat_assoc "," op (commas ops))

  append_all-join :
      (ops : List String)
      → (append_all (record { text = "["; operation_index = 0 }) ops).text
        ≡ concat "[" (join "," ops)
  unfolding append_operation join
  append_all-join [] = sym (concat-nil "[")
  append_all-join (op ∷ ops) =
      append_all-commas (concat "[" (concat "" op)) 0 ops
      ∙ ap (λ o. concat (concat "[" o) (commas ops)) (concat_nil op)
      ∙ concat_assoc "[" op (commas ops)
      ∙ ap (concat "[") (sym (join-commas op ops))

-- The patch of a rule is decoded from the JSON array of its operations, in the order of the rule:
-- the paths of each operation are made before its values, the first error ends the calculation, and
-- the operations are joined by commas.
pub calculate_patch-operations :
    (lib : Library) (si : ModRuleStoreItem) (namespace : String) (target : Value)
    → calculate_patch lib si namespace target ≡ (
        operations lib namespace target si.compiled_json_patch >>= λ ops.
        lift (lib.decode_patch (concat (concat "[" (join "," ops)) "]")))
unfolding calculate_patch
calculate_patch-operations lib si namespace target =
    let t : PatchText = record { text = "["; operation_index = 0 } in
    ap (λ m. m >>= λ t'. lift (lib.decode_patch (concat t'.text "]")))
      (render_operations-operations lib namespace target si.compiled_json_patch t)
    ∙ >>=_assoc (operations lib namespace target si.compiled_json_patch) _ _
    ∙ >>=-ext (operations lib namespace target si.compiled_json_patch) _ _ (λ ops.
      ap (λ s. lift (lib.decode_patch (concat s "]"))) (append_all-join lib namespace target ops))
