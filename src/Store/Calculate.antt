-- ===== src/Store/Calculate.antt =====
-- `CalculatePatch` and `DetermineRejections` (core/modrulestore.go). Both run the rules tier by
-- tier; the loop over the tiers takes as fuel a bound on the tiers left.
pub mod Tiers
pub mod Idle
pub mod Interleaved
pub mod Every
pub mod Finish
pub mod Patched
pub mod Split
pub mod Rejections
use kubemod.Prelude.{
  ℕ, zero, suc, String, ◌==◌, Bool, true, false, Option, none, some, List, [], ◌∷◌, ◌++◌,
  if◌then◌else◌, Result, ok, err, Error, Exec, done, fail, panic, ◌>>=◌, lift,
}
use kubemod.Prelude.Int16.{ℤ, eqb_ℤ, increment, max_int16, min_int16}
use kubemod.Prelude.Text.{concat}
use kubemod.Json.{Value}
use kubemod.Library.{Library, Bytes, Patch, Template, JsonPatchOperation, reject_template_context}
use kubemod.Api.{mod_rule_type_patch, mod_rule_type_reject, get_namespaced_name}
use kubemod.Item.{ModRuleStoreItem}
use kubemod.Item.Patch.{calculate_patch}
use kubemod.Store.{ModRuleStore}
use kubemod.Store.Annotation.{extract_last_applied_configuration, set_last_applied}
use kubemod.Store.Matching.{get_matching_mod_rule_store_items}

-- The `for` loop of both functions over a state `S`: `next` finds the rules of the first tier from
-- a number up, and `body` runs them. `none` means that the fuel ran out.
module _ {S : Type 0} (next : ℤ → S → Exec (List ModRuleStoreItem × ℤ))
    (body : List ModRuleStoreItem → S → Exec S) where
  abbrev go_on : (ℤ → S → Option (Exec S)) → ℤ → Exec S → Option (Exec S)
  go_on rest t (done s) = rest t s
  go_on rest t (fail e) = some (fail e)
  go_on rest t panic = some panic

  abbrev after_next :
      (ℤ → S → Option (Exec S)) → S → Exec (List ModRuleStoreItem × ℤ) → Option (Exec S)
  after_next rest s (done (rules, t)) =
      let more = go_on rest t (body rules s) in if eqb_ℤ t max_int16 then some (done s) else more
  after_next rest s (fail e) = some (fail e)
  after_next rest s panic = some panic

  unfoldable pub run_tiers : ℕ → ℤ → S → Option (Exec S)
  run_tiers zero t s = none
  run_tiers (suc fuel) t s = after_next (run_tiers fuel) s (next (increment t) s)

-- The number of an `int16`'s values bounds the tiers.
abbrev pub all_tiers : ℕ
all_tiers = 65536

-- The variables of `CalculatePatch` that its loop changes.
pub record PatchState : Type 0 where
  pub jsonv : Value
  pub modified_json : Bytes
  pub last_applied : Bytes

module _ (lib : Library) (s : ModRuleStore) (operation namespace : String) where
  abbrev patched_annotation : Patch → Bytes → Bytes
  patched_annotation epatch none = none
  patched_annotation epatch (some text) = (epatch (some text)).0

  -- The part of the loop's body after `json.Unmarshal` of the patched document.
  after_unmarshal : Patch → PatchState → Result Value → Exec PatchState
  after_unmarshal epatch st (err e) = fail e
  after_unmarshal epatch st (ok v) =
      done (record st { jsonv = v; last_applied = patched_annotation epatch st.last_applied })

  -- The part after `ApplyWithOptions`, whose document is assigned also on an error.
  after_apply : Patch → PatchState → Bytes × Option Error → Exec PatchState
  unfolding after_unmarshal
  after_apply epatch st (doc, some e) = done (record st { modified_json = doc })
  after_apply epatch st (doc, none) =
      after_unmarshal epatch (record st { modified_json = doc }) (lib.unmarshal doc)

  -- An error of `calculatePatch` is logged, and the loop goes on.
  after_calculate : PatchState → Exec Patch → Exec PatchState
  unfolding after_apply
  after_calculate st panic = panic
  after_calculate st (fail e) = done st
  after_calculate st (done epatch) = after_apply epatch st (epatch st.modified_json)

  -- The loop over the matching rules of one tier.
  unfoldable pub apply_rules : List ModRuleStoreItem → PatchState → Exec PatchState
  unfolding after_calculate
  apply_rules [] st = done st
  apply_rules (si ∷ items) st =
      after_calculate st (calculate_patch lib si namespace st.jsonv) >>= apply_rules items

  unfoldable pub patch_tiers : ℕ → PatchState → Option (Exec PatchState)
  unfolding apply_rules run_tiers
  patch_tiers fuel =
      run_tiers
        (λ t st.
          get_matching_mod_rule_store_items lib s operation namespace t mod_rule_type_patch
            st.jsonv)
        apply_rules fuel min_int16

  -- The end of `CalculatePatch`.
  abbrev with_annotation : PatchState → Exec PatchState
  with_annotation st = elim st.last_applied [
    | none ↦ done st
    | some text ↦ set_last_applied st.jsonv text >>= λ v.
        lift (lib.marshal v) >>= λ doc. done (record st { jsonv = v; modified_json = doc })
  ]

  unfoldable pub finish : Bytes → PatchState → Exec (Value × List JsonPatchOperation)
  finish original st = with_annotation st >>= λ st'.
      lift (lib.create_patch original st'.modified_json) >>= λ ops. done (st'.jsonv, ops)

  abbrev and_finish :
      Bytes → Option (Exec PatchState) → Option (Exec (Value × List JsonPatchOperation))
  and_finish original none = none
  and_finish original (some r) = some (r >>= finish original)

  abbrev from_value : Bytes → Result Value → Option (Exec (Value × List JsonPatchOperation))
  from_value original (err e) = some (fail e)
  from_value original (ok v) = and_finish original (
      patch_tiers all_tiers (record {
        jsonv = v;
        modified_json = original;
        last_applied = extract_last_applied_configuration v;
      }))

  unfoldable pub calculate_store_patch : Bytes → Option (Exec (Value × List JsonPatchOperation))
  unfolding finish
  calculate_store_patch original = from_value original (lib.unmarshal original)

  -- The message of one rule that rejects.
  unfoldable pub quoted : String → String → String
  quoted name message = concat name (concat ": \"" (concat message "\""))

  abbrev message_text : String → Result String → String
  message_text name (err e) = name
  message_text name (ok message) = quoted name message

  unfoldable pub rejection_message : Value → ModRuleStoreItem → String
  unfolding quoted
  rejection_message jsonv si = elim si.reject_message_template [
    | none ↦ get_namespaced_name si.mod_rule
    | some template ↦
        message_text (get_namespaced_name si.mod_rule)
          (template (reject_template_context namespace jsonv))
  ]

  -- The loop over the matching rules of one tier adds a message for each.
  unfoldable pub add_messages : Value → List ModRuleStoreItem → List String → List String
  unfolding rejection_message
  add_messages jsonv [] messages = messages
  add_messages jsonv (si ∷ items) messages =
      add_messages jsonv items (messages ++ rejection_message jsonv si ∷ [])

  unfoldable pub reject_tiers : ℕ → Value → Option (Exec (List String))
  unfolding add_messages run_tiers
  reject_tiers fuel jsonv =
      run_tiers
        (λ t messages.
          get_matching_mod_rule_store_items lib s operation namespace t mod_rule_type_reject jsonv)
        (λ rules messages. done (add_messages jsonv rules messages)) fuel min_int16 []

  unfoldable pub determine_rejections : Value → Option (Exec (List String))
  determine_rejections jsonv = reject_tiers all_tiers jsonv
