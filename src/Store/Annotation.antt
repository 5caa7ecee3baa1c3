-- ===== src/Store/Annotation.antt =====
-- The annotation in which kubectl keeps the configuration that was last applied
-- (core/modrulestore.go: `getValueFromJSONObject`, `extractLastAppliedConfiguration`, and the end
-- of `CalculatePatch`, which writes it back).
pub mod Written
use kubemod.Prelude.{String, Option, none, some, List, [], ◌∷◌, Exec, done, panic, ◌>>=◌, expect}
use kubemod.Prelude.Text.{split}
use kubemod.Json.{Value, string, object, Fields, get_field, set_field, as_object}
use kubemod.Library.{Bytes}

abbrev pub last_applied_key : String
last_applied_key = "kubectl.kubernetes.io/last-applied-configuration"

-- The loop over the components of a path. A component that is not the last must hold an object.
unfoldable pub value_at : Fields → List String → Option Value
value_at node [] = none
value_at node (c ∷ []) = get_field c node
value_at node (c ∷ d ∷ rest) = elim (get_field c node) [
  | some (object fs) ↦ value_at fs (d ∷ rest)
  | _ ↦ none
]

-- `getValueFromJSONObject`; `none` is Go's nil.
unfoldable pub get_value_from_json_object : Value → String → Option Value
unfolding value_at get_field split
get_value_from_json_object (object fs) path = value_at fs (split b':' path)
get_value_from_json_object _ path = none

-- `[]byte(bc)` of a string is never nil.
abbrev text_of : Option Value → Bytes
text_of (some (string s)) = some s
text_of _ = none

unfoldable pub extract_last_applied_configuration : Value → Bytes
unfolding get_value_from_json_object
extract_last_applied_configuration v = text_of (
    get_value_from_json_object v
      "metadata:annotations:kubectl.kubernetes.io/last-applied-configuration")

-- `jsonv.(map…)["metadata"].(map…)["annotations"].(map…)` has no check: a step that finds another
-- value panics.
abbrev field_object : String → Fields → Exec Fields
field_object k fs = elim (get_field k fs) [ some (object gs) ↦ done gs | _ ↦ panic ]

unfoldable pub set_last_applied : Value → String → Exec Value
unfolding get_field set_field
set_last_applied v text = expect (as_object v) >>= λ root.
    field_object "metadata" root >>= λ metadata.
    field_object "annotations" metadata >>= λ annotations. done (
      object (
        set_field "metadata"
          (object (
            set_field "annotations" (object (set_field last_applied_key (string text) annotations))
              metadata))
          root))
