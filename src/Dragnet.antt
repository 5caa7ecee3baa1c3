-- ===== src/Dragnet.antt =====
-- `DragnetWebhookHandler` (core/dragnetwebhook.go), the mutating admission webhook.
pub mod Spec
pub mod Outcome
pub mod During
pub mod References
pub mod Inject
use kubemod.Prelude.{
  String, ◌==◌, Bool, true, false, ◌&&◌, not, Option, none, some, List, [], ◌∷◌, if◌then◌else◌,
  Result, ok, err, and_then, Error, Exec, done, fail, panic,
}
use kubemod.Prelude.Dict
use kubemod.Prelude.Dict.{Dict}
use kubemod.Prelude.Text.{concat, join}
use kubemod.Json.{Value, object, Fields, end, set_field}
use kubemod.Library.{Library, Bytes, JsonPatchOperation}
use kubemod.Kubernetes.{Kubernetes, Response, allowed, denied, patched}
use kubemod.Store.{ModRuleStore}
use kubemod.Store.Annotation.{last_applied_key}
use kubemod.Store.Calculate.{calculate_store_patch, determine_rejections}

pub record GroupVersionKind : Type 0 where
  pub group : String
  pub version : String
  pub kind : String

pub record Request : Type 0 where
  pub operation : String
  pub namespace : String
  pub kind : GroupVersionKind
  pub object_raw : Bytes
  pub old_object_raw : Bytes

-- The object of a deletion is the one that is deleted.
abbrev pub request_object : Request → Bytes
request_object req = if req.operation == "DELETE" then req.old_object_raw else req.object_raw

-- A Namespace object has no namespace, whatever the request says.
abbrev pub store_namespace : Request → String
store_namespace req =
    if req.kind.group == "" && req.kind.version == "v1" && req.kind.kind == "Namespace"
    then ""
    else req.namespace

module _ (k : Kubernetes) where
  pub found_text : String → String × Bool × Option Error → Bool
  found_text text (s, true, none) = s == text
  found_text text _ = false

  unfoldable pub is_pod : Fields → Bool
  unfolding found_text
  is_pod obj = found_text "Pod" (k.nested_string obj ("kind" ∷ []))

  wrapped : String → Result Fields → Result Fields
  wrapped text (ok fs) = ok fs
  wrapped text (err e) = err (concat text e)

  pub remove_last_applied : Option (Dict String) → Option (Dict String)
  remove_last_applied none = none
  remove_last_applied (some m) = some (Dict.remove last_applied_key m)

  inject_namespace_synthetic_ref : String → Fields → Result Fields
  unfolding wrapped remove_last_applied
  inject_namespace_synthetic_ref namespace refs =
      and_then
        (wrapped (concat "failed to retrieve namespace '" (concat namespace "' : "))
          (k.get_namespace namespace))
        λ ns.
          let ns' = k.drop_managed_fields ns in
          ok (
            set_field "namespace"
              (object (k.set_annotations (remove_last_applied (k.get_annotations ns')) ns')) refs)

  inject_pod_node_synthetic_ref : String → Fields → Result Fields
  unfolding wrapped
  inject_pod_node_synthetic_ref node refs =
      and_then (wrapped (concat "failed to retrieve node '" (concat node "': ")) (k.get_node node))
        λ n. ok (set_field "node" (object (k.drop_managed_fields n)) refs)

  -- The node that the pod binding webhook noted, if it is there and not empty.
  node_refs : String × Bool × Option Error → Fields → Result Fields
  unfolding wrapped inject_pod_node_synthetic_ref
  node_refs (node, true, none) refs =
      if node == ""
      then ok refs
      else wrapped "failed to inject node synthetic ref: " (inject_pod_node_synthetic_ref node refs)
  node_refs _ refs = ok refs

  namespace_refs : String → Result Fields
  unfolding wrapped inject_namespace_synthetic_ref
  namespace_refs namespace =
      if namespace == ""
      then ok end
      else wrapped "failed to inject namespace synthetic ref: "
          (inject_namespace_synthetic_ref namespace end)

  pod_refs : Fields → Fields → Result Fields
  unfolding node_refs is_pod
  pod_refs obj refs =
      if is_pod obj
      then node_refs
          (k.nested_string obj ("metadata" ∷ "annotations" ∷ "ref.kubemod.io/nodename" ∷ [])) refs
      else ok refs

  unfoldable pub inject_synthetic_refs : Bytes → String → Result Bytes
  unfolding namespace_refs pod_refs wrapped
  inject_synthetic_refs original namespace = and_then (namespace_refs namespace) λ refs.
      and_then
        (wrapped "failed to decode webhook request object's manifest into JSON: "
          (k.decode original))
        λ obj.
          and_then (pod_refs obj refs)
            λ refs'. k.encode (k.drop_managed_fields (set_field "syntheticRefs" (object refs') obj))

module _ (lib : Library) (k : Kubernetes) (s : ModRuleStore) where
  -- The answer to an object that no rule rejects.
  pub patch_response : List JsonPatchOperation → Response
  patch_response [] = allowed "non-patched ok"
  patch_response (op ∷ ops) = patched "patched ok" (op ∷ ops)

  unfoldable pub rejection_response : List JsonPatchOperation → List String → Response
  unfolding patch_response
  rejection_response ops [] = patch_response ops
  rejection_response ops (m ∷ ms) =
      denied (concat "operation rejected by the following ModRule(s): " (join "," (m ∷ ms)))

  abbrev respond : List JsonPatchOperation → Option (Exec (List String)) → Option (Exec Response)
  respond ops none = none
  respond ops (some panic) = some panic
  respond ops (some (fail e)) = some (fail e)
  respond ops (some (done messages)) = some (done (rejection_response ops messages))

  -- An error of `CalculatePatch` lets the object pass.
  abbrev after_patch :
      Request → Option (Exec (Value × List JsonPatchOperation)) → Option (Exec Response)
  after_patch req none = none
  after_patch req (some panic) = some panic
  after_patch req (some (fail e)) = some (done (allowed "failed to calculate patch"))
  after_patch req (some (done (jsonv, ops))) =
      respond ops (determine_rejections lib s req.operation (store_namespace req) jsonv)

  abbrev after_inject : Request → Result Bytes → Option (Exec Response)
  after_inject req (err e) =
      some (done (allowed "failed to inject syntheticRefs into object manifest"))
  after_inject req (ok obj) =
      after_patch req (calculate_store_patch lib s req.operation (store_namespace req) obj)

  -- `Handle`; `none` means that a loop over the tiers ran out of fuel.
  unfoldable pub handle : Request → Option (Exec Response)
  unfolding rejection_response
  handle req = after_inject req (inject_synthetic_refs k (request_object req) (store_namespace req))
