-- ===== src/PodBinding.antt =====
-- `PodBindingWebhookHandler` (core/podbindingwebhook.go), which notes the node of a pod in an
-- annotation of the pod when the pod is bound.
pub mod Spec
pub mod NodeRef
use kubemod.Prelude.{
  String, ◌==◌, Bool, true, false, ◌&&◌, Option, none, some, List, [], ◌∷◌, if◌then◌else◌, Result,
  ok, err, and_then, Error, ◌≡◌, refl, arith, eq_iff, ◌≢◌,
}
use kubemod.Prelude.Dict
use kubemod.Prelude.Dict.{Dict, get-put}
use kubemod.Prelude.Text.{concat}
use kubemod.Json.{Fields}
use kubemod.Library.{Bytes}
use kubemod.Kubernetes.{Kubernetes, Response, allowed}

pub record BindingRequest : Type 0 where
  pub resource : String
  pub sub_resource : String
  pub object_raw : Bytes

-- `podNamespace`, `podName` and `nodeName`.
pub record Targets : Type 0 where
  pub pod_namespace : String
  pub pod_name : String
  pub node_name : String

-- The tests after each `NestedString`: the one on `ok` stands first.
target_text : String → String × Bool × Option Error → Result String
target_text path (s, false, e) =
    err (concat "unable to find " (concat path " in pod binding manifest"))
target_text path (s, true, some e) =
    err (concat "failed to obtain " (concat path (concat " from pod binding manifest: " e)))
target_text path (s, true, none) = ok s

abbrev pub inject_ref_key : String
inject_ref_key = "ref.kubemod.io/inject-node-ref"

abbrev pub node_name_key : String
node_name_key = "ref.kubemod.io/nodename"

-- `injectNodeSyntheticRef, ok := annotations[…]; ok && … == "true"`.
unfoldable pub is_true : Option String → Bool
is_true none = false
is_true (some s) = s == "true"

unfoldable pub or_empty_map : Option (Dict String) → Dict String
or_empty_map none = []
or_empty_map (some m) = m

module _ (k : Kubernetes) where
  unfoldable pub get_binding_targets : Fields → Result Targets
  unfolding target_text
  get_binding_targets binding =
      and_then
        (target_text "metadata.namespace" (k.nested_string binding ("metadata" ∷ "namespace" ∷ [])))
        λ namespace.
          and_then
            (target_text "metadata.name" (k.nested_string binding ("metadata" ∷ "name" ∷ [])))
            λ name.
              and_then
                (target_text "target.name" (k.nested_string binding ("target" ∷ "name" ∷ [])))
                λ node. ok (record { pod_namespace = namespace; pod_name = name; node_name = node })

  update_response : Option Error → Response
  update_response none = allowed "ok"
  update_response (some e) = allowed "failed to obtain pod"

  -- The pod that is sent to the API server.
  unfoldable pub annotated : String → Dict String → Fields → Fields
  annotated node annotations pod =
      k.set_annotations (some (Dict.put node_name_key node annotations)) pod

  -- The answer, and the pods that `client.Update` is called with.
  with_pod : Targets → Result Fields → Response × List Fields
  unfolding or_empty_map is_true annotated update_response
  with_pod t (err e) = (allowed "failed to obtain pod", [])
  with_pod t (ok pod) =
      let annotations = or_empty_map (k.get_annotations pod) in
      if is_true (Dict.get inject_ref_key annotations)
      then (
        update_response (k.update_pod (annotated t.node_name annotations pod)),
        annotated t.node_name annotations pod ∷ [],
      )
      else (allowed "ok", [])

  with_targets : Result Targets → Response × List Fields
  unfolding with_pod
  with_targets (err e) = (allowed "failed to obtain target data from pod binding", [])
  with_targets (ok t) = with_pod t (k.get_pod t.pod_namespace t.pod_name)

  with_binding : Result Fields → Response × List Fields
  unfolding with_targets get_binding_targets
  with_binding (err e) =
      (allowed "failed to decode webhook request object's manifest into JSON", [])
  with_binding (ok binding) = with_targets (get_binding_targets binding)

  unfoldable pub handle : BindingRequest → Response × List Fields
  unfolding with_binding
  handle req =
      if req.resource == "pods" && req.sub_resource == "binding"
      then with_binding (k.decode req.object_raw)
      else (allowed "ok", [])
