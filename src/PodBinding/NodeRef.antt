-- ===== src/PodBinding/NodeRef.antt =====
-- From the pod binding webhook (core/podbindingwebhook.go) to the admission webhook
-- (core/dragnetwebhook.go): the node that the first notes in a pod is the one whose manifest the
-- second puts into the references of the pod.
use kubemod.Prelude.{
  ok-injective, Error, String, ◌==◌, eq_iff, ◌≡◌, sym, ap, subst, ◌∙◌, Bool, true, false, ◌&&◌,
  Option, none, some, [], ◌∷◌, Result, ok, err, arith, Bool-cases, inl, inr,
}
use kubemod.Prelude.Dict
use kubemod.Prelude.Dict.{Dict, get-put}
use kubemod.Prelude.Member.{In}
use kubemod.Json.{object, Fields, get_field, set_field}
use kubemod.Library.{Bytes}
use kubemod.Kubernetes.{Kubernetes}
use kubemod.PodBinding.{
  BindingRequest, Targets, handle, with_binding, with_targets, with_pod, annotated,
  get_binding_targets, or_empty_map, node_name_key,
}
use kubemod.PodBinding.Spec.{asks}
use kubemod.Dragnet.{inject_synthetic_refs, is_pod}
use kubemod.Dragnet.Inject.{inject_synthetic_refs-ok}
use kubemod.Dragnet.References.{NodeRef, node_annotation, is_pod-IsPod, no_pod, no_node, of_node}

-- What the accessors of unstructured objects document: an annotation that was set is found.
abbrev pub FindsAnnotations : Kubernetes → Type 0
FindsAnnotations k =
    (m : Dict String) (pod : Fields) (key v : String)
    → Dict.get key m ≡ some v
    → k.nested_string (k.set_annotations (some m) pod) ("metadata" ∷ "annotations" ∷ key ∷ [])
      ≡ (v, true, none)

module _ (k : Kubernetes) where
  -- A pod of a request's updates is one that the targets' node was noted in.
  abbrev NotedIn : String → Fields → Type 0
  NotedIn node p =
      (annotations : Dict String) × (pod : Fields) × (p ≡ annotated k node annotations pod)

  with_pod-NotedIn :
      (t : Targets) (r : Result Fields) (p : Fields)
      → In p (with_pod k t r).1
      → NotedIn t.node_name p
  unfolding with_pod
  with_pod-NotedIn t (err e) p i = absurd i
  with_pod-NotedIn t (ok pod) p i = elim (Bool-cases (asks k pod)) [
    | inr it_does_not ↦ absurd (rw it_does_not at i)
    | inl it_does ↦
        let only : In p (annotated k t.node_name (or_empty_map (k.get_annotations pod)) pod ∷ []) =
          rw it_does at i in
        elim only [
          | inl same ↦ (or_empty_map (k.get_annotations pod), pod, same)
          | inr h ↦ absurd h
        ]
  ]

  handle-NotedIn :
      (req : BindingRequest) (binding p : Fields) (t : Targets)
      → k.decode req.object_raw ≡ ok binding
      → get_binding_targets k binding ≡ ok t
      → In p (handle k req).1
      → NotedIn t.node_name p
  unfolding handle with_binding with_targets
  handle-NotedIn req binding p t decoded found i =
      elim (Bool-cases (req.resource == "pods" && req.sub_resource == "binding")) [
        | inr other ↦ absurd (rw other at i)
        | inl bound ↦
            with_pod-NotedIn t (k.get_pod t.pod_namespace t.pod_name) p
              (rw (bound, decoded, found) at i)
      ]

  noted-node_annotation :
      FindsAnnotations k
      → (node : String) (p : Fields) → NotedIn node p
      → node_annotation k p ≡ (node, true, none)
  unfolding annotated
  noted-node_annotation finds node p (annotations, pod, same) =
      ap (node_annotation k) same
      ∙ finds (Dict.put node_name_key node annotations) pod node_name_key node
          (get-put node_name_key node_name_key node annotations)

  -- Let the accessors find an annotation that was set. If the binding webhook sends a pod to the API
  -- server, for a binding whose targets are read and name a node, and the pod comes as it was sent to
  -- the admission webhook, and its references are injected, then they hold that node as the API
  -- server returns it, without its managed fields.
  pub bound_pod-NodeRef :
      FindsAnnotations k
      → (req : BindingRequest) (binding p : Fields) (t : Targets) (raw out : Bytes)
        (namespace : String)
      → k.decode req.object_raw ≡ ok binding
      → get_binding_targets k binding ≡ ok t
      → In p (handle k req).1
      → (t.node_name == "") ≡ false
      → k.decode raw ≡ ok p
      → is_pod k p ≡ true
      → inject_synthetic_refs k raw namespace ≡ ok out
      → (refs n : Fields) × (k.get_node t.node_name ≡ ok n)
        × (get_field "node" refs ≡ some (object (k.drop_managed_fields n)))
        × (k.encode (k.drop_managed_fields (set_field "syntheticRefs" (object refs) p)) ≡ ok out)
  bound_pod-NodeRef finds req binding p t raw out namespace bound found sent named decoded pod h =
      let (obj, refs, decoded', encoded, _, node) =
        inject_synthetic_refs-ok k raw out namespace h in
      let same : obj ≡ p = ok-injective (sym decoded' ∙ decoded) in
      let noted : node_annotation k p ≡ (t.node_name, true, none) =
        noted-node_annotation finds t.node_name p
          (handle-NotedIn req binding p t bound found sent) in
      let node' : NodeRef k p (get_field "node" refs) =
        subst (λ o. NodeRef k o (get_field "node" refs)) same node in
      let encoded' =
        subst
          (λ o.
            k.encode (k.drop_managed_fields (set_field "syntheticRefs" (object refs) o)) ≡ ok out)
          same encoded in
      elim node' [
        | no_pod other none_there ↦ absurd (other (is_pod-IsPod k p pod))
        | no_node unnamed none_there ↦
            absurd (ground (arith, named, eq_iff t.node_name "", unnamed t.node_name noted))
        | of_node node n is_one found' nonempty got there ↦
            let same_node : node ≡ t.node_name =
              ap (λ (a : String × Bool × Option Error). a.0) (sym found' ∙ noted) in
            (refs, n, subst (λ m. k.get_node m ≡ ok n) same_node got, there, encoded')
      ]
