-- ===== src/PodBinding/Spec.antt =====
-- What the binding webhook answers, and when it changes a pod.
use kubemod.Prelude.{
  ◌==◌, ◌≡◌, refl, Bool, true, false, ◌&&◌, Option, none, some, List, [], ◌∷◌, Result, ok, err,
  Error, Bool-cases, inl, inr, String, sym, subst, ap, ◌∙◌, ◌⊎◌, and_then-eq-ok, ok-injective,
  Result-cases,
}
use kubemod.Prelude.Dict
use kubemod.Json.{Fields}
use kubemod.Kubernetes.{Kubernetes, Response, allowed}
use kubemod.PodBinding.{
  BindingRequest, Targets, handle, with_binding, with_targets, with_pod, annotated,
  get_binding_targets, is_true, target_text, or_empty_map, inject_ref_key, update_response,
}

abbrev pub is_allowed : Response → Bool
is_allowed (allowed text) = true
is_allowed _ = false

-- The pod asks for the reference to its node.
abbrev pub asks : Kubernetes → Fields → Bool
asks k pod = is_true (Dict.get inject_ref_key (or_empty_map (k.get_annotations pod)))

-- A request binds a pod to a node, and the pod asks for the reference: the binding's manifest names
-- the namespace and the name of the pod, and the node.
pub record AsksFor (k : Kubernetes) (req : BindingRequest) (pod : Fields) (node : String)
    : Type 0 where
  pub binding : Fields
  pub namespace : String
  pub name : String
  pub is_binding : (req.resource == "pods" && req.sub_resource == "binding") ≡ true
  pub decoded : k.decode req.object_raw ≡ ok binding
  pub of_namespace :
      k.nested_string binding ("metadata" ∷ "namespace" ∷ []) ≡ (namespace, true, none)
  pub of_name : k.nested_string binding ("metadata" ∷ "name" ∷ []) ≡ (name, true, none)
  pub of_node : k.nested_string binding ("target" ∷ "name" ∷ []) ≡ (node, true, none)
  pub got : k.get_pod namespace name ≡ ok pod
  pub asked : asks k pod ≡ true

-- The updates that a request calls for.
pub data Updates (k : Kubernetes) (req : BindingRequest) : List Fields → Type 0 where
  no_update : ((pod : Fields) (node : String) → AsksFor k req pod node → ⊥) → Updates k req []
  one_update :
      (pod : Fields) (node : String)
      → AsksFor k req pod node
      → Updates k req (annotated k node (or_empty_map (k.get_annotations pod)) pod ∷ [])

target_text-eq-ok :
    (path s : String) (o : String × Bool × Option Error)
    → target_text path o ≡ ok s
    → o ≡ (s, true, none)
unfolding target_text
target_text-eq-ok path s (s', false, e) h = absurd (cc)
target_text-eq-ok path s (s', true, some e) h = absurd (cc)
target_text-eq-ok path s (s', true, none) h = ap (λ t. (t, true, none)) (ok-injective h)

module _ (k : Kubernetes) (req : BindingRequest) where
  handle-AsksFor :
      (pod : Fields) (node : String)
      → AsksFor k req pod node
      → (handle k req).1 ≡ annotated k node (or_empty_map (k.get_annotations pod)) pod ∷ []
  unfolding handle with_binding with_targets with_pod get_binding_targets target_text
  handle-AsksFor pod node a =
      rw (a.is_binding, a.decoded, a.of_namespace, a.of_name, a.of_node, a.got, a.asked) refl

  -- No pod is sent, or the one that the request asks for.
  abbrev Sends : List Fields → Type 0
  Sends updates =
      (updates ≡ [])
      ⊎ ((pod : Fields) × (node : String) × AsksFor k req pod node
          × (updates ≡ annotated k node (or_empty_map (k.get_annotations pod)) pod ∷ []))

  abbrev Answered : Response × List Fields → Type 0
  Answered x = Sends x.1 × (is_allowed x.0 ≡ true)

  module _ (is_binding : (req.resource == "pods" && req.sub_resource == "binding") ≡ true)
      (b : Fields) (decoded : k.decode req.object_raw ≡ ok b) where
    with_pod-Answered :
        (t : Targets) (r : Result Fields)
        → get_binding_targets k b ≡ ok t
        → k.get_pod t.pod_namespace t.pod_name ≡ r
        → Answered (with_pod k t r)
    unfolding with_pod update_response get_binding_targets
    with_pod-Answered t (err e) made h = (inl refl, refl)
    with_pod-Answered t (ok pod) made h = elim (Bool-cases (asks k pod)) [
      | inr it_does_not ↦ rw it_does_not (inl refl, refl)
      | inl yes_it_does ↦
          let (namespace, namespaced, h₁) = and_then-eq-ok _ _ made in
          let (name, named, h₂) = and_then-eq-ok _ _ h₁ in
          let (node, bound, h₃) = and_then-eq-ok _ _ h₂ in
          let same = ok-injective h₃ in
          rw yes_it_does (
            inr (
              pod,
              t.node_name,
              record {
                binding = b;
                namespace = t.pod_namespace;
                name = t.pod_name;
                is_binding = is_binding;
                decoded = decoded;
                of_namespace =
                    target_text-eq-ok _ _ _ namespaced
                    ∙ ap (λ (u : Targets). (u.pod_namespace, true, none)) same;
                of_name =
                    target_text-eq-ok _ _ _ named
                    ∙ ap (λ (u : Targets). (u.pod_name, true, none)) same;
                of_node =
                    target_text-eq-ok _ _ _ bound
                    ∙ ap (λ (u : Targets). (u.node_name, true, none)) same;
                got = h;
                asked = yes_it_does;
              },
              refl,
            ),
            always (k.update_pod _),
          )
    ]
      where
        always : (o : Option Error) → is_allowed (update_response k o) ≡ true
        always none = refl
        always (some e) = refl

    with_targets-Answered :
        (t : Result Targets) → get_binding_targets k b ≡ t → Answered (with_targets k t)
    unfolding with_targets
    with_targets-Answered (err e) h = (inl refl, refl)
    with_targets-Answered (ok t) h =
        with_pod-Answered t (k.get_pod t.pod_namespace t.pod_name) h refl

  handle-Answered : Answered (handle k req)
  unfolding handle with_binding
  handle-Answered = elim (Bool-cases (req.resource == "pods" && req.sub_resource == "binding")) [
    | inr other ↦ rw other (inl refl, refl)
    | inl binding ↦ elim (Result-cases (k.decode req.object_raw)) [
      | inr (e, failed) ↦ rw (binding, failed) (inl refl, refl)
      | inl (b, decoded) ↦
          rw (binding, decoded)
            (with_targets-Answered binding b decoded (get_binding_targets k b) refl)
    ]
  ]

  -- Every request is allowed, whatever fails on the way; and it updates a pod exactly if it is a
  -- binding whose manifest names a pod, which the API server returns, and a node, and the annotation
  -- of the pod asks for the reference. The pod is sent back with the name of that node added to its
  -- annotations.
  pub handle-Updates : Updates k req (handle k req).1 × (is_allowed (handle k req).0 ≡ true)
  handle-Updates = elim handle-Answered.0 [
    | inl nothing ↦ (
      subst (Updates k req) (sym nothing) (
          no_update
            λ pod node a. let sent = sym nothing ∙ handle-AsksFor pod node a in absurd (cc)),
      handle-Answered.1,
    )
    | inr (pod, node, a, sent) ↦
        (subst (Updates k req) (sym sent) (one_update pod node a), handle-Answered.1)
  ]
