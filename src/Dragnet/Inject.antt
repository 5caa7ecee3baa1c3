-- ===== src/Dragnet/Inject.antt =====
-- The object that `injectSyntheticRefs` hands to the store (core/dragnetwebhook.go).
use kubemod.Prelude.{
  String, ◌==◌, eq_iff, ◌≡◌, refl, sym, ap, subst, ◌∙◌, Bool, true, false, Option, none, some,
  Result, ok, err, and_then-eq-ok, ok-injective, Error, Bool-cases, inl, inr,
}
use kubemod.Json.{Value, object, Fields, end, get_field, set_field, get_field-set_field}
use kubemod.Library.{Bytes}
use kubemod.Kubernetes.{Kubernetes}
use kubemod.Dragnet.{
  inject_synthetic_refs, namespace_refs, pod_refs, node_refs, is_pod, wrapped,
  inject_namespace_synthetic_ref, inject_pod_node_synthetic_ref,
}
use kubemod.Dragnet.References.{
  NamespaceRef, no_namespace, of_namespace, NodeRef, no_pod, no_node, of_node, node_annotation,
  remove_last_applied_lem, is_pod-IsPod, is_pod-not,
}

module _ (k : Kubernetes) where
  wrapped-eq-ok :
      (text : String) (r : Result Fields) (fs : Fields) → wrapped k text r ≡ ok fs → r ≡ ok fs
  unfolding wrapped
  wrapped-eq-ok text (ok fs') fs h = h
  wrapped-eq-ok text (err e) fs h = absurd (cc)

  namespace_refs-ok :
      (namespace : String) (refs : Fields)
      → namespace_refs k namespace ≡ ok refs
      → NamespaceRef k namespace (get_field "namespace" refs) × (get_field "node" refs ≡ none)
  unfolding namespace_refs inject_namespace_synthetic_ref get_field set_field
  namespace_refs-ok namespace refs h = elim (Bool-cases (namespace == "")) [
    | inl e ↦
        subst
          (λ fs. NamespaceRef k namespace (get_field "namespace" fs) × (get_field "node" fs ≡ none))
          (ok-injective (rw e at h)) (no_namespace e refl, refl)
    | inr e ↦
        let (ns, got, made) =
          and_then-eq-ok _ _
            (wrapped-eq-ok _ (inject_namespace_synthetic_ref k namespace end) refs (rw e at h)) in
        subst
          (λ fs. NamespaceRef k namespace (get_field "namespace" fs) × (get_field "node" fs ≡ none))
          (ok-injective made)
          (
            of_namespace ns e (wrapped-eq-ok _ (k.get_namespace namespace) ns got) (
                ap (λ o. some (object (k.set_annotations o (k.drop_managed_fields ns))))
                  (remove_last_applied_lem k (k.get_annotations (k.drop_managed_fields ns)))),
            refl,
          )
  ]

  unchanged :
      (obj refs refs' : Fields)
      → get_field "node" refs ≡ none
      → ((ref : Option Value) → ref ≡ none → NodeRef k obj ref)
      → refs ≡ refs'
      → NodeRef k obj (get_field "node" refs')
        × (get_field "namespace" refs' ≡ get_field "namespace" refs)
  unchanged obj refs refs' none_yet f same = (
    f (get_field "node" refs') (ap (get_field "node") (sym same) ∙ none_yet),
    ap (get_field "namespace") (sym same),
  )

  node_refs-ok :
      (obj refs refs' : Fields) (o : String × Bool × Option Error)
      → is_pod k obj ≡ true
      → node_annotation k obj ≡ o
      → get_field "node" refs ≡ none
      → node_refs k o refs ≡ ok refs'
      → NodeRef k obj (get_field "node" refs')
        × (get_field "namespace" refs' ≡ get_field "namespace" refs)
  unfolding node_refs inject_pod_node_synthetic_ref
  node_refs-ok obj refs refs' (node, true, some e) pod found none_yet h =
      unchanged obj refs refs' none_yet
        (λ ref. no_node (λ name other.
          let differ : Path (Option Error) (some e) none =
            ap (λ (p : String × Bool × Option Error). p.2) (sym found ∙ other) in
          absurd (cc)))
        (ok-injective h)
  node_refs-ok obj refs refs' (node, false, e) pod found none_yet h =
      unchanged obj refs refs' none_yet
        (λ ref. no_node (λ name other.
          let differ : Path Bool false true =
            ap (λ (p : String × Bool × Option Error). p.1) (sym found ∙ other) in
          absurd (cc)))
        (ok-injective h)
  node_refs-ok obj refs refs' (node, true, none) pod found none_yet h =
      elim (Bool-cases (node == "")) [
        | inl e ↦
            unchanged obj refs refs' none_yet
              (λ ref. no_node (λ name other.
                ap (λ (p : String × Bool × Option Error). p.0) (sym other ∙ found)
                ∙ (eq_iff node "").0 e))
              (ok-injective (rw e at h))
        | inr e ↦
            let (n, got, made) =
              and_then-eq-ok _ _
                (wrapped-eq-ok _ (inject_pod_node_synthetic_ref k node refs) refs' (rw e at h)) in
            subst
              (λ fs.
                NodeRef k obj (get_field "node" fs)
                × (get_field "namespace" fs ≡ get_field "namespace" refs))
              (ok-injective made)
              (
                of_node node n (is_pod-IsPod k obj pod) found e
                    (wrapped-eq-ok _ (k.get_node node) n got)
                    (get_field-set_field "node" "node" (object (k.drop_managed_fields n)) refs),
                get_field-set_field "namespace" "node" (object (k.drop_managed_fields n)) refs,
              )
      ]

  pod_refs-ok :
      (obj refs refs' : Fields)
      → get_field "node" refs ≡ none
      → pod_refs k obj refs ≡ ok refs'
      → NodeRef k obj (get_field "node" refs')
        × (get_field "namespace" refs' ≡ get_field "namespace" refs)
  unfolding pod_refs
  pod_refs-ok obj refs refs' h e = elim (Bool-cases (is_pod k obj)) [
    | inl pod ↦ node_refs-ok obj refs refs' (node_annotation k obj) pod refl h (rw pod at e)
    | inr other ↦
        unchanged obj refs refs' h (λ ref. no_pod (is_pod-not k obj other))
          (ok-injective (rw other at e))
  ]

  -- If the references are injected, the webhook's object is the one that was decoded, with one field
  -- set and its managed fields dropped. The field holds the namespace, without its managed fields and
  -- the configuration that was last applied, exactly if the object is in one, and the node, without
  -- its managed fields, exactly if the object is a Pod whose annotation names one; both are as the
  -- API server returns them.
  pub inject_synthetic_refs-ok :
      (raw out : Bytes) (namespace : String)
      → inject_synthetic_refs k raw namespace ≡ ok out
      → (obj refs : Fields) × (k.decode raw ≡ ok obj)
        × (k.encode (k.drop_managed_fields (set_field "syntheticRefs" (object refs) obj)) ≡ ok out)
        × NamespaceRef k namespace (get_field "namespace" refs)
        × NodeRef k obj (get_field "node" refs)
  unfolding inject_synthetic_refs
  inject_synthetic_refs-ok raw out namespace h =
      let (refs, first, h₁) = and_then-eq-ok (namespace_refs k namespace) _ h in
      let (obj, decoded, h₂) = and_then-eq-ok (wrapped k _ (k.decode raw)) _ h₁ in
      let (refs', second, encoded) = and_then-eq-ok (pod_refs k obj refs) _ h₂ in
      let (namespace_ref, no_node_yet) = namespace_refs-ok namespace refs first in
      let (node_ref, same) = pod_refs-ok obj refs refs' no_node_yet second in
      (
        obj,
        refs',
        wrapped-eq-ok _ (k.decode raw) obj decoded,
        encoded,
        subst (NamespaceRef k namespace) (sym same) namespace_ref,
        node_ref,
      )
