-- ===== src/Tests/Bindings.antt =====
-- A pod that the binding webhook noted a node in, and its request to the admission webhook.
use kubemod.Prelude.{
  String, ◌==◌, ◌≡◌, refl, ap, Bool, true, false, Option, none, some, List, [], ◌∷◌, Result, ok,
  err, if◌then◌else◌, Error, inl, inr, Bool-cases, eq_of_some,
}
use kubemod.Prelude.Dict
use kubemod.Prelude.Dict.{Dict}
use kubemod.Prelude.Member.{In}
use kubemod.Json.{
  Value, string, object, Fields, field, end, get_field, set_field, get_field-set_field,
}
use kubemod.Library.{Bytes}
use kubemod.Kubernetes.{Kubernetes}
use kubemod.PodBinding.{
  BindingRequest, Targets, handle, get_binding_targets, annotated, is_true, or_empty_map,
}
use kubemod.PodBinding.NodeRef.{FindsAnnotations, bound_pod-NodeRef}
use kubemod.Dragnet.{inject_synthetic_refs, is_pod}

-- Objects that keep their annotations in one field.
abbrev texts : Dict String → Fields
texts [] = end
texts ((k, v) ∷ m) = field k (string v) (texts m)

abbrev text_in : Option Value → String × Bool × Option Error
text_in (some (string s)) = (s, true, none)
text_in _ = ("", false, none)

abbrev annotation : String → Option Value → String × Bool × Option Error
annotation key (some (object fs)) = text_in (get_field key fs)
annotation key _ = ("", false, none)

abbrev text_at : Fields → List String → String × Bool × Option Error
text_at fs (key ∷ []) = text_in (get_field key fs)
text_at fs (a ∷ b ∷ []) = text_in (get_field b fs)
text_at fs (a ∷ b ∷ key ∷ rest) = annotation key (get_field "annotations" fs)
text_at fs [] = ("", false, none)

abbrev with_annotations : Option (Dict String) → Fields → Fields
with_annotations none fs = fs
with_annotations (some m) fs = set_field "annotations" (object (texts m)) fs

abbrev asked : Dict String
asked = ("ref.kubemod.io/inject-node-ref", "true") ∷ []

abbrev unbound : Fields
unbound = field "kind" (string "Pod") end

abbrev bound : Fields
bound =
    with_annotations
      (some
        (("ref.kubemod.io/inject-node-ref", "true") ∷ ("ref.kubemod.io/nodename", "node-1") ∷ []))
      unbound

abbrev to_node : Fields
to_node = field "namespace" (string "default") (field "name" (string "node-1") end)

abbrev decoded : Bytes → Result Fields
decoded none = err "no document"
decoded (some text) = if text == "binding" then ok to_node else ok bound

abbrev cluster : Kubernetes
cluster = record {
  decode = decoded;
  encode = λ fs. ok (some "{}");
  nested_string = text_at;
  drop_managed_fields = λ fs. fs;
  get_annotations = λ fs. some asked;
  set_annotations = with_annotations;
  get_namespace = λ name. ok end;
  get_node = λ name. ok (field "name" (string name) end);
  get_pod = λ namespace name. ok unbound;
  update_pod = λ fs. none;
}

text_in-texts :
    (m : Dict String) (key v : String)
    → Dict.get key m ≡ some v
    → text_in (get_field key (texts m)) ≡ (v, true, none)
unfolding get_field Dict.get
text_in-texts [] key v h = absurd (cc)
text_in-texts ((k, w) ∷ m) key v h = elim (Bool-cases (k == key)) [
  | inl e ↦ rw e (ap (λ t. (t, true, none)) (eq_of_some (rw e at h)))
  | inr e ↦ rw e (text_in-texts m key v (rw e at h))
]

cluster-FindsAnnotations : FindsAnnotations cluster
cluster-FindsAnnotations m pod key v h =
    rw (get_field-set_field "annotations" "annotations") (text_in-texts m key v h)

abbrev request : BindingRequest
request = record { resource = "pods"; sub_resource = "binding"; object_raw = some "binding" }

abbrev targets : Targets
targets = record { pod_namespace = "default"; pod_name = "node-1"; node_name = "node-1" }

targets-found : get_binding_targets cluster to_node ≡ ok targets
unfolding get_binding_targets get_field
targets-found = refl

bound-sent : In bound (handle cluster request).1
unfolding handle annotated is_true or_empty_map Dict.get Dict.put get_field set_field
    get_binding_targets
bound-sent = inl refl

references : inject_synthetic_refs cluster (some "pod") "default" ≡ ok (some "{}")
unfolding inject_synthetic_refs get_field set_field
references = refl

bound_pod-NodeRef_example :
    (refs n : Fields) × (cluster.get_node "node-1" ≡ ok n)
    × (get_field "node" refs ≡ some (object n))
    × (cluster.encode (set_field "syntheticRefs" (object refs) bound) ≡ ok (some "{}"))
unfolding get_field set_field is_pod
bound_pod-NodeRef_example =
    bound_pod-NodeRef cluster cluster-FindsAnnotations request to_node bound targets (some "pod")
      (some "{}") "default" refl targets-found bound-sent refl refl refl references
