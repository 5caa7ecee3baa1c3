-- ===== src/Dragnet/References.antt =====
-- What the synthetic references of an object are to hold (core/dragnetwebhook.go).
use kubemod.Prelude.{
  String, ◌==◌, eq_iff, ◌≡◌, refl, sym, ap, ◌∙◌, Bool, true, false, not, Option, none, some, [],
  ◌∷◌, ok, Error, Bool-cases, inl, inr,
}
use mathlib.Core.Bool.{true≢false}
use kubemod.Prelude.Dict
use kubemod.Prelude.Dict.{Dict}
use kubemod.Prelude.Lists.{select}
use kubemod.Json.{Value, object, Fields}
use kubemod.Kubernetes.{Kubernetes}
use kubemod.Dragnet.{is_pod, found_text, remove_last_applied}

module _ (k : Kubernetes) where
  -- The annotations but the one with the configuration that was last applied.
  abbrev pub without_last_applied : Option (Dict String) → Option (Dict String)
  without_last_applied none = none
  without_last_applied (some m) =
      some (select (λ e. not (e.0 == "kubectl.kubernetes.io/last-applied-configuration")) m)

  -- The namespace without its managed fields and the configuration that was last applied.
  abbrev pub stripped_namespace : Fields → Fields
  stripped_namespace ns =
      k.set_annotations (without_last_applied (k.get_annotations (k.drop_managed_fields ns)))
        (k.drop_managed_fields ns)

  remove-select :
      (key : String) (m : Dict String) → Dict.remove key m ≡ select (λ e. not (e.0 == key)) m
  unfolding Dict.remove
  remove-select key [] = refl
  remove-select key ((j, w) ∷ m) = elim (Bool-cases (j == key)) [
    | inl e ↦ rw (e, remove-select key m) refl
    | inr e ↦ rw (e, remove-select key m) refl
  ]

  pub remove_last_applied_lem :
      (o : Option (Dict String)) → remove_last_applied k o ≡ without_last_applied o
  unfolding remove_last_applied
  remove_last_applied_lem none = refl
  remove_last_applied_lem (some m) = ap some (remove-select _ m)

  -- What the references hold for the namespace of the object.
  pub data NamespaceRef (namespace : String) (ref : Option Value) : Type 0 where
    no_namespace : (namespace == "") ≡ true → ref ≡ none → NamespaceRef namespace ref
    of_namespace :
        (ns : Fields)
        → (namespace == "") ≡ false
        → k.get_namespace namespace ≡ ok ns
        → ref ≡ some (object (stripped_namespace ns))
        → NamespaceRef namespace ref

  -- The answer to the lookup of the annotation with the name of the node.
  abbrev pub node_annotation : Fields → String × Bool × Option Error
  node_annotation obj =
      k.nested_string obj ("metadata" ∷ "annotations" ∷ "ref.kubemod.io/nodename" ∷ [])

  -- The object says that it is a Pod.
  abbrev pub IsPod : Fields → Type 0
  IsPod obj = k.nested_string obj ("kind" ∷ []) ≡ ("Pod", true, none)

  found_text-eq-true :
      (text : String) (o : String × Bool × Option Error)
      → found_text k text o ≡ true
      → o ≡ (text, true, none)
  unfolding found_text
  found_text-eq-true text (s, true, none) h = ap (λ t. (t, true, none)) ((eq_iff s text).0 h)
  found_text-eq-true text (s, true, some e) h = absurd (cc)
  found_text-eq-true text (s, false, e) h = absurd (cc)

  pub is_pod-IsPod : (obj : Fields) → is_pod k obj ≡ true → IsPod obj
  unfolding is_pod
  is_pod-IsPod obj = found_text-eq-true "Pod" (k.nested_string obj ("kind" ∷ []))

  pub is_pod-not : (obj : Fields) → is_pod k obj ≡ false → IsPod obj → ⊥
  unfolding is_pod found_text
  is_pod-not obj h pod = true≢false (sym (ap (found_text k "Pod") pod) ∙ h)

  -- What they hold for the node of the object.
  pub data NodeRef (obj : Fields) (ref : Option Value) : Type 0 where
    no_pod : (IsPod obj → ⊥) → ref ≡ none → NodeRef obj ref
    no_node :
        ((node : String) → node_annotation obj ≡ (node, true, none) → node ≡ "")
        → ref ≡ none
        → NodeRef obj ref
    of_node :
        (node : String) (n : Fields)
        → IsPod obj
        → node_annotation obj ≡ (node, true, none)
        → (node == "") ≡ false
        → k.get_node node ≡ ok n
        → ref ≡ some (object (k.drop_managed_fields n))
        → NodeRef obj ref
