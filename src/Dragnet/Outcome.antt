-- ===== src/Dragnet/Outcome.antt =====
-- Every outcome of the admission webhook's `Handle` (core/dragnetwebhook.go), and when it is the one.
use mathlib.Core.List.{Permᴰ}
use kubemod.Prelude.{
  String, ◌≡◌, ◌≢◌, refl, sym, ◌∙◌, true, Option, none, some, List, [], ◌∷◌, map, Result-cases, ok,
  err, Error, Exec, done, fail, panic, inl, inr,
}
use kubemod.Prelude.Text.{concat, join}
use kubemod.Json.{Value}
use kubemod.Library.{Library, Bytes, JsonPatchOperation}
use kubemod.Kubernetes.{Kubernetes, Response, denied, allowed, patched}
use kubemod.Item.{ModRuleStoreItem}
use kubemod.Store.{ModRuleStore}
use kubemod.Store.Contents.{IsValid}
use kubemod.Store.Calculate.{calculate_store_patch, rejection_message}
use kubemod.Store.Calculate.Rejections.{rejecting_rules, determine_rejections-rejecting_rules}
use kubemod.Store.Calculate.Tiers.{calculate_store_patch-ne-none}
use kubemod.Dragnet.{
  Request, request_object, store_namespace, inject_synthetic_refs, handle, rejection_response,
}
use kubemod.Dragnet.Spec.{is_empty, perm-is_empty, is_empty-map}

module _ (lib : Library) (k : Kubernetes) (s : ModRuleStore) (req : Request) where
  -- The rules that reject the patched object.
  abbrev rejecting : Value → List ModRuleStoreItem
  rejecting = rejecting_rules lib s req.operation (store_namespace req)

  -- The patch of the object, as it comes out of its injection.
  pub record IsPatched (result : Option (Exec (Value × List JsonPatchOperation))) : Type 0 where
    pub obj : Bytes
    pub injected : inject_synthetic_refs k (request_object req) (store_namespace req) ≡ ok obj
    pub calculated : calculate_store_patch lib s req.operation (store_namespace req) obj ≡ result

  pub data Outcome : Option (Exec Response) → Type 0 where
    not_injected :
        (e : Error)
        → inject_synthetic_refs k (request_object req) (store_namespace req) ≡ err e
        → Outcome (some (done (allowed "failed to inject syntheticRefs into object manifest")))
    not_calculated :
        (e : Error)
        → IsPatched (some (fail e))
        → Outcome (some (done (allowed "failed to calculate patch")))
    panicked : IsPatched (some panic) → Outcome (some panic)
    rejected :
        (jsonv : Value) (ops : List JsonPatchOperation) (m : String) (ms : List String)
        → IsPatched (some (done (jsonv, ops)))
        → Permᴰ (m ∷ ms) (
            map
              (rejection_message lib s req.operation (store_namespace req) jsonv)
              (rejecting jsonv))
        → Outcome (
            some (
              done (
                denied
                  (concat "operation rejected by the following ModRule(s): " (join "," (m ∷ ms))))))
    left_alone :
        (jsonv : Value)
        → IsPatched (some (done (jsonv, [])))
        → is_empty (rejecting jsonv) ≡ true
        → Outcome (some (done (allowed "non-patched ok")))
    changed :
        (jsonv : Value) (op : JsonPatchOperation) (ops : List JsonPatchOperation)
        → IsPatched (some (done (jsonv, op ∷ ops)))
        → is_empty (rejecting jsonv) ≡ true
        → Outcome (some (done (patched "patched ok" (op ∷ ops))))

  none_rejects :
      (jsonv : Value)
      → Permᴰ [] (
          map (rejection_message lib s req.operation (store_namespace req) jsonv) (rejecting jsonv))
      → is_empty (rejecting jsonv) ≡ true
  none_rejects jsonv p = sym (
      perm-is_empty p
      ∙ is_empty-map (rejection_message lib s req.operation (store_namespace req) jsonv)
          (rejecting jsonv))

  rejection_response-Outcome :
      (jsonv : Value) (ops : List JsonPatchOperation) (messages : List String)
      → IsPatched (some (done (jsonv, ops)))
      → Permᴰ messages (
          map (rejection_message lib s req.operation (store_namespace req) jsonv) (rejecting jsonv))
      → Outcome (some (done (rejection_response lib k s ops messages)))
  unfolding rejection_response
  rejection_response-Outcome jsonv [] [] h p = left_alone jsonv h (none_rejects jsonv p)
  rejection_response-Outcome jsonv (op ∷ ops) [] h p = changed jsonv op ops h (none_rejects jsonv p)
  rejection_response-Outcome jsonv ops (m ∷ ms) h p = rejected jsonv ops m ms h p

  patched-Outcome :
      (obj : Bytes) (o : Option (Exec (Value × List JsonPatchOperation)))
      → IsValid lib s
      → inject_synthetic_refs k (request_object req) (store_namespace req) ≡ ok obj
      → calculate_store_patch lib s req.operation (store_namespace req) obj ≡ o
      → o ≢ none
      → Outcome (handle lib k s req)
  unfolding handle
  patched-Outcome obj none valid injected calculated h = absurd (h refl)
  patched-Outcome obj (some panic) valid injected calculated h =
      rw (injected, calculated)
        (panicked (record { obj = obj; injected = injected; calculated = calculated }))
  patched-Outcome obj (some (fail e)) valid injected calculated h =
      rw (injected, calculated)
        (not_calculated e (record { obj = obj; injected = injected; calculated = calculated }))
  patched-Outcome obj (some (done (jsonv, ops))) valid injected calculated h =
      let (messages, runs, p) =
        determine_rejections-rejecting_rules lib s req.operation (store_namespace req) jsonv
          valid in
      rw (injected, calculated, runs)
        (rejection_response-Outcome jsonv ops messages
          (record { obj = obj; injected = injected; calculated = calculated }) p)

  -- On a well-formed store every request has an outcome. It is allowed, with the reason, if the
  -- references are not injected or `CalculatePatch` returns an error, and the webhook panics only if
  -- `CalculatePatch` does. Otherwise it is denied with the messages of the rules that reject the
  -- patched object, in some order, if there are any, and if there are none, patched with the
  -- operations of the patch, or allowed if there are none of these either.
  pub handle-Outcome : IsValid lib s → Outcome (handle lib k s req)
  unfolding handle
  handle-Outcome valid =
      elim (Result-cases (inject_synthetic_refs k (request_object req) (store_namespace req))) [
        | inr (e, failed) ↦ rw failed (not_injected e failed)
        | inl (obj, injected) ↦
            patched-Outcome obj _ valid injected refl
              (calculate_store_patch-ne-none lib s req.operation (store_namespace req) obj)
      ]
