-- ===== src/Dragnet/Spec.antt =====
-- What the admission webhook answers.
use mathlib.Core.List.{Permᴰ}
use kubemod.Prelude.{
  String, ◌≡◌, refl, ap, ◌∙◌, Bool, true, false, not, Option, none, some, List, [], ◌∷◌, map,
  Result, ok, err, Exec, done, fail, panic,
}
use kubemod.Json.{Value}
use kubemod.Library.{Library, Bytes, JsonPatchOperation}
use kubemod.Kubernetes.{Kubernetes, Response, denied}
use kubemod.Store.{ModRuleStore}
use kubemod.Store.Contents.{IsValid}
use kubemod.Store.Calculate.{calculate_store_patch, rejection_message}
use kubemod.Store.Calculate.Rejections.{rejecting_rules, determine_rejections-rejecting_rules}
use kubemod.Dragnet.{
  Request, request_object, store_namespace, inject_synthetic_refs, handle, after_inject,
  after_patch, rejection_response, patch_response,
}

abbrev pub is_denied : Response → Bool
is_denied (denied text) = true
is_denied _ = false

abbrev pub is_empty : {A : Type 0} → List A → Bool
is_empty [] = true
is_empty (x ∷ xs) = false

pub perm-is_empty : {A : Type 0} {xs ys : List A} → Permᴰ xs ys → is_empty xs ≡ is_empty ys
perm-is_empty Permᴰ.nil = refl
perm-is_empty (Permᴰ.cons e p) = refl
perm-is_empty (Permᴰ.swap e f) = refl
perm-is_empty (Permᴰ.trans p q) = perm-is_empty p ∙ perm-is_empty q

pub is_empty-map : {A B : Type 0} (f : A → B) (xs : List A) → is_empty (map f xs) ≡ is_empty xs
is_empty-map f [] = refl
is_empty-map f (x ∷ xs) = refl

module _ (lib : Library) (k : Kubernetes) (s : ModRuleStore) where
  is_denied-patch_response :
      (ops : List JsonPatchOperation) → is_denied (patch_response lib k s ops) ≡ false
  unfolding patch_response
  is_denied-patch_response [] = refl
  is_denied-patch_response (op ∷ ops) = refl

  pub is_denied-rejection_response :
      (ops : List JsonPatchOperation) (messages : List String)
      → is_denied (rejection_response lib k s ops messages) ≡ not (is_empty messages)
  unfolding rejection_response
  is_denied-rejection_response ops [] = is_denied-patch_response ops
  is_denied-rejection_response ops (m ∷ ms) = refl

  -- On a well-formed store, if the references of a request's object are injected and its patch is
  -- calculated, then the request is answered, and it is denied exactly if some rule of the store
  -- rejects the patched object.
  pub handle-denied :
      (req : Request) (obj : Bytes) (jsonv : Value) (ops : List JsonPatchOperation)
      → IsValid lib s
      → inject_synthetic_refs k (request_object req) (store_namespace req) ≡ ok obj
      → calculate_store_patch lib s req.operation (store_namespace req) obj
        ≡ some (done (jsonv, ops))
      → (r : Response) × (handle lib k s req ≡ some (done r))
        × (is_denied r
            ≡ not (is_empty (rejecting_rules lib s req.operation (store_namespace req) jsonv)))
  unfolding handle
  handle-denied req obj jsonv ops valid injected calculated =
      let (messages, runs, p) =
        determine_rejections-rejecting_rules lib s req.operation (store_namespace req) jsonv
          valid in
      (
        rejection_response lib k s ops messages,
        rw (injected, calculated, runs) refl,
        is_denied-rejection_response ops messages
            ∙ ap not (
                perm-is_empty p
                ∙ is_empty-map (rejection_message lib s req.operation (store_namespace req) jsonv)
                    (rejecting_rules lib s req.operation (store_namespace req) jsonv)),
      )

  after_patch-denied :
      (req : Request) (o : Option (Exec (Value × List JsonPatchOperation))) {text : String}
      → after_patch lib k s req o ≡ some (done (denied text))
      → (p : Value × List JsonPatchOperation) × (o ≡ some (done p))
  after_patch-denied req none h = absurd (cc)
  after_patch-denied req (some panic) h = absurd (cc)
  after_patch-denied req (some (fail e)) h = absurd (cc)
  after_patch-denied req (some (done p)) h = (p, refl)

  after_inject-denied :
      (req : Request) (r : Result Bytes) {text : String}
      → after_inject lib k s req r ≡ some (done (denied text))
      → (obj : Bytes) × (r ≡ ok obj)
        × (p : Value × List JsonPatchOperation) × (calculate_store_patch lib s req.operation
              (store_namespace req)
              obj
            ≡ some (done p))
  after_inject-denied req (err e) h = absurd (cc)
  after_inject-denied req (ok obj) h = let (p, e) = after_patch-denied req _ h in (obj, refl, p, e)

  -- The webhook fails open: if a request is denied, then the references of its object were injected
  -- and its patch was calculated. An error on the way lets it pass.
  pub handle-fails_open :
      (req : Request) (text : String)
      → handle lib k s req ≡ some (done (denied text))
      → (obj : Bytes) × (inject_synthetic_refs k (request_object req) (store_namespace req)
          ≡ ok obj)
        × (p : Value × List JsonPatchOperation) × (calculate_store_patch lib s req.operation
              (store_namespace req)
              obj
            ≡ some (done p))
  unfolding handle
  handle-fails_open req text h =
      after_inject-denied req (inject_synthetic_refs k (request_object req) (store_namespace req)) h
