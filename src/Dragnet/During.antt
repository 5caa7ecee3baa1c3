-- ===== src/Dragnet/During.antt =====
-- `Handle` (core/dragnetwebhook.go) while other goroutines change the store: `CalculatePatch` finds
-- `patched_in i` in its round `i` over the tiers, and `DetermineRejections` finds `rejected_in i` in
-- its own.
use mathlib.Core.Bool.{true≢false}
use kubemod.Prelude.{
  ℕ, String, ◌≡◌, refl, sym, ◌∙◌, true, Option, none, some, List, [], ◌∷◌, Result, ok, err, Exec,
  done, fail, panic,
}
use kubemod.Prelude.Lists.{All}
use kubemod.Prelude.Member.{In}
use kubemod.Json.{Value}
use kubemod.Library.{Library, Bytes, JsonPatchOperation}
use kubemod.Kubernetes.{Kubernetes, Response, allowed}
use kubemod.Item.{ModRuleStoreItem}
use kubemod.Store.{ModRuleStore}
use kubemod.Store.Contents.{IsValid}
use kubemod.Store.Calculate.{rejection_message}
use kubemod.Store.Calculate.Rejections.{rejecting_rules}
use kubemod.Store.Calculate.Interleaved.{calculate_patch_during, determine_rejections_during}
use kubemod.Store.Calculate.Interleaved.Rejections.{determine_rejections_during-rejecting_rules}
use kubemod.Dragnet.{
  Request, request_object, store_namespace, inject_synthetic_refs, respond, rejection_response,
}
use kubemod.Dragnet.Spec.{is_denied, is_denied-rejection_response}

module _ (lib : Library) (k : Kubernetes) (patched_in rejected_in : ℕ → ModRuleStore)
    (req : Request) where
  abbrev after_patch_during :
      Option (Exec (Value × List JsonPatchOperation)) → Option (Exec Response)
  after_patch_during none = none
  after_patch_during (some panic) = some panic
  after_patch_during (some (fail e)) = some (done (allowed "failed to calculate patch"))
  after_patch_during (some (done (jsonv, ops))) =
      respond lib k (rejected_in 0) ops
        (determine_rejections_during lib rejected_in req.operation (store_namespace req) jsonv)

  abbrev after_inject_during : Result Bytes → Option (Exec Response)
  after_inject_during (err e) =
      some (done (allowed "failed to inject syntheticRefs into object manifest"))
  after_inject_during (ok obj) =
      after_patch_during
        (calculate_patch_during lib patched_in req.operation (store_namespace req) obj)

  -- `Handle`.
  unfoldable pub handle_during : Option (Exec Response)
  handle_during =
      after_inject_during (inject_synthetic_refs k (request_object req) (store_namespace req))

  some_denied :
      (messages : List String) (ops : List JsonPatchOperation) (text : String)
      → In text messages
      → is_denied (rejection_response lib k (rejected_in 0) ops messages) ≡ true
  some_denied [] ops text i = absurd i
  some_denied (m ∷ ms) ops text i = is_denied-rejection_response lib k (rejected_in 0) ops (m ∷ ms)

  some_rejects :
      (v : Value) (messages : List String) (ops : List JsonPatchOperation)
      → All
          (λ text.
            (j : ℕ) × (si : ModRuleStoreItem) × In si
              (rejecting_rules lib (rejected_in j) req.operation (store_namespace req) v)
            × (text
                ≡ rejection_message lib (rejected_in 0) req.operation (store_namespace req) v si))
          messages
      → is_denied (rejection_response lib k (rejected_in 0) ops messages) ≡ true
      → (j : ℕ) × (si : ModRuleStoreItem) × In si
          (rejecting_rules lib (rejected_in j) req.operation (store_namespace req) v)
  some_rejects v [] ops from h =
      absurd (true≢false (sym h ∙ is_denied-rejection_response lib k (rejected_in 0) ops []))
  some_rejects v (m ∷ ms) ops ((j, si, held, e), rest) h = (j, si, held)

  -- Let the store change at will between the rounds of the loops, and be well formed in each round
  -- of `DetermineRejections`. If the references of a request's object are injected and its patch is
  -- calculated, then the request is answered; it is denied if some rule rejects the patched object in
  -- the stores of all those rounds; and if it is denied, then in the store of some round a rule
  -- rejects it.
  pub handle_during-denied :
      (obj : Bytes) (v : Value) (ops : List JsonPatchOperation)
      → ((j : ℕ) → IsValid lib (rejected_in j))
      → inject_synthetic_refs k (request_object req) (store_namespace req) ≡ ok obj
      → calculate_patch_during lib patched_in req.operation (store_namespace req) obj
        ≡ some (done (v, ops))
      → (answer : Response) × (handle_during ≡ some (done answer))
        × ((si : ModRuleStoreItem)
            → ((j : ℕ)
                → In si (rejecting_rules lib (rejected_in j) req.operation (store_namespace req) v))
            → is_denied answer ≡ true)
        × (is_denied answer ≡ true
            → (j : ℕ) × (si : ModRuleStoreItem) × In si
                (rejecting_rules lib (rejected_in j) req.operation (store_namespace req) v))
  unfolding handle_during
  handle_during-denied obj v ops valid injected calculated =
      let (messages, runs, from, covers) =
        determine_rejections_during-rejecting_rules lib rejected_in req.operation
          (store_namespace req) v valid in
      (
        rejection_response lib k (rejected_in 0) ops messages,
        rw (injected, calculated, runs) refl,
        λ si held. some_denied messages ops _ (covers si held),
        some_rejects v messages ops from,
      )
