-- ===== src/System/Enforced.antt =====
-- The whole program beside an API server that changes: a Reject rule that the cluster holds is
-- enforced as soon as the controller owes no call for it (controllers/modrule_controller.go,
-- core/dragnetwebhook.go).
use kubemod.Prelude.{
  ℕ, String, ◌==◌, ◌≡◌, refl, sym, subst, ◌∙◌, true, false, some, List, [], ok, is_ok, done,
}
use kubemod.Prelude.Int16.{IsInt16}
use kubemod.Prelude.Lists.{any}
use kubemod.Prelude.Member.{In}
use kubemod.Json.{Value}
use kubemod.Library.{Library, Bytes, JsonPatchOperation}
use kubemod.Kubernetes.{Kubernetes, Response}
use kubemod.Api.{ModRule, mod_rule_type_reject}
use kubemod.Api.Validation.{validate_mod_rule}
use kubemod.Item.{ModRuleStoreItem, new_mod_rule_store_item, compile_target_regex}
use kubemod.Item.Match.Verdict.{rule_matches}
use kubemod.Store.{ModRuleStore, Sort}
use kubemod.Store.Contents.{Rearranges}
use kubemod.Store.Calculate.Rejections.{rejecting_rules}
use kubemod.Store.Calculate.Interleaved.{calculate_patch_during}
use kubemod.Controller.Converge.{Settles}
use kubemod.Dragnet.{Request, request_object, store_namespace, inject_synthetic_refs}
use kubemod.Dragnet.Spec.{is_denied}
use kubemod.Dragnet.During.{handle_during, handle_during-denied}
use kubemod.System.Reach.{
  IsInReach, IsRejecting, stored-rejecting_rules, reject-compiled, accepted-IsRejecting,
}
use kubemod.System.{System, answer, Reached}
use kubemod.System.Synced.{is_running, Reached-IsSynced}

-- The API server holds a rule, and no call is owed or runs for it.
pub record Rests (st : System) (namespace name : String) (r : ModRule) : Type 0 where
  pub held : st.server namespace name ≡ some r
  pub not_owed : st.pending namespace name ≡ false
  pub not_running : is_running st.running namespace name ≡ false

held-rejecting_rules :
    (lib : Library) (sort : Sort)
    → Rearranges sort
    → (cluster : String) (st : System) (namespace name : String) (r : ModRule)
      (si : ModRuleStoreItem)
    → Reached lib sort cluster st
    → Rests st namespace name r
    → new_mod_rule_store_item lib (record r { namespace = namespace }) ≡ ok si
    → (operation asked : String) (v : Value)
    → IsInReach lib cluster namespace asked (record r { namespace = namespace })
    → IsRejecting lib (record r { namespace = namespace }) operation v
    → In si (rejecting_rules lib st.store operation asked v)
held-rejecting_rules lib sort rearranges cluster st namespace name r si reached rests made operation
      asked v reach rejecting =
    let synced = Reached-IsSynced lib sort rearranges cluster st reached in
    let compiles : Settles lib namespace (answer (st.server namespace name)) =
      subst (λ o. Settles lib namespace (answer o)) (sym rests.held) (rw made refl) in
    stored-rejecting_rules lib st.store (record r { namespace = namespace }) si made operation asked
      v rejecting namespace name
      (synced.agrees namespace name rests.not_owed rests.not_running compiles
        ∙ rw (rests.held, made) refl)
      (subst (λ c. IsInReach lib c namespace asked (record r { namespace = namespace }))
        (sym synced.home) reach)

-- Let the store change between the rounds of a request's loops, at will in those of
-- `CalculatePatch`, and in those of `DetermineRejections` as the system does in the states that it
-- reaches. In each of these let the API server hold one and the same Reject rule under its name, for
-- which no call is owed or runs, and which validation accepts, whose tier is an `int16` and whose
-- expression for the target namespaces compiles. Then the request is denied if the rule reaches its
-- object's namespace, lists its operation and matches its patched object, provided that the
-- references of the object are injected and its patch is calculated. The sort leaves the same
-- elements.
pub Reached-enforced :
    (lib : Library) (sort : Sort)
    → Rearranges sort
    → (k : Kubernetes) (cluster : String) (patched_in : ℕ → ModRuleStore) (rejected_in : ℕ → System)
      (namespace name : String) (r : ModRule) (req : Request) (obj : Bytes) (v : Value)
      (ops : List JsonPatchOperation)
    → ((j : ℕ) → Reached lib sort cluster (rejected_in j))
    → ((j : ℕ) → Rests (rejected_in j) namespace name r)
    → validate_mod_rule lib r ≡ []
    → r.spec.type ≡ mod_rule_type_reject
    → IsInt16 r.spec.execution_tier
    → is_ok (compile_target_regex lib r.spec.target_namespace_regex) ≡ true
    → IsInReach lib cluster namespace (store_namespace req) (record r { namespace = namespace })
    → any (λ o. req.operation == o) r.spec.admission_operations ≡ true
    → rule_matches lib r v ≡ true
    → inject_synthetic_refs k (request_object req) (store_namespace req) ≡ ok obj
    → calculate_patch_during lib patched_in req.operation (store_namespace req) obj
      ≡ some (done (v, ops))
    → (response : Response) × (handle_during lib k patched_in (λ j. (rejected_in j).store) req
        ≡ some (done response))
      × (is_denied response ≡ true)
Reached-enforced lib sort rearranges k cluster patched_in rejected_in namespace name r req obj v ops
      reached rests accepted reject range target reach admitted matches injected calculated =
    let (si, made) = reject-compiled lib r accepted reject range namespace target in
    let (response, answered, enforced, _) =
      handle_during-denied lib k patched_in (λ j. (rejected_in j).store) req obj v ops
        (λ j. (Reached-IsSynced lib sort rearranges cluster (rejected_in j) (reached j)).valid)
        injected calculated in
    (
      response,
      answered,
      enforced si (λ j.
          held-rejecting_rules lib sort rearranges cluster (rejected_in j) namespace name r si
            (reached j) (rests j) made req.operation (store_namespace req) v reach
            (accepted-IsRejecting lib r accepted reject range namespace req.operation v admitted
              matches)),
    )
