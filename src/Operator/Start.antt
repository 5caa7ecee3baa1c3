-- ===== src/Operator/Start.antt =====
-- The manager is started last (app/operatorapp.go).
use kubemod.Prelude.{
  ◌≡◌, refl, none, some, List, [], ◌∷◌, ◌++◌, Error, arith, inl, inr, Option-cases,
}
use kubemod.Prelude.Member.{In}
use kubemod.Operator.{
  Call, new_manager, add_healthz_check, add_readyz_check, complete_controller, complete_webhook,
  start_manager, register, Manager, Setup, call, new_controller_manager, new_kube_mod_operator_app,
  initialize_kube_mod_operator_app,
}

-- The set-up of the operator: health checks, controller, webhooks, and only then the start.
abbrev pub set_up_calls : List Call
set_up_calls =
    new_manager
    ∷ add_healthz_check
    ∷ add_readyz_check
    ∷ complete_controller
    ∷ complete_webhook
    ∷ register "/dragnet-webhook"
    ∷ register "/podbinding-webhook"
    ∷ start_manager
    ∷ []

-- Every call of the list that may fail, made after those in front of it, returns no error.
abbrev pub AllNil : Manager → List Call → List Call → Type 0
AllNil m before [] = Unit
AllNil m before (register path ∷ rest) = AllNil m (before ++ (register path ∷ [])) rest
AllNil m before (c ∷ rest) = (m before c ≡ none) × AllNil m (before ++ (c ∷ [])) rest

abbrev IsSetUp : Manager → Setup → Type 0
IsSetUp m s =
    (In start_manager s.0 → s.0 ≡ set_up_calls)
    × (s.1 ≡ none → (s.0 ≡ set_up_calls) × AllNil m [] set_up_calls)

call-cases :
    (P : Setup → Type 0) (m : Manager) (c : Call) (calls : List Call) (next : List Call → Setup)
    → ((e : Error) → P (calls ++ (c ∷ []), some e))
    → (m calls c ≡ none → P (next (calls ++ (c ∷ []))))
    → P (call m c calls next)
unfolding call
call-cases P m c calls next failed went_on = elim (Option-cases (m calls c)) [
  | inl e ↦ rw (call, e) (went_on e)
  | inr (x, e) ↦ rw (call, e) (failed x)
]

abbrev then_app : Manager → Setup → Setup
then_app m s = elim s.1 [ none ↦ new_kube_mod_operator_app m s.0 | some e ↦ s ]

-- A set-up that ended with an error, before the manager was started.
stopped_before :
    (m : Manager) (made : List Call) (e : Error)
    → (In start_manager made → made ≡ set_up_calls)
    → IsSetUp m (made, some e)
stopped_before m made e h = (h, λ k. absurd (ground (arith, k)))

new_kube_mod_operator_app-IsSetUp :
    (m : Manager)
    → (m [] new_manager ≡ none)
    → (m (new_manager ∷ []) add_healthz_check ≡ none)
    → (m (new_manager ∷ add_healthz_check ∷ []) add_readyz_check ≡ none)
    → IsSetUp m
        (new_kube_mod_operator_app m (new_manager ∷ add_healthz_check ∷ add_readyz_check ∷ []))
unfolding new_kube_mod_operator_app call
new_kube_mod_operator_app-IsSetUp m a b c =
    let finish : List Call → Setup = λ made. (made, none) in
    let start : List Call → Setup = λ made.
      call m start_manager
        (made ++ (register "/dragnet-webhook" ∷ register "/podbinding-webhook" ∷ [])) finish in
    let webhook : List Call → Setup = λ made. call m complete_webhook made start in
    call-cases (IsSetUp m) m complete_controller _ webhook
      (λ e. stopped_before m _ e (λ h. absurd (ground (arith, h))))
      (λ d.
        call-cases (IsSetUp m) m complete_webhook _ start
          (λ e. stopped_before m _ e (λ h. absurd (ground (arith, h))))
          (λ f.
            call-cases (IsSetUp m) m start_manager _ finish (λ e. stopped_before m _ e (λ h. refl))
              (λ g. (λ h. refl, λ h. (refl, (a, (b, (c, (d, (f, (g, tt)))))))))))

-- The manager is started only after its health checks, the controller and all the webhooks are in
-- place; and the set-up returns no error only if all of this was done and no call returned one.
pub initialize_kube_mod_operator_app-start :
    (m : Manager)
    → (In start_manager (initialize_kube_mod_operator_app m).0
        → (initialize_kube_mod_operator_app m).0 ≡ set_up_calls)
      × ((initialize_kube_mod_operator_app m).1 ≡ none
          → ((initialize_kube_mod_operator_app m).0 ≡ set_up_calls) × AllNil m [] set_up_calls)
unfolding initialize_kube_mod_operator_app new_controller_manager call
initialize_kube_mod_operator_app-start m =
    let ready_check : List Call → Setup =
      λ made. call m add_readyz_check made (λ made. (made, none)) in
    let health_checks : List Call → Setup = λ made. call m add_healthz_check made ready_check in
    let P : Setup → Type 0 = λ s. IsSetUp m (then_app m s) in
    call-cases P m new_manager [] health_checks
      (λ e. stopped_before m _ e (λ h. absurd (ground (arith, h))))
      (λ a.
        call-cases P m add_healthz_check (new_manager ∷ []) ready_check
          (λ e. stopped_before m _ e (λ h. absurd (ground (arith, h))))
          (λ b.
            call-cases P m add_readyz_check (new_manager ∷ add_healthz_check ∷ [])
              (λ made. (made, none)) (λ e. stopped_before m _ e (λ h. absurd (ground (arith, h))))
              (λ c. new_kube_mod_operator_app-IsSetUp m a b c)))
