-- ===== src/Operator.antt =====
-- The set-up of the operator (app/operatorapp.go, `InitializeKubeModOperatorApp` of
-- app/wire_gen.go, main.go): the calls of the controller manager, each of which may fail. The
-- manager is a parameter, as what it answers after the calls so far.
pub mod Start
use kubemod.Prelude.{String, ◌≡◌, Option, none, some, List, [], ◌∷◌, ◌++◌, Error}

-- The calls of the controller-runtime library.
pub data Call : Type 0 where
  new_manager add_healthz_check add_readyz_check complete_controller complete_webhook : Call
  start_manager : Call
  register : String → Call

-- The error of a call after others, or `nil`.
abbrev pub Manager : Type 0
Manager = List Call → Call → Option Error

-- What has been called, and the error that the code returns.
abbrev pub Setup : Type 0
Setup = List Call × Option Error

-- A call, and what the code does next if there is no error.
unfoldable pub call : Manager → Call → List Call → (List Call → Setup) → Setup
call m c calls next = elim (m calls c) [
  | none ↦ next (calls ++ (c ∷ []))
  | some e ↦ (calls ++ (c ∷ []), some e)
]

-- `NewControllerManager`.
unfoldable pub new_controller_manager : Manager → Setup
unfolding call
new_controller_manager m = call m new_manager [] (λ made.
    call m add_healthz_check made (λ made. call m add_readyz_check made (λ made. (made, none))))

-- `NewKubeModOperatorApp`; `Register` returns no error.
unfoldable pub new_kube_mod_operator_app : Manager → List Call → Setup
unfolding call
new_kube_mod_operator_app m calls = call m complete_controller calls (λ made.
    call m complete_webhook made (λ made.
      call m start_manager
        (made ++ (register "/dragnet-webhook" ∷ register "/podbinding-webhook" ∷ []))
        (λ made. (made, none))))

-- `InitializeKubeModOperatorApp`; `NewModRuleReconciler` returns no error.
unfoldable pub initialize_kube_mod_operator_app : Manager → Setup
unfolding new_controller_manager new_kube_mod_operator_app
initialize_kube_mod_operator_app m =
    let set_up = new_controller_manager m in
    elim set_up.1 [ none ↦ new_kube_mod_operator_app m set_up.0 | some e ↦ set_up ]
