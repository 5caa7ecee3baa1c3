-- ===== src/Tests/Processes.antt =====
-- A run of the process and a set-up of the operator.
use mathlib.Core.List.{Permᴰ}
use kubemod.Prelude.{
  ◌≡◌, ◌≤◌, ◌⊎◌, refl, true, Option, none, some, List, [], ◌∷◌, Error, if◌then◌else◌,
}
use kubemod.Prelude.Member.{In}
use kubemod.Process.{
  Config, App, operator, web_app, exited, stopped, returned, Process, Step, initialized, received,
  appended, left, waited, drained, joined, aggregated, Run, started, stepped, app_error, aggregate,
}
use kubemod.Process.Errors.{app_errors, returned-aggregate}
use kubemod.Process.Return.{Run-returns}
use kubemod.Process.Applications.{
  WebServer, failure, initialize, initialize_kube_mod_web_app, returned-operator,
}
use kubemod.Operator.{Manager, start_manager, initialize_kube_mod_operator_app}
use kubemod.Operator.Start.{set_up_calls, AllNil, initialize_kube_mod_operator_app-start}

abbrev both : Config
both = record { run_operator = true; run_web_app = true }

-- The operator finds no cluster.
abbrev no_cluster : App → Option Error
no_cluster operator = some "no cluster"
no_cluster web_app = none

abbrev end : Process
end = record {
  operator_routine = exited;
  web_app_routine = exited;
  pump = stopped;
  main = returned (aggregate ("no cluster" ∷ []));
  errors = "no cluster" ∷ [];
}

whole-Run : Run both no_cluster 10 end
unfolding app_error
whole-Run =
    stepped
      (stepped
        (stepped
          (stepped
            (stepped
              (stepped
                (stepped
                  (stepped
                    (stepped (stepped started (initialized _ operator refl))
                      (initialized _ web_app refl))
                    (received _ operator "no cluster" refl refl))
                  (appended _ "no cluster" refl))
                (left _ operator refl))
              (left _ web_app refl))
            (waited _ refl refl refl))
          (drained _ refl refl))
        (joined _ refl refl))
      (aggregated _ refl)

returned-aggregate_example :
    (errors : List Error) × (aggregate ("no cluster" ∷ []) ≡ aggregate errors)
    × Permᴰ errors (app_errors both no_cluster)
returned-aggregate_example =
    returned-aggregate both no_cluster 10 end (aggregate ("no cluster" ∷ [])) whole-Run refl

Run-returns_example :
    (10 ≤ 13)
    × (((q : Process) × Step both no_cluster end q)
        ⊎ ((r : Option Error) × (end.main ≡ returned r)))
Run-returns_example = Run-returns both no_cluster 10 end whole-Run

-- Every call succeeds.
abbrev obedient : Manager
obedient calls c = none

initialize_kube_mod_operator_app-start_example :
    (In start_manager (initialize_kube_mod_operator_app obedient).0
      → (initialize_kube_mod_operator_app obedient).0 ≡ set_up_calls)
    × ((initialize_kube_mod_operator_app obedient).1 ≡ none
        → ((initialize_kube_mod_operator_app obedient).0 ≡ set_up_calls)
          × AllNil obedient [] set_up_calls)
initialize_kube_mod_operator_app-start_example = initialize_kube_mod_operator_app-start obedient

-- No call succeeds.
abbrev unwilling : Manager
unwilling calls c = some "no cluster"

abbrev deaf : WebServer
deaf = record { listen_and_serve = some (failure "address already in use"); shutdown = none }

deaf-Run : Run both (initialize unwilling deaf) 10 end
unfolding app_error initialize initialize_kube_mod_operator_app initialize_kube_mod_web_app
deaf-Run =
    stepped
      (stepped
        (stepped
          (stepped
            (stepped
              (stepped
                (stepped
                  (stepped
                    (stepped (stepped started (initialized _ web_app refl))
                      (initialized _ operator refl))
                    (left _ web_app refl))
                  (received _ operator "no cluster" refl refl))
                (left _ operator refl))
              (waited _ refl refl refl))
            (appended _ "no cluster" refl))
          (drained _ refl refl))
        (joined _ refl refl))
      (aggregated _ refl)

returned-operator_example :
    aggregate ("no cluster" ∷ [])
    ≡ (if both.run_operator then (initialize_kube_mod_operator_app unwilling).1 else none)
returned-operator_example =
    returned-operator both unwilling deaf 10 end (aggregate ("no cluster" ∷ [])) deaf-Run refl
