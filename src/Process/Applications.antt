-- ===== src/Process/Applications.antt =====
-- The two applications that the process runs (main.go, app/webapp.go): the set-up of the operator,
-- which ends when the manager does, and the web server, which ends at a signal.
use mathlib.Core.List.{Permᴰ}
use mathlib.Core.List.Permᴰ.{nil, cons, swap, trans}
use kubemod.Prelude.{
  ℕ, ◌≡◌, refl, ap, subst, ◌∙◌, Option, none, some, List, [], ◌∷◌, ◌++◌, Error, arith,
  if◌then◌else◌, Bool-cases, inl, inr,
}
use kubemod.Prelude.Text.{join}
use kubemod.Operator.{Manager, initialize_kube_mod_operator_app}
use kubemod.Process.{Config, App, operator, web_app, Process, returned, Run, app_error, aggregate}
use kubemod.Process.Errors.{to_list, returned-aggregate}

-- `http.ErrServerClosed`, or another error of `ListenAndServe`.
pub data ServerError : Type 0 where
  server_closed : ServerError
  failure : Error → ServerError

-- How the calls of the server end.
pub record WebServer : Type 0 where
  pub listen_and_serve : Option ServerError
  pub shutdown : Option Error

abbrev failures : Option ServerError → List Error
failures (some (failure e)) = e ∷ []
failures _ = []

-- `run` of app/webapp.go, after the signal: the errors that it logs.
unfoldable pub run_web_server : WebServer → List Error
run_web_server server = failures server.listen_and_serve ++ to_list server.shutdown

-- `NewKubeModWebApp` and `InitializeKubeModWebApp`: what is logged, and the error.
unfoldable pub initialize_kube_mod_web_app : WebServer → List Error × Option Error
unfolding run_web_server
initialize_kube_mod_web_app server = (run_web_server server, none)

-- The applications of `run` (main.go).
unfoldable pub initialize : Manager → WebServer → App → Option Error
initialize m server operator = (initialize_kube_mod_operator_app m).1
initialize m server web_app = (initialize_kube_mod_web_app server).1

rearranged-nil : {l k : List Error} → Permᴰ l k → k ≡ [] → l ≡ []
rearranged-nil nil e = refl
rearranged-nil (cons x p) e = absurd (ground (arith, e))
rearranged-nil (swap x y) e = absurd (ground (arith, e))
rearranged-nil (trans p q) e = rearranged-nil p (rearranged-nil q e)

abbrev head : List Error → Error
head [] = ""
head (x ∷ xs) = x

abbrev tail : List Error → List Error
tail [] = []
tail (x ∷ xs) = xs

rearranged-one : {l k : List Error} (x : Error) → Permᴰ l k → k ≡ x ∷ [] → l ≡ x ∷ []
rearranged-one x nil e = e
rearranged-one x (cons {a} {b} {l₁} {l₂} same p) e =
    ap (λ h. h ∷ l₁) (same ∙ ap head e) ∙ ap (◌∷◌ x) (rearranged-nil p (ap tail e))
rearranged-one x (swap y z) e = absurd (ground (arith, ap tail e))
rearranged-one x (trans p q) e = rearranged-one x p (rearranged-one x q e)

rearranged-to_list : (l : List Error) (o : Option Error) → Permᴰ l (to_list o ++ []) → l ≡ to_list o
rearranged-to_list l none p = rearranged-nil p refl
rearranged-to_list l (some x) p = rearranged-one x p refl

aggregate-to_list : (o : Option Error) → aggregate (to_list o) ≡ o
unfolding aggregate join
aggregate-to_list none = refl
aggregate-to_list (some e) = refl

web_app-none :
    (config : Config) (m : Manager) (server : WebServer)
    → app_error config (initialize m server) web_app ≡ none
unfolding app_error initialize initialize_kube_mod_web_app
web_app-none config m server = elim (Bool-cases config.run_web_app) [
  | inl e ↦ rw e refl
  | inr e ↦ rw e refl
]

-- The error that `run` returns is that of the operator's set-up, if the operator is enabled; a web
-- server that fails to listen or to shut down leaves no trace in it.
pub returned-operator :
    (config : Config) (m : Manager) (server : WebServer) (n : ℕ) (p : Process) (r : Option Error)
    → Run config (initialize m server) n p
    → p.main ≡ returned r
    → r ≡ (if config.run_operator then (initialize_kube_mod_operator_app m).1 else none)
unfolding app_error initialize initialize_kube_mod_web_app aggregate
returned-operator config m server n p r run e =
    let (errors, same, q) = returned-aggregate config (initialize m server) n p r run e in
    let errs = rearranged-to_list errors (app_error config (initialize m server) operator) (
      subst
        (λ o. Permᴰ errors (to_list (app_error config (initialize m server) operator) ++ to_list o))
        (web_app-none config m server) q) in
    same ∙ ap aggregate errs ∙ aggregate-to_list (app_error config (initialize m server) operator)
