-- ===== src/Controller.antt =====
-- `ModRuleReconciler` (controllers/modrule_controller.go).
pub mod Spec
pub mod Converge
pub mod Accepted
use kubemod.Prelude.{String, Option, none, some, Result, ok, err, Error, ◌≡◌, refl}
use kubemod.Library.{Library}
use kubemod.Api.{ModRule}
use kubemod.Store.{ModRuleStore, Sort, put, delete}

-- What `client.Get` of a ModRule returns.
pub data Fetched : Type 0 where
  found : ModRule → Fetched
  not_found : Fetched
  failed : Error → Fetched

-- The store after the call, and the error that is returned. `IgnoreNotFound` hides the missing
-- rule, and the error of `Put` is dropped.
unfoldable pub reconcile_fetched :
    Library → Sort → ModRuleStore → String → String → Fetched → ModRuleStore × Option Error
reconcile_fetched lib sort s namespace name not_found = (delete s namespace name, none)
reconcile_fetched lib sort s namespace name (failed e) = (s, some e)
reconcile_fetched lib sort s namespace name (found r) =
    ((put lib sort s (record r { namespace = namespace })).0, none)

unfoldable pub reconcile :
    Library
    → Sort
    → (String → String → Fetched)
    → ModRuleStore
    → String
    → String
    → ModRuleStore × Option Error
unfolding reconcile_fetched
reconcile lib sort get s namespace name =
    reconcile_fetched lib sort s namespace name (get namespace name)
