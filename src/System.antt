-- ===== src/System.antt =====
-- The controller beside an API server that changes (controllers/modrule_controller.go): the store of
-- one operator, the call of `Reconcile` that is running, and the ModRules of the cluster. A call
-- fetches its rule in one step and acts on it in another, and the server may change in between. What
-- the controller's framework does is documented, and is the premise of the steps: it runs one call
-- at a time, calls `Reconcile` after a start for every ModRule that is there and after each change
-- for the one that changed, and again after a call that failed.
pub mod Synced
pub mod Reach
pub mod Enforced
pub mod Progress
use kubemod.Prelude.{
  String, ◌==◌, ◌≡◌, Bool, true, false, ◌&&◌, Option, none, some, if◌then◌else◌, is_some, Error,
}
use kubemod.Library.{Library}
use kubemod.Api.{ModRule}
use kubemod.Store.{ModRuleStore, Sort, new_mod_rule_store}
use kubemod.Controller.{Fetched, found, not_found, failed, reconcile_fetched}
use kubemod.Controller.Spec.{IsNamed}

pub record Call : Type 0 where
  pub namespace : String
  pub name : String
  pub fetched : Fetched

pub record System : Type 0 where
  pub server : String → String → Option ModRule
  pub store : ModRuleStore
  pub running : Option Call
  -- The framework owes the key a call that fetches.
  pub pending : String → String → Bool

-- The answer of a server to `client.Get`.
abbrev pub answer : Option ModRule → Fetched
answer none = not_found
answer (some r) = found r

-- A map with another value at one key.
abbrev pub updated :
    {A : Type 0} → String → String → A → (String → String → A) → String → String → A
updated namespace name v f n m = if namespace == n && name == m then v else f n m

-- The operator starts with an empty store.
abbrev pub started_system : String → (String → String → Option ModRule) → System
started_system cluster server = record {
  server = server;
  store = new_mod_rule_store cluster;
  running = none;
  pending = λ n m. is_some (server n m);
}

abbrev pub finished : Library → Sort → System → Call → System
finished lib sort st c = record st {
  store = (reconcile_fetched lib sort st.store c.namespace c.name c.fetched).0;
  running = none;
}

abbrev pub fetches : System → String → String → Fetched → Bool → System
fetches st namespace name f again = record st {
  running = some (record { namespace = namespace; name = name; fetched = f });
  pending = updated namespace name again st.pending;
}

pub data Move (lib : Library) (sort : Sort) (cluster : String) (st : System) : System → Type 0 where
  -- A rule is created, updated or deleted.
  changed :
      (namespace name : String) (o : Option ModRule)
      → IsNamed name (answer o)
      → Move lib sort cluster st (record st {
        server = updated namespace name o st.server;
        pending = updated namespace name true st.pending;
      })
  -- A call of `Reconcile` fetches its rule.
  fetched_rule :
      (namespace name : String)
      → st.running ≡ none
      → Move lib sort cluster st
          (fetches st namespace name (answer (st.server namespace name)) false)
  -- The fetch fails, for a reason other than a missing rule.
  fetched_nothing :
      (namespace name : String) (e : Error)
      → st.running ≡ none
      → Move lib sort cluster st (fetches st namespace name (failed e) true)
  -- The call ends.
  acted : (c : Call) → st.running ≡ some c → Move lib sort cluster st (finished lib sort st c)
  -- The operator starts again.
  restarted : Move lib sort cluster st (started_system cluster st.server)

pub data Reached (lib : Library) (sort : Sort) (cluster : String) : System → Type 0 where
  at_start :
      (server : String → String → Option ModRule)
      → ((n m : String) → IsNamed m (answer (server n m)))
      → Reached lib sort cluster (started_system cluster server)
  moved :
      {st st' : System}
      → Reached lib sort cluster st
      → Move lib sort cluster st st'
      → Reached lib sort cluster st'
