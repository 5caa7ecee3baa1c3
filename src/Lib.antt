-- ===== src/Lib.antt =====
-- A model of KubeMod, the Kubernetes operator that patches and rejects resources by ModRules, and
-- the theorems that make it correct.
--
-- The parts and how they meet. The controller keeps a store of ModRules in step with the API
-- server; the store compiles every rule into an item. The admission webhook completes the object of
-- a request, lets the store calculate a patch of it from the rules of type Patch, and denies the
-- request if the store finds rules of type Reject for the patched object. A second webhook notes the
-- node of a pod when it is bound. The web application tries rules on a manifest, on a store of its
-- own. The ModRule resource has a webhook with defaults and validation.
--
-- Which file models what:
-- - Api: the ModRule resource (api/v1beta1/modrule_types.go); Api/Validation: `Default` and
--   `validateModRule` (api/v1beta1/modrule_webhook.go).
-- - Json, Library, Kubernetes: the values of an `interface{}`, and the calls of the Go, JSON patch,
--   query language and Kubernetes libraries, as records of functions. These are parameters
--   everywhere (`lib`, `k`); the template contexts are those of core/templatecontext.go.
-- - Paths: select keys and path templates (core/modrulestoreitem.go: `extractMatches`,
--   `pathTemplateToSprintfTemplate`, `pathFromKeyParts`); ValueTemplates: the placeholders of value
--   templates (util/template.go: `PreProcessModRuleGoTemplate`). The regular expressions are written
--   out as scans; `fmt.Sprintf` as far as the verbs `%[n]v` go. Paths/Scan has the scans' laws,
--   Paths/Render and the modules below it what a template means, Paths/SelectKey how select keys are
--   printed, ValueTemplates/Render what value templates mean. ValueTemplates also has the functions
--   that `NewSafeTemplate` leaves to a template.
-- - Item: `NewModRuleStoreItem` and the compilation of a rule; Item/Match: `IsMatch`, `isMatch`,
--   `isStringMatch`; Item/Patch: `calculatePatch` (core/modrulestoreitem.go). Item/Factory,
--   Item/Match/Verdict, Item/Match/Spec, Item/Patch/Text and Item/Patch/Missing hold what they mean;
--   Item/Accepted compares validation with compilation.
-- - Store: the state of `ModRuleStore` (a map from namespaces to slices of items), `Put`, `Delete`,
--   `GetStats`; Store/Matching: `getMatchingModRuleStoreItems`; Store/Annotation:
--   `getValueFromJSONObject` and the last applied configuration; Store/Calculate: `CalculatePatch`
--   and `DetermineRejections` (core/modrulestore.go). Store/Contents defines the view of a store as
--   a map and its well-formedness; Store/Put, Store/Delete and the modules below Store/Matching and
--   Store/Calculate prove what holds of each. Store/Calculate/Every has the loop that visits
--   every tier, which `CalculatePatch` is compared with, and Store/Calculate/Finish the end of
--   `CalculatePatch`, where the last applied configuration is written back
--   (Store/Annotation/Written). Store/Calculate/Interleaved has the two loops on a store that changes
--   between their rounds; Store/Cluster, that no operation changes the namespace of the cluster-wide
--   rules.
-- - Controller: `Reconcile` (controllers/modrule_controller.go); Controller/Spec for one step,
--   Controller/Converge for sequences of steps, Controller/Accepted for rules that were validated.
-- - Dragnet: the admission webhook (core/dragnetwebhook.go), and in Dragnet/During on a store that
--   changes between the rounds of its loops; Dragnet/References and Dragnet/Inject for the object it
--   hands to the store, Dragnet/Outcome for all that may come of a request. PodBinding: the pod
--   binding webhook (core/podbindingwebhook.go); DryRun: `dryRunHandler` (app/webapp_handlers.go).
--   PodBinding/NodeRef follows a pod from one webhook to the other. The other theorems of each are
--   in a module Spec below it. DryRun/Loaded has the store that the rules of a payload make,
--   DryRun/Response what a response says, DryRun/Answer what is answered.
-- - System: the operator beside an API server that changes, as a step relation. A call of
--   `Reconcile` fetches in one step and acts in another; rules change, fetches fail and the operator
--   starts again in between. What the framework of the controller documents is the premise of the
--   steps: it runs one call at a time, and owes a call for each rule at the start, after each change
--   and after each failure. System/Synced has the invariant, System/Progress the calls that are owed,
--   System/Reach and System/Enforced what it means for a request.
-- - Expressions: the functions and operators that expressions/kubemod_jsonpath.go adds to the query
--   language, with `date()` in Expressions/Date; Expressions/Language puts them together, and
--   Expressions/Evaluated has what an operator of the language evaluates to. NamePool:
--   util/namepool.go.
-- - Operator: the set-up of the operator (app/operatorapp.go, app/wire_gen.go); Process: `run` of
--   main.go as steps of its goroutines, with the web server (app/webapp.go) in
--   Process/Applications.
-- - Prelude: results that may fail or panic, lists, texts, `int16`, maps, lists with distinct keys.
-- - Tests: concrete rules and libraries, and the theorems at them.
--
-- Conventions. `Put` and `Delete` hold the store's lock, so each is one step on the state; so is a
-- round of the loops of `CalculatePatch` and `DetermineRejections`, which take the lock once a round.
-- Store/Calculate has the loops on one store, Store/Calculate/Interleaved on one that changes. A
-- failing call is a `Result`, one that may also panic an `Exec`; a cache keyed by addresses is keyed by
-- indices. `sort.Sort` is not stable, so the sort is a parameter that only rearranges. An `int16` is
-- an integer, and adding one to the greatest wraps. The loops over the tiers take fuel, 65536, the
-- number of values of an `int16`; running out is `none`, and is proved not to happen.
--
-- What is not modelled: logging; the parser of the query language and the JSONPath evaluator
-- (jsonpath, a copy of github.com/PaesslerAG/jsonpath, to which `IsUndefined` was added, which is
-- modelled); when the framework of the controller makes the calls that it owes;
-- `time.ParseInLocation`; the template engine; the servers, their routes, the flags and
-- `GetConfigOrDie`, which may end the process; generated code, mocks and the text diff.
pub mod Prelude
pub mod Json
pub mod Library
pub mod Api
pub mod Paths
pub mod ValueTemplates
pub mod Item
pub mod Store
pub mod Controller
pub mod Kubernetes
pub mod Dragnet
pub mod System
pub mod PodBinding
pub mod Operator
pub mod Process
pub mod DryRun
pub mod Expressions
pub mod NamePool
pub mod Tests
