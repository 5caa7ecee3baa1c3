-- ===== src/DryRun.antt =====
-- The dry run of the web application (app/webapp_handlers.go). The factory's queries are those of
-- the operator. `none` in a list of rules is a JSON null, whose methods panic.
pub mod Spec
pub mod Loaded
pub mod Response
pub mod Answer
use kubemod.Prelude.{
  ℕ, String, Bool, true, false, Option, none, some, List, [], ◌∷◌, if◌then◌else◌, Result, ok, err,
  Error, Exec, done, fail, panic, ◌>>=◌, lift, and_then,
}
use kubemod.Json.{Value}
use kubemod.Library.{Library, Bytes, JsonPatchOperation}
use kubemod.Api.{ModRule}
use kubemod.Api.Validation.{default, validate_mod_rule, FieldError}
use kubemod.Store.{ModRuleStore, Sort, new_mod_rule_store, put}
use kubemod.Store.Calculate.{calculate_store_patch, determine_rejections}

abbrev pub dry_run_namespace : String
dry_run_namespace = "dryrun-namespace"

abbrev pub dry_run_operation : String
dry_run_operation = ""

pub record DryRunRequest : Type 0 where
  pub resource_manifest : Value
  pub mod_rules : List (Option ModRule)

pub record DryRunResponse : Type 0 where
  pub patch : List JsonPatchOperation
  pub diff : String
  pub rejections : List String

-- What the handler calls besides the store: YAML, the diff, and the text of a list of field errors.
pub record Tools : Type 0 where
  pub json_to_yaml : Bytes → Result Bytes
  pub marshal_yaml : Value → Result Bytes
  pub diff : Bytes → Bytes → Result String
  pub invalid : String → List FieldError → Error

-- The rule as the handler stores it: with its defaults, and in the namespace of the dry run.
abbrev pub prepared : ModRule → ModRule
prepared r = record (default r) { namespace = dry_run_namespace }

module _ (lib : Library) (sort : Sort) (tools : Tools) where
  abbrev put_result : ModRuleStore × Result (Unit {0}) → Exec ModRuleStore
  put_result (s, ok u) = done s
  put_result (s, err e) = fail e

  unfoldable pub validated_put : ModRuleStore → ModRule → List FieldError → Exec ModRuleStore
  validated_put s r [] = put_result (put lib sort s r)
  validated_put s r (e ∷ es) = fail (tools.invalid r.name (e ∷ es))

  -- The loop over the rules of the payload.
  unfoldable pub load_rules : ModRuleStore → List (Option ModRule) → Exec ModRuleStore
  unfolding validated_put
  load_rules s [] = done s
  load_rules s (none ∷ rest) = panic
  load_rules s (some r ∷ rest) =
      validated_put s (prepared r) (validate_mod_rule lib (prepared r)) >>= λ s'. load_rules s' rest

  -- The diff is made only for a patch that is not empty.
  pub diff_text : Bytes → Value → List JsonPatchOperation → Exec String
  diff_text original patched [] = done ""
  diff_text original patched (op ∷ ops) = lift (tools.json_to_yaml original) >>= λ a.
      lift (tools.marshal_yaml patched) >>= λ b. lift (tools.diff a b)

  abbrev respond :
      Bytes
      → Value × List JsonPatchOperation
      → Option (Exec (List String))
      → Option (Exec DryRunResponse)
  respond original (patched, ops) none = none
  respond original (patched, ops) (some r) = some (
      r >>= λ rejections. diff_text original patched ops >>= λ diff.
      done (record { patch = ops; diff = diff; rejections = rejections }))

  abbrev then_reject :
      ModRuleStore
      → Bytes
      → Option (Exec (Value × List JsonPatchOperation))
      → Option (Exec DryRunResponse)
  then_reject s original none = none
  then_reject s original (some panic) = some panic
  then_reject s original (some (fail e)) = some (fail e)
  then_reject s original (some (done p)) =
      respond original p (determine_rejections lib s dry_run_operation dry_run_namespace p.0)

  abbrev run_on : ModRuleStore → Result Bytes → Option (Exec DryRunResponse)
  run_on s (err e) = some (fail e)
  run_on s (ok original) =
      then_reject s original
        (calculate_store_patch lib s dry_run_operation dry_run_namespace original)

  abbrev run_loaded : Value → Exec ModRuleStore → Option (Exec DryRunResponse)
  run_loaded manifest panic = some panic
  run_loaded manifest (fail e) = some (fail e)
  run_loaded manifest (done s) = run_on s (lib.marshal manifest)

  -- `dryRunHandler` on a payload that was bound. A failure is reported as a bad request; `none`
  -- means that a loop over the tiers ran out of fuel.
  unfoldable pub dry_run_handler : String → DryRunRequest → Option (Exec DryRunResponse)
  unfolding load_rules diff_text
  dry_run_handler cluster request =
      run_loaded request.resource_manifest
        (load_rules (new_mod_rule_store cluster) request.mod_rules)

-- The JSON of an answer: the response, or an object with the text of an error.
pub data Body : Type 0 where
  response_body : DryRunResponse → Body
  error_body : Error → Body

-- What the handler hands to `c.JSON`.
pub record HttpAnswer : Type 0 where
  pub status : ℕ
  pub body : Body

abbrev pub report_bad_request : Error → HttpAnswer
report_bad_request e = record { status = 400; body = error_body e }

-- The answer with the response, or that of `reportBadRequest`.
abbrev pub reported : Exec DryRunResponse → Exec HttpAnswer
reported (done response) = done (record { status = 200; body = response_body response })
reported (fail e) = done (report_bad_request e)
reported panic = panic

abbrev all_reported : Option (Exec DryRunResponse) → Option (Exec HttpAnswer)
all_reported none = none
all_reported (some r) = some (reported r)

-- `dryRunHandler`, with what the web framework makes of the payload.
unfoldable pub dry_run_answer :
    Library → Sort → Tools → String → Result DryRunRequest → Option (Exec HttpAnswer)
unfolding dry_run_handler
dry_run_answer lib sort tools cluster (err e) = some (done (report_bad_request e))
dry_run_answer lib sort tools cluster (ok request) =
    all_reported (dry_run_handler lib sort tools cluster request)
