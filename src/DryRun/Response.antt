-- ===== src/DryRun/Response.antt =====
-- What the response of a dry run says (app/webapp_handlers.go).
use mathlib.Core.List.{Permᴰ}
use kubemod.Prelude.{
  String, ◌≡◌, refl, subst, ap, some, List, [], ◌∷◌, map, Result, ok, err, done, lift, >>=-eq-done,
  done-injective,
}
use kubemod.Prelude.Lists.{All}
use kubemod.Json.{Value}
use kubemod.Library.{Library, Bytes, JsonPatchOperation}
use kubemod.Store.{ModRuleStore, Sort, new_mod_rule_store}
use kubemod.Store.Contents.{IsValid}
use kubemod.Store.Calculate.{calculate_store_patch, rejection_message}
use kubemod.Store.Calculate.Rejections.{rejecting_rules}
use kubemod.DryRun.{
  Tools, DryRunRequest, DryRunResponse, diff_text, dry_run_namespace, dry_run_operation,
}
use kubemod.DryRun.Loaded.{IsAccepted, Holds}

lift-eq-done : {A : Type 0} (r : Result A) {a : A} → lift r ≡ done a → r ≡ ok a
lift-eq-done (ok a) h = ap ok (done-injective h)
lift-eq-done (err e) h = absurd (cc)

module _ (tools : Tools) where
  -- The diff of an answer: empty for an empty patch, and otherwise that of the two documents in YAML.
  pub data IsDiff (original : Bytes) (patched : Value)
      : List JsonPatchOperation → String → Type 0 where
    no_patch : IsDiff original patched [] ""
    of_patch :
        (op : JsonPatchOperation) (ops : List JsonPatchOperation) (a b : Bytes) (diff : String)
        → tools.json_to_yaml original ≡ ok a
        → tools.marshal_yaml patched ≡ ok b
        → tools.diff a b ≡ ok diff
        → IsDiff original patched (op ∷ ops) diff

module _ (lib : Library) (sort : Sort) (tools : Tools) where
  pub diff_text-IsDiff :
      (original : Bytes) (patched : Value) (ops : List JsonPatchOperation) (diff : String)
      → diff_text lib sort tools original patched ops ≡ done diff
      → IsDiff tools original patched ops diff
  unfolding diff_text
  diff_text-IsDiff original patched [] diff h =
      subst (IsDiff tools original patched []) (done-injective h) no_patch
  diff_text-IsDiff original patched (op ∷ ops) diff h =
      let (a, h₁, rest) = >>=-eq-done (lift (tools.json_to_yaml original)) _ h in
      let (b, h₂, h₃) = >>=-eq-done (lift (tools.marshal_yaml patched)) _ rest in
      of_patch op ops a b diff (lift-eq-done _ h₁) (lift-eq-done _ h₂) (lift-eq-done _ h₃)

  pub IsDiff-diff_text :
      {original : Bytes} {patched : Value} {ops : List JsonPatchOperation} {diff : String}
      → IsDiff tools original patched ops diff
      → diff_text lib sort tools original patched ops ≡ done diff
  unfolding diff_text
  IsDiff-diff_text no_patch = refl
  IsDiff-diff_text (of_patch op ops a b diff h₁ h₂ h₃) = rw (h₁, h₂, h₃) refl

module _ (lib : Library) (tools : Tools) where
  -- What the response to a request says: every rule is accepted; the patch is calculated from the
  -- manifest by a well-formed store with the last rule of each name; the rejections are those of the
  -- patched document; and the diff is that of the two.
  pub record IsResponse (cluster : String) (request : DryRunRequest) (response : DryRunResponse)
      : Type 0 where
    pub store : ModRuleStore
    pub original : Bytes
    pub patched : Value
    pub accepted : All (IsAccepted lib) request.mod_rules
    pub valid : IsValid lib store
    pub holds : Holds lib request.mod_rules (new_mod_rule_store cluster) store
    pub marshalled : lib.marshal request.resource_manifest ≡ ok original
    pub calculated :
        calculate_store_patch lib store dry_run_operation dry_run_namespace original
        ≡ some (done (patched, response.patch))
    pub rejections : Permᴰ response.rejections (
        map
          (rejection_message lib store dry_run_operation dry_run_namespace patched)
          (rejecting_rules lib store dry_run_operation dry_run_namespace patched))
    pub diff : IsDiff tools original patched response.patch response.diff
