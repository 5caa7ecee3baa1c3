-- ===== src/DryRun/Answer.antt =====
-- What a dry run answers (app/webapp_handlers.go).
use mathlib.Core.List.{Permᴰ}
use kubemod.Prelude.{
  String, ◌≡◌, refl, sym, subst, ap, Option, none, some, List, map, Result, ok, err, Exec, done,
  fail, panic, >>=-eq-done, done-injective, some-injective, arith,
}
use kubemod.Prelude.Lists.{All}
use kubemod.Json.{Value}
use kubemod.Library.{Library, Bytes, JsonPatchOperation}
use kubemod.Store.{ModRuleStore, Sort, new_mod_rule_store}
use kubemod.Store.Contents.{Rearranges, IsValid}
use kubemod.Store.Calculate.{calculate_store_patch, determine_rejections, rejection_message}
use kubemod.Store.Calculate.Rejections.{rejecting_rules, determine_rejections-rejecting_rules}
use kubemod.Controller.Converge.{new_mod_rule_store-IsValid}
use kubemod.DryRun.{
  Tools, DryRunRequest, DryRunResponse, HttpAnswer, response_body, all_reported, dry_run_handler,
  dry_run_answer, load_rules, run_loaded, run_on, then_reject, respond, diff_text,
  dry_run_namespace, dry_run_operation,
}
use kubemod.DryRun.Loaded.{IsAccepted, Holds, load_rules-Holds, load_rules-accepted}
use kubemod.DryRun.Response.{IsDiff, diff_text-IsDiff, IsDiff-diff_text, IsResponse}

module _ (lib : Library) (sort : Sort) (tools : Tools) where
  module _ (rearranges : Rearranges sort) where
    all_reported-ok :
        (o : Option (Exec DryRunResponse)) (a : HttpAnswer)
        → all_reported o ≡ some (done a)
        → a.status ≡ 200
        → (response : DryRunResponse) × (o ≡ some (done response))
          × (a.body ≡ response_body response)
    all_reported-ok none a h k = absurd (cc)
    all_reported-ok (some panic) a h k = absurd (cc)
    all_reported-ok (some (fail e)) a h k =
        let same = done-injective (some-injective h) in
        absurd (omega (arith, ap (λ (b : HttpAnswer). b.status) same))
    all_reported-ok (some (done response)) a h k =
        let same = done-injective (some-injective h) in
        (response, refl, sym (ap (λ (b : HttpAnswer). b.body) same))

    respond-IsResponse :
        (cluster : String) (request : DryRunRequest) (s : ModRuleStore) (original : Bytes)
        (patched : Value) (ops : List JsonPatchOperation) (response : DryRunResponse)
        → load_rules lib sort tools (new_mod_rule_store cluster) request.mod_rules ≡ done s
        → lib.marshal request.resource_manifest ≡ ok original
        → calculate_store_patch lib s dry_run_operation dry_run_namespace original
          ≡ some (done (patched, ops))
        → respond lib sort tools original
            (patched, ops)
            (determine_rejections lib s dry_run_operation dry_run_namespace patched)
          ≡ some (done response)
        → IsResponse lib tools cluster request response
    respond-IsResponse cluster request s original patched ops response loads marshalled calculated
          h =
        let (valid, accepted, holds) =
          load_rules-Holds lib sort rearranges tools request.mod_rules (new_mod_rule_store cluster)
            s (new_mod_rule_store-IsValid lib cluster) loads in
        let (messages, runs, p) =
          determine_rejections-rejecting_rules lib s dry_run_operation dry_run_namespace patched
            valid in
        let (diff, differs, made) =
          >>=-eq-done (diff_text lib sort tools original patched ops)
            (λ diff. done (record { patch = ops; diff = diff; rejections = messages }))
            (some-injective (rw runs at h)) in
        subst (IsResponse lib tools cluster request) (done-injective made) (record {
          store = s;
          original = original;
          patched = patched;
          accepted = accepted;
          valid = valid;
          holds = holds;
          marshalled = marshalled;
          calculated = calculated;
          rejections = p;
          diff = diff_text-IsDiff lib sort tools original patched ops diff differs;
        })

    then_reject-IsResponse :
        (cluster : String) (request : DryRunRequest) (s : ModRuleStore) (original : Bytes)
        (response : DryRunResponse) (o : Option (Exec (Value × List JsonPatchOperation)))
        → load_rules lib sort tools (new_mod_rule_store cluster) request.mod_rules ≡ done s
        → lib.marshal request.resource_manifest ≡ ok original
        → calculate_store_patch lib s dry_run_operation dry_run_namespace original ≡ o
        → then_reject lib sort tools s original o ≡ some (done response)
        → IsResponse lib tools cluster request response
    then_reject-IsResponse cluster request s original response none l m c h = absurd (cc)
    then_reject-IsResponse cluster request s original response (some panic) l m c h = absurd (cc)
    then_reject-IsResponse cluster request s original response (some (fail e)) l m c h = absurd (cc)
    then_reject-IsResponse cluster request s original response (some (done (patched, ops))) l m c
          h =
        respond-IsResponse cluster request s original patched ops response l m c h

    run_on-IsResponse :
        (cluster : String) (request : DryRunRequest) (s : ModRuleStore) (r : Result Bytes)
        (response : DryRunResponse)
        → load_rules lib sort tools (new_mod_rule_store cluster) request.mod_rules ≡ done s
        → lib.marshal request.resource_manifest ≡ r
        → run_on lib sort tools s r ≡ some (done response)
        → IsResponse lib tools cluster request response
    run_on-IsResponse cluster request s (err e) response l m h = absurd (cc)
    run_on-IsResponse cluster request s (ok original) response l m h =
        then_reject-IsResponse cluster request s original response _ l m refl h

    run_loaded-IsResponse :
        (cluster : String) (request : DryRunRequest) (loaded : Exec ModRuleStore)
        (response : DryRunResponse)
        → load_rules lib sort tools (new_mod_rule_store cluster) request.mod_rules ≡ loaded
        → run_loaded lib sort tools request.resource_manifest loaded ≡ some (done response)
        → IsResponse lib tools cluster request response
    run_loaded-IsResponse cluster request panic response l h = absurd (cc)
    run_loaded-IsResponse cluster request (fail e) response l h = absurd (cc)
    run_loaded-IsResponse cluster request (done s) response l h =
        run_on-IsResponse cluster request s _ response l refl h

    -- With a sort that only rearranges: if a dry run answers with the status 200, then the payload
    -- was bound, every rule in it is accepted by validation after its preparation and compiles, and
    -- the body is the response: its patch is the one that `CalculatePatch` makes of the manifest on
    -- a well-formed store that holds the last rule of each name and nothing else, its rejections are
    -- the messages of the rules that reject the patched manifest, in some order, and its diff is that
    -- of the two documents in YAML, or empty for an empty patch.
    pub dry_run_answer-IsResponse :
        (cluster : String) (payload : Result DryRunRequest) (a : HttpAnswer)
        → dry_run_answer lib sort tools cluster payload ≡ some (done a)
        → a.status ≡ 200
        → (request : DryRunRequest) × (response : DryRunResponse) × (payload ≡ ok request)
          × (a.body ≡ response_body response)
          × IsResponse lib tools cluster request response
    unfolding dry_run_answer dry_run_handler
    dry_run_answer-IsResponse cluster (err e) a h k =
        let same = done-injective (some-injective h) in
        absurd (omega (arith, ap (λ (b : HttpAnswer). b.status) same))
    dry_run_answer-IsResponse cluster (ok request) a h k =
        let (response, runs, body) = all_reported-ok _ a h k in
        (request, response, refl, body, run_loaded-IsResponse cluster request _ response refl runs)

    -- With a sort that only rearranges, and if every rule of a request is accepted by validation after
    -- its preparation and compiles, and the manifest can be marshalled: there is a well-formed store
    -- that holds the last rule of each name and nothing else, such that, if `CalculatePatch` on it
    -- makes a patch and the diff is made, the dry run answers with the status 200, the patch, the diff
    -- and the messages of the rules that reject the patched manifest, in some order.
    pub dry_run_answer-accepted :
        (cluster : String) (request : DryRunRequest) (original : Bytes)
        → All (IsAccepted lib) request.mod_rules
        → lib.marshal request.resource_manifest ≡ ok original
        → (s : ModRuleStore) × IsValid lib s
          × Holds lib request.mod_rules (new_mod_rule_store cluster) s
          × ((patched : Value) (ops : List JsonPatchOperation) (diff : String)
              → calculate_store_patch lib s dry_run_operation dry_run_namespace original
                ≡ some (done (patched, ops))
              → IsDiff tools original patched ops diff
              → (messages : List String) × Permᴰ messages (
                  map
                    (rejection_message lib s dry_run_operation dry_run_namespace patched)
                    (rejecting_rules lib s dry_run_operation dry_run_namespace patched))
                × (dry_run_answer lib sort tools cluster (ok request)
                    ≡ some (
                        done (record {
                          status = 200;
                          body =
                              response_body
                                (record { patch = ops; diff = diff; rejections = messages });
                        }))))
    unfolding dry_run_answer dry_run_handler
    dry_run_answer-accepted cluster request original accepted marshalled =
        let (s, loads) =
          load_rules-accepted lib sort rearranges tools request.mod_rules
            (new_mod_rule_store cluster) accepted in
        let (valid, _, holds) =
          load_rules-Holds lib sort rearranges tools request.mod_rules (new_mod_rule_store cluster)
            s (new_mod_rule_store-IsValid lib cluster) loads in
        (
          s,
          valid,
          holds,
          λ patched ops diff calculated differs.
              let (messages, runs, p) =
                determine_rejections-rejecting_rules lib s dry_run_operation dry_run_namespace
                  patched valid in
              (
                messages,
                p,
                rw (loads, marshalled, calculated, runs, IsDiff-diff_text lib sort tools differs)
                    refl,
              ),
        )
