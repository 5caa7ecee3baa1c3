-- ===== src/Controller/Accepted.antt =====
-- From the webhook through the controller to the store: a rule that validation accepts
-- (api/v1beta1/modrule_webhook.go) comes into force (controllers/modrule_controller.go).
use kubemod.Prelude.{
  String, ◌==◌, eq_iff, ◌≡◌, refl, sym, ap, subst, ◌∙◌, true, ◌&&◌, Option, some, [], ok, is_ok,
  if◌then◌else◌, arith,
}
use kubemod.Prelude.Lists.{All}
use kubemod.Library.{Library}
use kubemod.Api.{ModRule}
use kubemod.Api.Validation.{validate_mod_rule}
use kubemod.ValueTemplates.{pre_process_mod_rule_go_template}
use kubemod.Item.{ModRuleStoreItem, new_mod_rule_store_item, compile_target_regex}
use kubemod.Item.Accepted.{SelectCompiles, new_mod_rule_store_item-accepted}
use kubemod.Store.{ModRuleStore, Sort}
use kubemod.Store.Contents.{stored, Rearranges, IsValid}
use kubemod.Controller.{Fetched, found, reconcile}
use kubemod.Controller.Spec.{reconcile-stored, desired, IsNamed}

own_key :
    (namespace name : String) (a b : Option ModRuleStoreItem)
    → (if namespace == namespace && name == name then a else b) ≡ a
own_key namespace name a b = ground (arith, eq_iff namespace namespace, eq_iff name name)

-- A rule that validation accepted is in the store after a reconciliation that fetches it, whatever
-- the store held before, if what validation does not look at is in order: the expression for the
-- target namespaces compiles, and the select expression of each operation compiles in the form in
-- which it is stored, as the key of an object. The store is well formed, the sort leaves the same
-- elements, the API server answers with a rule of the name that it was asked for, and `null` is a
-- template.
pub reconcile-accepted :
    (lib : Library) (sort : Sort)
    → Rearranges sort
    → (get : String → String → Fetched) (s : ModRuleStore) (namespace name : String) (r : ModRule)
    → ((path : String)
        → is_ok (lib.parse_template path (pre_process_mod_rule_go_template "null")) ≡ true)
    → IsValid lib s
    → get namespace name ≡ found r
    → r.name ≡ name
    → validate_mod_rule lib r ≡ []
    → is_ok (compile_target_regex lib r.spec.target_namespace_regex) ≡ true
    → All (SelectCompiles lib) r.spec.patch
    → (si : ModRuleStoreItem) × (new_mod_rule_store_item lib (record r { namespace = namespace })
        ≡ ok si)
      × (stored (reconcile lib sort get s namespace name).0 namespace name ≡ some si)
unfolding validate_mod_rule
reconcile-accepted lib sort rearranges get s namespace name r nulls valid fetched named accepted
      target selects =
    let (si, made) =
      new_mod_rule_store_item-accepted lib (record r { namespace = namespace }) nulls accepted
        target selects in
    let is_named : IsNamed name (get namespace name) = subst (IsNamed name) (sym fetched) named in
    (
      si,
      made,
      reconcile-stored lib sort rearranges get s namespace name namespace name valid is_named
          ∙ own_key namespace name
              (desired lib namespace (stored s namespace name) (get namespace name))
              (stored s namespace name)
          ∙ ap (desired lib namespace (stored s namespace name)) fetched
          ∙ rw made refl,
    )
