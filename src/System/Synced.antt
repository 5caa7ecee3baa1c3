-- ===== src/System/Synced.antt =====
-- The store agrees with the API server wherever the framework owes no call
-- (controllers/modrule_controller.go).
use kubemod.Prelude.{
  String, ◌==◌, eq_iff, ◌≡◌, refl, sym, subst, eq_of_some, ◌∙◌, Bool, true, false, ◌&&◌, Option,
  none, some, if◌then◌else◌, is_some, Error, arith, Bool-cases, inl, inr,
}
use kubemod.Prelude.Dict
use kubemod.Prelude.Keyed.{find}
use kubemod.Library.{Library}
use kubemod.Api.{ModRule}
use kubemod.Store.{Sort, new_mod_rule_store, items_in}
use kubemod.Store.Contents.{stored, Rearranges, IsValid}
use kubemod.Controller.{failed}
use kubemod.Controller.Spec.{
  IsNamed, desired, reconcile_fetched-stored, reconcile_fetched-IsValid, reconcile_fetched-cluster,
}
use kubemod.Controller.Converge.{Settles, desired-Settles, new_mod_rule_store-IsValid, both}
use kubemod.System.{
  System, Call, answer, updated, started_system, finished, fetches, Move, changed, fetched_rule,
  fetched_nothing, acted, restarted, Reached, at_start, moved,
}

abbrev pub is_running : Option Call → String → String → Bool
is_running none n m = false
is_running (some c) n m = c.namespace == n && c.name == m

-- The store holds for a key what the server does, if that compiles.
abbrev pub Agrees : Library → System → String → String → Type 0
Agrees lib st n m =
    Settles lib n (answer (st.server n m))
    → stored st.store n m ≡ desired lib n none (answer (st.server n m))

pub record IsSynced (lib : Library) (cluster : String) (st : System) : Type 0 where
  pub valid : IsValid lib st.store
  pub home : st.store.cluster_mod_rules_namespace ≡ cluster
  pub named : (n m : String) → IsNamed m (answer (st.server n m))
  pub running_named : (c : Call) → st.running ≡ some c → IsNamed c.name c.fetched
  pub fresh :
      (c : Call)
      → st.running ≡ some c
      → st.pending c.namespace c.name ≡ false
      → c.fetched ≡ answer (st.server c.namespace c.name)
  pub agrees :
      (n m : String)
      → st.pending n m ≡ false
      → is_running st.running n m ≡ false
      → Agrees lib st n m

stored-new_mod_rule_store : (cluster n m : String) → stored (new_mod_rule_store cluster) n m ≡ none
unfolding stored items_in find Dict.get
stored-new_mod_rule_store cluster n m = refl

-- A key that is not marked is not the one that was marked, and was not marked before.
unmarked : (b p : Bool) → (if b then true else p) ≡ false → (b ≡ false) × (p ≡ false)
unmarked true p h = absurd (cc)
unmarked false p h = (refl, h)

none-is_some : {A : Type 0} (o : Option A) → is_some o ≡ false → o ≡ none
none-is_some none h = refl
none-is_some (some a) h = absurd (cc)

module _ (lib : Library) (sort : Sort) (rearranges : Rearranges sort) (cluster : String) where
  started_system-IsSynced :
      (server : String → String → Option ModRule)
      → ((n m : String) → IsNamed m (answer (server n m)))
      → IsSynced lib cluster (started_system cluster server)
  started_system-IsSynced server named = record {
    valid = new_mod_rule_store-IsValid lib cluster;
    home = refl;
    named = named;
    running_named = λ c h. absurd (cc);
    fresh = λ c h p. absurd (cc);
    agrees =
        λ n m p q settles. rw (none-is_some (server n m) p) (stored-new_mod_rule_store cluster n m);
  }

  IsNamed-updated :
      (server : String → String → Option ModRule) (namespace name : String) (o : Option ModRule)
      → ((n m : String) → IsNamed m (answer (server n m)))
      → IsNamed name (answer o)
      → (n m : String) → IsNamed m (answer (updated namespace name o server n m))
  IsNamed-updated server namespace name o named h n m =
      elim (Bool-cases (namespace == n && name == m)) [
        | inl e ↦ rw e (
            subst (λ x. IsNamed x (answer o))
              ((eq_iff name m).0 (both (namespace == n) (name == m) e).1) h)
        | inr e ↦ rw e (named n m)
      ]

  changed-IsSynced :
      (st : System) (namespace name : String) (o : Option ModRule)
      → IsNamed name (answer o)
      → IsSynced lib cluster st
      → IsSynced lib cluster (record st {
        server = updated namespace name o st.server;
        pending = updated namespace name true st.pending;
      })
  changed-IsSynced st namespace name o h i = record {
    valid = i.valid;
    home = i.home;
    named = IsNamed-updated st.server namespace name o i.named h;
    running_named = i.running_named;
    fresh = λ c r p.
        let (other, before) = unmarked (namespace == c.namespace && name == c.name) _ p in
        rw other (i.fresh c r before);
    agrees = λ n m p q.
        let (other, before) = unmarked (namespace == n && name == m) _ p in
        rw other (i.agrees n m before q);
  }

  fetched_rule-IsSynced :
      (st : System) (namespace name : String)
      → st.running ≡ none
      → IsSynced lib cluster st
      → IsSynced lib cluster (fetches st namespace name (answer (st.server namespace name)) false)
  fetched_rule-IsSynced st namespace name idle i = record {
    valid = i.valid;
    home = i.home;
    named = i.named;
    running_named =
        λ c h. subst (λ c. IsNamed c.name c.fetched) (eq_of_some h) (i.named namespace name);
    fresh =
        λ c h p. subst (λ c. c.fetched ≡ answer (st.server c.namespace c.name)) (eq_of_some h) refl;
    agrees = λ n m p q. i.agrees n m (rw q at p) (rw idle refl);
  }

  fetched_nothing-IsSynced :
      (st : System) (namespace name : String) (e : Error)
      → st.running ≡ none
      → IsSynced lib cluster st
      → IsSynced lib cluster (fetches st namespace name (failed e) true)
  fetched_nothing-IsSynced st namespace name e idle i = record {
    valid = i.valid;
    home = i.home;
    named = i.named;
    running_named = λ c h. subst (λ c. IsNamed c.name c.fetched) (eq_of_some h) tt;
    fresh = λ c h p.
        let marked : updated namespace name true st.pending namespace name ≡ false =
          subst (λ c. updated namespace name true st.pending c.namespace c.name ≡ false)
            (sym (eq_of_some h)) p in
        absurd (ground (arith, marked, eq_iff namespace namespace, eq_iff name name));
    agrees = λ n m p q. i.agrees n m (rw q at p) (rw idle refl);
  }

  acted-Agrees :
      (st : System) (c : Call) (n m : String)
      → st.running ≡ some c
      → IsSynced lib cluster st
      → st.pending n m ≡ false
      → Agrees lib (finished lib sort st c) n m
  acted-Agrees st c n m h i p settles = elim (Bool-cases (c.namespace == n && c.name == m)) [
    | inr other ↦
        reconcile_fetched-stored lib sort rearranges st.store c.namespace c.name n m c.fetched
          i.valid (i.running_named c h)
        ∙ rw other (i.agrees n m p (rw (h, other) refl) settles)
    | inl same ↦
        let (same_n, same_m) = both (c.namespace == n) (c.name == m) same in
        let k₀ : c.namespace ≡ n = (eq_iff c.namespace n).0 same_n in
        let k₁ : c.name ≡ m = (eq_iff c.name m).0 same_m in
        let now : c.fetched ≡ answer (st.server n m) =
          i.fresh c h (rw (k₀, k₁) p) ∙ rw (k₀, k₁) refl in
        reconcile_fetched-stored lib sort rearranges st.store c.namespace c.name n m c.fetched
          i.valid (i.running_named c h)
        ∙ rw (same, k₀, k₁, now)
            (desired-Settles lib n (answer (st.server n m)) (stored st.store n m) none settles)
  ]

  acted-IsSynced :
      (st : System) (c : Call)
      → st.running ≡ some c
      → IsSynced lib cluster st
      → IsSynced lib cluster (finished lib sort st c)
  acted-IsSynced st c h i = record {
    valid =
        reconcile_fetched-IsValid lib sort rearranges st.store c.namespace c.name c.fetched i.valid;
    home = reconcile_fetched-cluster lib sort st.store c.namespace c.name c.fetched ∙ i.home;
    named = i.named;
    running_named = λ c h. absurd (cc);
    fresh = λ c h p. absurd (cc);
    agrees = λ n m p q. acted-Agrees st c n m h i p;
  }

  -- With a sort that leaves the same elements, a step of the system keeps it synced.
  pub Move-IsSynced :
      {st st' : System}
      → Move lib sort cluster st st'
      → IsSynced lib cluster st
      → IsSynced lib cluster st'
  Move-IsSynced {st} (changed namespace name o h) i = changed-IsSynced st namespace name o h i
  Move-IsSynced {st} (fetched_rule namespace name idle) i =
      fetched_rule-IsSynced st namespace name idle i
  Move-IsSynced {st} (fetched_nothing namespace name e idle) i =
      fetched_nothing-IsSynced st namespace name e idle i
  Move-IsSynced {st} (acted c h) i = acted-IsSynced st c h i
  Move-IsSynced {st} restarted i = started_system-IsSynced st.server i.named

  -- With a sort that leaves the same elements, in every state that the system reaches: the store is
  -- well formed and has the namespace of the cluster-wide rules that it started with; a call that
  -- runs for a key for which no other is owed has fetched what the server holds; and for a key for
  -- which no call is owed or runs, the store holds what the server does, if that compiles.
  pub Reached-IsSynced : (st : System) → Reached lib sort cluster st → IsSynced lib cluster st
  Reached-IsSynced st (at_start server named) = started_system-IsSynced server named
  Reached-IsSynced st (moved r m) = Move-IsSynced m (Reached-IsSynced _ r)
