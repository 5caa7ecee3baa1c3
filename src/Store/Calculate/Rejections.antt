-- ===== src/Store/Calculate/Rejections.antt =====
-- `DetermineRejections` against its specification: one message each time a rejecting rule is met.
use mathlib.Core.List.{Permᴰ, append_assoc, append-nil, map-append}
use mathlib.Core.List.Permᴰ
use kubemod.Prelude.{
  ℕ, zero, suc, ◌<◌, String, ◌==◌, ◌≡◌, refl, sym, ap, subst, ◌∙◌, Bool, true, false, ◌&&◌, some,
  List, [], ◌∷◌, ◌++◌, map, if◌then◌else◌, Exec, done, arith, inl, inr, Bool-cases,
}
use kubemod.Prelude.Int16.{
  ℤ, ◌≤ℤ◌, ◌<ℤ◌, eqb_ℤ, increment, increment_parts, max_int16, min_int16, room,
}
use kubemod.Prelude.Unordered.{append-perm, interchange}
use kubemod.Prelude.Lists.{
  All, All-left, All-right, select, select-append, select-none, All-implied,
}
use kubemod.Prelude.Keyed.{map-perm}
use kubemod.Json.{Value}
use kubemod.Library.{Library}
use kubemod.Api.{mod_rule_type_reject}
use kubemod.Item.{ModRuleStoreItem}
use kubemod.Store.{ModRuleStore, item_tier, items_in}
use kubemod.Store.Contents.{IsValid}
use kubemod.Store.Matching.{admits, targets, get_matching_mod_rule_store_items}
use kubemod.Store.Matching.Lowest.{in_tier, applicable, lowest, lowest-le, applies_in_namespace}
use kubemod.Store.Matching.Bounds.{applicable-ge, lowest-ge, lowest-le-All}
use kubemod.Store.Matching.Spec.{wanted, get_matching_lem}
use kubemod.Store.Calculate.{
  determine_rejections, reject_tiers, run_tiers, add_messages, rejection_message, all_tiers,
}
use kubemod.Store.Calculate.Split.{from_tier, wanted_below, split_tier}

select-own :
    (p : ModRuleStoreItem → Bool) (b : Bool) (xs : List ModRuleStoreItem)
    → (if b then [] else select p xs) ≡ select p (if b then [] else xs)
select-own p true xs = refl
select-own p false xs = refl

module _ (operation namespace : String) (s : ModRuleStore) where
  abbrev cluster_slice : List ModRuleStoreItem
  cluster_slice = items_in s s.cluster_mod_rules_namespace

  abbrev own_slice : List ModRuleStoreItem
  own_slice = if namespace == "" then [] else items_in s namespace

  abbrev reaches_cluster_wide : ModRuleStoreItem → Bool
  reaches_cluster_wide si = targets namespace si && admits operation si

  abbrev cluster_part : (wants : ModRuleStoreItem → Bool) → ℤ → List ModRuleStoreItem
  cluster_part wants m = from_tier reaches_cluster_wide wants m cluster_slice

  abbrev own_part : (wants : ModRuleStoreItem → Bool) → ℤ → List ModRuleStoreItem
  own_part wants m = from_tier (admits operation) wants m own_slice

  applicable-parts :
      (wants : ModRuleStoreItem → Bool) (m : ℤ)
      → applicable operation namespace m s ≡ cluster_part wants m ++ own_part wants m
  unfolding applicable
  applicable-parts wants m =
      ap (λ r. cluster_part wants m ++ r)
        (select-own (applies_in_namespace operation namespace m) (namespace == "")
          (items_in s namespace))

  module _ (wants : ModRuleStoreItem → Bool) where
    -- The rules that a loop from tier `m` up is to run.
    abbrev due : ℤ → List ModRuleStoreItem
    due m = select (wanted_below wants) (applicable operation namespace m s)

    applicable-split :
        (m l : ℤ)
        → m ≤ℤ l
        → l <ℤ max_int16
        → All (λ si. l ≤ℤ item_tier si) (applicable operation namespace m s)
        → Permᴰ
            (select wants (in_tier l (applicable operation namespace m s)) ++ due (increment l))
            (due m)
    applicable-split m l ml lm a =
        let b : All (λ si. l ≤ℤ item_tier si) (cluster_part wants m ++ own_part wants m) =
          subst (All (λ si. l ≤ℤ item_tier si)) (applicable-parts wants m) a in
        rw (applicable-parts wants m, applicable-parts wants (increment l))
          (simp select-append (
            Permᴰ.trans
              (interchange (select wants (in_tier l (cluster_part wants m)))
                (select wants (in_tier l (own_part wants m)))
                (select (wanted_below wants) (cluster_part wants (increment l)))
                (select (wanted_below wants) (own_part wants (increment l))))
              (append-perm
                (split_tier reaches_cluster_wide wants m l ml lm cluster_slice
                  (All-left (λ si. l ≤ℤ item_tier si) (cluster_part wants m) (own_part wants m) b))
                (split_tier (admits operation) wants m l ml lm own_slice (
                  All-right (λ si. l ≤ℤ item_tier si) (cluster_part wants m) (own_part wants m)
                    b)))))

module _ (lib : Library) (s : ModRuleStore) (operation namespace : String) (v : Value) where
  pub add_messages_lem :
      (rules : List ModRuleStoreItem) (messages : List String)
      → add_messages lib s operation namespace v rules messages
        ≡ messages ++ map (rejection_message lib s operation namespace v) rules
  unfolding add_messages
  add_messages_lem [] messages = sym (append-nil messages)
  add_messages_lem (si ∷ rules) messages =
      add_messages_lem rules (messages ++ rejection_message lib s operation namespace v si ∷ [])
      ∙ append_assoc messages (rejection_message lib s operation namespace v si ∷ [])
          (map (rejection_message lib s operation namespace v) rules)

  abbrev rejects : ModRuleStoreItem → Bool
  rejects = wanted lib mod_rule_type_reject v

  abbrev message : ModRuleStoreItem → String
  message = rejection_message lib s operation namespace v

  abbrev next : ℤ → List String → Exec (List ModRuleStoreItem × ℤ)
  next t messages =
      get_matching_mod_rule_store_items lib s operation namespace t mod_rule_type_reject v

  abbrev body : List ModRuleStoreItem → List String → Exec (List String)
  body rules messages = done (add_messages lib s operation namespace v rules messages)

  abbrev Loop : ℕ → ℤ → List String → Type 0
  Loop fuel t messages =
      (out : List String) × (run_tiers next body fuel t messages ≡ some (done (messages ++ out)))
      × Permᴰ out (
          map (rejection_message lib s operation namespace v)
            (due operation namespace s rejects (increment t)))

  module _ (valid : IsValid lib s) where
    module _ (t : ℤ) (h : t <ℤ max_int16) where
      -- The rules that apply from the tier after `t` on, and the lowest of their tiers.
      abbrev ahead : List ModRuleStoreItem
      ahead = applicable operation namespace (increment t) s

      abbrev tier : ℤ
      tier = lowest max_int16 ahead

      tier-ge : increment t ≤ℤ tier
      tier-ge =
          lowest-ge (increment t) max_int16 ahead (omega (arith, increment_parts t))
            (applicable-ge operation namespace (increment t) s)

      due-none : eqb_ℤ tier max_int16 ≡ true → due operation namespace s rejects (increment t) ≡ []
      due-none last = select-none (wanted_below rejects) ahead (
          All-implied (λ si. tier ≤ℤ item_tier si) (λ si. wanted_below rejects si ≡ false)
            (λ si le. ground (arith, last, le)) ahead (lowest-le-All max_int16 ahead))

      -- The messages of this round and of the later ones are those of the rules that are due.
      round-perm :
          (out : List String)
          → tier <ℤ max_int16
          → Permᴰ out (map message (due operation namespace s rejects (increment tier)))
          → Permᴰ
              (map message (select rejects (in_tier tier ahead)) ++ out)
              (map message (due operation namespace s rejects (increment t)))
      round-perm out more p =
          Permᴰ.trans (Permᴰ.append_left (map message (select rejects (in_tier tier ahead))) p) (
            rw (← map-append) (
              map-perm message (
                applicable-split operation namespace s rejects (increment t) tier tier-ge more
                  (lowest-le-All max_int16 ahead))))

    reject-Loop :
        (fuel : ℕ) (t : ℤ) (messages : List String)
        → t <ℤ max_int16
        → room t < fuel
        → Loop fuel t messages
    unfolding run_tiers
    reject-Loop zero t messages h r = absurd (omega arith)
    reject-Loop (suc fuel) t messages h r = elim (Bool-cases (eqb_ℤ (tier t h) max_int16)) [
      | inl last ↦ (
        [],
        rw (
          get_matching_lem lib operation namespace (increment t) s valid mod_rule_type_reject v,
          last,
          append-nil,
        ),
        rw (due-none t h last) Permᴰ.nil,
      )
      | inr more ↦
          let below : tier t h <ℤ max_int16 =
            ground (arith, more, lowest-le max_int16 (ahead t h)) in
          let now = map message (select rejects (in_tier (tier t h) (ahead t h))) in
          let (out, runs, p) =
            reject-Loop fuel (tier t h) (messages ++ now) below
              (omega (arith, increment_parts t, tier-ge t h)) in
          (
            now ++ out,
            rw
                (
                  get_matching_lem lib operation namespace (increment t) s valid
                      mod_rule_type_reject v,
                  more,
                  add_messages_lem,
                  ← append_assoc,
                )
                runs,
            round-perm t h out below p,
          )
    ]

-- The rules of a store that reject an object: they apply to the request, are of type Reject, match
-- the object, and have a tier that the loop reaches. A rule stands in the list once for each slice in
-- which it applies, that of the cluster-wide rules and that of the namespace: a rule of the namespace
-- of the cluster-wide rules whose expression matches this namespace too applies in both, and stands
-- in the list twice.
abbrev pub rejecting_rules :
    Library → ModRuleStore → String → String → Value → List ModRuleStoreItem
rejecting_rules lib s operation namespace v =
    select (wanted_below (wanted lib mod_rule_type_reject v))
      (applicable operation namespace (increment min_int16) s)

-- On a well-formed store `DetermineRejections` ends without a panic, with one message for each entry
-- of the list of rejecting rules, in some order. A rule rejects the object if it has the type Reject
-- and a tier above the least and below the greatest `int16`, applies to the request, and matches the
-- object; it is an entry of the list once as a cluster-wide rule and once as a rule of the object's
-- namespace, and so twice where it is both.
pub determine_rejections-rejecting_rules :
    (lib : Library) (s : ModRuleStore) (operation namespace : String) (v : Value)
    → IsValid lib s
    → (messages : List String) × (determine_rejections lib s operation namespace v
        ≡ some (done messages))
      × Permᴰ messages (
          map
            (rejection_message lib s operation namespace v)
            (rejecting_rules lib s operation namespace v))
unfolding determine_rejections reject_tiers
determine_rejections-rejecting_rules lib s operation namespace v valid =
    reject-Loop lib s operation namespace v valid all_tiers min_int16 [] (omega arith) (omega arith)
