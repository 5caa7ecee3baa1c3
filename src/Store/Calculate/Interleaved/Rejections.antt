-- ===== src/Store/Calculate/Interleaved/Rejections.antt =====
-- `DetermineRejections` while the store changes: what the messages are then worth.
use mathlib.Core.List.{append_assoc, append-nil}
use kubemod.Prelude.{
  ℕ, zero, suc, ◌<◌, String, ◌≡◌, refl, Bool, true, some, List, [], ◌++◌, map, done, arith, inl,
  inr, Bool-cases,
}
use kubemod.Prelude.Int16.{
  ℤ, ◌≤ℤ◌, ◌<ℤ◌, eqb_ℤ, increment, increment_parts, max_int16, min_int16, room,
}
use kubemod.Prelude.Lists.{All-++, All, select, All-implied}
use kubemod.Prelude.Member.{
  In, In-append_left, In-append_right, In-select, In-of_select, All-In, In-map,
}
use kubemod.Json.{Value}
use kubemod.Library.{Library}
use kubemod.Api.{mod_rule_type_reject}
use kubemod.Item.{ModRuleStoreItem}
use kubemod.Store.{ModRuleStore, item_tier}
use kubemod.Store.Contents.{IsValid}
use kubemod.Store.Matching.Lowest.{in_tier, applicable, lowest, lowest-le}
use kubemod.Store.Matching.Spec.{wanted, get_matching_lem}
use kubemod.Store.Matching.Bounds.{applicable-ge, lowest-ge, lowest-le-All}
use kubemod.Store.Calculate.{run_tiers, all_tiers, rejection_message}
use kubemod.Store.Calculate.Split.{wanted_below}
use kubemod.Store.Calculate.Rejections.{rejecting_rules, add_messages_lem}
use kubemod.Store.Calculate.Interleaved.{rejects_at, reject_round, determine_rejections_during}
use kubemod.Store.Calculate.Interleaved.Applicable.{In-applicable_ge, In-applicable, All-map}

module _ (lib : Library) (stores : ℕ → ModRuleStore) (operation namespace : String)
    (v : Value) where
  abbrev rejects : ModRuleStoreItem → Bool
  rejects = wanted lib mod_rule_type_reject v

  -- The rules that reject the object from a tier up, in the store of round `j`.
  abbrev due_at : ℕ → ℤ → List ModRuleStoreItem
  due_at j m = select (wanted_below rejects) (applicable operation namespace m (stores j))

  abbrev message : ModRuleStoreItem → String
  message = rejection_message lib (stores 0) operation namespace v

  -- A message of a rule that rejects the object in the store of some round.
  abbrev pub IsFrom : ℤ → String → Type 0
  IsFrom m text = (j : ℕ) × (si : ModRuleStoreItem) × In si (due_at j m) × (text ≡ message si)

  -- The rules that reject the object in the stores of all rounds have their messages.
  abbrev pub Covers : ℤ → List String → Type 0
  Covers m out = (si : ModRuleStoreItem) → ((j : ℕ) → In si (due_at j m)) → In (message si) out

  abbrev Loop : ℕ → ℤ → ℕ → List String → Type 0
  Loop fuel t n messages =
      (last : ℕ) × (out : List String) × (run_tiers (rejects_at lib stores operation namespace v)
          (reject_round lib stores operation namespace v) fuel t (n, messages)
        ≡ some (done (last, messages ++ out)))
      × All (IsFrom (increment t)) out
      × Covers (increment t) out

  In-due_at_ge : (j : ℕ) (m : ℤ) (si : ModRuleStoreItem) → In si (due_at j m) → m ≤ℤ item_tier si
  In-due_at_ge j m si i =
      In-applicable_ge operation namespace (stores j) si m
        (In-of_select (wanted_below rejects) si (applicable operation namespace m (stores j)) i).0

  In-due_at :
      (j : ℕ) (l m : ℤ) (si : ModRuleStoreItem)
      → m ≤ℤ item_tier si
      → In si (due_at j l)
      → In si (due_at j m)
  In-due_at j l m si h i =
      let (a, w) =
        In-of_select (wanted_below rejects) si (applicable operation namespace l (stores j)) i in
      In-select (wanted_below rejects) si (applicable operation namespace m (stores j))
        (In-applicable operation namespace (stores j) si l m h a) w

  module _ (t : ℤ) (h : t <ℤ max_int16) (n : ℕ) where
    abbrev ahead : List ModRuleStoreItem
    ahead = applicable operation namespace (increment t) (stores n)

    abbrev tier : ℤ
    tier = lowest max_int16 ahead

    abbrev now : List ModRuleStoreItem
    now = select rejects (in_tier tier ahead)

    tier-ge : increment t ≤ℤ tier
    tier-ge =
        lowest-ge (increment t) max_int16 ahead (omega (arith, increment_parts t))
          (applicable-ge operation namespace (increment t) (stores n))

    tier-le : (si : ModRuleStoreItem) → In si (due_at n (increment t)) → tier ≤ℤ item_tier si
    tier-le si i =
        All-In (λ x. tier ≤ℤ item_tier x) si ahead (lowest-le-All max_int16 ahead)
          (In-of_select (wanted_below rejects) si ahead i).0

    Covers-last : eqb_ℤ tier max_int16 ≡ true → Covers (increment t) []
    Covers-last last si all_rounds =
        let below = (In-of_select (wanted_below rejects) si ahead (all_rounds n)).1 in
        let le = tier-le si (all_rounds n) in absurd (ground (arith, last, below, le))

    module _ (more : tier <ℤ max_int16) where
      In-now : (si : ModRuleStoreItem) → In si now → In si (due_at n (increment t))
      In-now si i =
          let (here, wants) = In-of_select rejects si (in_tier tier ahead) i in
          let (there, same) = In-of_select (λ x. eqb_ℤ (item_tier x) tier) si ahead here in
          In-select (wanted_below rejects) si ahead there (ground (arith, wants, same, more))

      IsFrom-later : (text : String) → IsFrom (increment tier) text → IsFrom (increment t) text
      IsFrom-later text (j, si, i, e) =
          let le = In-due_at_ge j (increment tier) si i in
          (
            j,
            si,
            In-due_at j (increment tier) (increment t) si
                (omega (arith, tier-ge, le, increment_parts tier more)) i,
            e,
          )

      Covers-round :
          (out : List String)
          → Covers (increment tier) out
          → Covers (increment t) (map message now ++ out)
      Covers-round out later si all_rounds = elim (Bool-cases (eqb_ℤ (item_tier si) tier)) [
        | inl same ↦
            let (there, wants) = In-of_select (wanted_below rejects) si ahead (all_rounds n) in
            In-append_left (message si) (map message now) out (
              In-map message si now (
                In-select rejects si (in_tier tier ahead)
                  (In-select (λ x. eqb_ℤ (item_tier x) tier) si ahead there same)
                  (ground (arith, wants))))
        | inr other ↦
            let le = tier-le si (all_rounds n) in
            let above : increment tier ≤ℤ item_tier si =
              ground (arith, other, le, increment_parts tier more) in
            In-append_right (message si) (map message now) out
              (later si (λ j. In-due_at j (increment t) (increment tier) si above (all_rounds j)))
      ]

  reject-Loop :
      ((j : ℕ) → IsValid lib (stores j))
      → (fuel : ℕ) (t : ℤ) (n : ℕ) (messages : List String) → t <ℤ max_int16
      → room t < fuel
      → Loop fuel t n messages
  unfolding run_tiers
  reject-Loop valid zero t n messages h r = absurd (omega arith)
  reject-Loop valid (suc fuel) t n messages h r = elim (Bool-cases (eqb_ℤ (tier t h n) max_int16)) [
    | inl last ↦ (
      n,
      [],
      rw (
        get_matching_lem lib operation namespace (increment t) (stores n) (valid n)
            mod_rule_type_reject v,
        last,
        append-nil,
      ),
      tt,
      Covers-last t h n last,
    )
    | inr more ↦
        let below : tier t h n <ℤ max_int16 =
          ground (arith, more, lowest-le max_int16 (ahead t h n)) in
        let (last, out, runs, from, covers) =
          reject-Loop valid fuel (tier t h n) (suc n) (messages ++ map message (now t h n)) below
            (omega (arith, increment_parts t, tier-ge t h n)) in
        (
          last,
          map message (now t h n) ++ out,
          rw
              (
                get_matching_lem lib operation namespace (increment t) (stores n) (valid n)
                    mod_rule_type_reject v,
                more,
                add_messages_lem,
                ← append_assoc,
              )
              runs,
          All-++ (IsFrom (increment t)) (map message (now t h n)) out
              (All-map (IsFrom (increment t)) message (now t h n)
                (λ si i. (n, si, In-now t h n below si i, refl)))
              (All-implied (IsFrom (increment (tier t h n))) (IsFrom (increment t))
                (IsFrom-later t h n below) out from),
          Covers-round t h n below out covers,
        )
  ]

  -- Let the store change between the rounds, and be well formed in each. Then `DetermineRejections`
  -- ends without a panic; each of its messages is that of a rule that rejects the object in the store
  -- of some round; and a rule that rejects the object in the stores of all rounds has its message.
  pub determine_rejections_during-rejecting_rules :
      ((j : ℕ) → IsValid lib (stores j))
      → (messages : List String) × (determine_rejections_during lib stores operation namespace v
          ≡ some (done messages))
        × All
            (λ text.
              (j : ℕ) × (si : ModRuleStoreItem) × In si
                (rejecting_rules lib (stores j) operation namespace v)
              × (text ≡ message si))
            messages
        × ((si : ModRuleStoreItem)
            → ((j : ℕ) → In si (rejecting_rules lib (stores j) operation namespace v))
            → In (message si) messages)
  unfolding determine_rejections_during
  determine_rejections_during-rejecting_rules valid =
      let (last, out, runs, from, covers) =
        reject-Loop valid all_tiers min_int16 0 [] (omega arith) (omega arith) in
      (out, rw runs, from, covers)
