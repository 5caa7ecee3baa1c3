-- ===== src/Store/Calculate/Split.antt =====
-- One round of a loop over the tiers, on one slice of rules: the lowest tier and what lies above.
use mathlib.Core.List.{Permᴰ}
use mathlib.Core.List.Permᴰ
use kubemod.Prelude.{
  ◌≡◌, refl, Bool, true, false, ◌&&◌, List, [], ◌∷◌, ◌++◌, arith, inl, inr, Bool-cases,
}
use kubemod.Prelude.Int16.{
  ℤ, ◌≤ℤ◌, ◌<ℤ◌, ltb_ℤ, leb_ℤ, eqb_ℤ, increment, increment_parts, max_int16,
}
use kubemod.Prelude.Lists.{All, select}
use kubemod.Item.{ModRuleStoreItem}
use kubemod.Store.{item_tier}
use kubemod.Store.Matching.Lowest.{in_tier}

-- The rules that are wanted below the greatest tier.
abbrev pub wanted_below : (ModRuleStoreItem → Bool) → ModRuleStoreItem → Bool
wanted_below wants si = ltb_ℤ (item_tier si) max_int16 && wants si

-- One slice: the rules from a tier up that pass the test `rest`.
module _ (rest wants : ModRuleStoreItem → Bool) where
  abbrev pub from_tier : ℤ → List ModRuleStoreItem → List ModRuleStoreItem
  from_tier m = select (λ si. leb_ℤ m (item_tier si) && rest si)

  module _ (m l : ℤ) (ml : m ≤ℤ l) (l_max : l <ℤ max_int16) where
    -- A rule that is not in reach of the scan is not in reach of the next one.
    out_of_reach :
        (x : ModRuleStoreItem)
        → (leb_ℤ m (item_tier x) && rest x) ≡ false
        → (leb_ℤ (increment l) (item_tier x) && rest x) ≡ false
    out_of_reach x h = ground (arith, h, increment_parts l l_max)

    at_tier :
        (x : ModRuleStoreItem)
        → eqb_ℤ (item_tier x) l ≡ true
        → ((leb_ℤ (increment l) (item_tier x) && rest x) ≡ false)
          × (ltb_ℤ (item_tier x) max_int16 ≡ true)
    at_tier x h = (ground (arith, h, increment_parts l l_max), ground (arith, h))

    above_tier :
        (x : ModRuleStoreItem)
        → (leb_ℤ m (item_tier x) && rest x) ≡ true
        → l ≤ℤ item_tier x
        → eqb_ℤ (item_tier x) l ≡ false
        → (leb_ℤ (increment l) (item_tier x) && rest x) ≡ true
    above_tier x h lx e = ground (arith, h, e, increment_parts l l_max)

    -- The rules of the lowest tier and those above it are all that are wanted.
    pub split_tier :
        (xs : List ModRuleStoreItem)
        → All (λ si. l ≤ℤ item_tier si) (from_tier m xs)
        → Permᴰ
            (select wants (in_tier l (from_tier m xs))
              ++ select (wanted_below wants) (from_tier (increment l) xs))
            (select (wanted_below wants) (from_tier m xs))
    split_tier [] a = Permᴰ.nil
    split_tier (x ∷ xs) a = elim (Bool-cases (leb_ℤ m (item_tier x) && rest x)) [
      | inr out ↦ rw (out, out_of_reach x out) (split_tier xs (rw out at a))
      | inl h ↦
          let a' : All (λ si. l ≤ℤ item_tier si) (x ∷ from_tier m xs) = rw h at a in
          elim (Bool-cases (eqb_ℤ (item_tier x) l)) [
            | inl at ↦
                let (skip, below) = at_tier x at in
                elim (Bool-cases (wants x)) [
                  | inl w ↦ rw (h, skip, at, below, w) (Permᴰ.cons refl (split_tier xs a'.1))
                  | inr w ↦ rw (h, skip, at, below, w) (split_tier xs a'.1)
                ]
            | inr not_at ↦ elim (Bool-cases (wanted_below wants x)) [
              | inl w ↦
                  rw (h, above_tier x h a'.0 not_at, not_at, w)
                    (Permᴰ.trans (Permᴰ.middle x _ _) (Permᴰ.cons refl (split_tier xs a'.1)))
              | inr w ↦ rw (h, above_tier x h a'.0 not_at, not_at, w) (split_tier xs a'.1)
            ]
          ]
    ]
