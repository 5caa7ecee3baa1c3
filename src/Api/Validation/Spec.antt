-- ===== src/Api/Validation/Spec.antt =====
-- What validation guarantees to the store, and what it does not look at.
use kubemod.Prelude.{
  String, ◌==◌, ◌≡◌, refl, Bool, true, false, ◌&&◌, ◌||◌, not, List, [], ◌∷◌, ◌++◌, arith, ◌⊎◌, inl,
  inr, eq_iff, is_some,
}
use kubemod.Prelude.Int16.{
  ℤ, pos, negsuc, ◌≤ℤ◌, ◌<ℤ◌, IsInt16, eqb_ℤ, increment, max_int16, min_int16,
}
use kubemod.Library.{Library}
use kubemod.Api.{ModRule, ModRuleSpec, mod_rule_type_patch, mod_rule_type_reject}
use kubemod.Api.Validation.{
  validate_mod_rule, validate_head, validate_match, validate_patch, FieldPath, error_if, is_empty,
}

pub append-eq-nil : {A : Type 0} (xs ys : List A) → xs ++ ys ≡ [] → (xs ≡ []) × (ys ≡ [])
append-eq-nil [] ys h = (refl, h)
append-eq-nil (x ∷ xs) ys h = absurd (cc)

no_error : (b : Bool) (at : FieldPath) (message : String) → error_if b at message ≡ [] → b ≡ false
no_error true at message h = absurd (cc)
no_error false at message h = refl

-- The bounds of the tiers that the loops reach.
inner_tier :
    (t : ℤ)
    → IsInt16 t
    → eqb_ℤ t min_int16 || eqb_ℤ t max_int16 ≡ false
    → (increment min_int16 ≤ℤ t) × (t <ℤ max_int16)
unfolding increment
inner_tier (pos n) range h = ground arith
inner_tier (negsuc n) range h = ground arith

module _ (spec : ModRuleSpec) (accepted : validate_head spec ≡ []) where
  -- What the five tests of the head say when none of them reports an error.
  head_tests :
      (not (spec.type == mod_rule_type_patch) && not (spec.type == mod_rule_type_reject) ≡ false)
      × (not (spec.type == mod_rule_type_patch) && not (is_empty spec.patch) ≡ false)
      × ((spec.type == mod_rule_type_patch) && is_empty spec.patch ≡ false)
      × (not (spec.type == mod_rule_type_reject) && is_some spec.reject_message ≡ false)
      × (eqb_ℤ spec.execution_tier min_int16 || eqb_ℤ spec.execution_tier max_int16 ≡ false)
  unfolding validate_head
  head_tests =
      let (abcd, e) = append-eq-nil _ _ accepted in
      let (abc, d) = append-eq-nil _ _ abcd in
      let (ab, c) = append-eq-nil _ _ abc in
      let (a, b) = append-eq-nil _ _ ab in
      (no_error _ _ _ a, no_error _ _ _ b, no_error _ _ _ c, no_error _ _ _ d, no_error _ _ _ e)

one_of_two :
    {t a b : String}
    → (p q : Bool) → (p ≡ true → t ≡ a)
    → (q ≡ true → t ≡ b)
    → not p && not q ≡ false
    → (t ≡ a) ⊎ (t ≡ b)
one_of_two true q f g h = inl (f refl)
one_of_two false true f g h = inr (g refl)
one_of_two false false f g h = absurd (cc)

same_test : (p q : Bool) → not p && not q ≡ false → p && q ≡ false → q ≡ not p
same_test p q h k = ground arith

message_test : (q m : Bool) → not q && m ≡ false → m ≡ true → q ≡ true
message_test q m h k = ground arith

module _ (lib : Library) (r : ModRule) (accepted : validate_mod_rule lib r ≡ []) where
  head-accepted : validate_head r.spec ≡ []
  unfolding validate_mod_rule
  head-accepted =
      (append-eq-nil (validate_head r.spec) _
        (append-eq-nil (validate_head r.spec ++ validate_match lib 0 r.spec.match) _
          (append-eq-nil
            (validate_head r.spec
              ++ validate_match lib 0 r.spec.match
              ++ validate_patch lib 0 r.spec.patch)
            _ accepted).0).0).0

  -- A rule that validation accepts, and whose tier is an `int16`, has one of the two types; it has
  -- patch operations exactly if it is a Patch rule, and a message only if it is a Reject rule; and
  -- its tier is above the least and below the greatest `int16`, so that the loops reach it.
  pub validate_mod_rule-accepted :
      IsInt16 r.spec.execution_tier
      → ((r.spec.type ≡ mod_rule_type_patch) ⊎ (r.spec.type ≡ mod_rule_type_reject))
        × (is_empty r.spec.patch ≡ not (r.spec.type == mod_rule_type_patch))
        × ((is_some r.spec.reject_message ≡ true) → r.spec.type ≡ mod_rule_type_reject)
        × (increment min_int16 ≤ℤ r.spec.execution_tier)
        × (r.spec.execution_tier <ℤ max_int16)
  validate_mod_rule-accepted range =
      let (a, b, c, d, e) = head_tests r.spec head-accepted in
      (
        one_of_two _ _ (eq_iff r.spec.type mod_rule_type_patch).0
            (eq_iff r.spec.type mod_rule_type_reject).0 a,
        same_test _ _ b c,
        λ m. (eq_iff r.spec.type mod_rule_type_reject).0 (message_test _ _ d m),
        (inner_tier r.spec.execution_tier range e).0,
        (inner_tier r.spec.execution_tier range e).1,
      )
