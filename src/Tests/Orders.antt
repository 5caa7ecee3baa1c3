-- ===== src/Tests/Orders.antt =====
-- The store under other orders of events, at the fixtures.
use kubemod.Prelude.{ℕ, ◌≢◌, none, some, eqb, if◌then◌else◌, Bool-cases, inl, inr}
use kubemod.Store.{ModRuleStore}
use kubemod.Store.Contents.{IsValid}
use kubemod.Store.Calculate.Interleaved.{calculate_patch_during, determine_rejections_during}
use kubemod.Store.Calculate.Interleaved.Ends.{during-ne-none}
use kubemod.Tests.Fixtures.{lib, empty, pod}
use kubemod.Tests.Stores.{one_rule, one_rule-IsValid, empty-IsValid}

-- A store that has lost its rule by the second round.
abbrev pub emptied : ℕ → ModRuleStore
emptied n = if eqb n 0 then one_rule else empty

pub emptied-IsValid : (n : ℕ) → IsValid lib (emptied n)
emptied-IsValid n = elim (Bool-cases (eqb n 0)) [
  | inl e ↦ rw e one_rule-IsValid
  | inr e ↦ rw e empty-IsValid
]

during-ne-none_example :
    (calculate_patch_during lib emptied "CREATE" "default" (some "{}") ≢ none)
    × (determine_rejections_during lib emptied "CREATE" "default" pod ≢ none)
during-ne-none_example = during-ne-none lib emptied "CREATE" "default" (some "{}") pod
