-- ===== src/ValueTemplates/Safe.antt =====
-- The functions that a template can call (util/template.go).
use kubemod.Prelude.{
  String, ◌==◌, ◌≡◌, refl, Bool, false, ◌||◌, none, List, [], ◌∷◌, if◌then◌else◌, Bool-cases, inl,
  inr,
}
use kubemod.Prelude.Dict.{Dict, get, remove, get-remove}
use kubemod.ValueTemplates.{block_funcs, remove_all, new_safe_template}

abbrev pub is_listed : String → List String → Bool
is_listed name [] = false
is_listed name (n ∷ names) = n == name || is_listed name names

get-remove_all {ℓ} :
    {F : Type ℓ} (name : String) (names : List String) (functions : Dict F)
    → get name (remove_all names functions)
      ≡ (if is_listed name names then none else get name functions)
unfolding remove_all get
get-remove_all name [] functions = refl
get-remove_all name (n ∷ names) functions =
    let ih = get-remove_all name names (remove n functions) in
    let removed = get-remove n name functions in
    rw (ih, removed)
      (elim (Bool-cases (n == name)) [
        | inl e ↦
            rw e
              (elim (Bool-cases (is_listed name names)) [ inl l ↦ rw l refl | inr l ↦ rw l refl ])
        | inr e ↦ rw e refl
      ])

-- A template calls every function of the library except those that reveal the environment.
pub get-new_safe_template {ℓ} :
    {F : Type ℓ} (name : String) (functions : Dict F)
    → get name (new_safe_template functions)
      ≡ (if is_listed name block_funcs then none else get name functions)
unfolding new_safe_template
get-new_safe_template name functions = get-remove_all name block_funcs functions
