-- ===== src/Expressions/Date/Spec.antt =====
-- What `date()` returns (expressions/kubemod_jsonpath.go).
use kubemod.Prelude.{
  String, ◌≡◌, refl, sym, ap, subst, ◌∙◌, true, false, List, [], ◌∷◌, ◌++◌, Result, ok, is_ok,
  arith, Result-cases, inl, inr,
}
use kubemod.Prelude.Lists.{All}
use kubemod.Prelude.Member.{In}
use kubemod.Json.{Value, string}
use kubemod.Expressions.Date.{Layout, layouts, try_layouts, date_gval_function}

abbrev only_string : List Value → String
only_string (string s ∷ []) = s
only_string _ = ""

module _ {ℓ} {T : Type ℓ} (parse_in_location : Layout → String → Result T) where
  -- The first layout of a list that reads the text, as `t`.
  pub record IsFirst (tried : List Layout) (s : String) (t : T) : Type ℓ where
    before : List Layout
    reads : Layout
    after : List Layout
    split : tried ≡ before ++ (reads ∷ after)
    fail : All (λ l. is_ok (parse_in_location l s) ≡ false) before
    parsed : parse_in_location reads s ≡ ok t

  try_layouts-IsFirst :
      (tried : List Layout) (s : String) (t : T)
      → try_layouts parse_in_location tried s ≡ ok t
      → IsFirst tried s t
  unfolding try_layouts
  try_layouts-IsFirst [] s t h = absurd (ground (arith, h))
  try_layouts-IsFirst (l ∷ rest) s t h = elim (Result-cases (parse_in_location l s)) [
    | inl (u, e) ↦ record {
      before = [];
      reads = l;
      after = rest;
      split = refl;
      fail = tt;
      parsed = e ∙ (rw (try_layouts, e) at h);
    }
    | inr (x, e) ↦
        let r = try_layouts-IsFirst rest s t (rw (try_layouts, e) at h) in
        record {
          before = l ∷ r.before;
          reads = r.reads;
          after = r.after;
          split = ap (◌∷◌ l) r.split;
          fail = (rw e refl, r.fail);
          parsed = r.parsed;
        }
  ]

  is_ok-try_layouts :
      (tried : List Layout) (s : String) (l : Layout)
      → In l tried
      → is_ok (parse_in_location l s) ≡ true
      → is_ok (try_layouts parse_in_location tried s) ≡ true
  unfolding try_layouts
  is_ok-try_layouts [] s l i h = absurd i
  is_ok-try_layouts (x ∷ rest) s l i h = elim (Result-cases (parse_in_location x s)) [
    | inl (u, e) ↦ rw (try_layouts, e) refl
    | inr (y, e) ↦
        rw (try_layouts, e)
          (elim i [
            | inl same ↦
                let h2 = subst (λ k. is_ok (parse_in_location k s) ≡ true) same h in
                let impossible : false ≡ true = rw e at h2 in absurd (ground (arith, impossible))
            | inr j ↦ is_ok-try_layouts rest s l j h
          ])
  ]

  -- The value of `date()` is what the first layout that reads its one string makes of it, and it is
  -- an error only where the argument is not one string or no layout reads it.
  pub date_gval_function-IsFirst :
      (arguments : List Value)
      → ((t : T)
          → date_gval_function parse_in_location arguments ≡ ok t
          → (s : String) × (arguments ≡ string s ∷ []) × IsFirst layouts s t)
        × ((s : String) (l : Layout)
            → arguments ≡ string s ∷ []
            → In l layouts
            → is_ok (parse_in_location l s) ≡ true
            → is_ok (date_gval_function parse_in_location arguments) ≡ true)
  unfolding date_gval_function try_layouts
  date_gval_function-IsFirst [] =
      (λ t h. absurd (ground (arith, h)), λ s l e i h. absurd (ground (arith, e)))
  date_gval_function-IsFirst (string s ∷ []) = (
    λ t h. (s, refl, try_layouts-IsFirst layouts s t h),
    λ s' l e i h.
        is_ok-try_layouts layouts s l i
          (subst (λ u. is_ok (parse_in_location l u) ≡ true) (sym (ap only_string e)) h),
  )
  date_gval_function-IsFirst (v ∷ w ∷ rest) =
      (λ t h. absurd (ground (arith, h)), λ s l e i h. absurd (ground (arith, e)))
  date_gval_function-IsFirst (v ∷ []) =
      (λ t h. absurd (ground (arith, h)), λ s l e i h. absurd (ground (arith, e)))
