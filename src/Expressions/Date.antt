-- ===== src/Expressions/Date.antt =====
-- `date()` of the query language (expressions/kubemod_jsonpath.go). `time.ParseInLocation` is a
-- parameter.
pub mod Spec
use kubemod.Prelude.{String, List, [], ◌∷◌, Result, ok, err, Error}
use kubemod.Prelude.Text.{concat}
use kubemod.Json.{Value, string}

-- The layouts that the code tries: constants of the package `time`, and texts.
pub data Layout : Type 0 where
  ansic unix_date ruby_date kitchen rfc3339 rfc3339_nano : Layout
  layout : String → Layout

abbrev pub layouts : List Layout
layouts =
    ansic
    ∷ unix_date
    ∷ ruby_date
    ∷ kitchen
    ∷ rfc3339
    ∷ rfc3339_nano
    ∷ layout "2006-01-02"
    ∷ layout "2006-01-02 15:04"
    ∷ layout "2006-01-02 15:04:05"
    ∷ layout "2006-01-02 15:04:05-07:00"
    ∷ layout "2006-01-02T15Z0700"
    ∷ layout "2006-01-02T15:04Z0700"
    ∷ layout "2006-01-02T15:04:05Z0700"
    ∷ layout "2006-01-02T15:04:05.999999999Z0700"
    ∷ []

module _ {ℓ} {T : Type ℓ} (parse_in_location : Layout → String → Result T) where
  -- The loop over the layouts.
  pub try_layouts : List Layout → String → Result T
  try_layouts [] s = err (concat "date() could not parse " s)
  try_layouts (l ∷ rest) s = elim (parse_in_location l s) [
    | ok t ↦ ok t
    | err e ↦ try_layouts rest s
  ]

  unfoldable pub date_gval_function : List Value → Result T
  unfolding try_layouts
  date_gval_function (string s ∷ []) = try_layouts layouts s
  date_gval_function _ = err "date() expects exactly one string argument"
