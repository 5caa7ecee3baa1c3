-- ===== src/Tests/Texts.antt =====
-- The texts of the rules: paths, keys, templates and dates.
use kubemod.Prelude.{
  ℕ, String, ◌==◌, ◌≡◌, refl, true, none, List, [], ◌∷◌, map, if◌then◌else◌, Result, ok, err, is_ok,
  arith,
}
use kubemod.Prelude.Int16.{pos}
use kubemod.Prelude.Dict.{Dict}
use kubemod.Prelude.Text.{concat}
use kubemod.Prelude.Member.{In}
use kubemod.Prelude.Decimal.{atoi}
use kubemod.Json.{string}
use kubemod.Library.{KeyPart, number, word}
use kubemod.Paths.{
  show_part, path_template_to_sprintf_template, path_from_key_parts, key_parts_from_select_key,
}
use kubemod.Paths.Render.{PathTemplate, IsTemplate, print, fill}
use kubemod.Paths.Render.Filled.{path_from_key_parts-print}
use kubemod.Paths.SelectKey.{print_select_key, key_parts_from_select_key-print}
use kubemod.Expressions.Date.{Layout, layouts, date_gval_function}
use kubemod.Expressions.Date.Spec.{IsFirst, date_gval_function-IsFirst}
use kubemod.Tests.Fixtures.{lib}

-- `/c/#1/env/#0#7`: a number, a word, and a key that is not there.
abbrev three_holes : PathTemplate
three_holes = record {
  first = "/c/";
  holes =
      record { index = 1; after = "/e/" }
      ∷ record { index = 0; after = "" }
      ∷ record { index = 7; after = "" }
      ∷ [];
}

abbrev two_keys : List KeyPart
two_keys = word "app" ∷ number (pos 2) ∷ []

three_holes-IsTemplate : IsTemplate three_holes
three_holes-IsTemplate = (
  ((refl, (refl, (refl, tt))), (refl, (refl, (refl, tt)))),
  (
    record {
      fits = omega arith;
      text = ((refl, (refl, (refl, tt))), (refl, (refl, (refl, tt))));
      ends = refl;
    },
    (
      record { fits = omega arith; text = (tt, tt); ends = tt },
      (record { fits = omega arith; text = (tt, tt); ends = tt }, tt),
    ),
  ),
)

path_from_key_parts-print_example :
    path_from_key_parts lib two_keys (path_template_to_sprintf_template lib (print three_holes))
    ≡ fill two_keys three_holes
path_from_key_parts-print_example =
    path_from_key_parts-print lib two_keys three_holes three_holes-IsTemplate
      ((refl, (refl, (refl, tt))), (tt, tt))

app-no_number : atoi "app" ≡ none
unfolding atoi
app-no_number = refl

-- `strconv.Quote` on texts with nothing to escape.
abbrev between_quotes : String → String
between_quotes s = concat "\"" (concat s "\"")

key_parts_from_select_key-print_example :
    key_parts_from_select_key (print_select_key between_quotes (map show_part two_keys)) ≡ two_keys
key_parts_from_select_key-print_example =
    key_parts_from_select_key-print between_quotes (λ s h. refl) two_keys
      (
        (record { nonempty = refl; chars = (refl, (refl, (refl, tt))) }, app-no_number),
        (omega arith, tt),
      )

abbrev functions : Dict ℕ
functions = ("upper", 1) ∷ ("env", 2) ∷ []

abbrev parse_year : Layout → String → Result ℕ
parse_year l s = if s == "2006" then ok 2006 else err "no year"

date_gval_function-IsFirst_example :
    ((t : ℕ)
      → date_gval_function parse_year (string "2006" ∷ []) ≡ ok t
      → (s : String) × (string "2006" ∷ [] ≡ string s ∷ []) × IsFirst parse_year layouts s t)
    × ((s : String) (l : Layout)
        → string "2006" ∷ [] ≡ string s ∷ []
        → In l layouts
        → is_ok (parse_year l s) ≡ true
        → is_ok (date_gval_function parse_year (string "2006" ∷ [])) ≡ true)
date_gval_function-IsFirst_example = date_gval_function-IsFirst parse_year (string "2006" ∷ [])
