-- ===== src/Item/Match.antt =====
-- `IsMatch`, `isMatch` and `isStringMatch` (core/modrulestoreitem.go).
pub mod Verdict
pub mod Spec
use kubemod.Prelude.{
  ℕ, zero, suc, String, ◌==◌, Bool, true, false, not, differs, ◌&&◌, ◌||◌, Option, none, some, List,
  [], ◌∷◌, eqb, if◌then◌else◌, is_some, Result, ok, err, Exec, done, panic, ◌>>=◌,
}
use kubemod.Prelude.Lists.{length, any, select}
use kubemod.Json.{Value, null, undefined, boolean, string, array, elements, is_undefined}
use kubemod.Library.{Library, Evaluable, Regexp}
use kubemod.Api.{MatchItem, match_for_type_any, match_for_type_all}
use kubemod.Item.{ModRuleStoreItem, cached}

-- `*matchRegexp` of a nil pointer panics.
match_regexp : Option Regexp → String → Exec Bool
match_regexp none value = panic
match_regexp (some rex) value = done (rex value)

after_values : MatchItem → Option Regexp → String → Exec Bool
unfolding match_regexp
after_values m rex value = if is_some m.match_regex then match_regexp rex value else done true

unfoldable pub is_string_match : MatchItem → Option Regexp → String → Exec Bool
unfolding after_values
is_string_match m rex value = elim m.match_value [
  | some v ↦ done (value == v)
  | none ↦ elim m.match_values [
    | [] ↦ after_values m rex value
    | v ∷ vs ↦ done (any (λ w. value == w) (v ∷ vs))
  ]
]

-- The text of a value: the string itself, or `%v` of it.
unfoldable pub expression_text : Library → Value → String
expression_text lib (string s) = s
expression_text lib v = lib.format_value v

abbrev pub is_any : String → Bool
is_any f = f == match_for_type_any || f == ""

-- The values of a result that are not undefined.
abbrev pub defined : List Value → List Value
defined = select (λ v. not (is_undefined v))

module _ (lib : Library) (m : MatchItem) (rex : Option Regexp) where
  -- The loop over the values under `Any`: the first match ends it.
  unfoldable pub any_loop : List Value → Exec Bool
  unfolding is_string_match expression_text
  any_loop [] = done m.negate
  any_loop (v ∷ vs) = is_string_match m rex (expression_text lib v) >>= λ b.
      if b then done (not m.negate) else any_loop vs

  -- Otherwise the first value that does not match ends it.
  all_loop : List Value → Exec Bool
  unfolding is_string_match expression_text
  all_loop [] = done (not m.negate)
  all_loop (v ∷ vs) = is_string_match m rex (expression_text lib v) >>= λ b.
      if b then all_loop vs else done m.negate

  -- The values that are not undefined, and whether the result held an undefined one.
  unfoldable pub match_values : List Value → Bool → Exec Bool
  unfolding any_loop all_loop
  match_values [] had_undefined = done m.negate
  match_values vs had_undefined =
      if m.match_for == match_for_type_all && had_undefined
      then done m.negate
      else if is_any m.match_for
      then any_loop vs
      else all_loop vs

  unfoldable pub match_result : Result Value → Exec Bool
  unfolding match_values
  match_result (err e) = done m.negate
  match_result (ok null) = done m.negate
  match_result (ok undefined) = done m.negate
  match_result (ok (boolean b)) = done (differs b m.negate)
  match_result (ok (array vs)) =
      let found = defined (elements vs) in
      match_values found (not (eqb (length found) (length (elements vs))))
  match_result (ok v) = match_values (v ∷ []) false

-- `isMatch`; the call of a select that is not in the cache panics.
unfoldable pub is_item_match : Library → ModRuleStoreItem → ℕ → MatchItem → Value → Exec Bool
unfolding match_result cached
is_item_match lib si i m v = elim (cached i si.compiled_match_selects) [
  | none ↦ panic
  | some select ↦ match_result lib m (cached i si.compiled_regexes) (select v)
]

-- `IsMatch`: the loop over the match items from index `i` on.
unfoldable pub is_match_from : Library → ModRuleStoreItem → ℕ → List MatchItem → Value → Exec Bool
unfolding is_item_match
is_match_from lib si i [] v = done true
is_match_from lib si i (m ∷ ms) v =
    is_item_match lib si i m v >>= λ b. if b then is_match_from lib si (suc i) ms v else done false

unfoldable pub is_match : Library → ModRuleStoreItem → Value → Exec Bool
unfolding is_match_from
is_match lib si v = is_match_from lib si 0 si.mod_rule.spec.match v
