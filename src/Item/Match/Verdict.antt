-- ===== src/Item/Match/Verdict.antt =====
-- One match item (core/modrulestoreitem.go, `isMatch`): it is judged by one positive verdict, which
-- `negate` inverts.
use kubemod.Prelude.{
  String, ◌==◌, ◌≡◌, refl, Bool, true, false, not, differs, ◌&&◌, Option, none, some, List, [], ◌∷◌,
  eqb, if◌then◌else◌, Result, ok, err, done, arith, Option-cases, inl, inr,
}
use kubemod.Prelude.Lists.{length, any, all}
use kubemod.Json.{Value, null, undefined, boolean, array, elements}
use kubemod.Library.{Library, Evaluable, Regexp}
use kubemod.Api.{ModRule, MatchItem, match_for_type_all}
use kubemod.Item.Match.{
  is_string_match, expression_text, any_loop, all_loop, is_any, match_values, defined, match_result,
  after_values, match_regexp,
}

-- The verdict of a regular expression by its source; a bad one matches nothing.
abbrev pub accepts : Result Regexp → String → Bool
accepts (ok rex) value = rex value
accepts (err e) value = false

-- The criteria of an item on one text: the value, else the values, else the expression, else none.
abbrev pub meets : Library → MatchItem → String → Bool
meets lib m value = elim m.match_value [
  | some v ↦ value == v
  | none ↦ elim m.match_values [
    | [] ↦ elim m.match_regex [ some r ↦ accepts (lib.compile_regexp r) value | none ↦ true ]
    | v ∷ vs ↦ any (λ w. value == w) (v ∷ vs)
  ]
]

module _ (lib : Library) (m : MatchItem) where
  -- Some value meets the criteria, or, unless the item is for any value, all of them do.
  abbrev pub values_meet : List Value → Bool → Bool
  values_meet [] had_undefined = false
  values_meet (v ∷ vs) had_undefined =
      if m.match_for == match_for_type_all && had_undefined
      then false
      else if is_any m.match_for
      then any (λ w. meets lib m (expression_text lib w)) (v ∷ vs)
      else all (λ w. meets lib m (expression_text lib w)) (v ∷ vs)

  -- The positive verdict on what the query returns.
  abbrev pub verdict : Result Value → Bool
  verdict (err e) = false
  verdict (ok null) = false
  verdict (ok undefined) = false
  verdict (ok (boolean b)) = b
  verdict (ok (array vs)) =
      let found = defined (elements vs) in
      values_meet found (not (eqb (length found) (length (elements vs))))
  verdict (ok v) = values_meet (v ∷ []) false

-- The specification of one match item and of a ModRule, with no cache.
abbrev pub query_matches : Library → MatchItem → Value → Result Evaluable → Bool
query_matches lib m v (err e) = false
query_matches lib m v (ok query) = differs (verdict lib m (query v)) m.negate

abbrev pub item_matches : Library → MatchItem → Value → Bool
item_matches lib m v = query_matches lib m v (lib.new_evaluable m.select)

abbrev pub rule_matches : Library → ModRule → Value → Bool
rule_matches lib r v = all (λ m. item_matches lib m v) r.spec.match

module _ (lib : Library) (m : MatchItem) (rex : Option Regexp) where
  -- The cached expression is the compiled source.
  abbrev pub IsCompiled : Type 0
  IsCompiled =
      (r : String)
      → m.match_regex ≡ some r
      → (x : Regexp) × (lib.compile_regexp r ≡ ok x) × (rex ≡ some x)

  is_string_match-meets :
      (value : String) → IsCompiled → is_string_match m rex value ≡ done (meets lib m value)
  unfolding is_string_match after_values match_regexp
  is_string_match-meets value c = elim (Option-cases m.match_regex) [
    | inl e ↦ ground arith
    | inr (r, e) ↦ let (x, compiled, cached_x) = c r e in ground (arith, compiled, cached_x)
  ]

  any_loop_lem :
      (vs : List Value)
      → IsCompiled
      → any_loop lib m rex vs
        ≡ done (differs (any (λ w. meets lib m (expression_text lib w)) vs) m.negate)
  unfolding any_loop
  any_loop_lem [] c = ground arith
  any_loop_lem (v ∷ vs) c =
      rw (is_string_match-meets (expression_text lib v) c) (ground (arith, any_loop_lem vs c))

  all_loop_lem :
      (vs : List Value)
      → IsCompiled
      → all_loop lib m rex vs
        ≡ done (differs (all (λ w. meets lib m (expression_text lib w)) vs) m.negate)
  unfolding all_loop
  all_loop_lem [] c = ground arith
  all_loop_lem (v ∷ vs) c =
      rw (is_string_match-meets (expression_text lib v) c) (ground (arith, all_loop_lem vs c))

  match_values_lem :
      (vs : List Value) (had : Bool)
      → IsCompiled
      → match_values lib m rex vs had ≡ done (differs (values_meet lib m vs had) m.negate)
  unfolding match_values
  match_values_lem [] had c = ground arith
  match_values_lem (v ∷ vs) had c = ground (arith, any_loop_lem (v ∷ vs) c, all_loop_lem (v ∷ vs) c)

  -- If the expression at hand is the compiled source of the match item's, then on every result of
  -- the query the outcome is the positive verdict on it, inverted under `negate`, and nothing
  -- panics.
  pub match_result-verdict :
      (r : Result Value)
      → IsCompiled
      → match_result lib m rex r ≡ done (differs (verdict lib m r) m.negate)
  unfolding match_result
  match_result-verdict (err e) c = ground arith
  match_result-verdict (ok null) c = ground arith
  match_result-verdict (ok undefined) c = ground arith
  match_result-verdict (ok (boolean b)) c = refl
  match_result-verdict (ok (array vs)) c = match_values_lem (defined (elements vs)) _ c
  match_result-verdict (ok v) c = match_values_lem (v ∷ []) false c
