-- ===== src/Item/Match/Spec.antt =====
-- `IsMatch` on an item that `NewModRuleStoreItem` made (core/modrulestoreitem.go): it decides its
-- ModRule with no panic.
use kubemod.Prelude.{
  ℕ, suc, ◌<◌, String, ◌≡◌, refl, Option, some, List, [], ◌∷◌, ok, done, arith, subst, ap, ◌∙◌,
  ok-injective, and_then-eq-ok, Option-cases, inl, inr,
}
use kubemod.Prelude.Lists.{all}
use kubemod.Json.{Value}
use kubemod.Library.{Library, Evaluable, Regexp}
use kubemod.Api.{ModRule, MatchItem}
use kubemod.Item.{
  ModRuleStoreItem, Cache, cached, new_mod_rule_store_item, compiled_selects_from,
  compiled_regexes_from, new_compiled_match_selects, new_compiled_regexes, with_regex,
}
use kubemod.Item.Factory.{new_mod_rule_store_item-IsCompiledFrom}
use kubemod.Item.Match.{is_item_match, is_match_from, is_match}
use kubemod.Item.Match.Verdict.{IsCompiled, item_matches, match_result-verdict, rule_matches}

-- What the loop over the items needs of the caches, from index `i` on.
abbrev Covers : Library → ModRuleStoreItem → ℕ → List MatchItem → Type 0
Covers lib si i [] = Unit
Covers lib si i (m ∷ ms) =
    ((query : Evaluable) × (lib.new_evaluable m.select ≡ ok query)
      × (cached i si.compiled_match_selects ≡ some query)
      × IsCompiled lib m (cached i si.compiled_regexes))
    × Covers lib si (suc i) ms

pub is_item_match-Covers :
    (lib : Library) (si : ModRuleStoreItem) (i : ℕ) (m : MatchItem) (v : Value) (query : Evaluable)
    → lib.new_evaluable m.select ≡ ok query
    → cached i si.compiled_match_selects ≡ some query
    → IsCompiled lib m (cached i si.compiled_regexes)
    → is_item_match lib si i m v ≡ done (item_matches lib m v)
unfolding is_item_match
is_item_match-Covers lib si i m v query compiled found rex =
    rw (compiled, found, is_item_match)
      (match_result-verdict lib m (cached i si.compiled_regexes) (query v) rex)

is_match_from-Covers :
    (lib : Library) (si : ModRuleStoreItem) (i : ℕ) (ms : List MatchItem) (v : Value)
    → Covers lib si i ms
    → is_match_from lib si i ms v ≡ done (all (λ m. item_matches lib m v) ms)
unfolding is_match_from
is_match_from-Covers lib si i [] v c = refl
is_match_from-Covers lib si i (m ∷ ms) v ((query, compiled, found, rex), rest) =
    rw (is_item_match-Covers lib si i m v query compiled found rex)
      (ground (arith, is_match_from-Covers lib si (suc i) ms v rest))

-- The two caches that the factory builds hold an entry at every index that needs one.
abbrev SelectsCover : Library → Cache Evaluable → ℕ → List MatchItem → Type 0
SelectsCover lib c i [] = Unit
SelectsCover lib c i (m ∷ ms) =
    ((query : Evaluable) × (lib.new_evaluable m.select ≡ ok query) × (cached i c ≡ some query))
    × SelectsCover lib c (suc i) ms

abbrev RegexesCover : Library → Cache Regexp → ℕ → List MatchItem → Type 0
RegexesCover lib c i [] = Unit
RegexesCover lib c i (m ∷ ms) = IsCompiled lib m (cached i c) × RegexesCover lib c (suc i) ms

Covers-of :
    (lib : Library) (si : ModRuleStoreItem) (i : ℕ) (ms : List MatchItem)
    → SelectsCover lib si.compiled_match_selects i ms
    → RegexesCover lib si.compiled_regexes i ms
    → Covers lib si i ms
Covers-of lib si i [] s r = tt
Covers-of lib si i (m ∷ ms) ((query, compiled, found), s) (rex, r) =
    ((query, compiled, found, rex), Covers-of lib si (suc i) ms s r)

-- An entry below the indices in use changes nothing.
cached-cons :
    {A : Type 0} (i j : ℕ) (a : A) (c : Cache A) → j < i → cached i ((j, a) ∷ c) ≡ cached i c
unfolding cached
cached-cons i j a c h = ground arith

cached-cons_self : {A : Type 0} (i : ℕ) (a : A) (c : Cache A) → cached i ((i, a) ∷ c) ≡ some a
unfolding cached
cached-cons_self i a c = ground arith

module _ (lib : Library) where
  SelectsCover-cons :
      (j : ℕ) (a : Evaluable) (c : Cache Evaluable) (i : ℕ) (ms : List MatchItem)
      → j < i
      → SelectsCover lib c i ms
      → SelectsCover lib ((j, a) ∷ c) i ms
  SelectsCover-cons j a c i [] h s = tt
  SelectsCover-cons j a c i (m ∷ ms) h ((query, compiled, found), s) = (
    (query, compiled, cached-cons i j a c h ∙ found),
    SelectsCover-cons j a c (suc i) ms (omega arith) s,
  )

  RegexesCover-cons :
      (j : ℕ) (a : Regexp) (c : Cache Regexp) (i : ℕ) (ms : List MatchItem)
      → j < i
      → RegexesCover lib c i ms
      → RegexesCover lib ((j, a) ∷ c) i ms
  RegexesCover-cons j a c i [] h s = tt
  RegexesCover-cons j a c i (m ∷ ms) h (rex, s) = (
    λ r e. let (x, compiled, found) = rex r e in (x, compiled, cached-cons i j a c h ∙ found),
    RegexesCover-cons j a c (suc i) ms (omega arith) s,
  )

  SelectsCover-compiled :
      (i : ℕ) (ms : List MatchItem) (c : Cache Evaluable)
      → compiled_selects_from lib i ms ≡ ok c
      → SelectsCover lib c i ms
  unfolding compiled_selects_from
  SelectsCover-compiled i [] c h = tt
  SelectsCover-compiled i (m ∷ ms) c h =
      let (query, compiled, h') = and_then-eq-ok (lib.new_evaluable m.select) _ h in
      let (rest, below, e) = and_then-eq-ok (compiled_selects_from lib (suc i) ms) _ h' in
      subst (λ c'. SelectsCover lib c' i (m ∷ ms)) (ok-injective e)
        (
          (query, compiled, cached-cons_self i query rest),
          SelectsCover-cons i query rest (suc i) ms (omega arith)
              (SelectsCover-compiled (suc i) ms rest below),
        )

  regex_eq : {o : Option String} (r' r : String) → o ≡ some r' → o ≡ some r → r' ≡ r
  regex_eq r' r e' e = cc

  RegexesCover-compiled :
      (i : ℕ) (ms : List MatchItem) (c : Cache Regexp)
      → compiled_regexes_from lib i ms ≡ ok c
      → RegexesCover lib c i ms
  unfolding compiled_regexes_from
  RegexesCover-compiled i [] c h = tt
  RegexesCover-compiled i (m ∷ ms) c h = elim (Option-cases m.match_regex) [
    | inl e ↦
        let h' : compiled_regexes_from lib (suc i) ms ≡ ok c = rw e at h in
        (λ r e'. cc, RegexesCover-compiled (suc i) ms c h')
    | inr (r, e) ↦
        let h₀ : with_regex lib i (some r) (compiled_regexes_from lib (suc i) ms) ≡ ok c =
          rw e at h in
        let (x, compiled, h₁) = and_then-eq-ok (lib.compile_regexp r) _ h₀ in
        let (rest, below, e₁) = and_then-eq-ok (compiled_regexes_from lib (suc i) ms) _ h₁ in
        subst (λ c'. RegexesCover lib c' i (m ∷ ms)) (ok-injective e₁)
          (
            λ r' e'. (
              x,
              ap lib.compile_regexp (regex_eq r' r e' e) ∙ compiled,
              cached-cons_self i x rest,
            ),
            RegexesCover-cons i x rest (suc i) ms (omega arith)
                (RegexesCover-compiled (suc i) ms rest below),
          )
  ]

  pub is_match-rule_matches :
      (r : ModRule) (si : ModRuleStoreItem) (v : Value)
      → new_mod_rule_store_item lib r ≡ ok si
      → is_match lib si v ≡ done (rule_matches lib r v)
  unfolding is_match new_compiled_match_selects new_compiled_regexes
  is_match-rule_matches r si v h =
      let c = new_mod_rule_store_item-IsCompiledFrom lib r si h in
      rw c.mod_rule (
        is_match_from-Covers lib si 0 r.spec.match v (
          Covers-of lib si 0 r.spec.match
            (SelectsCover-compiled 0 r.spec.match si.compiled_match_selects c.selects)
            (RegexesCover-compiled 0 r.spec.match si.compiled_regexes c.regexes)))
