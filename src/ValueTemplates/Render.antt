-- ===== src/ValueTemplates/Render.antt =====
-- What the placeholders of a value template mean (util/template.go): each is the key part of its
-- number.
use Prim.Native.Char.{Char, code}
use text.Mathlib.TextEquality.{Char-path}
use kubemod.Prelude.{
  ℕ, String, ◌≡◌, refl, ap, subst, ◌∙◌, true, eqb, List, [], ◌∷◌, arith, inl, inr, Bool-cases,
}
use kubemod.Prelude.Lists.{All}
use kubemod.Prelude.Text.{concat}
use kubemod.Prelude.Strings.{concat_nil, concat_cons, concat-nil, concat_assoc, EachChar}
use kubemod.Prelude.Decimal.{is_digit, show}
use kubemod.Prelude.Decimal.RoundTrip.{EachChar-show, show_first}
use kubemod.Paths.{push}
use kubemod.Paths.Scan.{not_hash, EndsNumber, not_hash-eqb, single, push_lem}
use kubemod.ValueTemplates.{
  no_dot, dot, dot_hash, index_of, dot_start, dot_next, dot_emit, dot_flush, select_key_part,
  pre_process, pre_process_mod_rule_go_template,
}

-- A placeholder, and the text up to the next one.
pub record Placeholder : Type 0 where
  pub index : ℕ
  pub after : String

pub record ValueTemplate : Type 0 where
  pub first : String
  pub placeholders : List Placeholder

-- A text with no `#`, that ends the number in front of it.
pub record IsPlaceholder (p : Placeholder) : Type 0 where
  pub text : EachChar not_hash p.after
  pub ends : EndsNumber p.after

abbrev pub IsValueTemplate : ValueTemplate → Type 0
IsValueTemplate t = EachChar not_hash t.first × All IsPlaceholder t.placeholders

print_placeholders : List Placeholder → String
print_placeholders [] = ""
print_placeholders (p ∷ rest) =
    concat ".#" (concat (show p.index) (concat p.after (print_placeholders rest)))

-- The template as a rule writes it.
unfoldable pub print : ValueTemplate → String
unfolding print_placeholders
print t = concat t.first (print_placeholders t.placeholders)

index_placeholders : List Placeholder → String
index_placeholders [] = ""
index_placeholders (p ∷ rest) =
    concat "(index .SelectKeyParts "
      (concat (show p.index) (concat ")" (concat p.after (index_placeholders rest))))

-- The template that Go executes.
unfoldable pub with_indices : ValueTemplate → String
unfolding index_placeholders
with_indices t = concat t.first (index_placeholders t.placeholders)

-- The text does not go on with a `#`.
abbrev NoHashFirst : String → Type 0
NoHashFirst String.[] = Unit
NoHashFirst (String.◌∷◌ c s) = not_hash c ≡ true

dot-single : (c : Char) (s : String) → eqb (code c) b'.' ≡ true → concat "." s ≡ String.◌∷◌ c s
dot-single c s h = rw (Char-path c "." (ground (arith, h)), concat_cons, concat_nil) refl

-- A dot that no `#` follows is written after all.
pre_process-dot :
    (s : String) → NoHashFirst s → pre_process dot s ≡ concat "." (pre_process no_dot s)
unfolding pre_process dot_next dot_emit dot_flush
pre_process-dot String.[] h = rw concat-nil refl
pre_process-dot (String.◌∷◌ c s) h = rw (not_hash-eqb c h, concat_assoc) refl

NoHashFirst-concat :
    (s rest : String) → EachChar not_hash s → NoHashFirst rest → NoHashFirst (concat s rest)
NoHashFirst-concat String.[] rest h k = rw concat_nil k
NoHashFirst-concat (String.◌∷◌ c s) rest h k = rw concat_cons h.0

pre_process-concat :
    (s rest : String)
    → EachChar not_hash s
    → NoHashFirst rest
    → pre_process no_dot (concat s rest) ≡ concat s (pre_process no_dot rest)
unfolding pre_process dot_next dot_start dot_emit
pre_process-concat String.[] rest h k = rw (concat_nil, concat_nil) refl
pre_process-concat (String.◌∷◌ c s) rest h k =
    let ih = pre_process-concat s rest h.1 k in
    let first = NoHashFirst-concat s rest h.1 k in
    elim (Bool-cases (eqb (code c) b'.')) [
      | inr e ↦ rw (concat_cons, concat_cons, e) (ap (concat (push "" c)) ih ∙ single c _)
      | inl e ↦
          rw (concat_cons, concat_cons, e, concat_nil)
            (pre_process-dot (concat s rest) first
              ∙ dot-single c (pre_process no_dot (concat s rest)) e
              ∙ ap (String.◌∷◌ c) ih)
    ]

pre_process-digits :
    (d s rest : String)
    → EachChar is_digit s
    → pre_process (index_of d) (concat s rest) ≡ pre_process (index_of (concat d s)) rest
unfolding pre_process dot_next dot_emit
pre_process-digits d String.[] rest h = rw (concat_nil, concat-nil) refl
pre_process-digits d (String.◌∷◌ c s) rest h =
    rw (concat_cons, h.0, concat_nil)
      (pre_process-digits (push d c) s rest h.1
        ∙ ap (λ t. pre_process (index_of t) rest) (push_lem d c s))

pre_process-EndsNumber :
    (d rest : String)
    → EndsNumber rest
    → pre_process (index_of d) rest ≡ concat (select_key_part d) (pre_process no_dot rest)
unfolding pre_process dot_next dot_start dot_emit dot_flush
pre_process-EndsNumber d String.[] h = rw concat-nil refl
pre_process-EndsNumber d (String.◌∷◌ c s) h = rw (h, concat_assoc) refl

-- A placeholder is replaced as a whole.
pre_process-show :
    (n : ℕ) (rest : String)
    → EndsNumber rest
    → pre_process no_dot (concat ".#" (concat (show n) rest))
      ≡ concat (select_key_part (show n)) (pre_process no_dot rest)
unfolding pre_process dot_next dot_start dot_emit
pre_process-show n rest h =
    let (c, t, e, d) = show_first n in
    let begun : pre_process dot_hash (concat (show n) rest) ≡ pre_process (index_of (show n)) rest =
      rw (e, concat_cons, d, concat_nil)
        (pre_process-digits (push "" c) t rest (subst (EachChar is_digit) e (EachChar-show n)).1
          ∙ ap (λ u. pre_process (index_of u) rest) (single c t)) in
    rw (concat_cons, concat_cons, concat_nil, concat_nil, concat_nil)
      (begun ∙ pre_process-EndsNumber (show n) rest h)

NoHashFirst-placeholders : (ps : List Placeholder) → NoHashFirst (print_placeholders ps)
unfolding print_placeholders
NoHashFirst-placeholders [] = tt
NoHashFirst-placeholders (p ∷ rest) = rw concat_cons refl

EndsNumber-placeholders :
    (s : String) (ps : List Placeholder)
    → EndsNumber s
    → EndsNumber (concat s (print_placeholders ps))
unfolding print_placeholders
EndsNumber-placeholders String.[] [] h = rw concat_nil tt
EndsNumber-placeholders String.[] (p ∷ rest) h = rw (concat_nil, concat_cons) refl
EndsNumber-placeholders (String.◌∷◌ c s) ps h = rw concat_cons h

select_key_part_lem :
    (n s : String)
    → concat (select_key_part n) s ≡ concat "(index .SelectKeyParts " (concat n (concat ")" s))
unfolding select_key_part
select_key_part_lem n s = rw (concat_assoc, concat_assoc) refl

pre_process-placeholders :
    (ps : List Placeholder)
    → All IsPlaceholder ps
    → pre_process no_dot (print_placeholders ps) ≡ index_placeholders ps
unfolding print_placeholders index_placeholders pre_process dot_flush
pre_process-placeholders [] v = refl
pre_process-placeholders (p ∷ rest) v =
    pre_process-show p.index (concat p.after (print_placeholders rest))
      (EndsNumber-placeholders p.after rest v.0.ends)
    ∙ select_key_part_lem (show p.index)
        (pre_process no_dot (concat p.after (print_placeholders rest)))
    ∙ ap (λ t. concat "(index .SelectKeyParts " (concat (show p.index) (concat ")" t)))
        (pre_process-concat p.after (print_placeholders rest) v.0.text
            (NoHashFirst-placeholders rest)
          ∙ ap (concat p.after) (pre_process-placeholders rest v.1))

-- In a value template whose texts hold no `#`, and in which no digit follows a placeholder's number,
-- each placeholder becomes an index into the key parts, and the texts stay as they are, dots too.
pub pre_process_mod_rule_go_template-print :
    (t : ValueTemplate)
    → IsValueTemplate t
    → pre_process_mod_rule_go_template (print t) ≡ with_indices t
unfolding pre_process_mod_rule_go_template print with_indices
pre_process_mod_rule_go_template-print t v =
    pre_process-concat t.first (print_placeholders t.placeholders) v.0
      (NoHashFirst-placeholders t.placeholders)
    ∙ ap (concat t.first) (pre_process-placeholders t.placeholders v.1)
