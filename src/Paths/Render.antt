-- ===== src/Paths/Render.antt =====
-- What a path template means (core/modrulestoreitem.go): a text with numbered holes, into which
-- the keys of a match go. The code gets there by a `Sprintf` template and by cutting Go's marks out
-- of the result.
pub mod Marks
pub mod Filled
use Prim.Native.Nat.{◌^◌}
use Prim.Native.Char.{Char, code}
use Prim.Native.String
use text.Mathlib.Text.{starts_with}
use text.Mathlib.TextEquality.{starts_with_iff}
use kubemod.Prelude.{
  ℕ, zero, suc, ◌+◌, ◌<◌, String, ◌≡◌, refl, sym, ap, subst, ◌∙◌, Bool, true, false, not, ◌&&◌, eqb,
  if◌then◌else◌, Option, none, some, List, [], ◌∷◌, arith, ltb, leb, inl, inr, Option-cases,
  Bool-cases,
}
use kubemod.Prelude.Lists.{get_elem?, All}
use kubemod.Prelude.Int16.{ℤ, pos, negsuc}
use kubemod.Prelude.Text.{concat, join}
use kubemod.Prelude.Strings.{
  concat_nil, concat_cons, concat-nil, concat_assoc, EachChar, EachChar-concat, EachChar-implied,
  prepend, concat-prepend, starts_with-concat,
}
use kubemod.Prelude.Decimal.{is_digit, show, itoa}
use kubemod.Prelude.Decimal.RoundTrip.{EachChar-show}
use kubemod.Library.{Library, KeyPart, number, word}
use kubemod.Paths.{
  before, contains, replace_from, plain, replace_placeholders, next_index, literal, is_literal,
  verb_end, argument, format, verb_of, show_part, extra, sprintf, path_template_to_sprintf_template,
  path_from_key_parts,
}
use kubemod.Paths.Scan.{
  not_hash, not_percent, EndsNumber, replace_placeholders-concat, replace_placeholders-show,
  contains-percent, format-concat, format-verb, next_index-show, replace_from-concat, before-concat,
}

-- A hole with the index of its key, and the text up to the next hole.
pub record Hole : Type 0 where
  pub index : ℕ
  pub after : String

-- A template: the text before the first hole, and the holes.
pub record PathTemplate : Type 0 where
  pub first : String
  pub holes : List Hole

-- A text that holds neither a placeholder's nor a verb's first character.
abbrev pub IsText : String → Type 0
IsText s = EachChar not_hash s × EachChar not_percent s

-- An index that an `int` can hold after it is increased, and a text that ends it.
pub record IsHole (h : Hole) : Type 0 where
  pub fits : h.index + 1 < 2 ^ 63
  pub text : IsText h.after
  pub ends : EndsNumber h.after

abbrev pub IsTemplate : PathTemplate → Type 0
IsTemplate t = IsText t.first × All IsHole t.holes

-- A key whose text holds no `%`.
abbrev pub IsPlainKey : KeyPart → Type 0
IsPlainKey (number n) = Unit
IsPlainKey (word s) = EachChar not_percent s

print_holes : List Hole → String
print_holes [] = ""
print_holes (h ∷ rest) = concat "#" (concat (show h.index) (concat h.after (print_holes rest)))

-- The template as a rule writes it: `#i` for the hole of the key `i`.
unfoldable pub print : PathTemplate → String
unfolding print_holes
print t = concat t.first (print_holes t.holes)

-- The text of the key `i`, or a mark where there is no such key.
unfoldable pub shown : List KeyPart → ℕ → String
shown keys i = elim (get_elem? keys i) [ none ↦ "#(BADINDEX)" | some p ↦ show_part p ]

unfoldable pub fill_holes : List KeyPart → List Hole → String
unfolding shown
fill_holes keys [] = ""
fill_holes keys (h ∷ rest) = concat (shown keys h.index) (concat h.after (fill_holes keys rest))

-- The path: each hole filled with its key.
unfoldable pub fill : List KeyPart → PathTemplate → String
unfolding fill_holes
fill keys t = concat t.first (fill_holes keys t.holes)

-- The same with the verbs of a format in the holes, and with Go's mark for a missing argument.
pub verbs : List Hole → String
verbs [] = ""
verbs (h ∷ rest) =
    concat "%[" (concat (show (h.index + 1)) (concat "]v" (concat h.after (verbs rest))))

pub marked : List KeyPart → List Hole → String
marked keys [] = ""
marked keys (h ∷ rest) =
    concat (argument keys (some (pos (h.index + 1)))) (concat h.after (marked keys rest))

EndsNumber-holes :
    (s : String) (holes : List Hole) → EndsNumber s → EndsNumber (concat s (print_holes holes))
unfolding print_holes
EndsNumber-holes String.[] [] h = rw concat_nil tt
EndsNumber-holes String.[] (x ∷ rest) h = rw (concat_nil, concat_cons) refl
EndsNumber-holes (String.◌∷◌ c s) holes h = rw concat_cons h

replace_placeholders-holes :
    (holes : List Hole)
    → All IsHole holes
    → replace_placeholders verb_of plain (print_holes holes) ≡ verbs holes
unfolding print_holes verbs verb_of replace_placeholders
replace_placeholders-holes [] v = refl
replace_placeholders-holes (h ∷ rest) v =
    let ih = replace_placeholders-holes rest v.1 in
    replace_placeholders-show verb_of h.index (concat h.after (print_holes rest))
      (EndsNumber-holes h.after rest v.0.ends)
    ∙ rw (verb_of, next_index-show h.index v.0.fits, concat_assoc, concat_assoc)
        (ap (λ t. concat "%[" (concat (show (h.index + 1)) (concat "]v" t)))
          (replace_placeholders-concat verb_of h.after (print_holes rest) v.0.text.0
            ∙ ap (concat h.after) ih))

digit-not_percent : (c : Char) → is_digit c ≡ true → not_percent c ≡ true
digit-not_percent c h = ground (arith, h)

EachChar-show_percent : (n : ℕ) → EachChar not_percent (show n)
EachChar-show_percent n =
    EachChar-implied is_digit not_percent digit-not_percent (show n) (EachChar-show n)

EachChar-print_holes :
    (holes : List Hole) → All IsHole holes → EachChar not_percent (print_holes holes)
unfolding print_holes
EachChar-print_holes [] v = tt
EachChar-print_holes (h ∷ rest) v =
    EachChar-concat not_percent "#" (concat (show h.index) (concat h.after (print_holes rest)))
      (refl, tt)
      (EachChar-concat not_percent (show h.index) (concat h.after (print_holes rest))
        (EachChar-show_percent h.index)
        (EachChar-concat not_percent h.after (print_holes rest) v.0.text.1
          (EachChar-print_holes rest v.1)))

format-holes :
    (keys : List KeyPart) (holes : List Hole)
    → All IsHole holes
    → (format keys literal (verbs holes) ≡ marked keys holes)
      × (verb_end literal (verbs holes) ≡ literal)
unfolding verbs marked format verb_end
format-holes keys [] v = (refl, refl)
format-holes keys (h ∷ rest) v =
    let ih = format-holes keys rest v.1 in
    let verb = format-verb keys (h.index + 1) (concat h.after (verbs rest)) v.0.fits in
    let text = format-concat keys h.after (verbs rest) v.0.text.1 in
    (
      verb.0
          ∙ ap (concat (argument keys (some (pos (h.index + 1)))))
              (text.0 ∙ ap (concat h.after) ih.0),
      verb.1 ∙ text.1 ∙ ih.1,
    )
