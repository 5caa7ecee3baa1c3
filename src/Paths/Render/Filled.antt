-- ===== src/Paths/Render/Filled.antt =====
-- The path that a template and the keys of a match make (core/modrulestoreitem.go).
use kubemod.Prelude.{◌≡◌, refl, sym, ap, ◌∙◌, true, List, [], ◌∷◌}
use kubemod.Prelude.Lists.{All}
use kubemod.Prelude.Text.{concat}
use kubemod.Prelude.Strings.{concat-nil, concat_assoc, EachChar, EachChar-concat, concat-prepend}
use kubemod.Library.{Library, KeyPart}
use kubemod.Paths.{
  before, contains, replace_from, replace_placeholders, verb_end, format, verb_of, extra, sprintf,
  path_template_to_sprintf_template, path_from_key_parts,
}
use kubemod.Paths.Scan.{
  not_percent, replace_placeholders-concat, contains-percent, format-concat, replace_from-concat,
  before-concat,
}
use kubemod.Paths.Render.{
  PathTemplate, IsTemplate, IsPlainKey, print_holes, print, fill_holes, fill, verbs, marked,
  EachChar-print_holes, replace_placeholders-holes, format-holes,
}
use kubemod.Paths.Render.Marks.{
  cut_marks, replace_from-holes, before-extra, contains-concat_percent,
}

EachChar-print : (t : PathTemplate) → IsTemplate t → EachChar not_percent (print t)
unfolding print
EachChar-print t v =
    EachChar-concat not_percent t.first (print_holes t.holes) v.0.1
      (EachChar-print_holes t.holes v.1)

-- The template of the code: the same text with verbs.
path_template_to_sprintf_template-print :
    (lib : Library) (t : PathTemplate)
    → IsTemplate t
    → path_template_to_sprintf_template lib (print t) ≡ concat t.first (verbs t.holes)
unfolding path_template_to_sprintf_template print replace_placeholders
path_template_to_sprintf_template-print lib t v =
    rw (contains-percent (print t) (EachChar-print t v)) (
      replace_placeholders-concat verb_of t.first (print_holes t.holes) v.0.0
      ∙ ap (concat t.first) (replace_placeholders-holes t.holes v.1))

extra_lem :
    (keys : List KeyPart) (t : PathTemplate)
    → IsTemplate t
    → before "%!(EXTRA" (cut_marks (extra (concat t.first (verbs t.holes)) keys)) ≡ ""
unfolding extra verbs before replace_from
extra_lem [] t v = refl
extra_lem (k ∷ keys) t v =
    elim t.holes
      as (λ holes.
        before "%!(EXTRA" (cut_marks (extra (concat t.first (verbs holes)) (k ∷ keys))) ≡ "") [
          | [] ↦ rw (concat-nil, contains-percent t.first v.0.1) (before-extra _)
          | h ∷ rest ↦
              let e : contains "%" (concat t.first (verbs (h ∷ rest))) ≡ true =
                rw (concat-prepend "%[") (contains-concat_percent t.first _) in
              rw e refl
        ]

before-sprintf :
    (keys : List KeyPart) (t : PathTemplate)
    → IsTemplate t
    → All IsPlainKey keys
    → before "%!(EXTRA" (
        cut_marks (
          concat
            (concat t.first (marked keys t.holes))
            (extra (concat t.first (verbs t.holes)) keys)))
      ≡ fill keys t
unfolding before replace_from fill
before-sprintf keys t v p =
    let more = extra (concat t.first (verbs t.holes)) keys in
    let filled = replace_from-holes keys t.holes more p v.1 in
    ap (λ s. before "%!(EXTRA" (cut_marks s)) (concat_assoc t.first (marked keys t.holes) more)
    ∙ ap (before "%!(EXTRA") (
        replace_from-concat 13 "!v(BADINDEX)" "#(BADINDEX)" t.first
          (concat (marked keys t.holes) more) v.0.1
        ∙ ap (concat t.first) filled.0
        ∙ sym (concat_assoc t.first (fill_holes keys t.holes) (cut_marks more)))
    ∙ before-concat "!(EXTRA" (concat t.first (fill_holes keys t.holes)) (cut_marks more)
        (EachChar-concat not_percent t.first (fill_holes keys t.holes) v.0.1 filled.1)
    ∙ ap (concat (concat t.first (fill_holes keys t.holes))) (extra_lem keys t v)
    ∙ concat-nil (concat t.first (fill_holes keys t.holes))

-- A key goes into every hole of a path template, and a mark into a hole for which there is no key,
-- when the texts of the template hold no `#` and no `%`, no digit follows a hole's number, the
-- number increased by one fits an `int`, and the keys hold no `%`.
pub path_from_key_parts-print :
    (lib : Library) (keys : List KeyPart) (t : PathTemplate)
    → IsTemplate t
    → All IsPlainKey keys
    → path_from_key_parts lib keys (path_template_to_sprintf_template lib (print t)) ≡ fill keys t
unfolding path_from_key_parts sprintf fill replace_from before format verb_end
path_from_key_parts-print lib keys t v p =
    let parts = format-holes keys t.holes v.1 in
    let text = format-concat keys t.first (verbs t.holes) v.0.1 in
    rw (path_template_to_sprintf_template-print lib t v, text.0, text.1, parts.0, parts.1)
      (before-sprintf keys t v p)
