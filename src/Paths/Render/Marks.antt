-- ===== src/Paths/Render/Marks.antt =====
-- Go's marks in the text that `Sprintf` writes (core/modrulestoreitem.go): for a missing argument
-- the code puts its own mark, and what follows about arguments left over it cuts off.
use Prim.Native.Char.{code}
use text.Mathlib.Text.{starts_with}
use text.Mathlib.TextEquality.{starts_with_iff}
use kubemod.Prelude.{
  ℕ, zero, suc, ◌+◌, String, ◌≡◌, refl, sym, ap, subst, ◌∙◌, true, false, Option, none, some, List,
  [], ◌∷◌, arith, inl, inr, Option-cases, Bool-cases,
}
use kubemod.Prelude.Lists.{get_elem?, All}
use kubemod.Prelude.Int16.{pos, negsuc}
use kubemod.Prelude.Text.{concat}
use kubemod.Prelude.Strings.{
  concat_nil, concat_cons, concat_assoc, EachChar, EachChar-concat, prepend, concat-prepend,
  starts_with-concat,
}
use kubemod.Prelude.Decimal.{show, itoa}
use kubemod.Library.{KeyPart, number, word}
use kubemod.Paths.{before, contains, replace_from, argument, show_part}
use kubemod.Paths.Scan.{not_percent, replace_from-concat}
use kubemod.Paths.Render.{
  Hole, IsHole, IsPlainKey, shown, fill_holes, marked, EachChar-show_percent,
}

EachChar-show_part : (p : KeyPart) → IsPlainKey p → EachChar not_percent (show_part p)
unfolding show_part itoa
EachChar-show_part (number (pos n)) h = EachChar-show_percent n
EachChar-show_part (number (negsuc n)) h =
    EachChar-concat not_percent "-" (show (suc n)) (refl, tt) (EachChar-show_percent (suc n))
EachChar-show_part (word s) h = h

some_path : {p q : KeyPart} → some p ≡ some q → p ≡ q
some_path {p} {q} e = ap (λ o. elim o [ none ↦ p | some r ↦ r ]) e

EachChar-get_elem? :
    (keys : List KeyPart) (i : ℕ) (p : KeyPart)
    → All IsPlainKey keys
    → get_elem? keys i ≡ some p
    → EachChar not_percent (show_part p)
EachChar-get_elem? [] i p v e = absurd (ground (arith, e))
EachChar-get_elem? (x ∷ xs) zero p v e =
    subst (λ q. EachChar not_percent (show_part q)) (some_path e) (EachChar-show_part x v.0)
EachChar-get_elem? (x ∷ xs) (suc i) p v e = EachChar-get_elem? xs i p v.1 e

-- What the verb for the key `i` writes, or Go's mark.
argument_lem :
    (keys : List KeyPart) (i : ℕ) (o : Option KeyPart)
    → get_elem? keys i ≡ o
    → argument keys (some (pos (i + 1)))
      ≡ (elim o [ none ↦ "%!v(BADINDEX)" | some p ↦ show_part p ])
unfolding argument
argument_lem keys i o e =
    let next : i + 1 ≡ suc i = omega arith in
    ap (λ n. argument keys (some (pos n))) next
    ∙ ap (λ q. elim q [ none ↦ "%!v(BADINDEX)" | some p ↦ show_part p ]) e

shown_lem :
    (keys : List KeyPart) (i : ℕ) (o : Option KeyPart)
    → get_elem? keys i ≡ o
    → shown keys i ≡ (elim o [ none ↦ "#(BADINDEX)" | some p ↦ show_part p ])
unfolding shown
shown_lem keys i o e = ap (λ q. elim q [ none ↦ "#(BADINDEX)" | some p ↦ show_part p ]) e

abbrev pub cut_marks : String → String
cut_marks s = replace_from 13 0 "%!v(BADINDEX)" "#(BADINDEX)" s

cut_marks-mark :
    (rest : String)
    → cut_marks (concat "%!v(BADINDEX)" rest) ≡ concat "#(BADINDEX)" (cut_marks rest)
unfolding replace_from
cut_marks-mark rest =
    let here : starts_with (prepend "%!v(BADINDEX)" rest) "%!v(BADINDEX)" ≡ true =
      subst (λ s. starts_with s "%!v(BADINDEX)" ≡ true) (concat-prepend "%!v(BADINDEX)" rest)
        (starts_with-concat "%!v(BADINDEX)" rest) in
    ap cut_marks (concat-prepend "%!v(BADINDEX)" rest)
    ∙ ap
        (λ b. elim b [
          | true ↦ concat "#(BADINDEX)" (cut_marks rest)
          | false ↦ String.◌∷◌ "%" (cut_marks (prepend "!v(BADINDEX)" rest))
        ])
        here

-- Cutting the mark out of what the format wrote for a hole gives what the hole shows.
cut_marks-argument :
    (keys : List KeyPart) (i : ℕ) (rest : String)
    → All IsPlainKey keys
    → (cut_marks (concat (argument keys (some (pos (i + 1)))) rest)
        ≡ concat (shown keys i) (cut_marks rest))
      × EachChar not_percent (shown keys i)
unfolding replace_from
cut_marks-argument keys i rest v = elim (Option-cases (get_elem? keys i)) [
  | inl e ↦
      rw (argument_lem keys i none e, shown_lem keys i none e)
        (
          cut_marks-mark rest,
          (
            refl,
            (refl, (refl, (refl, (refl, (refl, (refl, (refl, (refl, (refl, (refl, tt)))))))))),
          ),
        )
  | inr (p, e) ↦
      let clean = EachChar-get_elem? keys i p v e in
      rw (argument_lem keys i (some p) e, shown_lem keys i (some p) e)
        (replace_from-concat 13 "!v(BADINDEX)" "#(BADINDEX)" (show_part p) rest clean, clean)
]

pub replace_from-holes :
    (keys : List KeyPart) (holes : List Hole) (more : String)
    → All IsPlainKey keys
    → All IsHole holes
    → (cut_marks (concat (marked keys holes) more)
        ≡ concat (fill_holes keys holes) (cut_marks more))
      × EachChar not_percent (fill_holes keys holes)
unfolding marked fill_holes replace_from
replace_from-holes keys [] more p v = (rw (concat_nil, concat_nil) refl, tt)
replace_from-holes keys (h ∷ rest) more p v =
    let ih = replace_from-holes keys rest more p v.1 in
    let verb = argument keys (some (pos (h.index + 1))) in
    let after = concat h.after (concat (marked keys rest) more) in
    let hole = cut_marks-argument keys h.index after p in
    (
      ap cut_marks (
            concat_assoc verb (concat h.after (marked keys rest)) more
            ∙ ap (concat verb) (concat_assoc h.after (marked keys rest) more))
          ∙ hole.0
          ∙ ap (concat (shown keys h.index)) (
              replace_from-concat 13 "!v(BADINDEX)" "#(BADINDEX)" h.after
                (concat (marked keys rest) more) v.0.text.1
              ∙ ap (concat h.after) ih.0
              ∙ sym (concat_assoc h.after (fill_holes keys rest) (cut_marks more)))
          ∙ sym (
              concat_assoc (shown keys h.index) (concat h.after (fill_holes keys rest))
                (cut_marks more)),
      EachChar-concat not_percent (shown keys h.index) (concat h.after (fill_holes keys rest))
          hole.1 (EachChar-concat not_percent h.after (fill_holes keys rest) v.0.text.1 ih.1),
    )

-- A format with a hole contains `%`.
pub contains-concat_percent : (s rest : String) → contains "%" (concat s (prepend "%" rest)) ≡ true
unfolding contains
contains-concat_percent String.[] rest =
    let here : starts_with (prepend "%" rest) "%" ≡ true =
      subst (λ s. starts_with s "%" ≡ true) (concat-prepend "%" rest)
        (starts_with-concat "%" rest) in
    ap (contains "%") (concat_nil (prepend "%" rest))
    ∙ ap (λ b. elim b [ true ↦ true | false ↦ contains "%" rest ]) here
contains-concat_percent (String.◌∷◌ c s) rest =
    let ih = contains-concat_percent s rest in
    let t = concat s (prepend "%" rest) in
    ap (contains "%") (concat_cons c s (prepend "%" rest))
    ∙ elim (Bool-cases (starts_with (String.◌∷◌ c t) "%")) [
      | inl e ↦ ap (λ b. elim b [ true ↦ true | false ↦ contains "%" t ]) e
      | inr e ↦ ap (λ b. elim b [ true ↦ true | false ↦ contains "%" t ]) e ∙ ih
    ]

-- The code of the third character of a text.
abbrev third : String → ℕ
third (String.◌∷◌ a (String.◌∷◌ b (String.◌∷◌ c s))) = code c
third _ = 0

starts_with-extra : (s : String) → starts_with (prepend "%!(EXTRA " s) "%!v(BADINDEX)" ≡ false
unfolding concat
starts_with-extra s = elim (Bool-cases (starts_with (prepend "%!(EXTRA " s) "%!v(BADINDEX)")) [
  | inr e ↦ e
  | inl e ↦
      let (u, split) = (starts_with_iff (prepend "%!(EXTRA " s) "%!v(BADINDEX)").0 e in
      let same : 118 ≡ 40 = ap third (sym (concat-prepend "%!v(BADINDEX)" u) ∙ split) in
      absurd (omega (arith, same))
]

-- What `Sprintf` appends about keys that no hole names is cut off.
pub before-extra : (s : String) → before "%!(EXTRA" (cut_marks (concat "%!(EXTRA " s)) ≡ ""
unfolding before replace_from
before-extra s =
    let kept : cut_marks (concat "%!(EXTRA " s) ≡ prepend "%!(EXTRA " (cut_marks s) =
      ap cut_marks (concat-prepend "%!(EXTRA " s)
      ∙ ap
          (λ b. elim b [
            | true ↦ concat "#(BADINDEX)" (replace_from 13 4 "%!v(BADINDEX)" "#(BADINDEX)" s)
            | false ↦ String.◌∷◌ "%" (cut_marks (prepend "!(EXTRA " s))
          ])
          (starts_with-extra s)
      ∙ ap (String.◌∷◌ "%") (
          ap cut_marks (sym (concat-prepend "!(EXTRA " s))
          ∙ replace_from-concat 13 "!v(BADINDEX)" "#(BADINDEX)" "!(EXTRA " s
              (refl, (refl, (refl, (refl, (refl, (refl, (refl, (refl, tt))))))))
          ∙ concat-prepend "!(EXTRA " (cut_marks s)) in
    let rest = prepend " " (cut_marks s) in
    let here : starts_with (prepend "%!(EXTRA" rest) "%!(EXTRA" ≡ true =
      subst (λ s. starts_with s "%!(EXTRA" ≡ true) (concat-prepend "%!(EXTRA" rest)
        (starts_with-concat "%!(EXTRA" rest) in
    ap (before "%!(EXTRA") kept
    ∙ ap
        (λ b. elim b [
          | true ↦ ""
          | false ↦ String.◌∷◌ "%" (before "%!(EXTRA" (prepend "!(EXTRA" rest))
        ])
        here
