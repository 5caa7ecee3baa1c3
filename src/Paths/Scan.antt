-- ===== src/Paths/Scan.antt =====
-- The scans of a path template and of a format (core/modrulestoreitem.go): over a text that the
-- scan copies, over a placeholder `#n`, and over a verb `%[n]v`.
use Prim.Native.Nat.{◌^◌}
use Prim.Native.Char.{Char, code}
use kubemod.Prelude.{
  ℕ, ◌+◌, ◌<◌, String, ◌≡◌, refl, ap, subst, ◌∙◌, Bool, true, false, not, eqb, some, List, arith,
}
use kubemod.Prelude.Int16.{pos}
use kubemod.Prelude.Text.{concat}
use kubemod.Prelude.Strings.{
  concat_nil, concat_cons, concat-nil, concat_assoc, EachChar, starts_with-other,
}
use kubemod.Prelude.Decimal.{is_digit, atoi, show}
use kubemod.Prelude.Decimal.RoundTrip.{atoi-show, EachChar-show, show_first}
use kubemod.Library.{KeyPart}
use kubemod.Paths.{
  push, before, contains, replace_from, plain, hash, digits, hash_start, hash_next, hash_emit,
  hash_flush, replace_placeholders, next_index, literal, bracket, verb_next, verb_emit, verb_end,
  argument, format,
}

abbrev pub not_hash : Char → Bool
not_hash c = not (eqb (code c) b'#')

abbrev pub not_percent : Char → Bool
not_percent c = not (eqb (code c) b'%')

-- A text that does not begin with a digit, so that a number in front of it ends.
abbrev pub EndsNumber : String → Type 0
EndsNumber String.[] = Unit
EndsNumber (String.◌∷◌ c s) = is_digit c ≡ false

pub single : (c : Char) (s : String) → concat (push "" c) s ≡ String.◌∷◌ c s
single c s = rw (concat_nil, concat_cons, concat_nil) refl

pub not_hash-eqb : (c : Char) → not_hash c ≡ true → eqb (code c) b'#' ≡ false
not_hash-eqb c h = ground (arith, h)

not_percent-eqb : (c : Char) → not_percent c ≡ true → eqb (code c) b'%' ≡ false
not_percent-eqb c h = ground (arith, h)

pub push_lem :
    (d : String) (c : Char) (s : String) → concat (push d c) s ≡ concat d (String.◌∷◌ c s)
push_lem d c s = rw (concat_assoc, concat_cons, concat_nil) refl

-- `replace_placeholders` copies a text with no `#`.
pub replace_placeholders-concat :
    (by : String → String) (s rest : String)
    → EachChar not_hash s
    → replace_placeholders by plain (concat s rest) ≡ concat s (replace_placeholders by plain rest)
unfolding replace_placeholders hash_next hash_start hash_emit
replace_placeholders-concat by String.[] rest h = rw (concat_nil, concat_nil) refl
replace_placeholders-concat by (String.◌∷◌ c s) rest h =
    rw (concat_cons, concat_cons, not_hash-eqb c h.0)
      (ap (concat (push "" c)) (replace_placeholders-concat by s rest h.1) ∙ single c _)

replace_placeholders-digits :
    (by : String → String) (d s rest : String)
    → EachChar is_digit s
    → replace_placeholders by (digits d) (concat s rest)
      ≡ replace_placeholders by (digits (concat d s)) rest
unfolding replace_placeholders hash_next hash_emit
replace_placeholders-digits by d String.[] rest h = rw (concat_nil, concat-nil) refl
replace_placeholders-digits by d (String.◌∷◌ c s) rest h =
    rw (concat_cons, h.0, concat_nil)
      (replace_placeholders-digits by (push d c) s rest h.1
        ∙ ap (λ t. replace_placeholders by (digits t) rest) (push_lem d c s))

replace_placeholders-EndsNumber :
    (by : String → String) (d rest : String)
    → EndsNumber rest
    → replace_placeholders by (digits d) rest ≡ concat (by d) (replace_placeholders by plain rest)
unfolding replace_placeholders hash_next hash_start hash_emit hash_flush
replace_placeholders-EndsNumber by d String.[] h = rw concat-nil refl
replace_placeholders-EndsNumber by d (String.◌∷◌ c s) h = rw (h, concat_assoc) refl

-- A placeholder is replaced as a whole.
pub replace_placeholders-show :
    (by : String → String) (n : ℕ) (rest : String)
    → EndsNumber rest
    → replace_placeholders by plain (concat "#" (concat (show n) rest))
      ≡ concat (by (show n)) (replace_placeholders by plain rest)
unfolding replace_placeholders hash_next hash_start hash_emit
replace_placeholders-show by n rest h =
    let (c, t, e, d) = show_first n in
    let started : replace_placeholders by hash (concat (show n) rest)
        ≡ replace_placeholders by (digits (show n)) rest =
      rw (e, concat_cons, d, concat_nil)
        (replace_placeholders-digits by (push "" c) t rest
            (subst (EachChar is_digit) e (EachChar-show n)).1
          ∙ ap (λ u. replace_placeholders by (digits u) rest) (single c t)) in
    rw (concat_cons, concat_nil, concat_nil)
      (started ∙ replace_placeholders-EndsNumber by (show n) rest h)

-- `contains "%"` of a text with no `%`.
pub contains-percent : (s : String) → EachChar not_percent s → contains "%" s ≡ false
unfolding contains
contains-percent String.[] h = refl
contains-percent (String.◌∷◌ c s) h =
    rw (contains, starts_with-other c s "%" "" (not_percent-eqb c h.0)) (contains-percent s h.1)

-- `format` copies a text with no `%`.
pub format-concat :
    (args : List KeyPart) (s rest : String)
    → EachChar not_percent s
    → (format args literal (concat s rest) ≡ concat s (format args literal rest))
      × (verb_end literal (concat s rest) ≡ verb_end literal rest)
unfolding format verb_next verb_emit verb_end
format-concat args String.[] rest h = rw (concat_nil, concat_nil) (refl, refl)
format-concat args (String.◌∷◌ c s) rest h =
    let ih = format-concat args s rest h.1 in
    let e = not_percent-eqb c h.0 in
    (
      rw (concat_cons, concat_cons, e) (ap (concat (push "" c)) ih.0 ∙ single c _),
      rw (concat_cons, verb_end, verb_next, e) ih.1,
    )

format-digits :
    (args : List KeyPart) (d s rest : String)
    → EachChar is_digit s
    → (format args (bracket d) (concat s (concat "]v" rest))
        ≡ concat (argument args (atoi (concat d s))) (format args literal rest))
      × (verb_end (bracket d) (concat s (concat "]v" rest)) ≡ verb_end literal rest)
unfolding format verb_next verb_emit verb_end
format-digits args d String.[] rest h = (
  rw (concat_nil, concat_cons, concat_cons, concat_nil, concat-nil, concat_nil) refl,
  rw (concat_nil, concat_cons, concat_cons, concat_nil) refl,
)
format-digits args d (String.◌∷◌ c s) rest h =
    let ih = format-digits args (push d c) s rest h.1 in
    (
      rw (concat_cons, h.0, concat_nil)
          (ih.0
            ∙ ap (λ t. concat (argument args (atoi t)) (format args literal rest))
                (push_lem d c s)),
      rw (concat_cons, verb_end, verb_next, h.0) ih.1,
    )

-- A verb writes the argument that it names.
pub format-verb :
    (args : List KeyPart) (n : ℕ) (rest : String)
    → n < 2 ^ 63
    → (format args literal (concat "%[" (concat (show n) (concat "]v" rest)))
        ≡ concat (argument args (some (pos n))) (format args literal rest))
      × (verb_end literal (concat "%[" (concat (show n) (concat "]v" rest)))
          ≡ verb_end literal rest)
unfolding format verb_next verb_emit verb_end
format-verb args n rest h =
    let ih = format-digits args "" (show n) rest (EachChar-show n) in
    let read : atoi (concat "" (show n)) ≡ some (pos n) =
      ap atoi (concat_nil (show n)) ∙ atoi-show n h in
    (
      rw (concat_cons, concat_cons, concat_nil, concat_nil, concat_nil)
          (ih.0 ∙ ap (λ i. concat (argument args i) (format args literal rest)) read),
      rw (concat_cons, concat_cons, concat_nil) ih.1,
    )

pub next_index-show : (n : ℕ) → n + 1 < 2 ^ 63 → next_index (show n) ≡ show (n + 1)
unfolding next_index
next_index-show n h = rw (next_index, atoi-show n (omega arith)) (ground (arith, h))

-- `replace_from` copies a text with no `%`, for a pattern that begins with `%`.
pub replace_from-concat :
    (size : ℕ) (pat by s rest : String)
    → EachChar not_percent s
    → replace_from size 0 (String.◌∷◌ "%" pat) by (concat s rest)
      ≡ concat s (replace_from size 0 (String.◌∷◌ "%" pat) by rest)
unfolding replace_from
replace_from-concat size pat by String.[] rest h = rw (concat_nil, concat_nil) refl
replace_from-concat size pat by (String.◌∷◌ c s) rest h =
    rw
      (
        concat_cons,
        concat_cons,
        replace_from,
        starts_with-other c (concat s rest) "%" pat (not_percent-eqb c h.0),
      )
      (ap (String.◌∷◌ c) (replace_from-concat size pat by s rest h.1))

pub before-concat :
    (pat s rest : String)
    → EachChar not_percent s
    → before (String.◌∷◌ "%" pat) (concat s rest) ≡ concat s (before (String.◌∷◌ "%" pat) rest)
unfolding before
before-concat pat String.[] rest h = rw (concat_nil, concat_nil) refl
before-concat pat (String.◌∷◌ c s) rest h =
    rw
      (
        concat_cons,
        concat_cons,
        before,
        starts_with-other c (concat s rest) "%" pat (not_percent-eqb c h.0),
      )
      (ap (String.◌∷◌ c) (before-concat pat s rest h.1))
