-- ===== src/Paths.antt =====
-- Patch paths (core/modrulestoreitem.go): the placeholders `#i` of a path template, the keys that
-- a select expression yields, and the path that the two make. A scan of a regular expression is a
-- pass over the text with the state of the match under way.
pub mod Scan
pub mod Render
pub mod SelectKey
use Prim.Native.Nat.{ℕ, zero, suc, ◌+◌, ◌-◌}
use Prim.Native.Char.{Char, code}
use mathlib.Core.Bool.{Bool, true, false, ◌||◌}
use text.Mathlib.Text.{starts_with}
use kubemod.Prelude.{String, ◌==◌, Option, none, some, List, [], ◌∷◌, ◌++◌, eqb, if◌then◌else◌, map}
use kubemod.Prelude.Lists.{get_elem?}
use kubemod.Prelude.Int16.{ℤ, pos, negsuc}
use kubemod.Prelude.Decimal.{is_digit, atoi, itoa, show}
use kubemod.Prelude.Text.{concat, join}
use kubemod.Library.{Library, KeyPart, number, word}

abbrev pub push : String → Char → String
push s c = concat s (String.◌∷◌ c "")

-- The text before the first occurrence of a pattern.
unfoldable pub before : String → String → String
before pat String.[] = ""
before pat (String.◌∷◌ c s) = elim (starts_with (String.◌∷◌ c s) pat) [
  | true ↦ ""
  | false ↦ String.◌∷◌ c (before pat s)
]

-- `strings.Contains(s, pat)`, for a pattern that is not empty.
unfoldable pub contains : String → String → Bool
contains pat String.[] = false
contains pat (String.◌∷◌ c s) = elim (starts_with (String.◌∷◌ c s) pat) [
  | true ↦ true
  | false ↦ contains pat s
]

-- `strings.ReplaceAll(s, pat, by)`; the number counts what is left of an occurrence to skip.
pub replace_from : ℕ → ℕ → String → String → String → String
replace_from size skip pat by String.[] = ""
replace_from size (suc skip) pat by (String.◌∷◌ c s) = replace_from size skip pat by s
replace_from size zero pat by (String.◌∷◌ c s) = elim (starts_with (String.◌∷◌ c s) pat) [
  | true ↦ concat by (replace_from size (size - 1) pat by s)
  | false ↦ String.◌∷◌ c (replace_from size zero pat by s)
]

-- The state of a match of `\["([^\[\]"]+)"\]`.
pub data KeyScan : Type 0 where
  outside opened : KeyScan
  quoted : String → KeyScan
  closed : String → KeyScan

abbrev restart : Char → KeyScan
restart c = if eqb (code c) b'[' then opened else outside

key_next : KeyScan → Char → KeyScan
key_next outside c = restart c
key_next opened c = if eqb (code c) 34 then quoted "" else restart c
key_next (quoted k) c =
    if eqb (code c) 34
    then (if k == "" then outside else closed k)
    else if eqb (code c) b'[' || eqb (code c) b']'
    then restart c
    else quoted (push k c)
key_next (closed k) c = restart c

-- The key that the character completes.
key_found : KeyScan → Char → List String
key_found (closed k) c = if eqb (code c) b']' then k ∷ [] else []
key_found _ c = []

-- `extractMatches` with `rexSelectKeySegment`.
select_keys : KeyScan → String → List String
unfolding key_next key_found
select_keys m String.[] = []
select_keys m (String.◌∷◌ c s) = key_found m c ++ select_keys (key_next m c) s

-- The type detection of `extractMatches`.
key_part : String → KeyPart
key_part s = elim (atoi s) [ none ↦ word s | some n ↦ number n ]

unfoldable pub key_parts_from_select_key : String → List KeyPart
unfolding select_keys key_part
key_parts_from_select_key key = map key_part (select_keys outside key)

-- The state of a match of `#(\d+)`.
pub data HashScan : Type 0 where
  plain hash : HashScan
  digits : String → HashScan

hash_start : Char → HashScan
hash_start c = if eqb (code c) b'#' then hash else plain

hash_next : HashScan → Char → HashScan
hash_next plain c = hash_start c
hash_next hash c = if is_digit c then digits (push "" c) else hash_start c
hash_next (digits d) c = if is_digit c then digits (push d c) else hash_start c

abbrev unless_hash : Char → String
unless_hash c = if eqb (code c) b'#' then "" else push "" c

-- What the step writes: the text that cannot belong to a placeholder any more, and `by d` for a
-- placeholder with the digits `d` that has ended.
hash_emit : (String → String) → HashScan → Char → String
hash_emit by plain c = unless_hash c
hash_emit by hash c = if is_digit c then "" else concat "#" (unless_hash c)
hash_emit by (digits d) c = if is_digit c then "" else concat (by d) (unless_hash c)

hash_flush : (String → String) → HashScan → String
hash_flush by plain = ""
hash_flush by hash = "#"
hash_flush by (digits d) = by d

-- `rexPathTemplatePlaceholder.ReplaceAllString`, with a replacement that may use the digits.
pub replace_placeholders : (String → String) → HashScan → String → String
unfolding hash_next hash_emit hash_flush hash_start
replace_placeholders by m String.[] = hash_flush by m
replace_placeholders by m (String.◌∷◌ c s) =
    concat (hash_emit by m c) (replace_placeholders by (hash_next m c) s)

placeholder_done : HashScan → List String
placeholder_done (digits d) = d ∷ []
placeholder_done _ = []

-- `extractMatches` with `rexPathTemplatePlaceholder`.
placeholders : HashScan → String → List String
unfolding hash_next hash_start placeholder_done
placeholders m String.[] = placeholder_done m
placeholders m (String.◌∷◌ c s) =
    (if is_digit c then [] else placeholder_done m) ++ placeholders (hash_next m c) s

-- `strconv.Itoa(val + 1)` of the digits of a placeholder. Out of range `Atoi` returns the greatest
-- `int`, whose successor wraps.
pub next_index : String → String
next_index d = elim (atoi d) [
  | none ↦ "-9223372036854775808"
  | some (pos n) ↦ if eqb n 9223372036854775807 then "-9223372036854775808" else show (n + 1)
  | some (negsuc n) ↦ "-9223372036854775808"
]

pub verb_of : String → String
unfolding next_index
verb_of d = concat "%[" (concat (next_index d) "]v")

-- The state of a match of `%[n]v`; `other` is a verb of another form.
pub data VerbScan : Type 0 where
  literal percent other : VerbScan
  bracket : String → VerbScan
  bracketed : String → VerbScan

verb_next : VerbScan → Char → VerbScan
verb_next literal c = if eqb (code c) b'%' then percent else literal
verb_next percent c = if eqb (code c) b'[' then bracket "" else other
verb_next other c = other
verb_next (bracket d) c =
    if is_digit c then bracket (push d c) else if eqb (code c) b']' then bracketed d else other
verb_next (bracketed d) c = if eqb (code c) b'v' then literal else other

pub show_part : KeyPart → String
show_part (number n) = itoa n
show_part (word s) = s

-- The argument that `%[n]v` names, or Go's mark for an index out of range.
pub argument : List KeyPart → Option ℤ → String
unfolding show_part
argument args (some (pos (suc i))) = elim (get_elem? args i) [
  | none ↦ "%!v(BADINDEX)"
  | some p ↦ show_part p
]
argument args _ = "%!v(BADINDEX)"

verb_emit : List KeyPart → VerbScan → Char → String
unfolding argument
verb_emit args literal c = if eqb (code c) b'%' then "" else push "" c
verb_emit args (bracketed d) c = argument args (atoi d)
verb_emit args _ c = ""

pub format : List KeyPart → VerbScan → String → String
unfolding verb_next verb_emit
format args m String.[] = ""
format args m (String.◌∷◌ c s) = concat (verb_emit args m c) (format args (verb_next m c) s)

pub verb_end : VerbScan → String → VerbScan
unfolding verb_next
verb_end m String.[] = m
verb_end m (String.◌∷◌ c s) = verb_end (verb_next m c) s

-- Whether all the verbs of a format are `%[n]v`.
abbrev is_literal : VerbScan → Bool
is_literal literal = true
is_literal _ = false

typed_part : KeyPart → String
unfolding show_part
typed_part (number n) = concat "int=" (itoa n)
typed_part (word s) = concat "string=" s

-- What `Sprintf` appends for arguments that a format with no verb leaves over.
pub extra : String → List KeyPart → String
unfolding typed_part
extra fmt [] = ""
extra fmt args =
    if contains "%" fmt
    then ""
    else concat "%!(EXTRA " (concat (join ", " (map typed_part args)) ")")

-- `fmt.Sprintf` at the formats that a template with no `%` yields; others are the library's.
pub sprintf : Library → String → List KeyPart → String
unfolding format verb_end extra contains join
sprintf lib fmt args =
    if is_literal (verb_end literal fmt)
    then concat (format args literal fmt) (extra fmt args)
    else lib.sprintf_other fmt args

unfoldable pub path_template_to_sprintf_template : Library → String → String
unfolding replace_placeholders placeholders verb_of next_index contains
path_template_to_sprintf_template lib t =
    if contains "%" t
    then lib.sprintf_other (replace_placeholders (λ _. "%%[%v]v") plain t)
        (map (λ d. word (next_index d)) (placeholders plain t))
    else replace_placeholders verb_of plain t

unfoldable pub path_from_key_parts : Library → List KeyPart → String → String
unfolding sprintf replace_from before
path_from_key_parts lib keys template =
    before "%!(EXTRA" (replace_from 13 0 "%!v(BADINDEX)" "#(BADINDEX)" (sprintf lib template keys))
