-- ===== src/Paths/SelectKey.antt =====
-- The select keys (core/modrulestoreitem.go): a select expression names a match by the keys on the
-- way to it, `$["k1"]["k2"]`, and the code reads the keys back by a regular expression.
use Prim.Native.Nat.{◌^◌}
use Prim.Native.Char.{Char, code}
use text.Mathlib.Text.{◌==◌}
use kubemod.Prelude.{
  ℕ, ◌<◌, String, ◌≡◌, refl, sym, ap, ◌∙◌, Bool, true, false, not, ◌&&◌, ◌||◌, eqb, leb, List, [],
  ◌∷◌, map, arith, none,
}
use kubemod.Prelude.Lists.{All}
use kubemod.Prelude.Int16.{pos, negsuc}
use kubemod.Prelude.Text.{concat}
use kubemod.Prelude.Strings.{
  concat_assoc, concat_nil, concat_cons, concat-nil, EachChar, EachChar-implied, cons-nonempty,
}
use kubemod.Prelude.Decimal.{is_digit, atoi, show, itoa}
use kubemod.Prelude.Decimal.RoundTrip.{atoi-show, EachChar-show, show_first}
use kubemod.Library.{KeyPart, number, word}
use kubemod.Paths.{
  push, outside, quoted, key_next, key_found, select_keys, key_part, show_part,
  key_parts_from_select_key,
}
use kubemod.Paths.Scan.{push_lem}

-- A character that `strconv.Quote` leaves as it is: printable ASCII, no quote and no backslash.
abbrev unescaped : Char → Bool
unescaped c = leb 32 (code c) && leb (code c) 126 && not (eqb (code c) 34) && not (eqb (code c) 92)

-- What Go documents of `strconv.Quote` for such texts: they are put between quotes.
abbrev pub Quotes : (String → String) → Type 0
Quotes quote = (s : String) → EachChar unescaped s → quote s ≡ concat "\"" (concat s "\"")

-- A character that is printed as it is, and that the code reads as a part of a key.
abbrev in_key : Char → Bool
in_key c = unescaped c && not (eqb (code c) b'[') && not (eqb (code c) b']')

-- A text that is a key of a select key: not empty, of printable ASCII with no bracket, no quote and
-- no backslash.
pub record IsKey (s : String) : Type 0 where
  pub nonempty : (s == "") ≡ false
  pub chars : EachChar in_key s

print_segments : List String → String
print_segments [] = ""
print_segments (k ∷ rest) = concat "[\"" (concat k (concat "\"]" (print_segments rest)))

-- `quoteWildcardValues` (jsonpath/placeholder.go) on keys: each is quoted and put in brackets.
quote_wildcard_values : (quote : String → String) → List String → String
quote_wildcard_values quote [] = ""
quote_wildcard_values quote (k ∷ rest) =
    concat (concat "[" (concat (quote k) "]")) (quote_wildcard_values quote rest)

-- The select key of the keys on the way to a match, as the placeholder `#` prints it
-- (jsonpath/placeholder.go: `evaluable`); `quote` is `strconv.Quote`.
unfoldable pub print_select_key : (quote : String → String) → List String → String
unfolding quote_wildcard_values
print_select_key quote keys = concat "$" (quote_wildcard_values quote keys)

EachChar-unescaped : (s : String) → EachChar in_key s → EachChar unescaped s
EachChar-unescaped s = EachChar-implied in_key unescaped (λ c h. ground (arith, h)) s

opening : (t : String) → concat "[" (concat "\"" t) ≡ concat "[\"" t
unfolding concat
opening t = sym (concat_assoc "[" "\"" t)

closing : (t : String) → concat "\"" (concat "]" t) ≡ concat "\"]" t
unfolding concat
closing t = sym (concat_assoc "\"" "]" t)

quoted_key :
    (k rest : String)
    → concat (concat "[" (concat (concat "\"" (concat k "\"")) "]")) rest
      ≡ concat "[\"" (concat k (concat "\"]" rest))
quoted_key k rest = simp (concat_assoc, opening, closing) refl

quote_wildcard_values-print_segments :
    (quote : String → String)
    → Quotes quote
    → (keys : List String) → All IsKey keys
    → quote_wildcard_values quote keys ≡ print_segments keys
unfolding quote_wildcard_values print_segments
quote_wildcard_values-print_segments quote quotes [] v = refl
quote_wildcard_values-print_segments quote quotes (k ∷ rest) v =
    rw
      (
        quotes k (EachChar-unescaped k v.0.chars),
        quote_wildcard_values-print_segments quote quotes rest v.1,
      )
      (quoted_key k (print_segments rest))

record Inside (c : Char) : Type 0 where
  not_quote : eqb (code c) 34 ≡ false
  not_bracket : (eqb (code c) b'[' || eqb (code c) b']') ≡ false

in_key-Inside : (c : Char) → in_key c ≡ true → Inside c
in_key-Inside c h = record { not_quote = ground (arith, h); not_bracket = ground (arith, h) }

select_keys-quoted :
    (d s rest : String)
    → EachChar in_key s
    → select_keys (quoted d) (concat s rest) ≡ select_keys (quoted (concat d s)) rest
unfolding select_keys key_next key_found
select_keys-quoted d String.[] rest h = rw (concat_nil, concat-nil) refl
select_keys-quoted d (String.◌∷◌ c s) rest h =
    let i = in_key-Inside c h.0 in
    rw (concat_cons, i.not_quote, i.not_bracket)
      (select_keys-quoted (push d c) s rest h.1
        ∙ ap (λ t. select_keys (quoted t) rest) (push_lem d c s))

select_keys-quote :
    (k rest : String)
    → (k == "") ≡ false
    → select_keys (quoted k) (String.◌∷◌ "\"" (String.◌∷◌ "]" rest)) ≡ k ∷ select_keys outside rest
unfolding select_keys key_next key_found
select_keys-quote k rest h = rw h refl

select_keys-segment :
    (k rest : String)
    → IsKey k
    → select_keys outside (concat "[\"" (concat k (concat "\"]" rest)))
      ≡ k ∷ select_keys outside rest
unfolding select_keys key_next key_found
select_keys-segment k rest v =
    rw (concat_cons, concat_cons, concat_nil)
      (select_keys-quoted "" k (concat "\"]" rest) v.chars
        ∙ ap (λ t. select_keys (quoted t) (concat "\"]" rest)) (concat_nil k)
        ∙ rw (concat_cons, concat_cons, concat_nil) (select_keys-quote k rest v.nonempty))

select_keys-segments :
    (keys : List String) → All IsKey keys → select_keys outside (print_segments keys) ≡ keys
unfolding select_keys print_segments
select_keys-segments [] v = refl
select_keys-segments (k ∷ rest) v =
    select_keys-segment k (print_segments rest) v.0 ∙ ap (◌∷◌ k) (select_keys-segments rest v.1)

-- A key that `Atoi` does not read, or an index that fits an `int`.
abbrev pub IsSelectKey : KeyPart → Type 0
IsSelectKey (number (pos n)) = n < 2 ^ 63
IsSelectKey (number (negsuc n)) = ⊥
IsSelectKey (word s) = IsKey s × (atoi s ≡ none)

show-nonempty : (n : ℕ) → (show n == "") ≡ false
show-nonempty n = let (c, t, e, d) = show_first n in rw e (cons-nonempty c t)

IsKey-show_part : (p : KeyPart) → IsSelectKey p → IsKey (show_part p)
unfolding show_part itoa
IsKey-show_part (number (pos n)) h = record {
  nonempty = show-nonempty n;
  chars = EachChar-implied is_digit in_key (λ c d. ground (arith, d)) (show n) (EachChar-show n);
}
IsKey-show_part (number (negsuc n)) h = absurd h
IsKey-show_part (word s) h = h.0

key_part-show_part : (p : KeyPart) → IsSelectKey p → key_part (show_part p) ≡ p
unfolding key_part show_part itoa
key_part-show_part (number (pos n)) h = rw (key_part, atoi-show n h) refl
key_part-show_part (number (negsuc n)) h = absurd h
key_part-show_part (word s) h = rw (key_part, h.1) refl

map-key_part :
    (keys : List KeyPart) → All IsSelectKey keys → map key_part (map show_part keys) ≡ keys
map-key_part [] v = refl
map-key_part (p ∷ rest) v =
    ap (λ q. q ∷ map key_part (map show_part rest)) (key_part-show_part p v.0)
    ∙ ap (◌∷◌ p) (map-key_part rest v.1)

All-IsKey : (keys : List KeyPart) → All IsSelectKey keys → All IsKey (map show_part keys)
All-IsKey [] v = tt
All-IsKey (p ∷ rest) v = (IsKey-show_part p v.0, All-IsKey rest v.1)

-- The parts of a select key that the placeholder `#` printed are read back, when each is an index that
-- fits an `int`, or a text that is no number, is not empty, and is of printable ASCII with no bracket,
-- no quote and no backslash. `quote` puts such texts between quotes, as `strconv.Quote` does.
pub key_parts_from_select_key-print :
    (quote : String → String)
    → Quotes quote
    → (keys : List KeyPart) → All IsSelectKey keys
    → key_parts_from_select_key (print_select_key quote (map show_part keys)) ≡ keys
unfolding key_parts_from_select_key print_select_key select_keys
key_parts_from_select_key-print quote quotes keys v =
    rw
      (
        quote_wildcard_values-print_segments quote quotes (map show_part keys) (All-IsKey keys v),
        concat_cons,
        concat_nil,
      )
      (ap (map key_part) (select_keys-segments (map show_part keys) (All-IsKey keys v))
        ∙ map-key_part keys v)
