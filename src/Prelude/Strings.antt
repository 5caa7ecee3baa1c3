-- ===== src/Prelude/Strings.antt =====
-- Laws of texts: concatenation, the characters that a text holds, and how texts begin.
use Prim.Native.Char.{Char, code}
use text.Mathlib.Text.{starts_with, ◌==◌}
use text.Mathlib.TextEquality.{starts_with_iff, eq_iff}
use text.Mathlib.TextLemmas.{nil-append, cons-append, append-nil, append_assoc}
use kubemod.Prelude.{
  ℕ, String, ◌≡◌, refl, sym, ap, ◌∙◌, Bool, true, false, eqb, Bool-cases, inl, inr, arith,
}
use kubemod.Prelude.Text.{concat}

pub concat_nil : (t : String) → concat "" t ≡ t
unfolding concat
concat_nil t = nil-append t

pub concat_cons : (c : Char) (s t : String) → concat (String.◌∷◌ c s) t ≡ String.◌∷◌ c (concat s t)
unfolding concat
concat_cons c s t = cons-append c s t

pub concat-nil : (s : String) → concat s "" ≡ s
unfolding concat
concat-nil s = append-nil s

pub concat_assoc : (s t u : String) → concat (concat s t) u ≡ concat s (concat t u)
unfolding concat
concat_assoc s t u = append_assoc s t u

-- Every character of the text passes the test.
abbrev pub EachChar : (Char → Bool) → String → Type 0
EachChar p String.[] = Unit
EachChar p (String.◌∷◌ c s) = (p c ≡ true) × EachChar p s

pub EachChar-concat :
    (p : Char → Bool) (s t : String) → EachChar p s → EachChar p t → EachChar p (concat s t)
EachChar-concat p String.[] t h k = rw concat_nil k
EachChar-concat p (String.◌∷◌ c s) t h k = rw concat_cons (h.0, EachChar-concat p s t h.1 k)

pub EachChar-implied :
    (p q : Char → Bool)
    → ((c : Char) → p c ≡ true → q c ≡ true)
    → (s : String) → EachChar p s
    → EachChar q s
EachChar-implied p q f String.[] h = tt
EachChar-implied p q f (String.◌∷◌ c s) h = (f c h.0, EachChar-implied p q f s h.1)

-- The code of the first character, 0 if there is none.
abbrev first_code : String → ℕ
first_code String.[] = 0
first_code (String.◌∷◌ c s) = code c

-- A text does not begin with one that has another first character.
pub starts_with-other :
    (c : Char) (s : String) (d : Char) (p : String)
    → eqb (code c) (code d) ≡ false
    → starts_with (String.◌∷◌ c s) (String.◌∷◌ d p) ≡ false
starts_with-other c s d p h = elim (Bool-cases (starts_with (String.◌∷◌ c s) (String.◌∷◌ d p))) [
  | inr e ↦ e
  | inl e ↦
      let (u, split) = (starts_with_iff (String.◌∷◌ c s) (String.◌∷◌ d p)).0 e in
      let same : code d ≡ code c = ap first_code (sym (cons-append d p u) ∙ split) in
      absurd (ground (arith, h, same))
]

pub starts_with-concat : (p s : String) → starts_with (concat p s) p ≡ true
unfolding concat
starts_with-concat p s = (starts_with_iff (concat p s) p).1 (s, refl)

-- A text in front of another, which computes where the first is known.
abbrev pub prepend : String → String → String
prepend String.[] t = t
prepend (String.◌∷◌ c s) t = String.◌∷◌ c (prepend s t)

pub concat-prepend : (s t : String) → concat s t ≡ prepend s t
concat-prepend String.[] t = concat_nil t
concat-prepend (String.◌∷◌ c s) t = concat_cons c s t ∙ ap (String.◌∷◌ c) (concat-prepend s t)

abbrev is_nil : String → Bool
is_nil String.[] = true
is_nil (String.◌∷◌ c s) = false

pub cons-nonempty : (c : Char) (s : String) → (String.◌∷◌ c s == "") ≡ false
cons-nonempty c s = elim (Bool-cases (String.◌∷◌ c s == "")) [
  | inr e ↦ e
  | inl e ↦
      let impossible : false ≡ true = ap is_nil ((eq_iff (String.◌∷◌ c s) "").0 e) in
      absurd (ground (arith, impossible))
]
