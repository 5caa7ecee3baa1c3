-- ===== src/Prelude/Decimal/RoundTrip.antt =====
-- `strconv.Atoi` reads back what `strconv.Itoa` writes of a number.
use Prim.Native.Nat.{◌*◌, ◌/◌, ◌%◌, ◌^◌}
use Prim.Native.Char.{Char, code}
use mathlib.Core.Path.{◌≡◌, refl, ap, subst, ◌∙◌}
use mathlib.Core.Bool.{true}
use mathlib.Core.Option.{some}
use native.Mathlib.Omega.{arith}
use Prim.Native.Nat.{ℕ, zero, suc, ◌+◌, ◌<◌, ◌≤◌}
use Prim.Native.String.{String}
use kubemod.Prelude.Int16.{pos}
use kubemod.Prelude.Text.{concat}
use kubemod.Prelude.Strings.{concat_nil, concat_cons, EachChar}
use kubemod.Prelude.{ltb, Bool-cases, inl, inr}
use kubemod.Prelude.Decimal.{
  is_digit, digit, digits_before, show, read_digits, read_nonempty, atoi_sign, atoi,
}

-- The text of one digit.
record IsDigit (k : ℕ) : Type 0 where
  char : Char
  written : digit k ≡ String.◌∷◌ char ""
  reads : code char ≡ k + 48

IsDigit-below_ten : (k : ℕ) → k < 10 → IsDigit k
unfolding digit
IsDigit-below_ten zero h = record { char = "0"; written = refl; reads = refl }
IsDigit-below_ten (suc zero) h = record { char = "1"; written = refl; reads = refl }
IsDigit-below_ten (suc (suc zero)) h = record { char = "2"; written = refl; reads = refl }
IsDigit-below_ten (suc (suc (suc zero))) h = record { char = "3"; written = refl; reads = refl }
IsDigit-below_ten (suc (suc (suc (suc zero)))) h = record {
  char = "4";
  written = refl;
  reads = refl;
}
IsDigit-below_ten (suc (suc (suc (suc (suc zero))))) h = record {
  char = "5";
  written = refl;
  reads = refl;
}
IsDigit-below_ten (suc (suc (suc (suc (suc (suc zero)))))) h = record {
  char = "6";
  written = refl;
  reads = refl;
}
IsDigit-below_ten (suc (suc (suc (suc (suc (suc (suc zero))))))) h = record {
  char = "7";
  written = refl;
  reads = refl;
}
IsDigit-below_ten (suc (suc (suc (suc (suc (suc (suc (suc zero)))))))) h = record {
  char = "8";
  written = refl;
  reads = refl;
}
IsDigit-below_ten (suc (suc (suc (suc (suc (suc (suc (suc (suc zero))))))))) h = record {
  char = "9";
  written = refl;
  reads = refl;
}
IsDigit-below_ten (suc (suc (suc (suc (suc (suc (suc (suc (suc (suc k)))))))))) h =
    absurd (omega arith)

IsDigit-is_digit : {k : ℕ} (d : IsDigit k) → k < 10 → is_digit d.char ≡ true
IsDigit-is_digit d h = ground (arith, d.reads)

read_digits-digit :
    (acc k : ℕ) (rest : String)
    → k < 10
    → read_digits acc (concat (digit k) rest) ≡ read_digits (acc * 10 + k) rest
unfolding read_digits
read_digits-digit acc k rest h =
    let d = IsDigit-below_ten k h in
    rw (d.written, concat_cons, concat_nil, IsDigit-is_digit d h, d.reads)
      (ap (λ n. read_digits n rest) (omega arith))

read_digits-digits_before :
    (fuel n : ℕ) (rest : String)
    → n ≤ fuel
    → read_digits 0 (digits_before fuel n rest) ≡ read_digits n rest
unfolding digits_before
read_digits-digits_before zero zero rest h = read_digits-digit 0 0 rest (omega arith)
read_digits-digits_before zero (suc n) rest h = absurd (omega arith)
read_digits-digits_before (suc fuel) n rest h = elim (Bool-cases (ltb n 10)) [
  | inl small ↦ rw small (
      read_digits-digit 0 n rest (ground (arith, small))
      ∙ ap (λ k. read_digits k rest) (omega arith))
  | inr large ↦ rw large (
      read_digits-digits_before fuel (n / 10) (concat (digit (n % 10)) rest) (ground (arith, large))
      ∙ read_digits-digit (n / 10) (n % 10) rest (omega arith)
      ∙ ap (λ k. read_digits k rest) (omega arith))
]

-- A text that begins with a digit.
abbrev StartsWithDigit : String → Type 0
StartsWithDigit s = (c : Char) × (t : String) × (s ≡ String.◌∷◌ c t) × (is_digit c ≡ true)

StartsWithDigit-digit : (k : ℕ) (rest : String) → k < 10 → StartsWithDigit (concat (digit k) rest)
StartsWithDigit-digit k rest h =
    let d = IsDigit-below_ten k h in
    (d.char, rest, rw (d.written, concat_cons, concat_nil) refl, IsDigit-is_digit d h)

StartsWithDigit-digits_before :
    (fuel n : ℕ) (rest : String) → StartsWithDigit (digits_before fuel n rest)
unfolding digits_before
StartsWithDigit-digits_before zero n rest = StartsWithDigit-digit (n % 10) rest (omega arith)
StartsWithDigit-digits_before (suc fuel) n rest = elim (Bool-cases (ltb n 10)) [
  | inl small ↦ rw small (StartsWithDigit-digit n rest (ground (arith, small)))
  | inr large ↦
      rw large (StartsWithDigit-digits_before fuel (n / 10) (concat (digit (n % 10)) rest))
]

EachChar-digit :
    (k : ℕ) (rest : String)
    → k < 10
    → EachChar is_digit rest
    → EachChar is_digit (concat (digit k) rest)
EachChar-digit k rest h all =
    let d = IsDigit-below_ten k h in
    rw (d.written, concat_cons, concat_nil) (IsDigit-is_digit d h, all)

EachChar-digits_before :
    (fuel n : ℕ) (rest : String)
    → EachChar is_digit rest
    → EachChar is_digit (digits_before fuel n rest)
unfolding digits_before
EachChar-digits_before zero n rest all = EachChar-digit (n % 10) rest (omega arith) all
EachChar-digits_before (suc fuel) n rest all = elim (Bool-cases (ltb n 10)) [
  | inl small ↦ rw small (EachChar-digit n rest (ground (arith, small)) all)
  | inr large ↦ rw large (
      EachChar-digits_before fuel (n / 10) (concat (digit (n % 10)) rest)
        (EachChar-digit (n % 10) rest (omega arith) all))
]

pub EachChar-show : (n : ℕ) → EachChar is_digit (show n)
unfolding show
EachChar-show n = EachChar-digits_before n n "" tt

pub show_first :
    (n : ℕ) → (c : Char) × (t : String) × (show n ≡ String.◌∷◌ c t) × (is_digit c ≡ true)
unfolding show
show_first n = StartsWithDigit-digits_before n n ""

read_digits-show : (n : ℕ) → read_digits 0 (show n) ≡ some n
unfolding show read_digits
read_digits-show n = read_digits-digits_before n n "" (omega arith)

-- A number that an `int` can hold is read back from its decimal text.
pub atoi-show : (n : ℕ) → n < 2 ^ 63 → atoi (show n) ≡ some (pos n)
unfolding atoi atoi_sign read_nonempty
atoi-show n h =
    let (c, t, e, d) = show_first n in
    let r : read_digits 0 (String.◌∷◌ c t) ≡ some n =
      subst (λ s. read_digits 0 s ≡ some n) e (read_digits-show n) in
    rw e (ground (arith, d, r, h))
