-- ===== src/Prelude/Decimal.antt =====
-- `strconv.Itoa` and `strconv.Atoi`, for a 64-bit `int`.
pub mod RoundTrip
use Prim.Native.Nat.{ℕ, zero, suc, ◌+◌, ◌-◌, ◌*◌, ◌/◌, ◌%◌, ◌^◌}
use Prim.Native.Char.{Char, code}
use Prim.Native.String.{String}
use mathlib.Core.Bool.{Bool, true, false, ◌&&◌}
use mathlib.Core.Option.{Option, none, some}
use kubemod.Prelude.Tests.{ltb, leb, eqb, if◌then◌else◌}
use kubemod.Prelude.Int16.{ℤ, pos, negsuc}
use kubemod.Prelude.Text.{concat}

abbrev pub is_digit : Char → Bool
is_digit c = leb b'0' (code c) && leb (code c) b'9'

digit : ℕ → String
digit zero = "0"
digit (suc zero) = "1"
digit (suc (suc zero)) = "2"
digit (suc (suc (suc zero))) = "3"
digit (suc (suc (suc (suc zero)))) = "4"
digit (suc (suc (suc (suc (suc zero))))) = "5"
digit (suc (suc (suc (suc (suc (suc zero)))))) = "6"
digit (suc (suc (suc (suc (suc (suc (suc zero))))))) = "7"
digit (suc (suc (suc (suc (suc (suc (suc (suc zero)))))))) = "8"
digit _ = "9"

-- The decimal digits of `n`, in front of what is written already; `n` rounds are enough.
digits_before : ℕ → ℕ → String → String
digits_before zero n rest = concat (digit (n % 10)) rest
digits_before (suc fuel) n rest =
    let more = digits_before fuel (n / 10) (concat (digit (n % 10)) rest) in
    if ltb n 10 then concat (digit n) rest else more

unfoldable pub show : ℕ → String
unfolding digit digits_before concat
show n = digits_before n n ""

unfoldable pub itoa : ℤ → String
unfolding show concat
itoa (pos n) = show n
itoa (negsuc n) = concat "-" (show (suc n))

-- The number that a text of digits stands for; `none` at another character.
read_digits : ℕ → String → Option ℕ
read_digits n String.[] = some n
read_digits n (String.◌∷◌ c s) =
    let rest = read_digits (n * 10 + (code c - b'0')) s in if is_digit c then rest else none

read_nonempty : String → Option ℕ
read_nonempty String.[] = none
read_nonempty (String.◌∷◌ c s) = read_digits 0 (String.◌∷◌ c s)

abbrev at_most : ℕ → Option ℕ → Option ℕ
at_most m none = none
at_most m (some n) = if leb n m then some n else none

abbrev signed : Bool → Option ℕ → Option ℤ
signed negative none = none
signed true (some zero) = some (pos 0)
signed true (some (suc n)) = some (negsuc n)
signed false (some n) = some (pos n)

atoi_sign : Char → String → Option ℤ
atoi_sign c s =
    if eqb (code c) b'-'
    then signed true (at_most (2 ^ 63) (read_nonempty s))
    else if eqb (code c) b'+'
    then signed false (at_most (2 ^ 63 - 1) (read_nonempty s))
    else signed false (at_most (2 ^ 63 - 1) (read_nonempty (String.◌∷◌ c s)))

unfoldable pub atoi : String → Option ℤ
unfolding atoi_sign read_nonempty read_digits
atoi String.[] = none
atoi (String.◌∷◌ c s) = atoi_sign c s
