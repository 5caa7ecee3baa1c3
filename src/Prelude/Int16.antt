-- ===== src/Prelude/Int16.antt =====
-- The signed 16-bit numbers of the execution tiers, as integers with their range written out.
use Prim.Native.Nat.{ℕ, zero, suc, ◌+◌, ◌-◌, ◌≤◌, ◌<◌}
use mathlib.Core.Path.{◌≡◌}
use mathlib.Core.Bool.{Bool}
use native.Mathlib.Omega.{arith}
use kubemod.Prelude.Tests.{ltb, leb, eqb, if◌then◌else◌}

-- `negsuc n` is -(n + 1).
pub data ℤ : Type 0 where
  pos : ℕ → ℤ
  negsuc : ℕ → ℤ

abbrev pub pos_part : ℤ → ℕ
pos_part (pos n) = n
pos_part (negsuc n) = 0

abbrev pub neg_part : ℤ → ℕ
neg_part (pos n) = 0
neg_part (negsuc n) = suc n

abbrev pub max_int16 : ℤ
max_int16 = pos 32767

abbrev pub min_int16 : ℤ
min_int16 = negsuc 32767

infix 50 ◌≤ℤ◌ ◌<ℤ◌
abbrev pub ◌≤ℤ◌ : ℤ → ℤ → Type 0
a ≤ℤ b = pos_part a + neg_part b ≤ pos_part b + neg_part a

abbrev pub ◌<ℤ◌ : ℤ → ℤ → Type 0
a <ℤ b = pos_part a + neg_part b < pos_part b + neg_part a

abbrev pub ltb_ℤ : ℤ → ℤ → Bool
ltb_ℤ a b = ltb (pos_part a + neg_part b) (pos_part b + neg_part a)

abbrev pub leb_ℤ : ℤ → ℤ → Bool
leb_ℤ a b = leb (pos_part a + neg_part b) (pos_part b + neg_part a)

abbrev pub eqb_ℤ : ℤ → ℤ → Bool
eqb_ℤ a b = eqb (pos_part a + neg_part b) (pos_part b + neg_part a)

-- A value of Go's `int16`.
abbrev pub IsInt16 : ℤ → Type 0
IsInt16 a = (min_int16 ≤ℤ a) × (a ≤ℤ max_int16)

-- `a + 1` of an `int16`, which wraps from the greatest value to the least.
unfoldable pub increment : ℤ → ℤ
increment (pos n) = if eqb n 32767 then min_int16 else pos (suc n)
increment (negsuc zero) = pos 0
increment (negsuc (suc n)) = negsuc n

pub eq_of_parts : (a b : ℤ) → pos_part a + neg_part b ≡ pos_part b + neg_part a → a ≡ b
eq_of_parts (pos m) (pos n) h = ground arith
eq_of_parts (pos m) (negsuc n) h = ground arith
eq_of_parts (negsuc m) (pos n) h = ground arith
eq_of_parts (negsuc m) (negsuc n) h = ground arith

-- Below the greatest value nothing wraps.
pub increment_parts :
    (a : ℤ)
    → a <ℤ max_int16
    → pos_part (increment a) + neg_part a ≡ pos_part a + neg_part (increment a) + 1
unfolding increment
increment_parts (pos n) h = ground arith
increment_parts (negsuc zero) h = omega arith
increment_parts (negsuc (suc n)) h = omega arith

-- The number of values from `a` up to the greatest one.
abbrev pub room : ℤ → ℕ
room a = 32767 + neg_part a - pos_part a
