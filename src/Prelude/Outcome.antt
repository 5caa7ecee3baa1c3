-- ===== src/Prelude/Outcome.antt =====
-- How a Go call ends. `Result` is `(value, error)`; `Exec` may also panic.
use mathlib.Core.Logic.{◌⊎◌, inl, inr}
use mathlib.Core.Option.{Option, none, some}
use mathlib.Core.Path.{◌≡◌, refl, ap}
use Prim.Native.String.{String}
use mathlib.Core.Bool.{Bool, true, false, false≢true}

-- The text of an error.
abbrev pub Error : Type 0
Error = String

pub data Result {ℓ} (A : Type ℓ) : Type ℓ where
  ok : A → Result A
  err : Error → Result A

pub data Exec {ℓ} (A : Type ℓ) : Type ℓ where
  done : A → Exec A
  fail : Error → Exec A
  panic : Exec A

abbrev pub is_ok {ℓ} : {A : Type ℓ} → Result A → Bool
is_ok (ok a) = true
is_ok (err e) = false

module _ {ℓ κ} {A : Type ℓ} {B : Type κ} where
  -- `if err != nil { return nil, err }` after a call.
  abbrev pub and_then : Result A → (A → Result B) → Result B
  and_then (ok a) f = f a
  and_then (err e) f = err e

  infixl 5 ◌>>=◌
  abbrev pub ◌>>=◌ : Exec A → (A → Exec B) → Exec B
  done a >>= f = f a
  fail e >>= f = fail e
  panic >>= f = panic

-- A call that cannot panic.
abbrev pub lift {ℓ} : {A : Type ℓ} → Result A → Exec A
lift (ok a) = done a
lift (err e) = fail e

-- A value that the code dereferences, or whose type it asserts, with no check.
abbrev pub expect {ℓ} : {A : Type ℓ} → Option A → Exec A
expect none = panic
expect (some a) = done a

module _ {ℓ} {A : Type ℓ} where
  abbrev ok_or : A → Result A → A
  ok_or a (ok b) = b
  ok_or a (err e) = a

  pub ok-injective : {a b : A} → Path (Result A) (ok a) (ok b) → a ≡ b
  ok-injective {a} {b} h = ap (ok_or a) h

  abbrev done_or : A → Exec A → A
  done_or a (done b) = b
  done_or a _ = a

  abbrev some_or : A → Option A → A
  some_or a (some b) = b
  some_or a none = a

  pub some-injective : {a b : A} → Path (Option A) (some a) (some b) → a ≡ b
  some-injective {a} {b} h = ap (some_or a) h

  pub done-injective : {a b : A} → Path (Exec A) (done a) (done b) → a ≡ b
  done-injective {a} {b} h = ap (done_or a) h

module _ {ℓ κ} {A : Type ℓ} {B : Type κ} where
  -- Inversion of a chain that succeeded.
  pub and_then-eq-ok :
      (r : Result A) (f : A → Result B) {b : B}
      → and_then r f ≡ ok b
      → (a : A) × (r ≡ ok a) × (f a ≡ ok b)
  and_then-eq-ok (ok a) f h = (a, refl, h)
  and_then-eq-ok (err e) f h = cc

  pub >>=-eq-done :
      (m : Exec A) (f : A → Exec B) {b : B}
      → (m >>= f) ≡ done b
      → (a : A) × (m ≡ done a) × (f a ≡ done b)
  >>=-eq-done (done a) f h = (a, refl, h)
  >>=-eq-done (fail e) f h = cc
  >>=-eq-done panic f h = cc

pub Result-cases {ℓ} :
    {A : Type ℓ} (r : Result A) → ((a : A) × (r ≡ ok a)) ⊎ ((e : Error) × (r ≡ err e))
Result-cases (ok a) = inl (a, refl)
Result-cases (err e) = inr (e, refl)

module _ {ℓ κ μ} {A : Type ℓ} {B : Type κ} {C : Type μ} where
  pub >>=_assoc :
      (m : Exec A) (f : A → Exec B) (g : B → Exec C) → (m >>= f) >>= g ≡ (m >>= λ a. f a >>= g)
  >>=_assoc (done a) f g = refl
  >>=_assoc (fail e) f g = refl
  >>=_assoc panic f g = refl

module _ {ℓ μ} {A : Type ℓ} {C : Type μ} where
  -- Two chains that begin alike and go on alike.
  pub >>=-ext :
      (m : Exec A) (f : A → Exec C) (g : A → Exec C) → ((a : A) → f a ≡ g a) → (m >>= f) ≡ (m >>= g)
  >>=-ext (done a) f g h = h a
  >>=-ext (fail e) f g h = refl
  >>=-ext panic f g h = refl

module _ {ℓ κ} {A : Type ℓ} {B : Type κ} where
  pub is_ok-and_then :
      (r : Result A) (f : A → Result B)
      → is_ok r ≡ true
      → ((a : A) → is_ok (f a) ≡ true)
      → is_ok (and_then r f) ≡ true
  is_ok-and_then (ok a) f h k = k a
  is_ok-and_then (err e) f h k = absurd (false≢true h)

pub is_ok-cases {ℓ} : {A : Type ℓ} (r : Result A) → is_ok r ≡ true → (a : A) × (r ≡ ok a)
is_ok-cases (ok a) h = (a, refl)
is_ok-cases (err e) h = absurd (false≢true h)
