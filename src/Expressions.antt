-- ===== src/Expressions.antt =====
-- The functions and operators that expressions/kubemod_jsonpath.go adds to gval's language. How gval
-- parses an expression and calls them is its own. `reflect.DeepEqual`, and the type's name that
-- `%T` prints, are parameters.
pub mod Spec
pub mod Date
pub mod Language
pub mod Evaluated
use Prim.Native.Char.{code}
use Prim.Native.String
use kubemod.Prelude.{
  ℕ, suc, ◌+◌, String, Bool, true, false, not, ◌&&◌, ◌||◌, differs, List, [], ◌∷◌, eqb, ltb,
  if◌then◌else◌, Result, ok, err, and_then, Error,
}
use kubemod.Prelude.Lists.{length, any}
use kubemod.Prelude.Text.{concat}
use kubemod.Json.{
  Value, null, undefined, boolean, int, string, array, object, elements, entries, is_undefined,
}
use kubemod.Library.{Evaluable}

-- The bytes of a character in UTF-8.
width : ℕ → ℕ
width c = if ltb c 128 then 1 else if ltb c 2048 then 2 else if ltb c 65536 then 3 else 4

-- `len` of a string.
len : String → ℕ
unfolding width
len String.[] = 0
len (String.◌∷◌ c s) = width (code c) + len s

unfoldable pub val_length : Value → Result ℕ
unfolding len
val_length null = ok 0
val_length undefined = ok 0
val_length (array vs) = ok (length (elements vs))
val_length (string s) = ok (len s)
val_length (object fs) = ok (length (entries fs))
val_length _ = err "expected exactly one array, string or object argument"

-- The functions of one argument; another number of arguments is an error.
abbrev one_argument : Error → (Value → Result Value) → List Value → Result Value
one_argument wrong f (v ∷ []) = f v
one_argument wrong f _ = err wrong

unfoldable pub length_gval_function : List Value → Result Value
unfolding val_length
length_gval_function =
    one_argument "length() expects exactly one array, string or object argument"
      (λ v. and_then (val_length v) (λ l. ok (int l)))

unfoldable pub is_defined_gval_function : List Value → Result Value
is_defined_gval_function =
    one_argument "isDefined() expects exactly one argument"
      (λ v. ok (boolean (not (is_undefined v))))

unfoldable pub is_undefined_gval_function : List Value → Result Value
is_undefined_gval_function =
    one_argument "isUndefined() expects exactly one argument" (λ v. ok (boolean (is_undefined v)))

unfoldable pub is_empty_gval_function : List Value → Result Value
is_empty_gval_function =
    one_argument "isEmpty() expects exactly one argument"
      (λ v. and_then (val_length v) (λ l. ok (boolean (eqb l 0))))

unfoldable pub is_not_empty_gval_function : List Value → Result Value
is_not_empty_gval_function =
    one_argument "isNotEmpty() expects exactly one argument"
      (λ v. and_then (val_length v) (λ l. ok (boolean (not (eqb l 0)))))

-- `a == false` and `a == true` of an `interface{}`.
abbrev pub equals_bool : Value → Bool → Bool
equals_bool (boolean b) c = not (differs b c)
equals_bool _ c = false

-- `a == false || a == nil`.
abbrev pub is_falsy : Value → Bool
is_falsy null = true
is_falsy v = equals_bool v false

module _ (type_name : Value → String) where
  operand_error : Value → Error
  operand_error v = concat "unexpected operand type " (concat (type_name v) "; expected bool")

  -- `infixBoolOperator`.
  unfoldable pub infix_bool_operator : (Bool → Bool → Bool) → Value → Value → Result Value
  unfolding operand_error
  infix_bool_operator f (boolean a) (boolean b) = ok (boolean (f a b))
  infix_bool_operator f (boolean a) b = err (operand_error b)
  infix_bool_operator f a b = err (operand_error a)

  unfoldable pub not_operator : Value → Result Value
  unfolding operand_error
  not_operator (boolean b) = ok (boolean (not b))
  not_operator v = err (operand_error v)

  unfoldable pub and_operator : Value → Value → Result Value
  and_operator = infix_bool_operator (λ a b. a && b)

  unfoldable pub or_operator : Value → Value → Result Value
  or_operator = infix_bool_operator (λ a b. a || b)

  unfoldable pub in_array : (Value → Value → Bool) → Value → Value → Result Value
  in_array deep_equal a (array vs) = ok (boolean (any (λ v. deep_equal a v) (elements vs)))
  in_array deep_equal a b =
      err (concat "expected type []interface{} for in operator but got " (type_name b))

-- The short circuits: a result, and whether the right operand is skipped.
unfoldable pub and_short_circuit : Value → Value × Bool
and_short_circuit a = (boolean false, equals_bool a false)

unfoldable pub or_short_circuit : Value → Value × Bool
or_short_circuit a = (boolean true, equals_bool a true)

unfoldable pub coalesce_short_circuit : Value → Value × Bool
coalesce_short_circuit a = (a, not (is_falsy a))

-- The operator `??`.
unfoldable pub coalesce_operator : Value → Value → Result Value
coalesce_operator a b = if is_falsy a then ok b else ok a

-- What `parseIf` returns for `e ? a : b`.
unfoldable pub conditional : Evaluable → Evaluable → Evaluable → Evaluable
conditional e a b v = and_then (e v) (λ x. if is_falsy x then b v else a v)

-- What the parser of gval scans, as far as `parseIf` looks.
pub data Token : Type 0 where
  colon eof other : Token

-- The parser is a parameter: how it reads an expression, how it scans a token, and its error about
-- one that it did not expect. A call leaves it at another place.
module _ {ℓ} {P : Type ℓ} (parse_expression : P → Result Evaluable × P) (scan : P → Token × P)
    (expected : P → Error) where
  -- `b` is `p.Const(nil)`, or the expression behind the colon.
  parse_else : Evaluable → Evaluable → Token × P → Result Evaluable × P
  parse_else e a (colon, p) =
      let (b, q) = parse_expression p in (and_then b (λ b. ok (conditional e a b)), q)
  parse_else e a (eof, p) = (ok (conditional e a (λ v. ok null)), p)
  parse_else e a (other, p) = (err (expected p), p)

  abbrev parse_then : Evaluable → Result Evaluable × P → Result Evaluable × P
  parse_then e (err x, p) = (err x, p)
  parse_then e (ok a, p) = parse_else e a (scan p)

  -- `parseIf`, behind the question mark.
  unfoldable pub parse_if : P → Evaluable → Result Evaluable × P
  unfolding parse_else conditional
  parse_if p e = parse_then e (parse_expression p)
