-- ===== src/Json.antt =====
-- The values that Go code holds in an `interface{}`: what `encoding/json` decodes, and the values
-- that the query language adds (jsonpath/selector.go, `Undefined`; core/modrulestore.go,
-- `getValueFromJSONObject`). A `float64` is its 64-bit pattern.
use kubemod.Prelude.{
  ℕ, String, Bool, true, false, Option, none, some, List, [], ◌∷◌, ◌==◌, eq_iff, ◌≡◌, refl, arith,
  if◌then◌else◌,
}

mutual
  pub data Value : Type 0 where
    null : Value
    undefined : Value
    boolean : Bool → Value
    int : ℕ → Value
    float : ℕ → Value
    string : String → Value
    array : Values → Value
    object : Fields → Value

  pub data Values : Type 0 where
    nil : Values
    cons : Value → Values → Values

  -- The entries of a map, in the order in which a `range` over it visits them.
  pub data Fields : Type 0 where
    end : Fields
    field : String → Value → Fields → Fields

abbrev pub elements : Values → List Value
elements nil = []
elements (cons v vs) = v ∷ elements vs

abbrev pub entries : Fields → List (String × Value)
entries end = []
entries (field k v fs) = (k, v) ∷ entries fs

-- `v, ok := m[k]`.
unfoldable pub get_field : String → Fields → Option Value
get_field k end = none
get_field k (field j v fs) = if j == k then some v else get_field k fs

-- `m[k] = v`.
unfoldable pub set_field : String → Value → Fields → Fields
set_field k v end = field k v end
set_field k v (field j w fs) = if j == k then field j v fs else field j w (set_field k v fs)

pub get_field-set_field :
    (j k : String) (v : Value) (fs : Fields)
    → get_field j (set_field k v fs) ≡ (if k == j then some v else get_field j fs)
unfolding get_field set_field
get_field-set_field j k v end = refl
get_field-set_field j k v (field i w fs) =
    ground (arith, eq_iff i k, eq_iff i j, eq_iff k j, get_field-set_field j k v fs)

-- `delete(m, k)`.
unfoldable pub delete_field : String → Fields → Fields
delete_field k end = end
delete_field k (field j w fs) =
    let rest = delete_field k fs in if j == k then rest else field j w rest

-- `v.(map[string]interface{})` with its `ok`.
abbrev pub as_object : Value → Option Fields
as_object (object fs) = some fs
as_object _ = none

-- `v.(string)` with its `ok`.
abbrev pub as_string : Value → Option String
as_string (string s) = some s
as_string _ = none

-- `jsonpath.IsUndefined`.
abbrev pub is_undefined : Value → Bool
is_undefined undefined = true
is_undefined _ = false
