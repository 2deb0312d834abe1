-- ===== src/Json.antt =====
-- The Python values that `json.loads` makes, with `dict.get`, `in` and truth value testing.
use minimax_music3_webui.Prelude.{
  ℤ, is_zero, String, Bool, true, false, not, Option, none, some, str_eq, is_some, if◌then◌else◌,
}

-- A `float`: `finite m e` is m * 2 ^ e.
pub data PyFloat : Type 0 where
  finite : ℤ → ℤ → PyFloat
  inf neg_inf nan : PyFloat

-- An object is the list of its entries; on a repeated key the first entry counts.
mutual
  pub data Fields : Type 0 where
    end : Fields
    field : (key : String) (entry : Value) (rest : Fields) → Fields

  pub data Items : Type 0 where
    no_items : Items
    item : (first : Value) (rest : Items) → Items

  pub data Value : Type 0 where
    str : String → Value
    int : ℤ → Value
    float : PyFloat → Value
    bool : Bool → Value
    obj : Fields → Value
    arr : Items → Value
    null : Value

-- d.get(k)
unfoldable pub get : Fields → String → Option Value
get end k = none
get (field j v d) k = if str_eq j k then some v else get d k

-- k in d
abbrev pub has : Fields → String → Bool
has d k = is_some (get d k)

-- d.get(k, default)
abbrev pub or_default : Value → Option Value → Value
or_default v none = v
or_default v (some w) = w

abbrev float_truthy : PyFloat → Bool
float_truthy (finite m e) = not (is_zero m)
float_truthy _ = true

-- bool(v)
abbrev pub truthy : Value → Bool
truthy null = false
truthy (bool b) = b
truthy (int z) = not (is_zero z)
truthy (float x) = float_truthy x
truthy (str s) = not (str_eq s "")
truthy (arr no_items) = false
truthy (arr (item v vs)) = true
truthy (obj end) = false
truthy (obj (field k v d)) = true

-- A value that may be `None`.
abbrev pub or_null : Option Value → Value
or_null = or_default null
