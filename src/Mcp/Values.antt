-- ===== src/Mcp/Values.antt =====
-- The JSON values that vsearch/mcp.py reads: the items of a dict, types, and the order of numbers.
use distributed_vector_searc.Prelude.{
  ℕ, suc, ◌*◌, ◌^◌, Bool, true, false, not, ◌&&◌, ◌||◌, Option, none, some, Result, Error, ok, err,
  ◌>>=◌, if◌then◌else◌, ltb, list_ord, nat_ord,
}
use distributed_vector_searc.Python.Text.{Text, text_eq, codes}
use distributed_vector_searc.Python.Json.{
  ℤ, pos, negsuc, Json, bool, int, float, str, arr, obj, Fields, end, field,
}

-- `fields.get(name)`: a dict has a name once.
unfoldable pub get : Text → Fields → Option Json
get name end = none
get name (field key value rest) =
    let other = get name rest in if text_eq key name then some value else other

-- `fields[name]`
unfoldable pub item : Text → Fields → Result Json
unfolding get
item name fields = elim (get name fields) [ some value ↦ ok value | none ↦ err Error.key_error ]

pub data Kind : Type 0 where
  string integer number boolean array object : Kind

-- `_JSON_TYPES[name]`
unfoldable pub kind_of : Json → Result Kind
kind_of (str name) =
    if text_eq name (codes "string")
    then ok string
    else if text_eq name (codes "integer")
    then ok integer
    else if text_eq name (codes "number")
    then ok number
    else if text_eq name (codes "boolean")
    then ok boolean
    else if text_eq name (codes "array")
    then ok array
    else if text_eq name (codes "object")
    then ok object
    else err Error.key_error
kind_of (arr items) = err Error.type_error
kind_of (obj fields) = err Error.type_error
kind_of _ = err Error.key_error

-- `isinstance(value, expected)`: in Python a bool is an int.
unfoldable pub is_instance : Json → Kind → Bool
is_instance (str s) string = true
is_instance (int n) integer = true
is_instance (bool b) integer = true
is_instance (int n) number = true
is_instance (float m s) number = true
is_instance (bool b) number = true
is_instance (bool b) boolean = true
is_instance (arr items) array = true
is_instance (obj fields) object = true
is_instance _ _ = false

unfoldable pub is_bool : Json → Bool
is_bool (bool b) = true
is_bool _ = false

unfoldable pub is_boolean : Kind → Bool
is_boolean boolean = true
is_boolean _ = false

-- The type test of an argument.
unfoldable pub has_kind : Json → Kind → Bool
unfolding is_instance is_bool is_boolean
has_kind value kind = is_instance value kind && (not (is_bool value) || is_boolean kind)

-- A number as a decimal m / 10^s.
unfoldable pub decimal : Json → Result (ℤ × ℕ)
decimal (int n) = ok (n, 0)
decimal (float m s) = ok (m, s)
decimal (bool true) = ok (pos 1, 0)
decimal (bool false) = ok (pos 0, 0)
decimal _ = err Error.type_error

-- m / 10^s < n / 10^t
unfoldable pub decimal_lt : ℤ × ℕ → ℤ × ℕ → Bool
decimal_lt (pos m, s) (pos n, t) = ltb (m * 10 ^ t) (n * 10 ^ s)
decimal_lt (pos m, s) (negsuc n, t) = false
decimal_lt (negsuc m, s) (pos n, t) = true
decimal_lt (negsuc m, s) (negsuc n, t) = ltb (suc n * 10 ^ s) (suc m * 10 ^ t)

-- `a < b` for numbers. The schemas bound nothing else.
unfoldable pub less_than : Json → Json → Result Bool
unfolding decimal decimal_lt
less_than a b = do x ← decimal a; y ← decimal b; ok (decimal_lt x y)

-- A dict, or the AttributeError that its use as one raises.
unfoldable pub fields_of : Json → Result Fields
fields_of (obj fields) = ok fields
fields_of _ = err Error.type_error
