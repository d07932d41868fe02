-- ===== src/Filtering/Key.antt =====
-- `_key` and `normalize_filter` of vsearch/filtering.py.
use distributed_vector_searc.Prelude.{
  ℕ, ◌≡◌, Bool, true, false, ◌&&◌, not, Option, none, some, List, [], ◌∷◌, arith, ◌==◌, leb, length,
  if◌then◌else◌, Result, Error, ok, err, ◌>>=◌, any,
}
use distributed_vector_searc.Python.Text.{Text, text_eq, text_eq→eq, text_eq_refl}
use distributed_vector_searc.Python.Json.{
  ℤ, pos, negsuc, Json, null, bool, int, float, str, arr, obj, Fields, end, field, elements, nil,
}

abbrev pub max_indexed_chars : ℕ
max_indexed_chars = 128

-- The tuple `(field, type name, value)`: the constructor is the type name.
pub data Key : Type 0 where
  str_key : Text → Text → Key
  bool_key : Text → Bool → Key
  int_key : Text → ℤ → Key

unfoldable pub key_of : Text → Json → Option Key
key_of name (str value) =
    if leb (length value) max_indexed_chars then some (str_key name value) else none
key_of name (bool value) = some (bool_key name value)
key_of name (int value) = some (int_key name value)
key_of name _ = none

abbrev pub bool_eq : Bool → Bool → Bool
bool_eq true b = b
bool_eq false b = not b

abbrev pub int_eq : ℤ → ℤ → Bool
int_eq (pos a) (pos b) = a == b
int_eq (negsuc a) (negsuc b) = a == b
int_eq _ _ = false

-- Equality of index keys, as the dict `_ids` compares them.
unfoldable pub key_eq : Key → Key → Bool
key_eq (str_key f a) (str_key g b) = text_eq f g && text_eq a b
key_eq (bool_key f a) (bool_key g b) = text_eq f g && bool_eq a b
key_eq (int_key f a) (int_key g b) = text_eq f g && int_eq a b
key_eq _ _ = false

pub key_eq→eq : (a b : Key) → key_eq a b ≡ true → a ≡ b
unfolding key_eq
key_eq→eq (str_key f a) (str_key g b) h = ground (arith, text_eq→eq f g, text_eq→eq a b)
key_eq→eq (bool_key f a) (bool_key g b) h = ground (arith, text_eq→eq f g)
key_eq→eq (int_key f a) (int_key g b) h = ground (arith, text_eq→eq f g)
key_eq→eq _ _ h = cc

pub key_eq_refl : (a : Key) → key_eq a a ≡ true
unfolding key_eq
key_eq_refl (str_key f a) = ground (arith, text_eq_refl f, text_eq_refl a)
key_eq_refl (bool_key f a) = ground (arith, text_eq_refl f)
key_eq_refl (int_key f a) = ground (arith, text_eq_refl f)

-- Two field values that have the same index key are the same value of the same field; in particular
-- true and 1 have different keys.
pub key_of-injective :
    (f g : Text) (v w : Json) (k : Key)
    → key_of f v ≡ some k
    → key_of g w ≡ some k
    → (f ≡ g) × (v ≡ w)
unfolding key_of
key_of-injective f g v w k h e = ground arith

-- A normalized filter: each field with the values wanted for it.
abbrev pub Filter : Type 0
Filter = List (Text × List Json)

-- `not where` for a value read from JSON.
unfoldable pub is_falsy : Json → Bool
is_falsy null = true
is_falsy (bool b) = not b
is_falsy (int (pos n)) = n == 0
is_falsy (float (pos m) s) = m == 0
is_falsy (str []) = true
is_falsy (arr nil) = true
is_falsy (obj end) = true
is_falsy _ = false

-- `list(wanted) if isinstance(wanted, (list, tuple)) else [wanted]`
unfoldable pub items_of : Json → List Json
items_of (arr items) = elements items
items_of value = value ∷ []

abbrev pub has_no_key : Text → Json → Bool
has_no_key name value = elim (key_of name value) [ none ↦ true | some _ ↦ false ]

unfoldable pub checked_values : Text → List Json → Result (List Json)
unfolding key_of
checked_values name [] = err Error.value_error
checked_values name (v ∷ vs) =
    if any (has_no_key name) (v ∷ vs) then err Error.value_error else ok (v ∷ vs)

unfoldable pub normalize_fields : Fields → Result Filter
unfolding items_of checked_values
normalize_fields end = ok []
normalize_fields (field name wanted rest) = do
  values ← checked_values name (items_of wanted)
  normalized ← normalize_fields rest
  ok ((name, values) ∷ normalized)

-- `None` for no filter. The names of a dict read from JSON are always strings.
unfoldable pub normalize_filter : Json → Result (Option Filter)
unfolding normalize_fields is_falsy
normalize_filter filter = if is_falsy filter then ok none else elim filter [
  | obj fields ↦ do normalized ← normalize_fields fields; ok (some normalized)
  | _ ↦ err Error.value_error
]
