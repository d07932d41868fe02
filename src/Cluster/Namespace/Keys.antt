-- ===== src/Cluster/Namespace/Keys.antt =====
-- Dicts with one field more, the keys that they have, and filters over them.
use distributed_vector_searc.Prelude.{
  ◌≡◌, refl, ap, subst, false, ◌||◌, List, [], ◌∷◌, ◌++◌, some, arith, ok, >>=-eq-ok,
}
use distributed_vector_searc.Python.Text.{Text, text_eq}
use distributed_vector_searc.Python.Json.{Json, str, Fields, end, field, entries}
use distributed_vector_searc.Filtering.Key.{
  Key, str_key, key_of, key_eq, items_of, Filter, normalize_fields, checked_values,
}
use distributed_vector_searc.Filtering.Index.Contents.{items_have, has_this_key, fields_have}
use distributed_vector_searc.Cluster.Namespace.{has_field, put_field}

-- A new field goes behind the others.
abbrev pub snoc : Fields → Text → Json → Fields
snoc end name value = field name value end
snoc (field key old rest) name value = field key old (snoc rest name value)

pub put_field_new :
    (name : Text) (value : Json) (fields : Fields)
    → has_field name fields ≡ false
    → put_field name value fields ≡ snoc fields name value
unfolding put_field
put_field_new name value end h = refl
put_field_new name value (field key old rest) h =
    let other : text_eq key name ≡ false = ground arith in
    let later : has_field name rest ≡ false = ground arith in
    rw other (ap (field key old) (put_field_new name value rest later))

-- Keys of one field are not keys of another.
pub other_key :
    (name other : Text) (item value : Json) (k : Key)
    → text_eq other name ≡ false
    → key_of name value ≡ some k
    → has_this_key other item k ≡ false
unfolding key_of key_eq
other_key name other item value k h e = ground arith

pub items_have_other :
    (name other : Text) (items : List Json) (value : Json) (k : Key)
    → text_eq other name ≡ false
    → key_of name value ≡ some k
    → items_have other items k ≡ false
items_have_other name other [] value k h e = refl
items_have_other name other (item ∷ items) value k h e =
    ground
      (arith, other_key name other item value k h e, items_have_other name other items value k h e)

-- A dict has no key of a field that it lacks.
pub fields_have_other :
    (name : Text) (fields : Fields) (value : Json) (k : Key)
    → has_field name fields ≡ false
    → key_of name value ≡ some k
    → fields_have (entries fields) k ≡ false
fields_have_other name end value k h e = refl
fields_have_other name (field key item rest) value k h e =
    let other : text_eq key name ≡ false = ground arith in
    let later : has_field name rest ≡ false = ground arith in
    ground (
      arith,
      items_have_other name key (items_of item) value k other e,
      fields_have_other name rest value k later e,
    )

pub fields_have-snoc :
    (fields : Fields) (name : Text) (value : Json) (k : Key)
    → fields_have (entries (snoc fields name value)) k
      ≡ (fields_have (entries fields) k || items_have name (items_of value) k)
fields_have-snoc end name value k = ground arith
fields_have-snoc (field key item rest) name value k =
    ground (arith, fields_have-snoc rest name value k)

-- A conjunction of conditions with one more behind it.
pub normalize_fields-snoc :
    (fields : Fields) (name : Text) (value : Json) (f : Filter)
    → normalize_fields (snoc fields name value) ≡ ok f
    → (g : Filter) × (values : List Json) × (normalize_fields fields ≡ ok g)
      × (checked_values name (items_of value) ≡ ok values)
      × (f ≡ g ++ (name, values) ∷ [])
unfolding normalize_fields
normalize_fields-snoc end name value f h =
    let values = >>=-eq-ok (checked_values name (items_of value)) _ h in
    ([], values.0, refl, values.1, cc (values.2))
normalize_fields-snoc (field key item rest) name value f h =
    let values = >>=-eq-ok (checked_values key (items_of item)) _ h in
    let others = >>=-eq-ok (normalize_fields (snoc rest name value)) _ values.2 in
    let ih = normalize_fields-snoc rest name value others.0 others.1 in
    ((key, values.0) ∷ ih.0, ih.1, rw (values.1) (rw (ih.2) refl), ih.3, cc (others.2, ih.4))

-- A name that is a filter's value is short enough to be indexed.
pub checked_name :
    (name v : Text) (values : List Json)
    → checked_values name (items_of (str v)) ≡ ok values
    → (values ≡ str v ∷ []) × (key_of name (str v) ≡ some (str_key name v))
unfolding checked_values items_of key_of
checked_name name v values h = ground arith

abbrev pub Lacks : Text → Filter → Type 0
Lacks name [] = Unit
Lacks name ((key, values) ∷ rest) = (text_eq key name ≡ false) × Lacks name rest

pub normalize_fields-Lacks :
    (name : Text) (fields : Fields) (g : Filter)
    → has_field name fields ≡ false
    → normalize_fields fields ≡ ok g
    → Lacks name g
unfolding normalize_fields
normalize_fields-Lacks name end g h e = let same : [] ≡ g = cc in subst (Lacks name) same tt
normalize_fields-Lacks name (field key item rest) g h e =
    let values = >>=-eq-ok (checked_values key (items_of item)) _ e in
    let others = >>=-eq-ok (normalize_fields rest) _ values.2 in
    let same : (key, values.0) ∷ others.0 ≡ g = cc (others.2) in
    let here : text_eq key name ≡ false = ground arith in
    let later : has_field name rest ≡ false = ground arith in
    subst (Lacks name) same (here, normalize_fields-Lacks name rest others.0 later others.1)
