-- ===== src/Mcp/Argument.antt =====
-- An argument that `check_arguments` lets through.
use distributed_vector_searc.Prelude.{
  ◌≡◌, ap, sym, ◌∙◌, subst, true, false, ◌++◌, Option, none, some, Error, ok, err, >>=-eq-ok,
  Bool-cases, Option-cases, inl, inr,
}
use distributed_vector_searc.Python.Text.{Text, codes}
use distributed_vector_searc.Python.Json.{Json, obj, str, Fields}
use distributed_vector_searc.Mcp.{
  Repr, is_below, is_above, item_kind, items_are, item_problem, items_problem, maximum_problem,
  minimum_problem, argument_problem,
}
use distributed_vector_searc.Mcp.Values.{get, Kind, array, has_kind, item, kind_of, fields_of}
use distributed_vector_searc.Mcp.Valid.{
  name_of, IsOf, InOrder, HasItems, kind_of-name_of, has_kind-IsOf, items_are-HasItems,
  is_below-InOrder, is_above-InOrder,
}

-- An argument that keeps to a rule: it is a value of the type that the rule names, is within the bounds
-- that the rule has, and if it is an array whose items the rule describes, they are of that type, or bools
-- where that is a type of numbers.
pub record Keeps (value : Json) (rule : Fields) : Type 0 where
  pub kind : Kind
  pub named : get (codes "type") rule ≡ some (str (name_of kind))
  pub typed : IsOf value kind
  pub not_below : (m : Json) → get (codes "minimum") rule ≡ some m → InOrder m value
  pub not_above : (m : Json) → get (codes "maximum") rule ≡ some m → InOrder value m
  pub items_typed :
      (items : Json)
      → kind ≡ array
      → get (codes "items") rule ≡ some items
      → (inner : Fields) × (item_kind : Kind) × (items ≡ obj inner)
        × (get (codes "type") inner ≡ some (str (name_of item_kind)))
        × HasItems value item_kind

item_problem-none :
    (repr : Repr) (name : Text) (value : Json) (items : Option (Json × Kind))
    → item_problem repr name value items ≡ none
    → (e : Json × Kind) → items ≡ some e
    → items_are e.1 value ≡ true
unfolding item_problem
item_problem-none repr name value none h e k = cc
item_problem-none repr name value (some (type, kind)) h e k =
    elim (Bool-cases (items_are kind value)) [
      | inl fits ↦
          let same : (type, kind) ≡ e = cc in subst (λ e. items_are e.1 value ≡ true) same fits
      | inr misfits ↦
          let said : some (
                codes "every item of "
                ++ repr.text name
                ++ codes " must be of type "
                ++ repr.plain type)
              ≡ none =
            rw misfits at h in
          cc
    ]

items_problem-none :
    (repr : Repr) (name : Text) (value : Json) (kind : Kind) (rule : Fields)
    → items_problem repr name value kind rule ≡ ok none
    → (items : Option (Json × Kind)) × (item_kind kind rule ≡ ok items)
      × ((e : Json × Kind) → items ≡ some e → items_are e.1 value ≡ true)
unfolding items_problem
items_problem-none repr name value kind rule h =
    let (items, a, h1) =
      >>=-eq-ok (item_kind kind rule) (λ items. ok (item_problem repr name value items)) h in
    let fine : item_problem repr name value items ≡ none = cc in
    (items, a, item_problem-none repr name value items fine)

maximum_problem-none :
    (repr : Repr) (name : Text) (value : Json) (kind : Kind) (rule : Fields)
    → maximum_problem repr name value kind rule ≡ ok none
    → (is_above value (get (codes "maximum") rule) ≡ ok false)
      × (items_problem repr name value kind rule ≡ ok none)
unfolding maximum_problem
maximum_problem-none repr name value kind rule h =
    let (above, a, h1) = >>=-eq-ok (is_above value (get (codes "maximum") rule)) _ h in
    elim (Bool-cases above) [
      | inl e ↦ let said : ok (some _) ≡ ok none = rw e at h1 in cc
      | inr e ↦ (a ∙ ap ok e, rw e at h1)
    ]

minimum_problem-none :
    (repr : Repr) (name : Text) (value : Json) (kind : Kind) (rule : Fields)
    → minimum_problem repr name value kind rule ≡ ok none
    → (is_below value (get (codes "minimum") rule) ≡ ok false)
      × (maximum_problem repr name value kind rule ≡ ok none)
unfolding minimum_problem
minimum_problem-none repr name value kind rule h =
    let (below, a, h1) = >>=-eq-ok (is_below value (get (codes "minimum") rule)) _ h in
    elim (Bool-cases below) [
      | inl e ↦ let said : ok (some _) ≡ ok none = rw e at h1 in cc
      | inr e ↦ (a ∙ ap ok e, rw e at h1)
    ]

item-get :
    (name : Text) (fields : Fields) (value : Json)
    → item name fields ≡ ok value
    → get name fields ≡ some value
unfolding item
item-get name fields value h = elim (Option-cases (get name fields)) [
  | inl absent ↦ let raised : err Error.key_error ≡ ok value = rw (absent, item) at h in cc
  | inr (found, there) ↦
      let same : ok found ≡ ok value = rw (there, item) at h in
      let same' : found ≡ value = cc in there ∙ ap some same'
]

pub obj-fields : (value : Json) (fields : Fields) → fields_of value ≡ ok fields → value ≡ obj fields
unfolding fields_of
obj-fields (obj inner) fields h = let same : inner ≡ fields = cc in ap obj same
obj-fields _ fields h = cc

-- The type that a rule names.
rule_type :
    (rule : Fields) (type : Json) (kind : Kind)
    → item (codes "type") rule ≡ ok type
    → kind_of type ≡ ok kind
    → get (codes "type") rule ≡ some (str (name_of kind))
rule_type rule type kind h k =
    item-get (codes "type") rule type h ∙ ap some (kind_of-name_of type kind k)

items_given :
    (value : Json) (rule : Fields) (kind : Kind) (found : Option (Json × Kind))
    → IsOf value kind
    → item_kind kind rule ≡ ok found
    → ((e : Json × Kind) → found ≡ some e → items_are e.1 value ≡ true)
    → (items : Json) → kind ≡ array
    → get (codes "items") rule ≡ some items
    → (inner : Fields) × (k : Kind) × (items ≡ obj inner)
      × (get (codes "type") inner ≡ some (str (name_of k)))
      × HasItems value k
unfolding item_kind
items_given value rule array found typed h fits items is_array there =
    let (inner, a, h1) = >>=-eq-ok (fields_of items) _ (rw (there, item_kind) at h) in
    let (name, b, h2) = >>=-eq-ok (item (codes "type") inner) _ h1 in
    let (k, c, h3) = >>=-eq-ok (kind_of name) _ h2 in
    let same : some (name, k) ≡ found = cc in
    (
      inner,
      k,
      obj-fields items inner a,
      rule_type inner name k b c,
      items_are-HasItems k value typed (fits (name, k) (sym same)),
    )
items_given value rule _ found typed h fits items is_array there = cc

pub argument_problem-Keeps :
    (repr : Repr) (name : Text) (value : Json) (rule : Fields)
    → argument_problem repr name value rule ≡ ok none
    → Keeps value rule
unfolding argument_problem
argument_problem-Keeps repr name value rule h =
    let (type, a, h1) = >>=-eq-ok (item (codes "type") rule) _ h in
    let (kind, b, h2) = >>=-eq-ok (kind_of type) _ h1 in
    elim (Bool-cases (has_kind value kind)) [
      | inr e ↦ let said : ok (some _) ≡ ok none = rw e at h2 in cc
      | inl e ↦
          let (low, rest) = minimum_problem-none repr name value kind rule (rw e at h2) in
          let (high, last) = maximum_problem-none repr name value kind rule rest in
          let (items, found, typed) = items_problem-none repr name value kind rule last in
          let has_type = has_kind-IsOf value kind e in
          record {
            kind = kind;
            named = rule_type rule type kind a b;
            typed = has_type;
            not_below = λ m. is_below-InOrder value (get (codes "minimum") rule) m low;
            not_above = λ m. is_above-InOrder value (get (codes "maximum") rule) m high;
            items_typed = items_given value rule kind items has_type found typed;
          }
    ]
