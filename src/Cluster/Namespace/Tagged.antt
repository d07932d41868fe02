-- ===== src/Cluster/Namespace/Tagged.antt =====
-- What a payload that was tagged with a namespace satisfies.
use distributed_vector_searc.Prelude.{
  ◌≡◌, ◌≢◌, refl, ap, ◌∙◌, ap₂, Option-cases, false, ◌&&◌, ◌||◌, List, [], ◌∷◌, ◌++◌, Option, none,
  some, arith, Result, ok, inl, inr,
}
use distributed_vector_searc.Python.Text.{Text, text_eq, text_eq_refl, text_ne_sym}
use distributed_vector_searc.Python.Json.{Json, str, obj, Fields, entries}
use distributed_vector_searc.Filtering.Key.{Key, str_key, key_of, key_eq, items_of, Filter}
use distributed_vector_searc.Filtering.Index.{payload_fields}
use distributed_vector_searc.Filtering.Index.Contents.{items_have, fields_have, payload_has}
use distributed_vector_searc.Filtering.Matching.{satisfies, has_any, has_value}
use distributed_vector_searc.Cluster.Namespace.{namespace_field, has_field, tag, or_empty}
use distributed_vector_searc.Cluster.Namespace.Keys.{
  other_key, Lacks, fields_have_other, put_field_new, fields_have-snoc,
}

module _ (loads : Text → Result Json) where
  pub satisfies-append :
      (f g : Filter) (text : Text)
      → satisfies loads (f ++ g) text ≡ (satisfies loads f text && satisfies loads g text)
  unfolding satisfies
  satisfies-append [] g text = ground arith
  satisfies-append ((name, values) ∷ f) g text = ground (arith, satisfies-append f g text)

  -- A text that is the JSON of a payload, or empty for none.
  abbrev pub IsTextOf : Option Fields → Text → Type 0
  IsTextOf none text = text ≡ []
  IsTextOf (some fields) text = (text ≢ []) × (loads text ≡ ok (obj fields))

  pub payload_has_lem :
      (payload : Option Fields) (text : Text) (k : Key)
      → IsTextOf payload text
      → payload_has loads text k ≡ fields_have (entries (or_empty payload)) k
  unfolding payload_has payload_fields
  payload_has_lem none text k h = rw h refl
  payload_has_lem (some fields) [] k h = absurd (h.0 refl)
  payload_has_lem (some fields) (c ∷ text) k h = rw (h.1, payload_fields, payload_has) refl

  module _ (payload : Option Fields) (text tagged : Text) (name : Text)
      (plain_text : IsTextOf payload text) (tagged_text : IsTextOf (tag name payload) tagged)
      (fresh : has_field namespace_field (or_empty payload) ≡ false) where
    pub tagged_has :
        (k : Key)
        → payload_has loads tagged k ≡ (
            fields_have (entries (or_empty payload)) k
            || items_have namespace_field (str name ∷ []) k)
    unfolding tag items_of
    tagged_has k =
        payload_has_lem (tag name payload) tagged k tagged_text
        ∙ ap (λ fs. fields_have (entries fs) k)
            (put_field_new namespace_field (str name) (or_empty payload) fresh)
        ∙ fields_have-snoc (or_empty payload) namespace_field (str name) k

    -- The tag changes nothing about the other fields.
    pub has_value_other :
        (key : Text) (value : Json)
        → text_eq key namespace_field ≡ false
        → has_value loads tagged key value ≡ has_value loads text key value
    unfolding has_value
    has_value_other key value h = elim (Option-cases (key_of key value)) [
      | inl e ↦ rw (e, has_value) refl
      | inr (k, e) ↦
          rw (e, has_value)
            (tagged_has k
              ∙ ground (
                arith,
                other_key key namespace_field (str name) value k (text_ne_sym key namespace_field h)
                    e,
                payload_has_lem payload text k plain_text,
              ))
    ]

    pub has_any_other :
        (key : Text) (values : List Json)
        → text_eq key namespace_field ≡ false
        → has_any loads tagged key values ≡ has_any loads text key values
    unfolding has_any
    has_any_other key [] h = refl
    has_any_other key (value ∷ values) h =
        ap₂ ◌||◌ (has_value_other key value h) (has_any_other key values h)

    pub satisfies_other :
        (g : Filter) → Lacks namespace_field g → satisfies loads g tagged ≡ satisfies loads g text
    unfolding satisfies
    satisfies_other [] h = refl
    satisfies_other ((key, values) ∷ g) h =
        ap₂ ◌&&◌ (has_any_other key values h.0) (satisfies_other g h.1)

    -- The tag is found under exactly the namespace that it names.
    pub has_value_tag :
        (asked : Text) (k : Key)
        → key_of namespace_field (str asked) ≡ some (str_key namespace_field asked)
        → key_of namespace_field (str name) ≡ some (str_key namespace_field name)
        → has_value loads tagged namespace_field (str asked) ≡ text_eq name asked
    unfolding has_value key_eq
    has_value_tag asked k short_asked short =
        rw (short_asked, has_value)
          (tagged_has (str_key namespace_field asked)
            ∙ ground (
              arith,
              text_eq_refl namespace_field,
              fields_have_other namespace_field (or_empty payload) (str asked)
                  (str_key namespace_field asked) fresh short_asked,
            ))
