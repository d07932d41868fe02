-- ===== src/Filtering/Wire.antt =====
-- `encode_filter` and `decode_filter` of vsearch/filtering.py: a filter as it is sent to a shard.
use distributed_vector_searc.Prelude.{
  ◌≡◌, arith, refl, ap, subst, ◌∙◌, Option, none, some, List, [], ◌∷◌, any, Result, Error, ok, err,
  ◌>>=◌, >>=-eq-ok, Bool-cases, Result-cases, inl, inr,
}
use distributed_vector_searc.Python.Text.{Text}
use distributed_vector_searc.Python.Json.{
  Json, Items, nil, cons, elements, Fields, end, field, arr, obj, null, bool, int, float, str,
}
use distributed_vector_searc.Filtering.Key.{
  Filter, items_of, has_no_key, checked_values, normalize_fields, normalize_filter,
}

-- A list, and a normalized filter, as they are given to `json.dumps`.
abbrev array : List Json → Items
array [] = nil
array (v ∷ vs) = cons v (array vs)

abbrev pub filter_fields : Filter → Fields
filter_fields [] = end
filter_fields ((name, values) ∷ rest) = field name (arr (array values)) (filter_fields rest)

-- The text of a normalized filter, which is empty for no filter.
unfoldable pub filter_text : (Json → Text) → Option Filter → Text
filter_text dumps none = []
filter_text dumps (some []) = []
filter_text dumps (some (f ∷ fs)) = dumps (obj (filter_fields (f ∷ fs)))

unfoldable pub encode_filter : (Json → Text) → Json → Result Text
unfolding normalize_filter filter_text
encode_filter dumps filter = do
  normalized ← normalize_filter filter
  ok (filter_text dumps normalized)

unfoldable pub decode_filter : (Text → Result Json) → Text → Result (Option Filter)
unfolding normalize_filter
decode_filter loads [] = ok none
decode_filter loads (c ∷ text) = do filter ← loads (c ∷ text); normalize_filter filter

elements-array : (vs : List Json) → elements (array vs) ≡ vs
elements-array [] = refl
elements-array (v ∷ vs) = ap (v ∷◌) (elements-array vs)

checked_values-again :
    (name : Text) (vs ws : List Json)
    → checked_values name vs ≡ ok ws
    → checked_values name ws ≡ ok ws
unfolding checked_values
checked_values-again name [] ws h = cc
checked_values-again name (v ∷ vs) ws h = elim (Bool-cases (any (has_no_key name) (v ∷ vs))) [
  | inl missing ↦ ground (arith, missing, h)
  | inr keyed ↦
      let same : v ∷ vs ≡ ws = ground (arith, keyed, h) in
      subst (λ us. checked_values name us ≡ ok us) same (rw keyed refl)
]

-- What has been normalized is normalized to itself.
normalize_fields-again :
    (fields : Fields) (f : Filter)
    → normalize_fields fields ≡ ok f
    → normalize_fields (filter_fields f) ≡ ok f
unfolding normalize_fields
normalize_fields-again end f h =
    let empty : [] ≡ f = cc in subst (λ g. normalize_fields (filter_fields g) ≡ ok g) empty refl
normalize_fields-again (field name wanted rest) f h =
    let (values, checked, next) =
      >>=-eq-ok (checked_values name (items_of wanted))
        (λ vs. normalize_fields rest >>= λ normalized. ok ((name, vs) ∷ normalized)) h in
    let (normalized, done, last) =
      >>=-eq-ok (normalize_fields rest) (λ fs. ok ((name, values) ∷ fs)) next in
    let same : (name, values) ∷ normalized ≡ f = cc in
    subst (λ g. normalize_fields (filter_fields g) ≡ ok g) same
      (rw (elements-array values) (
        rw (checked_values-again name (items_of wanted) values checked)
          (rw (normalize_fields-again rest normalized done) refl)))

not_empty :
    (name : Text) (wanted : Json) (rest : Fields)
    → ¬ (normalize_fields (field name wanted rest) ≡ ok [])
unfolding normalize_fields
not_empty name wanted rest h =
    let (values, checked, next) =
      >>=-eq-ok (checked_values name (items_of wanted))
        (λ vs. normalize_fields rest >>= λ normalized. ok ((name, vs) ∷ normalized)) h in
    let (normalized, done, last) =
      >>=-eq-ok (normalize_fields rest) (λ fs. ok ((name, values) ∷ fs)) next in
    cc

-- A filter that is there is a dict with a field.
fields_given :
    (filter : Json) (f : Filter)
    → normalize_filter filter ≡ ok (some f)
    → (fields : Fields) × (normalize_fields fields ≡ ok f) × ¬ (f ≡ [])
unfolding normalize_filter
fields_given (obj (field name wanted rest)) f h =
    let (normalized, done, last) =
      >>=-eq-ok (normalize_fields (field name wanted rest)) (λ fs. ok (some fs)) h in
    let same : normalized ≡ f = cc in
    (
      field name wanted rest,
      subst (λ g. normalize_fields (field name wanted rest) ≡ ok g) same done,
      λ e. not_empty name wanted rest (done ∙ ap ok (same ∙ e)),
    )
fields_given (obj end) f h = cc
fields_given null f h = cc
fields_given (bool b) f h = ground (arith, h)
fields_given (int n) f h = ground (arith, h)
fields_given (float m s) f h = ground (arith, h)
fields_given (str text) f h = ground (arith, h)
fields_given (arr items) f h = ground (arith, h)

normalize_filter-again :
    (filter : Json) (f : Filter)
    → normalize_filter filter ≡ ok (some f)
    → normalize_filter (obj (filter_fields f)) ≡ ok (some f)
unfolding normalize_filter
normalize_filter-again filter [] h =
    let (fields, given, full) = fields_given filter [] h in absurd (full refl)
normalize_filter-again filter (x ∷ xs) h =
    let (fields, given, full) = fields_given filter (x ∷ xs) h in
    rw (normalize_fields-again fields (x ∷ xs) given) refl

decode_filter-some :
    (loads : Text → Result Json) (text : Text) (value : Json)
    → loads [] ≡ err Error.decode_error
    → loads text ≡ ok value
    → decode_filter loads text ≡ normalize_filter value
unfolding decode_filter
decode_filter-some loads [] value h e = cc
decode_filter-some loads (c ∷ text) value h e = rw e refl

-- The text of a normalized filter is read as that filter.
decode_filter-filter_text :
    (dumps : Json → Text) (loads : Text → Result Json) (filter : Json) (normalized : Option Filter)
    → loads [] ≡ err Error.decode_error
    → normalize_filter filter ≡ ok normalized
    → ((f : Filter)
        → normalize_filter filter ≡ ok (some f)
        → loads (dumps (obj (filter_fields f))) ≡ ok (obj (filter_fields f)))
    → decode_filter loads (filter_text dumps normalized) ≡ ok normalized
unfolding decode_filter filter_text
decode_filter-filter_text dumps loads filter none blank given reads = refl
decode_filter-filter_text dumps loads filter (some []) blank given reads =
    let (fields, done, full) = fields_given filter [] given in absurd (full refl)
decode_filter-filter_text dumps loads filter (some (x ∷ xs)) blank given reads =
    let value = obj (filter_fields (x ∷ xs)) in
    decode_filter-some loads (dumps value) value blank (reads (x ∷ xs) given)
    ∙ normalize_filter-again filter (x ∷ xs) given

-- Let json.loads refuse the empty text and, if the filter is one that normalize_filter takes, read
-- back what json.dumps wrote of the normalized filter. Then encode_filter followed by decode_filter
-- gives what normalize_filter gives: the same normalized filter, none for an empty one, and the
-- same error for one that is refused.
pub decode_filter-encode_filter :
    (dumps : Json → Text) (loads : Text → Result Json) (filter : Json)
    → loads [] ≡ err Error.decode_error
    → ((f : Filter)
        → normalize_filter filter ≡ ok (some f)
        → loads (dumps (obj (filter_fields f))) ≡ ok (obj (filter_fields f)))
    → (encode_filter dumps filter >>= decode_filter loads) ≡ normalize_filter filter
unfolding encode_filter
decode_filter-encode_filter dumps loads filter blank reads =
    elim (Result-cases (normalize_filter filter)) [
      | inl (e, failed) ↦ rw (failed, encode_filter) refl
      | inr (normalized, given) ↦
          rw (given, encode_filter)
            (decode_filter-filter_text dumps loads filter normalized blank given reads)
    ]
