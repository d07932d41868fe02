-- ===== src/Cluster/Namespace/Isolation.antt =====
-- A search inside a namespace sees that namespace and nothing else.
use distributed_vector_searc.Prelude.{
  ℕ, ◌≡◌, refl, ap, sym, ◌∙◌, subst, false, ◌&&◌, List, [], ◌∷◌, ◌++◌, Option, none, some, arith,
  Result, ok, length, >>=-eq-ok, map, any, get_elem?, ◌==◌, guard-not, guard-true, get_elem?-map,
  any-false,
}
use distributed_vector_searc.Python.Text.{Text, text_eq}
use distributed_vector_searc.Python.Json.{Json, str, Fields, end, field}
use distributed_vector_searc.Filtering.Key.{
  str_key, key_of, items_of, Filter, normalize_fields, checked_values,
}
use distributed_vector_searc.Filtering.Matching.{satisfies, has_any}
use distributed_vector_searc.Cluster.Namespace.{
  namespace_field, has_field, put_field, tag, or_empty, normalized, plan_query, tag_namespace,
  tag_with, payloads_or_none, is_reserved, shard_for_namespace,
}
use distributed_vector_searc.Cluster.Namespace.Tagged.{
  IsTextOf, satisfies-append, payload_has_lem, satisfies_other, has_value_tag,
}
use distributed_vector_searc.Cluster.Namespace.Keys.{
  snoc, Lacks, checked_name, put_field_new, normalize_fields-snoc, normalize_fields-Lacks,
  fields_have_other,
}

module _ (loads : Text → Result Json) where
  -- The filter of a planned search in a namespace: the conditions asked for, and the namespace.
  record Planned (filter : Option Fields) (asked : Text) (f : Filter) : Type 0 where
    conditions : Filter
    normal : normalize_fields (or_empty filter) ≡ ok conditions
    whole : f ≡ conditions ++ (namespace_field, str asked ∷ []) ∷ []
    lacks : Lacks namespace_field conditions
    short : key_of namespace_field (str asked) ≡ some (str_key namespace_field asked)

normalized-snoc :
    (fields : Fields) (name : Text) (value : Json) (f : Filter)
    → normalized (snoc fields name value) ≡ ok (some f)
    → normalize_fields (snoc fields name value) ≡ ok f
unfolding normalized
normalized-snoc end name value f h =
    let r = >>=-eq-ok (normalize_fields (field name value end)) _ h in cc (r.1, r.2)
normalized-snoc (field key item rest) name value f h =
    let r = >>=-eq-ok (normalize_fields (field key item (snoc rest name value))) _ h in
    cc (r.1, r.2)

plan_query-Planned :
    (loads : Text → Result Json) (filter : Option Fields) (asked : Text) (n : ℕ) (f : Filter)
    (targets : List ℕ)
    → plan_query filter (some asked) n ≡ ok (some f, targets)
    → Planned loads filter asked f
unfolding plan_query
plan_query-Planned loads filter asked n f targets h =
    let fields = or_empty filter in
    let (fresh, planned) = guard-not (has_field namespace_field fields) _ _ _ h in
    let r = >>=-eq-ok (normalized (put_field namespace_field (str asked) fields)) _ planned in
    let shard = >>=-eq-ok (shard_for_namespace asked n) _ r.2 in
    let kept : r.0 ≡ some f = cc (shard.2) in
    let added = put_field_new namespace_field (str asked) fields fresh in
    let (g, values, normal, checked, whole) =
      normalize_fields-snoc fields namespace_field (str asked) f (
        normalized-snoc fields namespace_field (str asked) f
          (ap normalized (sym added) ∙ r.1 ∙ ap ok kept)) in
    let (single, short) = checked_name namespace_field asked values checked in
    record {
      conditions = g;
      normal = normal;
      whole = whole ∙ ap (λ vs. g ++ (namespace_field, vs) ∷ []) single;
      lacks = normalize_fields-Lacks namespace_field fields g fresh normal;
      short = short;
    }

tag_with-ok :
    (payloads ts : List (Option Fields)) (count : ℕ) (name : Text)
    → tag_with (some payloads) count (some name) ≡ ok (some ts)
    → (key_of namespace_field (str name) ≡ some (str_key namespace_field name))
      × (ts ≡ map (tag name) payloads)
unfolding tag_with payloads_or_none normalize_fields
tag_with-ok payloads ts count [] h = cc
tag_with-ok payloads ts count (c ∷ name) h =
    let r = >>=-eq-ok (normalize_fields (field namespace_field (str (c ∷ name)) end)) _ h in
    let v = >>=-eq-ok (checked_values namespace_field (items_of (str (c ∷ name)))) _ r.1 in
    ((checked_name namespace_field (c ∷ name) v.0 v.1).1, cc (r.2))

-- What a successful tagging did.
tag_namespace-ok :
    (payloads ts : List (Option Fields)) (count : ℕ) (name : Text)
    → tag_namespace (some payloads) count (some name) ≡ ok (some ts)
    → (any is_reserved payloads ≡ false)
      × (key_of namespace_field (str name) ≡ some (str_key namespace_field name))
      × (ts ≡ map (tag name) payloads)
unfolding tag_namespace
tag_namespace-ok payloads ts count name h =
    let counted = guard-true (length payloads == count) _ _ _ h in
    let (fresh, done) = guard-not (any is_reserved payloads) _ _ _ counted.1 in
    let (short, same) = tag_with-ok payloads ts count name done in (fresh, short, same)

untagged-ok :
    (payloads ts : List (Option Fields)) (count : ℕ)
    → tag_namespace (some payloads) count none ≡ ok (some ts)
    → (any is_reserved payloads ≡ false) × (ts ≡ payloads)
unfolding tag_namespace tag_with
untagged-ok payloads ts count h =
    let counted = guard-true (length payloads == count) _ _ _ h in
    let (fresh, done) = guard-not (any is_reserved payloads) _ _ _ counted.1 in (fresh, cc done)

is_reserved-or_empty :
    (payload : Option Fields)
    → is_reserved payload ≡ false
    → has_field namespace_field (or_empty payload) ≡ false
is_reserved-or_empty none h = refl
is_reserved-or_empty (some fields) h = h

module _ (loads : Text → Result Json) where
  Planned-isolation :
      (payload : Option Fields) (text tagged name asked : Text) (filter : Option Fields)
      (f : Filter) (p : Planned loads filter asked f)
      → IsTextOf loads payload text
      → IsTextOf loads (tag name payload) tagged
      → has_field namespace_field (or_empty payload) ≡ false
      → key_of namespace_field (str name) ≡ some (str_key namespace_field name)
      → satisfies loads f tagged ≡ (satisfies loads p.conditions text && text_eq name asked)
  unfolding satisfies has_any
  Planned-isolation payload text tagged name asked filter f p plain tag_text fresh short =
      ap (λ g. satisfies loads g tagged) p.whole
      ∙ satisfies-append loads p.conditions ((namespace_field, str asked ∷ []) ∷ []) tagged
      ∙ ground (
        arith,
        satisfies_other loads payload text tagged name plain tag_text fresh p.conditions p.lacks,
        has_value_tag loads payload text tagged name plain tag_text fresh asked
            (str_key namespace_field asked) p.short short,
      )

  -- Let tag_namespace succeed on a list of payloads with one namespace, and plan_query on any
  -- filter with any namespace asked for. Then a payload, as it is stored with its tag, satisfies
  -- the planned filter exactly if the untagged payload satisfies the conditions of the filter that
  -- was given and the two namespaces are the same text. The texts are assumed to be read back by
  -- json.loads as the payload and the tagged payload.
  pub namespace_isolation :
      (payloads ts : List (Option Fields)) (count i : ℕ) (name asked : Text)
      (payload tagged_payload : Option Fields) (text tagged : Text) (filter : Option Fields)
      (num_shards : ℕ) (f conditions : Filter) (targets : List ℕ)
      → tag_namespace (some payloads) count (some name) ≡ ok (some ts)
      → get_elem? payloads i ≡ some payload
      → get_elem? ts i ≡ some tagged_payload
      → IsTextOf loads payload text
      → IsTextOf loads tagged_payload tagged
      → plan_query filter (some asked) num_shards ≡ ok (some f, targets)
      → normalize_fields (or_empty filter) ≡ ok conditions
      → satisfies loads f tagged ≡ (satisfies loads conditions text && text_eq name asked)
  namespace_isolation payloads ts count i name asked payload tagged_payload text tagged filter n f
        conditions targets t at_i at_t plain tag_text planned normal =
      let (fresh, short, same) = tag_namespace-ok payloads ts count name t in
      let p = plan_query-Planned loads filter asked n f targets planned in
      let this : tagged_payload ≡ tag name payload =
        cc (get_elem?-map (tag name) payloads i payload at_i, same) in
      let agree : p.conditions ≡ conditions = cc (p.normal) in
      Planned-isolation payload text tagged name asked filter f p plain
        (subst (λ q. IsTextOf loads q tagged) this tag_text)
        (is_reserved-or_empty payload (any-false is_reserved payloads i payload fresh at_i)) short
      ∙ ap (λ c. satisfies loads c text && text_eq name asked) agree

  -- Let tag_namespace succeed on payloads with no namespace, and plan_query on any filter with any
  -- namespace asked for. Then none of these payloads, as it is stored, satisfies the planned
  -- filter. The text is assumed to be read back by json.loads as the payload.
  pub untagged_isolation :
      (payloads ts : List (Option Fields)) (count i : ℕ) (asked : Text) (payload : Option Fields)
      (text : Text) (filter : Option Fields) (num_shards : ℕ) (f : Filter) (targets : List ℕ)
      → tag_namespace (some payloads) count none ≡ ok (some ts)
      → get_elem? ts i ≡ some payload
      → IsTextOf loads payload text
      → plan_query filter (some asked) num_shards ≡ ok (some f, targets)
      → satisfies loads f text ≡ false
  unfolding satisfies
  untagged_isolation payloads ts count i asked payload text filter n f targets t at_i plain
        planned =
      let (fresh, same) = untagged-ok payloads ts count t in
      let p = plan_query-Planned loads filter asked n f targets planned in
      let here : get_elem? payloads i ≡ some payload = cc same in
      ap (λ g. satisfies loads g text) p.whole
      ∙ satisfies-append loads p.conditions ((namespace_field, str asked ∷ []) ∷ []) text
      ∙ ground (
        arith,
        p.short,
        payload_has_lem loads payload text (str_key namespace_field asked) plain,
        fields_have_other namespace_field (or_empty payload) (str asked)
            (str_key namespace_field asked)
            (is_reserved-or_empty payload (any-false is_reserved payloads i payload fresh here))
            p.short,
      )
