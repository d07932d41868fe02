-- ===== src/Filtering/Matching.antt =====
-- `PayloadIndex.matching` against the meaning of a filter, payload by payload.
use distributed_vector_searc.Prelude.{
  ℕ, zero, suc, ◌<◌, ◌≡◌, refl, ap, sym, ◌∙◌, Bool, true, false, ◌&&◌, ◌||◌, none, some, List, [],
  ◌∷◌, arith, ltb, Result, ok, length, replicate, length-replicate, map, length-map, Option-cases,
  inl, inr, ap₂,
}
use distributed_vector_searc.Python.Text.{Text}
use distributed_vector_searc.Python.Json.{Json}
use distributed_vector_searc.Filtering.Key.{Key, key_of, Filter}
use distributed_vector_searc.Filtering.Index.{
  PayloadIndex, ids_of, flag_values, matching_fields, matching, and_flags,
}
use distributed_vector_searc.Filtering.Index.Flags.{
  elem, flag_at, flags_ext, flag_at-replicate, flag_at-and_flags, length-and_flags, Raised,
  Raised-set_flags,
}
use distributed_vector_searc.Filtering.Index.Contents.{payload_has, has_at, IsIndexed}

-- The values that some payload lists hold, by the index.
abbrev in_any : PayloadIndex → Text → List Json → ℕ → Bool
in_any index name [] j = false
in_any index name (value ∷ values) j =
    elem j (ids_of index name value) || in_any index name values j

abbrev in_all : PayloadIndex → Filter → ℕ → Bool
in_all index [] j = true
in_all index ((name, values) ∷ fields) j = in_any index name values j && in_all index fields j

abbrev IsBounded : ℕ → PayloadIndex → Type 0
IsBounded n index =
    (name : Text) (value : Json) (j : ℕ) → elem j (ids_of index name value) ≡ true → j < n

Raised-flag_values :
    (index : PayloadIndex) (name : Text) (values : List Json) (flags : List Bool)
    → IsBounded (length flags) index
    → Raised flags (in_any index name values) (flag_values index name values flags)
unfolding flag_values
Raised-flag_values index name [] flags b = record {
  after = flags;
  returns = refl;
  same_length = refl;
  raised = λ j. ground arith;
}
Raised-flag_values index name (value ∷ values) flags b =
    let first = Raised-set_flags (ids_of index name value) flags (b name value) in
    let rest =
      Raised-flag_values index name values first.after
        (λ n v j e. rw first.same_length (b n v j e)) in
    record {
      after = rest.after;
      returns = rw first.returns rest.returns;
      same_length = rest.same_length ∙ first.same_length;
      raised = λ j. ground (arith, first.raised j, rest.raised j);
    }

-- The array that `matching` returns, by its entries.
record Matched (size : ℕ) (allowed : List Bool) (on : ℕ → Bool) (r : Result (List Bool))
    : Type 0 where
  flags : List Bool
  returns : r ≡ ok flags
  sized : length flags ≡ size
  entry : (j : ℕ) → j < size → flag_at flags j ≡ (flag_at allowed j && on j)

Matched-matching_fields :
    (index : PayloadIndex) (filter : Filter) (size : ℕ) (allowed : List Bool)
    → length allowed ≡ size
    → IsBounded size index
    → Matched size allowed (in_all index filter) (matching_fields index filter size allowed)
unfolding matching_fields
Matched-matching_fields index [] size allowed e b = record {
  flags = allowed;
  returns = refl;
  sized = e;
  entry = λ j h. ground arith;
}
Matched-matching_fields index ((name, values) ∷ fields) size allowed e b =
    let blank = replicate size false in
    let has_field =
      Raised-flag_values index name values blank (λ n v j h. rw length-replicate (b n v j h)) in
    let even : length has_field.after ≡ size =
      has_field.same_length ∙ length-replicate size false in
    let both = and_flags allowed has_field.after in
    let rest =
      Matched-matching_fields index fields size both
        (length-and_flags allowed has_field.after (e ∙ sym even) ∙ e) b in
    record {
      flags = rest.flags;
      returns = rw has_field.returns rest.returns;
      sized = rest.sized;
      entry = λ j h. ground (
        arith,
        rest.entry j,
        flag_at-and_flags allowed has_field.after j,
        has_field.raised j,
        flag_at-replicate false size j,
      );
    }

module _ (loads : Text → Result Json) where
  -- A payload satisfies a filter if for every field it has one of the wanted values.
  unfoldable pub has_value : Text → Text → Json → Bool
  has_value text name value = elim (key_of name value) [
    | none ↦ false
    | some key ↦ payload_has loads text key
  ]

  unfoldable pub has_any : Text → Text → List Json → Bool
  unfolding has_value
  has_any text name [] = false
  has_any text name (value ∷ values) = has_value text name value || has_any text name values

  unfoldable pub satisfies : Filter → Text → Bool
  unfolding has_any
  satisfies [] text = true
  satisfies ((name, values) ∷ fields) text = has_any text name values && satisfies fields text

  -- The payload of one local id, as the arrays and the index see it.
  record IsAt (payloads : List Text) (j : ℕ) : Type 0 where
    text : Text
    mapped : (f : Text → Bool) → flag_at (map f payloads) j ≡ f text
    keys : (k : Key) → has_at loads payloads j k ≡ payload_has loads text k

  at : (payloads : List Text) (j : ℕ) → j < length payloads → IsAt payloads j
  unfolding has_at
  at [] j h = absurd (omega arith)
  at (text ∷ texts) zero h = record { text = text; mapped = λ f. refl; keys = λ k. refl }
  at (text ∷ texts) (suc j) h =
      let below = at texts j (omega arith) in
      record { text = below.text; mapped = below.mapped; keys = below.keys }

  module _ (payloads : List Text) (index : PayloadIndex)
      (inv : IsIndexed loads payloads index) where
    elem-ids_of-none :
        (name : Text) (value : Json) (j : ℕ)
        → key_of name value ≡ none
        → elem j (ids_of index name value) ≡ false
    unfolding ids_of
    elem-ids_of-none name value j e = rw (e, ids_of) refl

    elem-ids_of-some :
        (name : Text) (value : Json) (j : ℕ) (k : Key)
        → key_of name value ≡ some k
        → elem j (ids_of index name value) ≡ (ltb j index.indexed && has_at loads payloads j k)
    unfolding ids_of
    elem-ids_of-some name value j k e = rw (e, ids_of) (inv.holds k j)

    elem-ids_of :
        (name : Text) (value : Json) (j : ℕ) (lt : j < length payloads)
        → index.indexed ≡ length payloads
        → elem j (ids_of index name value) ≡ has_value (at payloads j lt).text name value
    unfolding has_value
    elem-ids_of name value j lt full = elim (Option-cases (key_of name value)) [
      | inl e ↦ rw (e, has_value) (elem-ids_of-none name value j e)
      | inr (k, e) ↦
          rw (e, has_value)
            (elem-ids_of-some name value j k e ∙ ground (arith, (at payloads j lt).keys k))
    ]

    ids_of-IsBounded : index.indexed ≡ length payloads → IsBounded (length payloads) index
    ids_of-IsBounded full name value j h = elim (Option-cases (key_of name value)) [
      | inl e ↦ ground (arith, elem-ids_of-none name value j e)
      | inr (k, e) ↦ ground (arith, elem-ids_of-some name value j k e)
    ]

    in_any-eq :
        (name : Text) (values : List Json) (j : ℕ) (lt : j < length payloads)
        → index.indexed ≡ length payloads
        → in_any index name values j ≡ has_any (at payloads j lt).text name values
    unfolding has_any
    in_any-eq name [] j lt full = refl
    in_any-eq name (value ∷ values) j lt full =
        ap₂ ◌||◌ (elem-ids_of name value j lt full) (in_any-eq name values j lt full)

    in_all-eq :
        (filter : Filter) (j : ℕ) (lt : j < length payloads)
        → index.indexed ≡ length payloads
        → in_all index filter j ≡ satisfies filter (at payloads j lt).text
    unfolding satisfies
    in_all-eq [] j lt full = refl
    in_all-eq ((name, values) ∷ fields) j lt full =
        ap₂ ◌&&◌ (in_any-eq name values j lt full) (in_all-eq fields j lt full)

    -- If an index holds exactly the payloads that it has counted, and has counted all of a list of
    -- payload texts, then matching raises no error on any filter, and its Boolean array says of
    -- each payload whether it satisfies the filter: for every field of the filter some wanted value
    -- has a key that the payload has.
    pub matching-eq-satisfies :
        (filter : Filter)
        → index.indexed ≡ length payloads
        → matching index filter (length payloads) ≡ ok (map (satisfies filter) payloads)
    unfolding matching
    matching-eq-satisfies filter full =
        let n = length payloads in
        let m =
          Matched-matching_fields index filter n (replicate n true) (length-replicate n true)
            (ids_of-IsBounded full) in
        m.returns
        ∙ ap ok (
            flags_ext m.flags (map (satisfies filter) payloads)
              (m.sized ∙ sym (length-map (satisfies filter) payloads))
              (λ j lt. entry_eq m.flags filter j (rw m.sized at lt) full (m.entry j)))
      where
        entry_eq :
            (flags : List Bool) (f : Filter) (j : ℕ) (lt : j < length payloads)
            → index.indexed ≡ length payloads
            → (j < length payloads
                → flag_at flags j
                  ≡ (flag_at (replicate (length payloads) true) j && in_all index f j))
            → flag_at flags j ≡ flag_at (map (satisfies f) payloads) j
        entry_eq flags f j lt e h =
            h lt
            ∙ ground (
              arith,
              flag_at-replicate true (length payloads) j lt,
              in_all-eq f j lt e,
              (at payloads j lt).mapped (satisfies f),
            )
