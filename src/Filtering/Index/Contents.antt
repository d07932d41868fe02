-- ===== src/Filtering/Index/Contents.antt =====
-- What the index holds: for each key, the local ids of the payloads that have it.
use distributed_vector_searc.Prelude.{
  ℕ, zero, suc, ◌-◌, ◌<◌, ◌≤◌, ◌≡◌, refl, ap, ◌∙◌, Bool, false, ◌&&◌, ◌||◌, none, some, List, [],
  ◌∷◌, ◌++◌, arith, ◌==◌, ltb, leb, Result, ok, err, length, length-append, drop, All, All-drop,
}
use distributed_vector_searc.Python.Text.{Text}
use distributed_vector_searc.Python.Json.{Json}
use distributed_vector_searc.Filtering.Key.{Key, key_of, key_eq, items_of}
use distributed_vector_searc.Filtering.Index.{
  PayloadIndex, append_id, add_items, add_fields, payload_fields, add, finish, catch_up_from,
  catch_up, new_index,
}
use distributed_vector_searc.Filtering.Index.Flags.{elem, elem-snoc}

-- Whether a field value has a key, and whether a field or a payload holds such a value.
abbrev pub has_this_key : Text → Json → Key → Bool
has_this_key name item k = elim (key_of name item) [ none ↦ false | some key ↦ key_eq key k ]

abbrev pub items_have : Text → List Json → Key → Bool
items_have name [] k = false
items_have name (item ∷ items) k = has_this_key name item k || items_have name items k

abbrev pub fields_have : List (Text × Json) → Key → Bool
fields_have [] k = false
fields_have ((name, value) ∷ fields) k = items_have name (items_of value) k || fields_have fields k

elem-append_id :
    (key : Key) (id : ℕ) (ids : Key → List ℕ) (k : Key) (j : ℕ)
    → elem j (append_id key id ids k) ≡ (elem j (ids k) || (key_eq key k && id == j))
unfolding append_id
elem-append_id key id ids k j = ground (arith, elem-snoc j (ids k) id)

elem-add_items :
    (id : ℕ) (name : Text) (items : List Json) (ids : Key → List ℕ) (k : Key) (j : ℕ)
    → elem j (add_items id name items ids k)
      ≡ (elem j (ids k) || (items_have name items k && id == j))
unfolding add_items
elem-add_items id name [] ids k j = ground arith
elem-add_items id name (item ∷ items) ids k j =
    elim (key_of name item)
      as (λ o.
        elem j (add_items id name items (elim o [ none ↦ ids | some key ↦ append_id key id ids ]) k)
        ≡ (elem j (ids k)
            || (((elim o [ none ↦ false | some key ↦ key_eq key k ]) || items_have name items k)
                && id == j))) [
                  | none ↦ elem-add_items id name items ids k j
                  | some key ↦ ground (
                    arith,
                    elem-add_items id name items (append_id key id ids) k j,
                    elem-append_id key id ids k j,
                  )
                ]

elem-add_fields :
    (id : ℕ) (fields : List (Text × Json)) (ids : Key → List ℕ) (k : Key) (j : ℕ)
    → elem j (add_fields id fields ids k) ≡ (elem j (ids k) || (fields_have fields k && id == j))
unfolding add_fields
elem-add_fields id [] ids k j = ground arith
elem-add_fields id ((name, value) ∷ fields) ids k j = ground (
  arith,
  elem-add_fields id fields (add_items id name (items_of value) ids) k j,
  elem-add_items id name (items_of value) ids k j,
)

module _ (loads : Text → Result Json) where
  -- The texts that `add` can read.
  pub record Readable (text : Text) : Type 0 where
    pub fields : List (Text × Json)
    pub reads : payload_fields loads text ≡ ok fields

  -- Whether the payload with this text has the key.
  unfoldable pub payload_has : Text → Key → Bool
  unfolding payload_fields key_of items_of key_eq
  payload_has text k = elim (payload_fields loads text) [
    | ok fields ↦ fields_have fields k
    | err _ ↦ false
  ]

  unfoldable pub has_at : List Text → ℕ → Key → Bool
  unfolding payload_has
  has_at [] i k = false
  has_at (text ∷ texts) zero k = payload_has text k
  has_at (text ∷ texts) (suc i) k = has_at texts i k

  has_at-drop :
      (n : ℕ) (texts : List Text) (i : ℕ) (k : Key)
      → n ≤ i
      → has_at (drop n texts) (i - n) k ≡ has_at texts i k
  unfolding has_at
  has_at-drop zero texts i k h = ap (λ m. has_at texts m k) (omega arith)
  has_at-drop (suc n) [] i k h = refl
  has_at-drop (suc n) (text ∷ texts) zero k h = absurd (omega arith)
  has_at-drop (suc n) (text ∷ texts) (suc i) k h =
      ap (λ m. has_at (drop n texts) m k) (omega arith) ∙ has_at-drop n texts i k (omega arith)

  has_at_beyond :
      (texts : List Text) (i : ℕ) (k : Key) → length texts ≤ i → has_at texts i k ≡ false
  unfolding has_at
  has_at_beyond [] i k h = refl
  has_at_beyond (text ∷ texts) zero k h = absurd (omega arith)
  has_at_beyond (text ∷ texts) (suc i) k h = has_at_beyond texts i k (omega arith)

  has_at-append :
      (texts more : List Text) (i : ℕ) (k : Key)
      → i < length texts
      → has_at (texts ++ more) i k ≡ has_at texts i k
  unfolding has_at
  has_at-append [] more i k h = absurd (omega arith)
  has_at-append (text ∷ texts) more zero k h = refl
  has_at-append (text ∷ texts) more (suc i) k h = has_at-append texts more i k (omega arith)

  -- The index holds the first `indexed` payloads, and nothing else.
  pub record IsIndexed (payloads : List Text) (index : PayloadIndex) : Type 0 where
    pub within : index.indexed ≤ length payloads
    pub holds :
        (k : Key) (i : ℕ) → elem i (index.ids k) ≡ (ltb i index.indexed && has_at payloads i k)

  payload_has-reads :
      {text : Text} (r : Readable text) (k : Key) → payload_has text k ≡ fields_have r.fields k
  unfolding payload_has
  payload_has-reads r k = rw (r.reads, payload_has) refl

  elem-add :
      (id : ℕ) (text : Text) (index : PayloadIndex)
      → Readable text
      → (index' : PayloadIndex) × (add loads id text index ≡ ok index')
        × ((k : Key) (j : ℕ)
            → elem j (index'.ids k) ≡ (elem j (index.ids k) || (payload_has text k && id == j)))
  unfolding add
  elem-add id text index r = (
    record index { ids = add_fields id r.fields index.ids },
    rw r.reads refl,
    λ k j. ground (arith, payload_has-reads r k, elem-add_fields id r.fields index.ids k j),
  )

  has_at_zero :
      (text : Text) (texts : List Text) (i : ℕ) (k : Key)
      → i ≡ 0
      → has_at (text ∷ texts) i k ≡ payload_has text k
  unfolding has_at
  has_at_zero text texts i k e = rw e refl

  has_at-suc :
      (text : Text) (texts : List Text) (i j : ℕ) (k : Key)
      → i ≡ suc j
      → has_at (text ∷ texts) i k ≡ has_at texts j k
  unfolding has_at
  has_at-suc text texts i j k e = rw e refl

  has_at_from :
      (n : ℕ) (text : Text) (texts : List Text) (k : Key) (j : ℕ)
      → (leb n j && has_at (text ∷ texts) (j - n) k)
        ≡ ((payload_has text k && n == j) || (leb (suc n) j && has_at texts (j - suc n) k))
  has_at_from n text texts k j =
      ground (arith, has_at_zero text texts (j - n) k, has_at-suc text texts (j - n) (j - suc n) k)

  pub elem-catch_up_from :
      (n : ℕ) (texts : List Text) (index : PayloadIndex)
      → All Readable texts
      → ((catch_up_from loads n texts index).1 ≡ ok tt)
        × ((k : Key) (j : ℕ)
            → elem j ((catch_up_from loads n texts index).0.ids k)
              ≡ (elem j (index.ids k) || (leb n j && has_at texts (j - n) k)))
  unfolding catch_up_from
  elem-catch_up_from n [] index h = (refl, λ k j. unfold has_at in ground arith)
  elem-catch_up_from n (text ∷ texts) index h =
      let first = elem-add n text index h.0 in
      let rest = elem-catch_up_from (suc n) texts first.0 h.1 in
      rw (first.1, catch_up_from)
        (rest.0, λ k j. rest.1 k j ∙ ground (arith, first.2 k j, has_at_from n text texts k j))

  finish_ok :
      (n : ℕ) (p : PayloadIndex × Result (Unit {0}))
      → p.1 ≡ ok tt
      → finish n p ≡ (record (p.0) { indexed = n }, ok tt)
  unfolding finish
  finish_ok n (index, ok _) e = refl
  finish_ok n (index, err x) e = cc

  join :
      (payloads : List Text) (n j : ℕ) (k : Key)
      → n ≤ length payloads
      → ((ltb j n && has_at payloads j k) || (leb n j && has_at (drop n payloads) (j - n) k))
        ≡ (ltb j (length payloads) && has_at payloads j k)
  join payloads n j k h = ground (arith, has_at-drop n payloads j k, has_at_beyond payloads j k)

  -- If an index holds exactly the payloads that it has counted, and add can read every payload,
  -- then catch_up returns without error, has counted all the payloads, and holds for each key
  -- exactly the local ids of the payloads that have it.
  pub catch_up-IsIndexed :
      (payloads : List Text) (index : PayloadIndex)
      → All Readable payloads
      → IsIndexed payloads index
      → ((catch_up loads payloads index).1 ≡ ok tt)
        × IsIndexed payloads (catch_up loads payloads index).0
        × ((catch_up loads payloads index).0.indexed ≡ length payloads)
  unfolding catch_up
  catch_up-IsIndexed payloads index h inv =
      let n = index.indexed in
      let r = elem-catch_up_from n (drop n payloads) index (All-drop Readable n payloads h) in
      rw (finish_ok (length payloads) (catch_up_from loads n (drop n payloads) index) r.0) (
        refl,
        record {
          within = omega arith;
          holds = λ k i.
              r.1 k i
              ∙ ap (λ b. b || (leb n i && has_at (drop n payloads) (i - n) k)) (inv.holds k i)
              ∙ join payloads n i k inv.within;
        },
        refl,
      )

  pub new_index-IsIndexed : (payloads : List Text) → IsIndexed payloads new_index
  unfolding new_index
  new_index-IsIndexed payloads = record { within = omega arith; holds = λ k i. ground arith }

  -- New payloads leave the index as it is, behind.
  pub append-IsIndexed :
      (payloads more : List Text) (index : PayloadIndex)
      → IsIndexed payloads index
      → IsIndexed (payloads ++ more) index
  append-IsIndexed payloads more index inv = record {
    within = omega (arith, length-append payloads more, inv.within);
    holds = λ k i. inv.holds k i ∙ ground (arith, has_at-append payloads more i k, inv.within);
  }
