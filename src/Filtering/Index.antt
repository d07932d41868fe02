-- ===== src/Filtering/Index.antt =====
-- `PayloadIndex` of vsearch/filtering.py. The dict `_ids` is a function from keys to lists of local
-- ids, the empty list for a missing key, which is what `_ids.get(key, [])` reads.
pub mod Flags
pub mod Contents
use distributed_vector_searc.Prelude.{
  ℕ, zero, suc, ◌+◌, ◌≡◌, refl, Bool, true, false, ◌&&◌, ◌||◌, Option, none, some, List, [], ◌∷◌,
  ◌++◌, arith, if◌then◌else◌, Result, Error, ok, err, ◌>>=◌, length, drop, replicate, any,
}
use distributed_vector_searc.Python.Text.{Text}
use distributed_vector_searc.Python.Json.{Json, obj, Fields, entries}
use distributed_vector_searc.Filtering.Key.{Key, key_of, key_eq, items_of, Filter}

pub record PayloadIndex : Type 0 where
  pub ids : Key → List ℕ
  pub indexed : ℕ

unfoldable pub new_index : PayloadIndex
new_index = record { ids = λ k. []; indexed = 0 }

-- `self._ids.setdefault(key, []).append(local_id)`
unfoldable pub append_id : Key → ℕ → (Key → List ℕ) → Key → List ℕ
append_id key local_id ids k = if key_eq key k then ids k ++ local_id ∷ [] else ids k

-- The two nested loops of `add`, over the items of one field and over the fields.
unfoldable pub add_items : ℕ → Text → List Json → (Key → List ℕ) → Key → List ℕ
unfolding append_id
add_items local_id name [] ids = ids
add_items local_id name (item ∷ items) ids =
    add_items local_id name items
      (elim (key_of name item) [ none ↦ ids | some key ↦ append_id key local_id ids ])

unfoldable pub add_fields : ℕ → List (Text × Json) → (Key → List ℕ) → Key → List ℕ
unfolding add_items
add_fields local_id [] ids = ids
add_fields local_id ((name, value) ∷ fields) ids =
    add_fields local_id fields (add_items local_id name (items_of value) ids)

-- `isinstance(payload, dict)`, and its items.
unfoldable pub dict_items : Json → List (Text × Json)
dict_items (obj fields) = entries fields
dict_items _ = []

-- `self.indexed = n`, unless the loop was left by an exception.
unfoldable pub finish : ℕ → PayloadIndex × Result (Unit {0}) → PayloadIndex × Result (Unit {0})
finish n (index, ok _) = (record index { indexed = n }, ok tt)
finish n (index, err e) = (index, err e)

-- `json.loads` is the argument `loads`.
module _ (loads : Text → Result Json) where
  -- What `add` reads of a payload text; nothing if it is empty or no dict.
  unfoldable pub payload_fields : Text → Result (List (Text × Json))
  unfolding dict_items
  payload_fields [] = ok []
  payload_fields (c ∷ text) = do payload ← loads (c ∷ text); ok (dict_items payload)

  unfoldable pub add : ℕ → Text → PayloadIndex → Result PayloadIndex
  unfolding payload_fields add_fields
  add local_id text index = do
    fields ← payload_fields text
    ok (record index { ids = add_fields local_id fields index.ids })

  -- The loop of `catch_up` over the payloads from `local_id` on. A payload that `loads` refuses ends
  -- it, with what was added before still there.
  unfoldable pub catch_up_from : ℕ → List Text → PayloadIndex → PayloadIndex × Result (Unit {0})
  unfolding add
  catch_up_from local_id [] index = (index, ok tt)
  catch_up_from local_id (text ∷ texts) index = elim (add local_id text index) [
    | ok index' ↦ catch_up_from (suc local_id) texts index'
    | err e ↦ (index, err e)
  ]

  unfoldable pub catch_up : List Text → PayloadIndex → PayloadIndex × Result (Unit {0})
  unfolding catch_up_from finish
  catch_up payloads index =
      finish (length payloads) (catch_up_from index.indexed (drop index.indexed payloads) index)

-- `flags[i] = True`; numpy raises IndexError for an index past the end.
unfoldable pub set_flag : ℕ → List Bool → Result (List Bool)
set_flag i [] = err Error.index_error
set_flag zero (b ∷ flags) = ok (true ∷ flags)
set_flag (suc i) (b ∷ flags) = do rest ← set_flag i flags; ok (b ∷ rest)

-- `flags[ids] = True`
unfoldable pub set_flags : List ℕ → List Bool → Result (List Bool)
unfolding set_flag
set_flags [] flags = ok flags
set_flags (i ∷ is) flags = do flags' ← set_flag i flags; set_flags is flags'

-- `a &= b`, for two arrays of one length.
unfoldable pub and_flags : List Bool → List Bool → List Bool
and_flags (a ∷ as') (b ∷ bs) = (a && b) ∷ and_flags as' bs
and_flags _ _ = []

unfoldable pub ids_of : PayloadIndex → Text → Json → List ℕ
ids_of index name value = elim (key_of name value) [ none ↦ [] | some key ↦ index.ids key ]

unfoldable pub flag_values : PayloadIndex → Text → List Json → List Bool → Result (List Bool)
unfolding set_flags ids_of
flag_values index name [] flags = ok flags
flag_values index name (value ∷ values) flags = do
  flags' ← set_flags (ids_of index name value) flags
  flag_values index name values flags'

unfoldable pub matching_fields : PayloadIndex → Filter → ℕ → List Bool → Result (List Bool)
unfolding flag_values and_flags
matching_fields index [] size allowed = ok allowed
matching_fields index ((name, values) ∷ fields) size allowed = do
  has_field ← flag_values index name values (replicate size false)
  matching_fields index fields size (and_flags allowed has_field)

unfoldable pub matching : PayloadIndex → Filter → ℕ → Result (List Bool)
unfolding matching_fields
matching index filter size = matching_fields index filter size (replicate size true)
