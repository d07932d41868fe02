-- ===== src/Memory.antt =====
-- vsearch/memory.py: the memories of one owner in a cluster. The cluster, the embedders, the clock and the
-- arithmetic of the scores are the parameter `Store`.
pub mod Operations
pub mod Writing
pub mod Recall
pub mod Lookups
pub mod Made
pub mod Forgotten
pub mod Tests
use distributed_vector_searc.Prelude.{
  ℕ, zero, suc, ◌+◌, ◌*◌, ◌/◌, ltb, leb, Bool, true, false, not, ◌&&◌, List, [], ◌∷◌, ◌++◌, map,
  Option, none, some, Result, Error, ok, err, ◌>>=◌, if◌then◌else◌, any, all, keep, length, Ord,
  ◌≼?◌, take, list_ord, nat_ord,
}
use distributed_vector_searc.Python.Text.{Text, text_eq, codes, show_nat}
use distributed_vector_searc.Python.Sorting.{sorted}
use distributed_vector_searc.State.{State, Dataset, glove, documents, memory}

-- The payload of a record: a fact, or a record that only names what is forgotten.
pub data Payload : Type 0 where
  fact : (memory_id text : Text) (tags : List Text) (created : ℕ) (replaces : List Text) → Payload
  forgotten : (memory_id : Text) (created : ℕ) (replaces : List Text) → Payload

-- `payload["memory_id"]` and `payload["replaces"]`
abbrev pub id_of : Payload → Text
id_of (fact memory_id text tags created replaces) = memory_id
id_of (forgotten memory_id created replaces) = memory_id

abbrev pub replaces_of : Payload → List Text
replaces_of (fact memory_id text tags created replaces) = replaces
replaces_of (forgotten memory_id created replaces) = replaces

-- The filters that are used: the facts, those with one of some tags, those of some ids, and the records that
-- replace one of some ids.
pub data Where : Type 0 where
  facts : Where
  tagged : (tags : List Text) → Where
  of_ids : (ids : List Text) → Where
  replacing : (ids : List Text) → Where

abbrev pub is_among : Text → List Text → Bool
is_among text texts = any (text_eq text) texts

-- What each filter asks of a payload: a wanted value is the value of the field, or one of its list.
unfoldable pub matches : Where → Payload → Bool
matches facts (fact memory_id text tags created replaces) = true
matches facts (forgotten memory_id created replaces) = false
matches (tagged wanted) (fact memory_id text tags created replaces) =
    any (λ tag. is_among tag wanted) tags
matches (tagged wanted) (forgotten memory_id created replaces) = false
matches (of_ids ids) (fact memory_id text tags created replaces) = is_among memory_id ids
matches (of_ids ids) (forgotten memory_id created replaces) = false
matches (replacing ids) payload = any (λ target. is_among target ids) (replaces_of payload)

pub record MemoryHit (D : Type 0) : Type 0 where
  pub distance : D
  pub payload : Payload

-- A memory that is recalled.
pub record Memory (S : Type 0) : Type 0 where
  pub id : Text
  pub text : Text
  pub tags : List Text
  pub created : ℕ
  pub similarity : S
  pub score : S

-- `CANDIDATES` and `MAX_LOOKUP`
abbrev pub candidates : ℕ
candidates = 4

abbrev pub max_lookup : ℕ
max_lookup = 1000

-- `describe_age`, for whole seconds.
unfoldable pub in_units : Text → ℕ → Text
unfolding show_nat
in_units unit count =
    show_nat count ++ codes " " ++ unit ++ (if ltb 1 count then codes "s" else []) ++ codes " ago"

unfoldable pub describe_age : ℕ → Text
unfolding in_units
describe_age seconds =
    if leb 86400 seconds
    then in_units (codes "day") (seconds / 86400)
    else if leb 3600 seconds
    then in_units (codes "hour") (seconds / 3600)
    else if leb 60 seconds
    then in_units (codes "minute") (seconds / 60)
    else codes "just now"

-- `list(dict.fromkeys(texts))`: the first of each, in order. `seen` are those that came before.
unfoldable pub first_of_each : List Text → List Text → List Text
first_of_each seen [] = []
first_of_each seen (text ∷ texts) =
    let others = first_of_each (text ∷ seen) texts in
    let rest = first_of_each seen texts in if is_among text seen then rest else text ∷ others

-- `set(a) - set(b)`
abbrev pub without : List Text → List Text → List Text
without texts others = keep (λ t. not (is_among t others)) texts

-- The name of what a cluster holds.
abbrev pub name_of_dataset : Dataset → Text
name_of_dataset (glove limit dir) = codes "glove"
name_of_dataset (documents embedder dim passages sources) = codes "documents"
name_of_dataset (memory embedder dim) = codes "memory"

-- The embedder and the dimension of a cluster of memories: `_check_kind` refuses any other.
unfoldable pub check_kind : Dataset → Result (Text × ℕ)
check_kind (memory embedder dim) = ok (embedder, dim)
check_kind (glove limit dir) = err (
    Error.user_error (
      codes "this cluster holds "
      ++ name_of_dataset (glove limit dir)
      ++ codes "; keep memories in a cluster of their own (vsearch --home data/memory cluster up)"))
check_kind (documents embedder dim passages sources) = err (
    Error.user_error (
      codes "this cluster holds "
      ++ name_of_dataset (documents embedder dim passages sources)
      ++ codes "; keep memories in a cluster of their own (vsearch --home data/memory cluster up)"))

-- `sorted(memories, key=lambda memory: -memory.score)`: those of one score keep their order.
module _ {S : Type 0} ⦃o : Ord S⦄ where
  unfoldable pub insert_scored : Memory S → List (Memory S) → List (Memory S)
  insert_scored m [] = m ∷ []
  insert_scored m (n ∷ memories) =
      let rest = insert_scored m memories in
      if n.score ≼? m.score then m ∷ n ∷ memories else n ∷ rest

  unfoldable pub sorted_by_score : List (Memory S) → List (Memory S)
  unfolding insert_scored
  sorted_by_score [] = []
  sorted_by_score (m ∷ memories) = insert_scored m (sorted_by_score memories)

-- An owner is a text with a character that is no white space, of at most 128 characters.
unfoldable pub check_owner : (Text → Text) → Text → Result (Unit {0})
check_owner strip owner = elim (strip owner) [
  | [] ↦ err (Error.user_error (codes "an owner is a name of 1 to 128 characters"))
  | c ∷ text ↦
      if ltb 128 (length owner)
      then err (Error.user_error (codes "an owner is a name of 1 to 128 characters"))
      else ok tt
]
