-- ===== src/Documents.antt =====
-- vsearch/documents.py and vsearch/ingest.py: files as passages of a cluster, and the search in them. The
-- files, the embedder and the coordinator are the parameter `Library`. The callback `on_file` and the
-- clock are left out.
pub mod Files
pub mod Ingest
pub mod Passages
pub mod Counts
pub mod Safe
pub mod Again
pub mod Tests
use distributed_vector_searc.Prelude.{
  ℕ, zero, suc, ◌+◌, Bool, true, false, not, ◌&&◌, ◌||◌, List, [], ◌∷◌, ◌++◌, map, Option, none,
  some, Result, Error, ok, err, if◌then◌else◌, ltb, leb, length, any, keep, take, drop, concat,
  list_ord, nat_ord,
}
use distributed_vector_searc.Python.Text.{Text, text_eq, codes, show_nat, grouped}
use distributed_vector_searc.Python.Sorting.{sorted}
use distributed_vector_searc.Actions.{Act, ◌>>=◌, ◌>>◌, give, raise, update, attempt, lift}
use distributed_vector_searc.Cluster.Namespace.{shard_for_namespace}
use distributed_vector_searc.Filtering.Key.{Filter}
use distributed_vector_searc.Chunking.Document.{Chunk}
use distributed_vector_searc.State.{State, ServerStatus, Dataset, glove, documents, memory, Source}

pub record IngestReport : Type 0 where
  pub added : ℕ
  pub unchanged : ℕ
  pub changed : ℕ
  pub shard : Option ℕ

-- The payload of a vector.
pub record Passage : Type 0 where
  pub text : Text
  pub source : Text
  pub heading : Text
  pub chunk : ℕ

-- `DEFAULT_EMBEDDER`
abbrev pub default_embedder : Text
default_embedder = codes "bge-small"

-- What a cluster of a kind holds, and the command that searches it: `KINDS`.
unfoldable pub holds : Dataset → Text
holds (glove limit dir) = codes "this cluster holds GloVe words; use: vsearch similar WORD"
holds (documents embedder dim passages sources) =
    codes "this cluster holds documents; use: vsearch search \"...\""
holds (memory embedder dim) =
    codes "this cluster holds agent memories; use: vsearch memory recall \"...\""

-- The elements of a set of texts.
unfoldable pub distinct_texts : List Text → List Text
distinct_texts [] = []
distinct_texts (text ∷ texts) =
    let rest = distinct_texts texts in if any (text_eq text) rest then rest else text ∷ rest

abbrev pub named : List (Option Text) → List Text
named [] = []
named (none ∷ names) = named names
named (some name ∷ names) = name ∷ named names

-- `namespaces`, for the sources of a dataset.
unfoldable pub namespaces : List (Text × Source) → List Text
unfolding distinct_texts sorted
namespaces sources = sorted (distinct_texts (named (map (λ s. s.1.namespace) sources)))

unfoldable pub inside : List Text → Text
unfolding show_nat
inside [] = []
inside (space ∷ spaces) =
    codes " in " ++ show_nat (length (space ∷ spaces)) ++ codes " namespace(s)"

unfoldable pub describe : Option Dataset → Text
unfolding grouped show_nat namespaces inside
describe none = codes "nothing is loaded yet"
describe (some (memory embedder dim)) = codes "holds agent memories, embedder: " ++ embedder
describe (some (glove limit dir)) =
    codes "loaded: the " ++ grouped limit ++ codes " most frequent glove words"
describe (some (documents embedder dim passages sources)) =
    codes "ingested: "
    ++ grouped passages
    ++ codes " passages from "
    ++ show_nat (length sources)
    ++ codes " file(s)"
    ++ inside (namespaces sources)
    ++ codes ", embedder: "
    ++ embedder

-- `sources.get(key)`, and `sources[key] = source`.
unfoldable pub source_of : Text → List (Text × Source) → Option Source
source_of key [] = none
source_of key ((k, source) ∷ sources) =
    let rest = source_of key sources in if text_eq k key then some source else rest

unfoldable pub put_source : Text → Source → List (Text × Source) → List (Text × Source)
put_source key source [] = (key, source) ∷ []
put_source key source ((k, old) ∷ sources) =
    let rest = put_source key source sources in
    if text_eq k key then (k, source) ∷ sources else (k, old) ∷ rest

-- `embedding_text`
unfoldable pub embedding_text : Passage → Text
embedding_text passage = elim passage.heading [
  | [] ↦ passage.text
  | c ∷ heading ↦ (c ∷ heading) ++ 10 ∷ 10 ∷ passage.text
]

abbrev pub embed_batch : ℕ
embed_batch = 32

-- `[texts[start:start + batch] for start in range(0, len(texts), batch)]`, on fuel: each batch takes a text.
unfoldable pub batches : {A : Type 0} → ℕ → ℕ → List A → List (List A)
batches zero batch texts = []
batches (suc fuel) batch [] = []
batches (suc fuel) batch (text ∷ texts) =
    take batch (text ∷ texts) ∷ batches fuel batch (drop batch (text ∷ texts))

-- `read_passages`, for the chunks of a file.
unfoldable pub passages_of : Text → List Chunk → List Passage
passages_of source chunks =
    map (λ c. record { text = c.text; source = source; heading = c.heading; chunk = c.index })
      chunks

-- `f"{namespace}::{path}" if namespace else str(path)`
unfoldable pub source_key : Option Text → Text → Text
source_key none path = path
source_key (some []) path = path
source_key (some (c ∷ namespace)) path = (c ∷ namespace) ++ codes "::" ++ path

-- `shard_for_namespace(namespace, len(state["servers"])) if namespace else None`
unfoldable pub shard_of_namespace : Option Text → State → Result (Option ℕ)
unfolding shard_for_namespace
shard_of_namespace none state = ok none
shard_of_namespace (some []) state = ok none
shard_of_namespace (some (c ∷ namespace)) state =
    elim (shard_for_namespace (c ∷ namespace) (length state.servers)) [
      | err e ↦ err e
      | ok shard ↦ ok (some shard)
    ]

pub record Embedder (V : Type 0) : Type 0 where
  pub name : Text
  pub dim : ℕ
  pub embed_documents : List Text → List V
  pub embed_query : Text → V
