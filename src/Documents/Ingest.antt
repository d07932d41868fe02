-- ===== src/Documents/Ingest.antt =====
-- `ingest_files` of vsearch/documents.py, with `ingest_passages` of vsearch/ingest.py. The
-- files, the embedders and the coordinator are the parameter `Library`.
use distributed_vector_searc.Prelude.{
  ℕ, Bool, true, false, not, List, [], ◌∷◌, ◌++◌, map, Option, none, some, Error, if◌then◌else◌,
  length, any, concat, ◌==◌, suc, ◌+◌,
}
use distributed_vector_searc.Python.Text.{Text, text_eq, codes}
use distributed_vector_searc.Actions.{Act, ◌>>=◌, ◌>>◌, give, raise, update, attempt, lift}
use distributed_vector_searc.Filtering.Key.{Filter}
use distributed_vector_searc.Chunking.Document.{Rules, chunk_document}
use distributed_vector_searc.State.{State, ServerStatus, Dataset, glove, documents, memory, Source}
use distributed_vector_searc.Documents.{
  IngestReport, Passage, default_embedder, source_of, embedding_text, batches, embed_batch,
  passages_of, source_key, shard_of_namespace, Embedder, holds, put_source,
}
use distributed_vector_searc.Documents.Files.{Place, find_documents, markdown_suffixes}

-- The files: `look` for what stands at a path, `fingerprint` for the hash of a file, its text, its
-- suffix in lower case, and the path as it is shown. The calls of the coordinator: `add`, and
-- `search_hits` with the failovers that it took. `message` is `str` of an exception, `repr` that of a text.
pub record Library (W V H : Type 0) : Type 0 where
  pub look : Text → Act W Place
  pub fingerprint : Text → Act W Text
  pub read_text : Text → Act W Text
  pub suffix : Text → Text
  pub display_path : Text → Text
  pub embedders : Text → Act W (Embedder V)
  pub add : List V → List Passage → Option Text → Act W (Unit {0})
  pub search_hits : V → ℕ → Option Filter → Option Text → Act W (List H × ℕ)
  pub write : State → W → W
  pub message : Error → Text
  pub repr : Text → Text

-- The record of the documents of a cluster.
pub record Collection : Type 0 where
  pub embedder : Text
  pub dim : ℕ
  pub passages : ℕ
  pub sources : List (Text × Source)

abbrev pub dataset_of : Collection → Dataset
dataset_of c = documents c.embedder c.dim c.passages c.sources

-- The arguments of a call.
pub record Options : Type 0 where
  pub embedder_name : Option Text
  pub namespace : Option Text
  pub chunk_chars : ℕ
  pub overlap : ℕ

-- The variables of the loop over the files.
pub record Progress : Type 0 where
  pub state : State
  pub dataset : Collection
  pub added : ℕ
  pub unchanged : ℕ
  pub changed : ℕ

-- `embedder_name or DEFAULT_EMBEDDER`
unfoldable pub wanted_embedder : Option Text → Text
wanted_embedder none = default_embedder
wanted_embedder (some []) = default_embedder
wanted_embedder (some (c ∷ name)) = c ∷ name

-- `embedder_name not in (None, name)`
unfoldable pub other_embedder : Option Text → Text → Bool
other_embedder none name = false
other_embedder (some wanted) name = not (text_eq wanted name)

-- The exceptions that end an ingest with a text for the user.
unfoldable pub stops_ingest : Error → Bool
stops_ingest Error.rpc_unavailable = true
stops_ingest Error.rpc_deadline_exceeded = true
stops_ingest Error.rpc_failed = true
stops_ingest (Error.replicas_out_of_sync shard) = true
stops_ingest e = false

unfoldable pub is_value_error : Error → Bool
is_value_error Error.value_error = true
is_value_error Error.decode_error = true
is_value_error Error.out_of_order = true
is_value_error e = false

-- `f"{holds(dataset)}. Vectors from two embedders cannot share an index; ..."`
unfoldable pub wrong_kind : Dataset → Text
unfolding holds
wrong_kind dataset =
    holds dataset
    ++ codes ". Vectors from two embedders cannot share an "
    ++ codes "index; start another cluster with --home"

-- After a file was stored, as `count` passages.
unfoldable pub with_file : (Text → Text) → Options → Progress → Text → Text → ℕ → Progress
unfolding put_source source_key
with_file display_path options p path digest count =
    let source : Source = record {
      sha256 = digest;
      passages = count;
      namespace = options.namespace;
      source = display_path path;
    } in
    let dataset = record (p.dataset) {
      passages = p.dataset.passages + count;
      sources = put_source (source_key options.namespace path) source p.dataset.sources;
    } in
    record p {
      state = record (p.state) { dataset = some (dataset_of dataset) };
      dataset = dataset;
      added = p.added + count;
    }

-- After a file that is known, with the same contents or not.
unfoldable pub skipped : Bool → Progress → Progress
skipped true p = record p { unchanged = suc p.unchanged }
skipped false p = record p { changed = suc p.changed }

module _ {W V H : Type 0} (library : Library W V H) where
  -- The embedder of a collection, and the collection: a new one in a cluster that holds nothing.
  unfoldable pub collection :
      Option Dataset → List ServerStatus → Option Text → Act W (Embedder V × Collection)
  unfolding wanted_embedder other_embedder wrong_kind
  collection none replies name =
      if any (λ reply. not (reply.size == 0)) replies
      then raise (
          Error.user_error (
            codes "this cluster already holds vectors; to start over: vsearch cluster down --wipe"))
      else do
        embedder ← library.embedders (wanted_embedder name)
        give (
          embedder,
          record { embedder = embedder.name; dim = embedder.dim; passages = 0; sources = [] },
        )
  collection (some (documents built dim passages sources)) replies name =
      if other_embedder name built
      then raise (
          Error.user_error (
            codes "this cluster was built with the "
            ++ library.repr built
            ++ codes " embedder; every passage in it has to use the same one"))
      else do
        embedder ← library.embedders built
        give (
          embedder,
          record { embedder = built; dim = dim; passages = passages; sources = sources },
        )
  collection (some (glove limit dir)) replies name =
      raise (Error.user_error (wrong_kind (glove limit dir)))
  collection (some (memory embedder dim)) replies name =
      raise (Error.user_error (wrong_kind (memory embedder dim)))

  -- `read_passages`
  unfoldable pub read_passages : Rules → Options → Text → Text → Act W (List Passage)
  unfolding chunk_document passages_of
  read_passages rules options path source = do
    text ← library.read_text path
    chunks ← lift (
        chunk_document rules text options.chunk_chars options.overlap
          (any (text_eq (library.suffix path)) markdown_suffixes))
    give (passages_of source chunks)

  -- `ingest_passages`
  unfoldable pub ingest_passages : Embedder V → List Passage → Option Text → Act W ℕ
  unfolding embedding_text batches
  ingest_passages embedder [] namespace = give 0
  ingest_passages embedder (p ∷ passages) namespace = do
    let texts = map embedding_text (p ∷ passages)
    let vectors = concat (map embedder.embed_documents (batches (length texts) embed_batch texts))
    library.add vectors (p ∷ passages) namespace
    give (length (p ∷ passages))

  -- A file that is not known: its passages are stored, and the state of the cluster is written.
  unfoldable pub store_file : Rules → Options → Embedder V → Progress → Text → Text → Act W Progress
  unfolding read_passages ingest_passages with_file
  store_file rules options embedder p path digest = do
    passages ← read_passages rules options path (library.display_path path)
    count ← ingest_passages embedder passages options.namespace
    let p' = with_file library.display_path options p path digest count
    update (library.write p'.state)
    give p'

  -- A file, by what is known of it.
  unfoldable pub handle_file :
      Rules → Options → Embedder V → Progress → Text → Text → Option Source → Act W Progress
  unfolding store_file skipped
  handle_file rules options embedder p path digest none =
      store_file rules options embedder p path digest
  handle_file rules options embedder p path digest (some known) =
      give (skipped (text_eq known.sha256 digest) p)

  -- The body of the loop over the files.
  unfoldable pub ingest_file : Rules → Options → Embedder V → Progress → Text → Act W Progress
  unfolding source_of source_key handle_file
  ingest_file rules options embedder p path = do
    digest ← library.fingerprint path
    handle_file rules options embedder p path digest
        (source_of (source_key options.namespace path) p.dataset.sources)

  unfoldable pub ingest_loop : Rules → Options → Embedder V → List Text → Progress → Act W Progress
  unfolding ingest_file
  ingest_loop rules options embedder [] p = give p
  ingest_loop rules options embedder (path ∷ paths) p = do
    p' ← ingest_file rules options embedder p path
    ingest_loop rules options embedder paths p'

  -- The `except` clauses around the loop.
  unfoldable pub ingest_failed : Error → Act W Progress
  unfolding stops_ingest is_value_error
  ingest_failed e = raise (
      if stops_ingest e
      then Error.user_error (
          codes "ingest stopped: "
          ++ library.message e
          ++ codes ". Check `vsearch status`, then `vsearch repair`")
      else if is_value_error e
      then Error.user_error (library.message e)
      else e)

  -- What follows in `ingest_files` once the files are found.
  unfoldable pub ingest_found :
      Rules → Options → State → Embedder V → Collection → List Text → Act W IngestReport
  unfolding ingest_loop ingest_failed shard_of_namespace
  ingest_found rules options state embedder dataset [] =
      raise (Error.user_error (codes "found no .md, .markdown, .txt, or .rst files there"))
  ingest_found rules options state embedder dataset (path ∷ others) = do
    let start : Progress = record {
      state = state;
      dataset = dataset;
      added = 0;
      unchanged = 0;
      changed = 0;
    }
    p ← attempt (ingest_loop rules options embedder (path ∷ others) start) ingest_failed
    shard ← lift (shard_of_namespace options.namespace p.state)
    give (record { added = p.added; unchanged = p.unchanged; changed = p.changed; shard = shard })

  unfoldable pub ingest_files :
      Rules → Options → State → List ServerStatus → List Text → Act W IngestReport
  unfolding collection find_documents ingest_found
  ingest_files rules options state replies paths = do
    (embedder, dataset) ← collection state.dataset replies options.embedder_name
    files ← find_documents library.look paths
    ingest_found rules options state embedder dataset files
