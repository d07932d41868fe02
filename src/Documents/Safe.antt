-- ===== src/Documents/Safe.antt =====
-- What the ingest of vsearch/documents.py writes to cluster.json, its failures included.
use distributed_vector_searc.Prelude.{
  keep, not, ◌==◌, ◌++◌, ℕ, ◌≡◌, refl, List, [], ◌∷◌, map, Option, none, some, Error, ok, err,
  Bool-cases, inl, inr, subst, sym, any,
}
use distributed_vector_searc.Python.Text.{Text, codes}
use distributed_vector_searc.Actions.{◌>>=◌, lift, give, raise}
use distributed_vector_searc.Actions.Within.{
  Change, Within, >>-Within, >>=-Within, >>=-Within_ok, >>=-ok, attempt-Within,
}
use distributed_vector_searc.State.{State, Source, ServerStatus, Dataset, documents, glove, memory}
use distributed_vector_searc.Documents.Files.{missing, file, directory, is_document, find_documents}
use distributed_vector_searc.Documents.Ingest.{
  with_file, Library, Options, ingest_file, read_passages, store_file, ingest_passages, handle_file,
  ingest_loop, Progress, ingest_files, collection, ingest_failed, ingest_found, Collection,
  wanted_embedder, other_embedder,
}
use distributed_vector_searc.Documents.Counts.{
  total_passages, IsCounted, ingest_file-Grows, with_file-IsCounted,
}
use distributed_vector_searc.Chunking.Document.{Rules}
use distributed_vector_searc.Documents.{Passage, Embedder, source_of, source_key}
use distributed_vector_searc.Documents.Files.{find_all, Place}

-- What cluster.json says of a collection of documents is right.
abbrev pub IsRight : Option Dataset → Type 0
IsRight none = Unit
IsRight (some (documents embedder dim passages sources)) = passages ≡ total_passages sources
IsRight (some (glove limit dir)) = Unit
IsRight (some (memory embedder dim)) = Unit

-- A property of the world that everything but the writing of cluster.json keeps, and this too if
-- what is written is right.
pub record Kept {W V H : Type 0} (P : W → Type 0) (library : Library W V H) : Type 0 where
  pub look : (path : Text) (w : W) → P w → P (library.look path w).0
  pub fingerprint : (path : Text) (w : W) → P w → P (library.fingerprint path w).0
  pub read_text : (path : Text) (w : W) → P w → P (library.read_text path w).0
  pub embedders : (name : Text) (w : W) → P w → P (library.embedders name w).0
  pub add :
      (vectors : List V) (passages : List Passage) (namespace : Option Text) (w : W)
      → P w
      → P (library.add vectors passages namespace w).0
  pub write : (state : State) (w : W) → IsRight state.dataset → P w → P (library.write state w)

abbrev keeps : {W : Type 0} → (W → Type 0) → Change W
keeps P = record { rel = λ v w. P v → P w; same = λ w h. h; trans = λ u v w h k p. k (h p) }

module _ {W V H : Type 0} (P : W → Type 0) (library : Library W V H) (kept : Kept P library)
    (rules : Rules) (options : Options) where
  abbrev c : Change W
  c = keeps P

  find_all-Within : (paths : List Text) → Within c (find_all library.look paths)
  unfolding find_all
  find_all-Within [] = c.same
  find_all-Within (path ∷ paths) =
      >>=-Within c (library.look path) _ (kept.look path) (found (find_all-Within paths))
    where
      found :
          Within c (find_all library.look paths)
          → (place : Place)
          → Within c (elim place [
            | missing ↦ raise (Error.user_error (codes "no such file or directory: " ++ path))
            | file resolved ↦ do rest ← find_all library.look paths; give (resolved ∷ rest)
            | directory below ↦ do
              rest ← find_all library.look paths
              give (map (λ f. f.resolved) (keep is_document below) ++ rest)
          ])
      found rest missing = c.same
      found rest (file resolved) = >>=-Within c _ _ rest (λ others. c.same)
      found rest (directory below) = >>=-Within c _ _ rest (λ others. c.same)

  module _ (embedder : Embedder V) where
    passages-Within :
        (passages : List Passage)
        → Within c (ingest_passages library embedder passages options.namespace)
    unfolding ingest_passages
    passages-Within [] = c.same
    passages-Within (p ∷ passages) =
        >>-Within c _ _ (kept.add _ (p ∷ passages) options.namespace) c.same

    read-Within : (path source : Text) → Within c (read_passages library rules options path source)
    unfolding read_passages
    read-Within path source =
        >>=-Within c (library.read_text path) _ (kept.read_text path)
          (λ text. >>=-Within c (lift _) _ c.same (λ chunks. c.same))

    store-Within :
        (p : Progress) (path digest : Text)
        → source_of (source_key options.namespace path) p.dataset.sources ≡ none
        → IsCounted p.dataset
        → Within c (store_file library rules options embedder p path digest)
    unfolding store_file with_file
    store-Within p path digest e counted =
        >>=-Within c _ _ (read-Within path (library.display_path path)) (λ passages.
          >>=-Within c _ _ (passages-Within passages) (λ count.
            >>-Within c _ _
              (λ w.
                kept.write (with_file library.display_path options p path digest count).state w
                  (right p path digest count e counted))
              c.same))
      where
        right :
            (p : Progress) (path digest : Text) (count : ℕ)
            → source_of (source_key options.namespace path) p.dataset.sources ≡ none
            → IsCounted p.dataset
            → IsRight (with_file library.display_path options p path digest count).state.dataset
        right p path digest count e counted =
            with_file-IsCounted library.display_path options p path digest count e counted

    handle-Within :
        (p : Progress) (path digest : Text) (known : Option Source)
        → source_of (source_key options.namespace path) p.dataset.sources ≡ known
        → IsCounted p.dataset
        → Within c (handle_file library rules options embedder p path digest known)
    unfolding handle_file
    handle-Within p path digest none e counted = store-Within p path digest e counted
    handle-Within p path digest (some known) e counted = c.same

    file-Within :
        (p : Progress) (path : Text)
        → IsCounted p.dataset
        → Within c (ingest_file library rules options embedder p path)
    unfolding ingest_file
    file-Within p path counted =
        >>=-Within c (library.fingerprint path) _ (kept.fingerprint path)
          (λ digest. handle-Within p path digest _ refl counted)

    loop-Within :
        (paths : List Text) (p : Progress)
        → IsCounted p.dataset
        → Within c (ingest_loop library rules options embedder paths p)
    unfolding ingest_loop
    loop-Within [] p counted = c.same
    loop-Within (path ∷ paths) p counted =
        >>=-Within_ok c (ingest_file library rules options embedder p path) _
          (file-Within p path counted)
          (λ w q h.
            loop-Within paths q
              ((ingest_file-Grows library rules options embedder p path w q h).counted counted))

  collection-Counted :
      (dataset : Option Dataset) (replies : List ServerStatus) (name : Option Text) (w : W)
      (opened : Embedder V × Collection)
      → IsRight dataset
      → (collection library dataset replies name w).1 ≡ ok opened
      → IsCounted opened.1
  unfolding collection
  collection-Counted none replies name w opened right h =
      elim (Bool-cases (any (λ reply. not (reply.size == 0)) replies)) [
        | inl e ↦ absurd (refused _ (rw e at h))
        | inr e ↦
            let (embedder, got, h') =
              >>=-ok (library.embedders (wanted_embedder name)) _ w opened (rw e at h) in
            let same : opened ≡ (
              embedder,
              record { embedder = embedder.name; dim = embedder.dim; passages = 0; sources = [] },
            ) =
              cc in
            subst (λ (o : Embedder V × Collection). IsCounted o.1) (sym same) refl
      ]
    where
      refused : (e : Error) → err e ≡ ok opened → ⊥
      refused e k = cc
  collection-Counted (some (documents built dim passages sources)) replies name w opened right h =
      elim (Bool-cases (other_embedder name built)) [
        | inl e ↦ absurd (refused _ (rw e at h))
        | inr e ↦
            let (embedder, got, h') = >>=-ok (library.embedders built) _ w opened (rw e at h) in
            let same : opened ≡ (
              embedder,
              record { embedder = built; dim = dim; passages = passages; sources = sources },
            ) =
              cc in
            subst (λ (o : Embedder V × Collection). IsCounted o.1) (sym same) right
      ]
    where
      refused : (e : Error) → err e ≡ ok opened → ⊥
      refused e k = cc
  collection-Counted (some (glove limit dir)) replies name w opened right h = cc
  collection-Counted (some (memory embedder dim)) replies name w opened right h = cc

  collection-Within :
      (dataset : Option Dataset) (replies : List ServerStatus) (name : Option Text)
      → Within c (collection library dataset replies name)
  unfolding collection
  collection-Within none replies name =
      elim (Bool-cases (any (λ reply. not (reply.size == 0)) replies)) [
        | inl e ↦ rw e c.same
        | inr e ↦ rw e (>>=-Within c _ _ (kept.embedders (wanted_embedder name)) (λ e'. c.same))
      ]
  collection-Within (some (documents built dim passages sources)) replies name =
      elim (Bool-cases (other_embedder name built)) [
        | inl e ↦ rw e c.same
        | inr e ↦ rw e (>>=-Within c _ _ (kept.embedders built) (λ e'. c.same))
      ]
  collection-Within (some (glove limit dir)) replies name = c.same
  collection-Within (some (memory embedder dim)) replies name = c.same

  ingest_failed-Within : (e : Error) → Within c (ingest_failed library e)
  unfolding ingest_failed
  ingest_failed-Within e = c.same

  -- What follows once the files are known.
  files-Within :
      (embedder : Embedder V) (dataset : Collection) (state : State) (files : List Text)
      → IsCounted dataset
      → Within c (ingest_found library rules options state embedder dataset files)
  unfolding ingest_found
  files-Within embedder dataset state [] counted = c.same
  files-Within embedder dataset state (path ∷ others) counted =
      >>=-Within c _ _
        (attempt-Within c _ _ (loop-Within embedder (path ∷ others) _ counted) ingest_failed-Within)
        (λ p. >>=-Within c (lift _) _ c.same (λ shard. c.same))

  -- Let a property of the world be kept by every call but the writing of cluster.json, and by the
  -- writing of a state whose number of passages is the sum of those of its files. Then an ingest
  -- keeps it, from a state that is right in this way, for any paths, options and rules for lines,
  -- whether it returns or raises.
  pub ingest_files-kept :
      (state : State) (replies : List ServerStatus) (paths : List Text) (w : W)
      → IsRight state.dataset
      → P w
      → P (ingest_files library rules options state replies paths w).0
  unfolding ingest_files find_documents
  ingest_files-kept state replies paths w right =
      >>=-Within_ok c (collection library state.dataset replies options.embedder_name) _
        (collection-Within state.dataset replies options.embedder_name)
        (λ v opened h.
          >>=-Within c _ _ (>>=-Within c _ _ (find_all-Within paths) (λ found. c.same)) (λ files.
            files-Within opened.0 opened.1 state files
              (collection-Counted state.dataset replies options.embedder_name v opened right h)))
        w
