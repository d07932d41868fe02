-- ===== src/Documents/Tests.antt =====
-- An ingest of two small files. The world is the list of the states that were written.
use distributed_vector_searc.Prelude.{
  ℕ, ◌≡◌, refl, false, List, [], ◌∷◌, ◌++◌, map, none, some, ok, length, All,
}
use distributed_vector_searc.Python.Text.{Text, codes}
use distributed_vector_searc.Python.Json.{end}
use distributed_vector_searc.Actions.{◌>>=◌, ◌>>◌, attempt}
use distributed_vector_searc.Chunking.Document.{Rules}
use distributed_vector_searc.State.{State, Source}
use distributed_vector_searc.Documents.{Embedder}
use distributed_vector_searc.Documents.Files.{file}
use distributed_vector_searc.Documents.Ingest.{
  Library, Options, Progress, Collection, dataset_of, ingest_loop, ingest_files,
}
use distributed_vector_searc.Documents.Safe.{Kept, IsRight, ingest_files-kept}
use distributed_vector_searc.Documents.Again.{ingest_loop-again}

abbrev rules : Rules
rules = record {
  fence = λ line. none;
  heading = λ line. none;
  is_structured = λ line. false;
  sentences = λ text. text ∷ [];
  strip = λ text. text;
  rstrip = λ text. text;
  splitlines = λ text. text ∷ [];
}

abbrev embedder : Embedder ℕ
embedder = record {
  name = codes "small";
  dim = 1;
  embed_documents = map length;
  embed_query = length;
}

abbrev library : Library (List State) ℕ ℕ
library = record {
  look = λ path w. (w, ok (file path));
  fingerprint = λ path w. (w, ok path);
  read_text = λ path w. (w, ok (codes "text of " ++ path));
  suffix = λ path. codes ".txt";
  display_path = λ path. path;
  embedders = λ name w. (w, ok embedder);
  add = λ vectors passages namespace w. (w, ok tt);
  search_hits = λ v k where_filter namespace w. (w, ok ([], 0));
  write = λ state w. state ∷ w;
  message = λ e. [];
  repr = λ text. text;
}

abbrev options : Options
options = record { embedder_name = none; namespace = none; chunk_chars = 10; overlap = 2 }

abbrev empty : State
empty = record {
  seed = some 42;
  server_args = end;
  servers = [] ∷ [];
  dataset = none;
  managed_by = none;
}

abbrev paths : List Text
paths = codes "a.txt" ∷ codes "b.txt" ∷ []

abbrev start : Progress
start = record {
  state = empty;
  dataset = record { embedder = codes "small"; dim = 1; passages = 0; sources = [] };
  added = 0;
  unchanged = 0;
  changed = 0;
}

abbrev one_file : Text → Text × Source
one_file path = (path, record { sha256 = path; passages = 2; namespace = none; source = path })

abbrev both : Collection
both = record {
  embedder = codes "small";
  dim = 1;
  passages = 4;
  sources = one_file (codes "a.txt") ∷ one_file (codes "b.txt") ∷ [];
}

abbrev done : Progress
done = record {
  state = record empty { dataset = some (dataset_of both) };
  dataset = both;
  added = 4;
  unchanged = 0;
  changed = 0;
}

ingest_loop_run : (ingest_loop library rules options embedder paths start []).1 ≡ ok done
unfolding ingest_loop ◌>>=◌ ◌>>◌
ingest_loop_run = refl

ingest_files_run :
    (ingest_files library rules options empty [] paths []).1
    ≡ ok (record { added = 4; unchanged = 0; changed = 0; shard = none })
unfolding ingest_files ◌>>=◌ ◌>>◌ attempt
ingest_files_run = refl

ingest_loop-again_example :
    ingest_loop library rules options embedder paths done []
    ≡ ([], ok (record done { unchanged = 2 }))
ingest_loop-again_example =
    ingest_loop-again library rules options embedder (λ path. path) (λ path w. refl) paths start []
      done done [] ingest_loop_run refl refl

-- All states that were written are right.
abbrev AllRight : List State → Type 0
AllRight states = All (λ s. IsRight s.dataset) states

abbrev kept : Kept AllRight library
kept = record {
  look = λ path w h. h;
  fingerprint = λ path w h. h;
  read_text = λ path w h. h;
  embedders = λ name w h. h;
  add = λ vectors passages namespace w h. h;
  write = λ state w right h. (right, h);
}

ingest_files-kept_example : AllRight (ingest_files library rules options empty [] paths []).0
ingest_files-kept_example =
    ingest_files-kept AllRight library kept rules options empty [] paths [] tt tt
