-- ===== src/Documents/Counts.antt =====
-- The number of passages that cluster.json records, in the ingest of vsearch/documents.py.
use distributed_vector_searc.Prelude.{
  ℕ, ◌+◌, ◌≡◌, refl, Bool, true, false, List, [], ◌∷◌, Option, none, some, ok, arith, Bool-cases,
  inl, inr, subst, sym,
}
use distributed_vector_searc.Python.Text.{Text, text_eq}
use distributed_vector_searc.Actions.{◌>>◌}
use distributed_vector_searc.Actions.Within.{>>=-ok}
use distributed_vector_searc.State.{Source}
use distributed_vector_searc.Documents.Ingest.{
  with_file, Library, skipped, Collection, Progress, Options, store_file, ingest_file,
  read_passages, ingest_passages, ingest_loop, handle_file,
}
use distributed_vector_searc.Documents.{source_of, put_source, source_key, Embedder}
use distributed_vector_searc.Chunking.Document.{Rules}

abbrev pub total_passages : List (Text × Source) → ℕ
total_passages [] = 0
total_passages ((key, source) ∷ sources) = source.passages + total_passages sources

abbrev pub IsCounted : Collection → Type 0
IsCounted c = c.passages ≡ total_passages c.sources

put_source-total :
    (key : Text) (source : Source) (sources : List (Text × Source))
    → source_of key sources ≡ none
    → total_passages (put_source key source sources) ≡ total_passages sources + source.passages
unfolding source_of put_source
put_source-total key source [] h = omega arith
put_source-total key source ((k, old) ∷ sources) h = elim (Bool-cases (text_eq k key)) [
  | inl e ↦ absurd (found (rw e at h))
  | inr e ↦ rw e (omega (arith, put_source-total key source sources (rw e at h)))
]
  where
    found : some old ≡ none → ⊥
    found k = cc

pub with_file-IsCounted :
    (display_path : Text → Text) (options : Options) (p : Progress) (path digest : Text) (count : ℕ)
    → source_of (source_key options.namespace path) p.dataset.sources ≡ none
    → IsCounted p.dataset
    → IsCounted (with_file display_path options p path digest count).dataset
unfolding with_file
with_file-IsCounted display_path options p path digest count h c = omega (
  arith,
  c,
  put_source-total (source_key options.namespace path)
      (record {
        sha256 = digest;
        passages = count;
        namespace = options.namespace;
        source = display_path path;
      })
      p.dataset.sources h,
)

skipped-dataset : (same : Bool) (p : Progress) → (skipped same p).dataset ≡ p.dataset
unfolding skipped
skipped-dataset true p = refl
skipped-dataset false p = refl

module _ {W V H : Type 0} (library : Library W V H) (rules : Rules) (options : Options)
    (embedder : Embedder V) where
  -- What the variables are after a file that was not known.
  pub store_file-ok :
      (p : Progress) (path digest : Text) (w : W) (p' : Progress)
      → (store_file library rules options embedder p path digest w).1 ≡ ok p'
      → (count : ℕ) × (p' ≡ with_file library.display_path options p path digest count)
  unfolding store_file ◌>>◌
  store_file-ok p path digest w p' h =
      let (passages, read, h') =
        >>=-ok (read_passages library rules options path (library.display_path path)) _ w p' h in
      let (count, added, h'') =
        >>=-ok (ingest_passages library embedder passages options.namespace) _ _ p' h' in
      (count, cc)

  -- What the variables are after any file: `known` is what was known of it.
  abbrev pub Handled : Progress → Text → Text → Option Source → Progress → Type 0
  Handled p path digest none p' =
      (count : ℕ) × (p' ≡ with_file library.display_path options p path digest count)
  Handled p path digest (some known) p' = p' ≡ skipped (text_eq known.sha256 digest) p

  pub handle_file-ok :
      (p : Progress) (path digest : Text) (known : Option Source) (w : W) (p' : Progress)
      → (handle_file library rules options embedder p path digest known w).1 ≡ ok p'
      → Handled p path digest known p'
  unfolding handle_file
  handle_file-ok p path digest none w p' h = store_file-ok p path digest w p' h
  handle_file-ok p path digest (some known) w p' h = cc

  pub ingest_file-ok :
      (p : Progress) (path : Text) (w : W) (p' : Progress)
      → (ingest_file library rules options embedder p path w).1 ≡ ok p'
      → (digest : Text) × ((library.fingerprint path w).1 ≡ ok digest)
        × Handled p path digest (source_of (source_key options.namespace path) p.dataset.sources) p'
  unfolding ingest_file
  ingest_file-ok p path w p' h =
      let (digest, read, h') = >>=-ok (library.fingerprint path) _ w p' h in
      (digest, read, handle_file-ok p path digest _ _ p' h')

  -- The counts stay right, and the passages grow by what is reported as added.
  pub record Grows (p p' : Progress) : Type 0 where
    pub counted : IsCounted p.dataset → IsCounted p'.dataset
    pub added : p'.added + p.dataset.passages ≡ p.added + p'.dataset.passages

  skipped-Grows : (same : Bool) (p : Progress) → Grows p (skipped same p)
  unfolding skipped
  skipped-Grows true p = record { counted = λ c. c; added = refl }
  skipped-Grows false p = record { counted = λ c. c; added = refl }

  pub Handled-Grows :
      (p : Progress) (path digest : Text) (known : Option Source) (p' : Progress)
      → source_of (source_key options.namespace path) p.dataset.sources ≡ known
      → Handled p path digest known p'
      → Grows p p'
  unfolding with_file
  Handled-Grows p path digest none p' e (count, same) = subst (Grows p) (sym same) (record {
    counted = with_file-IsCounted library.display_path options p path digest count e;
    added = omega arith;
  })
  Handled-Grows p path digest (some known) p' e same =
      subst (Grows p) (sym same) (skipped-Grows (text_eq known.sha256 digest) p)

  pub ingest_file-Grows :
      (p : Progress) (path : Text) (w : W) (p' : Progress)
      → (ingest_file library rules options embedder p path w).1 ≡ ok p'
      → Grows p p'
  ingest_file-Grows p path w p' h =
      let (digest, read, done) = ingest_file-ok p path w p' h in
      Handled-Grows p path digest _ p' refl done

  ingest_loop-Grows :
      (paths : List Text) (p : Progress) (w : W) (p' : Progress)
      → (ingest_loop library rules options embedder paths p w).1 ≡ ok p'
      → Grows p p'
  unfolding ingest_loop
  ingest_loop-Grows [] p w p' h =
      let same : p ≡ p' = cc in subst (Grows p) same (record { counted = λ c. c; added = refl })
  ingest_loop-Grows (path ∷ paths) p w p' h =
      let (q, first, h') = >>=-ok (ingest_file library rules options embedder p path) _ w p' h in
      let one = ingest_file-Grows p path w q first in
      let rest = ingest_loop-Grows paths q _ p' h' in
      record {
        counted = λ c. rest.counted (one.counted c);
        added = omega (arith, one.added, rest.added);
      }
