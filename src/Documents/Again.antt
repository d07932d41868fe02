-- ===== src/Documents/Again.antt =====
-- A second ingest of files that are in already, for `ingest_files` of vsearch/documents.py.
use distributed_vector_searc.Prelude.{
  false, ◌⊎◌, ◌≤◌, ◌<◌, suc, ◌+◌, ◌≡◌, refl, ap, sym, ◌∙◌, true, List, [], ◌∷◌, none, some, ok,
  length, arith, All, Bool-cases, inl, inr, subst, Bool, Option,
}
use distributed_vector_searc.Python.Text.{Text, text_eq, text_eq_refl, text_eq→eq}
use distributed_vector_searc.Actions.{◌>>=◌, after}
use distributed_vector_searc.State.{Source}
use distributed_vector_searc.Documents.Ingest.{
  Library, Options, ingest_loop, ingest_file, Progress, handle_file, skipped, Collection, with_file,
}
use distributed_vector_searc.Documents.{source_of, put_source, Embedder, source_key}
use distributed_vector_searc.Chunking.Document.{Rules}
use distributed_vector_searc.Documents.Counts.{ingest_file-ok, Handled}
use distributed_vector_searc.Actions.Within.{>>=-ok}

put_source-found :
    (key : Text) (source : Source) (sources : List (Text × Source))
    → source_of key (put_source key source sources) ≡ some source
unfolding source_of put_source
put_source-found key source [] = ground (arith, text_eq_refl key)
put_source-found key source ((k, old) ∷ sources) = elim (Bool-cases (text_eq k key)) [
  | inl e ↦ rw (e, put_source) (rw e refl)
  | inr e ↦ rw (e, put_source) (rw e (put_source-found key source sources))
]

-- What was known stays known when another key is put.
put_source-kept :
    (key other : Text) (source known : Source) (sources : List (Text × Source))
    → source_of key sources ≡ none
    → source_of other sources ≡ some known
    → source_of other (put_source key source sources) ≡ some known
unfolding source_of put_source
put_source-kept key other source known [] h e = cc
put_source-kept key other source known ((k, old) ∷ sources) h e =
    elim (Bool-cases (text_eq k key)) [
      | inl a ↦ absurd (found old (rw a at h))
      | inr a ↦ elim (Bool-cases (text_eq k other)) [
        | inl b ↦ rw (a, put_source) (rw b (rw b at e))
        | inr b ↦
            rw (a, put_source)
              (rw b (put_source-kept key other source known sources (rw a at h) (rw b at e)))
      ]
    ]
  where
    found : (s : Source) → some s ≡ none → ⊥
    found s k = cc

module _ {W V H : Type 0} (library : Library W V H) (rules : Rules) (options : Options)
    (embedder : Embedder V) (digest_of : Text → Text)
    (steady : (path : Text) (w : W) → library.fingerprint path w ≡ (w, ok (digest_of path))) where
  -- A file is in, with the contents that it has.
  abbrev pub IsIn : List (Text × Source) → Text → Type 0
  IsIn sources path =
      (known : Source) × (source_of (source_key options.namespace path) sources ≡ some known)
      × (known.sha256 ≡ digest_of path)

  digest-steady :
      (path digest : Text) (w : W)
      → (library.fingerprint path w).1 ≡ ok digest
      → digest ≡ digest_of path
  digest-steady path digest w h = let known = ap (λ r. r.1) (steady path w) in cc

  -- A file that is in is left alone.
  known_again :
      (p : Progress) (path : Text) (w : W)
      → IsIn p.dataset.sources path
      → ingest_file library rules options embedder p path w
        ≡ (w, ok (record p { unchanged = suc p.unchanged }))
  unfolding ingest_file handle_file skipped ◌>>=◌
  known_again p path w (known, e, same) =
      let equal : text_eq known.sha256 (digest_of path) ≡ true =
        subst (λ d. text_eq d (digest_of path) ≡ true) (sym same) (text_eq_refl (digest_of path)) in
      rw (steady path w) (rw (e, equal) refl)

  pub all_again :
      (paths : List Text) (p : Progress) (w : W)
      → All (IsIn p.dataset.sources) paths
      → ingest_loop library rules options embedder paths p w
        ≡ (w, ok (record p { unchanged = p.unchanged + length paths }))
  unfolding ingest_loop ◌>>=◌
  all_again [] p w h =
      let same : p.unchanged ≡ p.unchanged + 0 = omega arith in
      ap (λ n. (w, ok (record p { unchanged = n }))) same
  all_again (path ∷ paths) p w h =
      let more : suc p.unchanged + length paths ≡ p.unchanged + suc (length paths) = omega arith in
      ap (λ r. after r (ingest_loop library rules options embedder paths))
        (known_again p path w h.0)
      ∙ all_again paths (record p { unchanged = suc p.unchanged }) w h.1
      ∙ ap (λ n. (w, ok (record p { unchanged = n }))) more

  -- What a file does to what is in: files stay in, and it is in afterwards or counted as changed.
  record Step (p p' : Progress) (path : Text) : Type 0 where
    pub kept : (other : Text) → IsIn p.dataset.sources other → IsIn p'.dataset.sources other
    pub grows : p.changed ≤ p'.changed
    pub done : (IsIn p'.dataset.sources path) ⊎ (p.changed < p'.changed)

  skipped-Step :
      (p : Progress) (path : Text) (known : Source) (same : Bool)
      → source_of (source_key options.namespace path) p.dataset.sources ≡ some known
      → text_eq known.sha256 (digest_of path) ≡ same
      → Step p (skipped same p) path
  unfolding skipped
  skipped-Step p path known true e h = record {
    kept = λ other i. i;
    grows = omega arith;
    done = inl (known, e, text_eq→eq known.sha256 (digest_of path) h);
  }
  skipped-Step p path known false e h = record {
    kept = λ other i. i;
    grows = omega arith;
    done = inr (omega arith);
  }

  Handled-Step :
      (p : Progress) (path digest : Text) (known : Option Source) (p' : Progress)
      → digest ≡ digest_of path
      → source_of (source_key options.namespace path) p.dataset.sources ≡ known
      → Handled library rules options embedder p path digest known p'
      → Step p p' path
  unfolding with_file
  Handled-Step p path digest none p' d e (count, same) =
      subst (λ q. Step p q path) (sym same)
        (record {
          kept = λ other i. (i.0, put_source-kept _ _ _ i.0 p.dataset.sources e i.1, i.2);
          grows = omega arith;
          done = inl (_, put_source-found _ _ p.dataset.sources, d);
        })
  Handled-Step p path digest (some known) p' d e same =
      subst (λ q. Step p q path) (sym (same ∙ ap (λ t. skipped (text_eq known.sha256 t) p) d))
        (skipped-Step p path known _ e refl)

  file-Step :
      (p : Progress) (path : Text) (w : W) (p' : Progress)
      → (ingest_file library rules options embedder p path w).1 ≡ ok p'
      → Step p p' path
  file-Step p path w p' h =
      let (digest, read, handled) = ingest_file-ok library rules options embedder p path w p' h in
      Handled-Step p path digest _ p' (digest-steady path digest w read) refl handled

  -- The same for the loop.
  record Steps (p p' : Progress) (paths : List Text) : Type 0 where
    pub kept : (other : Text) → IsIn p.dataset.sources other → IsIn p'.dataset.sources other
    pub grows : p.changed ≤ p'.changed
    pub done : (All (IsIn p'.dataset.sources) paths) ⊎ (p.changed < p'.changed)

  loop-Steps :
      (paths : List Text) (p : Progress) (w : W) (p' : Progress)
      → (ingest_loop library rules options embedder paths p w).1 ≡ ok p'
      → Steps p p' paths
  unfolding ingest_loop
  loop-Steps [] p w p' h =
      let same : p ≡ p' = cc in
      subst (λ q. Steps p q []) same
        (record { kept = λ other i. i; grows = omega arith; done = inl tt })
  loop-Steps (path ∷ paths) p w p' h =
      let (q, first, h') = >>=-ok (ingest_file library rules options embedder p path) _ w p' h in
      let one = file-Step p path w q first in
      let rest = loop-Steps paths q _ p' h' in
      record {
        kept = λ other i. rest.kept other (one.kept other i);
        grows = omega (arith, one.grows, rest.grows);
        done = elim one.done [
          | inr more ↦ inr (omega (arith, more, rest.grows))
          | inl here ↦ elim rest.done [
            | inr more ↦ inr (omega (arith, more, one.grows))
            | inl there ↦ inl (rest.kept path here, there)
          ]
        ];
      }

  -- Let the files keep their contents, and let reading a fingerprint change nothing. If the loop
  -- over the files of an ingest returns and reports none as changed, then the loop over the same
  -- files with the collection that it left, from any counts and in any world, returns and leaves
  -- the world as it is: it stores nothing, and counts every file as unchanged.
  pub ingest_loop-again :
      (paths : List Text) (p : Progress) (w : W) (p' q : Progress) (v : W)
      → (ingest_loop library rules options embedder paths p w).1 ≡ ok p'
      → p'.changed ≡ p.changed
      → q.dataset ≡ p'.dataset
      → ingest_loop library rules options embedder paths q v
        ≡ (v, ok (record q { unchanged = q.unchanged + length paths }))
  ingest_loop-again paths p w p' q v h none_changed same =
      all_again paths q v (elim (loop-Steps paths p w p' h).done [
        | inl all ↦ subst (λ (d : Collection). All (IsIn d.sources) paths) (sym same) all
        | inr more ↦ absurd (omega (arith, more, none_changed))
      ])
