-- ===== src/Storage/Snapshot/Restored.antt =====
-- A snapshot that is saved and loaded again, for the snapshots of vsearch/storage.py.
use distributed_vector_searc.Prelude.{
  All-append, ℕ, ◌+◌, ◌-◌, ◌≡◌, refl, ap, sym, ◌∙◌, List, [], ◌∷◌, ◌++◌, map, ok, ◌>>=◌, length,
  take, drop, concat, arith, >>=-eq-ok, append_assoc, length-append, drop_of_length, take_of_length,
  subst, append-nil, All, true, ◌==◌, false, Option, none, some,
}
use distributed_vector_searc.Python.Text.{Text}
use distributed_vector_searc.Storage.Snapshot.{
  save_snapshot, load_snapshot, decode_slices, slice, cumsum, encode_all, load_layers, fill_layer,
  layer_arrays, Snapshot, meta_of, ef_of,
}
use distributed_vector_searc.Python.Utf8.{decode, encode, decode-encode}
use distributed_vector_searc.Cluster.Shard.{Shard}
use distributed_vector_searc.Hnsw.{Layer, set_vectors, put_links, Space, Hnsw}
use distributed_vector_searc.Hnsw.Insert.Distinct.{IsDistinct}
use distributed_vector_searc.Filtering.Index.{new_index}

-- A part of a list, by the lengths of what stands before it and of itself.
slice_lem :
    {A : Type 0} (before part behind : List A) (start : ℕ)
    → length before ≡ start
    → slice (before ++ (part ++ behind)) start (start + length part) ≡ part
unfolding slice
slice_lem before part behind start h =
    let width : start + length part - start ≡ length part = omega arith in
    ap (λ n. take n (drop start (before ++ (part ++ behind)))) width
    ∙ ap (take (length part)) (drop_of_length start before (part ++ behind) h)
    ∙ take_of_length (length part) part behind refl

moved :
    {A : Type 0} (before part : List A) (start : ℕ)
    → length before ≡ start
    → length (before ++ part) ≡ start + length part
moved before part start h = omega (arith, length-append before part, h)

decode_slices-cumsum :
    (blob : List ℕ) (start next : ℕ) (lengths : List ℕ)
    → decode_slices blob (start ∷ cumsum next lengths) ≡ (do
      text ← decode (slice blob start next)
      rest ← decode_slices blob (cumsum next lengths)
      ok (text ∷ rest))
unfolding decode_slices cumsum
decode_slices-cumsum blob start next [] = refl
decode_slices-cumsum blob start next (n ∷ lengths) = refl

decode_slices_nil : (blob : List ℕ) (start : ℕ) → decode_slices blob (start ∷ []) ≡ ok []
unfolding decode_slices
decode_slices_nil blob start = refl

-- The decoding of the slices, when other bytes stand before.
decode_slices_lem :
    (before : List ℕ) (texts : List Text) (encoded : List (List ℕ)) (start : ℕ)
    → encode_all texts ≡ ok encoded
    → length before ≡ start
    → decode_slices (before ++ concat encoded) (cumsum start (map length encoded)) ≡ ok texts
unfolding encode_all cumsum
decode_slices_lem before [] encoded start e h =
    let none_left : encoded ≡ [] = cc in
    subst (λ es. decode_slices (before ++ concat es) (cumsum start (map length es)) ≡ ok [])
      (sym none_left) (decode_slices_nil _ start)
decode_slices_lem before (text ∷ texts) encoded start e h =
    let (bytes, first, e') = >>=-eq-ok (encode text) _ e in
    let (others, second, e'') = >>=-eq-ok (encode_all texts) _ e' in
    let shape : encoded ≡ bytes ∷ others = cc in
    let blob = before ++ (bytes ++ concat others) in
    let part =
      ap decode (slice_lem before bytes (concat others) start h) ∙ decode-encode text bytes first in
    let below =
      decode_slices_lem (before ++ bytes) texts others (start + length bytes) second
        (moved before bytes start h) in
    let rest : decode_slices blob (cumsum (start + length bytes) (map length others)) ≡ ok texts =
      subst (λ b. decode_slices b (cumsum (start + length bytes) (map length others)) ≡ ok texts)
        (append_assoc before bytes (concat others)) below in
    subst
      (λ es. decode_slices (before ++ concat es) (cumsum start (map length es)) ≡ ok (text ∷ texts))
      (sym shape)
      (decode_slices-cumsum blob start (start + length bytes) (map length others)
        ∙ rw (part, rest) refl)

put_links_new :
    (node : ℕ) (links : List ℕ) (layer : Layer)
    → All (λ e. (e.0 == node) ≡ false) layer
    → put_links node links layer ≡ layer ++ (node, links) ∷ []
unfolding put_links
put_links_new node links [] h = refl
put_links_new node links ((n, old) ∷ layer) h =
    rw h.0 (ap (◌∷◌ (n, old)) (put_links_new node links layer h.1))

-- No node of the second layer is in the first.
abbrev Apart : Layer → Layer → Type 0
Apart done layer = All (λ e. All (λ d. (d.0 == e.0) ≡ false) done) layer

Apart-snoc :
    (done layer : Layer) (node : ℕ) (links : List ℕ)
    → Apart done layer
    → All (λ e. (node == e.0) ≡ false) layer
    → Apart (done ++ (node, links) ∷ []) layer
Apart-snoc done [] node links h k = tt
Apart-snoc done (e ∷ layer) node links h k =
    (All-append _ done _ h.0 (k.0, tt), Apart-snoc done layer node links h.1 k.1)

Apart-nil : (layer : Layer) → Apart [] layer
Apart-nil [] = tt
Apart-nil (e ∷ layer) = (tt, Apart-nil layer)

fill_layer-cumsum :
    (neighbors nodes lengths : List ℕ) (node start next : ℕ) (layer : Layer)
    → fill_layer neighbors (node ∷ nodes) (start ∷ cumsum next lengths) layer
      ≡ fill_layer neighbors nodes
          (cumsum next lengths)
          (put_links node (slice neighbors start next) layer)
unfolding fill_layer cumsum
fill_layer-cumsum neighbors nodes [] node start next layer = refl
fill_layer-cumsum neighbors nodes (n ∷ lengths) node start next layer = refl

fill_layer_nil :
    (neighbors offsets : List ℕ) (layer : Layer) → fill_layer neighbors [] offsets layer ≡ ok layer
unfolding fill_layer
fill_layer_nil neighbors offsets layer = refl

fill_layer_lem :
    (before : List ℕ) (done layer : Layer) (start : ℕ)
    → length before ≡ start
    → Apart done layer
    → IsDistinct layer
    → fill_layer
        (before ++ concat (map (λ e. e.1) layer))
        (map (λ e. e.0) layer)
        (cumsum start (map (λ e. length e.1) layer))
        done
      ≡ ok (done ++ layer)
unfolding cumsum
fill_layer_lem before done [] start h apart distinct =
    fill_layer_nil _ _ done ∙ ap ok (sym (append-nil done))
fill_layer_lem before done ((node, links) ∷ layer) start h apart distinct =
    let neighbors = before ++ (links ++ concat (map (λ e. e.1) layer)) in
    let next = start + length links in
    let lengths = map (λ e. length e.1) layer in
    let put =
      ap (λ part. put_links node part done)
        (slice_lem before links (concat (map (λ e. e.1) layer)) start h)
      ∙ put_links_new node links done apart.0 in
    let below =
      fill_layer_lem (before ++ links) (done ++ (node, links) ∷ []) layer next
        (moved before links start h) (Apart-snoc done layer node links apart.1 distinct.0)
        distinct.1 in
    fill_layer-cumsum neighbors (map (λ e. e.0) layer) lengths node start next done
    ∙ ap (fill_layer neighbors (map (λ e. e.0) layer) (cumsum next lengths)) put
    ∙ ap
        (λ ns.
          fill_layer ns (map (λ e. e.0) layer) (cumsum next lengths) (done ++ (node, links) ∷ []))
        (sym (append_assoc before links (concat (map (λ e. e.1) layer))))
    ∙ below
    ∙ ap ok (append_assoc done ((node, links) ∷ []) layer)

load_layers_lem :
    (graph : List Layer) → All IsDistinct graph → load_layers (map layer_arrays graph) ≡ ok graph
unfolding load_layers layer_arrays
load_layers_lem [] h = refl
load_layers_lem (layer ∷ graph) h =
    let one = fill_layer_lem [] [] layer 0 refl (Apart-nil layer) h.0 in
    rw (one, load_layers_lem graph h.1) refl

-- The shard that a snapshot stands for: the index of its payloads is built again when it is needed, and the
-- array of the vectors has no spare rows.
unfoldable pub restored : {V R : Type 0} → Shard (Hnsw V R) → Shard (Hnsw V R)
restored s = record s {
  index = record (s.index) { capacity = length s.index.rows };
  payload_index = new_index;
}

set_vectors_lem :
    {V D R : Type 0} (space : Space V D) (index : Hnsw V R) (rows : List V)
    → set_vectors space index rows true ≡ record index { rows = rows; capacity = length rows }
unfolding set_vectors
set_vectors_lem space index [] = refl
set_vectors_lem space index (v ∷ rows) = refl

-- The same, with the `ef_search` that is asked for.
abbrev pub restored_with : {V R : Type 0} → Option ℕ → Shard (Hnsw V R) → Shard (Hnsw V R)
restored_with ef_search s = record s {
  index = record (s.index) {
    capacity = length s.index.rows;
    ef_search = ef_of s.index.ef_search ef_search;
  };
  payload_index = new_index;
}

pub load_snapshot-with :
    {V D R : Type 0} (space : Space V D) (s : Shard (Hnsw V R)) (last_seq : ℕ)
    (snapshot : Snapshot V R) (ef_search : Option ℕ)
    → All IsDistinct s.index.graph
    → save_snapshot s last_seq ≡ ok snapshot
    → load_snapshot space snapshot ef_search ≡ ok (restored_with ef_search s, last_seq)
unfolding save_snapshot load_snapshot
load_snapshot-with space s last_seq snapshot ef_search distinct e =
    let (encoded, done, e') = >>=-eq-ok (encode_all s.payloads) _ e in
    let same : snapshot ≡ record {
      vectors = s.index.rows;
      global_ids = s.global_ids;
      payloads = some (cumsum 0 (map length encoded), concat encoded);
      layers = map layer_arrays s.index.graph;
      meta = meta_of s.index last_seq;
    } =
      cc in
    rw same (
      rw
        (
          load_layers_lem s.index.graph distinct,
          decode_slices_lem [] s.payloads encoded 0 done refl,
          set_vectors_lem space _ s.index.rows,
        )
        refl)

-- If saving the snapshot of a shard with an HNSW index succeeds, and the nodes of each layer of its
-- graph are different, then loading it with the stored ef_search succeeds with the same sequence
-- number and the same shard: its vectors, graph, entry point, settings, state of the random
-- generator, ids and payloads. Only the spare rows of the array of vectors and the index of the
-- payloads, which is built again when it is needed, are not kept.
pub load_snapshot-save_snapshot :
    {V D R : Type 0} (space : Space V D) (s : Shard (Hnsw V R)) (last_seq : ℕ)
    (snapshot : Snapshot V R)
    → All IsDistinct s.index.graph
    → save_snapshot s last_seq ≡ ok snapshot
    → load_snapshot space snapshot none ≡ ok (restored s, last_seq)
unfolding restored
load_snapshot-save_snapshot space s last_seq snapshot distinct e =
    load_snapshot-with space s last_seq snapshot none distinct e
