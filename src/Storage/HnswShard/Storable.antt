-- ===== src/Storage/HnswShard/Storable.antt =====
-- The shard with its HNSW index, as the shard of a durable one: what `DurableShard` of vsearch/storage.py relies on.
use distributed_vector_searc.Prelude.{
  ℕ, zero, suc, ◌≡◌, refl, ap, subst, List, [], ◌∷◌, Option, Result, ok, err, length, Ord, map,
  replicate, none, some, All, All-append, Result-cases, inl, inr,
}
use distributed_vector_searc.Python.Text.{Text}
use distributed_vector_searc.Python.Utf8.{encode}
use distributed_vector_searc.Hnsw.{Hnsw, new_index}
use distributed_vector_searc.Hnsw.Insert.{insert}
use distributed_vector_searc.Hnsw.Insert.Distinct.{IsDistinct, insert-IsDistinct}
use distributed_vector_searc.Hnsw.Search.Allowed.{hnsw_ops}
use distributed_vector_searc.Cluster.Shard.{
  IndexOps, Shard, after_insert, add, add_loop, add_batch, texts_for, new_shard,
}
use distributed_vector_searc.Storage.Record.{Matrix}
use distributed_vector_searc.Storage.Snapshot.{Snapshot, save_snapshot, encode_all}
use distributed_vector_searc.Storage.Snapshot.Restored.{load_snapshot-with}
use distributed_vector_searc.Storage.Durable.{ShardLaws, CanEncode, DurableShard, open_shard}
use distributed_vector_searc.Storage.Durable.Crash.{IsRecoverable-Recovers}
use distributed_vector_searc.Storage.Durable.Runs.{Reachable, Reachable-IsRecoverable}
use distributed_vector_searc.Storage.HnswShard.{
  Machinery, HnswParams, fresh_index, hnsw_shard, snapshot_file, read_snapshot,
}
use distributed_vector_searc.Storage.HnswShard.Same.{loaded, add_batch-Alike}

-- A shard that `save_snapshot` can save: no layer has a node twice, and every payload can be encoded.
pub record IsStorable {V R : Type 0} (s : Shard (Hnsw V R)) : Type 0 where
  pub distinct : All IsDistinct s.index.graph
  pub encodable : CanEncode (some s.payloads)

blanks-CanEncode : (n : ℕ) → CanEncode (some (replicate n []))
unfolding encode
blanks-CanEncode zero = tt
blanks-CanEncode (suc n) = (([], refl), blanks-CanEncode n)

texts_for-CanEncode :
    (payloads : Option (List Text)) (ids : List ℕ)
    → CanEncode payloads
    → CanEncode (some (texts_for payloads ids))
unfolding texts_for
texts_for-CanEncode none ids h = blanks-CanEncode (length ids)
texts_for-CanEncode (some []) ids h = blanks-CanEncode (length ids)
texts_for-CanEncode (some (text ∷ texts)) ids h = h

encode_all-ok :
    (texts : List Text)
    → CanEncode (some texts)
    → (encoded : List (List ℕ)) × (encode_all texts ≡ ok encoded)
unfolding encode_all
encode_all-ok [] h = ([], refl)
encode_all-ok (text ∷ texts) ((bytes, e), h) =
    let (others, rest) = encode_all-ok texts h in (bytes ∷ others, rw (e, rest) refl)

save_snapshot-ok :
    {V R : Type 0} (s : Shard (Hnsw V R)) (last_seq : ℕ) (encoded : List (List ℕ))
    → encode_all s.payloads ≡ ok encoded
    → (arrays : Snapshot V R) × (save_snapshot s last_seq ≡ ok arrays)
unfolding save_snapshot
save_snapshot-ok s last_seq encoded e = elim (Result-cases (save_snapshot s last_seq)) [
  | inl (raised, failed) ↦ let h = rw (e, save_snapshot) at failed in cc
  | inr found ↦ found
]

module _ {V D R : Type 0} ⦃o : Ord D⦄ (m : Machinery V D R) (params : HnswParams R) where
  after_insert-IsStorable :
      (s : Shard (Hnsw V R)) (global_id : ℕ) (text : Text) (p : Hnsw V R × Result (Unit {0}))
      → IsStorable s
      → All IsDistinct p.0.graph
      → (bytes : List ℕ) × (encode text ≡ ok bytes)
      → IsStorable (after_insert global_id text s p).0
  unfolding after_insert
  after_insert-IsStorable s global_id text (h, err e) w g t = record {
    distinct = g;
    encodable = w.encodable;
  }
  after_insert-IsStorable s global_id text (h, ok _) w g t = record {
    distinct = g;
    encodable =
        All-append (λ x. (bytes : List ℕ) × (encode x ≡ ok bytes)) s.payloads (text ∷ [])
          w.encodable (t, tt);
  }

  add_loop-IsStorable :
      (ids : List ℕ) (vectors : List V) (texts : List Text) (s : Shard (Hnsw V R))
      → IsStorable s
      → CanEncode (some texts)
      → IsStorable
          (add_loop
            (hnsw_ops m.space m.heap m.draw (fresh_index m params))
            m.loads
            ids
            vectors
            texts
            s).0
  unfolding add_loop add
  add_loop-IsStorable [] vectors texts s w t = w
  add_loop-IsStorable (id ∷ ids) [] texts s w t = w
  add_loop-IsStorable (id ∷ ids) (v ∷ vectors) [] s w t = w
  add_loop-IsStorable (id ∷ ids) (v ∷ vectors) (text ∷ texts) s w t =
      let put = insert m.space m.heap m.draw s.index v in
      next (after_insert id text s put) (λ s' w'. add_loop-IsStorable ids vectors texts s' w' t.1)
        (after_insert-IsStorable s id text put w
          (insert-IsDistinct m.space m.heap m.draw s.index v w.distinct) t.0)
    where
      ops : IndexOps (Hnsw V R) V D
      ops = hnsw_ops m.space m.heap m.draw (fresh_index m params)

      next :
          (p : Shard (Hnsw V R) × Result (Unit {0}))
          → ((s' : Shard (Hnsw V R))
              → IsStorable s'
              → IsStorable (add_loop ops m.loads ids vectors texts s').0)
          → IsStorable p.0
          → IsStorable (
              let q : Shard (Hnsw V R) × Result (Unit {0}) = elim p.1 [
                | err e ↦ (p.0, err e)
                | ok _ ↦ add_loop ops m.loads ids vectors texts p.0
              ] in
              q.0)
      next (s, err e) rest h = h
      next (s, ok _) rest h = rest s h

  add_batch-IsStorable :
      (s : Shard (Hnsw V R)) (ids : List ℕ) (vectors : Matrix) (payloads : Option (List Text))
      → IsStorable s
      → CanEncode payloads
      → IsStorable ((hnsw_shard m params).add_batch s ids vectors payloads).0
  unfolding add_batch
  add_batch-IsStorable s ids vectors payloads w t =
      add_loop-IsStorable ids (map m.vector vectors.rows) (texts_for payloads ids) s w
        (texts_for-CanEncode payloads ids t)

  add_batch_blank :
      (s : Shard (Hnsw V R)) (ids : List ℕ) (vectors : Matrix)
      → (hnsw_shard m params).add_batch s ids vectors none
        ≡ (hnsw_shard m params).add_batch s ids vectors (some (replicate (length ids) []))
  unfolding add_batch texts_for
  add_batch_blank s [] vectors = refl
  add_batch_blank s (id ∷ ids) vectors = refl

  add_batch_empty :
      (s : Shard (Hnsw V R)) (ids : List ℕ) (vectors : Matrix)
      → (hnsw_shard m params).add_batch s ids vectors (some [])
        ≡ (hnsw_shard m params).add_batch s ids vectors none
  unfolding add_batch texts_for
  add_batch_empty s ids vectors = refl

  load-save :
      (s : Shard (Hnsw V R)) (last_seq : ℕ)
      → IsStorable s
      → read_snapshot m params (snapshot_file m params s last_seq)
        ≡ ok (loaded params.ef_search s, last_seq)
  unfolding snapshot_file read_snapshot
  load-save s last_seq w =
      let (encoded, e) = encode_all-ok s.payloads w.encodable in
      let (arrays, saved) = save_snapshot-ok s last_seq encoded e in
      rw (saved, snapshot_file)
        (rw (m.file.read_savez arrays, read_snapshot)
          (load_snapshot-with m.space s last_seq arrays (some params.ef_search) w.distinct saved))

  new_shard-IsStorable : IsStorable (hnsw_shard m params).new
  unfolding new_shard fresh_index new_index
  new_shard-IsStorable = record { distinct = tt; encodable = tt }

  loaded-IsStorable :
      (s t : Shard (Hnsw V R))
      → loaded params.ef_search s ≡ loaded params.ef_search t
      → IsStorable s
      → IsStorable t
  loaded-IsStorable s t e w = record {
    distinct = subst (All IsDistinct) (ap (λ x. x.index.graph) e) w.distinct;
    encodable = subst (λ texts. CanEncode (some texts)) (ap (λ x. x.payloads) e) w.encodable;
  }

  pub hnsw_shard-ShardLaws : ShardLaws (hnsw_shard m params)
  hnsw_shard-ShardLaws = record {
    IsStorable = IsStorable;
    restore = loaded params.ef_search;
    new_storable = new_shard-IsStorable;
    same_storable = loaded-IsStorable;
    add_storable = add_batch-IsStorable;
    load_save = load-save;
    restore_twice = λ s. refl;
    add_shard =
        λ s t ids vectors payloads e. (add_batch-Alike m params s t ids vectors payloads e).0;
    add_result =
        λ s t ids vectors payloads e. (add_batch-Alike m params s t ids vectors payloads e).1;
    add_blank = add_batch_blank;
    add_empty = add_batch_empty;
  }

  -- Take a durable shard with an HNSW index that was created in an empty directory and went through
  -- any writes that returned, checkpoints, snapshots given to and taken from such shards, restarts,
  -- and crashes with a restart during writes that the shard would have accepted. Then opening its
  -- directory again returns without error, with the same last sequence number and the same shard,
  -- up to the spare rows of its array of vectors, ef_search, and the index of the payloads, which
  -- is built again when it is needed. A snapshot file is assumed to be read back as the arrays that
  -- were written, and each written batch to fit a record.
  pub hnsw_shard-reopened :
      (d : DurableShard (Shard (Hnsw V R)))
      → Reachable (hnsw_shard m params) d
      → (opened : DurableShard (Shard (Hnsw V R))) × (open_shard
            (hnsw_shard m params)
            d.snapshot_every
            d.disk
          ≡ ok opened)
        × (opened.last_seq ≡ d.last_seq)
        × (loaded params.ef_search opened.shard ≡ loaded params.ef_search d.shard)
  unfolding hnsw_shard-ShardLaws
  hnsw_shard-reopened d r =
      let laws = hnsw_shard-ShardLaws in
      let inv = Reachable-IsRecoverable (hnsw_shard m params) laws r in
      let found = IsRecoverable-Recovers (hnsw_shard m params) laws d inv in
      (found.opened, found.opens, found.opened_seq, found.opened_shard)
