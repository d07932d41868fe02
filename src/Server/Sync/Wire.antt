-- ===== src/Server/Sync/Wire.antt =====
-- A write as `FetchLog` of vsearch/server.py sends it: blank payloads are left out of the message.
use distributed_vector_searc.Prelude.{
  ℕ, zero, suc, ◌+◌, ◌≡◌, refl, ap, sym, ◌∙◌, false, not, List, [], ◌∷◌, Option, none, some, ok,
  Bool-cases, Result-cases, inl, inr, any, length, length-replicate, replicate,
}
use distributed_vector_searc.Python.Text.{Text}
use distributed_vector_searc.Storage.Record.{
  Matrix, LogRecord, encode_record, record_body, optional_section, is_blank,
}
use distributed_vector_searc.Storage.Record.Payloads.{logged_payloads, blank_all, FitsCount}
use distributed_vector_searc.Storage.Log.{Entry, entry_record}
use distributed_vector_searc.Storage.Durable.{
  ShardOps, ShardLaws, DurableShard, apply_logged, after_write, in_order, add_batch,
}
use distributed_vector_searc.Server.{log_message, has_text}

any-has_text : (texts : List Text) → any (λ text. not (is_blank text)) texts ≡ any has_text texts
any-has_text [] = refl
any-has_text ([] ∷ texts) = any-has_text texts
any-has_text ((c ∷ text) ∷ texts) = refl

-- The bytes of a record depend on its payloads only by their section.
pub encode_record-section :
    (seq : ℕ) (ids : List ℕ) (vectors : Matrix) (p p' : Option (List Text))
    → optional_section p ≡ optional_section p'
    → encode_record seq ids vectors p ≡ encode_record seq ids vectors p'
unfolding encode_record
encode_record-section seq ids vectors p p' h = rw (same, encode_record) refl
  where
    same : record_body seq ids vectors p ≡ record_body seq ids vectors p'
    same = rw (h, record_body) refl

optional_section-blank :
    (texts : List Text) → any has_text texts ≡ false → optional_section (some texts) ≡ ok []
unfolding optional_section
optional_section-blank texts h = rw (any-has_text texts ∙ h) refl

blank-any : (n : ℕ) → any has_text (replicate n []) ≡ false
blank-any zero = refl
blank-any (suc n) = blank-any n

pub logged-section :
    (p : Option (List Text)) (n : ℕ)
    → optional_section (some (logged_payloads p n)) ≡ optional_section p
unfolding optional_section
logged-section none n = rw (any-has_text (replicate n []) ∙ blank-any n) refl
logged-section (some texts) n = refl

module _ {S : Type 0} (o : ShardOps S) (laws : ShardLaws o) where
  open laws use {add_blank, add_empty}

  apply_logged-payloads :
      (d : DurableShard S) (ids : List ℕ) (vectors : Matrix) (p p' : Option (List Text))
      (bytes : List ℕ)
      → o.add_batch d.shard ids vectors p ≡ o.add_batch d.shard ids vectors p'
      → apply_logged o d ids vectors p bytes ≡ apply_logged o d ids vectors p' bytes
  unfolding apply_logged
  apply_logged-payloads d ids vectors p p' bytes k =
      let results = ap (λ x. x.1) k in
      let shards = ap (λ x. x.0) k in
      elim (Result-cases (o.add_batch d.shard ids vectors p').1) [
        | inl (e, f) ↦ rw (results ∙ f, apply_logged) (rw (f, apply_logged) (rw shards refl))
        | inr (u, f) ↦ rw (results ∙ f, apply_logged) (rw (f, apply_logged) (rw shards refl))
      ]

  -- A write depends on its payloads by their section and by what the shard makes of them.
  add_batch-payloads :
      (d : DurableShard S) (ids : List ℕ) (vectors : Matrix) (p p' : Option (List Text))
      (seq : Option ℕ)
      → optional_section p ≡ optional_section p'
      → o.add_batch d.shard ids vectors p ≡ o.add_batch d.shard ids vectors p'
      → add_batch o d ids vectors p seq ≡ add_batch o d ids vectors p' seq
  unfolding add_batch
  add_batch-payloads d ids vectors p p' seq h k =
      let bytes = encode_record-section (d.last_seq + 1) ids vectors p p' h in
      elim (Bool-cases (in_order seq (d.last_seq + 1))) [
        | inr late ↦ rw late refl
        | inl next ↦ rw next (
            rw bytes (elim (Result-cases (encode_record (d.last_seq + 1) ids vectors p')) [
              | inl (e, failed) ↦ rw failed refl
              | inr (b, made) ↦
                  rw made (ap (after_write o) (apply_logged-payloads d ids vectors p p' b k))
            ]))
      ]

  blank-write :
      (s : S) (ids : List ℕ) (vectors : Matrix) (texts : List Text)
      → length texts ≡ length ids
      → any has_text texts ≡ false
      → o.add_batch s ids vectors (some []) ≡ o.add_batch s ids vectors (some texts)
  blank-write s ids vectors texts h k =
      add_empty s ids vectors
      ∙ add_blank s ids vectors
      ∙ ap (λ n. o.add_batch s ids vectors (some (replicate n []))) (sym h)
      ∙ ap (λ ts. o.add_batch s ids vectors (some ts)) (blank_all texts (any-has_text texts ∙ k))

  -- The message of a record is written as the record itself.
  pub add_batch-message :
      (d : DurableShard S) (r : LogRecord) (seq : Option ℕ)
      → length r.payloads ≡ length r.global_ids
      → add_batch o d r.global_ids r.vectors (some (log_message r).payloads) seq
        ≡ add_batch o d r.global_ids r.vectors (some r.payloads) seq
  unfolding log_message
  add_batch-message d r seq h = elim (Bool-cases (any has_text r.payloads)) [
    | inl full ↦ rw full refl
    | inr blank ↦ rw blank (
        add_batch-payloads d r.global_ids r.vectors (some []) (some r.payloads) seq
          (optional_section-blank [] refl ∙ sym (optional_section-blank r.payloads blank))
          (blank-write d.shard r.global_ids r.vectors r.payloads h blank))
  ]

pub length-entry_payloads :
    (e : Entry) → length (entry_record e).payloads ≡ length (entry_record e).global_ids
length-entry_payloads e = fits e.payloads e.writable.texts_fit ∙ sym e.writable.counted
  where
    fits :
        (p : Option (List Text))
        → FitsCount p (length e.vectors.rows)
        → length (logged_payloads p (length e.vectors.rows)) ≡ length e.vectors.rows
    fits none h = length-replicate (length e.vectors.rows) []
    fits (some texts) h = h
