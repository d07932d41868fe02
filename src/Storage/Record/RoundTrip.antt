-- ===== src/Storage/Record/RoundTrip.antt =====
-- A record that `append` wrote reads back as it was written.
use distributed_vector_searc.Prelude.{
  ℕ, ◌+◌, ◌*◌, ◌<◌, ◌≤◌, ◌^◌, ◌≡◌, refl, ap, ap₂, sym, ◌∙◌, false, List, [], ◌∷◌, ◌++◌, Option,
  some, arith, ok, >>=-eq-ok, ltb, length, length-append, take, drop, take_of_length,
  drop_of_length, drop-drop, concat, All, subst,
}
use distributed_vector_searc.Python.Text.{Text}
use distributed_vector_searc.Python.Struct.{
  le_number, pack, to_bytes, from_buffer, from_buffer-to_bytes, length-to_bytes,
}
use distributed_vector_searc.Storage.Record.{
  Matrix, LogRecord, optional_section, record_body, split_rows, parse_payloads, parse_body,
}
use distributed_vector_searc.Storage.Record.Payloads.{
  Packed, pack-Packed, logged_payloads, FitsCount, parse_payloads-section,
}

-- A batch that fits the record: an id of 64 bits for each vector, `dim` float32 values for each, and
-- a payload for each if there are payloads.
pub record IsWritable (global_ids : List ℕ) (vectors : Matrix) (payloads : Option (List Text))
    : Type 0 where
  pub counted : length global_ids ≡ length vectors.rows
  pub ids_fit : All (λ id. id < 256 ^ 8) global_ids
  pub shaped : All (λ row. length row ≡ vectors.dim) vectors.rows
  pub values_fit : All (λ value. value < 256 ^ 4) (concat vectors.rows)
  pub texts_fit : FitsCount payloads (length vectors.rows)

-- The record that the log then holds.
abbrev pub logged : ℕ → List ℕ → Matrix → Option (List Text) → LogRecord
logged seq global_ids vectors payloads = record {
  seq = seq;
  global_ids = global_ids;
  vectors = vectors;
  payloads = logged_payloads payloads (length vectors.rows);
}

length-concat :
    (rows : List (List ℕ)) (dim : ℕ)
    → All (λ row. length row ≡ dim) rows
    → length (concat rows) ≡ length rows * dim
length-concat [] dim h = omega arith
length-concat (row ∷ rows) dim h =
    omega (arith, length-append row (concat rows), h.0, length-concat rows dim h.1)

split_rows-concat :
    (rows : List (List ℕ)) (dim : ℕ)
    → All (λ row. length row ≡ dim) rows
    → split_rows (length rows) dim (concat rows) ≡ rows
unfolding split_rows
split_rows-concat [] dim h = refl
split_rows-concat (row ∷ rows) dim h = ap₂ ◌∷◌ (take_of_length dim row (concat rows) h.0) (
    ap (split_rows (length rows) dim) (drop_of_length dim row (concat rows) h.0)
    ∙ split_rows-concat rows dim h.1)

-- The parts of a body, and where each is found.
pub record Body (seq : ℕ) (global_ids : List ℕ) (vectors : Matrix) (section body : List ℕ)
    : Type 0 where
  pub seq_at : le_number (take 8 body) ≡ seq
  pub count_at : le_number (take 4 (drop 8 body)) ≡ length vectors.rows
  pub dim_at : le_number (take 4 (drop 12 body)) ≡ vectors.dim
  pub ids_at : drop 16 body ≡ to_bytes 8 global_ids ++ (to_bytes 4 (concat vectors.rows) ++ section)
  pub size :
      length body ≡ 16 + length global_ids * 8 + length (concat vectors.rows) * 4 + length section
  pub long : 16 ≤ length body

Body-parts :
    (seq : ℕ) (global_ids : List ℕ) (vectors : Matrix) (section a b c : List ℕ)
    → Packed 8 seq a
    → Packed 4 (length vectors.rows) b
    → Packed 4 vectors.dim c
    → Body seq global_ids vectors section (
        a ++ (b ++ (c ++ (to_bytes 8 global_ids ++ (to_bytes 4 (concat vectors.rows) ++ section)))))
Body-parts seq global_ids vectors section a b c p q r =
    let ids = to_bytes 8 global_ids in
    let values = to_bytes 4 (concat vectors.rows) in
    let tail = ids ++ (values ++ section) in
    let body = a ++ (b ++ (c ++ tail)) in
    let after_seq : drop 8 body ≡ b ++ (c ++ tail) = p.behind (b ++ (c ++ tail)) in
    let after_count : drop 12 body ≡ c ++ tail =
      sym (drop-drop 8 4 body) ∙ ap (drop 4) after_seq ∙ q.behind (c ++ tail) in
    record {
      seq_at = ap le_number (p.front (b ++ (c ++ tail))) ∙ p.number;
      count_at =
          ap (λ i. le_number (take 4 i)) after_seq ∙ ap le_number (q.front (c ++ tail)) ∙ q.number;
      dim_at = ap (λ i. le_number (take 4 i)) after_count ∙ ap le_number (r.front tail) ∙ r.number;
      ids_at = sym (drop-drop 12 4 body) ∙ ap (drop 4) after_count ∙ r.behind tail;
      size = omega (
        arith,
        p.size,
        q.size,
        r.size,
        length-append a (b ++ (c ++ tail)),
        length-append b (c ++ tail),
        length-append c tail,
        length-append ids (values ++ section),
        length-append values section,
        length-to_bytes 8 global_ids,
        length-to_bytes 4 (concat vectors.rows),
      );
      long = omega (
        arith,
        p.size,
        q.size,
        r.size,
        length-append a (b ++ (c ++ tail)),
        length-append b (c ++ tail),
        length-append c tail,
        length-append ids (values ++ section),
        length-append values section,
        length-to_bytes 8 global_ids,
        length-to_bytes 4 (concat vectors.rows),
      );
    }

parse_body_at :
    (body : List ℕ) (payloads : List Text)
    → ltb (length body) (
        16
        + 8 * le_number (take 4 (drop 8 body))
        + 4 * le_number (take 4 (drop 8 body)) * le_number (take 4 (drop 12 body)))
      ≡ false
    → parse_payloads
        (drop
          (16
            + 8 * le_number (take 4 (drop 8 body))
            + 4 * le_number (take 4 (drop 8 body)) * le_number (take 4 (drop 12 body)))
          body)
        (le_number (take 4 (drop 8 body)))
      ≡ ok (some payloads)
    → parse_body body
      ≡ ok (
          some (record {
            seq = le_number (take 8 body);
            global_ids = from_buffer 8 (le_number (take 4 (drop 8 body))) (drop 16 body);
            vectors = record {
              dim = le_number (take 4 (drop 12 body));
              rows =
                  split_rows
                    (le_number (take 4 (drop 8 body)))
                    (le_number (take 4 (drop 12 body)))
                    (from_buffer 4
                      (le_number (take 4 (drop 8 body)) * le_number (take 4 (drop 12 body)))
                      (drop (16 + 8 * le_number (take 4 (drop 8 body))) body));
            };
            payloads = payloads;
          }))
unfolding parse_body
parse_body_at body payloads room h = rw (room, parse_body) (rw h refl)

pub parse_body-Body :
    (seq : ℕ) (global_ids : List ℕ) (vectors : Matrix) (payloads : Option (List Text))
    (section body : List ℕ)
    → IsWritable global_ids vectors payloads
    → optional_section payloads ≡ ok section
    → Body seq global_ids vectors section body
    → parse_body body ≡ ok (some (logged seq global_ids vectors payloads))
parse_body-Body seq global_ids vectors payloads section body w sec b =
    let n = length vectors.rows in
    let d = vectors.dim in
    let count = le_number (take 4 (drop 8 body)) in
    let dim = le_number (take 4 (drop 12 body)) in
    let ids = to_bytes 8 global_ids in
    let values = to_bytes 4 (concat vectors.rows) in
    let many : length (concat vectors.rows) ≡ n * d = length-concat vectors.rows d w.shaped in
    let ids_size : length ids ≡ 8 * n = omega (arith, length-to_bytes 8 global_ids, w.counted) in
    let values_size : length values ≡ 4 * n * d =
      omega (arith, length-to_bytes 4 (concat vectors.rows), many) in
    let after_ids : drop (16 + 8 * n) body ≡ values ++ section =
      sym (drop-drop 16 (8 * n) body)
      ∙ ap (drop (8 * n)) b.ids_at
      ∙ drop_of_length (8 * n) ids (values ++ section) ids_size in
    let after_values : drop (16 + 8 * n + 4 * n * d) body ≡ section =
      sym (drop-drop (16 + 8 * n) (4 * n * d) body)
      ∙ ap (drop (4 * n * d)) after_ids
      ∙ drop_of_length (4 * n * d) values section values_size in
    let vectors_end : 16 + 8 * count + 4 * count * dim ≡ 16 + 8 * n + 4 * n * d =
      ap₂ (λ (x y : ℕ). 16 + 8 * x + 4 * x * y) b.count_at b.dim_at in
    let found =
      parse_body_at body (logged_payloads payloads n)
        (room _ _ (omega (arith, vectors_end, b.size, many, w.counted)))
        (ap₂ parse_payloads (ap (λ k. drop k body) vectors_end ∙ after_values) b.count_at
          ∙ parse_payloads-section payloads n section w.texts_fit sec) in
    let same_ids : from_buffer 8 count (drop 16 body) ≡ global_ids =
      ap₂ (from_buffer 8) (b.count_at ∙ sym w.counted) b.ids_at
      ∙ from_buffer-to_bytes 8 global_ids (values ++ section) w.ids_fit in
    let same_values : from_buffer 4 (count * dim) (drop (16 + 8 * count) body)
        ≡ concat vectors.rows =
      ap₂ (from_buffer 4) (ap₂ ◌*◌ b.count_at b.dim_at ∙ sym many)
        (ap (λ k. drop (16 + 8 * k) body) b.count_at ∙ after_ids)
      ∙ from_buffer-to_bytes 4 (concat vectors.rows) section w.values_fit in
    let same_rows : split_rows count dim (from_buffer 4 (count * dim) (drop (16 + 8 * count) body))
        ≡ vectors.rows =
      ap (split_rows count dim) same_values
      ∙ ap₂ (λ (x y : ℕ). split_rows x y (concat vectors.rows)) b.count_at b.dim_at
      ∙ split_rows-concat vectors.rows d w.shaped in
    found ∙ (λ i. ok (
      some (record {
        seq = b.seq_at i;
        global_ids = same_ids i;
        vectors = record { dim = b.dim_at i; rows = same_rows i };
        payloads = logged_payloads payloads n;
      })))
  where
    room : (x y : ℕ) → y ≤ x → ltb x y ≡ false
    room x y h = ground arith

pub record_body-Body :
    (seq : ℕ) (global_ids : List ℕ) (vectors : Matrix) (payloads : Option (List Text))
    (body : List ℕ)
    → record_body seq global_ids vectors payloads ≡ ok body
    → (section : List ℕ) × (optional_section payloads ≡ ok section)
      × Body seq global_ids vectors section body
unfolding record_body
record_body-Body seq global_ids vectors payloads body h =
    let a = >>=-eq-ok (pack 8 seq) _ h in
    let b = >>=-eq-ok (pack 4 (length vectors.rows)) _ a.2 in
    let c = >>=-eq-ok (pack 4 vectors.dim) _ b.2 in
    let section = >>=-eq-ok (optional_section payloads) _ c.2 in
    let parts =
      Body-parts seq global_ids vectors section.0 a.0 b.0 c.0 (pack-Packed 8 seq a.0 a.1)
        (pack-Packed 4 (length vectors.rows) b.0 b.1) (pack-Packed 4 vectors.dim c.0 c.1) in
    (section.0, section.1, subst (Body seq global_ids vectors section.0) (same _ _ section.2) parts)
  where
    same : (x y : List ℕ) → ok x ≡ ok y → x ≡ y
    same x y e = cc
