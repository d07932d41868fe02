-- ===== src/Storage/Record/Written.antt =====
-- The header of a record, and reading a record at the front of the file.
use distributed_vector_searc.Prelude.{
  ℕ, List, ltb, Option, length, ◌≡◌, false, ok, ◌+◌, >>=-eq-ok, ◌++◌, arith, drop, some, ap, ◌≤◌,
  length-append, take, ◌==◌, true, ◌∙◌, append_assoc, sym, drop-drop, ap₂, take-append, refl,
}
use distributed_vector_searc.Storage.Record.{
  encode_record, read_record, LogRecord, Matrix, record_body, parse_body,
}
use distributed_vector_searc.Python.Text.{Text}
use distributed_vector_searc.Storage.Record.RoundTrip.{
  IsWritable, record_body-Body, logged, parse_body-Body,
}
use distributed_vector_searc.Storage.Record.Payloads.{Packed, pack-Packed}
use distributed_vector_searc.Python.Struct.{pack, le_number}
use distributed_vector_searc.Python.Crc32.{crc32}

-- The bytes of a record: what is written, and how it starts.
pub record Written (seq : ℕ) (global_ids : List ℕ) (vectors : Matrix)
    (payloads : Option (List Text)) (bytes : List ℕ) : Type 0 where
  pub size_bytes : List ℕ
  pub checksum_bytes : List ℕ
  pub body : List ℕ
  pub made : record_body seq global_ids vectors payloads ≡ ok body
  pub size : Packed 4 (length body) size_bytes
  pub checksum : Packed 4 (crc32 body) checksum_bytes
  pub whole : bytes ≡ size_bytes ++ (checksum_bytes ++ body)
  pub long : 16 ≤ length body

pub encode_record-Written :
    (seq : ℕ) (global_ids : List ℕ) (vectors : Matrix) (payloads : Option (List Text))
    (bytes : List ℕ)
    → encode_record seq global_ids vectors payloads ≡ ok bytes
    → Written seq global_ids vectors payloads bytes
unfolding encode_record
encode_record-Written seq global_ids vectors payloads bytes h =
    let body = >>=-eq-ok (record_body seq global_ids vectors payloads) _ h in
    let size = >>=-eq-ok (pack 4 (length body.0)) _ body.2 in
    let checksum = >>=-eq-ok (pack 4 (crc32 body.0)) _ size.2 in
    let parts = record_body-Body seq global_ids vectors payloads body.0 body.1 in
    record {
      size_bytes = size.0;
      checksum_bytes = checksum.0;
      body = body.0;
      made = body.1;
      size = pack-Packed 4 (length body.0) size.0 size.1;
      checksum = pack-Packed 4 (crc32 body.0) checksum.0 checksum.1;
      whole = cc (checksum.2);
      long = (parts.2).long;
    }

pub length-Written :
    {seq : ℕ} {global_ids : List ℕ} {vectors : Matrix} {payloads : Option (List Text)}
    {bytes : List ℕ} (w : Written seq global_ids vectors payloads bytes)
    → length bytes ≡ 8 + length w.body
length-Written w = omega (
  arith,
  ap length w.whole,
  length-append w.size_bytes (w.checksum_bytes ++ w.body),
  length-append w.checksum_bytes w.body,
  w.size.size,
  w.checksum.size,
)

read_record_at :
    (bytes : List ℕ) (r : LogRecord)
    → ltb (length bytes) 8 ≡ false
    → ltb (length (drop 8 bytes)) (le_number (take 4 bytes)) ≡ false
    → ltb (le_number (take 4 bytes)) 16 ≡ false
    → (crc32 (take (le_number (take 4 bytes)) (drop 8 bytes)) == le_number (take 4 (drop 4 bytes)))
      ≡ true
    → parse_body (take (le_number (take 4 bytes)) (drop 8 bytes)) ≡ ok (some r)
    → read_record bytes ≡ ok (some (r, 8 + le_number (take 4 bytes)))
unfolding read_record
read_record_at bytes r a b c d e = rw (a, read_record) (rw b (rw c (rw d (rw e refl))))

-- If a batch fits a record and its record can be encoded, then reading at the front of a file that
-- starts with the record gives back its sequence number, its ids, its vectors and its payloads (a
-- blank text for each vector when there were none) and the record's size in bytes, whatever bytes
-- follow.
pub read_record-encode_record :
    (seq : ℕ) (global_ids : List ℕ) (vectors : Matrix) (payloads : Option (List Text))
    (bytes rest : List ℕ)
    → IsWritable global_ids vectors payloads
    → encode_record seq global_ids vectors payloads ≡ ok bytes
    → read_record (bytes ++ rest) ≡ ok (some (logged seq global_ids vectors payloads, length bytes))
read_record-encode_record seq global_ids vectors payloads bytes rest ok_write h =
    let w = encode_record-Written seq global_ids vectors payloads bytes h in
    let (section, sec, parts) = record_body-Body seq global_ids vectors payloads w.body w.made in
    let file = bytes ++ rest in
    let shape : file ≡ w.size_bytes ++ (w.checksum_bytes ++ (w.body ++ rest)) =
      ap (λ b. b ++ rest) w.whole
      ∙ append_assoc w.size_bytes (w.checksum_bytes ++ w.body) rest
      ∙ ap (λ b. w.size_bytes ++ b) (append_assoc w.checksum_bytes w.body rest) in
    let after_size : drop 4 file ≡ w.checksum_bytes ++ (w.body ++ rest) =
      ap (drop 4) shape ∙ w.size.behind (w.checksum_bytes ++ (w.body ++ rest)) in
    let after_header : drop 8 file ≡ w.body ++ rest =
      sym (drop-drop 4 4 file) ∙ ap (drop 4) after_size ∙ w.checksum.behind (w.body ++ rest) in
    let size : le_number (take 4 file) ≡ length w.body =
      ap (λ f. le_number (take 4 f)) shape
      ∙ ap le_number (w.size.front (w.checksum_bytes ++ (w.body ++ rest)))
      ∙ w.size.number in
    let checksum : le_number (take 4 (drop 4 file)) ≡ crc32 w.body =
      ap (λ f. le_number (take 4 f)) after_size
      ∙ ap le_number (w.checksum.front (w.body ++ rest))
      ∙ w.checksum.number in
    let body : take (le_number (take 4 file)) (drop 8 file) ≡ w.body =
      ap₂ take size after_header ∙ take-append w.body rest in
    read_record_at file (logged seq global_ids vectors payloads)
      (room _ _ (omega (arith, length-append bytes rest, length-Written w)))
      (room _ _ (omega (arith, size, ap length after_header, length-append w.body rest)))
      (room _ _ (omega (arith, size, w.long))) (equal _ _ (ap crc32 body ∙ sym checksum))
      (ap parse_body body
        ∙ parse_body-Body seq global_ids vectors payloads section w.body ok_write sec parts)
    ∙ ap (λ n. ok (some (logged seq global_ids vectors payloads, n)))
        (omega (arith, size, length-Written w))
  where
    room : (x y : ℕ) → y ≤ x → ltb x y ≡ false
    room x y h = ground arith

    equal : (x y : ℕ) → x ≡ y → (x == y) ≡ true
    equal x y h = ground arith
