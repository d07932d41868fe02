-- ===== src/Storage/Log.antt =====
-- Reading a whole log file: every intact record, up to the first that is torn or damaged.
use native.Mathlib.Decide.{dec_lt}
use distributed_vector_searc.Prelude.{
  ℕ, zero, suc, ◌+◌, ◌≤◌, ◌≡◌, refl, ap, ◌∙◌, true, false, List, [], ◌∷◌, ◌++◌, map, Option, none,
  some, arith, ok, ltb, length, length-append, take, drop, drop-append, append_assoc, ◌<◌,
  length-take, lt→ltb, length-drop,
}
use distributed_vector_searc.Python.Text.{Text}
use distributed_vector_searc.Python.Struct.{le_number}
use distributed_vector_searc.Storage.Record.{
  Matrix, LogRecord, encode_record, read_record, read_loop, read_records,
}
use distributed_vector_searc.Storage.Record.RoundTrip.{IsWritable, logged}
use distributed_vector_searc.Storage.Record.Written.{
  encode_record-Written, length-Written, read_record-encode_record,
}

-- One write as the log holds it.
pub record Entry : Type 0 where
  pub seq : ℕ
  pub global_ids : List ℕ
  pub vectors : Matrix
  pub payloads : Option (List Text)
  pub bytes : List ℕ
  pub writable : IsWritable global_ids vectors payloads
  pub encoded : encode_record seq global_ids vectors payloads ≡ ok bytes

abbrev pub entry_record : Entry → LogRecord
entry_record e = logged e.seq e.global_ids e.vectors e.payloads

abbrev pub log_bytes : List Entry → List ℕ
log_bytes [] = []
log_bytes (e ∷ entries) = e.bytes ++ log_bytes entries

abbrev pub log_records : List Entry → List LogRecord
log_records entries = map entry_record entries

pub length-entry : (e : Entry) → 24 ≤ length e.bytes
length-entry e =
    let w = encode_record-Written e.seq e.global_ids e.vectors e.payloads e.bytes e.encoded in
    omega (arith, length-Written w, w.long)

-- What ends a log: bytes that `_read_records` takes for no record.
abbrev pub EndsLog : List ℕ → Type 0
EndsLog bytes = read_record bytes ≡ ok none

read_loop_end :
    (fuel : ℕ) (tail : List ℕ) (pos : ℕ) → EndsLog tail → read_loop fuel tail pos ≡ ok ([], pos)
unfolding read_loop
read_loop_end zero tail pos h = refl
read_loop_end (suc fuel) tail pos h = rw (h, read_loop) refl

read_loop_next :
    (fuel : ℕ) (bytes : List ℕ) (pos : ℕ) (r : LogRecord) (size : ℕ) (records : List LogRecord)
    (end : ℕ)
    → read_record bytes ≡ ok (some (r, size))
    → read_loop fuel (drop size bytes) (pos + size) ≡ ok (records, end)
    → read_loop (suc fuel) bytes pos ≡ ok (r ∷ records, end)
unfolding read_loop
read_loop_next fuel bytes pos r size records end h k = rw (h, read_loop) (rw k refl)

read_loop_lem :
    (entries : List Entry) (tail : List ℕ) (fuel pos : ℕ)
    → EndsLog tail
    → length (log_bytes entries) ≤ fuel
    → read_loop fuel (log_bytes entries ++ tail) pos
      ≡ ok (log_records entries, pos + length (log_bytes entries))
read_loop_lem [] tail fuel pos h f =
    read_loop_end fuel tail pos h ∙ ap (λ n. ok ([], n)) (omega arith)
read_loop_lem (e ∷ entries) tail zero pos h f =
    absurd (omega (arith, length-entry e, length-append e.bytes (log_bytes entries)))
read_loop_lem (e ∷ entries) tail (suc fuel) pos h f =
    let rest = log_bytes entries ++ tail in
    let shape : log_bytes (e ∷ entries) ++ tail ≡ e.bytes ++ rest =
      append_assoc e.bytes (log_bytes entries) tail in
    let first =
      read_record-encode_record e.seq e.global_ids e.vectors e.payloads e.bytes rest e.writable
        e.encoded in
    let others =
      read_loop_lem entries tail fuel (pos + length e.bytes) h
        (omega (arith, length-entry e, length-append e.bytes (log_bytes entries))) in
    rw shape (
      read_loop_next fuel (e.bytes ++ rest) pos (entry_record e) (length e.bytes)
        (log_records entries) (pos + length e.bytes + length (log_bytes entries)) first
        (ap (λ b. read_loop fuel b (pos + length e.bytes)) (drop-append e.bytes rest) ∙ others)
      ∙ ap (λ n. ok (log_records (e ∷ entries), n))
          (omega (arith, length-append e.bytes (log_bytes entries))))

-- A log file that holds any run of encoded records, followed by bytes in which no record is found,
-- is read back as exactly those records in order, and the reported size of the intact part is
-- exactly that of the records.
pub read_records_lem :
    (entries : List Entry) (tail : List ℕ)
    → EndsLog tail
    → read_records (log_bytes entries ++ tail)
      ≡ ok (log_records entries, length (log_bytes entries))
unfolding read_records
read_records_lem entries tail h =
    read_loop_lem entries tail (length (log_bytes entries ++ tail)) 0 h
      (omega (arith, length-append (log_bytes entries) tail))
    ∙ ap (λ n. ok (log_records entries, n)) (omega arith)

short-EndsLog : (bytes : List ℕ) → ltb (length bytes) 8 ≡ true → EndsLog bytes
unfolding read_record
short-EndsLog bytes h = rw (h, read_record) refl

cut-EndsLog :
    (bytes : List ℕ)
    → ltb (length bytes) 8 ≡ false
    → ltb (length (drop 8 bytes)) (le_number (take 4 bytes)) ≡ true
    → EndsLog bytes
unfolding read_record
cut-EndsLog bytes h k = rw (h, read_record) (rw k refl)

take-take {ℓ} : {A : Type ℓ} (m n : ℕ) (xs : List A) → m ≤ n → take m (take n xs) ≡ take m xs
take-take zero n xs h = refl
take-take (suc m) zero xs h = absurd (omega arith)
take-take (suc m) (suc n) [] h = refl
take-take (suc m) (suc n) (x ∷ xs) h = ap (◌∷◌ x) (take-take m n xs (omega arith))

-- Any proper prefix of an encoded record, such as a crash in the middle of an append leaves, is
-- found to be no record, and raises no error.
pub torn-EndsLog : (e : Entry) (k : ℕ) → k < length e.bytes → EndsLog (take k e.bytes)
torn-EndsLog e k h =
    let w = encode_record-Written e.seq e.global_ids e.vectors e.payloads e.bytes e.encoded in
    let torn = take k e.bytes in
    let size : length torn ≡ k = omega (arith, length-take k e.bytes) in
    elim (dec_lt k 8) [
      | yes short ↦ short-EndsLog torn (lt→ltb _ _ (omega arith))
      | no header ↦
          let number : le_number (take 4 torn) ≡ length w.body =
            ap le_number (take-take 4 k e.bytes (omega arith))
            ∙ ap (λ b. le_number (take 4 b)) w.whole
            ∙ ap le_number (w.size.front (w.checksum_bytes ++ w.body))
            ∙ w.size.number in
          cut-EndsLog torn (room _ _ (omega arith))
            (lt→ltb _ _ (omega (arith, number, length-drop 8 torn, length-Written w)))
    ]
  where
    room : (x y : ℕ) → y ≤ x → ltb x y ≡ false
    room x y h = ground arith
