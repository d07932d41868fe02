-- ===== src/Storage/Record.antt =====
-- The records of the write-ahead log: the body and header that `WriteAheadLog.append` writes, and how
-- `_read_records` and `_parse_payloads` of vsearch/storage.py read them back.
pub mod Payloads
pub mod RoundTrip
pub mod Written
use distributed_vector_searc.Prelude.{
  ℕ, zero, suc, ◌+◌, ◌*◌, Bool, true, false, not, List, [], ◌∷◌, ◌++◌, map, Option, none, some,
  Result, Error, ok, err, ◌>>=◌, ltb, leb, ◌==◌, if◌then◌else◌, length, take, drop, replicate,
  concat, any,
}
use distributed_vector_searc.Python.Text.{Text}
use distributed_vector_searc.Python.Utf8.{encode, decode}
use distributed_vector_searc.Python.Crc32.{crc32}
use distributed_vector_searc.Python.Struct.{le_number, pack, to_bytes, from_buffer}

-- A float32 array of shape (count, dim): its rows, each value as its 32-bit pattern.
pub record Matrix : Type 0 where
  pub dim : ℕ
  pub rows : List (List ℕ)

-- What is read back from a record: (seq, ids, vectors, payloads). An id is its 64-bit pattern.
pub record LogRecord : Type 0 where
  pub seq : ℕ
  pub global_ids : List ℕ
  pub vectors : Matrix
  pub payloads : List Text

abbrev pub header_size : ℕ
header_size = 8

abbrev pub record_start_size : ℕ
record_start_size = 16

-- `_U32.pack(len(b)) + b`, for each payload.
unfoldable pub payload_section : List Text → Result (List ℕ)
unfolding pack encode
payload_section [] = ok []
payload_section (text ∷ texts) = do
  bytes ← encode text
  size ← pack 4 (length bytes)
  rest ← payload_section texts
  ok (size ++ bytes ++ rest)

abbrev pub is_blank : Text → Bool
is_blank [] = true
is_blank (c ∷ text) = false

-- `if payloads and any(payloads)`
unfoldable pub optional_section : Option (List Text) → Result (List ℕ)
unfolding payload_section
optional_section none = ok []
optional_section (some payloads) =
    if any (λ text. not (is_blank text)) payloads then payload_section payloads else ok []

unfoldable pub record_body : ℕ → List ℕ → Matrix → Option (List Text) → Result (List ℕ)
unfolding pack to_bytes optional_section
record_body seq global_ids vectors payloads = do
  packed_seq ← pack 8 seq
  packed_count ← pack 4 (length vectors.rows)
  packed_dim ← pack 4 vectors.dim
  section ← optional_section payloads
  ok (
      packed_seq
      ++ (packed_count
          ++ (packed_dim
              ++ (to_bytes 8 global_ids ++ (to_bytes 4 (concat vectors.rows) ++ section)))))

-- The bytes that `append` writes.
unfoldable pub encode_record : ℕ → List ℕ → Matrix → Option (List Text) → Result (List ℕ)
unfolding record_body pack crc32
encode_record seq global_ids vectors payloads = do
  body ← record_body seq global_ids vectors payloads
  size ← pack 4 (length body)
  checksum ← pack 4 (crc32 body)
  ok (size ++ (checksum ++ body))

-- The loop of `_parse_payloads`, over the bytes from `pos` on. `none` is a malformed section.
unfoldable pub parse_loop : ℕ → List ℕ → Result (Option (List Text × List ℕ))
unfolding le_number decode
parse_loop zero bytes = ok (some ([], bytes))
parse_loop (suc count) bytes = elim (ltb (length bytes) 4) [
  | true ↦ ok none
  | false ↦
      let size = le_number (take 4 bytes) in
      let rest = drop 4 bytes in
      elim (ltb (length rest) size) [
        | true ↦ ok none
        | false ↦ do
          text ← decode (take size rest)
          parsed ← parse_loop count (drop size rest)
          ok (elim parsed [ none ↦ none | some (texts, end) ↦ some (text ∷ texts, end) ])
      ]
]

unfoldable pub parse_payloads : List ℕ → ℕ → Result (Option (List Text))
unfolding parse_loop
parse_payloads [] count = ok (some (replicate count []))
parse_payloads (b ∷ bytes) count = do
  parsed ← parse_loop count (b ∷ bytes)
  ok (elim parsed [ some (texts, []) ↦ some texts | _ ↦ none ])

-- `.reshape(count, dim)`
unfoldable pub split_rows : ℕ → ℕ → List ℕ → List (List ℕ)
split_rows zero dim values = []
split_rows (suc count) dim values = take dim values ∷ split_rows count dim (drop dim values)

-- A body whose checksum is right. `none` ends the log there.
unfoldable pub parse_body : List ℕ → Result (Option LogRecord)
unfolding le_number from_buffer split_rows parse_payloads
parse_body body =
    let seq = le_number (take 8 body) in
    let count = le_number (take 4 (drop 8 body)) in
    let dim = le_number (take 4 (drop 12 body)) in
    let vectors_end = 16 + 8 * count + 4 * count * dim in
    if ltb (length body) vectors_end then ok none else do
      let ids = from_buffer 8 count (drop 16 body)
      let values = from_buffer 4 (count * dim) (drop (16 + 8 * count) body)
      payloads ← parse_payloads (drop vectors_end body) count
      ok (elim payloads [
        | none ↦ none
        | some texts ↦ some (record {
          seq = seq;
          global_ids = ids;
          vectors = record { dim = dim; rows = split_rows count dim values };
          payloads = texts;
        })
      ])

-- One round of the loop of `_read_records`: the record at the front of what is left of the file, and
-- its size with the header. `none` is a `break`.
unfoldable pub read_record : List ℕ → Result (Option (LogRecord × ℕ))
unfolding le_number crc32 parse_body
read_record bytes =
    let size = le_number (take 4 bytes) in
    let checksum = le_number (take 4 (drop 4 bytes)) in
    let rest = drop 8 bytes in
    if ltb (length bytes) header_size
    then ok none
    else if ltb (length rest) size
    then ok none
    else if ltb size record_start_size
    then ok none
    else let body = take size rest in
      if crc32 body == checksum
      then (do
        parsed ← parse_body body
        ok (elim parsed [ none ↦ none | some r ↦ some (r, 8 + size) ]))
      else ok none

-- The loop, with the position that it has reached. Every round that goes on takes the eight bytes
-- of a header at least, so the number of bytes is fuel enough.
unfoldable pub read_loop : ℕ → List ℕ → ℕ → Result (List LogRecord × ℕ)
unfolding read_record
read_loop zero bytes pos = ok ([], pos)
read_loop (suc fuel) bytes pos = do
  next ← read_record bytes
  elim next [
    | none ↦ ok ([], pos)
    | some (r, size) ↦ do
      (records, end) ← read_loop fuel (drop size bytes) (pos + size)
      ok (r ∷ records, end)
  ]

-- `_read_records` of a file that exists; a missing file reads as an empty one.
unfoldable pub read_records : List ℕ → Result (List LogRecord × ℕ)
unfolding read_loop
read_records bytes = read_loop (length bytes) bytes 0
