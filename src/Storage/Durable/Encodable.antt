-- ===== src/Storage/Durable/Encodable.antt =====
-- The payloads of a write whose record can be encoded.
use distributed_vector_searc.Prelude.{
  ℕ, ◌≡◌, refl, not, List, [], ◌∷◌, Option, none, some, ok, >>=-eq-ok, any, Bool-cases, inl, inr,
  false, length,
}
use distributed_vector_searc.Python.Text.{Text}
use distributed_vector_searc.Python.Utf8.{encode}
use distributed_vector_searc.Python.Struct.{pack}
use distributed_vector_searc.Storage.Record.{
  Matrix, payload_section, optional_section, record_body, encode_record, is_blank,
}
use distributed_vector_searc.Storage.Record.Payloads.{section-cons}
use distributed_vector_searc.Storage.Durable.{CanEncode}

payload_section-CanEncode :
    (texts : List Text) (bytes : List ℕ) → payload_section texts ≡ ok bytes → CanEncode (some texts)
payload_section-CanEncode [] bytes e = tt
payload_section-CanEncode (text ∷ texts) bytes e =
    let (bytes', packed, rest, encoded, sized, others, same) = section-cons text texts bytes e in
    ((bytes', encoded), payload_section-CanEncode texts rest others)

blank-CanEncode :
    (texts : List Text) → any (λ text. not (is_blank text)) texts ≡ false → CanEncode (some texts)
unfolding encode
blank-CanEncode [] h = tt
blank-CanEncode ([] ∷ texts) h = (([], refl), blank-CanEncode texts h)
blank-CanEncode ((c ∷ text) ∷ texts) h = cc

optional_section-CanEncode :
    (payloads : Option (List Text)) (bytes : List ℕ)
    → optional_section payloads ≡ ok bytes
    → CanEncode payloads
unfolding optional_section
optional_section-CanEncode none bytes e = tt
optional_section-CanEncode (some texts) bytes e =
    elim (Bool-cases (any (λ text. not (is_blank text)) texts)) [
      | inl full ↦ payload_section-CanEncode texts bytes (rw full at e)
      | inr blank ↦ blank-CanEncode texts blank
    ]

pub encode_record-CanEncode :
    (seq : ℕ) (global_ids : List ℕ) (vectors : Matrix) (payloads : Option (List Text))
    (bytes : List ℕ)
    → encode_record seq global_ids vectors payloads ≡ ok bytes
    → CanEncode payloads
unfolding encode_record record_body
encode_record-CanEncode seq global_ids vectors payloads bytes e =
    let (body, made, e') = >>=-eq-ok (record_body seq global_ids vectors payloads) _ e in
    let (s, one, m) = >>=-eq-ok (pack 8 seq) _ made in
    let (c, two, m') = >>=-eq-ok (pack 4 (length vectors.rows)) _ m in
    let (d, three, m'') = >>=-eq-ok (pack 4 vectors.dim) _ m' in
    let (section, written, same) = >>=-eq-ok (optional_section payloads) _ m'' in
    optional_section-CanEncode payloads section written
