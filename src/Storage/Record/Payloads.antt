-- ===== src/Storage/Record/Payloads.antt =====
-- The payload section of a record reads back as it was written.
use distributed_vector_searc.Prelude.{
  ℕ, suc, ◌<◌, ◌≤◌, ◌≡◌, refl, ap, sym, ◌∙◌, ap₂, Bool, true, false, not, List, [], ◌∷◌, ◌++◌,
  Option, none, some, arith, ok, >>=-eq-ok, ltb, if◌then◌else◌, length, length-append, take, drop,
  take_of_length, drop_of_length, replicate, any, append_assoc, append-nil,
}
use distributed_vector_searc.Python.Text.{Text}
use distributed_vector_searc.Python.Utf8.{encode, decode, decode-encode}
use distributed_vector_searc.Python.Struct.{
  le_number, pack, pack-ok, length-le_bytes, le_number-le_bytes,
}
use distributed_vector_searc.Storage.Record.{
  payload_section, optional_section, parse_loop, parse_payloads, is_blank,
}

-- A packed number in front of other bytes.
pub record Packed (width n : ℕ) (bytes : List ℕ) : Type 0 where
  pub size : length bytes ≡ width
  pub front : (rest : List ℕ) → take width (bytes ++ rest) ≡ bytes
  pub behind : (rest : List ℕ) → drop width (bytes ++ rest) ≡ rest
  pub number : le_number bytes ≡ n

pub pack-Packed : (width n : ℕ) (bytes : List ℕ) → pack width n ≡ ok bytes → Packed width n bytes
pack-Packed width n bytes h =
    let (fits, same) = pack-ok width n bytes h in
    let size : length bytes ≡ width = ap length same ∙ length-le_bytes width n in
    record {
      size = size;
      front = λ rest. take_of_length width bytes rest size;
      behind = λ rest. drop_of_length width bytes rest size;
      number = ap le_number same ∙ le_number-le_bytes width n fits;
    }

parse_loop_at :
    (count : ℕ) (input : List ℕ) (text : Text) (texts : List Text) (end : List ℕ)
    → ltb (length input) 4 ≡ false
    → ltb (length (drop 4 input)) (le_number (take 4 input)) ≡ false
    → decode (take (le_number (take 4 input)) (drop 4 input)) ≡ ok text
    → parse_loop count (drop (le_number (take 4 input)) (drop 4 input)) ≡ ok (some (texts, end))
    → parse_loop (suc count) input ≡ ok (some (text ∷ texts, end))
unfolding parse_loop
parse_loop_at count input text texts end long room dec more =
    rw (long, parse_loop) (rw room (rw dec (rw more refl)))

parse_loop_step :
    (count size : ℕ) (packed bytes rest : List ℕ) (text : Text) (texts : List Text) (end : List ℕ)
    → Packed 4 size packed
    → length bytes ≡ size
    → decode bytes ≡ ok text
    → parse_loop count rest ≡ ok (some (texts, end))
    → parse_loop (suc count) (packed ++ bytes ++ rest) ≡ ok (some (text ∷ texts, end))
parse_loop_step count size packed bytes rest text texts end p fits dec more =
    let input = packed ++ bytes ++ rest in
    let assoc : input ≡ packed ++ (bytes ++ rest) = append_assoc packed bytes rest in
    let number : le_number (take 4 input) ≡ size =
      ap (λ i. le_number (take 4 i)) assoc ∙ ap le_number (p.front (bytes ++ rest)) ∙ p.number in
    let behind : drop 4 input ≡ bytes ++ rest = ap (drop 4) assoc ∙ p.behind (bytes ++ rest) in
    parse_loop_at count input text texts end
      (long (length input)
        (omega (arith, ap length assoc, length-append packed (bytes ++ rest), p.size)))
      (room _ _ (omega (arith, number, fits, ap length behind, length-append bytes rest)))
      (ap decode (ap₂ take number behind ∙ take_of_length size bytes rest fits) ∙ dec)
      (ap (parse_loop count) (ap₂ drop number behind ∙ drop_of_length size bytes rest fits) ∙ more)
  where
    long : (n : ℕ) → 4 ≤ n → ltb n 4 ≡ false
    long n h = ground arith

    room : (n m : ℕ) → m ≤ n → ltb n m ≡ false
    room n m h = ground arith

pub section-cons :
    (text : Text) (texts : List Text) (all : List ℕ)
    → payload_section (text ∷ texts) ≡ ok all
    → (bytes : List ℕ) × (packed : List ℕ) × (rest : List ℕ) × (encode text ≡ ok bytes)
      × (pack 4 (length bytes) ≡ ok packed)
      × (payload_section texts ≡ ok rest)
      × (all ≡ packed ++ bytes ++ rest)
unfolding payload_section
section-cons text texts all h =
    let bytes = >>=-eq-ok (encode text) _ h in
    let packed = >>=-eq-ok (pack 4 (length bytes.0)) _ bytes.2 in
    let rest = >>=-eq-ok (payload_section texts) _ packed.2 in
    (bytes.0, packed.0, rest.0, bytes.1, packed.1, rest.1, cc (rest.2))

pub parse_loop-section :
    (texts : List Text) (bytes end : List ℕ)
    → payload_section texts ≡ ok bytes
    → parse_loop (length texts) (bytes ++ end) ≡ ok (some (texts, end))
parse_loop-section [] bytes end h = unfold payload_section parse_loop in ground arith
parse_loop-section (text ∷ texts) all end h =
    let (bytes, packed, rest, enc, pk, more, whole) = section-cons text texts all h in
    let shape : all ++ end ≡ packed ++ bytes ++ (rest ++ end) =
      ap (λ a. a ++ end) whole ∙ append_assoc (packed ++ bytes) rest end in
    rw shape (
      parse_loop_step (length texts) (length bytes) packed bytes (rest ++ end) text texts end
        (pack-Packed 4 (length bytes) packed pk) refl (decode-encode text bytes enc)
        (parse_loop-section texts rest end more))

-- A record without payloads reads back with an empty one for each vector.
abbrev pub logged_payloads : Option (List Text) → ℕ → List Text
logged_payloads none count = replicate count []
logged_payloads (some payloads) count = payloads

abbrev pub FitsCount : Option (List Text) → ℕ → Type 0
FitsCount none count = Unit
FitsCount (some payloads) count = length payloads ≡ count

parse_payloads-loop :
    (bytes : List ℕ) (count : ℕ) (texts : List Text)
    → 0 < length bytes
    → parse_loop count bytes ≡ ok (some (texts, []))
    → parse_payloads bytes count ≡ ok (some texts)
unfolding parse_payloads
parse_payloads-loop [] count texts pos h = absurd (omega arith)
parse_payloads-loop (b ∷ bytes) count texts pos h = rw h refl

pub blank_all :
    (texts : List Text)
    → any (λ text. not (is_blank text)) texts ≡ false
    → replicate (length texts) [] ≡ texts
blank_all [] h = refl
blank_all ([] ∷ texts) h = ap (◌∷◌ []) (blank_all texts h)
blank_all ((c ∷ text) ∷ texts) h = cc

section-pos :
    (texts : List Text) (bytes : List ℕ)
    → any (λ text. not (is_blank text)) texts ≡ true
    → payload_section texts ≡ ok bytes
    → 0 < length bytes
section-pos [] bytes h e = cc
section-pos (text ∷ texts) all h e =
    let (bytes, packed, rest, enc, pk, more, whole) = section-cons text texts all e in
    let p = pack-Packed 4 (length bytes) packed pk in
    omega (
      arith,
      ap length whole,
      length-append (packed ++ bytes) rest,
      length-append packed bytes,
      p.size,
    )

optional-section :
    (b : Bool) (texts : List Text) (bytes : List ℕ)
    → any (λ text. not (is_blank text)) texts ≡ b
    → (if b then payload_section texts else ok []) ≡ ok bytes
    → parse_payloads bytes (length texts) ≡ ok (some texts)
unfolding parse_payloads
optional-section true texts bytes h e =
    parse_payloads-loop bytes (length texts) texts (section-pos texts bytes h e) (
      ap (parse_loop (length texts)) (sym (append-nil bytes)) ∙ parse_loop-section texts bytes [] e)
optional-section false texts bytes h e =
    let empty : bytes ≡ [] = cc in rw empty (ap (λ ts. ok (some ts)) (blank_all texts h))

-- If there are no payloads or as many as vectors, and the payload section of a record can be
-- encoded, then parsing it gives the payloads back, and a blank text for each vector when there
-- were none.
pub parse_payloads-section :
    (payloads : Option (List Text)) (count : ℕ) (bytes : List ℕ)
    → FitsCount payloads count
    → optional_section payloads ≡ ok bytes
    → parse_payloads bytes count ≡ ok (some (logged_payloads payloads count))
unfolding optional_section
parse_payloads-section none count bytes fit h =
    let empty : bytes ≡ [] = cc in rw empty (unfold parse_payloads in refl)
parse_payloads-section (some texts) count bytes fit h =
    ap (parse_payloads bytes) (sym fit)
    ∙ optional-section (any (λ text. not (is_blank text)) texts) texts bytes refl h
