-- ===== src/Python/Utf8.antt =====
-- `str.encode("utf-8")` and `bytes.decode("utf-8")`.
use distributed_vector_searc.Prelude.{
  ℕ, zero, suc, ◌+◌, ◌-◌, ◌*◌, ◌/◌, ◌%◌, ◌<◌, ◌≤◌, ◌≡◌, refl, Bool, ◌&&◌, ◌||◌, List, [], ◌∷◌, ◌++◌,
  arith, ltb, leb, if◌then◌else◌, Result, Error, ok, err, ◌>>=◌, length, length-append, ◌∙◌, ap,
  >>=-eq-ok, ◌⊎◌, inl, inr,
}
use distributed_vector_searc.Python.Text.{Text}

-- Surrogates have no encoding.
encode_char : ℕ → Result (List ℕ)
encode_char c =
    if ltb c 0x80
    then ok (c ∷ [])
    else if ltb c 0x800
    then ok ((0xC0 + c / 64) ∷ (0x80 + c % 64) ∷ [])
    else if ltb c 0x10000
    then if leb 0xD800 c && ltb c 0xE000
      then err Error.value_error
      else ok ((0xE0 + c / 4096) ∷ (0x80 + c / 64 % 64) ∷ (0x80 + c % 64) ∷ [])
    else if ltb c 0x110000
    then ok
        ((0xF0 + c / 262144) ∷ (0x80 + c / 4096 % 64) ∷ (0x80 + c / 64 % 64) ∷ (0x80 + c % 64) ∷ [])
    else err Error.value_error

unfoldable pub encode : Text → Result (List ℕ)
unfolding encode_char
encode [] = ok []
encode (c ∷ text) = do first ← encode_char c; rest ← encode text; ok (first ++ rest)

is_continuation : ℕ → Bool
is_continuation b = leb 0x80 b && ltb b 0xC0

-- One character and the bytes behind it. Overlong forms and surrogates are refused.
decode_two : ℕ → List ℕ → Result (ℕ × List ℕ)
decode_two a (b ∷ bytes) =
    if leb 0xC2 a && is_continuation b
    then ok ((a - 0xC0) * 64 + (b - 0x80), bytes)
    else err Error.decode_error
decode_two a _ = err Error.decode_error

decode_three : ℕ → List ℕ → Result (ℕ × List ℕ)
decode_three a (b ∷ c ∷ bytes) =
    let char = (a - 0xE0) * 4096 + (b - 0x80) * 64 + (c - 0x80) in
    if is_continuation b
      && is_continuation c
      && leb 0x800 char
      && (ltb char 0xD800 || leb 0xE000 char)
    then ok (char, bytes)
    else err Error.decode_error
decode_three a _ = err Error.decode_error

decode_four : ℕ → List ℕ → Result (ℕ × List ℕ)
decode_four a (b ∷ c ∷ d ∷ bytes) =
    let char = (a - 0xF0) * 262144 + (b - 0x80) * 4096 + (c - 0x80) * 64 + (d - 0x80) in
    if is_continuation b
      && is_continuation c
      && is_continuation d
      && leb 0x10000 char
      && ltb char 0x110000
    then ok (char, bytes)
    else err Error.decode_error
decode_four a _ = err Error.decode_error

decode_char : ℕ → List ℕ → Result (ℕ × List ℕ)
unfolding is_continuation decode_two decode_three decode_four
decode_char a bytes =
    if ltb a 0x80
    then ok (a, bytes)
    else if ltb a 0xE0
    then decode_two a bytes
    else if ltb a 0xF0
    then decode_three a bytes
    else decode_four a bytes

-- Every character takes a byte at least, so the number of bytes is fuel enough.
decode_chars : ℕ → List ℕ → Result Text
unfolding decode_char
decode_chars fuel [] = ok []
decode_chars zero (a ∷ bytes) = err Error.decode_error
decode_chars (suc fuel) (a ∷ bytes) = do
  (char, rest) ← decode_char a bytes
  text ← decode_chars fuel rest
  ok (char ∷ text)

unfoldable pub decode : List ℕ → Result Text
unfolding decode_chars
decode bytes = decode_chars (length bytes) bytes

-- The encoding of one character, with what `decode_char` makes of it.
record Encoded (c : ℕ) (bs : List ℕ) : Type 0 where
  head : ℕ
  tail : List ℕ
  shape : bs ≡ head ∷ tail
  back : (rest : List ℕ) → decode_char head (tail ++ rest) ≡ ok (c, rest)

Shape : ℕ → List ℕ → Type 0
Shape c bs =
    ((c < 0x80) × (bs ≡ c ∷ []))
    ⊎ ((0x80 ≤ c) × (c < 0x800) × (bs ≡ (0xC0 + c / 64) ∷ (0x80 + c % 64) ∷ []))
    ⊎ ((0x800 ≤ c)
        × (c < 0x10000)
        × ((c < 0xD800) ⊎ (0xE000 ≤ c))
        × (bs ≡ (0xE0 + c / 4096) ∷ (0x80 + c / 64 % 64) ∷ (0x80 + c % 64) ∷ []))
    ⊎ ((0x10000 ≤ c)
        × (c < 0x110000)
        × (bs
            ≡ (0xF0 + c / 262144)
              ∷ (0x80 + c / 4096 % 64)
              ∷ (0x80 + c / 64 % 64)
              ∷ (0x80 + c % 64)
              ∷ []))

encode_char-Shape : (c : ℕ) (bs : List ℕ) → encode_char c ≡ ok bs → Shape c bs
unfolding encode_char Shape
encode_char-Shape c bs h = ground arith

decode_one_lem : (c : ℕ) (rest : List ℕ) → c < 0x80 → decode_char c rest ≡ ok (c, rest)
unfolding decode_char
decode_one_lem c rest h = ground arith

decode_two_lem :
    (c : ℕ) (rest : List ℕ)
    → 0x80 ≤ c
    → c < 0x800
    → decode_char (0xC0 + c / 64) ((0x80 + c % 64) ∷ rest) ≡ ok (c, rest)
unfolding decode_char
decode_two_lem c rest h k = ground arith

decode_three_lem :
    (c : ℕ) (rest : List ℕ)
    → 0x800 ≤ c
    → c < 0x10000
    → (c < 0xD800) ⊎ (0xE000 ≤ c)
    → decode_char (0xE0 + c / 4096) ((0x80 + c / 64 % 64) ∷ (0x80 + c % 64) ∷ rest) ≡ ok (c, rest)
unfolding decode_char
decode_three_lem c rest h k s = ground arith

decode_four_lem :
    (c : ℕ) (rest : List ℕ)
    → 0x10000 ≤ c
    → c < 0x110000
    → decode_char
        (0xF0 + c / 262144)
        ((0x80 + c / 4096 % 64) ∷ (0x80 + c / 64 % 64) ∷ (0x80 + c % 64) ∷ rest)
      ≡ ok (c, rest)
unfolding decode_char
decode_four_lem c rest h k = ground arith

encode_char-Encoded : (c : ℕ) (bs : List ℕ) → encode_char c ≡ ok bs → Encoded c bs
unfolding Shape
encode_char-Encoded c bs h = elim (encode_char-Shape c bs h) [
  | inl (lt, e) ↦ record { head = _; tail = _; shape = e; back = λ rest. decode_one_lem c rest lt }
  | inr (inl (ge, lt, e)) ↦ record {
    head = _;
    tail = _;
    shape = e;
    back = λ rest. decode_two_lem c rest ge lt;
  }
  | inr (inr (inl (ge, lt, s, e))) ↦ record {
    head = _;
    tail = _;
    shape = e;
    back = λ rest. decode_three_lem c rest ge lt s;
  }
  | inr (inr (inr (ge, lt, e))) ↦ record {
    head = _;
    tail = _;
    shape = e;
    back = λ rest. decode_four_lem c rest ge lt;
  }
]

encode-cons :
    (c : ℕ) (text : Text) (bs : List ℕ)
    → encode (c ∷ text) ≡ ok bs
    → (first : List ℕ) × (rest : List ℕ) × (encode_char c ≡ ok first)
      × (encode text ≡ ok rest)
      × (bs ≡ first ++ rest)
unfolding encode
encode-cons c text bs h =
    let first = >>=-eq-ok (encode_char c) _ h in
    let rest = >>=-eq-ok (encode text) _ first.2 in (first.0, rest.0, first.1, rest.1, cc (rest.2))

decode_chars_step :
    (fuel a c : ℕ) (bytes rest : List ℕ) (text : Text)
    → decode_char a bytes ≡ ok (c, rest)
    → decode_chars fuel rest ≡ ok text
    → decode_chars (suc fuel) (a ∷ bytes) ≡ ok (c ∷ text)
unfolding decode_chars
decode_chars_step fuel a c bytes rest text h k = rw h (rw k refl)

-- A fuel that covers the bytes is enough.
decode_chars-encode :
    (fuel : ℕ) (text : Text) (bs : List ℕ)
    → encode text ≡ ok bs
    → length bs ≤ fuel
    → decode_chars fuel bs ≡ ok text
decode_chars-encode fuel [] bs h f = unfold encode decode_chars in ground arith
decode_chars-encode zero (c ∷ text) bs h f =
    let (first, rest, e, k, split) = encode-cons c text bs h in
    let enc = encode_char-Encoded c first e in
    absurd (ground (arith, enc.shape, split, length-append first rest))
decode_chars-encode (suc fuel) (c ∷ text) bs h f =
    let (first, rest, e, k, split) = encode-cons c text bs h in
    let enc = encode_char-Encoded c first e in
    let whole : bs ≡ enc.head ∷ (enc.tail ++ rest) = split ∙ ap (λ t. t ++ rest) enc.shape in
    rw whole (
      decode_chars_step fuel enc.head c (enc.tail ++ rest) rest text (enc.back rest) (
        decode_chars-encode fuel text rest k
          (omega (arith, length-append enc.tail rest, rw whole at f))))

-- What was encoded decodes to itself.
pub decode-encode : (text : Text) (bs : List ℕ) → encode text ≡ ok bs → decode bs ≡ ok text
unfolding decode
decode-encode text bs h = decode_chars-encode (length bs) text bs h (omega arith)
