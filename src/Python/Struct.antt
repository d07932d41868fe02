-- ===== src/Python/Struct.antt =====
-- `struct` and numpy's little-endian integers: a number as `width` bytes.
use native.Mathlib.Nat.{pow-suc, pow-zero}
use distributed_vector_searc.Prelude.{
  ℕ, zero, suc, ◌+◌, ◌*◌, ◌/◌, ◌%◌, ◌^◌, ◌<◌, ◌≡◌, refl, ap, ap₂, ◌∙◌, List, [], ◌∷◌, ◌++◌, arith,
  ltb, length, length-append, take, drop, take_of_length, drop_of_length, All, if◌then◌else◌,
  Result, Error, ok, err, append_assoc,
}

abbrev pub le_bytes : ℕ → ℕ → List ℕ
le_bytes zero n = []
le_bytes (suc width) n = n % 256 ∷ le_bytes width (n / 256)

unfoldable pub le_number : List ℕ → ℕ
le_number [] = 0
le_number (b ∷ bytes) = b + 256 * le_number bytes

-- `struct.pack` of one unsigned field; `struct.error` if the number does not fit.
unfoldable pub pack : ℕ → ℕ → Result (List ℕ)
pack width n = if ltb n (256 ^ width) then ok (le_bytes width n) else err Error.struct_error

-- `array.tobytes()` and `np.frombuffer(..., count=count)` for integers of one width.
unfoldable pub to_bytes : ℕ → List ℕ → List ℕ
to_bytes width [] = []
to_bytes width (n ∷ ns) = le_bytes width n ++ to_bytes width ns

unfoldable pub from_buffer : ℕ → ℕ → List ℕ → List ℕ
unfolding le_number
from_buffer width zero bytes = []
from_buffer width (suc count) bytes =
    le_number (take width bytes) ∷ from_buffer width count (drop width bytes)

pub length-le_bytes : (width n : ℕ) → length (le_bytes width n) ≡ width
length-le_bytes zero n = refl
length-le_bytes (suc width) n = ap suc (length-le_bytes width (n / 256))

pub le_number-le_bytes : (width n : ℕ) → n < 256 ^ width → le_number (le_bytes width n) ≡ n
unfolding le_number
le_number-le_bytes zero n h = ground (arith, pow-zero 256)
le_number-le_bytes (suc width) n h =
    let smaller : n / 256 < 256 ^ width = omega (arith, pow-suc 256 width) in
    ground (arith, le_number-le_bytes width (n / 256) smaller)

pub pack-ok :
    (width n : ℕ) (bytes : List ℕ)
    → pack width n ≡ ok bytes
    → (n < 256 ^ width) × (bytes ≡ le_bytes width n)
unfolding pack
pack-ok width n bytes h = ground arith

pub length-to_bytes : (width : ℕ) (ns : List ℕ) → length (to_bytes width ns) ≡ length ns * width
unfolding to_bytes
length-to_bytes width [] = omega arith
length-to_bytes width (n ∷ ns) = omega (
  arith,
  length-append (le_bytes width n) (to_bytes width ns),
  length-le_bytes width n,
  length-to_bytes width ns,
)

pub from_buffer-to_bytes :
    (width : ℕ) (ns rest : List ℕ)
    → All (λ n. n < 256 ^ width) ns
    → from_buffer width (length ns) (to_bytes width ns ++ rest) ≡ ns
unfolding from_buffer to_bytes
from_buffer-to_bytes width [] rest h = refl
from_buffer-to_bytes width (n ∷ ns) rest h =
    let whole = append_assoc (le_bytes width n) (to_bytes width ns) rest in
    let size = length-le_bytes width n in
    ap₂ ◌∷◌
      (ap le_number (
          ap (take width) whole
          ∙ take_of_length width (le_bytes width n) (to_bytes width ns ++ rest) size)
        ∙ le_number-le_bytes width n h.0)
      (ap (from_buffer width (length ns)) (
          ap (drop width) whole
          ∙ drop_of_length width (le_bytes width n) (to_bytes width ns ++ rest) size)
        ∙ from_buffer-to_bytes width ns rest h.1)
