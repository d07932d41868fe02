-- ===== src/Python/Crc32.antt =====
-- `zlib.crc32`: a register of 32 bits, least significant first, over the bits of the data.
use distributed_vector_searc.Prelude.{
  ℕ, zero, suc, ◌+◌, ◌*◌, ◌/◌, ◌%◌, ◌^◌, ◌<◌, ◌≡◌, refl, ◌∙◌, Bool, true, false, not, List, [], ◌∷◌,
  ◌++◌, map, arith, ◌==◌, if◌then◌else◌, length, length-append, length-map, replicate,
}
use native.Mathlib.Nat.{pow-suc}
use distributed_vector_searc.Python.Text.{codes}

-- The `width` low bits of a number.
abbrev pub bits : ℕ → ℕ → List Bool
bits zero n = []
bits (suc width) n = (n % 2 == 1) ∷ bits width (n / 2)

abbrev pub xor : Bool → Bool → Bool
xor true b = not b
xor false b = b

abbrev pub xor_bits : List Bool → List Bool → List Bool
xor_bits (a ∷ xs) (b ∷ ys) = xor a b ∷ xor_bits xs ys
xor_bits xs _ = xs

abbrev pub number : List Bool → ℕ
number [] = 0
number (b ∷ bs) = (if b then 1 else 0) + 2 * number bs

-- One bit of input: shift right, and divide by the reflected polynomial if a one falls out.
step : List Bool → Bool → List Bool
step [] input = []
step (b ∷ register) input =
    let shifted = register ++ false ∷ [] in
    if xor b input then xor_bits shifted (bits 32 0xEDB88320) else shifted

run : List Bool → List Bool → List Bool
unfolding step
run register [] = register
run register (input ∷ inputs) = run (step register input) inputs

unfoldable pub crc_bits : List ℕ → List Bool → List Bool
unfolding run
crc_bits [] register = register
crc_bits (byte ∷ bytes) register = crc_bits bytes (run register (bits 8 byte))

unfoldable pub crc32 : List ℕ → ℕ
unfolding crc_bits
crc32 bytes = number (map not (crc_bits bytes (replicate 32 true)))

length-xor_bits : (xs ys : List Bool) → length (xor_bits xs ys) ≡ length xs
length-xor_bits [] ys = refl
length-xor_bits (x ∷ xs) [] = refl
length-xor_bits (x ∷ xs) (y ∷ ys) = omega (arith, length-xor_bits xs ys)

length-step : (register : List Bool) (input : Bool) → length (step register input) ≡ length register
unfolding step
length-step [] input = refl
length-step (b ∷ register) input =
    let shifted = register ++ false ∷ [] in
    ground
      (arith, length-xor_bits shifted (bits 32 0xEDB88320), length-append register (false ∷ []))

length-run : (register inputs : List Bool) → length (run register inputs) ≡ length register
unfolding run
length-run register [] = refl
length-run register (input ∷ inputs) =
    omega (arith, length-run (step register input) inputs, length-step register input)

length-crc_bits :
    (bytes : List ℕ) (register : List Bool) → length (crc_bits bytes register) ≡ length register
unfolding crc_bits
length-crc_bits [] register = refl
length-crc_bits (byte ∷ bytes) register =
    omega
      (arith, length-crc_bits bytes (run register (bits 8 byte)), length-run register (bits 8 byte))

number-lt : (bs : List Bool) → number bs < 2 ^ length bs
number-lt [] = omega arith
number-lt (b ∷ bs) = ground (arith, number-lt bs, pow-suc 2 (length bs))

-- The checksum fits the header's unsigned 32-bit field.
pub crc32-lt : (bytes : List ℕ) → crc32 bytes < 2 ^ 32
unfolding crc32
crc32-lt bytes =
    let register = crc_bits bytes (replicate 32 true) in
    rw (length-map not register ∙ length-crc_bits bytes (replicate 32 true)) at
      (number-lt (map not register))

check_value : crc32 (codes "123456789") ≡ 0xCBF43926
unfolding crc32
check_value = refl
