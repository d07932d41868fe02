-- ===== src/Python/Text.antt =====
-- A `str` is its list of code points, so `len` is `length` and the empty text is `[]`.
use Prim.Native.String.{String}
use Prim.Native.Char.{code}
use distributed_vector_searc.Prelude.{
  ℕ, zero, suc, ◌+◌, ◌/◌, ◌%◌, ◌≡◌, refl, Bool, true, false, ◌&&◌, List, [], ◌∷◌, ◌++◌, arith, ◌==◌,
  ltb, Bool-cases, inl, inr,
}

abbrev pub Text : Type 0
Text = List ℕ

-- The text that a literal stands for.
abbrev pub codes : String → Text
codes String.[] = []
codes (String.◌∷◌ c s) = code c ∷ codes s

-- `str(n)`: the digits of a number are at most as many as the number, plus one.
digits : ℕ → ℕ → Text
digits zero n = []
digits (suc fuel) n = elim (ltb n 10) [
  | true ↦ (b'0' + n) ∷ []
  | false ↦ digits fuel (n / 10) ++ (b'0' + n % 10) ∷ []
]

unfoldable pub show_nat : ℕ → Text
unfolding digits
show_nat n = digits (suc n) n

decimal_run : show_nat 1024 ≡ codes "1024"
unfolding show_nat
decimal_run = refl

-- `f"{n:,}"`: a comma before each group of three digits.
three_digits : ℕ → Text
three_digits n = (b'0' + n / 100) ∷ (b'0' + n / 10 % 10) ∷ (b'0' + n % 10) ∷ []

grouped_digits : ℕ → ℕ → Text
unfolding digits three_digits
grouped_digits zero n = []
grouped_digits (suc fuel) n = elim (ltb n 1000) [
  | true ↦ digits 4 n
  | false ↦ grouped_digits fuel (n / 1000) ++ codes "," ++ three_digits (n % 1000)
]

unfoldable pub grouped : ℕ → Text
unfolding grouped_digits
grouped n = grouped_digits (suc n) n

grouped_run : grouped 1234005 ≡ codes "1,234,005"
unfolding grouped
grouped_run = refl

-- `separator.join_with(texts)`
unfoldable pub join_with : Text → List Text → Text
join_with separator [] = []
join_with separator (text ∷ []) = text
join_with separator (text ∷ next ∷ texts) = text ++ separator ++ join_with separator (next ∷ texts)

abbrev pub text_eq : Text → Text → Bool
text_eq [] [] = true
text_eq [] (b ∷ ys) = false
text_eq (a ∷ xs) [] = false
text_eq (a ∷ xs) (b ∷ ys) = (a == b) && text_eq xs ys

pub text_eq→eq : (a b : Text) → text_eq a b ≡ true → a ≡ b
text_eq→eq [] [] h = refl
text_eq→eq [] (b ∷ ys) h = cc
text_eq→eq (a ∷ xs) [] h = cc
text_eq→eq (a ∷ xs) (b ∷ ys) h = ground (arith, text_eq→eq xs ys)

pub text_eq_refl : (a : Text) → text_eq a a ≡ true
text_eq_refl [] = refl
text_eq_refl (a ∷ xs) = ground (arith, text_eq_refl xs)

-- `==` on texts is symmetric.
pub text_ne_sym : (a b : Text) → text_eq a b ≡ false → text_eq b a ≡ false
text_ne_sym a b h = elim (Bool-cases (text_eq b a)) [
  | inl e ↦ cc (text_eq_refl a, text_eq→eq b a e)
  | inr e ↦ e
]
