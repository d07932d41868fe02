-- ===== src/Chunking.antt =====
-- `_hard_split`, `_length`, `_join` and `_pack` of vsearch/chunking.py, which cut a document into
-- passages. What splits lines into blocks and sentences is a matter of regular expressions.
pub mod Split
pub mod Document
pub mod Fits
pub mod Lines
pub mod Pack
pub mod Tests
use distributed_vector_searc.Prelude.{
  ℕ, zero, suc, ◌+◌, Bool, true, false, ◌&&◌, not, List, [], ◌∷◌, ◌++◌, map, Option, none, some,
  ◌==◌, ltb, leb, if◌then◌else◌, length, take, drop, concat,
}
use distributed_vector_searc.Python.Text.{Text}

abbrev pub space : ℕ
space = 32

abbrev pub newline : ℕ
newline = 10

-- `text.rfind(c)`, for a text that starts at position `pos` of another.
unfoldable pub rfind : ℕ → ℕ → Text → Option ℕ
rfind c pos [] = none
rfind c pos (x ∷ text) = elim (rfind c (suc pos) text) [
  | some i ↦ some i
  | none ↦ if x == c then some pos else none
]

-- `text.lstrip(c)` and `text.rstrip(c)` for one character.
unfoldable pub lstrip : ℕ → Text → Text
lstrip c [] = []
lstrip c (x ∷ text) = let rest = lstrip c text in if x == c then rest else x ∷ text

unfoldable pub rstrip : ℕ → Text → Text
rstrip c [] = []
rstrip c (x ∷ text) = elim (rstrip c text) [
  | [] ↦ if x == c then [] else x ∷ []
  | y ∷ rest ↦ x ∷ y ∷ rest
]

-- `text.rfind(" ", 1, max_chars + 1)`, or `max_chars` if that is not positive.
unfoldable pub cut_at : ℕ → Text → ℕ
unfolding rfind
cut_at max_chars text = elim (rfind space 1 (take max_chars (drop 1 text))) [
  | none ↦ max_chars
  | some cut ↦ if leb cut 0 then max_chars else cut
]

-- `if text: yield text`
abbrev pub last_part : Text → List Text
last_part [] = []
last_part (c ∷ text) = (c ∷ text) ∷ []

abbrev pub prepend : Text → Option (List Text) → Option (List Text)
prepend part none = none
prepend part (some parts) = some (part ∷ parts)

-- The loop, on fuel; `none` if that is used up. What is yielded is the list of the parts.
unfoldable pub split_loop : ℕ → ℕ → Text → Option (List Text)
unfolding cut_at lstrip
split_loop zero max_chars text = if ltb max_chars (length text) then none else some (last_part text)
split_loop (suc fuel) max_chars text = elim (ltb max_chars (length text)) [
  | false ↦ some (last_part text)
  | true ↦
      let cut = cut_at max_chars text in
      prepend (take cut text) (split_loop fuel max_chars (lstrip space (drop cut text)))
]

unfoldable pub hard_split : Text → ℕ → Option (List Text)
unfolding split_loop
hard_split text max_chars = split_loop (length text) max_chars text

-- A separator and a text.
abbrev pub Piece : Type 0
Piece = Text × Text

unfoldable pub total : List Text → ℕ
total [] = 0
total (text ∷ texts) = length text + total texts

-- `_length`
unfoldable pub units_length : List Piece → ℕ
unfolding total
units_length units = total (map (λ u. u.1) units) + total (map (λ u. u.0) (drop 1 units))

abbrev pub first_separator : List Piece → Text
first_separator [] = []
first_separator ((separator, text) ∷ units) = separator

-- `_join`, for at least one unit.
unfoldable pub join : List Piece → Text
unfolding lstrip rstrip
join units =
    let whole = concat (map (λ u. u.0 ++ u.1) units) in
    rstrip newline (lstrip newline (drop (length (first_separator units)) whole))

-- The loop over `reversed(passage)`.
unfoldable pub tail_loop : ℕ → List Piece → List Piece → List Piece
unfolding units_length
tail_loop overlap [] tail = tail
tail_loop overlap (previous ∷ others) tail =
    let more = tail_loop overlap others (previous ∷ tail) in
    if ltb overlap (units_length (previous ∷ tail)) then tail else more

-- `while tail and _length(tail + [unit]) > max_chars: tail.pop(0)`
unfoldable pub pop_loop : ℕ → Piece → List Piece → List Piece
unfolding units_length
pop_loop max_chars unit [] = []
pop_loop max_chars unit (t ∷ tail) =
    let popped = pop_loop max_chars unit tail in
    if ltb max_chars (units_length ((t ∷ tail) ++ unit ∷ [])) then popped else t ∷ tail

abbrev pub onto : List Piece → List Piece → List Piece
onto [] ys = ys
onto (x ∷ xs) ys = onto xs (x ∷ ys)

-- `passage and _length(passage + [unit]) > max_chars`
unfoldable pub is_full : ℕ → List Piece → Piece → Bool
unfolding units_length
is_full max_chars [] unit = false
is_full max_chars (u ∷ passage) unit = ltb max_chars (units_length ((u ∷ passage) ++ unit ∷ []))

unfoldable pub next_passage : ℕ → ℕ → List Piece → Piece → List Piece
unfolding pop_loop tail_loop
next_passage max_chars overlap passage unit =
    pop_loop max_chars unit (tail_loop overlap (onto passage []) [])

unfoldable pub pack_loop : ℕ → ℕ → List Piece → List Piece → List Text
unfolding is_full next_passage join
pack_loop max_chars overlap [] [] = []
pack_loop max_chars overlap (u ∷ passage) [] = join (u ∷ passage) ∷ []
pack_loop max_chars overlap passage (unit ∷ units) = elim (is_full max_chars passage unit) [
  | true ↦
      join passage
      ∷ pack_loop max_chars overlap (next_passage max_chars overlap passage unit ++ unit ∷ []) units
  | false ↦ pack_loop max_chars overlap (passage ++ unit ∷ []) units
]

unfoldable pub pack : List Piece → ℕ → ℕ → List Text
unfolding pack_loop
pack units max_chars overlap = pack_loop max_chars overlap [] units
