-- ===== src/Chunking/Pack.antt =====
-- The passages that `_pack` makes are no longer than they may be.
use distributed_vector_searc.Prelude.{
  ℕ, ◌+◌, ◌≤◌, ◌≡◌, refl, false, List, [], ◌∷◌, ◌++◌, map, arith, ltb, length, drop, concat, All,
  length-append, length-drop, Bool-cases, inl, inr,
}
use distributed_vector_searc.Python.Text.{Text}
use distributed_vector_searc.Chunking.{
  newline, lstrip, rstrip, Piece, total, units_length, join, tail_loop, pop_loop, is_full,
  next_passage, pack_loop, pack, onto,
}
use distributed_vector_searc.Chunking.Split.{length-lstrip}

length-rstrip : (c : ℕ) (text : Text) → length (rstrip c text) ≤ length text
unfolding rstrip
length-rstrip c [] = omega arith
length-rstrip c (x ∷ text) = ground (arith, length-rstrip c text)

length-concat-pieces :
    (units : List Piece)
    → length (concat (map (λ u. u.0 ++ u.1) units))
      ≡ total (map (λ u. u.0) units) + total (map (λ u. u.1) units)
unfolding total
length-concat-pieces [] = refl
length-concat-pieces ((sep, text) ∷ units) = omega (
  arith,
  length-concat-pieces units,
  length-append sep text,
  length-append (sep ++ text) (concat (map (λ u. u.0 ++ u.1) units)),
)

length-join : (units : List Piece) → length (join units) ≤ units_length units
unfolding join units_length total
length-join [] = ground arith
length-join ((sep, text) ∷ units) =
    let whole = concat (map (λ u. u.0 ++ u.1) ((sep, text) ∷ units)) in
    let body = drop (length sep) whole in
    omega (
      arith,
      length-rstrip newline (lstrip newline body),
      length-lstrip newline body,
      length-drop (length sep) whole,
      length-concat-pieces ((sep, text) ∷ units),
    )

units_length-one : (unit : Piece) → units_length (unit ∷ []) ≡ length unit.1
unfolding units_length total
units_length-one unit = omega arith

pop_loop-fits :
    (max_chars : ℕ) (unit : Piece) (tail : List Piece)
    → length unit.1 ≤ max_chars
    → units_length (pop_loop max_chars unit tail ++ unit ∷ []) ≤ max_chars
unfolding pop_loop
pop_loop-fits max_chars unit [] h = omega (arith, units_length-one unit)
pop_loop-fits max_chars unit (t ∷ tail) h =
    elim (Bool-cases (ltb max_chars (units_length ((t ∷ tail) ++ unit ∷ [])))) [
      | inl full ↦ rw (full, pop_loop) (pop_loop-fits max_chars unit tail h)
      | inr room ↦ rw (room, pop_loop) (not_less _ _ room)
    ]
  where
    not_less : (m n : ℕ) → ltb m n ≡ false → n ≤ m
    not_less m n e = ground arith

is_full-fits :
    (max_chars : ℕ) (passage : List Piece) (unit : Piece)
    → length unit.1 ≤ max_chars
    → is_full max_chars passage unit ≡ false
    → units_length (passage ++ unit ∷ []) ≤ max_chars
unfolding is_full
is_full-fits max_chars [] unit h e = omega (arith, units_length-one unit)
is_full-fits max_chars (u ∷ passage) unit h e = not_less _ _ e
  where
    not_less : (m n : ℕ) → ltb m n ≡ false → n ≤ m
    not_less m n e = ground arith

pack_loop-fits :
    (max_chars overlap : ℕ) (passage units : List Piece)
    → units_length passage ≤ max_chars
    → All (λ u. length u.1 ≤ max_chars) units
    → All (λ text. length text ≤ max_chars) (pack_loop max_chars overlap passage units)
unfolding pack_loop next_passage
pack_loop-fits max_chars overlap [] [] h k = tt
pack_loop-fits max_chars overlap (u ∷ passage) [] h k =
    (omega (arith, length-join (u ∷ passage)), tt)
pack_loop-fits max_chars overlap passage (unit ∷ units) h k =
    let carried = tail_loop overlap (onto passage []) [] in
    elim (Bool-cases (is_full max_chars passage unit)) [
      | inl full ↦
          rw (full, pack_loop)
            (
              omega (arith, length-join passage),
              pack_loop-fits max_chars overlap (pop_loop max_chars unit carried ++ unit ∷ []) units
                  (pop_loop-fits max_chars unit carried k.0) k.1,
            )
      | inr room ↦
          rw (room, pack_loop)
            (pack_loop-fits max_chars overlap (passage ++ unit ∷ []) units
              (is_full-fits max_chars passage unit k.0 room) k.1)
    ]

-- If no unit is longer than the limit, then no passage that pack makes of the units is longer than
-- the limit, for every overlap.
pub pack-fits :
    (units : List Piece) (max_chars overlap : ℕ)
    → All (λ u. length u.1 ≤ max_chars) units
    → All (λ text. length text ≤ max_chars) (pack units max_chars overlap)
unfolding pack units_length
pack-fits units max_chars overlap h = pack_loop-fits max_chars overlap [] units (ground arith) h
