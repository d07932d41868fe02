-- ===== src/Chunking/Fits.antt =====
-- The size of the passages of a document, and how often it is cut again, for vsearch/chunking.py.
use distributed_vector_searc.Prelude.{
  ◌∙◌, ap, lt→ltb, ℕ, zero, suc, ◌+◌, ◌≤◌, ◌<◌, ◌≡◌, refl, Bool, List, [], ◌∷◌, ◌++◌, map, Option,
  none, some, ok, leb, length, All, arith, Bool-cases, List-cases, inl, inr, All-append, range,
  length-append,
}
use distributed_vector_searc.Python.Text.{Text, codes}
use distributed_vector_searc.Chunking.Document.{
  Rules, chunk_document, piece_units, add_chunks, block_units, parts_of, part_units, pieces, Chunk,
  chunk_sections, BlockKind, units, sections, blocks,
}
use distributed_vector_searc.Chunking.{Piece, pack}
use distributed_vector_searc.Chunking.Split.{hard_split_lem}
use distributed_vector_searc.Chunking.Pack.{pack-fits}

map_append : {A B : Type 0} (f : A → B) (xs ys : List A) → map f (xs ++ ys) ≡ map f xs ++ map f ys
map_append f [] ys = refl
map_append f (x ∷ xs) ys = ap (◌∷◌ (f x)) (map_append f xs ys)

range_snoc : (s n : ℕ) → range s n ++ (s + n) ∷ [] ≡ range s (suc n)
range_snoc s zero = ap (λ m. m ∷ []) (omega arith)
range_snoc s (suc n) =
    ap (◌∷◌ s) (ap (λ m. range (suc s) n ++ m ∷ []) (omega arith) ∙ range_snoc (suc s) n)

module _ (r : Rules) (max_chars : ℕ) (pos : 0 < max_chars) where
  abbrev Fits : List Piece → Type 0
  Fits us = All (λ u. length u.1 ≤ max_chars) us

  part_units-Fits :
      (separator : Text) (parts : List Text)
      → All (λ part. (0 < length part) × (length part ≤ max_chars)) parts
      → Fits (part_units r separator parts)
  unfolding part_units
  part_units-Fits separator [] h = tt
  part_units-Fits separator (part ∷ parts) h = (h.0.1, part_units-Fits _ parts h.1)

  parts_of-Fits :
      (separator piece : Text)
      → (parts : List Text) × (parts_of r max_chars piece ≡ ok parts)
        × Fits (part_units r separator parts)
  unfolding parts_of part_units
  parts_of-Fits separator piece = elim (Bool-cases (leb (length piece) max_chars)) [
    | inl e ↦ (piece ∷ [], rw e refl, one separator piece (ground (arith, e)))
    | inr e ↦
        let (parts, splits, good) = hard_split_lem piece max_chars pos in
        (parts, rw (e, splits) refl, part_units-Fits separator parts good.fit)
  ]
    where
      one :
          (separator piece : Text)
          → length piece ≤ max_chars
          → Fits (part_units r separator (piece ∷ []))
      one separator piece h = (h, tt)

  piece_units-Fits :
      (separator : Option Text) (ps : List Piece)
      → (us : List Piece) × (piece_units r max_chars separator ps ≡ ok us) × Fits us
  unfolding piece_units
  piece_units-Fits separator [] = ([], refl, tt)
  piece_units-Fits separator ((joiner, piece) ∷ others) =
      let first : Text = elim separator [ none ↦ joiner | some text ↦ text ] in
      let (parts, cut, fit) = parts_of-Fits first piece in
      let (rest, done, good) = piece_units-Fits none others in
      (part_units r first parts ++ rest, rw (cut, done) refl, All-append _ _ rest fit good)

  block_units-Fits :
      (bs : List (BlockKind × List Text))
      → (us : List Piece) × (block_units r max_chars bs ≡ ok us) × Fits us
  unfolding block_units
  block_units-Fits [] = ([], refl, tt)
  block_units-Fits ((kind, block) ∷ others) =
      let (first, cut, fit) =
        piece_units-Fits (some (codes "\n\n")) (pieces r kind block max_chars) in
      let (rest, done, good) = block_units-Fits others in
      (first ++ rest, rw (cut, done) refl, All-append _ _ rest fit good)

  -- Chunks that fit, and are numbered from 0 in their order.
  record IsNumbered (chunks : List Chunk) : Type 0 where
    pub fit : All (λ c. length c.text ≤ max_chars) chunks
    pub numbers : map (λ c. c.index) chunks ≡ range 0 (length chunks)

  snoc-IsNumbered :
      (text heading : Text) (chunks : List Chunk)
      → length text ≤ max_chars
      → IsNumbered chunks
      → IsNumbered (chunks ++ record { text = text; heading = heading; index = length chunks } ∷ [])
  snoc-IsNumbered text heading chunks h n = record {
    fit = All-append _ chunks _ n.fit (h, tt);
    numbers =
        let last : Chunk = record { text = text; heading = heading; index = length chunks } in
        let start : length chunks ≡ 0 + length chunks = omega arith in
        let grown : suc (length chunks) ≡ length (chunks ++ last ∷ []) =
          omega (arith, length-append chunks (last ∷ [])) in
        map_append (λ c. c.index) chunks (last ∷ [])
        ∙ ap (λ is. is ++ length chunks ∷ []) n.numbers
        ∙ ap (λ m. range 0 (length chunks) ++ m ∷ []) start
        ∙ range_snoc 0 (length chunks)
        ∙ ap (range 0) grown;
  }

  add_chunks-IsNumbered :
      (heading : Text) (passages : List Text) (chunks : List Chunk)
      → All (λ text. length text ≤ max_chars) passages
      → IsNumbered chunks
      → IsNumbered (add_chunks r heading passages chunks)
  unfolding add_chunks
  add_chunks-IsNumbered heading [] chunks h n = n
  add_chunks-IsNumbered heading (passage ∷ passages) chunks h n =
      elim (List-cases (r.strip passage)) [
        | inl e ↦ rw (e, add_chunks) (add_chunks-IsNumbered heading passages chunks h.1 n)
        | inr (c, text, e) ↦
            rw (e, add_chunks)
              (add_chunks-IsNumbered heading passages _ h.1
                (snoc-IsNumbered passage heading chunks h.0 n))
      ]

  chunk_sections-IsNumbered :
      (overlap : ℕ) (ss : List (Text × List Text)) (chunks : List Chunk)
      → IsNumbered chunks
      → (all : List Chunk) × (chunk_sections r max_chars overlap ss chunks ≡ ok all)
        × IsNumbered all
  unfolding chunk_sections units
  chunk_sections-IsNumbered overlap [] chunks n = (chunks, refl, n)
  chunk_sections-IsNumbered overlap ((heading, body) ∷ others) chunks n =
      let (us, cut, fit) = block_units-Fits (blocks r body) in
      let (all, done, good) =
        chunk_sections-IsNumbered overlap others
          (add_chunks r heading (pack us max_chars overlap) chunks)
          (add_chunks-IsNumbered heading (pack us max_chars overlap) chunks
            (pack-fits us max_chars overlap fit) n) in
      (all, rw (cut, chunk_sections) done, good)

-- If the overlap is smaller than the limit, then chunk_document returns for any text, any rules for
-- its lines, and with or without headings: no passage is longer than the limit, and the passages
-- are numbered from 0 in their order.
pub chunk_document_lem :
    (r : Rules) (text : Text) (max_chars overlap : ℕ) (headings : Bool)
    → overlap < max_chars
    → (chunks : List Chunk) × (chunk_document r text max_chars overlap headings ≡ ok chunks)
      × All (λ c. length c.text ≤ max_chars) chunks
      × (map (λ c. c.index) chunks ≡ range 0 (length chunks))
unfolding chunk_document
chunk_document_lem r text max_chars overlap headings h =
    let (chunks, done, n) =
      chunk_sections-IsNumbered r max_chars (omega (arith, h)) overlap
        (sections r (r.splitlines text) headings) [] (record { fit = tt; numbers = refl }) in
    (chunks, rw (lt→ltb overlap max_chars h) done, n.fit, n.numbers)
