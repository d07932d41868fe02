-- ===== src/Chunking/Document.antt =====
-- The rest of vsearch/chunking.py: sections, blocks, pieces, units, and `chunk_document`. What the regular
-- expressions find in a line, and white space, are the parameter `Rules`. What a function yields is a list.
use distributed_vector_searc.Prelude.{
  ℕ, Bool, true, false, ◌&&◌, not, List, [], ◌∷◌, ◌++◌, map, Option, none, some, Result, Error, ok,
  err, ◌>>=◌, ltb, leb, if◌then◌else◌, length, any, keep,
}
use distributed_vector_searc.Python.Text.{Text, text_eq, codes, join_with}
use distributed_vector_searc.Chunking.{Piece, hard_split, pack}

pub record Chunk : Type 0 where
  pub text : Text
  pub heading : Text
  pub index : ℕ

-- `_FENCE.match` with the marker, `_HEADING.match` with the level and the title, whether
-- `_LINE_STRUCTURED` matches, `_SENTENCE_END.split`, `str.strip()`, `str.rstrip()` and `str.splitlines()`.
pub record Rules : Type 0 where
  pub fence : Text → Option Text
  pub heading : Text → Option (ℕ × Text)
  pub is_structured : Text → Bool
  pub sentences : Text → List Text
  pub strip : Text → Text
  pub rstrip : Text → Text
  pub splitlines : Text → List Text

pub data BlockKind : Type 0 where
  prose lines code : BlockKind

abbrev pub is_some : {A : Type 0} → Option A → Bool
is_some none = false
is_some (some a) = true

-- The marker of the code block that is open after a line with this marker.
unfoldable pub next_fence : Option Text → Option Text → Option Text
next_fence none fence = fence
next_fence (some marker) none = some marker
next_fence (some marker) (some opened) = if text_eq marker opened then none else some opened

-- " > ".join(title for _, title in trail)
unfoldable pub trail_text : List (ℕ × Text) → Text
unfolding join_with
trail_text trail = join_with (codes " > ") (map (λ entry. entry.1) trail)

unfoldable pub deeper : List (ℕ × Text) → ℕ → Text → List (ℕ × Text)
deeper trail level title = keep (λ entry. ltb entry.0 level) trail ++ (level, title) ∷ []

-- `if block: yield kind, block`
unfoldable pub yield_block : BlockKind → List Text → List (BlockKind × List Text)
yield_block kind [] = []
yield_block kind (line ∷ block) = (kind, line ∷ block) ∷ []

-- `items[-1] += " " + line`
unfoldable pub extend_last : List Text → Text → List Text
extend_last [] line = []
extend_last (item ∷ []) line = (item ++ codes " " ++ line) ∷ []
extend_last (item ∷ next ∷ items) line = item ∷ extend_last (next ∷ items) line

abbrev pub has_items : List Text → Bool
has_items [] = false
has_items (item ∷ items) = true

module _ (r : Rules) where
  -- Whether a line is a heading, once the fences are up to date.
  unfoldable pub heading_of : Bool → Option Text → Text → Option (ℕ × Text)
  heading_of headings fence line =
      if headings && not (is_some fence) && not (is_some (r.fence line))
      then r.heading line
      else none

  -- The loop of `_sections`.
  unfoldable pub section_loop :
      Bool → List Text → List (ℕ × Text) → List Text → Option Text → List (Text × List Text)
  unfolding trail_text next_fence heading_of deeper
  section_loop headings [] trail body fence = (trail_text trail, body) ∷ []
  section_loop headings (line ∷ rest) trail body fence =
      let fence' = next_fence (r.fence line) fence in
      elim (heading_of headings fence' line) [
        | none ↦ section_loop headings rest trail (body ++ line ∷ []) fence'
        | some (level, title) ↦
            (trail_text trail, body)
            ∷ section_loop headings rest (deeper trail level title) [] fence'
      ]

  unfoldable pub sections : List Text → Bool → List (Text × List Text)
  unfolding section_loop
  sections text_lines headings = section_loop headings text_lines [] [] none

  unfoldable pub block_kind : List Text → BlockKind
  block_kind block = if any r.is_structured block then lines else prose

  -- The kind of what is left when the lines end.
  abbrev pub last_kind : Option Text → List Text → BlockKind
  last_kind (some marker) block = code
  last_kind none block = block_kind block

  -- A line inside of code, with what follows.
  abbrev pub ends_code : Option Text → Text → Bool
  ends_code none opened = false
  ends_code (some marker) opened = text_eq marker opened

  -- The loop of `_blocks`.
  unfoldable pub block_loop : List Text → List Text → Option Text → List (BlockKind × List Text)
  unfolding yield_block block_kind
  block_loop [] block fence = yield_block (last_kind fence block) block
  block_loop (line ∷ rest) block (some opened) = elim (ends_code (r.fence line) opened) [
    | true ↦ (code, block ++ r.rstrip line ∷ []) ∷ block_loop rest [] none
    | false ↦ block_loop rest (block ++ r.rstrip line ∷ []) (some opened)
  ]
  block_loop (line ∷ rest) block none = elim (r.fence line) [
    | some marker ↦
        yield_block (block_kind block) block ++ block_loop rest (r.rstrip line ∷ []) (some marker)
    | none ↦ elim (r.strip line) [
      | c ∷ text ↦ block_loop rest (block ++ r.rstrip line ∷ []) none
      | [] ↦ yield_block (block_kind block) block ++ block_loop rest [] none
    ]
  ]

  unfoldable pub blocks : List Text → List (BlockKind × List Text)
  unfolding block_loop
  blocks text_lines = block_loop text_lines [] none

  -- The items of a block of lines: a line that starts none continues the last.
  unfoldable pub item_loop : List Text → List Text → List Text
  unfolding extend_last
  item_loop items [] = items
  item_loop items (line ∷ block) = elim (has_items items && not (r.is_structured line)) [
    | true ↦ item_loop (extend_last items (r.strip line)) block
    | false ↦ item_loop (items ++ line ∷ []) block
  ]

  -- `first, *rest = _sentences(item)`; a split gives one part at least.
  abbrev pub item_parts : List Text → List Piece
  item_parts [] = []
  item_parts (first ∷ rest) = (codes "\n", first) ∷ map (λ s. (codes " ", s)) rest

  unfoldable pub item_pieces : ℕ → Text → List Piece
  item_pieces max_chars item =
      if leb (length item) max_chars then (codes "\n", item) ∷ [] else item_parts (r.sentences item)

  abbrev pub gather_pieces : ℕ → List Text → List Piece
  gather_pieces max_chars [] = []
  gather_pieces max_chars (item ∷ items) =
      item_pieces max_chars item ++ gather_pieces max_chars items

  -- `_pieces`
  unfoldable pub pieces : BlockKind → List Text → ℕ → List Piece
  unfolding item_loop item_pieces join_with
  pieces code block max_chars = map (λ line. (codes "\n", line)) block
  pieces prose block max_chars =
      map (λ s. (codes " ", s)) (r.sentences (join_with (codes " ") (map r.strip block)))
  pieces lines block max_chars = gather_pieces max_chars (item_loop [] block)

  -- `[piece] if len(piece) <= max_chars else _hard_split(piece, max_chars)`
  unfoldable pub parts_of : ℕ → Text → Result (List Text)
  unfolding hard_split
  parts_of max_chars piece =
      if leb (length piece) max_chars then ok (piece ∷ []) else elim (hard_split piece max_chars) [
        | none ↦ err Error.out_of_fuel
        | some parts ↦ ok parts
      ]

  -- The parts of a piece as units: the separator stands before the first, a space before the others.
  unfoldable pub part_units : Text → List Text → List Piece
  part_units separator [] = []
  part_units separator (part ∷ parts) = (separator, part) ∷ part_units (codes " ") parts

  -- The units of the pieces: `separator` is the one for the next piece, or None for its joiner.
  unfoldable pub piece_units : ℕ → Option Text → List Piece → Result (List Piece)
  unfolding parts_of part_units
  piece_units max_chars separator [] = ok []
  piece_units max_chars separator ((joiner, piece) ∷ others) = do
    parts ← parts_of max_chars piece
    rest ← piece_units max_chars none others
    ok (part_units (elim separator [ none ↦ joiner | some first ↦ first ]) parts ++ rest)

  unfoldable pub block_units : ℕ → List (BlockKind × List Text) → Result (List Piece)
  unfolding pieces piece_units
  block_units max_chars [] = ok []
  block_units max_chars ((kind, block) ∷ others) = do
    first ← piece_units max_chars (some (codes "\n\n")) (pieces kind block max_chars)
    rest ← block_units max_chars others
    ok (first ++ rest)

  -- `_units`
  unfoldable pub units : List Text → ℕ → Result (List Piece)
  unfolding blocks block_units
  units text_lines max_chars = block_units max_chars (blocks text_lines)

  -- `if passage.strip(): chunks.append(...)`, for the passages of a section.
  unfoldable pub add_chunks : Text → List Text → List Chunk → List Chunk
  add_chunks heading [] chunks = chunks
  add_chunks heading (passage ∷ passages) chunks = elim (r.strip passage) [
    | [] ↦ add_chunks heading passages chunks
    | c ∷ text ↦
        add_chunks heading passages
          (chunks ++ record { text = passage; heading = heading; index = length chunks } ∷ [])
  ]

  unfoldable pub chunk_sections : ℕ → ℕ → List (Text × List Text) → List Chunk → Result (List Chunk)
  unfolding units pack add_chunks
  chunk_sections max_chars overlap [] chunks = ok chunks
  chunk_sections max_chars overlap ((heading, body) ∷ others) chunks = do
    us ← units body max_chars
    chunk_sections max_chars overlap others (add_chunks heading (pack us max_chars overlap) chunks)

  unfoldable pub chunk_document : Text → ℕ → ℕ → Bool → Result (List Chunk)
  unfolding sections chunk_sections
  chunk_document text max_chars overlap headings =
      if ltb overlap max_chars
      then chunk_sections max_chars overlap (sections (r.splitlines text) headings) []
      else err Error.value_error
