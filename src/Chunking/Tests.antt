-- ===== src/Chunking/Tests.antt =====
-- Runs of the splitting and packing of passages.
use distributed_vector_searc.Prelude.{
  true, false, map, none, ok, take, drop, concat, range, if◌then◌else◌, ◌≤◌, ◌≡◌, refl, List, [],
  ◌∷◌, some, arith, All, length,
}
use distributed_vector_searc.Python.Text.{Text, codes, text_eq}
use distributed_vector_searc.Chunking.Document.{Rules, Chunk, chunk_document, sections}
use distributed_vector_searc.Chunking.Fits.{chunk_document_lem}
use distributed_vector_searc.Chunking.{hard_split, Piece, pack}
use distributed_vector_searc.Chunking.Split.{IsSplit, hard_split_lem}
use distributed_vector_searc.Chunking.Lines.{Part, lines_of, body_of, IsDocument, sections_lem}

hard_split_run :
    hard_split (codes "one two threefour") 5
    ≡ some (codes "one" ∷ codes "two" ∷ codes "three" ∷ codes "four" ∷ [])
unfolding hard_split
hard_split_run = refl

hard_split_lem_example :
    (parts : List Text) × (hard_split (codes "one two threefour") 5 ≡ some parts)
    × IsSplit 5 (codes "one two threefour") parts
hard_split_lem_example = hard_split_lem (codes "one two threefour") 5 (omega arith)

abbrev three_units : List Piece
three_units = (codes "  ", codes "abc") ∷ (codes " ", codes "de") ∷ (codes " ", codes "fgh") ∷ []

pack_run : pack three_units 6 3 ≡ codes "abc de" ∷ codes "de fgh" ∷ []
unfolding pack
pack_run = refl

-- Rules for lines of ASCII: a heading starts with one mark and a space.
abbrev rules : Rules
rules = record {
  fence = λ line. if text_eq line (codes "```") then some line else none;
  heading = λ line. if text_eq (take 2 line) (codes "# ") then some (1, drop 2 line) else none;
  is_structured = λ line. false;
  sentences = λ text. text ∷ [];
  strip = λ text. text;
  rstrip = λ text. text;
  splitlines = λ text. codes "# One" ∷ codes "some text" ∷ codes "```" ∷ codes "# no" ∷ [];
}

chunk_document_run :
    chunk_document rules [] 8 2 true
    ≡ ok (
        record { text = codes "some"; heading = codes "One"; index = 0 }
        ∷ record { text = codes "text"; heading = codes "One"; index = 1 }
        ∷ record { text = codes "```\n# no"; heading = codes "One"; index = 2 }
        ∷ [])
unfolding chunk_document
chunk_document_run = refl

chunk_document_lem_example :
    (chunks : List Chunk) × (chunk_document rules [] 8 2 true ≡ ok chunks)
    × All (λ c. length c.text ≤ 8) chunks
    × (map (λ c. c.index) chunks ≡ range 0 (length chunks))
chunk_document_lem_example = chunk_document_lem rules [] 8 2 true (omega arith)

abbrev some_lines : List Text
some_lines =
    codes "# One" ∷ codes "text" ∷ codes "```" ∷ codes "# no" ∷ codes "```" ∷ codes "more" ∷ []

sections_run :
    concat (map (λ s. s.1) (sections rules some_lines true))
    ≡ codes "text" ∷ codes "```" ∷ codes "# no" ∷ codes "```" ∷ codes "more" ∷ []
unfolding sections
sections_run = refl

sections_lem_example :
    (parts : List Part) × IsDocument rules true parts
    × (concat (map lines_of parts) ≡ some_lines)
    × (concat (map (λ s. s.1) (sections rules some_lines true)) ≡ concat (map body_of parts))
sections_lem_example = sections_lem rules true some_lines
