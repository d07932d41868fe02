-- ===== src/Chunking/Lines.antt =====
-- The lines of a document and of its sections, for vsearch/chunking.py.
use distributed_vector_searc.Prelude.{
  ℕ, ◌≡◌, refl, ap, ◌∙◌, Bool, List, [], ◌∷◌, ◌++◌, map, Option, none, some, concat, append_assoc,
  append-nil, Option-cases, Bool-cases, inl, inr, All, arith, ◌⊎◌, if◌then◌else◌, sym, subst,
}
use distributed_vector_searc.Python.Text.{Text, text_eq, text_eq→eq, text_eq_refl}
use distributed_vector_searc.Chunking.Document.{
  Rules, sections, next_fence, section_loop, heading_of, deeper,
}

-- The parts of a document, as lines: the lines of a block of code, with its first and its last one, belong
-- together, and an unclosed block is the last part.
pub data Part : Type 0 where
  plain title : Text → Part
  block : Text → List Text → Text → Part
  unclosed : Text → List Text → Part

abbrev pub lines_of : Part → List Text
lines_of (plain line) = line ∷ []
lines_of (title line) = line ∷ []
lines_of (block opening inner closing) = opening ∷ inner ++ closing ∷ []
lines_of (unclosed opening inner) = opening ∷ inner

-- The lines of a part that belong to the body of a section.
abbrev pub body_of : Part → List Text
body_of (title line) = []
body_of part = lines_of part

abbrev pub MayPrecede : Part → List Part → Type 0
MayPrecede (unclosed opening inner) (part ∷ parts) = ⊥
MayPrecede _ parts = Unit

module _ (r : Rules) (headings : Bool) where
  -- The lines that are no headings; a line inside of a code block is none.
  unfoldable pub body_lines : Option Text → List Text → List Text
  body_lines fence [] = []
  body_lines fence (line ∷ rest) =
      let others = body_lines (next_fence (r.fence line) fence) rest in
      elim (heading_of r headings (next_fence (r.fence line) fence) line) [
        | none ↦ line ∷ others
        | some heading ↦ others
      ]

  section_loop_lem :
      (rest : List Text) (trail : List (ℕ × Text)) (body : List Text) (fence : Option Text)
      → concat (map (λ s. s.1) (section_loop r headings rest trail body fence))
        ≡ body ++ body_lines fence rest
  unfolding section_loop body_lines
  section_loop_lem [] trail body fence = refl
  section_loop_lem (line ∷ rest) trail body fence =
      let opened = next_fence (r.fence line) fence in
      elim (Option-cases (heading_of r headings opened line)) [
        | inl e ↦
            rw (e, section_loop, body_lines)
              (section_loop_lem rest trail (body ++ line ∷ []) opened
                ∙ append_assoc body (line ∷ []) (body_lines opened rest))
        | inr (heading, e) ↦
            rw (e, section_loop, body_lines)
              (ap (◌++◌ body) (section_loop_lem rest (deeper trail heading.0 heading.1) [] opened))
      ]

  sections-body_lines :
      (text_lines : List Text)
      → concat (map (λ s. s.1) (sections r text_lines headings)) ≡ body_lines none text_lines
  unfolding sections
  sections-body_lines text_lines = section_loop_lem text_lines [] [] none

  -- What a line outside of a block of code is as a heading, if headings are looked for.
  abbrev pub as_heading : Text → Option (ℕ × Text)
  as_heading line = if headings then r.heading line else none

  -- A line or a heading has no marker of a block. A block opens with a marker and goes on to the next line
  -- that has the same one, or to the end.
  abbrev pub Fits : Part → Type 0
  Fits (plain line) = (r.fence line ≡ none) × (as_heading line ≡ none)
  Fits (title line) = (r.fence line ≡ none) × (h : ℕ × Text) × (as_heading line ≡ some h)
  Fits (block opening inner closing) =
      (marker : Text) × (r.fence opening ≡ some marker)
      × All (λ line. ¬ (r.fence line ≡ some marker)) inner
      × (r.fence closing ≡ some marker)
  Fits (unclosed opening inner) =
      (marker : Text) × (r.fence opening ≡ some marker)
      × All (λ line. ¬ (r.fence line ≡ some marker)) inner

  abbrev pub IsDocument : List Part → Type 0
  IsDocument [] = Unit
  IsDocument (part ∷ parts) = Fits part × MayPrecede part parts × IsDocument parts

  heading_of-fenced : (line marker : Text) → heading_of r headings (some marker) line ≡ none
  unfolding heading_of
  heading_of-fenced line marker = ground arith

  heading_of-marked :
      (line marker : Text) → r.fence line ≡ some marker → heading_of r headings none line ≡ none
  unfolding heading_of
  heading_of-marked line marker h = ground (arith, h)

  heading_of-as_heading :
      (line : Text) → r.fence line ≡ none → heading_of r headings none line ≡ as_heading line
  unfolding heading_of
  heading_of-as_heading line h =
      rw (h, heading_of) (elim (Bool-cases headings) [ inl e ↦ rw e refl | inr e ↦ rw e refl ])

  -- The parts of lines that start outside of a block, and of lines that start in a block with a marker.
  record Outside (text_lines : List Text) : Type 0 where
    parts : List Part
    document : IsDocument parts
    same : concat (map lines_of parts) ≡ text_lines
    bodies : concat (map body_of parts) ≡ body_lines none text_lines

  record Inside (marker : Text) (text_lines : List Text) : Type 0 where
    inner : List Text
    open_lines : All (λ line. ¬ (r.fence line ≡ some marker)) inner
    ends :
        ((closing : Text) × (after : List Text) × (r.fence closing ≡ some marker)
          × (text_lines ≡ inner ++ closing ∷ after)
          × (body_lines (some marker) text_lines ≡ inner ++ closing ∷ body_lines none after)
          × Outside after)
        ⊎ ((text_lines ≡ inner) × (body_lines (some marker) text_lines ≡ inner))

  body_line :
      (fence next : Option Text) (line : Text) (rest : List Text)
      → next_fence (r.fence line) fence ≡ next
      → heading_of r headings next line ≡ none
      → body_lines fence (line ∷ rest) ≡ line ∷ body_lines next rest
  unfolding body_lines
  body_line fence next line rest e =
      subst
        (λ n.
          heading_of r headings n line ≡ none
          → body_lines fence (line ∷ rest) ≡ line ∷ body_lines n rest)
        e (λ h. rw (h, body_lines) refl)

  body_title :
      (fence next : Option Text) (line : Text) (rest : List Text) (found : ℕ × Text)
      → next_fence (r.fence line) fence ≡ next
      → heading_of r headings next line ≡ some found
      → body_lines fence (line ∷ rest) ≡ body_lines next rest
  unfolding body_lines
  body_title fence next line rest found e =
      subst
        (λ n.
          heading_of r headings n line ≡ some found
          → body_lines fence (line ∷ rest) ≡ body_lines n rest)
        e (λ h. rw (h, body_lines) refl)

  -- A line in a block that stays open.
  Inside-next :
      (marker line : Text) (rest : List Text)
      → next_fence (r.fence line) (some marker) ≡ some marker
      → ¬ (r.fence line ≡ some marker)
      → Inside marker rest
      → Inside marker (line ∷ rest)
  Inside-next marker line rest stays differs i =
      let body : body_lines (some marker) (line ∷ rest) ≡ line ∷ body_lines (some marker) rest =
        body_line (some marker) (some marker) line rest stays (heading_of-fenced line marker) in
      record {
        inner = line ∷ i.inner;
        open_lines = (differs, i.open_lines);
        ends = elim i.ends [
          | inl (closing, after, marked, split, bodies, o) ↦
              inl (closing, after, marked, ap (◌∷◌ line) split, body ∙ ap (◌∷◌ line) bodies, o)
          | inr (all, bodies) ↦ inr (ap (◌∷◌ line) all, body ∙ ap (◌∷◌ line) bodies)
        ];
      }

  Inside-line :
      (marker line : Text) (rest : List Text)
      → Outside rest
      → Inside marker rest
      → Inside marker (line ∷ rest)
  unfolding next_fence
  Inside-line marker line rest o i = elim (Option-cases (r.fence line)) [
    | inl e ↦
        Inside-next marker line rest (rw (e, next_fence) refl)
          (λ h. let wrong : none ≡ some marker = sym e ∙ h in cc) i
    | inr (found, e) ↦ elim (Bool-cases (text_eq found marker)) [
      | inl same ↦
          let marked : r.fence line ≡ some marker = e ∙ ap some (text_eq→eq found marker same) in
          let closes : next_fence (r.fence line) (some marker) ≡ none =
            rw (e, next_fence) (rw same refl) in
          record {
            inner = [];
            open_lines = tt;
            ends = inl (
              line,
              rest,
              marked,
              refl,
              body_line (some marker) none line rest closes (heading_of-marked line marker marked),
              o,
            );
          }
      | inr other ↦
          Inside-next marker line rest (rw (e, next_fence) (rw other refl))
            (λ h. ground (arith, other, e, h, text_eq_refl marker)) i
    ]
  ]

  Outside-block :
      (line : Text) (rest : List Text) (marker : Text)
      → r.fence line ≡ some marker
      → Inside marker rest
      → Outside (line ∷ rest)
  unfolding next_fence
  Outside-block line rest marker e i =
      let opens : next_fence (r.fence line) none ≡ some marker = rw (e, next_fence) refl in
      let body = body_line none (some marker) line rest opens (heading_of-fenced line marker) in
      elim i.ends [
        | inl (closing, after, marked, split, bodies, o) ↦ record {
          parts = block line i.inner closing ∷ o.parts;
          document = ((marker, e, i.open_lines, marked), tt, o.document);
          same = ap (◌∷◌ line) (
              append_assoc i.inner (closing ∷ []) (concat (map lines_of o.parts))
              ∙ ap (λ ls. i.inner ++ closing ∷ ls) o.same
              ∙ sym split);
          bodies =
              ap (◌∷◌ line) (
                append_assoc i.inner (closing ∷ []) (concat (map body_of o.parts))
                ∙ ap (λ ls. i.inner ++ closing ∷ ls) o.bodies
                ∙ sym bodies)
              ∙ sym body;
        }
        | inr (all, bodies) ↦ record {
          parts = unclosed line i.inner ∷ [];
          document = ((marker, e, i.open_lines), tt, tt);
          same = ap (◌∷◌ line) (append-nil i.inner ∙ sym all);
          bodies = ap (◌∷◌ line) (append-nil i.inner ∙ sym bodies) ∙ sym body;
        }
      ]

  Outside-line :
      (line : Text) (rest : List Text)
      → Outside rest
      → ((marker : Text) → Inside marker rest)
      → Outside (line ∷ rest)
  unfolding next_fence
  Outside-line line rest o i = elim (Option-cases (r.fence line)) [
    | inr (marker, e) ↦ Outside-block line rest marker e (i marker)
    | inl e ↦
        let stays : next_fence (r.fence line) none ≡ none = rw (e, next_fence) refl in
        elim (Option-cases (as_heading line)) [
          | inl none_there ↦ record {
            parts = plain line ∷ o.parts;
            document = ((e, none_there), tt, o.document);
            same = ap (◌∷◌ line) o.same;
            bodies =
                ap (◌∷◌ line) o.bodies
                ∙ sym (
                    body_line none none line rest stays
                      (heading_of-as_heading line e ∙ none_there));
          }
          | inr (h, there) ↦ record {
            parts = title line ∷ o.parts;
            document = ((e, h, there), tt, o.document);
            same = ap (◌∷◌ line) o.same;
            bodies =
                o.bodies
                ∙ sym
                    (body_title none none line rest h stays (heading_of-as_heading line e ∙ there));
          }
        ]
  ]

  parts_given :
      (text_lines : List Text) → Outside text_lines × ((marker : Text) → Inside marker text_lines)
  unfolding body_lines
  parts_given [] = (
    record { parts = []; document = tt; same = refl; bodies = refl },
    λ marker. record { inner = []; open_lines = tt; ends = inr (refl, refl) },
  )
  parts_given (line ∷ rest) =
      let (o, i) = parts_given rest in
      (Outside-line line rest o i, λ marker. Inside-line marker line rest o (i marker))

  -- For any rules, the lines of a document are those of a sequence of parts: plain lines and
  -- headings, which have no marker of a code block, and code blocks, each from a line with a marker
  -- to the next line that has the same marker, or to the end of the document if none has. A heading
  -- is a line that the rules take for one, if headings are looked for, and a plain line is none.
  -- The bodies of the sections of the document, one after the other, are the lines of these parts,
  -- but for the headings.
  pub sections_lem :
      (text_lines : List Text)
      → (parts : List Part) × IsDocument parts
        × (concat (map lines_of parts) ≡ text_lines)
        × (concat (map (λ s. s.1) (sections r text_lines headings)) ≡ concat (map body_of parts))
  sections_lem text_lines =
      let o = (parts_given text_lines).0 in
      (o.parts, o.document, o.same, sections-body_lines text_lines ∙ sym o.bodies)
