-- ===== src/Chunking/Split.antt =====
-- `_hard_split` ends, cuts small enough parts, and loses nothing but spaces.
use distributed_vector_searc.Prelude.{
  ℕ, zero, suc, ◌+◌, ◌<◌, ◌≤◌, ◌≡◌, refl, ap, sym, ◌∙◌, Bool, not, List, [], ◌∷◌, ◌++◌, some, arith,
  ◌==◌, ltb, length, take, drop, concat, keep, All, length-take, length-drop, take-append-drop,
  Bool-cases, inl, inr, Option-cases, ltb→lt, append-nil,
}
use distributed_vector_searc.Python.Text.{Text}
use distributed_vector_searc.Chunking.{
  space, rfind, lstrip, cut_at, last_part, split_loop, hard_split,
}

-- The characters of a text that are no spaces.
abbrev pub is_ink : ℕ → Bool
is_ink c = not (c == space)

rfind-bounds :
    (c pos : ℕ) (text : Text) (i : ℕ)
    → rfind c pos text ≡ some i
    → (pos ≤ i) × (i < pos + length text)
unfolding rfind
rfind-bounds c pos [] i h = cc
rfind-bounds c pos (x ∷ text) i h = ground (arith, rfind-bounds c (suc pos) text i)

cut_at-bounds :
    (max_chars : ℕ) (text : Text)
    → 0 < max_chars
    → max_chars < length text
    → (0 < cut_at max_chars text) × (cut_at max_chars text ≤ max_chars)
unfolding cut_at
cut_at-bounds max_chars text pos long =
    let slice = take max_chars (drop 1 text) in
    elim (Option-cases (rfind space 1 slice)) [
      | inl e ↦ rw (e, cut_at) (pos, omega arith)
      | inr (i, e) ↦
          let found = rfind-bounds space 1 slice i e in
          rw (e, cut_at) (ground (arith, found, length-take max_chars (drop 1 text)))
    ]

pub length-lstrip : (c : ℕ) (text : Text) → length (lstrip c text) ≤ length text
unfolding lstrip
length-lstrip c [] = omega arith
length-lstrip c (x ∷ text) = ground (arith, length-lstrip c text)

keep-lstrip : (text : Text) → keep is_ink (lstrip space text) ≡ keep is_ink text
unfolding lstrip
keep-lstrip [] = refl
keep-lstrip (x ∷ text) = ground (arith, keep-lstrip text)

keep-append : (s t : Text) → keep is_ink (s ++ t) ≡ keep is_ink s ++ keep is_ink t
keep-append [] t = refl
keep-append (x ∷ s) t = ground (arith, keep-append s t)

-- Parts of the right size that have the same characters as a text, but for spaces.
pub record IsSplit (max_chars : ℕ) (text : Text) (parts : List Text) : Type 0 where
  pub fit : All (λ part. (0 < length part) × (length part ≤ max_chars)) parts
  pub same : keep is_ink (concat parts) ≡ keep is_ink text

last_part-IsSplit :
    (max_chars : ℕ) (text : Text)
    → length text ≤ max_chars
    → IsSplit max_chars text (last_part text)
last_part-IsSplit max_chars [] h = record { fit = tt; same = refl }
last_part-IsSplit max_chars (c ∷ text) h = record {
  fit = ((omega arith, omega arith), tt);
  same = ap (keep is_ink) (append-nil (c ∷ text));
}

Cut-IsSplit :
    (max_chars cut : ℕ) (text : Text) (parts : List Text)
    → 0 < cut
    → cut ≤ max_chars
    → cut ≤ length text
    → IsSplit max_chars (lstrip space (drop cut text)) parts
    → IsSplit max_chars text (take cut text ∷ parts)
Cut-IsSplit max_chars cut text parts pos small inside r = record {
  fit = ((omega (arith, length-take cut text), omega (arith, length-take cut text)), r.fit);
  same =
      keep-append (take cut text) (concat parts)
      ∙ ap (λ t. keep is_ink (take cut text) ++ t) (r.same ∙ keep-lstrip (drop cut text))
      ∙ sym (keep-append (take cut text) (drop cut text))
      ∙ ap (keep is_ink) (take-append-drop cut text);
}

split_loop_lem :
    (fuel max_chars : ℕ) (text : Text)
    → 0 < max_chars
    → length text ≤ fuel
    → (parts : List Text) × (split_loop fuel max_chars text ≡ some parts)
      × IsSplit max_chars text parts
unfolding split_loop
split_loop_lem zero max_chars text pos h =
    (last_part text, ground arith, last_part-IsSplit max_chars text (omega arith))
split_loop_lem (suc fuel) max_chars text pos h = elim (Bool-cases (ltb max_chars (length text))) [
  | inr short ↦
      (last_part text, rw (short, split_loop) refl, last_part-IsSplit max_chars text (ground arith))
  | inl long ↦
      let longer : max_chars < length text = ltb→lt _ _ long in
      let cut = cut_at max_chars text in
      let bounds = cut_at-bounds max_chars text pos longer in
      let (parts, splits, good) =
        split_loop_lem fuel max_chars (lstrip space (drop cut text)) pos
          (omega (arith, bounds.0, length-lstrip space (drop cut text), length-drop cut text)) in
      (
        take cut text ∷ parts,
        rw (long, split_loop) (rw splits refl),
        Cut-IsSplit max_chars cut text parts bounds.0 bounds.1 (omega (arith, bounds.1)) good,
      )
]

-- With a positive limit, cutting a text that is too long ends: on fuel equal to its length
-- hard_split returns parts, each of them is not empty and no longer than the limit, and together
-- they hold the characters of the text in order, except for spaces.
pub hard_split_lem :
    (text : Text) (max_chars : ℕ)
    → 0 < max_chars
    → (parts : List Text) × (hard_split text max_chars ≡ some parts) × IsSplit max_chars text parts
unfolding hard_split
hard_split_lem text max_chars pos = split_loop_lem (length text) max_chars text pos (omega arith)
