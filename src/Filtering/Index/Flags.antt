-- ===== src/Filtering/Index/Flags.antt =====
-- Boolean arrays by their entries.
use distributed_vector_searc.Prelude.{
  ℕ, zero, suc, ◌<◌, ◌≡◌, refl, ap, ap₂, ◌∙◌, Bool, true, false, ◌&&◌, ◌||◌, List, [], ◌∷◌, ◌++◌,
  arith, ◌==◌, Result, ok, length, replicate,
}
use distributed_vector_searc.Filtering.Index.{set_flag, set_flags, and_flags}

abbrev pub flag_at : List Bool → ℕ → Bool
flag_at [] i = false
flag_at (b ∷ flags) zero = b
flag_at (b ∷ flags) (suc i) = flag_at flags i

abbrev pub elem : ℕ → List ℕ → Bool
elem j [] = false
elem j (i ∷ is) = i == j || elem j is

pub elem-snoc : (j : ℕ) (is : List ℕ) (i : ℕ) → elem j (is ++ i ∷ []) ≡ (elem j is || i == j)
elem-snoc j [] i = ground arith
elem-snoc j (k ∷ is) i = ground (arith, elem-snoc j is i)

pub flags_ext :
    (as' bs : List Bool)
    → length as' ≡ length bs
    → ((i : ℕ) → i < length as' → flag_at as' i ≡ flag_at bs i)
    → as' ≡ bs
flags_ext [] [] e h = refl
flags_ext [] (b ∷ bs) e h = absurd (omega arith)
flags_ext (a ∷ as') [] e h = absurd (omega arith)
flags_ext (a ∷ as') (b ∷ bs) e h =
    ap₂ ◌∷◌ (h 0 (omega arith)) (flags_ext as' bs (omega arith) (λ i lt. h (suc i) (omega arith)))

pub flag_at-replicate : (b : Bool) (n i : ℕ) → i < n → flag_at (replicate n b) i ≡ b
flag_at-replicate b zero i h = absurd (omega arith)
flag_at-replicate b (suc n) zero h = refl
flag_at-replicate b (suc n) (suc i) h = flag_at-replicate b n i (omega arith)

pub flag_at-and_flags :
    (as' bs : List Bool) (i : ℕ) → flag_at (and_flags as' bs) i ≡ (flag_at as' i && flag_at bs i)
unfolding and_flags
flag_at-and_flags [] bs i = refl
flag_at-and_flags (a ∷ as') [] zero = ground arith
flag_at-and_flags (a ∷ as') [] (suc i) = ground arith
flag_at-and_flags (a ∷ as') (b ∷ bs) zero = refl
flag_at-and_flags (a ∷ as') (b ∷ bs) (suc i) = flag_at-and_flags as' bs i

pub length-and_flags :
    (as' bs : List Bool) → length as' ≡ length bs → length (and_flags as' bs) ≡ length as'
unfolding and_flags
length-and_flags [] bs h = refl
length-and_flags (a ∷ as') [] h = absurd (omega arith)
length-and_flags (a ∷ as') (b ∷ bs) h = ap suc (length-and_flags as' bs (omega arith))

-- What an assignment to an array returns: the array with the flags at `on` raised.
pub record Raised (flags : List Bool) (on : ℕ → Bool) (r : Result (List Bool)) : Type 0 where
  pub after : List Bool
  pub returns : r ≡ ok after
  pub same_length : length after ≡ length flags
  pub raised : (j : ℕ) → flag_at after j ≡ (flag_at flags j || on j)

pub Raised-set_flag :
    (i : ℕ) (flags : List Bool) → i < length flags → Raised flags (λ j. i == j) (set_flag i flags)
unfolding set_flag
Raised-set_flag i [] h = absurd (omega arith)
Raised-set_flag zero (b ∷ flags) h = record {
  after = true ∷ flags;
  returns = refl;
  same_length = refl;
  raised = elim [ zero ↦ ground arith | suc j ↦ ground arith ];
}
Raised-set_flag (suc i) (b ∷ flags) h =
    let rest = Raised-set_flag i flags (omega arith) in
    record {
      after = b ∷ rest.after;
      returns = rw rest.returns refl;
      same_length = ap suc rest.same_length;
      raised = elim [ zero ↦ ground arith | suc j ↦ ground (arith, rest.raised j) ];
    }

pub Raised-set_flags :
    (is : List ℕ) (flags : List Bool)
    → ((j : ℕ) → elem j is ≡ true → j < length flags)
    → Raised flags (λ j. elem j is) (set_flags is flags)
unfolding set_flags
Raised-set_flags [] flags h = record {
  after = flags;
  returns = refl;
  same_length = refl;
  raised = λ j. ground arith;
}
Raised-set_flags (i ∷ is) flags h =
    let first = Raised-set_flag i flags (h i (ground arith)) in
    let rest = Raised-set_flags is first.after (λ j e. rw first.same_length (h j (ground arith))) in
    record {
      after = rest.after;
      returns = rw first.returns rest.returns;
      same_length = rest.same_length ∙ first.same_length;
      raised = λ j. ground (arith, first.raised j, rest.raised j);
    }
