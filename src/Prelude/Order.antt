-- ===== src/Prelude/Order.antt =====
-- The total order that `<=` is for the values the code sorts: numbers, distances, and tuples of them,
-- which Python compares lexicographically. A distance is a float that is never NaN.
use Prim.Native.Nat.{ℕ}
use mathlib.Core.Path.{◌≡◌, refl}
use mathlib.Core.Bool.{Bool, true, false, not}
use mathlib.Core.List.{List, [], ◌∷◌}
use native.Mathlib.Omega.{arith}
use distributed_vector_searc.Prelude.Tests.{leb, if◌then◌else◌}

pub record Ord {ℓ} (A : Type ℓ) : Type ℓ where
  pub le : A → A → Bool
  pub total : (a b : A) → le a b ≡ false → le b a ≡ true
  pub trans : (a b c : A) → le a b ≡ true → le b c ≡ true → le a c ≡ true
  pub antisymm : (a b : A) → le a b ≡ true → le b a ≡ true → a ≡ b

module _ {ℓ} {A : Type ℓ} ⦃o : Ord A⦄ where
  infix 50 ◌≼?◌ ◌≺?◌
  abbrev pub ◌≼?◌ : A → A → Bool
  a ≼? b = o.le a b

  abbrev pub ◌≺?◌ : A → A → Bool
  a ≺? b = not (o.le b a)

  pub ≼_refl : (a : A) → (a ≼? a) ≡ true
  ≼_refl a = ground (arith, o.total a a)

pub leb_total : (a b : ℕ) → leb a b ≡ false → leb b a ≡ true
leb_total a b h = ground arith

pub leb_trans : (a b c : ℕ) → leb a b ≡ true → leb b c ≡ true → leb a c ≡ true
leb_trans a b c h k = ground arith

pub leb_antisymm : (a b : ℕ) → leb a b ≡ true → leb b a ≡ true → a ≡ b
leb_antisymm a b h k = ground arith

instance abbrev pub nat_ord : Ord ℕ
nat_ord = record { le = leb; total = leb_total; trans = leb_trans; antisymm = leb_antisymm }

module _ {ℓ κ} {A : Type ℓ} {B : Type κ} ⦃o : Ord A⦄ ⦃p : Ord B⦄ where
  -- `(a, b) <= (a', b')`: the first components decide unless they are equal.
  abbrev pub pair_le : A × B → A × B → Bool
  pair_le (a, b) (a', b') = if o.le a a' then (if o.le a' a then p.le b b' else true) else false

  pub pair_total : (x y : A × B) → pair_le x y ≡ false → pair_le y x ≡ true
  pair_total (a, b) (a', b') h = ground (arith, o.total a a', o.total a' a, p.total b b')

  pub pair_trans : (x y z : A × B) → pair_le x y ≡ true → pair_le y z ≡ true → pair_le x z ≡ true
  pair_trans (a, b) (a', b') (a'', b'') h k =
      ground (arith, o.trans a a' a'', o.trans a'' a a', o.trans a' a'' a, p.trans b b' b'')

  pub pair_antisymm : (x y : A × B) → pair_le x y ≡ true → pair_le y x ≡ true → x ≡ y
  pair_antisymm (a, b) (a', b') h k = ground (arith, o.antisymm a a', p.antisymm b b')

  instance abbrev pub pair_ord : Ord (A × B)
  pair_ord = record {
    le = pair_le;
    total = pair_total;
    trans = pair_trans;
    antisymm = pair_antisymm;
  }

module _ {ℓ} {A : Type ℓ} ⦃o : Ord A⦄ where
  -- The order of texts, and of any lists: a prefix comes before what it starts.
  abbrev pub list_le : List A → List A → Bool
  list_le [] ys = true
  list_le (x ∷ xs) [] = false
  list_le (x ∷ xs) (y ∷ ys) =
      let rest = list_le xs ys in if o.le x y then (if o.le y x then rest else true) else false

  pub list_total : (xs ys : List A) → list_le xs ys ≡ false → list_le ys xs ≡ true
  list_total [] ys h = cc
  list_total (x ∷ xs) [] h = refl
  list_total (x ∷ xs) (y ∷ ys) h = ground (arith, o.total x y, o.total y x, list_total xs ys)

  pub list_trans :
      (xs ys zs : List A) → list_le xs ys ≡ true → list_le ys zs ≡ true → list_le xs zs ≡ true
  list_trans [] ys zs h k = refl
  list_trans (x ∷ xs) [] zs h k = cc
  list_trans (x ∷ xs) (y ∷ ys) [] h k = cc
  list_trans (x ∷ xs) (y ∷ ys) (z ∷ zs) h k =
      ground (arith, o.trans x y z, o.trans z x y, o.trans y z x, list_trans xs ys zs)

  pub list_antisymm : (xs ys : List A) → list_le xs ys ≡ true → list_le ys xs ≡ true → xs ≡ ys
  list_antisymm [] [] h k = refl
  list_antisymm [] (y ∷ ys) h k = cc
  list_antisymm (x ∷ xs) [] h k = cc
  list_antisymm (x ∷ xs) (y ∷ ys) h k = ground (arith, o.antisymm x y, list_antisymm xs ys)

  instance abbrev pub list_ord : Ord (List A)
  list_ord = record {
    le = list_le;
    total = list_total;
    trans = list_trans;
    antisymm = list_antisymm;
  }
