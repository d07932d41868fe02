-- ===== src/Actions/Within.antt =====
-- A relation between the world before an action and the world after it, through sequences.
use distributed_vector_searc.Prelude.{◌≡◌, refl, List, [], ◌∷◌, Result, Error, ok, err}
use distributed_vector_searc.Actions.{Act, after, recover, ◌>>=◌, ◌>>◌, attempt, each}

-- A relation that holds where nothing happens, and through two steps if through each.
pub record Change (W : Type 0) : Type 1 where
  pub rel : W → W → Type 0
  pub same : (w : W) → rel w w
  pub trans : (u v w : W) → rel u v → rel v w → rel u w

-- The action changes the world only within the relation, whether it returns or raises.
abbrev pub Within : {W A : Type 0} → Change W → Act W A → Type 0
Within {W = W} c act = (w : W) → c.rel w (act w).0

after-ok :
    {W A B : Type 0} (first : W × Result A) (next : A → Act W B) (b : B)
    → (after first next).1 ≡ ok b
    → (a : A) × (first.1 ≡ ok a) × ((next a first.0).1 ≡ ok b)
after-ok (w, err e) next b h = cc
after-ok (w, ok a) next b h = (a, refl, h)

-- A sequence that returns: what its first action returned, and the rest.
pub >>=-ok :
    {W A B : Type 0} (first : Act W A) (next : A → Act W B) (w : W) (b : B)
    → ((first >>= next) w).1 ≡ ok b
    → (a : A) × ((first w).1 ≡ ok a) × ((next a (first w).0).1 ≡ ok b)
unfolding ◌>>=◌
>>=-ok first next w b h = after-ok (first w) next b h

module _ {W : Type 0} (c : Change W) where
  after-Within :
      {A B : Type 0} (w : W) (first : W × Result A) (next : A → Act W B)
      → c.rel w first.0
      → ((a : A) → Within c (next a))
      → c.rel w (after first next).0
  after-Within w (w', err e) next h k = h
  after-Within w (w', ok a) next h k = c.trans w w' (next a w').0 h (k a w')

  pub >>=-Within :
      {A B : Type 0} (first : Act W A) (next : A → Act W B)
      → Within c first
      → ((a : A) → Within c (next a))
      → Within c (first >>= next)
  unfolding ◌>>=◌
  >>=-Within first next h k w = after-Within w (first w) next (h w) k

  -- The same from one world.
  pub >>=-Within_from :
      {A B : Type 0} (w : W) (first : Act W A) (next : A → Act W B)
      → c.rel w (first w).0
      → ((a : A) → Within c (next a))
      → c.rel w ((first >>= next) w).0
  unfolding ◌>>=◌
  >>=-Within_from w first next h k = after-Within w (first w) next h k

  after-Within_ok :
      {A B : Type 0} (w : W) (first : W × Result A) (next : A → Act W B)
      → c.rel w first.0
      → ((a : A) → first.1 ≡ ok a → Within c (next a))
      → c.rel w (after first next).0
  after-Within_ok w (w', err e) next h k = h
  after-Within_ok w (w', ok a) next h k = c.trans w w' (next a w').0 h (k a refl w')

  -- The same, with what the first action returned.
  pub >>=-Within_ok :
      {A B : Type 0} (first : Act W A) (next : A → Act W B)
      → Within c first
      → ((w : W) (a : A) → (first w).1 ≡ ok a → Within c (next a))
      → Within c (first >>= next)
  unfolding ◌>>=◌
  >>=-Within_ok first next h k w = after-Within_ok w (first w) next (h w) (k w)

  pub >>-Within :
      {B : Type 0} (first : Act W (Unit {0})) (second : Act W B)
      → Within c first
      → Within c second
      → Within c (first >> second)
  unfolding ◌>>◌
  >>-Within first second h k w = after-Within w (first w) (λ done. second) (h w) (λ done. k)

  recover-Within :
      {A : Type 0} (w : W) (body : W × Result A) (handler : Error → Act W A)
      → c.rel w body.0
      → ((e : Error) → Within c (handler e))
      → c.rel w (recover body handler).0
  recover-Within w (w', err e) handler h k = c.trans w w' (handler e w').0 h (k e w')
  recover-Within w (w', ok a) handler h k = h

  pub attempt-Within :
      {A : Type 0} (body : Act W A) (handler : Error → Act W A)
      → Within c body
      → ((e : Error) → Within c (handler e))
      → Within c (attempt body handler)
  unfolding attempt
  attempt-Within body handler h k w = recover-Within w (body w) handler (h w) k

  pub each-Within :
      {A B : Type 0} (f : A → Act W B) (xs : List A)
      → ((x : A) → Within c (f x))
      → Within c (each f xs)
  unfolding each
  each-Within f [] h = c.same
  each-Within f (x ∷ xs) h =
      >>=-Within (f x) _ (h x) (λ y. >>=-Within (each f xs) _ (each-Within f xs h) (λ ys. c.same))
