-- ===== src/Actions.antt =====
-- What the operations of a cluster run in: a state of the world `W` that each of them changes, and
-- exceptions. An action that raises leaves the world as it was when it raised.
pub mod Within
use distributed_vector_searc.Prelude.{List, [], ◌∷◌, Result, Error, ok, err}

abbrev pub Act : Type 0 → Type 0 → Type 0
Act W A = W → W × Result A

-- What follows the first action of a sequence.
abbrev pub after : {W A B : Type 0} → W × Result A → (A → Act W B) → W × Result B
after (w, err e) next = (w, err e)
after (w, ok a) next = next a w

infixl 5 ◌>>=◌
unfoldable pub ◌>>=◌ : {W A B : Type 0} → Act W A → (A → Act W B) → Act W B
(first >>= next) w = after (first w) next

infixl 5 ◌>>◌
unfoldable pub ◌>>◌ : {W B : Type 0} → Act W (Unit {0}) → Act W B → Act W B
(first >> second) w = after (first w) (λ done. second)

abbrev pub give : {W A : Type 0} → A → Act W A
give a w = (w, ok a)

abbrev pub raise : {W A : Type 0} → Error → Act W A
raise e w = (w, err e)

abbrev pub update : {W : Type 0} → (W → W) → Act W (Unit {0})
update f w = (f w, ok tt)

abbrev pub lift : {W A : Type 0} → Result A → Act W A
lift result w = (w, result)

-- `try` with an `except` clause that looks at the exception.
abbrev pub recover : {W A : Type 0} → W × Result A → (Error → Act W A) → W × Result A
recover (w, err e) handler = handler e w
recover (w, ok a) handler = (w, ok a)

unfoldable pub attempt : {W A : Type 0} → Act W A → (Error → Act W A) → Act W A
attempt body handler w = recover (body w) handler

-- `[f(x) for x in xs]`
unfoldable pub each : {W A B : Type 0} → (A → Act W B) → List A → Act W (List B)
each f [] = give []
each f (x ∷ xs) = do y ← f x; ys ← each f xs; give (y ∷ ys)
