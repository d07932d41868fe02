-- ===== src/Mcp/Valid.antt =====
-- What a rule of a schema asks of an argument, apart from how vsearch/mcp.py tests it.
use distributed_vector_searc.Prelude.{
  ℕ, suc, ◌*◌, ◌^◌, ◌≤◌, ◌≡◌, ap, ◌∙◌, subst, arith, true, false, List, [], ◌∷◌, Option, none, some,
  Result, ok, >>=-eq-ok, if◌then◌else◌, all, All, Bool-cases, inl, inr, ◌⊎◌,
}
use distributed_vector_searc.Python.Text.{Text, text_eq, text_eq→eq, codes}
use distributed_vector_searc.Python.Json.{
  ℤ, pos, negsuc, Json, bool, int, float, str, arr, obj, elements,
}
use distributed_vector_searc.Mcp.{is_below, is_above, items_are}
use distributed_vector_searc.Mcp.Values.{
  Kind, string, integer, number, boolean, array, object, kind_of, is_instance, has_kind, decimal,
  decimal_lt, less_than,
}

-- The name of a type in a schema.
abbrev pub name_of : Kind → Text
name_of string = codes "string"
name_of integer = codes "integer"
name_of number = codes "number"
name_of boolean = codes "boolean"
name_of array = codes "array"
name_of object = codes "object"

-- The values of a type of JSON. A bool is no number.
abbrev pub IsOf : Json → Kind → Type 0
IsOf (str text) string = Unit
IsOf (int n) integer = Unit
IsOf (int n) number = Unit
IsOf (float m s) number = Unit
IsOf (bool b) boolean = Unit
IsOf (arr items) array = Unit
IsOf (obj fields) object = Unit
IsOf _ _ = ⊥

-- A bool where a number is asked for, which `isinstance` takes.
abbrev pub IsBoolAs : Json → Kind → Type 0
IsBoolAs (bool b) integer = Unit
IsBoolAs (bool b) number = Unit
IsBoolAs _ _ = ⊥

-- The number m / 10^s that a value stands for in a comparison.
abbrev pub Stands : Json → ℤ → ℕ → Type 0
Stands (int n) m s = (n ≡ m) × (0 ≡ s)
Stands (float n t) m s = (n ≡ m) × (t ≡ s)
Stands (bool true) m s = (pos 1 ≡ m) × (0 ≡ s)
Stands (bool false) m s = (pos 0 ≡ m) × (0 ≡ s)
Stands _ m s = ⊥

-- m / 10^s is at most n / 10^t.
abbrev pub IsAtMost : ℤ → ℕ → ℤ → ℕ → Type 0
IsAtMost (pos m) s (pos n) t = m * 10 ^ t ≤ n * 10 ^ s
IsAtMost (pos m) s (negsuc n) t = ⊥
IsAtMost (negsuc m) s (pos n) t = Unit
IsAtMost (negsuc m) s (negsuc n) t = suc n * 10 ^ s ≤ suc m * 10 ^ t

abbrev pub InOrder : Json → Json → Type 0
InOrder a b = (m : ℤ) × (s : ℕ) × (n : ℤ) × (t : ℕ) × Stands a m s × Stands b n t × IsAtMost m s n t

-- The elements of an array are of a type, or bools where that is a type of numbers.
abbrev pub HasItems : Json → Kind → Type 0
HasItems (arr items) kind = All (λ item. IsOf item kind ⊎ IsBoolAs item kind) (elements items)
HasItems _ kind = ⊥

-- One test of the table of types.
named :
    (name : Text) (found : Kind) (rest : Result Kind) (kind : Kind)
    → (if text_eq name (name_of found) then ok found else rest) ≡ ok kind
    → (rest ≡ ok kind → name ≡ name_of kind)
    → name ≡ name_of kind
named name found rest kind h next = elim (Bool-cases (text_eq name (name_of found))) [
  | inl e ↦
      let here : ok found ≡ ok kind = rw e at h in
      let same : found ≡ kind = cc in text_eq→eq name (name_of found) e ∙ ap name_of same
  | inr e ↦ next (rw e at h)
]

pub kind_of-name_of :
    (type : Json) (kind : Kind) → kind_of type ≡ ok kind → type ≡ str (name_of kind)
unfolding kind_of
kind_of-name_of (str name) kind h = ap str (
    named name string _ kind h (λ h. named name integer _ kind h (λ h.
      named name number _ kind h (λ h.
        named name boolean _ kind h
          (λ h. named name array _ kind h (λ h. named name object _ kind h (λ h. cc)))))))
kind_of-name_of _ kind h = cc

pub has_kind-IsOf : (value : Json) (kind : Kind) → has_kind value kind ≡ true → IsOf value kind
unfolding has_kind
has_kind-IsOf (str text) string h = tt
has_kind-IsOf (int n) integer h = tt
has_kind-IsOf (int n) number h = tt
has_kind-IsOf (float m s) number h = tt
has_kind-IsOf (bool b) boolean h = tt
has_kind-IsOf (arr items) array h = tt
has_kind-IsOf (obj fields) object h = tt
has_kind-IsOf _ _ h = cc

is_instance-IsOf :
    (value : Json) (kind : Kind)
    → is_instance value kind ≡ true
    → IsOf value kind ⊎ IsBoolAs value kind
unfolding is_instance
is_instance-IsOf (str text) string h = inl tt
is_instance-IsOf (int n) integer h = inl tt
is_instance-IsOf (int n) number h = inl tt
is_instance-IsOf (float m s) number h = inl tt
is_instance-IsOf (bool b) boolean h = inl tt
is_instance-IsOf (bool b) integer h = inr tt
is_instance-IsOf (bool b) number h = inr tt
is_instance-IsOf (arr items) array h = inl tt
is_instance-IsOf (obj fields) object h = inl tt
is_instance-IsOf _ _ h = cc

all-IsOf :
    (kind : Kind) (values : List Json)
    → all (λ item. is_instance item kind) values ≡ true
    → All (λ item. IsOf item kind ⊎ IsBoolAs item kind) values
all-IsOf kind [] h = tt
all-IsOf kind (v ∷ values) h =
    (is_instance-IsOf v kind (ground (arith, h)), all-IsOf kind values (ground (arith, h)))

pub items_are-HasItems :
    (kind : Kind) (value : Json)
    → IsOf value array
    → items_are kind value ≡ true
    → HasItems value kind
unfolding items_are
items_are-HasItems kind (arr items) h e = all-IsOf kind (elements items) e
items_are-HasItems kind _ h e = absurd h

decimal-Stands : (value : Json) (m : ℤ) (s : ℕ) → decimal value ≡ ok (m, s) → Stands value m s
unfolding decimal
decimal-Stands (int n) m s h = (cc, cc)
decimal-Stands (float n t) m s h = (cc, cc)
decimal-Stands (bool true) m s h = (cc, cc)
decimal-Stands (bool false) m s h = (cc, cc)
decimal-Stands _ m s h = cc

decimal_lt-IsAtMost :
    (m : ℤ) (s : ℕ) (n : ℤ) (t : ℕ) → decimal_lt (m, s) (n, t) ≡ false → IsAtMost n t m s
unfolding decimal_lt
decimal_lt-IsAtMost (pos m) s (pos n) t h = ground (arith, h)
decimal_lt-IsAtMost (pos m) s (negsuc n) t h = tt
decimal_lt-IsAtMost (negsuc m) s (pos n) t h = cc
decimal_lt-IsAtMost (negsuc m) s (negsuc n) t h = ground (arith, h)

less_than-InOrder : (a b : Json) → less_than a b ≡ ok false → InOrder b a
unfolding less_than
less_than-InOrder a b h =
    let ((m, s), x, rest) = >>=-eq-ok (decimal a) _ h in
    let ((n, t), y, last) = >>=-eq-ok (decimal b) _ rest in
    let under : decimal_lt (m, s) (n, t) ≡ false = cc in
    (n, t, m, s, decimal-Stands b n t y, decimal-Stands a m s x, decimal_lt-IsAtMost m s n t under)

pub is_below-InOrder :
    (value : Json) (bound : Option Json) (minimum : Json)
    → is_below value bound ≡ ok false
    → bound ≡ some minimum
    → InOrder minimum value
unfolding is_below
is_below-InOrder value none minimum h e = cc
is_below-InOrder value (some m) minimum h e =
    let same : m ≡ minimum = cc in subst (λ n. InOrder n value) same (less_than-InOrder value m h)

pub is_above-InOrder :
    (value : Json) (bound : Option Json) (maximum : Json)
    → is_above value bound ≡ ok false
    → bound ≡ some maximum
    → InOrder value maximum
unfolding is_above
is_above-InOrder value none maximum h e = cc
is_above-InOrder value (some m) maximum h e =
    let same : m ≡ maximum = cc in subst (InOrder value) same (less_than-InOrder m value h)
