-- ===== src/Python/Json.antt =====
-- The values that `json.loads` returns and `json.dumps` takes. A dict is its list of items in
-- insertion order. `float m s` is the decimal m / 10^s: the code does no arithmetic on payload floats.
-- NaN and the infinities, which `json.loads` takes too, are left out: they have no index key either.
use distributed_vector_searc.Prelude.{ℕ, Bool, List, [], ◌∷◌}
use distributed_vector_searc.Python.Text.{Text}

-- Python's unbounded `int`; `negsuc n` is -(n + 1).
pub data ℤ : Type 0 where
  pos : ℕ → ℤ
  negsuc : ℕ → ℤ

mutual
  pub data Json : Type 0 where
    null : Json
    bool : Bool → Json
    int : ℤ → Json
    float : ℤ → ℕ → Json
    str : Text → Json
    arr : Items → Json
    obj : Fields → Json

  pub data Items : Type 0 where
    nil : Items
    cons : Json → Items → Items

  pub data Fields : Type 0 where
    end : Fields
    field : Text → Json → Fields → Fields

-- The elements of a list, and the items of a dict.
abbrev pub elements : Items → List Json
elements nil = []
elements (cons v vs) = v ∷ elements vs

abbrev pub entries : Fields → List (Text × Json)
entries end = []
entries (field k v rest) = (k, v) ∷ entries rest
