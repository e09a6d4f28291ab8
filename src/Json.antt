-- ===== src/Json.antt =====
-- Decoded JSON, as the Python code holds it (`Any`, `dict[str, Any]`, `list[Any]`), and the
-- operations of dictionaries that the code uses.
pub mod Fields
pub mod Python
pub mod Equality
use collective_capability_ru.Prelude.{ℕ, String, Bool, List, [], ◌∷◌}
use collective_capability_ru.Prelude.Int.{ℤ}

-- A finite Python float: sign, mantissa and the power of two; `inf` and `nan` as `json.load`
-- accepts them.
pub data Float : Type 0 where
  finite : (negative : Bool) (mantissa : ℕ) (exponent : ℤ) → Float
  inf : (negative : Bool) → Float
  nan : Float

mutual
  pub data Json : Type 0 where
    null : Json
    bool : Bool → Json
    int : ℤ → Json
    float : Float → Json
    str : String → Json
    arr : Items → Json
    obj : Dict → Json

  pub data Items : Type 0 where
    nil : Items
    cons : Json → Items → Items

  -- A dictionary in insertion order.
  pub data Dict : Type 0 where
    end : Dict
    entry : String → Json → Dict → Dict

abbrev pub items : List Json → Items
items [] = nil
items (x ∷ xs) = cons x (items xs)

abbrev pub elements : Items → List Json
elements nil = []
elements (cons x xs) = x ∷ elements xs

abbrev pub dict : List (String × Json) → Dict
dict [] = end
dict ((k, v) ∷ d) = entry k v (dict d)

-- A list of texts as a JSON array.
abbrev pub strings : List String → Items
strings [] = nil
strings (x ∷ xs) = cons (str x) (strings xs)
