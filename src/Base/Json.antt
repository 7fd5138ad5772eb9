-- ===== src/Base/Json.antt =====
-- Values as Python's `json.dumps` takes them. A key or a text is a literal or a text of the program.
use Prim.Native.Nat.{ℕ}
use mathlib.Core.List.{List, [], ◌∷◌}
use sestrian.Base.Int.{ℤ, pos}
use sestrian.Base.Dict.{Dict}

mutual
  pub data Json : Type 0 where
    number : ℤ → Json
    text : ℕ → Json
    literal : List ℕ → Json
    array : Items → Json
    object : Fields → Json

  pub data Items : Type 0 where
    nil : Items
    item : Json → Items → Items

  pub data Fields : Type 0 where
    end : Fields
    field : List ℕ → Json → Fields → Fields
    entry : ℕ → Json → Fields → Fields

abbrev pub natural : ℕ → Json
natural n = number (pos n)

abbrev pub items {ℓ} : {A : Type ℓ} → (A → Json) → List A → Items
items f [] = nil
items f (x ∷ xs) = item (f x) (items f xs)

abbrev pub entries {ℓ} : {A : Type ℓ} → (A → Json) → Dict A → Fields
entries f [] = end
entries f ((k, x) ∷ d) = entry k (f x) (entries f d)
