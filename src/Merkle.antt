-- ===== src/Merkle.antt =====
-- rig/merkle.py: the binary Merkle tree over pages, with inclusion proofs. A digest is its hex text.
pub mod Proofs
pub mod Binding
use sestrian.Base.{
  ℕ, zero, suc, ◌+◌, ◌-◌, ◌/◌, ◌%◌, Bool, true, false, Option, none, some, List, [], ◌∷◌, ◌++◌, map,
  if◌then◌else◌, leb, ◌==◌, length, get_elem?,
}
use sestrian.Platform.{Platform}

-- `"L"` and `"R"`, with the sibling's digest.
pub data Step : Type 0 where
  left right : ℕ → Step

abbrev pub on_left : Option ℕ → Option Step
on_left none = none
on_left (some s) = some (left s)

-- `level[idx + 1]` where there is one, else `level[idx]`
abbrev pub on_right : Option ℕ → Option ℕ → Option Step
on_right none none = none
on_right none (some own) = some (right own)
on_right (some next) own = some (right next)

-- One entry of the path, none where Python would raise.
unfoldable pub sibling : List ℕ → ℕ → Option Step
sibling level i =
    if i % 2 == 0
    then on_right (get_elem? level (suc i)) (get_elem? level i)
    else on_left (get_elem? level (i - 1))

abbrev pub prepend : Option Step → Option (List Step) → Option (List Step)
prepend none path = none
prepend (some s) none = none
prepend (some s) (some path) = some (s ∷ path)

-- `proof`
unfoldable pub proof : List (List ℕ) → ℕ → Option (List Step)
unfolding sibling
proof [] i = some []
proof (level ∷ []) i = some []
proof (level ∷ next ∷ levels) i = prepend (sibling level i) (proof (next ∷ levels) (i / 2))

abbrev pub first : List ℕ → Option ℕ
first [] = none
first (h ∷ hs) = some h

-- `levels[-1][0]`
unfoldable pub top : List (List ℕ) → Option ℕ
top [] = none
top (level ∷ []) = first level
top (level ∷ next ∷ levels) = top (next ∷ levels)

module _ (p : Platform) where
  unfoldable pub leaf_hash : List ℕ → ℕ
  leaf_hash page = p.sha256 (0 ∷ page)

  unfoldable pub node_hash : ℕ → ℕ → ℕ
  node_hash a b = p.sha256 (1 ∷ (p.fromhex a ++ p.fromhex b))

  -- The next level; an odd node is hashed with itself.
  unfoldable pub pair_up : List ℕ → List ℕ
  pair_up [] = []
  pair_up (a ∷ []) = node_hash a a ∷ []
  pair_up (a ∷ b ∷ level) = node_hash a b ∷ pair_up level

  -- The loop of `build`; the fuel bounds its turns.
  unfoldable pub build_from : ℕ → List ℕ → List (List ℕ)
  unfolding pair_up
  build_from zero level = level ∷ []
  build_from (suc n) level =
      let rest = build_from n (pair_up level) in
      if leb (length level) 1 then level ∷ [] else level ∷ rest

  -- `build`
  unfoldable pub build : List (List ℕ) → List (List ℕ)
  unfolding build_from
  build leaves = build_from (length leaves) (map leaf_hash leaves)

  -- `root`, none where the assertion fails.
  unfoldable pub root : List (List ℕ) → Option ℕ
  unfolding build top
  root leaves = top (build leaves)

  -- One turn of the loop in `verify`.
  unfoldable pub climb_one : ℕ → Step → ℕ
  climb_one h (left s) = node_hash s h
  climb_one h (right s) = node_hash h s

  unfoldable pub climb : ℕ → List Step → ℕ
  unfolding climb_one
  climb h [] = h
  climb h (s ∷ path) = climb (climb_one h s) path

  -- `verify`, which does not read its `index`.
  unfoldable pub verify_page : List ℕ → List Step → ℕ → Bool
  unfolding leaf_hash climb
  verify_page page path expected = climb (leaf_hash page) path == expected
