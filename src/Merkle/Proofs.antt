-- ===== src/Merkle/Proofs.antt =====
-- The round trip of inclusion proofs, and the fuel of `build`.
use sestrian.Base.{
  get_elem?-map, length-map, ℕ, zero, suc, ◌+◌, ◌-◌, ◌*◌, ◌/◌, ◌%◌, ◌≤◌, ◌≡◌, refl, ◌∙◌, true, some,
  List, [], ◌∷◌, map, length, get_elem?, leb, arith, inl, inr, Bool-cases,
}
use mathlib.Core.Path.{subst}
use sestrian.Platform.{Platform}
use sestrian.Merkle.{
  Step, left, right, sibling, proof, top, leaf_hash, pair_up, build_from, build, root, climb_one,
  climb, verify_page,
}

shift_mod : (i : ℕ) → suc (suc i) % 2 ≡ i % 2
shift_mod i = omega arith

shift_div : (i : ℕ) → suc (suc i) / 2 ≡ suc (i / 2)
shift_div i = omega arith

pred : (i : ℕ) → suc i - 1 ≡ i
pred i = omega arith

-- Two leaves further on, the sibling is that of the rest of the level.
sibling-shift :
    (a b : ℕ) (level : List ℕ) (i : ℕ) → sibling (a ∷ b ∷ level) (suc (suc i)) ≡ sibling level i
unfolding sibling
sibling-shift a b level zero = refl
sibling-shift a b level (suc i) = rw (shift_mod (suc i), pred (suc (suc i)), pred i) refl

module _ (p : Platform) where
  -- What one level of a proof gives: a sibling, and the parent's place on the next level.
  abbrev Climbs : List ℕ → ℕ → ℕ → Type 0
  Climbs level i h =
      (s : Step) × (sibling level i ≡ some s)
      × (get_elem? (pair_up p level) (i / 2) ≡ some (climb_one p h s))

  level-Climbs : (level : List ℕ) (i h : ℕ) → get_elem? level i ≡ some h → Climbs level i h
  unfolding pair_up climb_one
  level-Climbs [] i h e = cc e
  level-Climbs (a ∷ []) zero h e = (right a, unfold sibling in refl, cc e)
  level-Climbs (a ∷ []) (suc i) h e = cc e
  level-Climbs (a ∷ b ∷ level) zero h e = (right b, unfold sibling in refl, cc e)
  level-Climbs (a ∷ b ∷ level) (suc zero) h e = (left a, unfold sibling in refl, cc e)
  level-Climbs (a ∷ b ∷ level) (suc (suc i)) h e =
      let (s, found, up) = level-Climbs level i h e in
      (s, sibling-shift a b level i ∙ found, rw (shift_div i) up)

  -- A path up some levels: from a digest to the digest at the top.
  abbrev HasPath : List (List ℕ) → ℕ → ℕ → Type 0
  HasPath levels i h =
      (path : List Step) × (proof levels i ≡ some path) × (top levels ≡ some (climb p h path))

  single_path :
      (level : List ℕ) (i h : ℕ)
      → length level ≤ 1
      → get_elem? level i ≡ some h
      → HasPath (level ∷ []) i h
  unfolding proof top climb
  single_path [] i h short e = cc e
  single_path (a ∷ []) zero h short e = ([], refl, e)
  single_path (a ∷ []) (suc i) h short e = cc e
  single_path (a ∷ b ∷ level) i h short e = absurd (omega (arith, short))

  length-pair_up : (level : List ℕ) → 2 * length (pair_up p level) ≤ length level + 1
  unfolding pair_up
  length-pair_up [] = omega arith
  length-pair_up (a ∷ []) = omega arith
  length-pair_up (a ∷ b ∷ level) = omega (arith, length-pair_up level)

  -- The level that `build_from` starts from is its first.
  build_from-starts :
      (n : ℕ) (level : List ℕ) → (rest : List (List ℕ)) × (build_from p n level ≡ level ∷ rest)
  unfolding build_from
  build_from-starts zero level = ([], refl)
  build_from-starts (suc n) level = elim (Bool-cases (leb (length level) 1)) [
    | inl short ↦ ([], rw short refl)
    | inr long ↦ (build_from p n (pair_up p level), rw long refl)
  ]

  -- One level more below some levels.
  HasPath-below :
      (level next : List ℕ) (levels : List (List ℕ)) (i h : ℕ) (s : Step)
      → sibling level i ≡ some s
      → HasPath (next ∷ levels) (i / 2) (climb_one p h s)
      → HasPath (level ∷ next ∷ levels) i h
  unfolding proof top climb
  HasPath-below level next levels i h s found (path, up, reached) =
      (s ∷ path, rw (found, up) refl, reached)

  build_from-HasPath :
      (n : ℕ) (level : List ℕ) (i h : ℕ)
      → length level ≤ suc n
      → get_elem? level i ≡ some h
      → HasPath (build_from p n level) i h
  unfolding build_from
  build_from-HasPath zero level i h short e = single_path level i h short e
  build_from-HasPath (suc n) level i h fits e = elim (Bool-cases (leb (length level) 1)) [
    | inl short ↦ rw short (single_path level i h (ground arith) e)
    | inr long ↦
        let (s, found, up) = level-Climbs level i h e in
        let (rest, starts) = build_from-starts n (pair_up p level) in
        let higher =
          build_from-HasPath n (pair_up p level) (i / 2) (climb_one p h s)
            (ground (arith, length-pair_up level)) up in
        rw (long, starts)
          (HasPath-below level (pair_up p level) rest i h s found
            (subst (λ levels. HasPath levels (i / 2) (climb_one p h s)) starts higher))
  ]

  -- The round trip: for every page of a tree, `proof` finds a path and `build` a root, and `verify`
  -- accepts the page with that path against that root.
  pub verify_page-proof :
      (leaves : List (List ℕ)) (i : ℕ) (page : List ℕ)
      → get_elem? leaves i ≡ some page
      → (path : List Step) × (r : ℕ) × (proof (build p leaves) i ≡ some path)
        × (root p leaves ≡ some r)
        × (verify_page p page path r ≡ true)
  unfolding build root verify_page
  verify_page-proof leaves i page e =
      let (path, found, reached) =
        build_from-HasPath (length leaves) (map (leaf_hash p) leaves) i (leaf_hash p page)
          (omega (arith, length-map (leaf_hash p) leaves))
          (get_elem?-map (leaf_hash p) leaves i page e) in
      (path, climb p (leaf_hash p page) path, found, reached, ground arith)
