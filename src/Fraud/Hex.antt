-- ===== src/Fraud/Hex.antt =====
-- Digests that a proof of rig/fraud.py carries as hex are read back as they were.
use sestrian.Base.{
  ℕ, zero, suc, ◌-◌, ◌/◌, ◌%◌, ◌≡◌, refl, true, Option, none, some, List, [], ◌∷◌, map, All, length,
  leb, ◌==◌, get_elem?, Bool-cases, inl, inr,
}
use mathlib.Core.Path.{subst}
use mathlib.Core.Option.{some-injective}
use sestrian.Base.Int.{ℤ}
use sestrian.Platform.{Platform}
use sestrian.Merkle.{
  Step, right, on_left, on_right, prepend, sibling, proof, top, leaf_hash, node_hash, pair_up,
  build_from, build, root,
}
use sestrian.Aggregation.{slice}
use sestrian.Fraud.{in_i64}
use sestrian.Fraud.Game.{from_hex, step_from_hex, path_from_hex, int64_page}

-- A slice of int64 values fits an int64 array.
pub int64_page-slice :
    (start n : ℕ) (w : List ℤ)
    → All (λ x. in_i64 x ≡ true) w
    → int64_page (slice start n w) ≡ some (slice start n w)
unfolding int64_page
int64_page-slice start n [] h = refl
int64_page-slice zero zero (x ∷ w) h = refl
int64_page-slice zero (suc n) (x ∷ w) h = rw (int64_page, h.0, int64_page-slice zero n w h.1) refl
int64_page-slice (suc start) n (x ∷ w) h = int64_page-slice start n w h.1

module _ (p : Platform) where
  -- `bytes.fromhex(s).hex()` is s for each s that `hexdigest` gives.
  abbrev pub ReadsDigests : Type 0
  ReadsDigests = (bytes : List ℕ) → from_hex p (p.sha256 bytes) ≡ some (p.sha256 bytes)

  abbrev AreRead : List ℕ → Type 0
  AreRead level = All (λ d. from_hex p d ≡ some d) level

  get_elem?-AreRead :
      (level : List ℕ) (i d : ℕ)
      → AreRead level
      → get_elem? level i ≡ some d
      → from_hex p d ≡ some d
  get_elem?-AreRead [] i d h e = cc e
  get_elem?-AreRead (a ∷ level) zero d h e =
      subst (λ x. from_hex p x ≡ some x) (some-injective a d e) h.0
  get_elem?-AreRead (a ∷ level) (suc i) d h e = get_elem?-AreRead level i d h.1 e

  module _ (reads : ReadsDigests) where
    pair_up-AreRead : (level : List ℕ) → AreRead (pair_up p level)
    unfolding pair_up node_hash
    pair_up-AreRead [] = tt
    pair_up-AreRead (a ∷ []) = (reads _, tt)
    pair_up-AreRead (a ∷ b ∷ level) = (reads _, pair_up-AreRead level)

    leaves-AreRead : (pages : List (List ℕ)) → AreRead (map (leaf_hash p) pages)
    unfolding leaf_hash
    leaves-AreRead [] = tt
    leaves-AreRead (page ∷ pages) = (reads _, leaves-AreRead pages)

    build_from-AreRead :
        (n : ℕ) (level : List ℕ) → AreRead level → All AreRead (build_from p n level)
    unfolding build_from
    build_from-AreRead zero level h = (h, tt)
    build_from-AreRead (suc n) level h = elim (Bool-cases (leb (length level) 1)) [
      | inl short ↦ rw short (h, tt)
      | inr long ↦ rw long (h, build_from-AreRead n (pair_up p level) (pair_up-AreRead level))
    ]

  right-read : (d : ℕ) → from_hex p d ≡ some d → step_from_hex p (right d) ≡ some (right d)
  unfolding step_from_hex
  right-read d h = rw h refl

  -- The sibling is the next digest, or the same one again.
  on_right-read :
      (next own : Option ℕ) (s : Step)
      → ((d : ℕ) → next ≡ some d → from_hex p d ≡ some d)
      → ((d : ℕ) → own ≡ some d → from_hex p d ≡ some d)
      → on_right next own ≡ some s
      → step_from_hex p s ≡ some s
  on_right-read none none s h k e = cc e
  on_right-read none (some d) s h k e =
      subst (λ q. step_from_hex p q ≡ some q) (some-injective _ s e) (right-read d (k d refl))
  on_right-read (some d) own s h k e =
      subst (λ q. step_from_hex p q ≡ some q) (some-injective _ s e) (right-read d (h d refl))

  on_left-read :
      (previous : Option ℕ) (s : Step)
      → ((d : ℕ) → previous ≡ some d → from_hex p d ≡ some d)
      → on_left previous ≡ some s
      → step_from_hex p s ≡ some s
  unfolding step_from_hex
  on_left-read none s h e = cc e
  on_left-read (some d) s h e =
      subst (λ q. step_from_hex p q ≡ some q) (some-injective _ s e) (rw (h d refl) refl)

  sibling-read :
      (level : List ℕ) (i : ℕ) (s : Step)
      → AreRead level
      → sibling level i ≡ some s
      → step_from_hex p s ≡ some s
  unfolding sibling
  sibling-read level i s h e = elim (Bool-cases (i % 2 == 0)) [
    | inl even ↦
        on_right-read (get_elem? level (suc i)) (get_elem? level i) s
          (λ d. get_elem?-AreRead level (suc i) d h) (λ d. get_elem?-AreRead level i d h)
          (rw even at e)
    | inr odd ↦
        on_left-read (get_elem? level (i - 1)) s (λ d. get_elem?-AreRead level (i - 1) d h)
          (rw odd at e)
  ]

  prepend-read :
      (first : Option Step) (rest : Option (List Step)) (path : List Step)
      → ((s : Step) → first ≡ some s → step_from_hex p s ≡ some s)
      → ((below : List Step) → rest ≡ some below → path_from_hex p below ≡ some below)
      → prepend first rest ≡ some path
      → path_from_hex p path ≡ some path
  unfolding path_from_hex
  prepend-read none rest path h k e = cc e
  prepend-read (some s) none path h k e = cc e
  prepend-read (some s) (some below) path h k e =
      subst (λ q. path_from_hex p q ≡ some q) (some-injective (s ∷ below) path e)
        (rw (h s refl, k below refl) refl)

  proof-read :
      (levels : List (List ℕ)) (i : ℕ) (path : List Step)
      → All AreRead levels
      → proof levels i ≡ some path
      → path_from_hex p path ≡ some path
  unfolding proof path_from_hex
  proof-read [] i path h e = subst (λ q. path_from_hex p q ≡ some q) (some-injective [] path e) refl
  proof-read (level ∷ []) i path h e =
      subst (λ q. path_from_hex p q ≡ some q) (some-injective [] path e) refl
  proof-read (level ∷ next ∷ levels) i path h e =
      prepend-read (sibling level i) (proof (next ∷ levels) (i / 2)) path
        (λ s. sibling-read level i s h.0) (λ below. proof-read (next ∷ levels) (i / 2) below h.1) e

  top-read :
      (levels : List (List ℕ)) (r : ℕ)
      → All AreRead levels
      → top levels ≡ some r
      → from_hex p r ≡ some r
  unfolding top
  top-read [] r h e = cc e
  top-read ([] ∷ []) r h e = cc e
  top-read ((d ∷ level) ∷ []) r h e =
      subst (λ x. from_hex p x ≡ some x) (some-injective d r e) h.0.0
  top-read (level ∷ next ∷ levels) r h e = top-read (next ∷ levels) r h.1 e

  -- The path and the root of a tree of pages.
  pub build-read :
      ReadsDigests
      → (pages : List (List ℕ)) (i : ℕ) (path : List Step) → proof (build p pages) i ≡ some path
      → path_from_hex p path ≡ some path
  unfolding build
  build-read reads pages i path e =
      proof-read _ i path
        (build_from-AreRead reads (length pages) (map (leaf_hash p) pages)
          (leaves-AreRead reads pages))
        e

  pub root-read :
      ReadsDigests → (pages : List (List ℕ)) (r : ℕ) → root p pages ≡ some r → from_hex p r ≡ some r
  unfolding root build
  root-read reads pages r e =
      top-read _ r
        (build_from-AreRead reads (length pages) (map (leaf_hash p) pages)
          (leaves-AreRead reads pages))
        e
