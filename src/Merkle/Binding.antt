-- ===== src/Merkle/Binding.antt =====
-- What an accepted inclusion proof fixes.
use sestrian.Base.{ℕ, ◌≡◌, ◌≢◌, sym, ◌∙◌, ◌⊎◌, true, List, [], ◌∷◌, ◌++◌, inl, inr, ==→eq}
use native.Mathlib.Decide.{ℕ_discrete}
use mathlib.Core.List.{List-discrete, append_cancel_left, append_cancel_right, tail-eq_of_cons-eq}
use sestrian.Platform.{Platform}
use sestrian.Merkle.{Step, left, right, leaf_hash, node_hash, climb_one, climb, verify_page}

-- Two byte strings with one digest.
unfoldable pub Collision : Platform → Type 0
Collision p = (xs ys : List ℕ) × (xs ≢ ys) × (p.sha256 xs ≡ p.sha256 ys)

-- `bytes.fromhex` tells the digests of `hexdigest` apart.
unfoldable pub Faithful : Platform → Type 0
Faithful p =
    (xs ys : List ℕ) → p.fromhex (p.sha256 xs) ≡ p.fromhex (p.sha256 ys) → p.sha256 xs ≡ p.sha256 ys

module _ (p : Platform) where
  sha256-cases : (xs ys : List ℕ) → p.sha256 xs ≡ p.sha256 ys → (xs ≡ ys) ⊎ Collision p
  unfolding Collision
  sha256-cases xs ys e = elim (List-discrete ℕ_discrete xs ys) [
    | yes same ↦ inl same
    | no differ ↦ inr (xs, ys, differ, e)
  ]

  climb-cases :
      (path : List Step) (xs ys : List ℕ)
      → Faithful p
      → climb p (p.sha256 xs) path ≡ climb p (p.sha256 ys) path
      → (xs ≡ ys) ⊎ Collision p
  unfolding climb climb_one node_hash Faithful
  climb-cases [] xs ys faithful e = sha256-cases xs ys e
  climb-cases (left s ∷ path) xs ys faithful e =
      elim (climb-cases path (1 ∷ (p.fromhex s ++ p.fromhex (p.sha256 xs)))
        (1 ∷ (p.fromhex s ++ p.fromhex (p.sha256 ys))) faithful e) [
          | inl same ↦
              sha256-cases xs ys
                (faithful xs ys (append_cancel_left (p.fromhex s) _ _ (tail-eq_of_cons-eq same)))
          | inr found ↦ inr found
        ]
  climb-cases (right s ∷ path) xs ys faithful e =
      elim (climb-cases path (1 ∷ (p.fromhex (p.sha256 xs) ++ p.fromhex s))
        (1 ∷ (p.fromhex (p.sha256 ys) ++ p.fromhex s)) faithful e) [
          | inl same ↦
              sha256-cases xs ys
                (faithful xs ys (append_cancel_right _ _ (p.fromhex s) (tail-eq_of_cons-eq same)))
          | inr found ↦ inr found
        ]

  -- Where `bytes.fromhex` tells digests apart, two pages that `verify` accepts with one path against
  -- one root are the same page, or SHA-256 has a collision.
  pub verify_page_binding :
      (page other : List ℕ) (path : List Step) (r : ℕ)
      → Faithful p
      → verify_page p page path r ≡ true
      → verify_page p other path r ≡ true
      → (page ≡ other) ⊎ Collision p
  unfolding verify_page leaf_hash
  verify_page_binding page other path r faithful h k =
      elim (climb-cases path (0 ∷ page) (0 ∷ other) faithful (
        ==→eq (climb p (p.sha256 (0 ∷ page)) path) r h
        ∙ sym (==→eq (climb p (p.sha256 (0 ∷ other)) path) r k))) [
          | inl same ↦ inl (tail-eq_of_cons-eq same)
          | inr found ↦ inr found
        ]
