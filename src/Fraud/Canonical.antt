-- ===== src/Fraud/Canonical.antt =====
-- Sorting a sorted list, or making a canonical list canonical, changes nothing.
use sestrian.Base.{
  ℕ, ◌≡◌, refl, ap, ◌∙◌, Bool, true, false, List, [], ◌∷◌, contains, leb, Bool-cases, Unrepeated,
  inl, inr, arith,
}
use sestrian.Base.Sort.{sorted, insert, contains-insert, contains-sorted}
use sestrian.Platform.{Platform}
use sestrian.Crypto.{
  BackpropTx, unique, canonical_pages, canonical_refs, signing_bytes, txid, verify,
}
use sestrian.Fraud.Game.{carried_tx}

-- Of two values one is at most the other.
abbrev pub IsTotal : (ℕ → ℕ → Bool) → Type 0
IsTotal le = (a b : ℕ) → le a b ≡ false → le b a ≡ true

module _ (le : ℕ → ℕ → Bool) where
  abbrev Ascends : List ℕ → Type 0
  Ascends [] = Unit
  Ascends (x ∷ []) = Unit
  Ascends (x ∷ y ∷ ys) = (le x y ≡ true) × Ascends (y ∷ ys)

  -- A list that stays ascending below a head.
  insert-Ascends_below :
      (y x : ℕ) (ys : List ℕ)
      → IsTotal le
      → le y x ≡ true
      → Ascends (y ∷ ys)
      → Ascends (y ∷ insert le x ys)
  insert-Ascends_below y x [] total h a = (h, tt)
  insert-Ascends_below y x (z ∷ zs) total h a = elim (Bool-cases (le x z)) [
    | inl before ↦ rw before (h, (before, a.1))
    | inr after ↦ rw after (a.0, insert-Ascends_below z x zs total (total x z after) a.1)
  ]

  insert-Ascends : (x : ℕ) (ys : List ℕ) → IsTotal le → Ascends ys → Ascends (insert le x ys)
  insert-Ascends x [] total a = tt
  insert-Ascends x (y ∷ ys) total a = elim (Bool-cases (le x y)) [
    | inl before ↦ rw before (before, a)
    | inr after ↦ rw after (insert-Ascends_below y x ys total (total x y after) a)
  ]

  sorted-Ascends : (xs : List ℕ) → IsTotal le → Ascends (sorted le xs)
  sorted-Ascends [] total = tt
  sorted-Ascends (x ∷ xs) total = insert-Ascends x (sorted le xs) total (sorted-Ascends xs total)

  sorted-same : (xs : List ℕ) → Ascends xs → sorted le xs ≡ xs
  sorted-same [] a = refl
  sorted-same (x ∷ []) a = refl
  sorted-same (x ∷ y ∷ ys) a = ap (insert le x) (sorted-same (y ∷ ys) a.1) ∙ rw (a.0) refl

  pub sorted-sorted : (xs : List ℕ) → IsTotal le → sorted le (sorted le xs) ≡ sorted le xs
  sorted-sorted xs total = sorted-same (sorted le xs) (sorted-Ascends xs total)

unique-Unrepeated : (xs : List ℕ) → Unrepeated (unique xs)
unique-Unrepeated [] = tt
unique-Unrepeated (x ∷ xs) = elim (Bool-cases (contains x (unique xs))) [
  | inl old ↦ rw old (unique-Unrepeated xs)
  | inr new ↦ rw new (new, unique-Unrepeated xs)
]

unique-same : (xs : List ℕ) → Unrepeated xs → unique xs ≡ xs
unique-same [] h = refl
unique-same (x ∷ xs) h = rw (unique-same xs h.1, h.0) refl

insert-Unrepeated :
    (le : ℕ → ℕ → Bool) (x : ℕ) (ys : List ℕ)
    → contains x ys ≡ false
    → Unrepeated ys
    → Unrepeated (insert le x ys)
insert-Unrepeated le x [] new h = (refl, tt)
insert-Unrepeated le x (y ∷ ys) new h = elim (Bool-cases (le x y)) [
  | inl before ↦ rw before (new, h)
  | inr after ↦ rw after (
    contains-insert le y x ys ∙ ground (arith, new, h.0),
    insert-Unrepeated le x ys (ground arith) h.1,
  )
]

sorted-Unrepeated : (le : ℕ → ℕ → Bool) (xs : List ℕ) → Unrepeated xs → Unrepeated (sorted le xs)
sorted-Unrepeated le [] h = tt
sorted-Unrepeated le (x ∷ xs) h =
    insert-Unrepeated le x (sorted le xs) (contains-sorted le x xs ∙ h.0)
      (sorted-Unrepeated le xs h.1)

canonical-same :
    (le : ℕ → ℕ → Bool) (xs : List ℕ)
    → IsTotal le
    → sorted le (unique (sorted le (unique xs))) ≡ sorted le (unique xs)
canonical-same le xs total =
    ap (sorted le) (
      unique-same (sorted le (unique xs)) (sorted-Unrepeated le (unique xs) (unique-Unrepeated xs)))
    ∙ sorted-sorted le (unique xs) total

pub leb-IsTotal : IsTotal leb
leb-IsTotal a b h = ground arith

-- A transaction and its field dict have the same pages, the same id and the same signature check.
module _ (p : Platform) (total : IsTotal p.text_le) (tx : BackpropTx) where
  pub canonical_pages-carried : canonical_pages (carried_tx p tx) ≡ canonical_pages tx
  unfolding canonical_pages carried_tx
  canonical_pages-carried = canonical-same leb tx.pages leb-IsTotal

  canonical_refs-carried : canonical_refs p (carried_tx p tx) ≡ canonical_refs p tx
  unfolding canonical_refs carried_tx
  canonical_refs-carried = canonical-same p.text_le tx.data_refs total

  signing_bytes-carried : signing_bytes p (carried_tx p tx) ≡ signing_bytes p tx
  unfolding signing_bytes carried_tx
  signing_bytes-carried = rw (canonical_pages-carried, canonical_refs-carried) refl

  pub txid-carried : txid p (carried_tx p tx) ≡ txid p tx
  unfolding txid
  txid-carried = ap p.sha256 signing_bytes-carried

  pub verify-carried : verify p (carried_tx p tx) ≡ verify p tx
  unfolding verify carried_tx
  verify-carried = ap (λ bytes. p.ed25519 tx.miner bytes tx.sig) signing_bytes-carried
