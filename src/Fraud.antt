-- ===== src/Fraud.antt =====
-- rig/fraud.py: the sparse bodies of a page fraud proof, which bind to a delta's hash once dense.
pub mod Sparse
pub mod Game
pub mod Hex
pub mod Canonical
pub mod Evidence
pub mod Convicts
use sestrian.Base.{
  ℕ, zero, suc, ◌-◌, ◌^◌, Bool, true, false, not, ◌&&◌, ◌||◌, List, [], ◌∷◌, replicate, length,
  if◌then◌else◌, ltb, leb, ◌==◌,
}
use sestrian.Base.Int.{ℤ, pos, negsuc, leb_ℤ}
use sestrian.Token.DataLane.{is_nonzero}

-- A sparse body: `{"n": …, "idx": …, "val": …}`.
pub record SparseBody : Type 0 where
  pub n : ℕ
  pub idx : List ℤ
  pub val : List ℤ

-- What `_dense` comes to: None, the OverflowError of an int64 array, or the vector.
pub data Dense : Type 0 where
  malformed overflow : Dense
  dense : List ℤ → Dense

abbrev pub in_i64 : ℤ → Bool
in_i64 x = leb_ℤ (negsuc (2 ^ 63 - 1)) x && leb_ℤ x (pos (2 ^ 63 - 1))

-- `out[i] = v`
unfoldable pub set_at : ℕ → ℤ → List ℤ → List ℤ
set_at i v [] = []
set_at zero v (x ∷ out) = v ∷ out
set_at (suc i) v (x ∷ out) = x ∷ set_at i v out

-- The loop of `_dense`: the coordinates ascend and lie in range.
unfoldable pub fill : ℕ → ℤ → List ℤ → List ℤ → List ℤ → Dense
unfolding set_at
fill dim last [] val out = dense out
fill dim last (i ∷ idx) [] out = dense out
fill dim last (negsuc i ∷ idx) (v ∷ val) out = malformed
fill dim last (pos i ∷ idx) (v ∷ val) out =
    let rest = fill dim (pos i) idx val (set_at i v out) in
    if not (ltb i dim) || leb_ℤ (pos i) last
    then malformed
    else if not (in_i64 v)
    then overflow
    else rest

-- `_dense`
unfoldable pub dense_body : SparseBody → ℕ → Dense
unfolding fill
dense_body body dim =
    if not (body.n == dim) || not (length body.idx == length body.val)
    then malformed
    else fill dim (negsuc 0) body.idx body.val (replicate dim (pos 0))

-- `np.nonzero(d)[0]`, from coordinate k on, and the values there.
unfoldable pub nonzero : ℕ → List ℤ → List ℤ
nonzero k [] = []
nonzero k (x ∷ xs) = let rest = nonzero (suc k) xs in if is_nonzero x then pos k ∷ rest else rest

unfoldable pub nonzero_values : List ℤ → List ℤ
nonzero_values [] = []
nonzero_values (x ∷ xs) = let rest = nonzero_values xs in if is_nonzero x then x ∷ rest else rest

-- The sparse body that `build` puts into a proof.
unfoldable pub sparse_body : ℕ → List ℤ → SparseBody
unfolding nonzero nonzero_values
sparse_body dim d = record { n = dim; idx = nonzero 0 d; val = nonzero_values d }
