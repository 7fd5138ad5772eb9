-- ===== src/Fraud/Sparse.antt =====
-- The sparse form of a body loses nothing.
use sestrian.Base.{
  ℕ, suc, ◌+◌, ◌≡◌, refl, sym, ap, ◌∙◌, true, false, List, [], ◌∷◌, ◌++◌, replicate, length,
  length-append, All, Bool-cases, inl, inr, ltb, ◌==◌, arith,
}
use sestrian.Base.Int.{ℤ, pos, negsuc, leb_ℤ}
use sestrian.Token.DataLane.{is_nonzero}
use sestrian.Fraud.{dense, in_i64, set_at, fill, dense_body, nonzero, nonzero_values, sparse_body}

set_at-append :
    (done out : List ℤ) (v x : ℤ) → set_at (length done) v (done ++ x ∷ out) ≡ done ++ v ∷ out
unfolding set_at
set_at-append [] out v x = refl
set_at-append (y ∷ done) out v x = ap (λ more. y ∷ more) (set_at-append done out v x)

append_one : (done out : List ℤ) (x : ℤ) → done ++ x ∷ out ≡ (done ++ x ∷ []) ++ out
append_one [] out x = refl
append_one (y ∷ done) out x = ap (λ more. y ∷ more) (append_one done out x)

same_lengths : (k : ℕ) (d : List ℤ) → length (nonzero k d) ≡ length (nonzero_values d)
unfolding nonzero nonzero_values
same_lengths k [] = refl
same_lengths k (x ∷ d) = ground (arith, same_lengths (suc k) d)

zero-only : (x : ℤ) → is_nonzero x ≡ false → x ≡ pos 0
zero-only (pos n) h = ap pos (ground arith)
zero-only (negsuc n) h = cc h

-- The loop writes the rest of the vector behind the part that is done.
fill-nonzero :
    (dim k : ℕ) (last : ℤ) (done rest : List ℤ)
    → length done ≡ k
    → k + length rest ≡ dim
    → leb_ℤ (pos k) last ≡ false
    → All (λ x. in_i64 x ≡ true) rest
    → fill dim last (nonzero k rest) (nonzero_values rest) (done ++ replicate (length rest) (pos 0))
      ≡ dense (done ++ rest)
unfolding fill nonzero nonzero_values
fill-nonzero dim k last done [] here all later fits = refl
fill-nonzero dim k last done (x ∷ rest) here all later fits = elim (Bool-cases (is_nonzero x)) [
  | inl moved ↦
      rw (moved, above, later, fits.0)
        (ap (fill dim (pos k) (nonzero (suc k) rest) (nonzero_values rest)) written
          ∙ fill-nonzero dim (suc k) (pos k) (done ++ x ∷ []) rest longer left (ground arith) fits.1
          ∙ ap dense (sym (append_one done rest x)))
  | inr still ↦ rw still (
      ap (fill dim last (nonzero (suc k) rest) (nonzero_values rest)) (kept still)
      ∙ fill-nonzero dim (suc k) last (done ++ x ∷ []) rest longer left (ground (arith, later))
          fits.1
      ∙ ap dense (sym (append_one done rest x)))
]
  where
    zeros : List ℤ
    zeros = replicate (length rest) (pos 0)

    above : ltb k dim ≡ true
    above = ground (arith, all)

    longer : length (done ++ x ∷ []) ≡ suc k
    longer = omega (arith, length-append done (x ∷ []), here)

    left : suc k + length rest ≡ dim
    left = omega (arith, all)

    written : set_at k x (done ++ pos 0 ∷ zeros) ≡ (done ++ x ∷ []) ++ zeros
    written =
        ap (λ j. set_at j x (done ++ pos 0 ∷ zeros)) (sym here)
        ∙ set_at-append done zeros x (pos 0)
        ∙ append_one done zeros x

    kept : is_nonzero x ≡ false → done ++ pos 0 ∷ zeros ≡ (done ++ x ∷ []) ++ zeros
    kept still =
        append_one done zeros (pos 0)
        ∙ ap (λ y. (done ++ y ∷ []) ++ zeros) (sym (zero-only x still))

-- A body of int64 values survives its way through a proof: the sparse form that `build` makes of it
-- is read back by `_dense`, at the body's own dimension, as the body.
pub dense_body-sparse_body :
    (d : List ℤ)
    → All (λ x. in_i64 x ≡ true) d
    → dense_body (sparse_body (length d) d) (length d) ≡ dense d
unfolding dense_body sparse_body
dense_body-sparse_body d fits =
    rw (same (length d), same_lengths 0 d, same (length (nonzero_values d)))
      (fill-nonzero (length d) 0 (negsuc 0) [] d refl (omega arith) refl fits)
  where
    same : (n : ℕ) → (n == n) ≡ true
    same n = ground arith
