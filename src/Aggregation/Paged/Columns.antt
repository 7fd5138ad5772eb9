-- ===== src/Aggregation/Paged/Columns.antt =====
-- Parts of lists: what `slice`, `splice` and the trimmed mean do on a part of the columns.
use sestrian.Base.{
  ℕ, zero, suc, ◌+◌, ◌-◌, ◌≤◌, ◌≡◌, refl, sym, ap, ◌∙◌, List, [], ◌∷◌, ◌++◌, map, All, length,
  arith,
}
use sestrian.Base.Int.{ℤ, ◌+ℤ◌}
use sestrian.Aggregation.{wrap64, slice, heads, tails, trimmed_column, trimmed_columns, add_vector}
use sestrian.Aggregation.Paged.{splice}

abbrev pub drop : ℕ → List ℤ → List ℤ
drop zero xs = xs
drop (suc n) [] = []
drop (suc n) (x ∷ xs) = drop n xs

abbrev pub HasLength : ℕ → List ℤ → Type 0
HasLength n xs = length xs ≡ n

pub slice-drop : (lo n : ℕ) (xs : List ℤ) → slice lo n xs ≡ slice 0 n (drop lo xs)
slice-drop zero n xs = refl
slice-drop (suc lo) n [] = refl
slice-drop (suc lo) n (x ∷ xs) = slice-drop lo n xs

pub drop-drop : (a b c : ℕ) (xs : List ℤ) → a + b ≡ c → drop b (drop a xs) ≡ drop c xs
drop-drop zero b c xs h = ap (λ k. drop k xs) (omega (arith, h))
drop-drop (suc a) b zero xs h = absurd (omega (arith, h))
drop-drop (suc a) zero (suc c) [] h = refl
drop-drop (suc a) (suc b) (suc c) [] h = refl
drop-drop (suc a) b (suc c) (x ∷ xs) h = drop-drop a b c xs (omega (arith, h))

pub length-slice : (n : ℕ) (xs : List ℤ) → n ≤ length xs → length (slice 0 n xs) ≡ n
length-slice zero [] h = refl
length-slice zero (x ∷ xs) h = refl
length-slice (suc n) [] h = omega (arith, h)
length-slice (suc n) (x ∷ xs) h = omega (arith, length-slice n xs (omega (arith, h)))

pub length-drop : (n : ℕ) (xs : List ℤ) → length (drop n xs) ≡ length xs - n
length-drop zero xs = omega arith
length-drop (suc n) [] = omega arith
length-drop (suc n) (x ∷ xs) = omega (arith, length-drop n xs)

pub length-trimmed_columns : (n : ℕ) (rows : List (List ℤ)) → length (trimmed_columns n rows) ≡ n
unfolding trimmed_columns
length-trimmed_columns zero rows = refl
length-trimmed_columns (suc n) rows = ap suc (length-trimmed_columns n (tails rows))

pub length-add_vector :
    (n : ℕ) (xs ys : List ℤ) → length xs ≡ n → length ys ≡ n → length (add_vector xs ys) ≡ n
unfolding add_vector
length-add_vector n [] ys h k = h
length-add_vector n (x ∷ xs) [] h k = omega (arith, k)
length-add_vector zero (x ∷ xs) (y ∷ ys) h k = absurd (omega (arith, h))
length-add_vector (suc n) (x ∷ xs) (y ∷ ys) h k =
    ap suc (length-add_vector n xs ys (omega (arith, h)) (omega (arith, k)))

-- Slicing and splicing after a part that is done.
pub slice-append :
    (done rest : List ℤ) (n : ℕ) → slice (length done) n (done ++ rest) ≡ slice 0 n rest
slice-append [] rest n = refl
slice-append (x ∷ done) rest n = slice-append done rest n

pub splice-here :
    (values rest : List ℤ)
    → length values ≤ length rest
    → splice 0 values rest ≡ values ++ drop (length values) rest
unfolding splice
splice-here [] rest h = refl
splice-here (v ∷ values) [] h = absurd (omega (arith, h))
splice-here (v ∷ values) (x ∷ rest) h =
    ap (λ xs. v ∷ xs) (splice-here values rest (omega (arith, h)))

pub splice-append :
    (done rest values : List ℤ)
    → splice (length done) values (done ++ rest) ≡ done ++ splice 0 values rest
unfolding splice
splice-append [] rest values = refl
splice-append (x ∷ done) rest [] = refl
splice-append (x ∷ done) rest (v ∷ values) =
    ap (λ xs. x ∷ xs) (splice-append done rest (v ∷ values))

-- The mean of n + m columns is that of the first n, then that of the other m.
heads-slice : (n : ℕ) (rows : List (List ℤ)) → heads (map (slice 0 (suc n)) rows) ≡ heads rows
heads-slice n [] = refl
heads-slice n ([] ∷ rows) = heads-slice n rows
heads-slice n ((x ∷ xs) ∷ rows) = ap (λ col. x ∷ col) (heads-slice n rows)

tails-slice :
    (n : ℕ) (rows : List (List ℤ))
    → tails (map (slice 0 (suc n)) rows) ≡ map (slice 0 n) (tails rows)
tails-slice n [] = refl
tails-slice n ([] ∷ rows) = tails-slice n rows
tails-slice n ((x ∷ xs) ∷ rows) = ap (λ more. slice 0 n xs ∷ more) (tails-slice n rows)

drop-tails :
    (n k : ℕ) (rows : List (List ℤ))
    → All (HasLength (suc k)) rows
    → map (drop (suc n)) rows ≡ map (drop n) (tails rows)
drop-tails n k [] h = refl
drop-tails n k ([] ∷ rows) h = absurd (omega (arith, h.0))
drop-tails n k ((x ∷ xs) ∷ rows) h = ap (λ more. drop n xs ∷ more) (drop-tails n k rows h.1)

tails-HasLength :
    (k : ℕ) (rows : List (List ℤ)) → All (HasLength (suc k)) rows → All (HasLength k) (tails rows)
tails-HasLength k [] h = tt
tails-HasLength k ([] ∷ rows) h = absurd (omega (arith, h.0))
tails-HasLength k ((x ∷ xs) ∷ rows) h = (omega (arith, h.0), tails-HasLength k rows h.1)

pub map-drop_zero : (rows : List (List ℤ)) → map (drop 0) rows ≡ rows
map-drop_zero [] = refl
map-drop_zero (r ∷ rows) = ap (λ more. r ∷ more) (map-drop_zero rows)

pub trimmed_columns-split :
    (n m k : ℕ) (rows : List (List ℤ))
    → n + m ≡ k
    → All (HasLength k) rows
    → trimmed_columns k rows
      ≡ trimmed_columns n (map (slice 0 n) rows) ++ trimmed_columns m (map (drop n) rows)
unfolding trimmed_columns
trimmed_columns-split zero m k rows e h =
    let same : k ≡ m = omega (arith, e) in
    ap (λ j. trimmed_columns j rows) same ∙ ap (trimmed_columns m) (sym (map-drop_zero rows))
trimmed_columns-split (suc n) m zero rows e h = absurd (omega (arith, e))
trimmed_columns-split (suc n) m (suc k) rows e h =
    rw (heads-slice n rows, tails-slice n rows, drop-tails n k rows h)
      (ap (λ more. trimmed_column (heads rows) ∷ more)
        (trimmed_columns-split n m k (tails rows) (omega (arith, e)) (tails-HasLength k rows h)))

pub add_vector-split :
    (n : ℕ) (xs us vs : List ℤ)
    → length us ≡ n
    → n ≤ length xs
    → add_vector xs (us ++ vs) ≡ add_vector (slice 0 n xs) us ++ add_vector (drop n xs) vs
unfolding add_vector
add_vector-split zero [] [] vs h le = refl
add_vector-split zero (x ∷ xs) [] vs h le = refl
add_vector-split zero xs (a ∷ us) vs h le = absurd (omega (arith, h))
add_vector-split (suc n) xs [] vs h le = absurd (omega (arith, h))
add_vector-split (suc n) [] (a ∷ us) vs h le = absurd (omega (arith, le))
add_vector-split (suc n) (x ∷ xs) (a ∷ us) vs h le =
    ap (λ more. wrap64 (x +ℤ a) ∷ more)
      (add_vector-split n xs us vs (omega (arith, h)) (omega (arith, le)))
