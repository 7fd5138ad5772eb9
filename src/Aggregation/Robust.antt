-- ===== src/Aggregation/Robust.antt =====
-- What a minority of the deltas can do to a coordinate of the trimmed mean of rig/chain.py.
use native.Mathlib.Nat.{le_trans, le-div_iff_mul-le, div-lt_iff_lt-mul, div-le_of_le-mul}
use sestrian.Base.{
  ℕ, zero, suc, ◌+◌, ◌-◌, ◌*◌, ◌/◌, ◌^◌, ◌≤◌, ◌<◌, ◌≡◌, refl, ap, ◌∙◌, true, false, List, [], ◌∷◌,
  All, length, if◌then◌else◌, Bool-cases, inl, inr, arith,
}
use sestrian.Base.Int.{
  ℤ, pos, negsuc, pos_part, neg_part, leb_ℤ, ◌+ℤ◌, ◌-ℤ◌, ◌*ℤ◌, +ℤ_parts, floor_div, sum_ℤ,
}
use sestrian.Base.Sort.{sorted, insert, length-sorted}
use sestrian.Aggregation.{wrap64, slice, trim_count, trimmed_column}

-- How many values of a column lie below a, and how many above b.
abbrev pub count_below : ℤ → List ℤ → ℕ
count_below a [] = 0
count_below a (x ∷ xs) = (if leb_ℤ a x then 0 else 1) + count_below a xs

abbrev pub count_above : ℤ → List ℤ → ℕ
count_above b [] = 0
count_above b (x ∷ xs) = (if leb_ℤ x b then 0 else 1) + count_above b xs

abbrev Between : ℤ → ℤ → ℤ → Type 0
Between a b x = (leb_ℤ a x ≡ true) × (leb_ℤ x b ≡ true)

abbrev Ascends : List ℤ → Type 0
Ascends [] = Unit
Ascends (x ∷ xs) = All (λ y. leb_ℤ x y ≡ true) xs × Ascends xs

below-insert : (a x : ℤ) (ys : List ℤ) → count_below a (insert leb_ℤ x ys) ≡ count_below a (x ∷ ys)
below-insert a x [] = refl
below-insert a x (y ∷ ys) = ground (arith, below-insert a x ys)

above-insert : (b x : ℤ) (ys : List ℤ) → count_above b (insert leb_ℤ x ys) ≡ count_above b (x ∷ ys)
above-insert b x [] = refl
above-insert b x (y ∷ ys) = ground (arith, above-insert b x ys)

below-sorted : (a : ℤ) (xs : List ℤ) → count_below a (sorted leb_ℤ xs) ≡ count_below a xs
below-sorted a [] = refl
below-sorted a (x ∷ xs) = omega (arith, below-insert a x (sorted leb_ℤ xs), below-sorted a xs)

above-sorted : (b : ℤ) (xs : List ℤ) → count_above b (sorted leb_ℤ xs) ≡ count_above b xs
above-sorted b [] = refl
above-sorted b (x ∷ xs) = omega (arith, above-insert b x (sorted leb_ℤ xs), above-sorted b xs)

leb_ℤ_trans : (x y z : ℤ) → leb_ℤ x y ≡ true → leb_ℤ y z ≡ true → leb_ℤ x z ≡ true
leb_ℤ_trans x y z h k = ground (arith, h, k)

leb_ℤ_total : (x y : ℤ) → leb_ℤ x y ≡ false → leb_ℤ y x ≡ true
leb_ℤ_total x y h = ground (arith, h)

lower_bound_trans :
    (x y : ℤ) (zs : List ℤ)
    → leb_ℤ x y ≡ true
    → All (λ z. leb_ℤ y z ≡ true) zs
    → All (λ z. leb_ℤ x z ≡ true) zs
lower_bound_trans x y [] h k = tt
lower_bound_trans x y (z ∷ zs) h k = (leb_ℤ_trans x y z h k.0, lower_bound_trans x y zs h k.1)

lower_bound_insert :
    (a x : ℤ) (ys : List ℤ)
    → leb_ℤ a x ≡ true
    → All (λ z. leb_ℤ a z ≡ true) ys
    → All (λ z. leb_ℤ a z ≡ true) (insert leb_ℤ x ys)
lower_bound_insert a x [] h k = (h, tt)
lower_bound_insert a x (y ∷ ys) h k = elim (Bool-cases (leb_ℤ x y)) [
  | inl before ↦ rw before (h, k)
  | inr after ↦ rw after (k.0, lower_bound_insert a x ys h k.1)
]

insert-Ascends : (x : ℤ) (ys : List ℤ) → Ascends ys → Ascends (insert leb_ℤ x ys)
insert-Ascends x [] h = (tt, tt)
insert-Ascends x (y ∷ ys) h = elim (Bool-cases (leb_ℤ x y)) [
  | inl before ↦ rw before ((before, lower_bound_trans x y ys before h.0), h)
  | inr after ↦
      rw after (lower_bound_insert y x ys (leb_ℤ_total x y after) h.0, insert-Ascends x ys h.1)
]

sorted-Ascends : (xs : List ℤ) → Ascends (sorted leb_ℤ xs)
sorted-Ascends [] = tt
sorted-Ascends (x ∷ xs) = insert-Ascends x (sorted leb_ℤ xs) (sorted-Ascends xs)

none-below : (a : ℤ) (xs : List ℤ) → All (λ x. leb_ℤ a x ≡ true) xs → count_below a xs ≡ 0
none-below a [] h = refl
none-below a (x ∷ xs) h = ground (arith, h.0, none-below a xs h.1)

count_above-length :
    (b x : ℤ) (xs : List ℤ)
    → leb_ℤ x b ≡ false
    → All (λ y. leb_ℤ x y ≡ true) xs
    → count_above b xs ≡ length xs
count_above-length b x [] h k = refl
count_above-length b x (y ∷ xs) h k = ground (arith, h, k.0, count_above-length b x xs h k.1)

-- Of an ascending column the slice past the first t values, with t more left out at the end, lies
-- between bounds that at most t values break on either side.
slice-Between :
    (a b : ℤ) (t lo n : ℕ) (xs : List ℤ)
    → Ascends xs
    → count_below a xs ≤ lo
    → count_above b xs ≤ t
    → lo + n + t ≤ length xs
    → All (Between a b) (slice lo n xs)
slice-Between a b t lo n [] h below above fits = tt
slice-Between a b t zero zero (x ∷ xs) h below above fits = tt
slice-Between a b t zero (suc n) (x ∷ xs) h below above fits = (
  (first_low, first_high),
  slice-Between a b t zero n xs h.1 (ground (arith, below)) (ground (arith, above))
      (omega (arith, fits)),
)
  where
    first_low : leb_ℤ a x ≡ true
    first_low = ground (arith, below)

    first_high : leb_ℤ x b ≡ true
    first_high = elim (Bool-cases (leb_ℤ x b)) [
      | inl low ↦ low
      | inr high ↦ absurd (ground (arith, high, above, fits, count_above-length b x xs high h.0))
    ]
slice-Between a b t (suc lo) n (x ∷ xs) h below above fits =
    slice-Between a b t lo n xs h.1 fewer (ground (arith, above)) (omega (arith, fits))
  where
    fewer : count_below a xs ≤ lo
    fewer = elim (Bool-cases (leb_ℤ a x)) [
      | inl high ↦ omega (arith, none-below a xs (lower_bound_trans a x xs high h.0))
      | inr low ↦ ground (arith, low, below)
    ]

-- n times a is at most s, and s at most n times b.
abbrev AtLeast : ℕ → ℤ → ℤ → Type 0
AtLeast n a s = n * pos_part a + neg_part s ≤ pos_part s + n * neg_part a

abbrev AtMost : ℕ → ℤ → ℤ → Type 0
AtMost n b s = pos_part s + n * neg_part b ≤ n * pos_part b + neg_part s

sum_ℤ-AtLeast : (a b : ℤ) (xs : List ℤ) → All (Between a b) xs → AtLeast (length xs) a (sum_ℤ xs)
unfolding sum_ℤ
sum_ℤ-AtLeast a b [] h = omega arith
sum_ℤ-AtLeast a b (x ∷ xs) h = grind (arith, h.0, sum_ℤ-AtLeast a b xs h.1, +ℤ_parts x (sum_ℤ xs))

sum_ℤ-AtMost : (a b : ℤ) (xs : List ℤ) → All (Between a b) xs → AtMost (length xs) b (sum_ℤ xs)
unfolding sum_ℤ
sum_ℤ-AtMost a b [] h = omega arith
sum_ℤ-AtMost a b (x ∷ xs) h = grind (arith, h.0, sum_ℤ-AtMost a b xs h.1, +ℤ_parts x (sum_ℤ xs))

-- Wrapping at d = 2 c leaves the values from -c up to c alone.
wrap-same :
    (c d : ℕ) (s : ℤ)
    → c + c ≡ d
    → neg_part s ≤ c
    → pos_part s < c
    → let shifted = s +ℤ pos c in shifted -ℤ floor_div shifted d *ℤ pos d -ℤ pos c ≡ s
unfolding ◌+ℤ◌ ◌-ℤ◌ ◌*ℤ◌ floor_div
wrap-same c d s twice low high =
    ap (λ sh. sh -ℤ floor_div sh d *ℤ pos d -ℤ pos c) lifted
    ∙ ap (λ q. pos m -ℤ q *ℤ pos d -ℤ pos c) (ap pos first_turn)
    ∙ ap (λ z. pos m -ℤ z -ℤ pos c) no_turn
    ∙ back
  where
    m : ℕ
    m = (pos_part s + c) - neg_part s

    lifted : s +ℤ pos c ≡ pos m
    lifted = ground (arith, low)

    first_turn : m / d ≡ 0
    first_turn = grind (arith, div-lt_iff_lt-mul, twice, high)

    no_turn : pos 0 *ℤ pos d ≡ pos 0
    no_turn = ground arith

    back : pos m -ℤ pos 0 -ℤ pos c ≡ s
    back = ground (arith, low)

wrap64-same : (s : ℤ) → neg_part s ≤ 2 ^ 63 → pos_part s < 2 ^ 63 → wrap64 s ≡ s
unfolding wrap64
wrap64-same s low high = wrap-same (2 ^ 63) (2 ^ 64) s refl low high

floor_div-AtLeast : (n : ℕ) (a s : ℤ) → 0 < n → AtLeast n a s → leb_ℤ a (floor_div s n) ≡ true
unfolding floor_div
floor_div-AtLeast n (pos x) (pos y) some_n h = grind (arith, le-div_iff_mul-le)
floor_div-AtLeast n (pos x) (negsuc y) some_n h = absurd (grind (arith, h))
floor_div-AtLeast n (negsuc x) (pos y) some_n h = ground arith
floor_div-AtLeast n (negsuc x) (negsuc y) some_n h = grind (arith, div-le_of_le-mul)

floor_div-AtMost : (n : ℕ) (b s : ℤ) → 0 < n → AtMost n b s → leb_ℤ (floor_div s n) b ≡ true
unfolding floor_div
floor_div-AtMost n (pos x) (pos y) some_n h = grind (arith, div-le_of_le-mul)
floor_div-AtMost n (negsuc x) (pos y) some_n h = absurd (grind (arith, h))
floor_div-AtMost n (pos x) (negsuc y) some_n h = ground arith
floor_div-AtMost n (negsuc x) (negsuc y) some_n h = grind (arith, le-div_iff_mul-le)

trim_count-short : (k : ℕ) → 0 < k → trim_count k + trim_count k < k
unfolding trim_count
trim_count-short k h = ground arith

length-slice : (lo n : ℕ) (xs : List ℤ) → lo + n ≤ length xs → length (slice lo n xs) ≡ n
length-slice lo n [] h = omega (arith, h)
length-slice zero zero (x ∷ xs) h = refl
length-slice zero (suc n) (x ∷ xs) h = ap suc (length-slice zero n xs (omega (arith, h)))
length-slice (suc lo) n (x ∷ xs) h = length-slice lo n xs (omega (arith, h))

scale : (n k x : ℕ) → n ≤ k → n * x ≤ k * x
scale n k x h = grind arith

-- The sum of n values between a and b, in int64, and their mean.
mean-Between :
    (a b : ℤ) (n k : ℕ) (s : ℤ)
    → 0 < n
    → n ≤ k
    → k * neg_part a ≤ 2 ^ 63
    → k * pos_part b < 2 ^ 63
    → AtLeast n a s
    → AtMost n b s
    → Between a b (floor_div (wrap64 s) n)
mean-Between a b n k s some_n le low high least most =
    rw (wrap64-same s (within_low s least) (within_high s most))
      (floor_div-AtLeast n a s some_n least, floor_div-AtMost n b s some_n most)
  where
    within_low : (z : ℤ) → AtLeast n a z → neg_part z ≤ 2 ^ 63
    within_low (pos y) h = omega arith
    within_low (negsuc y) h = le_trans (omega (arith, h)) (le_trans (scale n k (neg_part a) le) low)

    below_both : {y : ℕ} → y ≤ n * pos_part b → n * pos_part b ≤ k * pos_part b → y < 2 ^ 63
    below_both h j = omega (arith, high)

    within_high : (z : ℤ) → AtMost n b z → pos_part z < 2 ^ 63
    within_high (pos y) h = below_both (omega (arith, h)) (scale n k (pos_part b) le)
    within_high (negsuc y) h = omega arith

-- A minority cannot move a coordinate of the mean: where at most as many values lie below a as the
-- mean trims, and at most as many above b, the mean lies between a and b. The bounds are such that the
-- column's sum between them stays in int64.
pub trimmed_column-Between :
    (a b : ℤ) (column : List ℤ)
    → 0 < length column
    → count_below a column ≤ trim_count (length column)
    → count_above b column ≤ trim_count (length column)
    → length column * neg_part a ≤ 2 ^ 63
    → length column * pos_part b < 2 ^ 63
    → (leb_ℤ a (trimmed_column column) ≡ true) × (leb_ℤ (trimmed_column column) b ≡ true)
unfolding trimmed_column
trimmed_column-Between a b column some_k below above low high =
    let k = length column in
    let lo = trim_count k in
    let ordered = sorted leb_ℤ column in
    let short = trim_count-short k some_k in
    let same : length ordered ≡ k = length-sorted leb_ℤ column in
    let core = slice lo (k - lo - lo) ordered in
    let inside =
      slice-Between a b lo lo (k - lo - lo) ordered (sorted-Ascends column)
        (omega (arith, below-sorted a column, below)) (omega (arith, above-sorted b column, above))
        (omega (arith, short, same)) in
    let width : length core ≡ k - lo - lo =
      length-slice lo (k - lo - lo) ordered (omega (arith, short, same)) in
    mean-Between a b (length core) k (sum_ℤ core) (omega (arith, width, short))
      (omega (arith, width)) low high (sum_ℤ-AtLeast a b core inside) (sum_ℤ-AtMost a b core inside)
