-- ===== src/Token/Shares.antt =====
-- Proportional splits with floor division, as rig/token.py pays rewards and fees, and their bounds.
use sestrian.Base.{
  ℕ, ◌+◌, ◌*◌, ◌/◌, ◌≤◌, ◌<◌, ◌≡◌, refl, ◌∙◌, ap, Bool, false, none, List, [], ◌∷◌, arith, contains,
}
use sestrian.Base.Int.{ℤ, pos, negsuc, pos_part, floor_div, ◌*ℤ◌}
use sestrian.Base.Dict.{Dict, lookup, keys, sum_by, weight_at, Distinct}
use sestrian.Base.Sort.{insert, sorted}
use sestrian.Token.Account.{paid}

-- `pool * w // total` for each recipient.
unfoldable pub split : ℕ → ℕ → List (ℕ × ℤ) → List (ℕ × ℤ)
split pool total [] = []
split pool total ((addr, w) ∷ rest) =
    (addr, floor_div (pos pool *ℤ w) total) ∷ split pool total rest

div-mul_le : (a n : ℕ) → a / n * n ≤ a
div-mul_le a n = grind arith

pos_part-floor_div : (z : ℤ) (n : ℕ) → pos_part (floor_div z n) ≡ pos_part z / n
unfolding floor_div
pos_part-floor_div (pos a) n = refl
pos_part-floor_div (negsuc a) n = grind arith

pos_part-mul : (a : ℕ) (w : ℤ) → pos_part (pos a *ℤ w) ≡ a * pos_part w
unfolding ◌*ℤ◌
pos_part-mul a (pos w) = grind arith
pos_part-mul a (negsuc w) = grind arith

-- What one recipient gets.
pub share-eq : (pool n : ℕ) (w : ℤ) → pos_part (floor_div (pos pool *ℤ w) n) ≡ pool * pos_part w / n
share-eq pool n w = pos_part-floor_div (pos pool *ℤ w) n ∙ ap (λ t. t / n) (pos_part-mul pool w)

share_le : (pool n : ℕ) (w : ℤ) → pos_part (floor_div (pos pool *ℤ w) n) * n ≤ pool * pos_part w
share_le pool n w = rw (share-eq pool n w) (div-mul_le (pool * pos_part w) n)

-- A split pays at most in proportion to the weights above zero.
pub split_scaled : (pool n : ℕ) (ws : List (ℕ × ℤ)) → paid (split pool n ws) * n ≤ pool * paid ws
unfolding split
split_scaled pool n [] = grind arith
split_scaled pool n ((addr, w) ∷ ws) = grind (arith, split_scaled pool n ws, share_le pool n w)

le_of_mul : (a b n : ℕ) → 0 < n → a * n ≤ b * n → a ≤ b
le_of_mul a b n h k = grind arith

-- A split by weights whose positive parts add up to no more than the divisor pays no more than the
-- pool.
pub split-le :
    (pool n : ℕ) (ws : List (ℕ × ℤ)) → 0 < n → paid ws ≤ n → paid (split pool n ws) ≤ pool
split-le pool n ws h k =
    le_of_mul (paid (split pool n ws)) pool n h (grind (arith, split_scaled pool n ws))

-- The sum of a measure over a list of keys, in any order.
abbrev pub sum_keys : (ℕ → ℕ) → List ℕ → ℕ
sum_keys f [] = 0
sum_keys f (k ∷ ks) = f k + sum_keys f ks

module _ (le : ℕ → ℕ → Bool) (f : ℕ → ℕ) where
  sum_keys-insert : (k : ℕ) (ks : List ℕ) → sum_keys f (insert le k ks) ≡ f k + sum_keys f ks
  sum_keys-insert k [] = refl
  sum_keys-insert k (j ∷ ks) = ground (arith, sum_keys-insert k ks)

  pub sum_keys-sorted : (ks : List ℕ) → sum_keys f (sorted le ks) ≡ sum_keys f ks
  sum_keys-sorted [] = refl
  sum_keys-sorted (k ∷ ks) = omega (arith, sum_keys-insert k (sorted le ks), sum_keys-sorted ks)

module _ {ℓ} {V : Type ℓ} (f : V → ℕ) where
  sum_keys-cons :
      (j : ℕ) (v : V) (d : Dict V) (ks : List ℕ)
      → contains j ks ≡ false
      → sum_keys (λ k. weight_at f k ((j, v) ∷ d)) ks ≡ sum_keys (λ k. weight_at f k d) ks
  sum_keys-cons j v d [] h = refl
  sum_keys-cons j v d (k ∷ ks) h = ground (arith, sum_keys-cons j v d ks)

  contains-none : (j : ℕ) (d : Dict V) → lookup j d ≡ none → contains j (keys d) ≡ false
  contains-none j [] h = refl
  contains-none j ((k, v) ∷ d) h = ground (arith, contains-none j d)

  pub sum_keys-keys :
      (d : Dict V) → Distinct d → sum_keys (λ k. weight_at f k d) (keys d) ≡ sum_by f d
  sum_keys-keys [] h = refl
  sum_keys-keys ((j, v) ∷ d) h =
      ground (arith, sum_keys-cons j v d (keys d) (contains-none j d h.0), sum_keys-keys d h.1)
