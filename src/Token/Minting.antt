-- ===== src/Token/Minting.antt =====
-- A block reward mints at most the emission of its height.
use mathlib.Core.Path.{subst}
use sestrian.Base.{
  length-map, ℕ, ◌+◌, ◌*◌, ◌/◌, ◌≤◌, ◌<◌, ◌≡◌, refl, sym, ◌⊎◌, false, none, List, [], ◌∷◌, map,
  length, arith, inl, inr,
}
use sestrian.Base.Int.{ℤ, pos, negsuc, pos_part, sum_ℤ, IsNonneg, +ℤ-IsNonneg, +ℤ-pos_part}
use sestrian.Base.Dict.{
  Dict, lookup, get_or, values, keys, sum_by, same, weight_at, weight-same, Distinct,
}
use sestrian.Base.Sort.{sorted, length-sorted}
use sestrian.Platform.{Platform}
use sestrian.Crypto.{unique}
use sestrian.Token.Types.{TokenLedger}
use sestrian.Token.Emission.{emission, share_miners, share_proposer, share_data}
use sestrian.Token.Txs.{address}
use sestrian.Token.Account.{paid, holdings, holdings-credit, holdings-credit_all}
use sestrian.Token.Shares.{split, split-le, sum_keys, sum_keys-sorted, sum_keys-keys}
use sestrian.Token.Reward.{
  miner_claims, miner_total, pay_miners, reward_miners, reward_proposer, pay_owners, reward_data,
  apply_reward, equal_shares, owner_claims, backed_credits, hash_to_owner, is_unpaid,
}

-- What weight a miner has above zero.
abbrev weight_of : Dict ℤ → ℕ → ℕ
weight_of weights m = pos_part (get_or m (pos 0) weights)

paid-equal_shares :
    (each : ℕ) (addrs : List ℕ) → paid (equal_shares each addrs) ≡ each * length addrs
unfolding equal_shares
paid-equal_shares each [] = grind arith
paid-equal_shares each (a ∷ addrs) = grind (arith, paid-equal_shares each addrs)

div-mul_le : (a n : ℕ) → a / n * n ≤ a
div-mul_le a n = grind arith

-- The values at a list of keys, all of them zero or more.
sum-IsNonneg :
    (weights : Dict ℤ) (ks : List ℕ)
    → ((m : ℕ) → IsNonneg (get_or m (pos 0) weights))
    → let s = sum_ℤ (map (λ m. get_or m (pos 0) weights) ks) in
      IsNonneg s × (pos_part s ≡ sum_keys (weight_of weights) ks)
unfolding sum_ℤ
sum-IsNonneg weights [] h = (refl, refl)
sum-IsNonneg weights (k ∷ ks) h =
    let rest = sum-IsNonneg weights ks h in
    let s = sum_ℤ (map (λ m. get_or m (pos 0) weights) ks) in
    let w = get_or k (pos 0) weights in
    (+ℤ-IsNonneg w s (h k) rest.0, omega (arith, +ℤ-pos_part w s (h k) rest.0, rest.1))

module _ (p : Platform) where
  paid-miner_claims :
      (weights : Dict ℤ) (ks : List ℕ)
      → paid (miner_claims p weights ks) ≡ sum_keys (weight_of weights) ks
  unfolding miner_claims
  paid-miner_claims weights [] = refl
  paid-miner_claims weights (k ∷ ks) = omega (arith, paid-miner_claims weights ks)

  pay_miners-le :
      (pool : ℕ) (pubs : List ℕ) (weights : Dict ℤ) (led : TokenLedger)
      → ((m : ℕ) → IsNonneg (get_or m (pos 0) weights))
      → holdings (pay_miners p pool pubs weights led) ≤ holdings led + pool
  unfolding pay_miners miner_total
  pay_miners-le pool pubs weights led h =
      let total = sum_ℤ (map (λ m. get_or m (pos 0) weights) (unique pubs)) in
      let order = sorted p.text_le (unique pubs) in
      let claims = miner_claims p weights order in
      let each = pool / length pubs in
      let addrs = map (address p) (sorted p.text_le pubs) in
      let sums = sum-IsNonneg weights (unique pubs) h in
      ground (
        arith,
        holdings-credit_all (split pool (pos_part total) claims) led,
        split-le pool (pos_part total) claims,
        paid-miner_claims weights order,
        sum_keys-sorted p.text_le (weight_of weights) (unique pubs),
        sums.0,
        sums.1,
        holdings-credit_all (equal_shares each addrs) led,
        paid-equal_shares each addrs,
        length-map (address p) (sorted p.text_le pubs),
        length-sorted p.text_le pubs,
        div-mul_le pool (length pubs),
      )

  holdings-drain_train :
      (led : TokenLedger)
      → holdings (record led { fee_train_pool = 0 }) + led.fee_train_pool ≡ holdings led
  unfolding holdings
  holdings-drain_train led = omega arith

  holdings-drain_data :
      (led : TokenLedger)
      → holdings (record led { fee_data_pool = 0 }) + led.fee_data_pool ≡ holdings led
  unfolding holdings
  holdings-drain_data led = omega arith

  reward_miners-le :
      (pool : ℕ) (pubs : List ℕ) (weights : Dict ℤ) (led : TokenLedger)
      → ((m : ℕ) → IsNonneg (get_or m (pos 0) weights))
      → holdings (reward_miners p pool pubs weights led) ≤ holdings led + pool
  unfolding reward_miners
  reward_miners-le pool [] weights led h = omega arith
  reward_miners-le pool (m ∷ pubs) weights led h = omega (
    arith,
    pay_miners-le (pool + led.fee_train_pool) (m ∷ pubs) weights (record led { fee_train_pool = 0 })
        h,
    holdings-drain_train led,
  )

  reward_proposer-le :
      (cut proposer : ℕ) (led : TokenLedger)
      → holdings (reward_proposer p cut proposer led) ≤ holdings led + cut
  unfolding reward_proposer
  reward_proposer-le cut proposer led =
      ground (arith, holdings-credit (address p proposer) (pos cut) led)

  paid-owner_claims :
      (owners d : Dict ℕ) (ks : List ℕ)
      → paid (owner_claims owners d ks) ≡ sum_keys (λ k. weight_at same k d) ks
  unfolding owner_claims
  paid-owner_claims owners d [] = refl
  paid-owner_claims owners d (k ∷ ks) =
      omega (arith, paid-owner_claims owners d ks, weight-same k d)

  backed_missing :
      (h : ℕ) (owners : Dict ℕ) (credits : Dict ℤ)
      → lookup h credits ≡ none
      → lookup h (backed_credits owners credits) ≡ none
  unfolding backed_credits
  backed_missing h owners [] e = refl
  backed_missing h owners ((j, negsuc w) ∷ credits) e =
      ground (arith, backed_missing h owners credits)
  backed_missing h owners ((j, pos w) ∷ credits) e = ground (arith, backed_missing h owners credits)

  backed_cases :
      (owners : Dict ℕ) (j : ℕ) (w : ℤ) (credits : Dict ℤ)
      → let rest = backed_credits owners credits in
        let after = backed_credits owners ((j, w) ∷ credits) in
        (after ≡ rest) ⊎ ((after ≡ (j, pos_part w) ∷ rest) × (0 < pos_part w))
  unfolding backed_credits
  backed_cases owners j (negsuc w) credits = inl refl
  backed_cases owners j (pos w) credits = ground arith

  backed-Distinct :
      (owners : Dict ℕ) (credits : Dict ℤ)
      → Distinct credits
      → Distinct (backed_credits owners credits)
  backed-Distinct owners [] h = unfold backed_credits in tt
  backed-Distinct owners ((j, w) ∷ credits) h = elim (backed_cases owners j w credits) [
    | inl dropped ↦ subst Distinct (sym dropped) (backed-Distinct owners credits h.1)
    | inr (kept, above) ↦
        subst Distinct (sym kept)
          (backed_missing j owners credits h.0, backed-Distinct owners credits h.1)
  ]

  backed_positive :
      (owners : Dict ℕ) (credits : Dict ℤ)
      → is_unpaid (backed_credits owners credits) ≡ false
      → 0 < sum_by same (backed_credits owners credits)
  backed_positive owners [] h = absurd (unfold backed_credits in cc h)
  backed_positive owners ((j, w) ∷ credits) h = elim (backed_cases owners j w credits) [
    | inl dropped ↦ ground (arith, backed_positive owners credits)
    | inr (kept, above) ↦ ground arith
  ]

  pay_owners-le :
      (pool : ℕ) (owners d : Dict ℕ) (led : TokenLedger)
      → Distinct d
      → 0 < sum_by same d
      → holdings (pay_owners p pool owners d led) ≤ holdings led + pool
  unfolding pay_owners
  pay_owners-le pool owners d led distinct above =
      let order = sorted p.text_le (keys d) in
      let claims = owner_claims owners d order in
      omega (
        arith,
        holdings-credit_all (split pool (sum_by same d) claims) led,
        split-le pool (sum_by same d) claims above (
            omega (
              arith,
              paid-owner_claims owners d order,
              sum_keys-sorted p.text_le (λ k. weight_at same k d) (keys d),
              sum_keys-keys same d distinct,
            )),
      )

  reward_data-le :
      (pool : ℕ) (credits : Dict ℤ) (addrs : List ℕ) (led : TokenLedger)
      → Distinct credits
      → holdings (reward_data p pool credits addrs led) ≤ holdings led + pool
  unfolding reward_data
  reward_data-le pool credits addrs led distinct =
      let owners = hash_to_owner (values led.registry) [] in
      let d = backed_credits owners credits in
      let each = pool / length addrs in
      let order = sorted p.text_le addrs in
      ground (
        arith,
        pay_owners-le (pool + led.fee_data_pool) owners d (record led { fee_data_pool = 0 })
            (backed-Distinct owners credits distinct),
        backed_positive owners credits,
        holdings-drain_data led,
        holdings-credit_all (equal_shares each order) led,
        paid-equal_shares each order,
        length-sorted p.text_le addrs,
        div-mul_le pool (length addrs),
      )

  -- The reward of a block, fee pools included, raises what the ledger holds by at most the
  -- emission, for any credits and for miner weights of zero or more.
  pub apply_reward-le :
      (height : ℕ) (pubs : List ℕ) (proposer : ℕ) (addrs : List ℕ) (credits weights : Dict ℤ)
      (led : TokenLedger)
      → Distinct credits
      → ((m : ℕ) → IsNonneg (get_or m (pos 0) weights))
      → holdings (apply_reward p height pubs proposer addrs credits weights led)
        ≤ holdings led + emission height
  unfolding apply_reward
  apply_reward-le height pubs proposer addrs credits weights led distinct nonneg =
      let total = emission height in
      let led1 = reward_miners p (total * share_miners / 10_000) pubs weights led in
      let led2 = reward_proposer p (total * share_proposer / 10_000) proposer led1 in
      ground (
        arith,
        reward_miners-le (total * share_miners / 10_000) pubs weights led nonneg,
        reward_proposer-le (total * share_proposer / 10_000) proposer led1,
        reward_data-le (total * share_data / 10_000) credits addrs led2 distinct,
      )
