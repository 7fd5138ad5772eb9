-- ===== src/Token/Reward.antt =====
-- `seed_genesis_data` and `apply_reward` of rig/token.py.
use sestrian.Base.{
  ℕ, ◌+◌, ◌*◌, ◌/◌, Bool, true, false, not, ◌&&◌, ◌||◌, none, some, List, [], ◌∷◌, map,
  if◌then◌else◌, ◌==◌, length,
}
use sestrian.Base.Int.{ℤ, pos, positive, sum_ℤ}
use sestrian.Base.Dict.{Dict, get_or, put, has, values, keys, sum_by, same}
use sestrian.Base.Sort.{sorted}
use sestrian.Platform.{Platform}
use sestrian.Crypto.{unique}
use sestrian.Token.Types.{TokenLedger, Entry, active}
use sestrian.Token.Emission.{
  emission, share_miners, share_proposer, share_data, genesis_data_weight,
}
use sestrian.Token.Txs.{address}
use sestrian.Token.Account.{credit, credit_all}
use sestrian.Token.Shares.{split}
use sestrian.Token.Challenges.{put_entry}
use sestrian.Token.DataLane.{is_active}

abbrev pub is_nil : List ℕ → Bool
is_nil [] = true
is_nil (x ∷ xs) = false

-- `hash_to_owner`: of two active entries with one hash the later wins.
unfoldable pub hash_to_owner : List Entry → Dict ℕ → Dict ℕ
unfolding is_active
hash_to_owner [] owners = owners
hash_to_owner (e ∷ es) owners =
    hash_to_owner es (if is_active e then put e.data_hash e.owner owners else owners)

-- `paid`: the credits above zero of the hashes that an active entry backs.
unfoldable pub backed_credits : Dict ℕ → Dict ℤ → Dict ℕ
backed_credits owners [] = []
backed_credits owners ((h, w) ∷ credits) =
    let rest = backed_credits owners credits in
    elim (positive w) [ none ↦ rest | some n ↦ if has h owners then (h, n) ∷ rest else rest ]

abbrev pub is_unpaid : Dict ℕ → Bool
is_unpaid [] = true
is_unpaid (x ∷ xs) = false

-- `each` to every address.
unfoldable pub equal_shares : ℕ → List ℕ → List (ℕ × ℤ)
equal_shares each [] = []
equal_shares each (a ∷ addrs) = (a, pos each) ∷ equal_shares each addrs

-- The owners of the paid hashes with their weights.
unfoldable pub owner_claims : Dict ℕ → Dict ℕ → List ℕ → List (ℕ × ℤ)
owner_claims owners paid [] = []
owner_claims owners paid (h ∷ hs) =
    (get_or h 0 owners, pos (get_or h 0 paid)) ∷ owner_claims owners paid hs

module _ (p : Platform) where
  -- `TokenLedger.seed_genesis_data`
  unfoldable pub seed_genesis_data : ℕ → ℕ → TokenLedger → TokenLedger
  seed_genesis_data owner data_hash led =
      put_entry p.genesis
        (record {
          owner = owner;
          data_hash = data_hash;
          size = pos 0;
          media_type = p.text_media;
          stake = 0;
          da_root = none;
          weight = genesis_data_weight;
          status = active;
          sketch = [];
        })
        led

  -- The miners' addresses with their weights.
  unfoldable pub miner_claims : Dict ℤ → List ℕ → List (ℕ × ℤ)
  miner_claims weights [] = []
  miner_claims weights (m ∷ pubs) =
      (address p m, get_or m (pos 0) weights) ∷ miner_claims weights pubs

  -- `sum(weights.values())`, over the distinct miners
  unfoldable pub miner_total : Dict ℤ → List ℕ → ℤ
  miner_total weights pubs = sum_ℤ (map (λ m. get_or m (pos 0) weights) (unique pubs))

  -- The miners' part: by score where any is above zero, else in equal shares.
  unfoldable pub pay_miners : ℕ → List ℕ → Dict ℤ → TokenLedger → TokenLedger
  pay_miners pool pubs weights led = elim (positive (miner_total weights pubs)) [
    | some total ↦
        credit_all (split pool total (miner_claims weights (sorted p.text_le (unique pubs)))) led
    | none ↦
        credit_all (equal_shares (pool / length pubs) (map (address p) (sorted p.text_le pubs))) led
  ]

  unfoldable pub reward_miners : ℕ → List ℕ → Dict ℤ → TokenLedger → TokenLedger
  reward_miners pool [] weights led = led
  reward_miners pool (m ∷ pubs) weights led =
      pay_miners (pool + led.fee_train_pool) (m ∷ pubs) weights (record led { fee_train_pool = 0 })

  unfoldable pub reward_proposer : ℕ → ℕ → TokenLedger → TokenLedger
  reward_proposer cut proposer_pub led =
      if proposer_pub == p.blank || proposer_pub == p.genesis
      then led
      else credit (address p proposer_pub) (pos cut) led

  unfoldable pub pay_owners : ℕ → Dict ℕ → Dict ℕ → TokenLedger → TokenLedger
  pay_owners pool owners paid led =
      credit_all
        (split pool (sum_by same paid) (owner_claims owners paid (sorted p.text_le (keys paid))))
        led

  -- The data part: to the owners of what the block's deltas named, else to the legacy addresses.
  unfoldable pub reward_data : ℕ → Dict ℤ → List ℕ → TokenLedger → TokenLedger
  reward_data pool credits data_addrs led =
      let owners = hash_to_owner (values led.registry) [] in
      let paid = backed_credits owners credits in
      if not (is_unpaid paid)
      then pay_owners (pool + led.fee_data_pool) owners paid (record led { fee_data_pool = 0 })
      else if is_nil data_addrs
      then led
      else credit_all (equal_shares (pool / length data_addrs) (sorted p.text_le data_addrs)) led

  -- `TokenLedger.apply_reward`
  unfoldable pub apply_reward :
      ℕ → List ℕ → ℕ → List ℕ → Dict ℤ → Dict ℤ → TokenLedger → TokenLedger
  apply_reward height miner_pubs proposer_pub data_addrs data_credits miner_weights led =
      let total = emission height in
      if total == 0 && (led.fee_train_pool == 0 && led.fee_data_pool == 0)
      then led
      else reward_data (total * share_data / 10_000) data_credits data_addrs (
          reward_proposer (total * share_proposer / 10_000) proposer_pub
            (reward_miners (total * share_miners / 10_000) miner_pubs miner_weights led))
