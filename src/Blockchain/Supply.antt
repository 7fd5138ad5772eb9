-- ===== src/Blockchain/Supply.antt =====
-- The supply bound of `apply_ledger`: a block adds at most the emission of its height.
use sestrian.Base.{
  ℕ, ◌+◌, ◌≤◌, ◌≡◌, refl, ◌∙◌, Bool, true, false, Option, List, [], ◌∷◌, map, filter, any, contains,
  length, if◌then◌else◌, arith, inl, inr, Bool-cases, Option-cases,
}
use mathlib.Core.Path.{subst}
use native.Mathlib.Nat.{le_trans}
use sestrian.Base.Int.{ℤ, pos, IsNonneg, ◌+ℤ◌, ◌*ℤ◌, floor_div, sum_ℤ, +ℤ-IsNonneg}
use sestrian.Base.Dict.{
  Dict, lookup, get_or, put, values, Distinct, put-Distinct, AllValues, AllValues-put,
  weight-lookup,
}
use sestrian.Platform.{Platform}
use sestrian.Crypto.{BackpropTx, canonical_refs, txid}
use sestrian.Token.Types.{TokenLedger, Entry, AccountTx, transfer, data_tx}
use sestrian.Token.Emission.{emission}
use sestrian.Token.Txs.{address, verify_transfer}
use sestrian.Token.Account.{holdings, entry_stake}
use sestrian.Token.Transfer.{apply_transfer, apply_transfer-holdings}
use sestrian.Token.Bonds.{resolve_expired_bonds-holdings, lock_bond, lock_bond-le}
use sestrian.Token.Challenges.{
  resolve_expired_challenges, resolve_expired_challenges-le, put_entry, holdings-put_entry,
}
use sestrian.Token.DataLane.{apply_data_tx, is_nonzero}
use sestrian.Token.Conservation.{apply_data_tx-le}
use sestrian.Token.Minting.{apply_reward-le}
use sestrian.Blockchain.Types.{
  Block, Verdict, valid, raised, ◌>>=◌, ◌>>◌, require, Reason, bad_transfer_signature, bad_transfer,
  bad_data_tx, no_provenance,
}
use sestrian.Blockchain.Ledger.{
  committed_scores, all_ones, is_zero, effective_scores, credit_named, weigh, accrue, or_zeros,
  accrue_entries, named_entries, accrue_all, active_set, active_hashes, provenance, hash_to_entry,
  lock_bonds, canonical_account_txs, apply_account_tx, apply_account_txs, contributors, settle,
  reward_block, apply_ledger,
}

abbrev AtMost : ℕ → Verdict TokenLedger → Type 0
AtMost n (valid led) = holdings led ≤ n
AtMost n (raised e) = Unit

get_or-IsNonneg : (k : ℕ) (d : Dict ℤ) → AllValues IsNonneg d → IsNonneg (get_or k (pos 0) d)
get_or-IsNonneg k [] h = refl
get_or-IsNonneg k ((j, v) ∷ d) h = ground (arith, get_or-IsNonneg k d h.1)

all_ones-IsNonneg : (p : Platform) (d : Dict ℤ) → AllValues IsNonneg (all_ones p d)
all_ones-IsNonneg p [] = tt
all_ones-IsNonneg p ((k, v) ∷ d) = (refl, all_ones-IsNonneg p d)

credit_named-Distinct :
    (p : Platform) (s : ℤ) (n : ℕ) (refs : List ℕ) (credits : Dict ℤ)
    → Distinct credits
    → Distinct (credit_named p s n refs credits)
unfolding credit_named
credit_named-Distinct p s n [] credits h = h
credit_named-Distinct p s n (r ∷ refs) credits h =
    credit_named-Distinct p s n refs
      (put r (get_or r (pos 0) credits +ℤ floor_div (pos 10_000 *ℤ s) n) credits)
      (put-Distinct r (get_or r (pos 0) credits +ℤ floor_div (pos 10_000 *ℤ s) n) credits h)

require-AtMost :
    (b : Bool) (e : Reason) (n : ℕ) (r : Verdict TokenLedger)
    → AtMost n r
    → AtMost n (require b e >> r)
require-AtMost true e n r h = h
require-AtMost false e n r h = tt

AtMost-holdings :
    (n : ℕ) (r : Verdict TokenLedger) {led : TokenLedger}
    → AtMost n r
    → r ≡ valid led
    → holdings led ≤ n
AtMost-holdings n r {led} h e = subst (AtMost n) e h

module _ (p : Platform) where
  committed_scores-IsNonneg :
      (txs : List BackpropTx) (scores eff : Dict ℤ)
      → AllValues IsNonneg scores
      → AllValues IsNonneg eff
      → AllValues IsNonneg (committed_scores p txs scores eff)
  unfolding committed_scores
  committed_scores-IsNonneg [] scores eff hs he = he
  committed_scores-IsNonneg (tx ∷ txs) scores eff hs he =
      let v = get_or (txid p tx) (pos 0) scores in
      committed_scores-IsNonneg txs scores (put (txid p tx) v eff) hs
        (AllValues-put IsNonneg (txid p tx) v eff he (get_or-IsNonneg (txid p tx) scores hs))

  effective_scores-IsNonneg :
      (txs : List BackpropTx) (scores : Dict ℤ)
      → AllValues IsNonneg scores
      → AllValues IsNonneg (effective_scores p txs scores)
  unfolding effective_scores
  effective_scores-IsNonneg txs scores h =
      let eff = committed_scores p txs scores [] in
      pick (is_zero p (sum_ℤ (values eff))) eff (committed_scores-IsNonneg txs scores [] h tt)
    where
      pick :
          (b : Bool) (eff : Dict ℤ)
          → AllValues IsNonneg eff
          → AllValues IsNonneg (if b then all_ones p eff else eff)
      pick true eff h = all_ones-IsNonneg p eff
      pick false eff h = h

  -- Weights built from scores of zero or more are zero or more, and no hash is listed twice.
  weigh_valid :
      (txs : List BackpropTx) (eff : Dict ℤ) (backed : List ℕ) (miners credits : Dict ℤ)
      → AllValues IsNonneg eff
      → AllValues IsNonneg miners
      → Distinct credits
      → let out = weigh p txs eff backed (miners, credits) in
        AllValues IsNonneg out.0 × Distinct out.1
  unfolding weigh
  weigh_valid [] eff backed miners credits he hm hc = (hm, hc)
  weigh_valid (tx ∷ txs) eff backed miners credits he hm hc =
      let s = get_or (txid p tx) (pos 0) eff in
      let old = get_or tx.miner (pos 0) miners in
      let named = filter (λ r. contains r backed) (canonical_refs p tx) in
      weigh_valid txs eff backed (put tx.miner (old +ℤ s) miners)
        (credit_named p s (length named) named credits) he
        (AllValues-put IsNonneg tx.miner (old +ℤ s) miners hm (
          +ℤ-IsNonneg old s (get_or-IsNonneg tx.miner miners hm)
            (get_or-IsNonneg (txid p tx) eff he)))
        (credit_named-Distinct p s (length named) named credits hc)

  holdings-accrue_entries :
      (n : ℕ) (sk : List ℤ) (ids : List ℕ) (led : TokenLedger)
      → holdings (accrue_entries p n sk ids led) ≡ holdings led
  unfolding accrue_entries
  holdings-accrue_entries n sk [] led = refl
  holdings-accrue_entries n sk (id ∷ ids) led = elim (Option-cases (lookup id led.registry)) [
    | inl missing ↦ rw missing (holdings-accrue_entries n sk ids led)
    | inr (e, found) ↦
        let e' : Entry = record e { sketch = accrue p n (or_zeros p e.sketch) sk } in
        rw found (
          holdings-accrue_entries n sk ids (put_entry id e' led)
          ∙ omega (
            arith,
            holdings-put_entry id e' led,
            weight-lookup entry_stake id e led.registry found,
          ))
  ]

  holdings-accrue_all :
      (txs : List BackpropTx) (sketches : Dict (List ℤ)) (found : Dict ℕ) (led : TokenLedger)
      → holdings (accrue_all p txs sketches found led) ≡ holdings led
  unfolding accrue_all
  holdings-accrue_all [] sketches found led = refl
  holdings-accrue_all (tx ∷ txs) sketches found led =
      let sk = get_or (txid p tx) [] sketches in
      let ids = named_entries p found (canonical_refs p tx) in
      elim (Bool-cases (any is_nonzero sk)) [
        | inl sketched ↦ rw sketched (
            holdings-accrue_all txs sketches found (accrue_entries p (length ids) sk ids led)
            ∙ holdings-accrue_entries (length ids) sk ids led)
        | inr blank ↦ rw blank (holdings-accrue_all txs sketches found led)
      ]

  reward_block-le :
      (block : Block) (contributor : Option ℕ) (led : TokenLedger)
      → AllValues IsNonneg block.scores
      → holdings (reward_block p block contributor led)
        ≤ holdings led + emission block.header.height
  unfolding reward_block
  reward_block-le block contributor led h =
      let eff = effective_scores p block.txs block.scores in
      let backed = active_set (values led.registry) in
      let weights = weigh p block.txs eff backed ([], []) in
      let found = hash_to_entry led.registry [] in
      let valid =
        weigh_valid block.txs eff backed [] [] (effective_scores-IsNonneg block.txs block.scores h)
          tt tt in
      omega (
        arith,
        holdings-accrue_all block.txs block.sketches found led,
        apply_reward-le p block.header.height (map (λ (tx : BackpropTx). tx.miner) block.txs)
            block.header.proposer (contributors p contributor) weights.1 weights.0
            (accrue_all p block.txs block.sketches found led) valid.1
            (λ m. get_or-IsNonneg m weights.0 valid.0),
      )

  lock_bonds-AtMost :
      (txs : List BackpropTx) (height n : ℕ) (led : TokenLedger)
      → holdings led ≤ n
      → AtMost n (lock_bonds p txs height led)
  unfolding lock_bonds
  lock_bonds-AtMost [] height n led h = h
  lock_bonds-AtMost (tx ∷ txs) height n led h =
      let r = lock_bond (txid p tx) (address p tx.miner) tx.bond height led in
      let kept = lock_bond-le (txid p tx) (address p tx.miner) tx.bond height led in
      elim (Bool-cases (r.1)) [
        | inl paid ↦ rw paid (lock_bonds-AtMost txs height n (r.0) (le_trans kept h))
        | inr short ↦ rw short tt
      ]

  apply_account_tx-AtMost :
      (tx : AccountTx) (height : ℕ) (jurors : List ℕ) (n : ℕ) (led : TokenLedger)
      → holdings led ≤ n
      → AtMost n (apply_account_tx p tx height jurors led)
  unfolding apply_account_tx
  apply_account_tx-AtMost (transfer tx) height jurors n led h =
      let r = apply_transfer p tx led in
      require-AtMost (verify_transfer p tx) bad_transfer_signature n
        (require r.1 bad_transfer >> valid r.0)
        (require-AtMost r.1 bad_transfer n (valid r.0)
          (omega (arith, apply_transfer-holdings p tx led)))
  apply_account_tx-AtMost (data_tx tx) height jurors n led h =
      let r = apply_data_tx p tx height jurors led in
      require-AtMost r.1 bad_data_tx n (valid r.0)
        (le_trans (apply_data_tx-le p tx height jurors led) h)

  >>=-AtMost :
      (r : Verdict TokenLedger) (f : TokenLedger → Verdict TokenLedger) (m n : ℕ)
      → AtMost m r
      → ((led : TokenLedger) → holdings led ≤ m → AtMost n (f led))
      → AtMost n (r >>= f)
  >>=-AtMost (valid led) f m n h k = k led h
  >>=-AtMost (raised e) f m n h k = tt

  apply_account_txs-AtMost :
      (txs : List AccountTx) (height : ℕ) (jurors : List ℕ) (n : ℕ) (led : TokenLedger)
      → holdings led ≤ n
      → AtMost n (apply_account_txs p txs height jurors led)
  unfolding apply_account_txs
  apply_account_txs-AtMost [] height jurors n led h = h
  apply_account_txs-AtMost (tx ∷ txs) height jurors n led h =
      >>=-AtMost (apply_account_tx p tx height jurors led) (apply_account_txs p txs height jurors) n
        n (apply_account_tx-AtMost tx height jurors n led h)
        (λ led' h'. apply_account_txs-AtMost txs height jurors n led' h')

  settle-le : (height : ℕ) (led : TokenLedger) → holdings (settle p height led) ≤ holdings led
  unfolding settle
  settle-le height led = omega (
    arith,
    resolve_expired_bonds-holdings p height (resolve_expired_challenges p height led),
    resolve_expired_challenges-le p height led,
  )

  apply_ledger-AtMost :
      (parent : TokenLedger) (block : Block) (contributor : Option ℕ) (jurors : List ℕ)
      → AllValues IsNonneg block.scores
      → AtMost
          (holdings parent + emission block.header.height)
          (apply_ledger p parent block contributor jurors)
  unfolding apply_ledger
  apply_ledger-AtMost parent block contributor jurors h =
      let height = block.header.height in
      let led = settle p height parent in
      let n = holdings parent + emission height in
      let rewarded = reward_block p block contributor led in
      let txs = canonical_account_txs p block.data_txs block.transfers in
      require-AtMost (provenance p block.txs (active_hashes (values led.registry))) no_provenance n
        (lock_bonds p block.txs height rewarded >>= λ led'.
          apply_account_txs p txs height jurors led')
        (>>=-AtMost (lock_bonds p block.txs height rewarded) (apply_account_txs p txs height jurors)
          n n
          (lock_bonds-AtMost block.txs height n rewarded
            (omega (arith, settle-le height parent, reward_block-le block contributor led h)))
          (λ led' h'. apply_account_txs-AtMost txs height jurors n led' h'))

  -- A block whose scores are all zero or more adds at most the emission of its height to what the
  -- ledger holds in balances, pools, stakes and bonds together.
  pub apply_ledger-le :
      (parent : TokenLedger) (block : Block) (contributor : Option ℕ) (jurors : List ℕ)
      {led : TokenLedger}
      → AllValues IsNonneg block.scores
      → apply_ledger p parent block contributor jurors ≡ valid led
      → holdings led ≤ holdings parent + emission block.header.height
  apply_ledger-le parent block contributor jurors h e =
      AtMost-holdings (holdings parent + emission block.header.height)
        (apply_ledger p parent block contributor jurors)
        (apply_ledger-AtMost parent block contributor jurors h) e
