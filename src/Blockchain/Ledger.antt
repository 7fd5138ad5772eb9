-- ===== src/Blockchain/Ledger.antt =====
-- `effective_scores` and `apply_ledger` of rig/blockchain.py: the token-state transition.
use sestrian.Base.{
  ℕ, ◌-◌, ◌^◌, Bool, true, false, ◌&&◌, Option, none, some, List, [], ◌∷◌, ◌++◌, map, filter, any,
  contains, length, replicate, if◌then◌else◌, ltb, ◌==◌,
}
use sestrian.Base.Int.{ℤ, pos, negsuc, ◌+ℤ◌, ◌*ℤ◌, floor_div, sum_ℤ, leb_ℤ}
use sestrian.Base.Dict.{Dict, lookup, get_or, put, values}
use sestrian.Base.Sort.{sorted}
use sestrian.Platform.{Platform}
use sestrian.Crypto.{BackpropTx, canonical_refs, txid}
use sestrian.Token.Types.{TokenLedger, Entry, TransferTx, DataTx, AccountTx, transfer, data_tx}
use sestrian.Token.Txs.{address, transfer_txid, data_txid, tx_sender, nonce_of, verify_transfer}
use sestrian.Token.Transfer.{apply_transfer}
use sestrian.Token.Bonds.{resolve_expired_bonds, lock_bond}
use sestrian.Token.Challenges.{resolve_expired_challenges, put_entry}
use sestrian.Token.DataLane.{apply_data_tx, is_active, is_nonzero}
use sestrian.Token.Reward.{apply_reward}
use sestrian.Blockchain.Types.{
  Block, Verdict, valid, raised, ◌>>=◌, ◌>>◌, require, no_provenance, bond_unaffordable,
  bad_transfer_signature, bad_transfer, bad_data_tx,
}

abbrev pub sketch_dim : ℕ
sketch_dim = 256

abbrev i64_max : ℤ
i64_max = pos (2 ^ 63 - 1)

abbrev i64_min : ℤ
i64_min = negsuc (2 ^ 63 - 1)

-- `_sat64`
unfoldable pub sat64 : ℤ → ℤ
sat64 x =
    let low = if leb_ℤ i64_max x then i64_max else x in if leb_ℤ low i64_min then i64_min else low

-- The data hashes of the active entries.
unfoldable pub active_hashes : List Entry → List ℕ
unfolding is_active
active_hashes [] = []
active_hashes (e ∷ es) =
    let rest = active_hashes es in if is_active e then e.data_hash ∷ rest else rest

-- `active_set`: those whose entry has a weight too.
unfoldable pub active_set : List Entry → List ℕ
unfolding is_active
active_set [] = []
active_set (e ∷ es) =
    let rest = active_set es in if is_active e && ltb 0 e.weight then e.data_hash ∷ rest else rest

-- `hash_to_entry`, by the entries' ids: the entry is an object that the registry shares.
unfoldable pub hash_to_entry : Dict Entry → Dict ℕ → Dict ℕ
unfolding is_active
hash_to_entry [] found = found
hash_to_entry ((id, e) ∷ es) found =
    hash_to_entry es (if is_active e then put e.data_hash id found else found)

module _ (p : Platform) where
  -- The committed score of each transaction, 0 where none is.
  unfoldable pub committed_scores : List BackpropTx → Dict ℤ → Dict ℤ → Dict ℤ
  committed_scores [] scores eff = eff
  committed_scores (tx ∷ txs) scores eff =
      committed_scores txs scores (put (txid p tx) (get_or (txid p tx) (pos 0) scores) eff)

  abbrev pub all_ones : Dict ℤ → Dict ℤ
  all_ones [] = []
  all_ones ((k, v) ∷ d) = (k, pos 1) ∷ all_ones d

  abbrev pub is_zero : ℤ → Bool
  is_zero (pos n) = n == 0
  is_zero (negsuc n) = false

  -- `effective_scores`; of an empty dict the fallback is empty too.
  unfoldable pub effective_scores : List BackpropTx → Dict ℤ → Dict ℤ
  unfolding committed_scores
  effective_scores txs scores =
      let eff = committed_scores txs scores [] in
      if is_zero (sum_ℤ (values eff)) then all_ones eff else eff

  -- `data_credits[r] += s * 10_000 // len(named)` for every named corpus.
  unfoldable pub credit_named : ℤ → ℕ → List ℕ → Dict ℤ → Dict ℤ
  credit_named s n [] credits = credits
  credit_named s n (r ∷ refs) credits =
      credit_named s n refs
        (put r (get_or r (pos 0) credits +ℤ floor_div (pos 10_000 *ℤ s) n) credits)

  -- Both weights of a block's deltas: by miner and by data hash.
  unfoldable pub weigh : List BackpropTx → Dict ℤ → List ℕ → Dict ℤ × Dict ℤ → Dict ℤ × Dict ℤ
  unfolding credit_named
  weigh [] eff backed acc = acc
  weigh (tx ∷ txs) eff backed (miners, credits) =
      let s = get_or (txid p tx) (pos 0) eff in
      let named = filter (λ r. contains r backed) (canonical_refs p tx) in
      weigh txs eff backed (
        put tx.miner (get_or tx.miner (pos 0) miners +ℤ s) miners,
        credit_named s (length named) named credits,
      )

  -- `[_sat64(a + x * 10_000 // n) for a, x in zip(acc, sk)]`
  unfoldable pub accrue : ℕ → List ℤ → List ℤ → List ℤ
  unfolding sat64
  accrue n [] sk = []
  accrue n (a ∷ acc) [] = []
  accrue n (a ∷ acc) (x ∷ sk) = sat64 (a +ℤ floor_div (pos 10_000 *ℤ x) n) ∷ accrue n acc sk

  abbrev pub or_zeros : List ℤ → List ℤ
  or_zeros [] = replicate sketch_dim (pos 0)
  or_zeros (x ∷ xs) = x ∷ xs

  -- `e["sketch"] = …` for each entry that the delta named.
  unfoldable pub accrue_entries : ℕ → List ℤ → List ℕ → TokenLedger → TokenLedger
  unfolding accrue
  accrue_entries n sk [] led = led
  accrue_entries n sk (id ∷ ids) led = accrue_entries n sk ids (elim (lookup id led.registry) [
    | none ↦ led
    | some e ↦ put_entry id (record e { sketch = accrue n (or_zeros e.sketch) sk }) led
  ])

  -- `[hash_to_entry[r] for r in refs if r in hash_to_entry]`
  unfoldable pub named_entries : Dict ℕ → List ℕ → List ℕ
  named_entries found [] = []
  named_entries found (r ∷ refs) =
      let rest = named_entries found refs in
      elim (lookup r found) [ none ↦ rest | some id ↦ id ∷ rest ]

  unfoldable pub accrue_all : List BackpropTx → Dict (List ℤ) → Dict ℕ → TokenLedger → TokenLedger
  accrue_all [] sketches found led = led
  accrue_all (tx ∷ txs) sketches found led =
      let sk = get_or (txid p tx) [] sketches in
      let ids = named_entries found (canonical_refs p tx) in
      accrue_all txs sketches found
        (if any is_nonzero sk then accrue_entries (length ids) sk ids led else led)

  -- Every delta names at least one active corpus.
  unfoldable pub provenance : List BackpropTx → List ℕ → Bool
  provenance [] active = true
  provenance (tx ∷ txs) active =
      any (λ r. contains r active) (canonical_refs p tx) && provenance txs active

  unfoldable pub lock_bonds : List BackpropTx → ℕ → TokenLedger → Verdict TokenLedger
  lock_bonds [] height led = valid led
  lock_bonds (tx ∷ txs) height led =
      let (led', paid) = lock_bond (txid p tx) (address p tx.miner) tx.bond height led in
      let rest = lock_bonds txs height led' in if paid then rest else raised bond_unaffordable

  -- The order of all account transactions: sender, nonce, id.
  unfoldable pub account_nonce : AccountTx → ℕ
  account_nonce (transfer tx) = tx.nonce
  account_nonce (data_tx tx) = nonce_of p tx

  unfoldable pub account_txid : AccountTx → ℕ
  account_txid (transfer tx) = transfer_txid p tx
  account_txid (data_tx tx) = data_txid p tx

  unfoldable pub account_le : AccountTx → AccountTx → Bool
  account_le a b =
      if tx_sender p a == tx_sender p b
      then (if account_nonce a == account_nonce b
          then p.text_le (account_txid a) (account_txid b)
          else ltb (account_nonce a) (account_nonce b))
      else p.text_le (tx_sender p a) (tx_sender p b)

  -- `canonical_account_txs`
  unfoldable pub canonical_account_txs : List DataTx → List TransferTx → List AccountTx
  canonical_account_txs data_txs transfers =
      sorted account_le (map data_tx data_txs ++ map transfer transfers)

  unfoldable pub apply_account_tx : AccountTx → ℕ → List ℕ → TokenLedger → Verdict TokenLedger
  apply_account_tx (transfer tx) height jurors led = do
    require (verify_transfer p tx) bad_transfer_signature
    let r = apply_transfer p tx led
    require r.1 bad_transfer
    valid r.0
  apply_account_tx (data_tx tx) height jurors led = do
    let r = apply_data_tx p tx height jurors led
    require r.1 bad_data_tx
    valid r.0

  unfoldable pub apply_account_txs : List AccountTx → ℕ → List ℕ → TokenLedger → Verdict TokenLedger
  apply_account_txs [] height jurors led = valid led
  apply_account_txs (tx ∷ txs) height jurors led =
      apply_account_tx tx height jurors led >>= λ led'. apply_account_txs txs height jurors led'

  abbrev pub contributors : Option ℕ → List ℕ
  contributors none = []
  contributors (some addr) = addr ∷ []

  -- the challenges and the bonds of the height are settled before anything else
  unfoldable pub settle : ℕ → TokenLedger → TokenLedger
  settle height led = resolve_expired_bonds p height (resolve_expired_challenges p height led)

  -- the sketches accrue, and the reward is paid by the weights
  unfoldable pub reward_block : Block → Option ℕ → TokenLedger → TokenLedger
  reward_block block contributor led =
      let eff = effective_scores block.txs block.scores in
      let weights = weigh block.txs eff (active_set (values led.registry)) ([], []) in
      apply_reward p block.header.height (map (λ (tx : BackpropTx). tx.miner) block.txs)
        block.header.proposer (contributors contributor) weights.1 weights.0
        (accrue_all block.txs block.sketches (hash_to_entry led.registry []) led)

  -- `apply_ledger`
  unfoldable pub apply_ledger : TokenLedger → Block → Option ℕ → List ℕ → Verdict TokenLedger
  apply_ledger parent block contributor jurors = do
    let h = block.header.height
    let led = settle h parent
    require (provenance block.txs (active_hashes (values led.registry))) no_provenance
    led' ← lock_bonds block.txs h (reward_block block contributor led)
    apply_account_txs (canonical_account_txs block.data_txs block.transfers) h jurors led'
