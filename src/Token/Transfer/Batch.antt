-- ===== src/Token/Transfer/Batch.antt =====
-- `canonical_transfers` and `apply_transfers` of rig/token.py: a block's transfers in their order.
use sestrian.Base.{
  ◌≡◌, refl, ◌∙◌, Bool, true, false, List, [], ◌∷◌, if◌then◌else◌, ltb, ◌==◌, Bool-cases, inl, inr,
}
use sestrian.Base.Sort.{sorted}
use sestrian.Platform.{Platform}
use sestrian.Token.Types.{TransferTx, TokenLedger}
use sestrian.Token.Txs.{address, transfer_txid}
use sestrian.Token.Account.{holdings}
use sestrian.Token.Transfer.{apply_transfer, apply_transfer-holdings}

module _ (p : Platform) where
  -- The order by sender, nonce and id.
  unfoldable pub transfer_le : TransferTx → TransferTx → Bool
  transfer_le a b =
      if address p a.from_pub == address p b.from_pub
      then (if a.nonce == b.nonce
          then p.text_le (transfer_txid p a) (transfer_txid p b)
          else ltb a.nonce b.nonce)
      else p.text_le (address p a.from_pub) (address p b.from_pub)

  -- `canonical_transfers`
  unfoldable pub canonical_transfers : List TransferTx → List TransferTx
  unfolding transfer_le
  canonical_transfers txs = sorted transfer_le txs

  -- One after another, up to the first that is refused.
  unfoldable pub apply_in_order : List TransferTx → TokenLedger → TokenLedger × Bool
  apply_in_order [] led = (led, true)
  apply_in_order (tx ∷ txs) led =
      let (led', applied) = apply_transfer p tx led in
      let rest = apply_in_order txs led' in if applied then rest else (led', false)

  -- `TokenLedger.apply_transfers`
  unfoldable pub apply_transfers : List TransferTx → TokenLedger → TokenLedger × Bool
  unfolding canonical_transfers apply_in_order
  apply_transfers txs led = apply_in_order (canonical_transfers txs) led

  apply_in_order-holdings :
      (txs : List TransferTx) (led : TokenLedger)
      → holdings (apply_in_order txs led).0 ≡ holdings led
  unfolding apply_in_order
  apply_in_order-holdings [] led = refl
  apply_in_order-holdings (tx ∷ txs) led = elim (Bool-cases (apply_transfer p tx led).1) [
    | inl applied ↦
        rw applied (apply_in_order-holdings txs (apply_transfer p tx led).0)
        ∙ apply_transfer-holdings p tx led
    | inr refused ↦ rw refused (apply_transfer-holdings p tx led)
  ]

  -- The transfers of a block, all applied or stopped at the first that is refused, leave the number
  -- of grains in the ledger as it was.
  pub apply_transfers-holdings :
      (txs : List TransferTx) (led : TokenLedger)
      → holdings (apply_transfers txs led).0 ≡ holdings led
  unfolding apply_transfers
  apply_transfers-holdings txs led = apply_in_order-holdings (canonical_transfers txs) led
