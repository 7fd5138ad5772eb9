-- ===== src/Token/Transfer.antt =====
-- The transfer lane of rig/token.py.
pub mod Effects
pub mod Batch
use sestrian.Base.{
  ℕ, ◌+◌, ◌-◌, ◌≤◌, ◌≡◌, refl, Bool, true, false, not, none, some, if◌then◌else◌, ltb, ◌==◌, arith,
}
use sestrian.Base.Int.{positive, pos_part}
use sestrian.Base.Dict.{get_or, put, same, sum-put, weight-same}
use sestrian.Platform.{Platform}
use sestrian.Token.Types.{TransferTx, TokenLedger}
use sestrian.Token.Txs.{address, verify_transfer}
use sestrian.Token.Account.{credit, holdings, holdings-credit}

-- `self.balances[src] -= amount`, made only where the balance covers the amount.
unfoldable pub debit : ℕ → ℕ → TokenLedger → TokenLedger
debit src amount led = record led {
  balances = put src (get_or src 0 led.balances - amount) led.balances;
}

-- `self.nonces[src] = nonce + 1`
unfoldable pub bump : ℕ → ℕ → TokenLedger → TokenLedger
bump src nonce led = record led { nonces = put src (nonce + 1) led.nonces }

pub holdings-debit :
    (src a : ℕ) (led : TokenLedger)
    → a ≤ get_or src 0 led.balances
    → holdings (debit src a led) + a ≡ holdings led
unfolding holdings debit
holdings-debit src a led h = ground (
  arith,
  sum-put same src (get_or src 0 led.balances - a) led.balances,
  weight-same src led.balances,
)

pub holdings-bump : (src n : ℕ) (led : TokenLedger) → holdings (bump src n led) ≡ holdings led
unfolding holdings bump
holdings-bump src n led = refl

module _ (p : Platform) where
  -- `TokenLedger.apply_transfer`
  unfoldable pub apply_transfer : TransferTx → TokenLedger → TokenLedger × Bool
  apply_transfer tx led =
      let src = address p tx.from_pub in
      if not (verify_transfer p tx) then (led, false) else elim (positive tx.amount) [
        | none ↦ (led, false)
        | some a ↦
            if not (tx.nonce == get_or src 0 led.nonces)
            then (led, false)
            else if ltb (get_or src 0 led.balances) a
            then (led, false)
            else (bump src tx.nonce (credit tx.to_addr tx.amount (debit src a led)), true)
      ]

  -- A transfer, applied or refused, leaves the number of grains in the ledger as it was.
  pub apply_transfer-holdings :
      (tx : TransferTx) (led : TokenLedger) → holdings (apply_transfer tx led).0 ≡ holdings led
  unfolding apply_transfer
  apply_transfer-holdings tx led =
      let src = address p tx.from_pub in
      let a = pos_part tx.amount in
      ground (
        arith,
        holdings-debit src a led,
        holdings-credit tx.to_addr tx.amount (debit src a led),
        holdings-bump src tx.nonce (credit tx.to_addr tx.amount (debit src a led)),
      )
