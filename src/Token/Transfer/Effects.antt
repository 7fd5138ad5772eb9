-- ===== src/Token/Transfer/Effects.antt =====
-- When `apply_transfer` of rig/token.py accepts, and what it then changes.
use sestrian.Base.{
  ℕ, ◌+◌, ◌-◌, ◌≤◌, ◌<◌, ◌≡◌, ◌≢◌, ◌↔◌, Bool, true, false, arith, if◌then◌else◌, ◌==◌,
}
use sestrian.Base.Int.{pos_part}
use sestrian.Base.Dict.{get_or, put, get_or-put}
use sestrian.Platform.{Platform}
use sestrian.Token.Types.{TransferTx, TokenLedger}
use sestrian.Token.Txs.{address, verify_transfer}
use sestrian.Token.Account.{balance, credit, credited}
use sestrian.Token.Transfer.{debit, bump, apply_transfer}

module _ (p : Platform) (tx : TransferTx) (led : TokenLedger) where
  abbrev sender : ℕ
  sender = address p tx.from_pub

  abbrev result : TokenLedger × Bool
  result = apply_transfer p tx led

  -- A transfer is accepted exactly when its signature verifies, its amount is positive, its nonce
  -- is the sender's next one and the sender's balance covers it; else the ledger is as it was.
  pub apply_transfer_accepts :
      (((apply_transfer p tx led).1 ≡ true) ↔ (
        (verify_transfer p tx ≡ true)
        × (0 < pos_part tx.amount)
        × (tx.nonce ≡ get_or (address p tx.from_pub) 0 led.nonces)
        × (pos_part tx.amount ≤ balance (address p tx.from_pub) led)))
      × ((apply_transfer p tx led).1 ≡ false → (apply_transfer p tx led).0 ≡ led)
  unfolding apply_transfer balance
  apply_transfer_accepts = ((λ h. ground arith, λ h. ground arith), λ h. ground arith)

  amount : ℕ
  amount = pos_part tx.amount

  -- The ledger that an accepted transfer leaves.
  accepted_form :
      result.1 ≡ true
      → (result.0 ≡ bump sender tx.nonce (credit tx.to_addr tx.amount (debit sender amount led)))
        × (0 < amount)
        × (amount ≤ balance sender led)
        × (tx.nonce ≡ get_or sender 0 led.nonces)
  unfolding apply_transfer balance amount
  accepted_form h = (ground arith, ground arith, ground arith, ground arith)

  moved : TokenLedger
  moved = bump sender tx.nonce (credit tx.to_addr tx.amount (debit sender amount led))

  balance-moved :
      (a : ℕ)
      → 0 < amount
      → balance a moved ≡ (
          if a == tx.to_addr
          then (if tx.to_addr == sender
              then balance sender led - amount
              else balance tx.to_addr led)
            + amount
          else if a == sender
          then balance sender led - amount
          else balance a led)
  unfolding moved balance credit credited debit bump amount
  balance-moved a h =
      let d = put sender (get_or sender 0 led.balances - pos_part tx.amount) led.balances in
      let v = get_or tx.to_addr 0 d + pos_part tx.amount in
      ground (
        arith,
        get_or-put a tx.to_addr 0 v d,
        get_or-put a sender 0 (get_or sender 0 led.balances - pos_part tx.amount) led.balances,
        get_or-put tx.to_addr sender 0 (get_or sender 0 led.balances - pos_part tx.amount)
            led.balances,
      )

  nonce-moved :
      (a : ℕ)
      → get_or a 0 moved.nonces ≡ (if a == sender then tx.nonce + 1 else get_or a 0 led.nonces)
  unfolding moved credit debit bump
  nonce-moved a = get_or-put a sender 0 (tx.nonce + 1) led.nonces

  -- An accepted transfer to another account takes its amount from the sender and gives it to the
  -- recipient, one to the sender itself changes no balance, no third balance changes, and of all
  -- nonces only the sender's moves, by one.
  pub apply_transfer_moves :
      (apply_transfer p tx led).1 ≡ true
      → let src = address p tx.from_pub in
        let led' = (apply_transfer p tx led).0 in
        (src ≢ tx.to_addr
          → (balance src led' + pos_part tx.amount ≡ balance src led)
            × (balance tx.to_addr led' ≡ balance tx.to_addr led + pos_part tx.amount))
        × (src ≡ tx.to_addr → balance src led' ≡ balance src led)
        × ((a : ℕ) → a ≢ src → a ≢ tx.to_addr → balance a led' ≡ balance a led)
        × (get_or src 0 led'.nonces ≡ get_or src 0 led.nonces + 1)
        × ((a : ℕ) → a ≢ src → get_or a 0 led'.nonces ≡ get_or a 0 led.nonces)
  apply_transfer_moves h =
      let f = accepted_form h in
      let e : result.0 ≡ moved = unfold moved in f.0 in
      rw e (
        unfold amount in
        (
          λ other. (
            ground (arith, f.2, balance-moved sender f.1),
            ground (arith, f.2, balance-moved tx.to_addr f.1),
          ),
          λ self. ground (arith, f.2, balance-moved sender f.1),
          λ a n m. ground (arith, balance-moved a f.1),
          ground (arith, f.3, nonce-moved sender),
          λ a n. ground (arith, nonce-moved a),
        ))
