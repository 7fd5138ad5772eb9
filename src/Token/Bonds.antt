-- ===== src/Token/Bonds.antt =====
-- Delta admission bonds of rig/token.py: locked from the miner's balance, returned at maturity.
pub mod Effects
use sestrian.Base.{
  ℕ, ◌+◌, ◌≤◌, ◌&&◌, ◌≡◌, refl, Bool, true, false, none, some, inl, inr, ◌∙◌, Option-cases, List,
  [], ◌∷◌, if◌then◌else◌, ltb, leb, arith,
}
use sestrian.Base.Int.{ℤ, pos, positive, pos_part}
use sestrian.Base.Dict.{
  lookup, get_or, put, remove, keys, sum-put, sum-remove, weight-lookup, weight_at,
}
use sestrian.Base.Sort.{sorted}
use sestrian.Platform.{Platform}
use sestrian.Token.Types.{TokenLedger, Bond}
use sestrian.Token.Emission.{bond_window}
use sestrian.Token.Account.{credit, holdings, holdings-credit, bond_amount}
use sestrian.Token.Transfer.{debit, holdings-debit}

-- `del self.bonds[tid]`
unfoldable pub drop_bond : ℕ → TokenLedger → TokenLedger
drop_bond tid led = record led { bonds = remove tid led.bonds }

-- `self.bonds[tid] = b`
unfoldable pub put_bond : ℕ → Bond → TokenLedger → TokenLedger
put_bond tid b led = record led { bonds = put tid b led.bonds }

-- One turn of the loop in `resolve_expired_bonds`. Its ids are keys of the dict, so the missing
-- case, where Python would raise, does not arise.
unfoldable pub settle_bond : ℕ → ℕ → TokenLedger → TokenLedger
settle_bond height tid led = elim (lookup tid led.bonds) [
  | none ↦ led
  | some b ↦ if leb b.expiry height then drop_bond tid (credit b.miner (pos b.amount) led) else led
]

unfoldable pub settle_bonds : ℕ → List ℕ → TokenLedger → TokenLedger
settle_bonds height [] led = led
settle_bonds height (tid ∷ tids) led = settle_bonds height tids (settle_bond height tid led)

-- `TokenLedger.resolve_expired_bonds`
unfoldable pub resolve_expired_bonds : Platform → ℕ → TokenLedger → TokenLedger
unfolding settle_bonds
resolve_expired_bonds p height led = settle_bonds height (sorted p.text_le (keys led.bonds)) led

-- `TokenLedger.lock_bond`
unfoldable pub lock_bond : ℕ → ℕ → ℤ → ℕ → TokenLedger → TokenLedger × Bool
lock_bond txid miner amount height led = elim (positive amount) [
  | none ↦ (led, true)
  | some a ↦ if ltb (get_or miner 0 led.balances) a then (led, false) else (
    put_bond txid (record { miner = miner; amount = a; expiry = height + bond_window })
        (debit miner a led),
    true,
  )
]

holdings-drop_bond :
    (tid : ℕ) (led : TokenLedger)
    → holdings (drop_bond tid led) + weight_at bond_amount tid led.bonds ≡ holdings led
unfolding drop_bond holdings
holdings-drop_bond tid led = omega (arith, sum-remove bond_amount tid led.bonds)

holdings-put_bond :
    (tid : ℕ) (b : Bond) (led : TokenLedger)
    → holdings (put_bond tid b led) + weight_at bond_amount tid led.bonds ≡ holdings led + b.amount
unfolding put_bond holdings
holdings-put_bond tid b led = omega (arith, sum-put bond_amount tid b led.bonds)

bonds-credit : (a : ℕ) (z : ℤ) (led : TokenLedger) → (credit a z led).bonds ≡ led.bonds
unfolding credit
bonds-credit a z led = refl

bonds-debit : (a n : ℕ) (led : TokenLedger) → (debit a n led).bonds ≡ led.bonds
unfolding debit
bonds-debit a n led = refl

settle_bond-holdings :
    (height tid : ℕ) (led : TokenLedger) → holdings (settle_bond height tid led) ≡ holdings led
unfolding settle_bond
settle_bond-holdings height tid led = elim (Option-cases (lookup tid led.bonds)) [
  | inl missing ↦ ground arith
  | inr (b, found) ↦ ground (
    arith,
    weight-lookup bond_amount tid b led.bonds found,
    holdings-drop_bond tid (credit b.miner (pos b.amount) led),
    bonds-credit b.miner (pos b.amount) led,
    holdings-credit b.miner (pos b.amount) led,
  )
]

settle_bonds-holdings :
    (height : ℕ) (tids : List ℕ) (led : TokenLedger)
    → holdings (settle_bonds height tids led) ≡ holdings led
unfolding settle_bonds
settle_bonds-holdings height [] led = refl
settle_bonds-holdings height (t ∷ ts) led =
    settle_bonds-holdings height ts (settle_bond height t led) ∙ settle_bond-holdings height t led

-- Returning matured bonds keeps the total that the ledger holds.
pub resolve_expired_bonds-holdings :
    (p : Platform) (height : ℕ) (led : TokenLedger)
    → holdings (resolve_expired_bonds p height led) ≡ holdings led
unfolding resolve_expired_bonds
resolve_expired_bonds-holdings p height led =
    settle_bonds-holdings height (sorted p.text_le (keys led.bonds)) led

-- Locking a bond keeps the total, less the amount of the bond that it overwrites.
pub lock_bond-total :
    (txid miner : ℕ) (amount : ℤ) (height : ℕ) (led : TokenLedger)
    → let r = lock_bond txid miner amount height led in
      holdings r.0
        + (if r.1 && ltb 0 (pos_part amount) then weight_at bond_amount txid led.bonds else 0)
      ≡ holdings led
unfolding lock_bond
lock_bond-total txid miner amount height led =
    let a = pos_part amount in
    let b : Bond = record { miner = miner; amount = a; expiry = height + bond_window } in
    ground (
      arith,
      holdings-put_bond txid b (debit miner a led),
      bonds-debit miner a led,
      holdings-debit miner a led,
    )

pub lock_bond-le :
    (txid miner : ℕ) (amount : ℤ) (height : ℕ) (led : TokenLedger)
    → holdings (lock_bond txid miner amount height led).0 ≤ holdings led
lock_bond-le txid miner amount height led =
    ground (arith, lock_bond-total txid miner amount height led)
