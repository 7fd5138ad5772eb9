-- ===== src/Token/Account.antt =====
-- `balance`, `_credit` and `supply` of `TokenLedger`, and all that a ledger holds.
use sestrian.Base.{ℕ, ◌+◌, ◌≡◌, none, some, arith, List, [], ◌∷◌}
use sestrian.Base.Int.{ℤ, pos, negsuc, positive, pos_part}
use sestrian.Base.Dict.{Dict, get_or, put, sum_by, same, sum-put, weight-same}
use sestrian.Token.Types.{TokenLedger, Entry, Challenge, Bond}

-- `TokenLedger.balance`
unfoldable pub balance : ℕ → TokenLedger → ℕ
balance addr led = get_or addr 0 led.balances

-- the balances after `_credit`
unfoldable pub credited : ℕ → ℤ → Dict ℕ → Dict ℕ
credited addr amount d = elim (positive amount) [
  | none ↦ d
  | some a ↦ put addr (get_or addr 0 d + a) d
]

-- `TokenLedger._credit`
unfoldable pub credit : ℕ → ℤ → TokenLedger → TokenLedger
credit addr amount led = record led { balances = credited addr amount led.balances }

-- `TokenLedger.supply`
unfoldable pub supply : TokenLedger → ℕ
supply led = sum_by same led.balances + led.fee_data_pool + led.fee_train_pool

abbrev pub entry_stake : Entry → ℕ
entry_stake e = e.stake

abbrev pub challenge_stake : Challenge → ℕ
challenge_stake c = c.stake

abbrev pub bond_amount : Bond → ℕ
bond_amount b = b.amount

-- What `supply` leaves out: stakes behind data and challenges, and bonds behind deltas.
unfoldable pub escrow : TokenLedger → ℕ
escrow led =
    sum_by entry_stake led.registry
    + sum_by challenge_stake led.challenges
    + sum_by bond_amount led.bonds

-- Every grain that the ledger holds.
unfoldable pub holdings : TokenLedger → ℕ
unfolding supply escrow
holdings led = supply led + escrow led

pub holdings-credit :
    (addr : ℕ) (z : ℤ) (led : TokenLedger)
    → holdings (credit addr z led) ≡ holdings led + pos_part z
unfolding holdings credit credited
holdings-credit addr (pos n) led = ground (
  arith,
  sum-put same addr (get_or addr 0 led.balances + n) led.balances,
  weight-same addr led.balances,
)
holdings-credit addr (negsuc n) led = ground arith

-- `for addr, amount in payments: self._credit(addr, amount)`
unfoldable pub credit_all : List (ℕ × ℤ) → TokenLedger → TokenLedger
credit_all [] led = led
credit_all ((addr, amount) ∷ rest) led = credit_all rest (credit addr amount led)

abbrev pub paid : List (ℕ × ℤ) → ℕ
paid [] = 0
paid ((addr, amount) ∷ rest) = pos_part amount + paid rest

pub holdings-credit_all :
    (xs : List (ℕ × ℤ)) (led : TokenLedger) → holdings (credit_all xs led) ≡ holdings led + paid xs
unfolding credit_all
holdings-credit_all [] led = omega arith
holdings-credit_all ((addr, z) ∷ xs) led =
    omega (arith, holdings-credit_all xs (credit addr z led), holdings-credit addr z led)
