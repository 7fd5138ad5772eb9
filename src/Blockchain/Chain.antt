-- ===== src/Blockchain/Chain.antt =====
-- The ledgers along one chain of blocks, and the cap on all that they hold.
use native.Mathlib.Nat.{le_trans}
use sestrian.Base.{ℕ, suc, ◌+◌, ◌*◌, ◌≤◌, ◌≡◌, refl, Option, none, some, List, arith}
use sestrian.Base.Int.{IsNonneg}
use sestrian.Base.Dict.{AllValues}
use sestrian.Platform.{Platform}
use sestrian.Token.Types.{TokenLedger, empty}
use sestrian.Token.Emission.{grain, tail_reward}
use sestrian.Token.Emission.Schedule.{total_emission, total_emission-le}
use sestrian.Token.Account.{supply, holdings}
use sestrian.Token.Reward.{seed_genesis_data}
use sestrian.Token.Challenges.{put_entry}
use sestrian.Blockchain.Types.{Block, valid}
use sestrian.Blockchain.Ledger.{apply_ledger}
use sestrian.Blockchain.Supply.{apply_ledger-le}

-- The ledger of the genesis block: empty, but for the founding corpus where there is a contributor.
unfoldable pub genesis_ledger : Platform → Option ℕ → TokenLedger
genesis_ledger p none = empty
genesis_ledger p (some owner) = seed_genesis_data p owner p.genesis empty

-- The ledgers after n blocks, each of the next height and with scores of zero or more, as
-- validation demands, and each applied to the ledger of the one before.
pub data Ledgers (p : Platform) (contributor : Option ℕ) : ℕ → TokenLedger → Type 0 where
  start : Ledgers p contributor 0 (genesis_ledger p contributor)
  next :
      {n : ℕ} {led : TokenLedger} (block : Block) (jurors : List ℕ) (led' : TokenLedger)
      → Ledgers p contributor n led
      → block.header.height ≡ suc n
      → AllValues IsNonneg block.scores
      → apply_ledger p led block contributor jurors ≡ valid led'
      → Ledgers p contributor (suc n) led'

pub holdings-genesis :
    (p : Platform) (contributor : Option ℕ) → holdings (genesis_ledger p contributor) ≡ 0
unfolding genesis_ledger seed_genesis_data holdings put_entry
holdings-genesis p none = refl
holdings-genesis p (some owner) = refl

supply-le : (led : TokenLedger) → supply led ≤ holdings led
unfolding holdings supply
supply-le led = omega arith

Ledgers-holdings :
    (p : Platform) (contributor : Option ℕ) {n : ℕ} {led : TokenLedger}
    → Ledgers p contributor n led
    → holdings led ≤ total_emission n
unfolding total_emission
Ledgers-holdings p contributor start = omega (arith, holdings-genesis p contributor)
Ledgers-holdings p contributor (next {n = n} {led = led} block jurors led' r height scores e) =
    let ih = Ledgers-holdings p contributor r in
    let step = apply_ledger-le p led block contributor jurors scores e in
    grind (arith, ih, step, height)

-- The cap: after n blocks no chain holds more than 100 million tokens and n tail rewards, in
-- balances, fee pools, stakes and bonds together; so neither does the reported supply.
pub Ledgers-cap :
    (p : Platform) (contributor : Option ℕ) {n : ℕ} {led : TokenLedger}
    → Ledgers p contributor n led
    → (holdings led ≤ 100_000_000 * grain + n * tail_reward)
      × (supply led ≤ 100_000_000 * grain + n * tail_reward)
Ledgers-cap p contributor {n = n} {led = led} r =
    let h = Ledgers-holdings p contributor r in
    let cap = total_emission-le n in (le_trans h cap, le_trans (supply-le led) (le_trans h cap))
