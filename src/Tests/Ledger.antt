-- ===== src/Tests/Ledger.antt =====
-- rig/token.py and rig/crypto.py at concrete ledgers.
use sestrian.Base.{
  ℕ, ◌+◌, ◌≤◌, ◌<◌, ◌≡◌, ◌≢◌, ◌↔◌, refl, true, false, none, some, List, [], ◌∷◌, arith, All,
  if◌then◌else◌, ◌&&◌,
}
use sestrian.Base.Int.{ℤ, pos, negsuc, IsNonneg}
use sestrian.Base.Dict.{Dict, get_or, lookup}
use sestrian.Platform.{toy, ascii}
use sestrian.Crypto.{frame}
use sestrian.Crypto.Frame.{IsShort, frame_injective}
use sestrian.Token.Types.{
  TransferTx, DataTx, submit, receipt, transfer, data_tx, TokenLedger, Entry, Challenge, active,
}
use sestrian.Token.Txs.{
  address, transfer_bytes, verify_transfer, verify_data, data_bytes, signer, nonce_of,
}
use sestrian.Token.Emission.{emission}
use sestrian.Token.Account.{balance, holdings}
use sestrian.Token.Transfer.{apply_transfer}
use sestrian.Token.Transfer.Batch.{apply_transfers, apply_transfers-holdings}
use sestrian.Token.Transfer.Effects.{apply_transfer_accepts, apply_transfer_moves}
use sestrian.Token.Bonds.{lock_bond, resolve_expired_bonds}
use sestrian.Token.Bonds.Effects.{resolve_expired_bonds-returns, lock_bond-locks}
use sestrian.Token.Emission.{bond_window}
use sestrian.Token.Challenges.{
  resolve_expired_challenges, IsBacked, resolve_expired_challenges-holdings,
}
use sestrian.Token.DataLane.{apply_data_tx}
use sestrian.Token.Conservation.{apply_data_tx-le}
use sestrian.Token.Nonces.{
  next_nonce, apply_data_tx_nonce, transfer_no_replay, data_tx_no_replay, step_all,
}
use sestrian.Token.Reward.{apply_reward}
use sestrian.Token.Minting.{apply_reward-le}

-- The toy platform's address of key 5 is 7005.
abbrev entry : Entry
entry = record {
  owner = 7009;
  data_hash = 33;
  size = pos 4;
  media_type = 2;
  stake = 30;
  da_root = none;
  weight = 30;
  status = active;
  sketch = pos 2 ∷ negsuc 0 ∷ [];
}

abbrev open_challenge : Challenge
open_challenge = record {
  data_id = 80;
  challenger = 7004;
  stake = 12;
  reason = 3;
  expiry = 20;
  votes_for = 7001 ∷ 7002 ∷ 7003 ∷ [];
  votes_against = 7006 ∷ [];
}

abbrev ledger : TokenLedger
ledger = record {
  balances = (7005, 100) ∷ (7006, 50) ∷ [];
  nonces = [];
  registry = (80, entry) ∷ [];
  challenges = (90, open_challenge) ∷ [];
  bonds = (91, record { miner = 7005; amount = 7; expiry = 20 }) ∷ [];
  fee_data_pool = 6;
  fee_train_pool = 4;
}

abbrev payment : TransferTx
payment = record { from_pub = 5; to_addr = 7006; amount = pos 40; nonce = 0; sig = 5 }

accepted : (apply_transfer toy payment ledger).1 ≡ true
unfolding apply_transfer address verify_transfer transfer_bytes frame
accepted = refl

-- A negative amount is refused.
negative_run : apply_transfer toy (record payment { amount = negsuc 9 }) ledger ≡ (ledger, false)
unfolding apply_transfer address verify_transfer transfer_bytes frame
negative_run = refl

-- A stake behind a corpus, from the second account.
abbrev submission : DataTx
submission = submit (record {
  owner_pub = 6;
  data_hash = 44;
  size_bytes = pos 10;
  media_type = 2;
  stake = pos 20;
  nonce = 0;
  da_root = ascii "0123456789abcdef0123456789abcdef0123456789abcdef0123456789abcdef";
  sig = 6;
})

submission_accepted : (apply_data_tx toy submission 3 [] ledger).1 ≡ true
unfolding apply_data_tx sestrian.Token.DataLane.dispatch sestrian.Token.DataLane.apply_submit
    address verify_data signer nonce_of sestrian.Token.Txs.signature_of data_bytes frame
    sestrian.Token.DataLane.well_formed_root sestrian.Token.Txs.data_txid
submission_accepted = refl

-- A receipt whose sketch aligns with the registered corpus.
abbrev sold : DataTx
sold = receipt (record {
  payer_pub = 5;
  server_addr = 7008;
  fee = pos 10;
  output_hash = 1;
  head_root = 2;
  nonce = 0;
  answer_sketch = pos 3 ∷ pos 1 ∷ [];
  sig = 5;
})

abbrev fields : List (List ℕ)
fields = (1 ∷ 2 ∷ []) ∷ [] ∷ []

fields-IsShort : All IsShort fields
fields-IsShort = omega arith

frame_injective_example : fields ≡ fields
frame_injective_example = frame_injective fields fields fields-IsShort fields-IsShort refl

apply_transfer_accepts_example :
    (((apply_transfer toy payment ledger).1 ≡ true) ↔ (
      (verify_transfer toy payment ≡ true)
      × (0 < 40)
      × (0 ≡ get_or (address toy 5) 0 ledger.nonces)
      × (40 ≤ balance (address toy 5) ledger)))
    × ((apply_transfer toy payment ledger).1 ≡ false
        → (apply_transfer toy payment ledger).0 ≡ ledger)
apply_transfer_accepts_example = apply_transfer_accepts toy payment ledger

apply_transfer_moves_example :
    let src = address toy 5 in
    let led' = (apply_transfer toy payment ledger).0 in
    (src ≢ 7006
      → (balance src led' + 40 ≡ balance src ledger)
        × (balance 7006 led' ≡ balance 7006 ledger + 40))
    × (src ≡ 7006 → balance src led' ≡ balance src ledger)
    × ((a : ℕ) → a ≢ src → a ≢ 7006 → balance a led' ≡ balance a ledger)
    × (get_or src 0 led'.nonces ≡ get_or src 0 ledger.nonces + 1)
    × ((a : ℕ) → a ≢ src → get_or a 0 led'.nonces ≡ get_or a 0 ledger.nonces)
apply_transfer_moves_example = apply_transfer_moves toy payment ledger accepted

apply_transfers-holdings_example :
    holdings (apply_transfers toy (payment ∷ payment ∷ []) ledger).0 ≡ holdings ledger
apply_transfers-holdings_example = apply_transfers-holdings toy (payment ∷ payment ∷ []) ledger

transfer_no_replay_example :
    (apply_transfer toy payment
      (step_all toy ((data_tx submission, 3, []) ∷ []) (apply_transfer toy payment ledger).0)).1
    ≡ false
transfer_no_replay_example =
    transfer_no_replay toy payment ledger ((data_tx submission, 3, []) ∷ []) accepted

data_tx_no_replay_example :
    (apply_data_tx toy submission 4 [] (
      step_all toy ((transfer payment, 3, []) ∷ []) (apply_data_tx toy submission 3 [] ledger).0)).1
    ≡ false
data_tx_no_replay_example =
    data_tx_no_replay toy submission 3 4 [] [] ledger ((transfer payment, 3, []) ∷ [])
      submission_accepted

apply_data_tx_nonce_example :
    let src = address toy (signer toy submission) in
    let r = apply_data_tx toy submission 3 [] ledger in
    (r.1 ≡ true
      → (verify_data toy submission ≡ true)
        × (nonce_of toy submission ≡ next_nonce src ledger)
        × (next_nonce src r.0 ≡ next_nonce src ledger + 1))
    × (r.1 ≡ false → r.0 ≡ ledger)
    × ((a : ℕ) → next_nonce a ledger ≤ next_nonce a r.0)
apply_data_tx_nonce_example = apply_data_tx_nonce toy submission 3 [] ledger

apply_data_tx-le_example : holdings (apply_data_tx toy sold 3 [] ledger).0 ≤ holdings ledger
apply_data_tx-le_example = apply_data_tx-le toy sold 3 [] ledger

ledger-IsBacked : IsBacked ledger
ledger-IsBacked = (λ e. cc e, tt)

resolve_expired_challenges-holdings_example :
    (holdings (resolve_expired_challenges toy 25 ledger) ≡ holdings ledger)
    × IsBacked (resolve_expired_challenges toy 25 ledger)
resolve_expired_challenges-holdings_example =
    resolve_expired_challenges-holdings toy 25 ledger ledger-IsBacked

-- At height 25 the bond 91 of 7 grains is due.
resolve_expired_bonds-returns_example :
    let led' = resolve_expired_bonds toy 25 ledger in
    (lookup 91 led'.bonds ≡ none)
    × (get_or 7005 0 led'.balances ≡ 107)
    × (holdings led' ≡ holdings ledger)
resolve_expired_bonds-returns_example =
    resolve_expired_bonds-returns toy 25 7005 91 ledger (refl, tt)

-- A bond of 30 grains under a new id.
lock_bond-locks_example :
    let led' = (lock_bond 92 7005 (pos 30) 3 ledger).0 in
    let ok = (lock_bond 92 7005 (pos 30) 3 ledger).1 in
    (ok ≡ true)
    × (get_or 7005 0 led'.balances + (if ok && true then 30 else 0) ≡ 100)
    × (lookup 92 led'.bonds ≡ (
        if (ok && true) && true
        then some (record { miner = 7005; amount = 30; expiry = 3 + bond_window })
        else none))
    × (holdings led' + (if ok && true then 0 else 0) ≡ holdings ledger)
lock_bond-locks_example = lock_bond-locks 92 7005 (pos 30) 3 7005 92 ledger

abbrev scored : Dict ℤ
scored = (60, pos 3) ∷ []

scored-IsNonneg : (m : ℕ) → IsNonneg (get_or m (pos 0) scored)
scored-IsNonneg m = ground arith

apply_reward-le_example :
    holdings (apply_reward toy 1 (60 ∷ []) 50 [] ((33, pos 5) ∷ []) scored ledger)
    ≤ holdings ledger + emission 1
apply_reward-le_example =
    apply_reward-le toy 1 (60 ∷ []) 50 [] ((33, pos 5) ∷ []) scored ledger (refl, tt)
      scored-IsNonneg
