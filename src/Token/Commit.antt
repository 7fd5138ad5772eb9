-- ===== src/Token/Commit.antt =====
-- The roots of rig/token.py: hashes of the ledger's JSON and of transaction sets.
use sestrian.Base.{ℕ, List, [], ◌∷◌, map, Option, none, some}
use sestrian.Base.Int.{ℤ}
use sestrian.Base.Json.{
  Json, Fields, number, text, literal, array, object, end, field, natural, items, entries,
}
use sestrian.Base.Sort.{sorted}
use sestrian.Platform.{Platform, ascii}
use sestrian.Token.Types.{
  TokenLedger, Entry, Challenge, Bond, Status, active, revoked, TransferTx, DataTx,
}
use sestrian.Token.Txs.{transfer_txid, data_txid}

unfoldable pub status_text : Status → Json
status_text active = literal (ascii "active")
status_text revoked = literal (ascii "revoked")

-- `{"miner": …, "amount": …, "expiry": …}`
unfoldable pub bond_json : Bond → Json
bond_json b = object (
    field (ascii "amount") (natural b.amount)
      (field (ascii "expiry") (natural b.expiry) (field (ascii "miner") (text b.miner) end)))

unfoldable pub challenge_json : Challenge → Json
challenge_json c = object (
    field (ascii "challenger") (text c.challenger) (
      field (ascii "data_id") (text c.data_id) (
        field (ascii "expiry") (natural c.expiry) (
          field (ascii "reason") (text c.reason) (
            field (ascii "stake") (natural c.stake) (
              field (ascii "votes_against") (array (items text c.votes_against))
                (field (ascii "votes_for") (array (items text c.votes_for)) end)))))))

-- The key "da_root" is missing from the founding entry.
abbrev pub root_field : Option (List ℕ) → Fields → Fields
root_field none rest = rest
root_field (some r) rest = field (ascii "da_root") (literal r) rest

-- The key "sketch" is missing until a delta names the entry.
abbrev pub sketch_field : List ℤ → Fields → Fields
sketch_field [] rest = rest
sketch_field (x ∷ xs) rest = field (ascii "sketch") (array (items number (x ∷ xs))) rest

unfoldable pub entry_json : Entry → Json
unfolding status_text
entry_json e = object (
    root_field e.da_root (
      field (ascii "data_hash") (text e.data_hash) (
        field (ascii "media_type") (text e.media_type) (
          field (ascii "owner") (text e.owner) (
            field (ascii "size") (number e.size) (
              sketch_field e.sketch (
                field (ascii "stake") (natural e.stake) (
                  field (ascii "status") (status_text e.status)
                    (field (ascii "weight") (natural e.weight) end)))))))))

unfoldable pub ledger_json : TokenLedger → Json
unfolding bond_json challenge_json entry_json
ledger_json led = object (
    field (ascii "balances") (object (entries natural led.balances)) (
      field (ascii "bonds") (object (entries bond_json led.bonds)) (
        field (ascii "challenges") (object (entries challenge_json led.challenges)) (
          field (ascii "fee_data_pool") (natural led.fee_data_pool) (
            field (ascii "fee_train_pool") (natural led.fee_train_pool) (
              field (ascii "nonces") (object (entries natural led.nonces))
                (field (ascii "registry") (object (entries entry_json led.registry)) end)))))))

-- `TokenLedger.root`
unfoldable pub ledger_root : Platform → TokenLedger → ℕ
unfolding ledger_json
ledger_root p led = p.sha256 (p.dumps (ledger_json led))

-- `data_root`
unfoldable pub data_root : Platform → List DataTx → ℕ
data_root p txs = p.sha256 (p.join (sorted p.text_le (map (data_txid p) txs)))

-- `transfer_root`
unfoldable pub transfer_root : Platform → List TransferTx → ℕ
transfer_root p txs = p.sha256 (p.join (sorted p.text_le (map (transfer_txid p) txs)))
