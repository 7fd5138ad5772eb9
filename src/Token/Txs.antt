-- ===== src/Token/Txs.antt =====
-- Addresses, signing preimages, ids and signature checks of the transactions in rig/token.py.
use sestrian.Base.{ℕ, Bool, List, [], ◌∷◌, if◌then◌else◌}
use sestrian.Base.Int.{pos}
use sestrian.Platform.{Platform, ascii}
use sestrian.Crypto.{frame}
use sestrian.Token.Types.{
  TransferTx, DataSubmitTx, DataChallengeTx, DataVoteTx, InferenceReceiptTx, DataTx, AccountTx,
  submit, challenge, vote, receipt, transfer, data_tx,
}

module _ (p : Platform) where
  -- `address`
  unfoldable pub address : ℕ → ℕ
  address pub_hex = p.prefix 40 (p.sha256 (p.fromhex pub_hex))

  -- `TransferTx.signing_bytes`
  unfoldable pub transfer_bytes : TransferTx → List ℕ
  transfer_bytes tx = frame (
      ascii "transfer"
      ∷ p.encode tx.from_pub
      ∷ p.encode tx.to_addr
      ∷ p.decimal tx.amount
      ∷ p.decimal (pos tx.nonce)
      ∷ [])

  -- `DataSubmitTx.signing_bytes`
  unfoldable pub submit_bytes : DataSubmitTx → List ℕ
  submit_bytes tx = frame (
      ascii "data_submit"
      ∷ p.encode tx.owner_pub
      ∷ p.encode tx.data_hash
      ∷ p.decimal tx.size_bytes
      ∷ p.encode tx.media_type
      ∷ p.decimal tx.stake
      ∷ p.decimal (pos tx.nonce)
      ∷ tx.da_root
      ∷ [])

  -- `DataChallengeTx.signing_bytes`
  unfoldable pub challenge_bytes : DataChallengeTx → List ℕ
  challenge_bytes tx = frame (
      ascii "data_challenge"
      ∷ p.encode tx.challenger_pub
      ∷ p.encode tx.data_id
      ∷ p.decimal tx.stake
      ∷ p.encode tx.reason
      ∷ p.decimal (pos tx.nonce)
      ∷ [])

  -- `DataVoteTx.signing_bytes`
  unfoldable pub vote_bytes : DataVoteTx → List ℕ
  vote_bytes tx = frame (
      ascii "data_vote"
      ∷ p.encode tx.voter_pub
      ∷ p.encode tx.challenge_id
      ∷ p.decimal (if tx.support then pos 1 else pos 0)
      ∷ p.decimal (pos tx.nonce)
      ∷ [])

  -- `InferenceReceiptTx.signing_bytes`
  unfoldable pub receipt_bytes : InferenceReceiptTx → List ℕ
  receipt_bytes tx = frame (
      ascii "inference"
      ∷ p.encode tx.payer_pub
      ∷ p.encode tx.server_addr
      ∷ p.decimal tx.fee
      ∷ p.encode tx.output_hash
      ∷ p.encode tx.head_root
      ∷ p.decimal (pos tx.nonce)
      ∷ p.json_ints tx.answer_sketch
      ∷ [])

  unfoldable pub data_bytes : DataTx → List ℕ
  unfolding submit_bytes challenge_bytes vote_bytes receipt_bytes
  data_bytes (submit tx) = submit_bytes tx
  data_bytes (challenge tx) = challenge_bytes tx
  data_bytes (vote tx) = vote_bytes tx
  data_bytes (receipt tx) = receipt_bytes tx

  -- the key that signs, and that the sender's address derives from
  unfoldable pub signer : DataTx → ℕ
  signer (submit tx) = tx.owner_pub
  signer (challenge tx) = tx.challenger_pub
  signer (vote tx) = tx.voter_pub
  signer (receipt tx) = tx.payer_pub

  unfoldable pub nonce_of : DataTx → ℕ
  nonce_of (submit tx) = tx.nonce
  nonce_of (challenge tx) = tx.nonce
  nonce_of (vote tx) = tx.nonce
  nonce_of (receipt tx) = tx.nonce

  unfoldable pub signature_of : DataTx → ℕ
  signature_of (submit tx) = tx.sig
  signature_of (challenge tx) = tx.sig
  signature_of (vote tx) = tx.sig
  signature_of (receipt tx) = tx.sig

  unfoldable pub transfer_txid : TransferTx → ℕ
  transfer_txid tx = p.sha256 (transfer_bytes tx)

  unfoldable pub data_txid : DataTx → ℕ
  data_txid tx = p.sha256 (data_bytes tx)

  unfoldable pub verify_transfer : TransferTx → Bool
  verify_transfer tx = p.ed25519 tx.from_pub (transfer_bytes tx) tx.sig

  unfoldable pub verify_data : DataTx → Bool
  unfolding signer signature_of
  verify_data tx = p.ed25519 (signer tx) (data_bytes tx) (signature_of tx)

  -- `_tx_sender`
  unfoldable pub tx_sender : AccountTx → ℕ
  unfolding address signer
  tx_sender (transfer tx) = address tx.from_pub
  tx_sender (data_tx tx) = address (signer tx)
