-- ===== src/Blockchain/Commit.antt =====
-- The hashes of rig/blockchain.py: of headers, transaction sets, scores and sketches.
use sestrian.Base.{ℕ, List, map}
use sestrian.Base.Int.{ℤ}
use sestrian.Base.Dict.{Dict}
use sestrian.Base.Json.{Json, number, text, array, object, end, field, natural, items, entries}
use sestrian.Base.Sort.{sorted}
use sestrian.Platform.{Platform, ascii}
use sestrian.Crypto.{BackpropTx, txid}
use sestrian.Blockchain.Types.{Header}

-- `Header.__dict__`
unfoldable pub header_json : Header → Json
header_json h = object (
    field (ascii "height") (natural h.height) (
      field (ascii "prev_hash") (text h.prev_hash) (
        field (ascii "state_root") (text h.state_root) (
          field (ascii "txset_root") (text h.txset_root) (
            field (ascii "n_txs") (natural h.n_txs) (
              field (ascii "work") (natural h.work) (
                field (ascii "proposer") (text h.proposer) (
                  field (ascii "transfer_root") (text h.transfer_root) (
                    field (ascii "ledger_root") (text h.ledger_root) (
                      field (ascii "data_root") (text h.data_root) (
                        field (ascii "vrf_proof") (text h.vrf_proof) (
                          field (ascii "score_root") (text h.score_root) (
                            field (ascii "sketch_root") (text h.sketch_root) (
                              field (ascii "model_root") (text h.model_root) (
                                field (ascii "vrf_attempt") (natural h.vrf_attempt)
                                  (field (ascii "version") (natural h.version) end))))))))))))))))

unfoldable pub sketch_json : List ℤ → Json
sketch_json xs = array (items number xs)

module _ (p : Platform) where
  -- `Header.block_hash`
  unfoldable pub block_hash : Header → ℕ
  unfolding header_json
  block_hash h = p.sha256 (p.dumps_spaced (header_json h))

  -- `txset_root`
  unfoldable pub txset_root : List BackpropTx → ℕ
  txset_root txs = p.sha256 (p.join (sorted p.text_le (map (txid p) txs)))

  -- `scores_root`
  unfoldable pub scores_root : Dict ℤ → ℕ
  scores_root scores = p.sha256 (p.dumps (object (entries number scores)))

  -- `sketch_root`
  unfoldable pub sketch_root : Dict (List ℤ) → ℕ
  unfolding sketch_json
  sketch_root sketches = p.sha256 (p.dumps (object (entries sketch_json sketches)))

  -- `state_root` of rig/chain.py
  unfoldable pub state_root : List ℤ → ℕ
  state_root w = p.sha256 (p.tobytes w)
