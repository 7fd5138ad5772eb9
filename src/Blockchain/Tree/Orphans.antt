-- ===== src/Blockchain/Tree/Orphans.antt =====
-- `add_block` tells of an orphan only where the parent is unknown.
use sestrian.Base.{
  ℕ, ◌≡◌, refl, ◌≢◌, ap, Bool, true, false, Option, none, some, List, [], ◌∷◌, arith,
}
use sestrian.Base.Int.{ℤ}
use sestrian.Base.Dict.{Dict, lookup}
use sestrian.Platform.{Platform}
use sestrian.Crypto.{BackpropTx}
use sestrian.Token.Types.{TokenLedger, AccountTx, transfer, data_tx}
use sestrian.Blockchain.Types.{Header, Block, Reason, Verdict, raised, valid, orphan}
use sestrian.Blockchain.Ledger.{apply_ledger, lock_bonds, apply_account_tx, apply_account_txs}
use sestrian.Blockchain.Checks.{
  Mode, check_header, check_proof, check_lottery, check_proposer, check_claim, check_body, check_tx,
  check_txs, check_commitments,
}
use sestrian.Blockchain.Validate.{Post, transition_block, ledger_block, validate_block}
use sestrian.Blockchain.Tree.{Tree, attach_ledger, attach_legacy, attach, add_child, add_block}

abbrev is_orphan : Reason → Bool
is_orphan orphan = true
is_orphan other = false

-- Whether a verdict tells of an orphan.
abbrev blames_parent {ℓ} : {A : Type ℓ} → Verdict A → Bool
blames_parent (valid a) = false
blames_parent (raised e) = is_orphan e

module _ (p : Platform) where
  check_header-quiet :
      (mode : Mode) (h : ℕ) (b : Block) → blames_parent (check_header p mode h b) ≡ false
  unfolding check_header
  check_header-quiet mode h b = ground arith

  check_claim-quiet :
      (mode : Mode) (height : ℕ) (tx : BackpropTx) (body : List ℤ)
      → blames_parent (check_claim p mode height tx body) ≡ false
  unfolding check_claim
  check_claim-quiet none height tx body = refl
  check_claim-quiet (some (model, g)) height tx body = ground arith

  check_commitments-quiet : (b : Block) → blames_parent (check_commitments p b) ≡ false
  unfolding check_commitments
  check_commitments-quiet b = ground arith

  check_proposer-quiet :
      (mode : Mode) (led : Option TokenLedger) (h : Header)
      → blames_parent (check_proposer p mode led h) ≡ false
  unfolding check_proposer check_lottery check_proof
  check_proposer-quiet mode led h = ground arith

  check_txs-quiet :
      (mode : Mode) (dim height : ℕ) (bodies : Dict (List ℤ)) (txs : List BackpropTx)
      → blames_parent (check_txs p mode dim height bodies txs) ≡ false
  unfolding check_txs check_tx check_body
  check_txs-quiet mode dim height bodies [] = refl
  check_txs-quiet mode dim height bodies (tx ∷ txs) =
      grind (arith, check_txs-quiet mode dim height bodies txs, check_claim-quiet mode height tx)

  lock_bonds-quiet :
      (txs : List BackpropTx) (height : ℕ) (led : TokenLedger)
      → blames_parent (lock_bonds p txs height led) ≡ false
  unfolding lock_bonds
  lock_bonds-quiet [] height led = refl
  lock_bonds-quiet (tx ∷ txs) height led = grind (arith, lock_bonds-quiet txs height)

  apply_account_txs-quiet :
      (txs : List AccountTx) (height : ℕ) (jurors : List ℕ) (led : TokenLedger)
      → blames_parent (apply_account_txs p txs height jurors led) ≡ false
  unfolding apply_account_txs apply_account_tx
  apply_account_txs-quiet [] height jurors led = refl
  apply_account_txs-quiet (transfer tx ∷ txs) height jurors led =
      grind (arith, apply_account_txs-quiet txs height jurors)
  apply_account_txs-quiet (data_tx tx ∷ txs) height jurors led =
      grind (arith, apply_account_txs-quiet txs height jurors)

  apply_ledger-quiet :
      (led : TokenLedger) (b : Block) (contributor : Option ℕ) (jurors : List ℕ)
      → blames_parent (apply_ledger p led b contributor jurors) ≡ false
  unfolding apply_ledger
  apply_ledger-quiet led b contributor jurors =
      grind (arith, lock_bonds-quiet, apply_account_txs-quiet)

  ledger_block-quiet :
      (led : Option TokenLedger) (b : Block) (contributor : Option ℕ) (jurors : List ℕ)
      → blames_parent (ledger_block p led b contributor jurors) ≡ false
  unfolding ledger_block
  ledger_block-quiet none b contributor jurors = refl
  ledger_block-quiet (some led) b contributor jurors =
      ground (arith, apply_ledger-quiet led b contributor jurors)

  transition_block-quiet :
      (mode : Mode) (w : List ℤ) (b : Block) → blames_parent (transition_block p mode w b) ≡ false
  unfolding transition_block
  transition_block-quiet none w b = ground arith
  transition_block-quiet (some (model, g)) w b = ground arith

  validate_block-quiet :
      (b : Block) (w : List ℤ) (height : ℕ) (led : Option TokenLedger) (contributor : Option ℕ)
      (jurors : List ℕ) (mode : Mode)
      → blames_parent (validate_block p b w height led contributor jurors mode) ≡ false
  unfolding validate_block
  validate_block-quiet b w height led contributor jurors mode = grind (
    arith, check_header-quiet, check_proposer-quiet, check_txs-quiet, check_commitments-quiet,
    transition_block-quiet, ledger_block-quiet,
  )

  attach-quiet :
      (hash : ℕ) (b : Block) (jurors : List ℕ) (post : Post) (t : Tree)
      → blames_parent (attach p hash b jurors post t).1 ≡ false
  unfolding attach attach_ledger attach_legacy
  attach-quiet hash b jurors post t = grind (arith, apply_ledger-quiet)

  add_block-quiet :
      (b : Block) (t : Tree) (parent : Block)
      → lookup b.header.prev_hash t.blocks ≡ some parent
      → blames_parent (add_block p b t).1 ≡ false
  unfolding add_block add_child
  add_block-quiet b t parent found = grind (arith, validate_block-quiet, attach-quiet, found)

  -- An orphan is a block whose parent is unknown.
  pub add_block-orphan :
      (b : Block) (t : Tree) (parent : Block)
      → lookup b.header.prev_hash t.blocks ≡ some parent
      → (add_block p b t).1 ≢ raised orphan
  add_block-orphan b t parent found h =
      ground (arith, ap blames_parent h, add_block-quiet b t parent found)
