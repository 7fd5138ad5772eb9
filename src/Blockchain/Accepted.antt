-- ===== src/Blockchain/Accepted.antt =====
-- What a block that `validate_block` accepts is known to satisfy.
use mathlib.Core.Path.{subst}
use sestrian.Base.{
  ap, sym, ◌∙◌, ℕ, suc, ◌≡◌, true, Option, some, List, [], ◌∷◌, map, length, all, ◌==◌, ==→eq,
  arith,
}
use mathlib.Core.Option.{some-injective}
use sestrian.Base.Int.{ℤ, IsNonneg}
use sestrian.Base.Dict.{Dict, AllValues, values, keys}
use sestrian.Platform.{Platform}
use sestrian.Crypto.{txid}
use sestrian.Token.Types.{TokenLedger}
use sestrian.Token.Commit.{ledger_root, data_root, transfer_root}
use sestrian.Blockchain.Types.{
  Block, valid, bad_height, bad_tx_count, bad_version, txset_mismatch, score_keys, score_range,
  score_mismatch, require-true, valid-injective, bind-valid, then-valid, require-valid,
  transfer_mismatch, data_mismatch, ledger_mismatch, state_mismatch, model_mismatch,
}
use sestrian.Blockchain.Ledger.{apply_ledger}
use sestrian.Blockchain.Commit.{txset_root, scores_root}
use sestrian.Blockchain.Checks.{
  Mode, check_header, check_proposer, check_txs, check_commitments, version_ok, same_set, score_ok,
}
use sestrian.Blockchain.Validate.{
  Post, validate_block, transition_block, ledger_block, next_weights, block_facts, commits,
}
use sestrian.ModelState.{ModelState, GenesisParams}
use sestrian.ModelState.Fold.{fold}
use sestrian.ModelState.Commit.{model_root, page_state_root}

-- The parts of a successful validation.
pub record IsAccepted (p : Platform) (block : Block) (w : List ℤ) (parent_height : ℕ)
    (parent_ledger : Option TokenLedger) (contributor : Option ℕ) (jurors : List ℕ) (mode : Mode)
    (post : Post) : Type 0 where
  pub header_ok : check_header p mode parent_height block ≡ valid tt
  pub proposer_ok : check_proposer p mode parent_ledger block.header ≡ valid tt
  pub txs_ok : check_txs p mode (length w) block.header.height block.bodies block.txs ≡ valid tt
  pub commitments_ok : check_commitments p block ≡ valid tt
  pub transition_ok : transition_block p mode w block ≡ valid (post.w, post.model)
  pub ledger_ok : ledger_block p parent_ledger block contributor jurors ≡ valid post.ledger

scores-IsNonneg :
    (scores : Dict ℤ) → all score_ok (values scores) ≡ true → AllValues IsNonneg scores
scores-IsNonneg [] h = tt
scores-IsNonneg ((k, v) ∷ scores) h = (ground arith, scores-IsNonneg scores (ground arith))

module _ (p : Platform) (block : Block) where
  pub validate_block-parts :
      (w : List ℤ) (parent_height : ℕ) (parent_ledger : Option TokenLedger) (contributor : Option ℕ)
      (jurors : List ℕ) (mode : Mode) {post : Post}
      → validate_block p block w parent_height parent_ledger contributor jurors mode ≡ valid post
      → IsAccepted p block w parent_height parent_ledger contributor jurors mode post
  unfolding validate_block
  validate_block-parts w parent_height parent_ledger contributor jurors mode {post} h =
      let a = then-valid (check_header p mode parent_height block) _ h in
      let b = then-valid (check_proposer p mode parent_ledger block.header) _ a.1 in
      let c =
        then-valid (check_txs p mode (length w) block.header.height block.bodies block.txs) _ b.1 in
      let d = then-valid (check_commitments p block) _ c.1 in
      let (wm, moved, e) = bind-valid (transition_block p mode w block) _ d.1 in
      let (led, ran, f) = bind-valid (ledger_block p parent_ledger block contributor jurors) _ e in
      subst (IsAccepted p block w parent_height parent_ledger contributor jurors mode)
        (valid-injective f)
        (record {
          header_ok = a.0;
          proposer_ok = b.0;
          txs_ok = c.0;
          commitments_ok = d.0;
          transition_ok = moved;
          ledger_ok = ran;
        })

  -- The header's own fields: its version is scheduled, it follows its parent and counts its deltas.
  pub check_header-facts :
      (mode : Mode) (parent_height : ℕ)
      → check_header p mode parent_height block ≡ valid tt
      → (version_ok mode block.header ≡ true)
        × (block.header.height ≡ suc parent_height)
        × (block.header.n_txs ≡ length block.txs)
  unfolding check_header
  check_header-facts mode parent_height h =
      let a = require-valid (version_ok mode block.header) bad_version _ h in
      let b = require-valid (block.header.height == suc parent_height) bad_height _ a.1 in
      (
        a.0,
        ==→eq block.header.height (suc parent_height) b.0,
        ==→eq block.header.n_txs (length block.txs)
            (require-true (block.header.n_txs == length block.txs) bad_tx_count b.1),
      )

  pub check_commitments-facts :
      check_commitments p block ≡ valid tt
      → (txset_root p block.txs ≡ block.header.txset_root)
        × (same_set (keys block.scores) (map (txid p) block.txs) ≡ true)
        × AllValues IsNonneg block.scores
        × (scores_root p block.scores ≡ block.header.score_root)
  unfolding check_commitments
  check_commitments-facts h =
      let a =
        require-valid (txset_root p block.txs == block.header.txset_root) txset_mismatch _ h in
      let b =
        require-valid (same_set (keys block.scores) (map (txid p) block.txs)) score_keys _ a.1 in
      let c = require-valid (all score_ok (values block.scores)) score_range _ b.1 in
      let d =
        require-valid (scores_root p block.scores == block.header.score_root) score_mismatch _
          c.1 in
      (
        ==→eq (txset_root p block.txs) block.header.txset_root a.0,
        b.0,
        scores-IsNonneg block.scores c.0,
        ==→eq (scores_root p block.scores) block.header.score_root d.0,
      )

  -- The ledger that a validated block leaves is the parent's through `apply_ledger`, and the header
  -- commits its root.
  pub ledger_block-facts :
      (parent : TokenLedger) (contributor : Option ℕ) (jurors : List ℕ) {led : TokenLedger}
      → ledger_block p (some parent) block contributor jurors ≡ valid (some led)
      → (apply_ledger p parent block contributor jurors ≡ valid led)
        × (ledger_root p led ≡ block.header.ledger_root)
        × (transfer_root p block.transfers ≡ block.header.transfer_root)
        × (data_root p block.data_txs ≡ block.header.data_root)
  unfolding ledger_block
  ledger_block-facts parent contributor jurors {led} h =
      let a =
        require-valid (transfer_root p block.transfers == block.header.transfer_root)
          transfer_mismatch _ h in
      let b =
        require-valid (data_root p block.data_txs == block.header.data_root) data_mismatch _ a.1 in
      let (l, ran, c) = bind-valid (apply_ledger p parent block contributor jurors) _ b.1 in
      let d = require-valid (ledger_root p l == block.header.ledger_root) ledger_mismatch _ c in
      let same : l ≡ led = some-injective l led (valid-injective d.1) in
      (
        ran ∙ ap valid same,
        subst (λ m. ledger_root p m ≡ block.header.ledger_root) same
            (==→eq (ledger_root p l) block.header.ledger_root d.0),
        ==→eq (transfer_root p block.transfers) block.header.transfer_root a.0,
        ==→eq (data_root p block.data_txs) block.header.data_root b.0,
      )

  pub ledger_block-some :
      (parent : TokenLedger) (contributor : Option ℕ) (jurors : List ℕ) (led : Option TokenLedger)
      → ledger_block p (some parent) block contributor jurors ≡ valid led
      → (led' : TokenLedger) × (led ≡ some led')
  unfolding ledger_block
  ledger_block-some parent contributor jurors led h =
      let a =
        require-valid (transfer_root p block.transfers == block.header.transfer_root)
          transfer_mismatch _ h in
      let b =
        require-valid (data_root p block.data_txs == block.header.data_root) data_mismatch _ a.1 in
      let (l, ran, c) = bind-valid (apply_ledger p parent block contributor jurors) _ b.1 in
      let d = require-valid (ledger_root p l == block.header.ledger_root) ledger_mismatch _ c in
      (l, sym (valid-injective d.1))

  -- The weights and the model state that a validated block leaves are computed from the parent's, and
  -- the header commits their roots.
  pub transition_block-facts :
      (model : ModelState) (g : GenesisParams) (w w' : List ℤ) (model' : Option ModelState)
      → transition_block p (some (model, g)) w block ≡ valid (w', model')
      → let b = block_facts p block in
        (w' ≡ next_weights p g b model block.txs block.bodies w)
        × (model' ≡ some (fold p g b model))
        × (commits (page_state_root p w' (fold p g b model)) block.header.state_root ≡ true)
        × (model_root p (fold p g b model) ≡ block.header.model_root)
  unfolding transition_block
  transition_block-facts model g w w' model' h =
      let b = block_facts p block in
      let v = next_weights p g b model block.txs block.bodies w in
      let m = fold p g b model in
      let c =
        require-valid (commits (page_state_root p v m) block.header.state_root) state_mismatch _
          h in
      let d = require-valid (model_root p m == block.header.model_root) model_mismatch _ c.1 in
      let same = valid-injective d.1 in
      let moved : v ≡ w' = ap (λ q. q.0) same in
      (
        sym moved,
        sym (ap (λ q. q.1) same),
        subst (λ u. commits (page_state_root p u m) block.header.state_root ≡ true) moved c.0,
        ==→eq (model_root p m) block.header.model_root d.0,
      )

  -- A block that the live protocol accepts follows its parent's height and counts its deltas, its
  -- scores are zero or more, and its header commits the set of its deltas and the state after it:
  -- the aggregated weights with the pages that growth appends, the folded model state, and the
  -- ledger that `apply_ledger` makes of the parent's.
  pub validate_block-commits :
      (w : List ℤ) (parent_height : ℕ) (parent : TokenLedger) (contributor : Option ℕ)
      (jurors : List ℕ) (model : ModelState) (g : GenesisParams) {post : Post}
      → validate_block p block w parent_height (some parent) contributor jurors (some (model, g))
        ≡ valid post
      → let b = block_facts p block in
        let h = block.header in
        (h.height ≡ suc parent_height)
        × (h.n_txs ≡ length block.txs)
        × (txset_root p block.txs ≡ h.txset_root)
        × AllValues IsNonneg block.scores
        × (post.w ≡ next_weights p g b model block.txs block.bodies w)
        × (commits (page_state_root p post.w (fold p g b model)) h.state_root ≡ true)
        × (post.model ≡ some (fold p g b model))
        × (model_root p (fold p g b model) ≡ h.model_root)
        × ((led : TokenLedger) × (post.ledger ≡ some led)
            × (apply_ledger p parent block contributor jurors ≡ valid led)
            × (ledger_root p led ≡ h.ledger_root))
  validate_block-commits w parent_height parent contributor jurors model g {post} e =
      let a =
        validate_block-parts w parent_height (some parent) contributor jurors (some (model, g)) e in
      let h = check_header-facts (some (model, g)) parent_height a.header_ok in
      let c = check_commitments-facts a.commitments_ok in
      let t = transition_block-facts model g w post.w post.model a.transition_ok in
      let (led, kept) = ledger_block-some parent contributor jurors post.ledger a.ledger_ok in
      let l = ledger_block-facts parent contributor jurors (a.ledger_ok ∙ ap valid kept) in
      (h.1, h.2, c.0, c.2, t.0, t.2, t.1, t.3, (led, kept, l.0, l.1))
