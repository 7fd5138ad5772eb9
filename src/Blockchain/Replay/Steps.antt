-- ===== src/Blockchain/Replay/Steps.antt =====
-- A validated block is one step of the replay.
use mathlib.Core.Option.{some-injective}
use sestrian.Base.{
  ℕ, ◌≡◌, refl, sym, ap, ◌∙◌, true, Option, none, some, List, [], ◌∷◌, ◌++◌, all, length,
  Option-cases, Bool-cases, ◌==◌, suc, inl, inr,
}
use sestrian.Base.Int.{ℤ}
use sestrian.Base.Dict.{Dict, lookup, has}
use sestrian.Platform.{Platform}
use sestrian.Crypto.{BackpropTx, verify}
use sestrian.Token.Types.{TokenLedger}
use sestrian.Aggregation.{transition}
use sestrian.ModelState.{ModelState, GenesisParams}
use sestrian.Blockchain.Types.{
  Block, valid, require-valid, then-valid, valid-injective, bad_tx_signature, bad_base_height,
  state_mismatch,
}
use sestrian.Blockchain.Commit.{state_root}
use sestrian.Blockchain.Checks.{Mode, check_txs, check_tx, check_body}
use sestrian.Blockchain.Validate.{Post, validate_block, transition_block, body_list}
use sestrian.Blockchain.Accepted.{validate_block-parts, transition_block-facts}
use sestrian.Blockchain.Tree.{mode_of}
use sestrian.Blockchain.Replay.{carries, advance, replay_chain}

lookup-has : (k : ℕ) (d : Dict (List ℤ)) {v : List ℤ} → lookup k d ≡ some v → has k d ≡ true
lookup-has k [] e = cc e
lookup-has k ((j, v) ∷ d) e = elim (Bool-cases (k == j)) [
  | inl same ↦ rw same refl
  | inr other ↦ rw other (lookup-has k d (rw other at e))
]

module _ (p : Platform) where
  check_tx-has :
      (mode : Mode) (dim height : ℕ) (bodies : Dict (List ℤ)) (tx : BackpropTx)
      → check_tx p mode dim height bodies tx ≡ valid tt
      → has tx.da_pointer bodies ≡ true
  unfolding check_tx
  check_tx-has mode dim height bodies tx e =
      let a = require-valid (verify p tx) bad_tx_signature _ e in
      let b = require-valid (suc tx.base_height == height) bad_base_height _ a.1 in
      elim (Option-cases (lookup tx.da_pointer bodies)) [
        | inl missing ↦ unfold check_body in cc (rw missing at b.1)
        | inr (body, found) ↦ lookup-has tx.da_pointer bodies found
      ]

  -- Every body of a checked block is there.
  check_txs-carries :
      (mode : Mode) (dim height : ℕ) (bodies : Dict (List ℤ)) (txs : List BackpropTx)
      → check_txs p mode dim height bodies txs ≡ valid tt
      → all (λ (tx : BackpropTx). has tx.da_pointer bodies) txs ≡ true
  unfolding check_txs
  check_txs-carries mode dim height bodies [] e = refl
  check_txs-carries mode dim height bodies (tx ∷ txs) e =
      let a = then-valid (check_tx p mode dim height bodies tx) _ e in
      rw
        (
          check_tx-has mode dim height bodies tx a.0,
          check_txs-carries mode dim height bodies txs a.1,
        )
        refl

  legacy-facts :
      (block : Block) (w : List ℤ) {w' : List ℤ} {model' : Option ModelState}
      → transition_block p none w block ≡ valid (w', model')
      → (w' ≡ transition (body_list p block.bodies block.txs) w) × (model' ≡ none)
  unfolding transition_block
  legacy-facts block w e =
      let v = transition (body_list p block.bodies block.txs) w in
      let a = require-valid (state_root p v == block.header.state_root) state_mismatch _ e in
      let same = valid-injective a.1 in (sym (ap (λ q. q.0) same), sym (ap (λ q. q.1) same))

  transition_block-advance :
      (block : Block) (w : List ℤ) (params : Option GenesisParams) (before : Option ModelState)
      (post : Post)
      → carries block ≡ true
      → transition_block p (mode_of params before) w block ≡ valid (post.w, post.model)
      → advance p (mode_of params before) w block ≡ some (mode_of params post.model, post.w)
  unfolding advance
  transition_block-advance block w none before post here e =
      let moved = legacy-facts block w e in rw (here, moved.0, advance) refl
  transition_block-advance block w (some g) none post here e =
      let moved = legacy-facts block w e in rw (here, moved.0, moved.1, advance) refl
  transition_block-advance block w (some g) (some model) post here e =
      let moved = transition_block-facts p block model g w post.w post.model e in
      rw (here, moved.0, moved.1, advance) refl

  -- What validation leaves is what the replay computes.
  pub validate_block-advance :
      (block : Block) (w : List ℤ) (parent_height : ℕ) (led : Option TokenLedger)
      (contributor : Option ℕ) (jurors : List ℕ) (params : Option GenesisParams)
      (before : Option ModelState) (post : Post)
      → let mode = mode_of params before in
        validate_block p block w parent_height led contributor jurors mode ≡ valid post
        → advance p mode w block ≡ some (mode_of params post.model, post.w)
  validate_block-advance block w parent_height led contributor jurors params before post e =
      let a =
        validate_block-parts p block w parent_height led contributor jurors (mode_of params before)
          e in
      transition_block-advance block w params before post
        (check_txs-carries (mode_of params before) (length w) block.header.height block.bodies
          block.txs a.txs_ok)
        a.transition_ok

  pub replay_chain-append :
      (mode : Mode) (w : List ℤ) (bs : List Block) (b : Block) {mode' : Mode} {w' : List ℤ}
      → replay_chain p mode w bs ≡ some (mode', w')
      → replay_chain p mode w (bs ++ b ∷ []) ≡ advance p mode' w' b
  unfolding replay_chain
  replay_chain-append mode w [] b {mode' = mode'} {w' = w'} e =
      let same = some-injective (mode, w) (mode', w') e in
      last (advance p mode w b) ∙ ap (λ (q : Mode × List ℤ). advance p q.0 q.1 b) same
    where
      last :
          (step : Option (Mode × List ℤ))
          → elim step [ none ↦ none | some (m, v) ↦ some (m, v) ] ≡ step
      last none = refl
      last (some q) = refl
  replay_chain-append mode w (c ∷ bs) b e = elim (Option-cases (advance p mode w c)) [
    | inl stuck ↦ cc (rw (stuck, replay_chain) at e)
    | inr ((m, v), moved) ↦
        rw (moved, replay_chain) (replay_chain-append m v bs b (rw (moved, replay_chain) at e))
  ]
