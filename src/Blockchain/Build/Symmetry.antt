-- ===== src/Blockchain/Build/Symmetry.antt =====
-- Producer and validator: what `build_block` makes, `validate_block` accepts.
use mathlib.Core.Path.{subst}
use sestrian.Base.{
  ℕ, suc, ◌≡◌, refl, sym, ap, ◌∙◌, ◌||◌, true, Option, some, List, [], leb, ◌==◌, Bool-cases,
  Option-cases, inl, inr, all, length, arith,
}
use sestrian.Base.Int.{ℤ}
use sestrian.Base.Dict.{has, values}
use sestrian.Platform.{Platform}
use sestrian.Crypto.{BackpropTx}
use sestrian.Token.Types.{TokenLedger}
use sestrian.Token.Account.{balance, supply}
use sestrian.Token.Commit.{ledger_root, transfer_root, data_root}
use sestrian.Token.Txs.{address}
use sestrian.Lottery.{seed, attempt_work, eligible, attempt_max}
use sestrian.ModelState.{ModelState, GenesisParams}
use sestrian.ModelState.Fold.{fold}
use sestrian.ModelState.Commit.{model_root, page_state_root}
use sestrian.Blockchain.Types.{
  Block, valid, ◌>>◌, require, bind-valid, require-valid, valid-injective, bind-pass, require-pass,
  bad_version, bad_hex, bad_height, attempt_range, txset_mismatch, score_keys, score_range,
  score_mismatch, sketch_keys, sketch_malformed, state_mismatch, model_mismatch, transfer_mismatch,
  data_mismatch, ledger_mismatch, missing_key,
}
use sestrian.Blockchain.Ledger.{apply_ledger, reward_block}
use sestrian.Blockchain.Checks.{
  Mode, check_header, check_proof, check_lottery, check_proposer, check_txs, check_commitments,
  score_ok, sketch_ok,
}
use sestrian.Blockchain.Validate.{
  Post, validate_block, transition_block, ledger_block, facts, block_facts, next_weights,
}
use sestrian.Blockchain.Build.{
  Draft, Seal, carried, block_scores, block_sketches, seal, draft_header, draft_block,
  sealed_header, build_on,
}
use sestrian.Blockchain.Build.Keys.{
  committed_scores-same_set, committed_sketches-same_set, carried-SameBodies, check_txs-SameBodies,
  body_list-SameBodies,
}

same_number : (a : ℕ) → (a == a) ≡ true
same_number a = ground arith

module _ (p : Platform) (model : ModelState) (g : GenesisParams) (w : List ℤ)
    (parent_height parent_hash : ℕ) (led : TokenLedger) (contributor : Option ℕ) (jurors : List ℕ)
    (d : Draft) where
  abbrev mode : Mode
  mode = some (model, g)

  abbrev height : ℕ
  height = suc parent_height

  abbrev proof : ℕ
  proof = p.sign d.proposer (seed p parent_hash height d.attempt)

  -- What the proposer has to see to: a won seat, valid deltas, and scores and sketches in range.
  pub record IsReady : Type 0 where
    pub seat :
        eligible p d.proposer proof parent_hash height d.attempt
          (balance (address p d.proposer) led)
          (supply led)
        ≡ true
    -- the signature is written as `bytes.hex()` writes it
    pub as_hex : p.is_hex proof ≡ true
    pub in_time : leb d.attempt attempt_max ≡ true
    pub deltas : check_txs p mode (length w) height d.bodies d.accepted ≡ valid tt
    pub scores : all score_ok (values (block_scores p d)) ≡ true
    pub sketches : all sketch_ok (values (block_sketches p d)) ≡ true

  -- The block that `build_on` returns, by its seal and its ledger.
  record IsBuilt (block : Block) : Type 0 where
    carries : all (λ (tx : BackpropTx). has tx.da_pointer d.bodies) d.accepted ≡ true
    sealed : Seal
    sealed_ok : seal p mode w height parent_hash d ≡ valid sealed
    led' : TokenLedger
    ran :
        apply_ledger p led
          (draft_block p (draft_header p mode height parent_hash d sealed) d)
          contributor
          jurors
        ≡ valid led'
    shape :
        draft_block p (sealed_header p (draft_header p mode height parent_hash d sealed) d led') d
        ≡ block

  build_on-IsBuilt :
      (block : Block)
      → build_on p mode w height parent_hash led contributor jurors d ≡ valid block
      → IsBuilt block
  unfolding build_on
  build_on-IsBuilt block e =
      let a =
        require-valid (all (λ (tx : BackpropTx). has tx.da_pointer d.bodies) d.accepted) missing_key
          _ e in
      let (s, sealed_ok, b) = bind-valid (seal p mode w height parent_hash d) _ a.1 in
      let (led', ran, c) =
        bind-valid
          (apply_ledger p led (draft_block p (draft_header p mode height parent_hash d s) d)
            contributor jurors)
          _ b in
      record {
        carries = a.0;
        sealed = s;
        sealed_ok = sealed_ok;
        led' = led';
        ran = ran;
        shape = valid-injective c;
      }

  module _ (s : Seal) (led' : TokenLedger) where
    abbrev built : Block
    built = draft_block p (sealed_header p (draft_header p mode height parent_hash d s) d led') d

    built-header : check_header p mode parent_height built ≡ valid tt
    unfolding check_header draft_block sealed_header draft_header
    built-header =
        require-pass bad_version (same_number _)
          (require-pass bad_height (same_number height) (rw (same_number (length d.accepted)) refl))

    built-commitments :
        all score_ok (values (block_scores p d)) ≡ true
        → all sketch_ok (values (block_sketches p d)) ≡ true
        → check_commitments p built ≡ valid tt
    unfolding check_commitments draft_block sealed_header draft_header block_scores block_sketches
    built-commitments scores sketches = require-pass txset_mismatch (same_number _) (
        require-pass score_keys (committed_scores-same_set p d.accepted d.scores) (
          require-pass score_range scores (
            require-pass score_mismatch (same_number _) (
              require-pass sketch_keys (committed_sketches-same_set p d.accepted d.sketches)
                (require-pass sketch_malformed sketches (rw (same_number _) refl))))))

    built-proposer :
        s.proof ≡ proof
        → s.work ≡ attempt_work p proof d.attempt
        → IsReady
        → check_proposer p mode (some led) built.header ≡ valid tt
    unfolding check_proposer check_lottery check_proof draft_block sealed_header draft_header
    built-proposer same_proof same_work r = elim (Bool-cases (d.proposer == p.genesis)) [
      | inl nobody ↦ rw nobody refl
      | inr somebody ↦
          rw (somebody, same_proof, same_work)
            (require-pass bad_hex reads (
              require-pass attempt_range r.in_time
                (rw (r.seat, same_number (attempt_work p proof d.attempt)) refl)))
    ]
      where
        reads : (proof == p.blank || p.is_hex proof) ≡ true
        reads = ground (arith, r.as_hex)

    built-txs :
        all (λ (tx : BackpropTx). has tx.da_pointer d.bodies) d.accepted ≡ true
        → IsReady
        → check_txs p mode (length w) built.header.height built.bodies built.txs ≡ valid tt
    unfolding draft_block sealed_header draft_header
    built-txs carries r =
        check_txs-SameBodies p mode (length w) height (carried d.accepted d.bodies []) d.bodies
          d.accepted (carried-SameBodies d.accepted d.bodies [] carries)
        ∙ r.deltas

    -- The validator's weights are the proposer's.
    built-weights :
        all (λ (tx : BackpropTx). has tx.da_pointer d.bodies) d.accepted ≡ true
        → next_weights p g (block_facts p built) model built.txs built.bodies w
          ≡ next_weights p g
              (facts p height d.accepted (block_scores p d) parent_hash d.proposer)
              model
              d.accepted
              d.bodies
              w
    unfolding next_weights block_facts draft_block sealed_header draft_header
    built-weights carries =
        rw
          (body_list-SameBodies p (carried d.accepted d.bodies []) d.bodies d.accepted
            (carried-SameBodies d.accepted d.bodies [] carries))
          refl

    built-transition :
        all (λ (tx : BackpropTx). has tx.da_pointer d.bodies) d.accepted ≡ true
        → let b = facts p height d.accepted (block_scores p d) parent_hash d.proposer in
          let v = next_weights p g b model d.accepted d.bodies w in
          page_state_root p v (fold p g b model) ≡ some s.state
          → s.model ≡ model_root p (fold p g b model)
          → transition_block p mode w built ≡ valid (v, some (fold p g b model))
    unfolding transition_block block_facts draft_block sealed_header draft_header
    built-transition carries rooted modelled =
        rw (built-weights carries, rooted, modelled)
          (require-pass state_mismatch (same_number s.state)
            (require-pass model_mismatch (same_number _) refl))

    built-ledger :
        apply_ledger p led
            (draft_block p (draft_header p mode height parent_hash d s) d)
            contributor
            jurors
          ≡ valid led'
        → ledger_block p (some led) built contributor jurors ≡ valid (some led')
    unfolding ledger_block draft_block sealed_header draft_header apply_ledger reward_block
    built-ledger ran = require-pass transfer_mismatch (same_number (transfer_root p d.transfers)) (
        require-pass data_mismatch (same_number (data_root p d.data_txs)) (
          bind-pass
            (λ (l : TokenLedger).
              require (ledger_root p l == ledger_root p led') ledger_mismatch >> valid (some l))
            ran (require-pass ledger_mismatch (same_number (ledger_root p led')) refl)))

  -- What the seal commits.
  seal-facts :
      (s : Seal)
      → seal p mode w height parent_hash d ≡ valid s
      → let b = facts p height d.accepted (block_scores p d) parent_hash d.proposer in
        (page_state_root p (next_weights p g b model d.accepted d.bodies w) (fold p g b model)
          ≡ some s.state)
        × (s.model ≡ model_root p (fold p g b model))
        × (s.proof ≡ proof)
        × (s.work ≡ attempt_work p proof d.attempt)
  unfolding seal
  seal-facts s e =
      let b = facts p height d.accepted (block_scores p d) parent_hash d.proposer in
      let v = next_weights p g b model d.accepted d.bodies w in
      elim (Option-cases (page_state_root p v (fold p g b model))) [
        | inl nothing ↦ cc (rw (nothing, seal) at e)
        | inr (r, found) ↦
            let same = valid-injective (rw (found, seal) at e) in
            (
              found ∙ ap some (ap (λ (q : Seal). q.state) same),
              sym (ap (λ (q : Seal). q.model) same),
              sym (ap (λ (q : Seal). q.proof) same),
              sym (ap (λ (q : Seal). q.work) same),
            )
      ]

  built-valid :
      (block : Block) (a : IsBuilt block) (r : IsReady)
      → (post : Post) × (validate_block p
            (built a.sealed a.led')
            w
            parent_height
            (some led)
            contributor
            jurors
            mode
          ≡ valid post)
  unfolding validate_block
  built-valid block a r =
      let s = a.sealed in
      let f = seal-facts s a.sealed_ok in
      let b = facts p height d.accepted (block_scores p d) parent_hash d.proposer in
      let v = next_weights p g b model d.accepted d.bodies w in
      (
        record { w = v; ledger = some a.led'; model = some (fold p g b model) },
        bind-pass _ (built-header s a.led') (
            bind-pass _ (built-proposer s a.led' f.2 f.3 r) (
              bind-pass _ (built-txs s a.led' a.carries r) (
                bind-pass _ (built-commitments s a.led' r.scores r.sketches) (
                  bind-pass _ (built-transition s a.led' a.carries f.0 f.1)
                    (bind-pass _ (built-ledger s a.led' a.ran) refl))))),
      )

  -- Producer and validator agree under the live protocol: where the proposer has a seat and a
  -- proof written in hex, its deltas are valid and its scores and sketches in range, the block that `build_on`, the body of
  -- `build_block`, returns passes every check that `validate_block` makes against the same parent.
  pub build_on_validates :
      (block : Block)
      → build_on p mode w height parent_hash led contributor jurors d ≡ valid block
      → IsReady
      → (post : Post) × (validate_block p block w parent_height (some led) contributor jurors mode
          ≡ valid post)
  build_on_validates block e r =
      let a = build_on-IsBuilt block e in
      subst
        (λ (c : Block).
          (post : Post) × (validate_block p c w parent_height (some led) contributor jurors mode
            ≡ valid post))
        a.shape (built-valid block a r)
