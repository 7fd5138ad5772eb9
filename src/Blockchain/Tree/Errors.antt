-- ===== src/Blockchain/Tree/Errors.antt =====
-- What `add_block` leaves of the tree when it refuses a block.
use sestrian.Base.{ℕ, ◌≡◌, refl, ◌≢◌, some, List, Bool-cases, Option-cases, inl, inr}
use sestrian.Base.Int.{ℤ}
use sestrian.Base.Dict.{lookup, has}
use sestrian.Platform.{Platform}
use sestrian.Token.Types.{TokenLedger}
use sestrian.Blockchain.Types.{Block, raised, Verdict-cases, Reason, missing_key}
use sestrian.Blockchain.Commit.{block_hash}
use sestrian.Blockchain.Validate.{Post, validate_block}
use sestrian.Blockchain.Accepted.{validate_block-parts, ledger_block-some}
use sestrian.Blockchain.Tree.{
  Tree, mode_at, recent_proposers, attach_ledger, attach, parent_ledger, add_child, add_block,
}

module _ (p : Platform) (t : Tree) (e : Reason) (stored : e ≢ missing_key) where
  -- A block that has its ledger is stored.
  attach_ledger_stores :
      (hash : ℕ) (b : Block) (led : TokenLedger) (t' : Tree)
      → (attach_ledger p hash b led t').1 ≢ raised e
  unfolding attach_ledger
  attach_ledger_stores hash b led t' h =
      elim (Option-cases (lookup b.header.prev_hash t'.cum_work)) [
        | inl missing ↦ stored (cc (rw (missing, attach_ledger) at h))
        | inr (work, found) ↦ cc (rw (found, attach_ledger) at h)
      ]

  attach_stores :
      (hash : ℕ) (b : Block) (jurors : List ℕ) (post : Post) (led : TokenLedger)
      → post.ledger ≡ some led
      → (attach p hash b jurors post t).1 ≢ raised e
  unfolding attach
  attach_stores hash b jurors post led made h =
      attach_ledger_stores hash b led _ (rw (made, attach) at h)

  add_child_refuses :
      (hash : ℕ) (b parent : Block) (w : List ℤ) (led : TokenLedger)
      → parent_ledger p b.header t ≡ some led
      → (add_child p hash b parent w t).1 ≡ raised e
      → (add_child p hash b parent w t).0 ≡ t
  unfolding add_child
  add_child_refuses hash b parent w led committed h =
      let jurors = recent_proposers b.header.prev_hash t in
      let mode = mode_at t b.header.prev_hash in
      elim (Verdict-cases (
        validate_block p b w parent.header.height (parent_ledger p b.header t) t.data_contributor
          jurors mode)) [
            | inr (r, refused) ↦ rw (refused, add_child) refl
            | inl (post, accepted) ↦
                let parts =
                  validate_block-parts p b w parent.header.height (parent_ledger p b.header t)
                    t.data_contributor jurors mode accepted in
                let (led', made) =
                  ledger_block-some p b led t.data_contributor jurors post.ledger
                    (rw committed at parts.ledger_ok) in
                absurd (attach_stores hash b jurors post led' made (rw (accepted, add_child) at h))
          ]

  -- A block whose header commits a ledger and whose parent has one is refused without a trace: for
  -- whatever reason but a missing entry of its parent, the tree is what it was.
  pub add_block_refuses :
      (b : Block) (led : TokenLedger)
      → parent_ledger p b.header t ≡ some led
      → (add_block p b t).1 ≡ raised e
      → (add_block p b t).0 ≡ t
  unfolding add_block
  add_block_refuses b led committed h =
      let hash = block_hash p b.header in
      elim (Bool-cases (has hash t.blocks)) [
        | inl old ↦ rw (old, add_block) refl
        | inr new ↦ elim (Option-cases (lookup b.header.prev_hash t.blocks)) [
          | inl unknown ↦ rw (new, unknown, add_block) refl
          | inr (parent, found) ↦ elim (Option-cases (lookup b.header.prev_hash t.state)) [
            | inl pruned ↦ rw (new, found, pruned, add_block) refl
            | inr (w, held) ↦
                rw (new, found, held, add_block)
                  (add_child_refuses hash b parent w led committed
                    (rw (new, found, held, add_block) at h))
          ]
        ]
      ]
