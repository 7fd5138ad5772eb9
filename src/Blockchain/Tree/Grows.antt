-- ===== src/Blockchain/Tree/Grows.antt =====
-- `add_block` only adds to the blocks that a tree knows.
use sestrian.Base.{
  ℕ, ◌≡◌, refl, ◌∙◌, Bool, true, ◌||◌, List, [], ◌∷◌, ◌==◌, Option-cases, inl, inr, arith,
}
use sestrian.Base.Dict.{Dict, has, put}
use sestrian.Platform.{Platform}
use sestrian.Token.Types.{TokenLedger}
use sestrian.Blockchain.Types.{Block, valid}
use sestrian.Blockchain.Commit.{block_hash}
use sestrian.Blockchain.Validate.{Post}
use sestrian.Blockchain.Tree.{
  Tree, drop_bodies, prune_to, prune_deep, choose_head, attach_ledger, attach_legacy, attach,
  add_child, add_block,
}

has-drop_bodies :
    (genesis depth top k : ℕ) (blocks : Dict Block)
    → has k (drop_bodies genesis depth top blocks) ≡ has k blocks
unfolding drop_bodies
has-drop_bodies genesis depth top k [] = refl
has-drop_bodies genesis depth top k ((bh, b) ∷ blocks) =
    ground (arith, has-drop_bodies genesis depth top k blocks)

pub has-put :
    (k hash : ℕ) (b : Block) (blocks : Dict Block)
    → has k (put hash b blocks) ≡ (k == hash || has k blocks)
has-put k hash b [] = ground arith
has-put k hash b ((j, c) ∷ blocks) = ground (arith, has-put k hash b blocks)

prune_deep-has : (k : ℕ) (t : Tree) → has k (prune_deep t).blocks ≡ has k t.blocks
unfolding prune_deep prune_to
prune_deep-has k t = grind (arith, has-drop_bodies)

module _ (p : Platform) (hash : ℕ) (b : Block) (k : ℕ) where
  choose_head-has :
      (work : ℕ) (t : Tree) → has k (choose_head p hash b work t).0.blocks ≡ has k t.blocks
  unfolding choose_head
  choose_head-has work t = grind (arith, prune_deep-has)

  attach_ledger-has :
      (led : TokenLedger) (t : Tree)
      → has k (attach_ledger p hash b led t).0.blocks ≡ has k t.blocks
  unfolding attach_ledger
  attach_ledger-has led t = grind (arith, choose_head-has)

  attach_legacy-has :
      (jurors : List ℕ) (t : Tree)
      → has k (attach_legacy p hash b jurors t).0.blocks ≡ has k t.blocks
  unfolding attach_legacy
  attach_legacy-has jurors t = grind (arith, attach_ledger-has)

  attach-has :
      (jurors : List ℕ) (post : Post) (t : Tree)
      → has k (attach p hash b jurors post t).0.blocks ≡ (k == hash || has k t.blocks)
  unfolding attach
  attach-has jurors post t =
      let t' : Tree = record t {
        blocks = put hash b t.blocks;
        state = put hash post.w t.state;
        model = put hash post.model t.model;
      } in
      elim (Option-cases post.ledger) [
        | inl legacy ↦ rw (legacy, attach) (attach_legacy-has jurors t' ∙ has-put k hash b t.blocks)
        | inr (led, made) ↦ rw (made, attach) (attach_ledger-has led t' ∙ has-put k hash b t.blocks)
      ]

module _ (p : Platform) (b : Block) (t : Tree) where
  -- What is known stays known.
  pub add_block-grows : (k : ℕ) → has k t.blocks ≡ true → has k (add_block p b t).0.blocks ≡ true
  unfolding add_block add_child
  add_block-grows k known = grind (arith, attach-has, known)

  -- A block that is accepted is known.
  pub add_block-adds :
      (became_head : Bool)
      → (add_block p b t).1 ≡ valid became_head
      → has (block_hash p b.header) (add_block p b t).0.blocks ≡ true
  unfolding add_block add_child
  add_block-adds became_head accepted = grind (arith, attach-has)
