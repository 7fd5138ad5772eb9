-- ===== src/Aggregation/Replay.antt =====
-- Replaying a chain from its genesis gives its weights.
use sestrian.Base.{ℕ, ◌≤◌, ◌≡◌, refl, ap, ◌∙◌, List, [], ◌∷◌, ◌++◌, length, All, arith}
use sestrian.Base.Int.{ℤ}
use sestrian.Platform.{Platform}
use sestrian.Aggregation.{
  DeltaBlock, Chain, new_chain, apply_block, kept, transition, replay_from, replay, apply_all,
}

-- Every delta of a block has a miner.
abbrev pub HasMiners : List (List ℤ) × List ℕ → Type 0
HasMiners (deltas, ids) = length deltas ≤ length ids

kept-nobody :
    (deltas : List (List ℤ)) (ids : List ℕ)
    → length deltas ≤ length ids
    → kept [] deltas ids ≡ deltas
unfolding kept
kept-nobody [] ids h = refl
kept-nobody (d ∷ deltas) [] h = absurd (omega (arith, h))
kept-nobody (d ∷ deltas) (m ∷ ids) h =
    ap (λ rest. d ∷ rest) (kept-nobody deltas ids (omega (arith, h)))

replay_from-append :
    (exclude : List ℕ) (blocks : List DeltaBlock) (b : DeltaBlock) (w : List ℤ)
    → replay_from exclude (blocks ++ b ∷ []) w
      ≡ transition (kept exclude b.deltas_int b.miner_ids) (replay_from exclude blocks w)
unfolding replay_from
replay_from-append exclude [] b w = refl
replay_from-append exclude (c ∷ blocks) b w =
    replay_from-append exclude blocks b (transition (kept exclude c.deltas_int c.miner_ids) w)

module _ (p : Platform) where
  replay-apply_block :
      (deltas : List (List ℤ)) (ids : List ℕ) (c : Chain)
      → length deltas ≤ length ids
      → replay [] c ≡ c.w_int
      → replay [] (apply_block p deltas ids c) ≡ (apply_block p deltas ids c).w_int
  unfolding replay apply_block
  replay-apply_block deltas ids c h e =
      replay_from-append [] c.blocks _ c.genesis_int
      ∙ ap (λ ds. transition ds (replay_from [] c.blocks c.genesis_int)) (kept-nobody deltas ids h)
      ∙ ap (transition deltas) e

  replay-apply_from :
      (blocks : List (List (List ℤ) × List ℕ)) (c : Chain)
      → All HasMiners blocks
      → replay [] c ≡ c.w_int
      → replay [] (apply_all p blocks c) ≡ (apply_all p blocks c).w_int
  unfolding apply_all
  replay-apply_from [] c h e = e
  replay-apply_from ((deltas, ids) ∷ blocks) c h e =
      replay-apply_from blocks (apply_block p deltas ids c) h.1
        (replay-apply_block deltas ids c h.0 e)

  -- Where every delta has a miner, replaying the blocks that a new chain has applied, with nobody
  -- excluded, gives the weights that the chain holds.
  pub replay-apply_all :
      (w0 : List ℤ) (blocks : List (List (List ℤ) × List ℕ))
      → All HasMiners blocks
      → let c = apply_all p blocks (new_chain w0) in replay [] c ≡ c.w_int
  replay-apply_all w0 blocks h =
      replay-apply_from blocks (new_chain w0) h (unfold replay in unfold replay_from in refl)
