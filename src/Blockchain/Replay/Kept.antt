-- ===== src/Blockchain/Replay/Kept.antt =====
-- The invariant behind the replay: each block's weights and model state come from its parent's.
use sestrian.Base.{
  ℕ, ◌+◌, max, ◌≡◌, ◌≢◌, inl, inr, Option, none, some, List, Bool-cases, Option-cases,
}
use sestrian.Base.Int.{ℤ}
use sestrian.Base.Dict.{Dict, lookup, get_or, put}
use sestrian.Platform.{Platform}
use sestrian.Token.Types.{TokenLedger}
use sestrian.ModelState.{ModelState, GenesisParams}
use sestrian.Blockchain.Types.{Block, Verdict-cases}
use sestrian.Blockchain.Ledger.{apply_ledger}
use sestrian.Blockchain.Checks.{Mode}
use sestrian.Blockchain.Tree.{
  Tree, mode_of, prune_deep, prune_to, beats, choose_head, attach_ledger, attach_legacy,
}
use sestrian.Blockchain.Replay.{advance, start_mode}

-- The model state of a block.
abbrev pub model_in : Option GenesisParams → Dict (Option ModelState) → ℕ → Mode
model_in params model k = mode_of params (get_or k none model)

-- Validation of a block led from its parent's weights and model state to its own.
abbrev pub IsStep : Platform → Tree → ℕ → Block → Type 0
IsStep p t k b =
    (w : List ℤ) × (w' : List ℤ) × (lookup b.header.prev_hash t.state ≡ some w)
    × (lookup k t.state ≡ some w')
    × (advance p (model_in t.params t.model b.header.prev_hash) w b
        ≡ some (model_in t.params t.model k, w'))

pub record IsKept (p : Platform) (t : Tree) : Type 0 where
  pub whole : t.prune_depth ≡ none
  pub first : lookup t.genesis_hash t.state ≡ some t.genesis_w
  pub started : model_in t.params t.model t.genesis_hash ≡ start_mode t.params
  pub stepped :
      (k : ℕ) (b : Block) → lookup k t.blocks ≡ some b → k ≢ t.genesis_hash → IsStep p t k b

module _ (p : Platform) where
  -- The invariant does not read the ledgers, the work and the head.
  IsKept-head :
      (t : Tree) (ledger : Dict TokenLedger) (work : Dict ℕ) (head : ℕ)
      → IsKept p t
      → IsKept p (record t { ledger = ledger; cum_work = work; head = head })
  IsKept-head t ledger work head s = record {
    whole = s.whole;
    first = s.first;
    started = s.started;
    stepped = s.stepped;
  }

  prune_to-IsKept :
      (depth : Option ℕ) (t : Tree) → depth ≡ none → IsKept p t → IsKept p (prune_to depth t)
  unfolding prune_to
  prune_to-IsKept none t whole s = s
  prune_to-IsKept (some depth) t whole s = cc whole

  prune_deep-IsKept : (t : Tree) → IsKept p t → IsKept p (prune_deep t)
  unfolding prune_deep
  prune_deep-IsKept t s = prune_to-IsKept t.prune_depth t s.whole s

  choose_head-IsKept :
      (hash : ℕ) (b : Block) (work : ℕ) (t : Tree)
      → IsKept p t
      → IsKept p (choose_head p hash b work t).0
  unfolding choose_head
  choose_head-IsKept hash b below t s =
      let work = below + max 1 b.header.work in
      let t' : Tree = record t { cum_work = put hash work t.cum_work } in
      elim (Bool-cases (beats p hash work t')) [
        | inl wins ↦ rw wins (prune_deep-IsKept _ (IsKept-head t _ _ _ s))
        | inr loses ↦ rw loses (prune_deep-IsKept _ (IsKept-head t _ _ _ s))
      ]

  pub attach_ledger-IsKept :
      (hash : ℕ) (b : Block) (led : TokenLedger) (t : Tree)
      → IsKept p t
      → IsKept p (attach_ledger p hash b led t).0
  unfolding attach_ledger
  attach_ledger-IsKept hash b led t s = elim (Option-cases (lookup b.header.prev_hash t.cum_work)) [
    | inl missing ↦ rw (missing, attach_ledger) (IsKept-head t _ _ _ s)
    | inr (work, found) ↦
        rw (found, attach_ledger) (choose_head-IsKept hash b work _ (IsKept-head t _ _ _ s))
  ]

  pub attach_legacy-IsKept :
      (hash : ℕ) (b : Block) (jurors : List ℕ) (t : Tree)
      → IsKept p t
      → IsKept p (attach_legacy p hash b jurors t).0
  unfolding attach_legacy
  attach_legacy-IsKept hash b jurors t s =
      elim (Option-cases (lookup b.header.prev_hash t.ledger)) [
        | inl missing ↦ rw (missing, attach_legacy) s
        | inr (parent, found) ↦
            elim (Verdict-cases (apply_ledger p parent b t.data_contributor jurors)) [
              | inl (led, ran) ↦
                  rw (found, ran, attach_legacy) (attach_ledger-IsKept hash b led t s)
              | inr (e, refused) ↦ rw (found, refused, attach_legacy) s
            ]
      ]
