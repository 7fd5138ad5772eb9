-- ===== src/Gossip/Returns.antt =====
-- `recv_block` of rig/p2p.py comes back: each turn of its recursion takes orphans out of the buffer.
use mathlib.Core.Path.{subst}
use sestrian.Base.{
  ℕ, ◌≤◌, ◌≡◌, ◌⊎◌, refl, sym, true, List, [], ◌∷◌, ◌++◌, All, length, ◌==◌, ==→eq, Bool-cases, inl,
  inr,
}
use sestrian.Base.Dict.{Dict, has, get_or, put, remove, sum_by}
use sestrian.Platform.{Platform}
use sestrian.Crypto.{BackpropTx}
use sestrian.Blockchain.Types.{Block}
use sestrian.Blockchain.Tree.{Tree}
use sestrian.Gossip.{Node, Turn, Outcome, done, crashed, unfinished, prune_txs}

-- How many blocks wait for a parent.
abbrev pub waiting : Dict (List Block) → ℕ
waiting = sum_by length

abbrev pub HasParent : ℕ → Block → Type 0
HasParent parent b = b.header.prev_hash ≡ parent

-- Every block waits under its own parent's hash.
abbrev pub AreFiled : Dict (List Block) → Type 0
AreFiled orphans = All (λ (entry : ℕ × List Block). All (HasParent entry.0) entry.1) orphans

pub remove-AreFiled : (k : ℕ) (d : Dict (List Block)) → AreFiled d → AreFiled (remove k d)
remove-AreFiled k [] h = tt
remove-AreFiled k ((j, blocks) ∷ d) h = elim (Bool-cases (k == j)) [
  | inl here ↦ rw here h.1
  | inr other ↦ rw other (h.0, remove-AreFiled k d h.1)
]

pub get_or-AreFiled :
    (k : ℕ) (d : Dict (List Block)) → AreFiled d → All (HasParent k) (get_or k [] d)
get_or-AreFiled k [] h = tt
get_or-AreFiled k ((j, blocks) ∷ d) h = elim (Bool-cases (k == j)) [
  | inl here ↦ rw here (subst (λ i. All (HasParent i) blocks) (sym (==→eq k j here)) h.0)
  | inr other ↦ rw other (get_or-AreFiled k d h.1)
]

pub append-All :
    (parent : ℕ) (b : Block) (blocks : List Block)
    → All (HasParent parent) blocks
    → HasParent parent b
    → All (HasParent parent) (blocks ++ b ∷ [])
append-All parent b [] h e = (e, tt)
append-All parent b (c ∷ blocks) h e = (h.0, append-All parent b blocks h.1 e)

pub put-AreFiled :
    (k : ℕ) (blocks : List Block) (d : Dict (List Block))
    → All (HasParent k) blocks
    → AreFiled d
    → AreFiled (put k blocks d)
put-AreFiled k blocks [] h f = (h, tt)
put-AreFiled k blocks ((j, old) ∷ d) h f = elim (Bool-cases (k == j)) [
  | inl here ↦ rw here (subst (λ i. All (HasParent i) blocks) (==→eq k j here) h, f.1)
  | inr other ↦ rw other (f.0, put-AreFiled k blocks d h f.1)
]

module _ (p : Platform) where
  pub prune_txs-orphans :
      (txs : List BackpropTx) (n : Node) → (prune_txs p txs n).orphans ≡ n.orphans
  unfolding prune_txs
  prune_txs-orphans [] n = refl
  prune_txs-orphans (tx ∷ txs) n = prune_txs-orphans txs _

  pub prune_txs-tree : (txs : List BackpropTx) (n : Node) → (prune_txs p txs n).tree ≡ n.tree
  unfolding prune_txs
  prune_txs-tree [] n = refl
  prune_txs-tree (tx ∷ txs) n = prune_txs-tree txs _

  -- What a handler that returns does to the buffer: it stays in order and does not grow, and the
  -- tree forgets no block.
  record IsAfter (t t' : Turn) : Type 0 where
    filed : AreFiled t'.node.orphans
    fewer : waiting t'.node.orphans ≤ waiting t.node.orphans
    grown : (k : ℕ) → has k t.node.tree.blocks ≡ true → has k t'.node.tree.blocks ≡ true

  abbrev Returns : Turn → Outcome → Type 0
  Returns t (done t') = IsAfter t t'
  Returns t (crashed t') = Unit
  Returns t unfinished = ⊥

  abbrev pub Ends : Outcome → Type 0
  Ends o = (t : Turn) × ((o ≡ done t) ⊎ (o ≡ crashed t))
