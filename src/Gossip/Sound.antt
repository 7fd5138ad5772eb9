-- ===== src/Gossip/Sound.antt =====
-- The invariant of a node of rig/p2p.py, and that what it receives keeps it.
use sestrian.Base.{
  ℕ, zero, suc, ◌≡◌, refl, true, not, ◌||◌, List, [], ◌∷◌, ◌++◌, All, contains, ◌==◌, ==→eq,
  Bool-cases, inl, inr, arith,
}
use sestrian.Base.Int.{ℤ}
use sestrian.Base.Dict.{has, get_or, AllValues, AllValues-put, AllValues-remove}
use sestrian.Platform.{Platform}
use sestrian.Crypto.{BackpropTx, txid}
use sestrian.Crypto
use sestrian.Blockchain.Types.{Block, Verdict-cases}
use sestrian.Blockchain.Commit.{block_hash}
use sestrian.Blockchain.Tree.{Tree, add_block}
use sestrian.Blockchain.Tree.Sound.{IsSound}
use sestrian.Blockchain.Tree.Adds.{add_block-IsSound}
use sestrian.Blockchain.Tree.Grows.{add_block-grows, add_block-adds}
use sestrian.Gossip.{
  Node, Turn, Outcome, done, crashed, unfinished, ◌>>=◌, Error, no_parent, invalid_block, escapes,
  error_of, prune_txs, admit, recv_tx, on_error, file_orphan, with_tree, landed, recv_children,
  recv_block,
}
use sestrian.Gossip.Returns.{AreFiled, remove-AreFiled, get_or-AreFiled, put-AreFiled, append-All}

-- A delta of the mempool is signed, and its hash is that of its body.
abbrev pub IsPooled : Platform → BackpropTx × List ℤ → Type 0
IsPooled p entry =
    (Crypto.verify p entry.0 ≡ true) × (p.sha256 (p.tobytes entry.1) ≡ (entry.0).delta_hash)

abbrev pub AreInstalled : Tree → List ℕ → Type 0
AreInstalled t hashes = All (λ h. has h t.blocks ≡ true) hashes

pub record IsWell (p : Platform) (n : Node) : Type 0 where
  pub tree_sound : IsSound n.tree
  pub filed : AreFiled n.orphans
  pub pooled : AllValues (IsPooled p) n.mempool
  pub installed : AreInstalled n.tree n.seen_block

installed-grows :
    (t t' : Tree) (hashes : List ℕ)
    → ((k : ℕ) → has k t.blocks ≡ true → has k t'.blocks ≡ true)
    → AreInstalled t hashes
    → AreInstalled t' hashes
installed-grows t t' [] f h = tt
installed-grows t t' (k ∷ hashes) f h = (f k h.0, installed-grows t t' hashes f h.1)

module _ (p : Platform) where
  pub prune_txs-IsWell :
      (txs : List BackpropTx) (n : Node) → IsWell p n → IsWell p (prune_txs p txs n)
  unfolding prune_txs
  prune_txs-IsWell [] n s = s
  prune_txs-IsWell (tx ∷ txs) n s = prune_txs-IsWell txs _ (record {
    tree_sound = s.tree_sound;
    filed = s.filed;
    pooled = AllValues-remove (IsPooled p) (txid p tx) n.mempool s.pooled;
    installed = s.installed;
  })

  pub admit-IsWell :
      (tx : BackpropTx) (body : List ℤ) (t : Turn)
      → Crypto.verify p tx ≡ true
      → p.sha256 (p.tobytes body) ≡ tx.delta_hash
      → IsWell p t.node
      → IsWell p (admit p tx body t).node
  unfolding admit
  admit-IsWell tx body t signed hashed s = record {
    tree_sound = s.tree_sound;
    filed = s.filed;
    pooled =
        AllValues-put (IsPooled p) (txid p tx) (tx, body) t.node.mempool s.pooled (signed, hashed);
    installed = s.installed;
  }

  pub recv_tx-IsWell :
      (tx : BackpropTx) (body : List ℤ) (t : Turn)
      → IsWell p t.node
      → IsWell p (recv_tx p tx body t).node
  unfolding recv_tx
  recv_tx-IsWell tx body t s =
      elim (Bool-cases (contains (txid p tx) t.node.seen_tx || not (Crypto.verify p tx))) [
        | inl refused ↦ rw refused s
        | inr fresh ↦ elim (Bool-cases (p.sha256 (p.tobytes body) == tx.delta_hash)) [
          | inl hashed ↦
              rw (fresh, hashed)
                (admit-IsWell tx body t (ground (arith, fresh)) (==→eq _ tx.delta_hash hashed) s)
          | inr other ↦ rw (fresh, other) s
        ]
      ]

  -- The tree after a block is offered to it.
  pub with_tree-IsWell :
      (b : Block) (t : Turn)
      → IsWell p t.node
      → IsWell p (with_tree p (add_block p b t.node.tree).0 t).node
  with_tree-IsWell b t s = record {
    tree_sound = add_block-IsSound p b t.node.tree s.tree_sound;
    filed = s.filed;
    pooled = s.pooled;
    installed =
        installed-grows t.node.tree (add_block p b t.node.tree).0 t.node.seen_block
          (add_block-grows p b t.node.tree) s.installed;
  }

  abbrev pub Keeps : Outcome → Type 0
  Keeps (done t) = IsWell p t.node
  Keeps (crashed t) = IsWell p t.node
  Keeps unfinished = Unit

  pub bind-Keeps :
      (o : Outcome) (next : Turn → Outcome)
      → Keeps o
      → ((t : Turn) → IsWell p t.node → Keeps (next t))
      → Keeps (o >>= next)
  bind-Keeps (done t) next s f = f t s
  bind-Keeps (crashed t) next s f = s
  bind-Keeps unfinished next s f = s

  file_orphan-IsWell : (b : Block) (t : Turn) → IsWell p t.node → IsWell p (file_orphan p b t).node
  unfolding file_orphan
  file_orphan-IsWell b t s =
      let parent = b.header.prev_hash in
      let d = t.node.orphans in
      record {
        tree_sound = s.tree_sound;
        filed =
            put-AreFiled parent (get_or parent [] d ++ b ∷ []) d
              (append-All parent b (get_or parent [] d) (get_or-AreFiled parent d s.filed) refl)
              s.filed;
        pooled = s.pooled;
        installed = s.installed;
      }

  on_error-Keeps : (e : Error) (b : Block) (t : Turn) → IsWell p t.node → Keeps (on_error p e b t)
  unfolding on_error
  on_error-Keeps no_parent b t s = file_orphan-IsWell b t s
  on_error-Keeps invalid_block b t s = s
  on_error-Keeps escapes b t s = s

  landed-IsWell :
      (hash : ℕ) (b : Block) (t : Turn)
      → has hash t.node.tree.blocks ≡ true
      → IsWell p t.node
      → IsWell p (landed p hash b t).node
  unfolding landed
  landed-IsWell hash b t known s =
      let n : Node = record (t.node) { seen_block = hash ∷ t.node.seen_block } in
      let s' = prune_txs-IsWell b.txs n (record {
        tree_sound = s.tree_sound;
        filed = s.filed;
        pooled = s.pooled;
        installed = (known, s.installed);
      }) in
      record {
        tree_sound = s'.tree_sound;
        filed = remove-AreFiled hash (prune_txs p b.txs n).orphans s'.filed;
        pooled = s'.pooled;
        installed = s'.installed;
      }

  recv_children-Keeps :
      (recv : Block → Turn → Outcome) (blocks : List Block) (t : Turn)
      → ((b : Block) (u : Turn) → IsWell p u.node → Keeps (recv b u))
      → IsWell p t.node
      → Keeps (recv_children p recv blocks t)
  unfolding recv_children
  recv_children-Keeps recv [] t f s = s
  recv_children-Keeps recv (b ∷ blocks) t f s =
      bind-Keeps (recv b t) (recv_children p recv blocks) (f b t s)
        (λ t' s'. recv_children-Keeps recv blocks t' f s')

  pub recv_block-Keeps :
      (k : ℕ) (b : Block) (t : Turn) → IsWell p t.node → Keeps (recv_block p k b t)
  unfolding recv_block
  recv_block-Keeps zero b t s = tt
  recv_block-Keeps (suc k) b t s =
      let hash = block_hash p b.header in
      let u = with_tree p (add_block p b t.node.tree).0 t in
      elim (Bool-cases (contains hash t.node.seen_block)) [
        | inl old ↦ rw (old, recv_block) s
        | inr new ↦ elim (Verdict-cases (add_block p b t.node.tree).1) [
          | inl (became_head, accepted) ↦
              rw (new, recv_block, accepted)
                (recv_children-Keeps (recv_block p k) (get_or hash [] t.node.orphans)
                  (landed p hash b u) (recv_block-Keeps k)
                  (landed-IsWell hash b u (add_block-adds p b t.node.tree became_head accepted)
                    (with_tree-IsWell b t s)))
          | inr (e, refused) ↦
              rw (new, recv_block, refused)
                (on_error-Keeps (error_of e) b u (with_tree-IsWell b t s))
        ]
      ]
