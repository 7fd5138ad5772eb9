-- ===== src/Blockchain/Tree/Sound.antt =====
-- The invariant of the tree of blocks: linked heights, capped ledgers and a heaviest head.
use mathlib.Core.Path.{subst}
use mathlib.Core.Option.{some-injective}
use sestrian.Base.{
  ℕ, suc, ◌+◌, ◌≤◌, ◌≡◌, refl, sym, ap, ◌∙◌, ◌≢◌, ◌⊎◌, inl, inr, Option, none, some, List, [], ◌∷◌,
  ◌==◌, ==→eq, Bool-cases, max,
}
use sestrian.Base.Int.{ℤ}
use sestrian.Base.Dict.{Dict, lookup, get_or, put, put-cases, lookup-put, lookup-put_ne}
use sestrian.ModelState.{ModelState}
use sestrian.Token.Types.{TokenLedger}
use sestrian.Token.Account.{holdings}
use sestrian.Token.Emission.Schedule.{total_emission}
use sestrian.Blockchain.Types.{Header, Block}
use sestrian.Blockchain.Tree.{Tree, is_deep, drop_bodies, prune_to, prune_deep}

abbrev pub header_of : Option Block → Option Header
header_of none = none
header_of (some b) = some b.header

-- The header of a known block.
abbrev pub header_at : ℕ → Dict Block → Option Header
header_at k blocks = header_of (lookup k blocks)

-- A block is the genesis block, of height 0, or its parent is known and one lower.
abbrev pub IsLinked : ℕ → Dict Block → ℕ → Header → Type 0
IsLinked genesis blocks k h =
    ((k ≡ genesis) × (h.height ≡ 0))
    ⊎ ((k ≢ genesis)
        × ((q : Header) × (header_at h.prev_hash blocks ≡ some q) × (h.height ≡ suc q.height)))

-- A ledger belongs to a known block, and holds at most what is emitted up to the block's height.
abbrev pub IsCapped : Dict Block → ℕ → TokenLedger → Type 0
IsCapped blocks k led =
    (h : Header) × (header_at k blocks ≡ some h) × (holdings led ≤ total_emission h.height)

-- The work of a chain is 0 at the genesis block, and above it the parent's and the block's own.
abbrev pub IsWeighed : ℕ → Dict Block → Dict ℕ → ℕ → ℕ → Type 0
IsWeighed genesis blocks cum_work k w =
    ((k ≡ genesis) × (w ≡ 0))
    ⊎ ((k ≢ genesis)
        × ((h : Header) × (pw : ℕ) × (header_at k blocks ≡ some h)
            × (lookup h.prev_hash cum_work ≡ some pw)
            × (w ≡ pw + max 1 h.work)))

pub record IsSound (t : Tree) : Type 0 where
  pub founded : (h : Header) × (header_at t.genesis_hash t.blocks ≡ some h)
  pub rooted : (h : Header) × (header_at t.head t.blocks ≡ some h)
  pub linked :
      (k : ℕ) (h : Header) → header_at k t.blocks ≡ some h → IsLinked t.genesis_hash t.blocks k h
  pub capped : (k : ℕ) (led : TokenLedger) → lookup k t.ledger ≡ some led → IsCapped t.blocks k led
  pub weighed :
      (k w : ℕ) → lookup k t.cum_work ≡ some w → IsWeighed t.genesis_hash t.blocks t.cum_work k w
  pub top_weighed : (w : ℕ) × (lookup t.head t.cum_work ≡ some w)
  pub heaviest : (k w : ℕ) → lookup k t.cum_work ≡ some w → w ≤ get_or t.head 0 t.cum_work

header_at-drop_bodies :
    (genesis depth top k : ℕ) (blocks : Dict Block)
    → header_at k (drop_bodies genesis depth top blocks) ≡ header_at k blocks
unfolding drop_bodies
header_at-drop_bodies genesis depth top k [] = refl
header_at-drop_bodies genesis depth top k ((bh, b) ∷ blocks) = elim (Bool-cases (k == bh)) [
  | inl same ↦ elim (Bool-cases (is_deep genesis depth top bh b)) [
    | inl deep ↦ rw (same, deep) refl
    | inr shallow ↦ rw (same, shallow) refl
  ]
  | inr other ↦ rw other (header_at-drop_bodies genesis depth top k blocks)
]

-- The invariant reads the blocks through their headers only.
IsSound-headers :
    (t : Tree) (state : Dict (List ℤ)) (blocks : Dict Block)
    → ((k : ℕ) → header_at k blocks ≡ header_at k t.blocks)
    → IsSound t
    → IsSound (record t { state = state; blocks = blocks })
IsSound-headers t state blocks same s = record {
  founded = (s.founded.0, same t.genesis_hash ∙ s.founded.1);
  rooted = (s.rooted.0, same t.head ∙ s.rooted.1);
  linked = λ k h e. relink k h (s.linked k h (sym (same k) ∙ e));
  capped = λ k led e. let (h, at, le) = s.capped k led e in (h, same k ∙ at, le);
  weighed = λ k w e. reweigh k w (s.weighed k w e);
  top_weighed = s.top_weighed;
  heaviest = s.heaviest;
}
  where
    reweigh :
        (k w : ℕ)
        → IsWeighed t.genesis_hash t.blocks t.cum_work k w
        → IsWeighed t.genesis_hash blocks t.cum_work k w
    reweigh k w (inl first) = inl first
    reweigh k w (inr (later, (h, pw, at, below, sum))) =
        inr (later, (h, pw, same k ∙ at, below, sum))

    relink :
        (k : ℕ) (h : Header)
        → IsLinked t.genesis_hash t.blocks k h
        → IsLinked t.genesis_hash blocks k h
    relink k h (inl first) = inl first
    relink k h (inr (later, (q, at, up))) = inr (later, (q, same h.prev_hash ∙ at, up))

prune_to-IsSound : (depth : Option ℕ) (t : Tree) → IsSound t → IsSound (prune_to depth t)
unfolding prune_to
prune_to-IsSound none t s = s
prune_to-IsSound (some depth) t s =
    IsSound-headers t _ _ (λ k. header_at-drop_bodies t.genesis_hash depth _ k t.blocks) s

pub prune_deep-IsSound : (t : Tree) → IsSound t → IsSound (prune_deep t)
unfolding prune_deep
prune_deep-IsSound t s = prune_to-IsSound t.prune_depth t s

header_at-put_cases :
    (i k : ℕ) (b : Block) (blocks : Dict Block) (h : Header)
    → header_at i (put k b blocks) ≡ some h
    → ((i ≡ k) × (b.header ≡ h)) ⊎ (header_at i blocks ≡ some h)
header_at-put_cases i k b blocks h e = elim (Bool-cases (i == k)) [
  | inl same ↦
      let found = rw same at (lookup-put i k b blocks) in
      inl (==→eq i k same, some-injective b.header h (sym (ap header_of found) ∙ e))
  | inr other ↦
      let kept = rw other at (lookup-put i k b blocks) in inr (sym (ap header_of kept) ∙ e)
]

pub header_at-put_old :
    (blocks : Dict Block) (i k : ℕ) (b : Block)
    → k ≢ i
    → header_at i (put k b blocks) ≡ header_at i blocks
header_at-put_old blocks i k b differs =
    ap header_of (lookup-put_ne i k b blocks (λ e. differs (sym e)))

-- A new block whose parent is known, one lower, keeps the invariant.
pub put_block-IsSound :
    (t : Tree) (hash : ℕ) (b : Block) (parent : Header) (state : Dict (List ℤ))
    (model : Dict (Option ModelState))
    → lookup hash t.blocks ≡ none
    → header_at b.header.prev_hash t.blocks ≡ some parent
    → b.header.height ≡ suc parent.height
    → IsSound t
    → IsSound (record t { blocks = put hash b t.blocks; state = state; model = model })
put_block-IsSound t hash b parent state model fresh at up s = record {
  founded = (s.founded.0, kept t.genesis_hash s.founded.0 s.founded.1);
  rooted = (s.rooted.0, kept t.head s.rooted.0 s.rooted.1);
  linked = λ k h e. link k h (header_at-put_cases k hash b t.blocks h e);
  capped = λ k led e. let (h, known, le) = s.capped k led e in (h, kept k h known, le);
  weighed = λ k w e. reweigh k w (s.weighed k w e);
  top_weighed = s.top_weighed;
  heaviest = s.heaviest;
}
  where
    differs : (k : ℕ) (h : Header) → header_at k t.blocks ≡ some h → k ≢ hash
    differs k h e same = cc (e, ap (λ j. header_at j t.blocks) same, ap header_of fresh)

    kept :
        (k : ℕ) (h : Header)
        → header_at k t.blocks ≡ some h
        → header_at k (put hash b t.blocks) ≡ some h
    kept k h e = ap header_of (lookup-put_ne k hash b t.blocks (differs k h e)) ∙ e

    relink :
        (k : ℕ) (h : Header)
        → IsLinked t.genesis_hash t.blocks k h
        → IsLinked t.genesis_hash (put hash b t.blocks) k h
    relink k h (inl first) = inl first
    relink k h (inr (later, (q, known, one))) = inr (later, (q, kept h.prev_hash q known, one))

    reweigh :
        (k w : ℕ)
        → IsWeighed t.genesis_hash t.blocks t.cum_work k w
        → IsWeighed t.genesis_hash (put hash b t.blocks) t.cum_work k w
    reweigh k w (inl first) = inl first
    reweigh k w (inr (later, (h, pw, known, below, sum))) =
        inr (later, (h, pw, kept k h known, below, sum))

    link :
        (k : ℕ) (h : Header)
        → ((k ≡ hash) × (b.header ≡ h)) ⊎ (header_at k t.blocks ≡ some h)
        → IsLinked t.genesis_hash (put hash b t.blocks) k h
    link k h (inl (same, new)) = subst (IsLinked t.genesis_hash (put hash b t.blocks) k) new (
        inr (
          (λ e. differs t.genesis_hash s.founded.0 s.founded.1 (sym e ∙ same)),
          (parent, kept b.header.prev_hash parent at, up),
        ))
    link k h (inr old) = relink k h (s.linked k h old)

-- A ledger within the cap of its block.
pub put_ledger-IsSound :
    (t : Tree) (hash : ℕ) (led : TokenLedger)
    → IsCapped t.blocks hash led
    → IsSound t
    → IsSound (record t { ledger = put hash led t.ledger })
put_ledger-IsSound t hash led c s = record {
  founded = s.founded;
  rooted = s.rooted;
  linked = s.linked;
  capped = λ k l e. elim (put-cases k hash led t.ledger e) [
    | inl (same, new) ↦
        subst (IsCapped t.blocks k) new (subst (λ j. IsCapped t.blocks j led) (sym same) c)
    | inr (other, old) ↦ s.capped k l old
  ];
  weighed = s.weighed;
  top_weighed = s.top_weighed;
  heaviest = s.heaviest;
}
