-- ===== src/Blockchain/Tree/Fork.antt =====
-- The choice of the head in `BlockTree.add_block` keeps the invariant of the tree.
use mathlib.Core.Path.{subst}
use sestrian.Base.{
  ℕ, ◌+◌, ◌≤◌, ◌≡◌, sym, ap, ◌∙◌, ◌≢◌, ◌⊎◌, inl, inr, true, false, none, some, Bool-cases, max,
  arith,
}
use sestrian.Base.Dict.{
  Dict, lookup, get_or, put, put-cases, lookup-put_ne, lookup-put_self, get_or-put,
}
use sestrian.Platform.{Platform}
use sestrian.Blockchain.Types.{Block}
use sestrian.Blockchain.Tree.{Tree, beats, choose_head}
use sestrian.Blockchain.Tree.Sound.{IsSound, IsWeighed, header_at, prune_deep-IsSound}

beats-le :
    (p : Platform) (hash work : ℕ) (t : Tree)
    → (beats p hash work t ≡ true → get_or t.head 0 t.cum_work ≤ work)
      × (beats p hash work t ≡ false → work ≤ get_or t.head 0 t.cum_work)
unfolding beats
beats-le p hash work t = ground arith

-- The work of the head after another chain's work is entered.
get_or-put_other : (i k v : ℕ) (d : Dict ℕ) → k ≢ i → get_or i 0 (put k v d) ≡ get_or i 0 d
get_or-put_other i k v d h = ground (arith, get_or-put i k 0 v d)

-- The work of a block above a weighed parent, entered under a new hash.
put_work-IsWeighed :
    (t : Tree) (hash : ℕ) (b : Block) (parent_work : ℕ)
    → header_at hash t.blocks ≡ some b.header
    → hash ≢ t.genesis_hash
    → lookup hash t.cum_work ≡ none
    → lookup b.header.prev_hash t.cum_work ≡ some parent_work
    → IsSound t
    → let works = put hash (parent_work + max 1 b.header.work) t.cum_work in
      (k w : ℕ) → lookup k works ≡ some w → IsWeighed t.genesis_hash t.blocks works k w
put_work-IsWeighed t hash b parent_work known above fresh below s k w e =
    let work = parent_work + max 1 b.header.work in
    elim (put-cases k hash work t.cum_work e) [
      | inl (same, new) ↦
          subst (λ j. IsWeighed t.genesis_hash t.blocks works j w) (sym same)
            (inr (above, (b.header, parent_work, known, kept _ _ below, sym new)))
      | inr (other, old) ↦ reweigh (s.weighed k w old)
    ]
  where
    works : Dict ℕ
    works = put hash (parent_work + max 1 b.header.work) t.cum_work

    kept : (j v : ℕ) → lookup j t.cum_work ≡ some v → lookup j works ≡ some v
    kept j v found =
        lookup-put_ne j hash _ t.cum_work
          (λ same. cc (found, ap (λ i. lookup i t.cum_work) same, fresh))
        ∙ found

    reweigh :
        IsWeighed t.genesis_hash t.blocks t.cum_work k w
        → IsWeighed t.genesis_hash t.blocks works k w
    reweigh (inl first) = inl first
    reweigh (inr (later, (h, pw, at, under, sum))) =
        inr (later, (h, pw, at, kept h.prev_hash pw under, sum))

-- The choice of the head keeps it the heaviest.
pub choose_head-IsSound :
    (p : Platform) (hash : ℕ) (b : Block) (parent_work : ℕ) (t : Tree)
    → header_at hash t.blocks ≡ some b.header
    → hash ≢ t.genesis_hash
    → lookup hash t.cum_work ≡ none
    → lookup b.header.prev_hash t.cum_work ≡ some parent_work
    → hash ≢ t.head
    → IsSound t
    → IsSound (choose_head p hash b parent_work t).0
unfolding choose_head
choose_head-IsSound p hash b parent_work t known above fresh below differs s =
    let work = parent_work + max 1 b.header.work in
    let t' : Tree = record t { cum_work = put hash work t.cum_work } in
    elim (Bool-cases (beats p hash work t')) [
      | inl wins ↦ rw wins (
          prune_deep-IsSound _ (record {
            founded = s.founded;
            rooted = (b.header, known);
            linked = s.linked;
            capped = s.capped;
            weighed = put_work-IsWeighed t hash b parent_work known above fresh below s;
            top_weighed = (work, lookup-put_self hash work t.cum_work);
            heaviest = λ k w e.
                won k w (put-cases k hash work t.cum_work e) ((beats-le p hash work t').0 wins);
          }))
      | inr loses ↦ rw loses (
          prune_deep-IsSound _ (record {
            founded = s.founded;
            rooted = s.rooted;
            linked = s.linked;
            capped = s.capped;
            weighed = put_work-IsWeighed t hash b parent_work known above fresh below s;
            top_weighed = (
              s.top_weighed.0,
              lookup-put_ne t.head hash work t.cum_work (λ e. differs (sym e)) ∙ s.top_weighed.1,
            );
            heaviest = λ k w e.
                lost k w (put-cases k hash work t.cum_work e) ((beats-le p hash work t').1 loses);
          }))
    ]
  where
    won :
        (k w : ℕ)
        → ((k ≡ hash) × (parent_work + max 1 b.header.work ≡ w))
          ⊎ ((k ≢ hash) × (lookup k t.cum_work ≡ some w))
        → get_or t.head 0 (put hash (parent_work + max 1 b.header.work) t.cum_work)
          ≤ parent_work + max 1 b.header.work
        → w ≤ get_or hash 0 (put hash (parent_work + max 1 b.header.work) t.cum_work)
    won k w (inl (same, new)) le =
        ground (arith, get_or-put hash hash 0 (parent_work + max 1 b.header.work) t.cum_work)
    won k w (inr (other, old)) le = ground (
      arith,
      s.heaviest k w old,
      get_or-put hash hash 0 (parent_work + max 1 b.header.work) t.cum_work,
      get_or-put_other t.head hash (parent_work + max 1 b.header.work) t.cum_work differs,
    )

    lost :
        (k w : ℕ)
        → ((k ≡ hash) × (parent_work + max 1 b.header.work ≡ w))
          ⊎ ((k ≢ hash) × (lookup k t.cum_work ≡ some w))
        → parent_work + max 1 b.header.work
          ≤ get_or t.head 0 (put hash (parent_work + max 1 b.header.work) t.cum_work)
        → w ≤ get_or t.head 0 (put hash (parent_work + max 1 b.header.work) t.cum_work)
    lost k w (inl (same, new)) le = ground arith
    lost k w (inr (other, old)) le = ground (
      arith,
      s.heaviest k w old,
      get_or-put_other t.head hash (parent_work + max 1 b.header.work) t.cum_work differs,
    )
