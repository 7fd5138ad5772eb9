-- ===== src/Blockchain/Tree/Walk.antt =====
-- The walk of `chain_from_genesis` down the parents: the chain that it gives, and its work.
use mathlib.Core.Path.{subst}
use mathlib.Core.Option.{some-injective}
use sestrian.Base.{
  ℕ, zero, suc, ◌+◌, ◌≤◌, ◌≡◌, refl, sym, ap, ◌∙◌, ◌≢◌, inl, inr, true, false, some, List, [], ◌∷◌,
  ◌++◌, ◌==◌, max, Option-cases, arith, length, length-append,
}
use sestrian.Base.Dict.{Dict, lookup}
use sestrian.Blockchain.Types.{Header, Block}
use sestrian.Blockchain.Tree.{Tree, chain_down, chain_from_genesis, height_of, reversed}
use sestrian.Blockchain.Tree.Sound.{IsSound, header_at, header_of}

-- A chain that leads up from one hash to another, in the tree: each block is known by the hash of the
-- next one's parent, and each is one higher than the one before, the first above the given height.
abbrev pub Climbs : Tree → ℕ → ℕ → List Block → ℕ → Type 0
Climbs t height below [] tip = below ≡ tip
Climbs t height below (b ∷ chain) tip =
    (k : ℕ) × (lookup k t.blocks ≡ some b)
    × (b.header.prev_hash ≡ below)
    × (b.header.height ≡ suc height)
    × Climbs t (suc height) k chain tip

-- The work of a chain: each block adds its own, and at least 1.
unfoldable pub chain_work : List Block → ℕ
chain_work [] = 0
chain_work (b ∷ chain) = max 1 b.header.work + chain_work chain

pub ==-refl : (a b : ℕ) → a ≡ b → (a == b) ≡ true
==-refl a b h = ground arith

pub ==-other : (a b : ℕ) → a ≢ b → (a == b) ≡ false
==-other a b h = ground arith

-- The block behind a known header.
pub known-block :
    (k : ℕ) (blocks : Dict Block) (h : Header)
    → header_at k blocks ≡ some h
    → (b : Block) × (lookup k blocks ≡ some b) × (b.header ≡ h)
known-block k blocks h e = elim (Option-cases (lookup k blocks)) [
  | inl missing ↦ cc (e, ap header_of missing)
  | inr (b, found) ↦ (b, found, some-injective b.header h (sym (ap header_of found) ∙ e))
]

length-reversed : (bs : List Block) → length (reversed bs) ≡ length bs
length-reversed [] = refl
length-reversed (b ∷ bs) = omega (arith, length-append (reversed bs) (b ∷ []), length-reversed bs)

chain_work-append :
    (chain : List Block) (b : Block)
    → chain_work (chain ++ b ∷ []) ≡ chain_work chain + max 1 b.header.work
unfolding chain_work
chain_work-append [] b = omega arith
chain_work-append (c ∷ chain) b = omega (arith, chain_work-append chain b)

append-Climbs :
    (t : Tree) (n below : ℕ) (chain : List Block) (tip k : ℕ) (b : Block)
    → Climbs t n below chain tip
    → lookup k t.blocks ≡ some b
    → b.header.prev_hash ≡ tip
    → b.header.height ≡ suc (n + length chain)
    → Climbs t n below (chain ++ b ∷ []) k
append-Climbs t n below [] tip k b c found up high =
    (k, found, up ∙ sym c, omega (arith, high), refl)
append-Climbs t n below (a ∷ chain) tip k b (j, at, under, level, rest) found up high = (
  j,
  at,
  under,
  level,
  append-Climbs t (suc n) j chain tip k b rest found up (omega (arith, high)),
)

module _ (t : Tree) (s : IsSound t) where
  -- The work that the tree keeps for a hash is that of the chain.
  abbrev WeighsAs : ℕ → List Block → Type 0
  WeighsAs k chain = (w : ℕ) → lookup k t.cum_work ≡ some w → w ≡ chain_work chain

  genesis-WeighsAs : WeighsAs t.genesis_hash []
  unfolding chain_work
  genesis-WeighsAs w e = elim (s.weighed t.genesis_hash w e) [
    | inl (first, nothing) ↦ nothing
    | inr (later, above) ↦ absurd (later refl)
  ]

  above-WeighsAs :
      (k : ℕ) (b : Block) (chain : List Block)
      → lookup k t.blocks ≡ some b
      → k ≢ t.genesis_hash
      → WeighsAs b.header.prev_hash chain
      → WeighsAs k (chain ++ b ∷ [])
  above-WeighsAs k b chain found later below w e = elim (s.weighed k w e) [
    | inl (first, nothing) ↦ absurd (later first)
    | inr (above, (h, pw, at, under, sum)) ↦
        let same : h ≡ b.header = some-injective h b.header (sym at ∙ ap header_of found) in
        let pw_at =
          below pw (subst (λ (q : Header). lookup q.prev_hash t.cum_work ≡ some pw) same under) in
        omega (arith, sum, ap (λ (q : Header). max 1 q.work) same, pw_at, chain_work-append chain b)
  ]

  -- What a walk with the height as fuel comes to.
  abbrev Walks : ℕ → ℕ → Header → Type 0
  Walks n k h =
      (down : List Block) × (chain_down n k t ≡ some down)
      × (length down ≡ h.height)
      × Climbs t 0 t.genesis_hash (reversed down) k
      × WeighsAs k (reversed down)

  chain_down-total :
      (n k : ℕ) (h : Header) → header_at k t.blocks ≡ some h → h.height ≤ n → Walks n k h
  unfolding chain_down
  chain_down-total zero k h e le = elim (s.linked k h e) [
    | inl (first, none_below) ↦ (
      [],
      rw first (ground arith),
      omega (arith, none_below),
      sym first,
      subst (λ j. WeighsAs j []) (sym first) genesis-WeighsAs,
    )
    | inr (later, (q, known, up)) ↦ absurd (omega (arith, up, le))
  ]
  chain_down-total (suc n) k h e le = elim (s.linked k h e) [
    | inl (first, none_below) ↦ (
      [],
      rw (==-refl k t.genesis_hash first, chain_down) refl,
      omega (arith, none_below),
      sym first,
      subst (λ j. WeighsAs j []) (sym first) genesis-WeighsAs,
    )
    | inr (later, (q, known, up)) ↦
        let (b, found, same) = known-block k t.blocks h e in
        let (down, walked, long, climbs, weighs) =
          chain_down-total n b.header.prev_hash q
            (ap (λ (r : Header). header_at r.prev_hash t.blocks) same ∙ known)
            (omega (arith, up, le)) in
        (
          b ∷ down,
          rw (==-other k t.genesis_hash later, found, walked, chain_down) refl,
          omega (arith, long, up),
          append-Climbs t 0 t.genesis_hash (reversed down) b.header.prev_hash k b climbs found refl
              (omega (arith, ap (λ (r : Header). r.height) same, up, long, length-reversed down)),
          above-WeighsAs k b (reversed down) found later weighs,
        )
  ]

  -- Below each known block there is its chain.
  pub known-chain :
      (k : ℕ) (h : Header)
      → header_at k t.blocks ≡ some h
      → (chain : List Block) × (chain_from_genesis k t ≡ some chain)
        × (length chain ≡ h.height)
        × Climbs t 0 t.genesis_hash chain k
        × WeighsAs k chain
  unfolding chain_from_genesis
  known-chain k h e =
      let (b, found, same) = known-block k t.blocks h e in
      let (down, walked, long, climbs, weighs) =
        chain_down-total (height_of (lookup k t.blocks)) k h e
          (omega (arith, ap height_of found, ap (λ (r : Header). r.height) same)) in
      (
        reversed down,
        rw (walked, chain_from_genesis) refl,
        length-reversed down ∙ long,
        climbs,
        weighs,
      )

  -- Each hash that has a work is known.
  pub weighed-known :
      (k w : ℕ) → lookup k t.cum_work ≡ some w → (h : Header) × (header_at k t.blocks ≡ some h)
  weighed-known k w e = elim (s.weighed k w e) [
    | inl (first, nothing) ↦ (s.founded.0, ap (λ j. header_at j t.blocks) first ∙ s.founded.1)
    | inr (later, (h, pw, at, under, sum)) ↦ (h, at)
  ]
