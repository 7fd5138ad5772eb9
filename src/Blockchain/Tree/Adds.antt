-- ===== src/Blockchain/Tree/Adds.antt =====
-- `add_block` keeps the invariant of the tree, whatever block it is offered.
use mathlib.Core.Path.{subst}
use mathlib.Core.Option.{some-injective}
use sestrian.Base.{
  ℕ, suc, ◌+◌, ◌≤◌, ◌≡◌, refl, sym, ap, ◌∙◌, ◌≢◌, inl, inr, Option, none, some, List, Bool-cases,
  Option-cases, arith,
}
use sestrian.Base.Int.{ℤ, IsNonneg}
use sestrian.Base.Dict.{Dict, lookup, has, put, AllValues, lookup-put_self, has-lookup}
use sestrian.Platform.{Platform}
use sestrian.Token.Types.{TokenLedger}
use sestrian.Token.Account.{holdings}
use sestrian.Token.Emission.{emission}
use sestrian.Token.Emission.Schedule.{total_emission}
use sestrian.Blockchain.Types.{Header, Block, valid, Verdict-cases}
use sestrian.Blockchain.Ledger.{apply_ledger}
use sestrian.Blockchain.Supply.{apply_ledger-le}
use sestrian.Blockchain.Commit.{block_hash}
use sestrian.Blockchain.Validate.{Post, validate_block, ledger_block}
use sestrian.Blockchain.Accepted.{
  validate_block-parts, check_header-facts, check_commitments-facts, ledger_block-facts,
}
use sestrian.Blockchain.Tree.{
  Tree, mode_at, recent_proposers, attach_ledger, attach_legacy, attach, parent_ledger, add_child,
  add_block,
}
use sestrian.Blockchain.Tree.Sound.{
  IsSound, IsCapped, header_at, header_of, header_at-put_old, put_block-IsSound, put_ledger-IsSound,
}
use sestrian.Blockchain.Tree.Fork.{choose_head-IsSound}

-- A ledger that `apply_ledger` makes of the parent's capped one is capped.
child-IsCapped :
    (p : Platform) (blocks : Dict Block) (hash : ℕ) (block : Block) (q : Header)
    (parent led : TokenLedger) (contributor : Option ℕ) (jurors : List ℕ)
    → header_at hash blocks ≡ some block.header
    → header_at block.header.prev_hash blocks ≡ some q
    → block.header.height ≡ suc q.height
    → AllValues IsNonneg block.scores
    → IsCapped blocks block.header.prev_hash parent
    → apply_ledger p parent block contributor jurors ≡ valid led
    → IsCapped blocks hash led
child-IsCapped p blocks hash block q parent led contributor jurors known at up scores (h, at', le)
      ran =
    let same : h ≡ q = some-injective h q (sym at' ∙ at) in
    let le' : holdings parent ≤ total_emission q.height =
      subst (λ (r : Header). holdings parent ≤ total_emission r.height) same le in
    let step = apply_ledger-le p parent block contributor jurors scores ran in
    (
      block.header,
      known,
      subst (λ n. holdings led ≤ total_emission n) (sym up)
          (unfold total_emission in
            omega (arith, le', subst (λ n. holdings led ≤ holdings parent + emission n) up step)),
    )

module _ (p : Platform) (hash : ℕ) (block : Block) where
  attach_ledger-IsSound :
      (led : TokenLedger) (t : Tree)
      → IsCapped t.blocks hash led
      → header_at hash t.blocks ≡ some block.header
      → hash ≢ t.genesis_hash
      → lookup hash t.cum_work ≡ none
      → hash ≢ t.head
      → IsSound t
      → IsSound (attach_ledger p hash block led t).0
  unfolding attach_ledger
  attach_ledger-IsSound led t c known above unweighed differs s =
      let s' = put_ledger-IsSound t hash led c s in
      elim (Option-cases (lookup block.header.prev_hash t.cum_work)) [
        | inl missing ↦ rw (missing, attach_ledger) s'
        | inr (work, found) ↦
            rw (found, attach_ledger)
              (choose_head-IsSound p hash block work _ known above unweighed found differs s')
      ]

  -- From here on the block is in the tree, above its parent.
  module _ (t : Tree) (q : Header) (known : header_at hash t.blocks ≡ some block.header)
      (at : header_at block.header.prev_hash t.blocks ≡ some q)
      (up : block.header.height ≡ suc q.height) (scores : AllValues IsNonneg block.scores)
      (above : hash ≢ t.genesis_hash) (unweighed : lookup hash t.cum_work ≡ none)
      (differs : hash ≢ t.head) (s : IsSound t) where
    attach_legacy-IsSound : (jurors : List ℕ) → IsSound (attach_legacy p hash block jurors t).0
    unfolding attach_legacy
    attach_legacy-IsSound jurors = elim (Option-cases (lookup block.header.prev_hash t.ledger)) [
      | inl missing ↦ rw (missing, attach_legacy) s
      | inr (parent, found) ↦
          elim (Verdict-cases (apply_ledger p parent block t.data_contributor jurors)) [
            | inl (led, ran) ↦
                rw (found, ran, attach_legacy)
                  (attach_ledger-IsSound led t
                    (child-IsCapped p t.blocks hash block q parent led t.data_contributor jurors
                      known at up scores (s.capped block.header.prev_hash parent found) ran)
                    known above unweighed differs s)
            | inr (e, refused) ↦ rw (found, refused, attach_legacy) s
          ]
    ]

parent_ledger-found :
    (p : Platform) (h : Header) (t : Tree) {led : TokenLedger}
    → parent_ledger p h t ≡ some led
    → lookup h.prev_hash t.ledger ≡ some led
unfolding parent_ledger
parent_ledger-found p h t e = ground arith

module _ (p : Platform) (hash : ℕ) (block : Block) (t : Tree) (q : Header) (jurors : List ℕ)
    (fresh : lookup hash t.blocks ≡ none) (at : header_at block.header.prev_hash t.blocks ≡ some q)
    (up : block.header.height ≡ suc q.height) (scores : AllValues IsNonneg block.scores)
    (s : IsSound t) where
  unknown : (k : ℕ) (h : Header) → header_at k t.blocks ≡ some h → hash ≢ k
  unknown k h e same = cc (e, ap (λ j. header_at j t.blocks) same, ap header_of fresh)

  -- A block that is not in the tree has no work there.
  unweighed : lookup hash t.cum_work ≡ none
  unweighed = elim (Option-cases (lookup hash t.cum_work)) [
    | inl missing ↦ missing
    | inr (w, found) ↦ elim (s.weighed hash w found) [
      | inl (first, nothing) ↦ absurd (unknown t.genesis_hash s.founded.0 s.founded.1 first)
      | inr (later, (h, pw, known, below, sum)) ↦ absurd (unknown hash h known refl)
    ]
  ]

  -- The ledger that validation made of the parent's.
  validated-IsCapped :
      (blocks : Dict Block) (parent : Option TokenLedger) (led : TokenLedger)
      → header_at hash blocks ≡ some block.header
      → header_at block.header.prev_hash blocks ≡ some q
      → ((l : TokenLedger) → parent ≡ some l → IsCapped blocks block.header.prev_hash l)
      → ledger_block p parent block t.data_contributor jurors ≡ valid (some led)
      → IsCapped blocks hash led
  validated-IsCapped blocks none led known at' c e = unfold ledger_block in cc e
  validated-IsCapped blocks (some l) led known at' c e =
      child-IsCapped p blocks hash block q l led t.data_contributor jurors known at' up scores
        (c l refl) (ledger_block-facts p block l t.data_contributor jurors e).0

  attach-IsSound :
      (post : Post)
      → ledger_block p (parent_ledger p block.header t) block t.data_contributor jurors
        ≡ valid post.ledger
      → IsSound (attach p hash block jurors post t).0
  unfolding attach
  attach-IsSound post e =
      let t' : Tree = record t {
        blocks = put hash block t.blocks;
        state = put hash post.w t.state;
        model = put hash post.model t.model;
      } in
      let s' : IsSound t' = put_block-IsSound t hash block q _ _ fresh at up s in
      let known : header_at hash t'.blocks ≡ some block.header =
        ap header_of (lookup-put_self hash block t.blocks) in
      let at' : header_at block.header.prev_hash t'.blocks ≡ some q =
        header_at-put_old t.blocks block.header.prev_hash hash block
          (unknown block.header.prev_hash q at)
        ∙ at in
      let differs : hash ≢ t.head = unknown t.head s.rooted.0 s.rooted.1 in
      let above : hash ≢ t.genesis_hash = unknown t.genesis_hash s.founded.0 s.founded.1 in
      elim (Option-cases post.ledger) [
        | inl legacy ↦
            rw (legacy, attach)
              (attach_legacy-IsSound p hash block t' q known at' up scores above unweighed differs
                s' jurors)
        | inr (led, made) ↦
            rw (made, attach)
              (attach_ledger-IsSound p hash block led t'
                (validated-IsCapped t'.blocks (parent_ledger p block.header t) led known at'
                  (λ l found.
                    s'.capped block.header.prev_hash l (parent_ledger-found p block.header t found))
                  (e ∙ ap valid made))
                known above unweighed differs s')
      ]

module _ (p : Platform) (block : Block) (t : Tree) (s : IsSound t) where
  add_child-IsSound :
      (hash : ℕ) (parent : Block) (w : List ℤ)
      → lookup hash t.blocks ≡ none
      → lookup block.header.prev_hash t.blocks ≡ some parent
      → IsSound (add_child p hash block parent w t).0
  unfolding add_child
  add_child-IsSound hash parent w fresh found =
      let jurors = recent_proposers block.header.prev_hash t in
      let led = parent_ledger p block.header t in
      let mode = mode_at t block.header.prev_hash in
      elim (Verdict-cases
        (validate_block p block w parent.header.height led t.data_contributor jurors mode)) [
          | inr (e, refused) ↦ rw (refused, add_child) s
          | inl (post, accepted) ↦
              let parts =
                validate_block-parts p block w parent.header.height led t.data_contributor jurors
                  mode accepted in
              rw (accepted, add_child)
                (attach-IsSound p hash block t parent.header jurors fresh (ap header_of found)
                  (check_header-facts p block mode parent.header.height parts.header_ok).1
                  (check_commitments-facts p block parts.commitments_ok).2 s post parts.ledger_ok)
        ]

  pub add_block-IsSound : IsSound (add_block p block t).0
  unfolding add_block
  add_block-IsSound =
      let hash = block_hash p block.header in
      elim (Bool-cases (has hash t.blocks)) [
        | inl old ↦ rw (old, add_block) s
        | inr new ↦ elim (Option-cases (lookup block.header.prev_hash t.blocks)) [
          | inl unknown_parent ↦ rw (new, unknown_parent, add_block) s
          | inr (parent, found) ↦ elim (Option-cases (lookup block.header.prev_hash t.state)) [
            | inl pruned ↦ rw (new, found, pruned, add_block) s
            | inr (w, held) ↦
                rw (new, found, held, add_block)
                  (add_child-IsSound hash parent w (has-lookup hash t.blocks new) found)
          ]
        ]
      ]
