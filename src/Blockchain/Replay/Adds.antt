-- ===== src/Blockchain/Replay/Adds.antt =====
-- `add_block` keeps the invariant of the replay, whatever block it is offered.
use mathlib.Core.Path.{subst}
use sestrian.Base.{
  ℕ, ◌≡◌, sym, ap, ◌∙◌, ◌≢◌, ◌⊎◌, inl, inr, none, some, List, Bool-cases, Option-cases,
}
use sestrian.Base.Int.{ℤ}
use sestrian.Base.Dict.{
  lookup, has, get_or, put, put-cases, lookup-put_self, lookup-put_ne, get_or-put_ne,
  get_or-put_self, has-lookup,
}
use sestrian.Platform.{Platform}
use sestrian.Blockchain.Types.{Header, Block, Verdict-cases}
use sestrian.Blockchain.Commit.{block_hash}
use sestrian.Blockchain.Validate.{Post, validate_block}
use sestrian.Blockchain.Tree.{
  Tree, mode_of, mode_at, recent_proposers, attach, parent_ledger, add_child, add_block,
}
use sestrian.Blockchain.Tree.Sound.{IsSound, header_at, header_of}
use sestrian.Blockchain.Replay.{advance}
use sestrian.Blockchain.Replay.Steps.{validate_block-advance}
use sestrian.Blockchain.Replay.Kept.{
  IsKept, IsStep, model_in, attach_ledger-IsKept, attach_legacy-IsKept,
}

module _ (p : Platform) where
  -- A new block, stepped to from its parent, keeps the invariant.
  put_block-IsKept :
      (t : Tree) (hash : ℕ) (b : Block) (post : Post) (w : List ℤ)
      → IsSound t
      → lookup hash t.blocks ≡ none
      → hash ≢ b.header.prev_hash
      → lookup b.header.prev_hash t.state ≡ some w
      → advance p (model_in t.params t.model b.header.prev_hash) w b
        ≡ some (mode_of t.params post.model, post.w)
      → IsKept p t
      → IsKept p (record t {
        blocks = put hash b t.blocks;
        state = put hash post.w t.state;
        model = put hash post.model t.model;
      })
  put_block-IsKept t hash b post w sound fresh above held moved s = record {
    whole = s.whole;
    first =
        kept_state t.genesis_hash (differs t.genesis_hash sound.founded.0 sound.founded.1) s.first;
    started =
        kept_model t.genesis_hash (differs t.genesis_hash sound.founded.0 sound.founded.1)
        ∙ s.started;
    stepped = λ k c e later. step k c later (put-cases k hash b t.blocks e);
  }
    where
      t' : Tree
      t' = record t {
        blocks = put hash b t.blocks;
        state = put hash post.w t.state;
        model = put hash post.model t.model;
      }

      differs : (k : ℕ) (h : Header) → header_at k t.blocks ≡ some h → k ≢ hash
      differs k h e same = cc (e, ap (λ j. header_at j t.blocks) same, ap header_of fresh)

      kept_state :
          (k : ℕ)
          → k ≢ hash
          → {v : List ℤ} → lookup k t.state ≡ some v
          → lookup k (put hash post.w t.state) ≡ some v
      kept_state k other e = lookup-put_ne k hash post.w t.state other ∙ e

      kept_model :
          (k : ℕ)
          → k ≢ hash
          → model_in t.params (put hash post.model t.model) k ≡ model_in t.params t.model k
      kept_model k other =
          ap (mode_of t.params) (get_or-put_ne k hash none post.model t.model other)

      above_old :
          (k : ℕ) (c : Block)
          → k ≢ t.genesis_hash
          → lookup k t.blocks ≡ some c
          → c.header.prev_hash ≢ hash
      above_old k c later old = elim (sound.linked k c.header (ap header_of old)) [
        | inl (same, zero_height) ↦ absurd (later same)
        | inr (other, (q, known, up)) ↦ differs c.header.prev_hash q known
      ]

      step :
          (k : ℕ) (c : Block)
          → k ≢ t.genesis_hash
          → ((k ≡ hash) × (b ≡ c)) ⊎ ((k ≢ hash) × (lookup k t.blocks ≡ some c))
          → IsStep p t' k c
      step k c later (inl (same, new)) =
          let prev = b.header.prev_hash in
          let here = λ (e : prev ≡ hash). above (sym e) in
          let stepped : IsStep p t' hash b = (
            w,
            post.w,
            kept_state prev here held,
            lookup-put_self hash post.w t.state,
            ap (λ m. advance p m w b) (kept_model prev here)
                ∙ moved
                ∙ ap (λ m. some (mode_of t.params m, post.w))
                    (sym (get_or-put_self hash none post.model t.model)),
          ) in
          subst (λ j. IsStep p t' j c) (sym same) (subst (IsStep p t' hash) new stepped)
      step k c later (inr (other, old)) =
          let (v, v', at, at', walked) = s.stepped k c old later in
          let there = above_old k c later old in
          (
            v,
            v',
            kept_state c.header.prev_hash there at,
            kept_state k other at',
            ap (λ m. advance p m v c) (kept_model c.header.prev_hash there)
                ∙ walked
                ∙ ap (λ m. some (m, v')) (sym (kept_model k other)),
          )

  attach-IsKept :
      (hash : ℕ) (b : Block) (jurors : List ℕ) (post : Post) (t : Tree)
      → IsKept p (record t {
        blocks = put hash b t.blocks;
        state = put hash post.w t.state;
        model = put hash post.model t.model;
      })
      → IsKept p (attach p hash b jurors post t).0
  unfolding attach
  attach-IsKept hash b jurors post t s = elim (Option-cases post.ledger) [
    | inl legacy ↦ rw (legacy, attach) (attach_legacy-IsKept p hash b jurors _ s)
    | inr (led, made) ↦ rw (made, attach) (attach_ledger-IsKept p hash b led _ s)
  ]

  add_child-IsKept :
      (hash : ℕ) (b parent : Block) (w : List ℤ) (t : Tree)
      → IsSound t
      → lookup hash t.blocks ≡ none
      → lookup b.header.prev_hash t.blocks ≡ some parent
      → lookup b.header.prev_hash t.state ≡ some w
      → IsKept p t
      → IsKept p (add_child p hash b parent w t).0
  unfolding add_child mode_at
  add_child-IsKept hash b parent w t sound fresh found held s =
      let prev = b.header.prev_hash in
      let led = parent_ledger p b.header t in
      let jurors = recent_proposers prev t in
      elim (Verdict-cases (
        validate_block p b w parent.header.height led t.data_contributor jurors (mode_at t prev))) [
          | inr (e, refused) ↦ rw (refused, add_child) s
          | inl (post, accepted) ↦
              rw (accepted, add_child)
                (attach-IsKept hash b jurors post t (
                  put_block-IsKept t hash b post w sound fresh
                    (λ same. cc (found, ap (λ j. lookup j t.blocks) same, fresh)) held
                    (validate_block-advance p b w parent.header.height led t.data_contributor jurors
                      t.params (get_or prev none t.model) post accepted)
                    s))
        ]

  pub add_block-IsKept :
      (b : Block) (t : Tree) → IsSound t → IsKept p t → IsKept p (add_block p b t).0
  unfolding add_block
  add_block-IsKept b t sound s =
      let hash = block_hash p b.header in
      elim (Bool-cases (has hash t.blocks)) [
        | inl old ↦ rw (old, add_block) s
        | inr new ↦ elim (Option-cases (lookup b.header.prev_hash t.blocks)) [
          | inl unknown ↦ rw (new, unknown, add_block) s
          | inr (parent, found) ↦ elim (Option-cases (lookup b.header.prev_hash t.state)) [
            | inl pruned ↦ rw (new, found, pruned, add_block) s
            | inr (w, held) ↦
                rw (new, found, held, add_block)
                  (add_child-IsKept hash b parent w t sound (has-lookup hash t.blocks new) found
                    held s)
          ]
        ]
      ]
