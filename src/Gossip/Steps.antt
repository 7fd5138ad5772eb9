-- ===== src/Gossip/Steps.antt =====
-- The invariant of the nodes along the steps of the network of rig/p2p.py.
use sestrian.Base.{
  ℕ, zero, suc, ◌%◌, ◌≡◌, ◌⊎◌, refl, Bool, true, false, Option, none, some, List, [], ◌∷◌, All,
  length, Option-cases, inl, inr,
}
use sestrian.Platform.{Platform}
use sestrian.Blockchain.Types.{Block}
use sestrian.Blockchain.Tree.{chain_from_genesis}
use sestrian.Gossip.{
  Message, tx_message, block_message, Turn, Outcome, done, crashed, unfinished, send,
}
use sestrian.Gossip.Produce.{Trainer, submit_own_tx, propose, send_blocks, rebroadcast_chain}
use sestrian.Gossip.Network.{
  Station, Network, each, act_at, act_all, receive, receive_all, deliver, produce_blocks, act,
  queue_outgoing, step,
}
use sestrian.Gossip.Sound.{IsWell, Keeps, bind-Keeps, recv_tx-IsWell, recv_block-Keeps}
use sestrian.Gossip.Made.{submit_own_tx-Keeps, propose-Keeps}

module _ (p : Platform) where
  abbrev AreWell : List Turn → Type 0
  AreWell turns = All (λ t. IsWell p t.node) turns

  abbrev pub StationsAreWell : List Station → Type 0
  StationsAreWell stations = All (λ s. IsWell p s.node) stations

  abbrev pub KeptNetwork : Option Network → Type 0
  KeptNetwork none = Unit
  KeptNetwork (some net) = StationsAreWell net.stations

  send_blocks-IsWell :
      (blocks : List Block) (t : Turn) → IsWell p t.node → IsWell p (send_blocks blocks t).node
  unfolding send_blocks
  send_blocks-IsWell [] t s = s
  send_blocks-IsWell (b ∷ blocks) t s = send_blocks-IsWell blocks (send (block_message b) t) s

  rebroadcast_chain-Keeps : (t : Turn) → IsWell p t.node → Keeps p (rebroadcast_chain t)
  unfolding rebroadcast_chain
  rebroadcast_chain-Keeps t s =
      elim (Option-cases (chain_from_genesis t.node.tree.head t.node.tree)) [
        | inl missing ↦ rw (missing, rebroadcast_chain) s
        | inr (chain, found) ↦ rw (found, rebroadcast_chain) (send_blocks-IsWell chain t s)
      ]

  receive-Keeps : (m : Message) (t : Turn) → IsWell p t.node → Keeps p (receive p m t)
  unfolding receive
  receive-Keeps (tx_message tx body) t s = recv_tx-IsWell p tx body t s
  receive-Keeps (block_message b) t s = recv_block-Keeps p _ b t s

  receive_all-Keeps :
      (inbox : List Message) (t : Turn) → IsWell p t.node → Keeps p (receive_all p inbox t)
  unfolding receive_all
  receive_all-Keeps [] t s = s
  receive_all-Keeps (m ∷ inbox) t s =
      bind-Keeps p (receive p m t) (receive_all p inbox) (receive-Keeps m t s)
        (λ t' s'. receive_all-Keeps inbox t' s')

  -- A loop over the nodes keeps what each turn keeps.
  Safe : (Turn → Outcome) → Type 0
  Safe action = (t : Turn) → IsWell p t.node → Keeps p (action t)

  abbrev Kept : Option (List Turn) → Type 0
  Kept none = Unit
  Kept (some turns) = AreWell turns

  Outcome-cases :
      (o : Outcome)
      → Keeps p o
      → ((t : Turn) × (o ≡ done t) × IsWell p t.node)
        ⊎ (((t : Turn) × (o ≡ crashed t)) ⊎ (o ≡ unfinished))
  Outcome-cases (done t) s = inl (t, refl, s)
  Outcome-cases (crashed t) s = inr (inl (t, refl))
  Outcome-cases unfinished s = inr (inr refl)

  Kept-cases :
      (o : Option (List Turn))
      → Kept o
      → (o ≡ none) ⊎ ((turns : List Turn) × (o ≡ some turns) × AreWell turns)
  Kept-cases none s = inl refl
  Kept-cases (some turns) s = inr (turns, refl, s)

  each-Kept :
      (action : Turn → Outcome) (turns : List Turn)
      → Safe action
      → AreWell turns
      → Kept (each action turns)
  unfolding each Safe
  each-Kept action [] f s = tt
  each-Kept action (t ∷ turns) f s = elim (Outcome-cases (action t) (f t s.0)) [
    | inl (t', ran, well) ↦ elim (Kept-cases (each action turns) (each-Kept action turns f s.1)) [
      | inl failed ↦ rw (ran, each, failed) tt
      | inr (rest, others, wells) ↦ rw (ran, each, others) (well, wells)
    ]
    | inr (inl (t', failed)) ↦ rw (failed, each) tt
    | inr (inr failed) ↦ rw (failed, each) tt
  ]

  act_at-Kept :
      (i : ℕ) (action : Turn → Outcome) (turns : List Turn)
      → Safe action
      → AreWell turns
      → Kept (act_at i action turns)
  unfolding act_at Safe
  act_at-Kept i action [] f s = tt
  act_at-Kept zero action (t ∷ turns) f s = elim (Outcome-cases (action t) (f t s.0)) [
    | inl (t', ran, well) ↦ rw (ran, act_at) (well, s.1)
    | inr (inl (t', failed)) ↦ rw (failed, act_at) tt
    | inr (inr failed) ↦ rw (failed, act_at) tt
  ]
  act_at-Kept (suc i) action (t ∷ turns) f s =
      elim (Kept-cases (act_at i action turns) (act_at-Kept i action turns f s.1)) [
        | inl failed ↦ rw (failed, act_at) tt
        | inr (rest, ran, wells) ↦ rw (ran, act_at) (s.0, wells)
      ]

  act_all-Kept :
      (places : List ℕ) (action : Turn → Outcome) (turns : List Turn)
      → Safe action
      → AreWell turns
      → Kept (act_all places action turns)
  unfolding act_all
  act_all-Kept [] action turns f s = s
  act_all-Kept (i ∷ places) action turns f s =
      elim (Kept-cases (act_at i action turns) (act_at-Kept i action turns f s)) [
        | inl failed ↦ rw (failed, act_all) tt
        | inr (rest, ran, wells) ↦ rw (ran, act_all) (act_all-Kept places action rest f wells)
      ]

  deliver-Kept : (stations : List Station) → StationsAreWell stations → Kept (deliver p stations)
  unfolding deliver
  deliver-Kept [] s = tt
  deliver-Kept (st ∷ stations) s =
      let t : Turn = record { node = st.node; outbox = [] } in
      elim (Outcome-cases (receive_all p st.inbox t) (receive_all-Keeps st.inbox t s.0)) [
        | inl (t', ran, well) ↦ elim (Kept-cases (deliver p stations) (deliver-Kept stations s.1)) [
          | inl failed ↦ rw (ran, deliver, failed) tt
          | inr (rest, others, wells) ↦ rw (ran, deliver, others) (well, wells)
        ]
        | inr (inl (t', failed)) ↦ rw (failed, deliver) tt
        | inr (inr failed) ↦ rw (failed, deliver) tt
      ]

  queue_outgoing-AreWell :
      (net : Network) (all_turns : List Turn) (j : ℕ) (stations : List Station) (turns : List Turn)
      → AreWell turns
      → StationsAreWell (queue_outgoing net all_turns j stations turns)
  unfolding queue_outgoing
  queue_outgoing-AreWell net all_turns j [] turns s = tt
  queue_outgoing-AreWell net all_turns j (st ∷ stations) [] s = tt
  queue_outgoing-AreWell net all_turns j (st ∷ stations) (t ∷ turns) s =
      (s.0, queue_outgoing-AreWell net all_turns (suc j) stations turns s.1)

  -- A signature that the key's owner makes is accepted.
  module _ (trainer : Trainer)
      (signs : (key : ℕ) (m : List ℕ) → p.ed25519 key m (p.sign key m) ≡ true) where
    produce_blocks-Kept :
        (proposers : List ℕ) (produce : Bool) (turns : List Turn)
        → AreWell turns
        → Kept (produce_blocks p trainer proposers produce turns)
    unfolding produce_blocks Safe
    produce_blocks-Kept proposers false turns s =
        act_all-Kept proposers (propose p trainer) turns (propose-Keeps p trainer signs) s
    produce_blocks-Kept proposers true turns s =
        elim (Kept-cases (each (submit_own_tx p trainer) turns)
          (each-Kept (submit_own_tx p trainer) turns (submit_own_tx-Keeps p trainer signs) s)) [
            | inl failed ↦ rw (failed, produce_blocks) tt
            | inr (turns', ran, wells) ↦
                rw (ran, produce_blocks)
                  (act_all-Kept proposers (propose p trainer) turns' (propose-Keeps p trainer signs)
                    wells)
          ]

    abbrev KeptAct : Option (List Turn × ℕ) → Type 0
    KeptAct none = Unit
    KeptAct (some (turns, round)) = AreWell turns

    KeptAct-cases :
        (o : Option (List Turn × ℕ))
        → KeptAct o
        → (o ≡ none)
          ⊎ ((turns : List Turn) × (round : ℕ) × (o ≡ some (turns, round)) × AreWell turns)
    KeptAct-cases none s = inl refl
    KeptAct-cases (some (turns, round)) s = inr (turns, round, refl, s)

    act-KeptAct :
        (net : Network) (proposers : Option (List ℕ)) (sync produce : Bool) (turns : List Turn)
        → AreWell turns
        → KeptAct (act p trainer net proposers sync produce turns)
    unfolding act Safe
    act-KeptAct net proposers true produce turns s =
        elim (Kept-cases (each rebroadcast_chain turns)
          (each-Kept rebroadcast_chain turns rebroadcast_chain-Keeps s)) [
            | inl failed ↦ rw (failed, act) tt
            | inr (turns', ran, wells) ↦ rw (ran, act) wells
          ]
    act-KeptAct net (some proposers) false produce turns s =
        elim (Kept-cases (produce_blocks p trainer proposers produce turns)
          (produce_blocks-Kept proposers produce turns s)) [
            | inl failed ↦ rw (failed, act) tt
            | inr (turns', ran, wells) ↦ rw (ran, act) wells
          ]
    act-KeptAct net none false produce turns s =
        let leader = (suc net.round % length net.stations) ∷ [] in
        elim (Kept-cases (produce_blocks p trainer leader produce turns)
          (produce_blocks-Kept leader produce turns s)) [
            | inl failed ↦ rw (failed, act) tt
            | inr (turns', ran, wells) ↦ rw (ran, act) wells
          ]

    pub step-KeptNetwork :
        (proposers : Option (List ℕ)) (sync produce : Bool) (net : Network)
        → StationsAreWell net.stations
        → KeptNetwork (step p trainer proposers sync produce net)
    unfolding step
    step-KeptNetwork proposers sync produce net s =
        elim (Kept-cases (deliver p net.stations) (deliver-Kept net.stations s)) [
          | inl failed ↦ rw (failed, step) tt
          | inr (turns, ran, wells) ↦
              elim (KeptAct-cases (act p trainer net proposers sync produce turns)
                (act-KeptAct net proposers sync produce turns wells)) [
                  | inl failed ↦ rw (ran, step, failed) tt
                  | inr (turns', round, acted, wells') ↦
                      rw (ran, step, acted)
                        (queue_outgoing-AreWell net turns' 0 net.stations turns' wells')
                ]
        ]
