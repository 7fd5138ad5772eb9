-- ===== src/Gossip/Network.antt =====
-- `Network` of rig/p2p.py: what a node sends in one step arrives in the next, where the partition lets
-- it. A node's peers are the places of the nodes in the network.
use sestrian.Base.{
  ℕ, zero, suc, ◌+◌, ◌-◌, ◌%◌, Bool, true, false, ◌&&◌, Option, none, some, List, [], ◌∷◌, ◌++◌,
  if◌then◌else◌, ◌==◌, contains, any, length,
}
use sestrian.Base.Dict.{sum_by}
use sestrian.Platform.{Platform}
use sestrian.Gossip.{
  Node, Message, tx_message, block_message, Turn, Outcome, done, crashed, unfinished, ◌>>=◌,
  recv_tx, recv_block,
}
use sestrian.Gossip.Produce.{Trainer, submit_own_tx, propose, rebroadcast_chain}

pub record Station : Type 0 where
  pub node : Node
  pub peers : List ℕ
  -- `self.inflight[i]`
  pub inbox : List Message

pub record Network : Type 0 where
  pub stations : List Station
  pub partition : Option (List (List ℕ))
  pub round : ℕ

-- The neighbours of node i in a ring of n.
unfoldable pub ring_peers : ℕ → ℕ → List ℕ
ring_peers n i = ((i + n) - 1) % n ∷ (suc i % n ∷ [])

-- The places from i on, n of them, but one.
unfoldable pub other_places : ℕ → ℕ → ℕ → List ℕ
other_places zero i own = []
other_places (suc n) i own =
    let rest = other_places n (suc i) own in if i == own then rest else i ∷ rest

-- `_can_talk`
unfoldable pub can_talk : Option (List (List ℕ)) → ℕ → ℕ → Bool
can_talk none a b = true
can_talk (some groups) a b = any (λ g. contains a g && contains b g) groups

-- The copies of a message that go from a node to node j: one for each peer that is node j.
unfoldable pub copies : ℕ → List ℕ → Message → List Message
copies j [] m = []
copies j (peer ∷ peers) m = let rest = copies j peers m in if peer == j then m ∷ rest else rest

unfoldable pub sent_to : ℕ → List ℕ → List Message → List Message
unfolding copies
sent_to j peers [] = []
sent_to j peers (m ∷ outbox) = copies j peers m ++ sent_to j peers outbox

-- What node j receives from the nodes from place i on.
unfoldable pub inbox_of : Option (List (List ℕ)) → ℕ → ℕ → List Station → List Turn → List Message
unfolding can_talk sent_to
inbox_of partition j i [] turns = []
inbox_of partition j i (s ∷ stations) [] = []
inbox_of partition j i (s ∷ stations) (t ∷ turns) =
    let rest = inbox_of partition j (suc i) stations turns in
    if can_talk partition i j then sent_to j s.peers t.outbox ++ rest else rest

-- The stations from place j on, after a step: their nodes, with the messages sent to them.
unfoldable pub queue_outgoing : Network → List Turn → ℕ → List Station → List Turn → List Station
unfolding inbox_of
queue_outgoing net all j [] turns = []
queue_outgoing net all j (s ∷ stations) [] = []
queue_outgoing net all j (s ∷ stations) (t ∷ turns) =
    (record s { node = t.node; inbox = inbox_of net.partition j 0 net.stations all })
    ∷ queue_outgoing net all (suc j) stations turns

-- A loop over the nodes; none where an exception ends the simulation.
unfoldable pub each : (Turn → Outcome) → List Turn → Option (List Turn)
each act [] = some []
each act (t ∷ turns) = elim (act t) [
  | done t' ↦ elim (each act turns) [ none ↦ none | some rest ↦ some (t' ∷ rest) ]
  | crashed t' ↦ none
  | unfinished ↦ none
]

-- `self.nodes[i]` acts.
unfoldable pub act_at : ℕ → (Turn → Outcome) → List Turn → Option (List Turn)
act_at i act [] = none
act_at zero act (t ∷ turns) = elim (act t) [
  | done t' ↦ some (t' ∷ turns)
  | crashed t' ↦ none
  | unfinished ↦ none
]
act_at (suc i) act (t ∷ turns) = elim (act_at i act turns) [
  | none ↦ none
  | some rest ↦ some (t ∷ rest)
]

unfoldable pub act_all : List ℕ → (Turn → Outcome) → List Turn → Option (List Turn)
unfolding act_at
act_all [] act turns = some turns
act_all (i ∷ places) act turns = elim (act_at i act turns) [
  | none ↦ none
  | some turns' ↦ act_all places act turns'
]

module _ (p : Platform) where
  -- A message arrives. The depth of `recv_block` is one more than the blocks that wait.
  unfoldable pub receive : Message → Turn → Outcome
  receive (tx_message tx body) t = done (recv_tx p tx body t)
  receive (block_message b) t = recv_block p (suc (sum_by length t.node.orphans)) b t

  unfoldable pub receive_all : List Message → Turn → Outcome
  unfolding receive
  receive_all [] t = done t
  receive_all (m ∷ inbox) t = receive m t >>= receive_all inbox

  -- Every node reads its inbox.
  unfoldable pub deliver : List Station → Option (List Turn)
  unfolding receive_all
  deliver [] = some []
  deliver (s ∷ stations) = elim (receive_all s.inbox (record { node = s.node; outbox = [] })) [
    | done t ↦ elim (deliver stations) [ none ↦ none | some rest ↦ some (t ∷ rest) ]
    | crashed t ↦ none
    | unfinished ↦ none
  ]

  module _ (trainer : Trainer) where
    -- Deltas where `produce` says so, then the proposers' blocks.
    unfoldable pub produce_blocks : List ℕ → Bool → List Turn → Option (List Turn)
    unfolding each act_all
    produce_blocks proposers false turns = act_all proposers (propose p trainer) turns
    produce_blocks proposers true turns = elim (each (submit_own_tx p trainer) turns) [
      | none ↦ none
      | some turns' ↦ act_all proposers (propose p trainer) turns'
    ]

    -- The second part of a step, with the number of the round after it.
    unfoldable pub act :
        Network → Option (List ℕ) → Bool → Bool → List Turn → Option (List Turn × ℕ)
    unfolding each produce_blocks
    act net proposers true produce turns = elim (each rebroadcast_chain turns) [
      | none ↦ none
      | some turns' ↦ some (turns', net.round)
    ]
    act net (some proposers) false produce turns = elim (produce_blocks proposers produce turns) [
      | none ↦ none
      | some turns' ↦ some (turns', net.round)
    ]
    act net none false produce turns =
        elim (produce_blocks ((suc net.round % length net.stations) ∷ []) produce turns) [
          | none ↦ none
          | some turns' ↦ some (turns', suc net.round)
        ]

    -- `Network.step`; none where an exception leaves it
    unfoldable pub step : Option (List ℕ) → Bool → Bool → Network → Option Network
    unfolding deliver act queue_outgoing
    step proposers sync produce net = elim (deliver net.stations) [
      | none ↦ none
      | some turns ↦ elim (act net proposers sync produce turns) [
        | none ↦ none
        | some (turns', round) ↦ some (record net {
          stations = queue_outgoing net turns' 0 net.stations turns';
          round = round;
        })
      ]
    ]
