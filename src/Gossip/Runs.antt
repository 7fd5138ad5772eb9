-- ===== src/Gossip/Runs.antt =====
-- A network of rig/p2p.py from its start, through steps, injected deltas and partitions.
use mathlib.Core.Path.{subst}
use mathlib.Core.Option.{some-injective}
use sestrian.Base.{
  ℕ, zero, suc, ◌≡◌, ◌⊎◌, refl, Bool, true, Option, none, some, List, [], ◌∷◌, ◌++◌, length, inl,
  inr,
}
use sestrian.Base.Int.{ℤ}
use sestrian.Platform.{Platform}
use sestrian.Crypto.{BackpropTx}
use sestrian.Blockchain.Types.{Verdict, valid, ◌>>=◌, bind-valid, valid-injective}
use sestrian.Blockchain.Tree.{Tree, new_tree}
use sestrian.Blockchain.Tree.Sound.{IsSound}
use sestrian.Blockchain.Tree.Reach.{new_tree-IsSound}
use sestrian.Gossip.{Node, Message, tx_message}
use sestrian.Gossip.Produce.{Trainer}
use sestrian.Gossip.Network.{Station, Network, ring_peers, other_places, step}
use sestrian.Gossip.Steps.{StationsAreWell, KeptNetwork, step-KeptNetwork}

pub data Topology : Type 0 where
  ring full : Topology

-- `_wire`
unfoldable pub peers_of : Topology → ℕ → ℕ → List ℕ
unfolding ring_peers other_places
peers_of ring n i = ring_peers n i
peers_of full n i = other_places n 0 i

unfoldable pub new_node : ℕ → ℕ → Tree → Node
new_node i key tree = record {
  node_id = i;
  key = key;
  tree = tree;
  mempool = [];
  seen_tx = [];
  seen_block = [];
  orphans = [];
}

-- The nodes from place i on, one for each key.
unfoldable pub new_stations : Topology → ℕ → ℕ → List ℕ → Tree → List Station
unfolding peers_of new_node
new_stations topology n i [] tree = []
new_stations topology n i (key ∷ keys) tree =
    (record { node = new_node i key tree; peers = peers_of topology n i; inbox = [] })
    ∷ new_stations topology n (suc i) keys tree

-- `Network.__init__`, with the nodes' public keys and the address of the founding corpus
unfoldable pub new_network : Platform → List ℕ → Topology → List ℤ → ℕ → Verdict Network
unfolding new_stations
new_network p keys topology w founder = do
  tree ← new_tree p w none (some founder) none
  valid (record {
    stations = new_stations topology (length keys) 0 keys tree;
    partition = none;
    round = 0;
  })

-- `self.inflight[node_id].append(message)`
unfoldable pub append_at : ℕ → Message → List Station → Option (List Station)
append_at i m [] = none
append_at zero m (s ∷ stations) = some ((record s { inbox = s.inbox ++ m ∷ [] }) ∷ stations)
append_at (suc i) m (s ∷ stations) = elim (append_at i m stations) [
  | none ↦ none
  | some rest ↦ some (s ∷ rest)
]

-- What is done to a network: a step, `inject_tx`, or `set_partition`.
pub data Event : Type 0 where
  tick : Option (List ℕ) → Bool → Bool → Event
  inject : ℕ → BackpropTx → List ℤ → Event
  divide : Option (List (List ℕ)) → Event

module _ (p : Platform) (trainer : Trainer) where
  unfoldable pub happen : Event → Network → Option Network
  unfolding append_at step
  happen (tick proposers sync produce) net = step p trainer proposers sync produce net
  happen (inject i tx body) net = elim (append_at i (tx_message tx body) net.stations) [
    | none ↦ none
    | some stations ↦ some (record net { stations = stations })
  ]
  happen (divide groups) net = some (record net { partition = groups })

  -- The events one after another; none where an exception ends the simulation.
  unfoldable pub play : List Event → Network → Option Network
  unfolding happen
  play [] net = some net
  play (e ∷ events) net = elim (happen e net) [ none ↦ none | some net' ↦ play events net' ]

module _ (p : Platform) where
  KeptStations : Option (List Station) → Type 0
  KeptStations none = Unit
  KeptStations (some stations) = StationsAreWell p stations

  KeptStations-cases :
      (o : Option (List Station))
      → KeptStations o
      → (o ≡ none) ⊎ ((stations : List Station) × (o ≡ some stations) × StationsAreWell p stations)
  KeptStations-cases none s = inl refl
  KeptStations-cases (some stations) s = unfold KeptStations in inr (stations, refl, s)

  KeptNetwork-cases :
      (o : Option Network)
      → KeptNetwork p o
      → (o ≡ none) ⊎ ((net : Network) × (o ≡ some net) × StationsAreWell p net.stations)
  KeptNetwork-cases none s = inl refl
  KeptNetwork-cases (some net) s = inr (net, refl, s)

  append_at-Kept :
      (i : ℕ) (m : Message) (stations : List Station)
      → StationsAreWell p stations
      → KeptStations (append_at i m stations)
  unfolding append_at KeptStations
  append_at-Kept i m [] s = tt
  append_at-Kept zero m (st ∷ stations) s = s
  append_at-Kept (suc i) m (st ∷ stations) s =
      elim (KeptStations-cases (append_at i m stations) (append_at-Kept i m stations s.1)) [
        | inl failed ↦ rw (failed, append_at) tt
        | inr (rest, put, wells) ↦ rw (put, append_at) (s.0, wells)
      ]

  new_stations-AreWell :
      (topology : Topology) (n i : ℕ) (keys : List ℕ) (tree : Tree)
      → IsSound tree
      → StationsAreWell p (new_stations topology n i keys tree)
  unfolding new_stations new_node
  new_stations-AreWell topology n i [] tree s = tt
  new_stations-AreWell topology n i (key ∷ keys) tree s = (
    record { tree_sound = s; filed = tt; pooled = tt; installed = tt },
    new_stations-AreWell topology n (suc i) keys tree s,
  )

  new_network-AreWell :
      (keys : List ℕ) (topology : Topology) (w : List ℤ) (founder : ℕ) {net : Network}
      → new_network p keys topology w founder ≡ valid net
      → StationsAreWell p net.stations
  unfolding new_network
  new_network-AreWell keys topology w founder {net} e =
      let (tree, made, built) = bind-valid (new_tree p w none (some founder) none) _ e in
      subst (λ (net : Network). StationsAreWell p net.stations) (valid-injective built)
        (new_stations-AreWell topology (length keys) 0 keys tree
          (new_tree-IsSound p w none (some founder) none made))

  module _ (trainer : Trainer)
      (signs : (key : ℕ) (m : List ℕ) → p.ed25519 key m (p.sign key m) ≡ true) where
    happen-KeptNetwork :
        (e : Event) (net : Network)
        → StationsAreWell p net.stations
        → KeptNetwork p (happen p trainer e net)
    unfolding happen
    happen-KeptNetwork (tick proposers sync produce) net s =
        step-KeptNetwork p trainer signs proposers sync produce net s
    happen-KeptNetwork (inject i tx body) net s =
        elim (KeptStations-cases (append_at i (tx_message tx body) net.stations)
          (append_at-Kept i (tx_message tx body) net.stations s)) [
            | inl failed ↦ rw (failed, happen) tt
            | inr (stations, put, wells) ↦ rw (put, happen) wells
          ]
    happen-KeptNetwork (divide groups) net s = s

    play-Kept :
        (events : List Event) (start : Network) {net : Network}
        → StationsAreWell p start.stations
        → play p trainer events start ≡ some net
        → StationsAreWell p net.stations
    unfolding play
    play-Kept [] start s e =
        subst (λ (n : Network). StationsAreWell p n.stations) (some-injective start _ e) s
    play-Kept (e ∷ events) start s ran =
        elim (KeptNetwork-cases (happen p trainer e start) (happen-KeptNetwork e start s)) [
          | inl failed ↦ absurd (cc (rw (failed, play) at ran))
          | inr (next, happened, wells) ↦ play-Kept events next wells (rw (happened, play) at ran)
        ]

    -- The nodes of a network stay sound, whatever happens to it: after any steps, injected deltas
    -- and partitions, each node's tree is sound, its orphans wait under their parents, every delta of
    -- its mempool is signed and hashes its body, and the blocks that it has seen are in its tree.
    -- Signatures that a key makes are taken to be accepted for it.
    pub play-StationsAreWell :
        (keys : List ℕ) (topology : Topology) (w : List ℤ) (founder : ℕ) (events : List Event)
        {start net : Network}
        → new_network p keys topology w founder ≡ valid start
        → play p trainer events start ≡ some net
        → StationsAreWell p net.stations
    play-StationsAreWell keys topology w founder events {start} created ran =
        play-Kept events start (new_network-AreWell keys topology w founder created) ran
