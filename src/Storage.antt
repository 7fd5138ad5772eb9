-- ===== src/Storage.antt =====
-- rig/storage.py: a chain on disk, and the two ways to read its weights back. A file that `np.save` or
-- a line of JSON wrote is read back as the value that was written.
pub mod Files
pub mod Stored
pub mod Sync
use sestrian.Base.{
  ℕ, zero, suc, ◌%◌, max, Bool, true, false, not, ◌&&◌, Option, none, some, List, [], ◌∷◌, ◌++◌,
  map, if◌then◌else◌, ltb, ◌==◌, length,
}
use sestrian.Base.Int.{ℤ}
use sestrian.Base.Dict.{Dict, lookup, get_or, put}
use sestrian.Platform.{Platform}
use sestrian.Aggregation.{Chain, DeltaBlock, new_chain, apply_block, transition}

-- A line of `blocks.jsonl`.
pub record Record : Type 0 where
  pub height : ℕ
  pub root : ℕ
  pub miner_ids : List ℕ
  pub delta_hashes : List ℕ
  pub n : ℕ

-- The files below the path: none or a missing key where there is no file.
pub record ChainStore : Type 0 where
  pub k : ℕ
  pub genesis : Option (List ℤ)
  pub blocks : Option (List Record)
  -- height -> j -> the array in `delta_<height>_<j>.npy`
  pub deltas : Dict (Dict (List ℤ))
  -- height -> the array in `ckpt_<height>.npy`
  pub checkpoints : Dict (List ℤ)

-- `ChainStore.__init__` of an empty directory
abbrev pub new_store : ℕ → ChainStore
new_store k = record { k = k; genesis = none; blocks = none; deltas = []; checkpoints = [] }

-- `init_genesis`
unfoldable pub init_genesis : List ℤ → ChainStore → ChainStore
init_genesis w0 s = record s { genesis = some w0; blocks = some [] }

unfoldable pub save_deltas : ℕ → ℕ → List (List ℤ) → Dict (Dict (List ℤ)) → Dict (Dict (List ℤ))
save_deltas height j [] files = files
save_deltas height j (d ∷ ds) files =
    save_deltas height (suc j) ds (put height (put j d (get_or height [] files)) files)

abbrev pub lines : Option (List Record) → List Record
lines none = []
lines (some recs) = recs

-- `_load_deltas`, the files from j on; none where one is missing
unfoldable pub load_deltas : ℕ → ℕ → ℕ → Dict (Dict (List ℤ)) → Option (List (List ℤ))
load_deltas height j zero files = some []
load_deltas height j (suc n) files = elim (lookup j (get_or height [] files)) [
  | none ↦ none
  | some d ↦ elim (load_deltas height (suc j) n files) [ none ↦ none | some ds ↦ some (d ∷ ds) ]
]

-- A loop over the records whose step can fail.
unfoldable pub over_records {ℓ} :
    {S : Type ℓ} → (Record → S → Option S) → List Record → S → Option S
over_records step [] s = some s
over_records step (r ∷ recs) s = elim (step r s) [
  | none ↦ none
  | some s' ↦ over_records step recs s'
]

-- One turn of both syncs: a record that is taken and has deltas moves the weights.
unfoldable pub replay_step :
    (Record → Bool) → Dict (Dict (List ℤ)) → Record → List ℤ → Option (List ℤ)
replay_step taken files r w =
    if taken r && not (r.n == 0)
    then elim (load_deltas r.height 0 r.n files) [ none ↦ none | some ds ↦ some (transition ds w) ]
    else some w

abbrev pub later_than : ℕ → Record → Bool
later_than h0 r = ltb h0 r.height

abbrev pub every_record : Record → Bool
every_record r = true

-- `full_replay`
unfoldable pub full_replay : ChainStore → Option (List ℤ)
unfolding over_records replay_step
full_replay s = elim s.genesis [
  | none ↦ none
  | some w0 ↦ elim s.blocks [
    | none ↦ none
    | some recs ↦ over_records (replay_step every_record s.deltas) recs w0
  ]
]

-- `max(ckpts)`, none of an empty list
abbrev pub latest : Dict (List ℤ) → Option (ℕ × List ℤ)
latest [] = none
latest ((h, w) ∷ files) = elim (latest files) [
  | none ↦ some (h, w)
  | some (h', w') ↦ if ltb h h' then some (h', w') else some (h, w)
]

-- `fast_sync`
unfoldable pub fast_sync : ChainStore → Option (List ℤ)
unfolding full_replay over_records replay_step
fast_sync s = elim s.blocks [
  | none ↦ none
  | some recs ↦ elim (latest s.checkpoints) [
    | none ↦ full_replay s
    | some (h0, w) ↦ over_records (replay_step (later_than h0) s.deltas) recs w
  ]
]

abbrev pub last_root : List Record → Option ℕ
last_root [] = none
last_root (r ∷ []) = some r.root
last_root (r ∷ q ∷ recs) = last_root (q ∷ recs)

module _ (p : Platform) where
  abbrev pub root_of : List ℤ → ℕ
  root_of w = p.sha256 (p.tobytes w)

  -- `append_block`; none where `height % 0` raises
  unfoldable pub append_block :
      ℕ → List (List ℤ) → List ℕ → ℕ → List ℤ → ChainStore → Option ChainStore
  unfolding save_deltas
  append_block height deltas ids root w s =
      if s.k == 0
      then none
      else some (record s {
        deltas = save_deltas height 0 deltas s.deltas;
        blocks = some (
            lines s.blocks
            ++ record {
              height = height;
              root = root;
              miner_ids = ids;
              delta_hashes = map root_of deltas;
              n = length deltas;
            }
              ∷ []);
        checkpoints = if height % s.k == 0 then put height w s.checkpoints else s.checkpoints;
      })

  -- The loop of `persist_chain`.
  unfoldable pub persist_blocks : List DeltaBlock → List ℤ → ChainStore → Option ChainStore
  unfolding append_block
  persist_blocks [] w s = some s
  persist_blocks (b ∷ blocks) w s =
      let w' = transition b.deltas_int w in
      elim (append_block b.height b.deltas_int b.miner_ids b.root w' s) [
        | none ↦ none
        | some s' ↦ persist_blocks blocks w' s'
      ]

  -- `persist_chain`
  unfoldable pub persist_chain : Chain → ChainStore → Option ChainStore
  unfolding init_genesis persist_blocks
  persist_chain c s = persist_blocks c.blocks c.genesis_int (init_genesis c.genesis_int s)

  abbrev pub matches : Option (List ℤ) → ℕ → Option Bool
  matches none target = none
  matches (some w) target = some (root_of w == target)

  -- `verify`
  unfoldable pub verify_store : ChainStore → Option Bool
  unfolding full_replay fast_sync
  verify_store s = elim s.blocks [
    | none ↦ none
    | some recs ↦ elim (last_root recs) [
      | none ↦ some true
      | some target ↦ elim (matches (full_replay s) target) [
        | none ↦ none
        | some full ↦ if full then matches (fast_sync s) target else some false
      ]
    ]
  ]

  unfoldable pub load_step : Dict (Dict (List ℤ)) → Record → Chain → Option Chain
  load_step files r c = elim (load_deltas r.height 0 r.n files) [
    | none ↦ none
    | some ds ↦ some (apply_block p ds r.miner_ids c)
  ]

  -- `load_chain`
  unfoldable pub load_chain : ChainStore → Option Chain
  unfolding load_step over_records
  load_chain s = elim s.genesis [
    | none ↦ none
    | some w0 ↦ elim s.blocks [
      | none ↦ none
      | some recs ↦ over_records (load_step s.deltas) recs (new_chain w0)
    ]
  ]
