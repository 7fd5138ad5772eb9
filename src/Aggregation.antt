-- ===== src/Aggregation.antt =====
-- rig/chain.py: the trimmed mean, and the chain of weights with its replay. A weight vector is a list
-- of int64 values; all the deltas of a block have its length, for `np.stack` raises otherwise.
pub mod Replay
pub mod Robust
pub mod Paged
use sestrian.Base.{
  ℕ, zero, suc, ◌+◌, ◌-◌, ◌*◌, ◌/◌, ◌^◌, max, Bool, true, false, List, [], ◌∷◌, ◌++◌, if◌then◌else◌,
  ltb, leb, length, contains,
}
use sestrian.Base.Int.{ℤ, pos, ◌+ℤ◌, ◌-ℤ◌, ◌*ℤ◌, floor_div, sum_ℤ, leb_ℤ}
use sestrian.Base.Sort.{sorted}
use sestrian.Platform.{Platform}

-- The value of an integer in int64.
unfoldable pub wrap64 : ℤ → ℤ
wrap64 x =
    let shifted = x +ℤ pos (2 ^ 63) in
    shifted -ℤ floor_div shifted (2 ^ 64) *ℤ pos (2 ^ 64) -ℤ pos (2 ^ 63)

-- `xs[lo:lo + n]`
abbrev pub slice {ℓ} : {A : Type ℓ} → ℕ → ℕ → List A → List A
slice lo n [] = []
slice zero zero (x ∷ xs) = []
slice zero (suc n) (x ∷ xs) = x ∷ slice zero n xs
slice (suc lo) n (x ∷ xs) = slice lo n xs

-- How many values go at each end: a fifth of them, and at least one from three on.
unfoldable pub trim_count : ℕ → ℕ
trim_count k = if leb 3 k then max 1 (k / 5) else k / 5

-- One coordinate of the mean. The slice is never empty, for less than half goes at each end.
unfoldable pub trimmed_column : List ℤ → ℤ
unfolding trim_count wrap64
trimmed_column column =
    let k = length column in
    let lo = trim_count k in
    let core = slice lo (k - lo - lo) (sorted leb_ℤ column) in
    floor_div (wrap64 (sum_ℤ core)) (length core)

abbrev pub heads : List (List ℤ) → List ℤ
heads [] = []
heads ([] ∷ rows) = heads rows
heads ((x ∷ xs) ∷ rows) = x ∷ heads rows

abbrev pub tails : List (List ℤ) → List (List ℤ)
tails [] = []
tails ([] ∷ rows) = tails rows
tails ((x ∷ xs) ∷ rows) = xs ∷ tails rows

unfoldable pub trimmed_columns : ℕ → List (List ℤ) → List ℤ
unfolding trimmed_column
trimmed_columns zero rows = []
trimmed_columns (suc n) rows = trimmed_column (heads rows) ∷ trimmed_columns n (tails rows)

abbrev pub dimension : List (List ℤ) → ℕ
dimension [] = 0
dimension (row ∷ rows) = length row

-- `trimmed_mean_int`
unfoldable pub trimmed_mean_int : List (List ℤ) → List ℤ
unfolding trimmed_columns
trimmed_mean_int deltas = trimmed_columns (dimension deltas) deltas

-- The sum of two int64 vectors.
unfoldable pub add_vector : List ℤ → List ℤ → List ℤ
add_vector [] ys = []
add_vector (x ∷ xs) [] = []
add_vector (x ∷ xs) (y ∷ ys) = wrap64 (x +ℤ y) ∷ add_vector xs ys

-- `if deltas: w = w + trimmed_mean_int(deltas)`
unfoldable pub transition : List (List ℤ) → List ℤ → List ℤ
transition [] w = w
transition (d ∷ deltas) w = add_vector w (trimmed_mean_int (d ∷ deltas))

pub record DeltaBlock : Type 0 where
  pub height : ℕ
  pub deltas_int : List (List ℤ)
  pub miner_ids : List ℕ
  pub root : ℕ

pub record Chain : Type 0 where
  pub genesis_int : List ℤ
  pub w_int : List ℤ
  pub blocks : List DeltaBlock

-- `Chain.__init__`
abbrev pub new_chain : List ℤ → Chain
new_chain w0 = record { genesis_int = w0; w_int = w0; blocks = [] }

-- `Chain.apply_block`
unfoldable pub apply_block : Platform → List (List ℤ) → List ℕ → Chain → Chain
apply_block p deltas ids c =
    let w = transition deltas c.w_int in
    record c {
      w_int = w;
      blocks =
          c.blocks
          ++ record {
            height = length c.blocks + 1;
            deltas_int = deltas;
            miner_ids = ids;
            root = p.sha256 (p.tobytes w);
          }
            ∷ [];
    }

-- `[d for d, m in zip(deltas, ids) if m not in exclude]`
unfoldable pub kept : List ℕ → List (List ℤ) → List ℕ → List (List ℤ)
kept exclude [] ids = []
kept exclude (d ∷ deltas) [] = []
kept exclude (d ∷ deltas) (m ∷ ids) =
    let rest = kept exclude deltas ids in if contains m exclude then rest else d ∷ rest

unfoldable pub replay_from : List ℕ → List DeltaBlock → List ℤ → List ℤ
unfolding kept transition
replay_from exclude [] w = w
replay_from exclude (b ∷ blocks) w =
    replay_from exclude blocks (transition (kept exclude b.deltas_int b.miner_ids) w)

-- `Chain.replay`
unfoldable pub replay : List ℕ → Chain → List ℤ
unfolding replay_from
replay exclude c = replay_from exclude c.blocks c.genesis_int

-- A chain that has applied one block after another.
unfoldable pub apply_all : Platform → List (List (List ℤ) × List ℕ) → Chain → Chain
unfolding apply_block
apply_all p [] c = c
apply_all p ((deltas, ids) ∷ rest) c = apply_all p rest (apply_block p deltas ids c)
