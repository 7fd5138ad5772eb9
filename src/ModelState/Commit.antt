-- ===== src/ModelState/Commit.antt =====
-- The commitments of rig/model_state.py: canonical JSON, the root of the pages, and the first values
-- of a page that growth appends.
use sestrian.Base.{
  ℕ, zero, suc, ◌+◌, ◌-◌, ◌*◌, ◌/◌, ◌%◌, ◌^◌, Bool, ◌&&◌, ◌||◌, Option, List, [], ◌∷◌, ◌++◌, map,
  if◌then◌else◌, ltb, leb,
}
use sestrian.Base.Int.{ℤ, pos, ◌-ℤ◌}
use sestrian.Base.Json.{
  Json, Fields, number, text, literal, array, object, nil, item, end, field, natural, items,
}
use sestrian.Platform.{Platform, ascii}
use sestrian.Merkle.{root}
use sestrian.Aggregation.{slice}
use sestrian.ModelState.{
  ModelSpec, ModelState, Page, PageStatus, Kind, active, frozen, backbone, expert, GrowthEvent,
  expert_page_len,
}

abbrev pub status_text : PageStatus → Json
status_text active = literal (ascii "A")
status_text frozen = literal (ascii "F")

abbrev pub kind_text : Kind → Json
kind_text backbone = literal (ascii "backbone")
kind_text expert = literal (ascii "expert")

unfoldable pub page_json : Page → Json
page_json q = array (
    item (natural q.start) (
      item (natural q.stop) (
        item (kind_text q.kind)
          (item (number q.layer) (item (number q.index) (item (status_text q.status) nil))))))

unfoldable pub event_json : GrowthEvent → Json
event_json e = array (item (natural e.window) (item (natural e.layer) (item (text e.trigger) nil)))

-- The fields that enter with the third revision, and with the fourth.
abbrev pub rev3_fields : ModelState → Fields → Fields
rev3_fields s rest =
    if leb 3 s.rev
    then field (ascii "rev") (natural s.rev)
        (field (ascii "win_score_sum") (number s.win_score_sum) rest)
    else rest

abbrev pub rev4_fields : ModelState → Fields → Fields
rev4_fields s rest =
    if leb 4 s.rev
    then field (ascii "win_scorers") (array (items text s.win_scorers)) rest
    else rest

-- `ModelState.canonical_json`, before `json.dumps`
unfoldable pub canonical_json : ModelState → Json
unfolding page_json event_json
canonical_json s = object (
    field (ascii "events_total") (natural s.events_total) (
      field (ascii "pages") (array (items page_json s.pages)) (
        field (ascii "pending_growth") (array (items event_json s.pending_growth)) (
          field (ascii "pinned_streak") (natural s.pinned_streak) (
            field (ascii "quota_4dp") (natural s.quota) (
              field (ascii "slack_streak") (natural s.slack_streak) (
                field (ascii "win_accepted") (natural s.win_accepted) (
                  field (ascii "win_zero_scored") (natural s.win_zero_scored) (
                    field (ascii "window_id") (natural s.window_id)
                      (rev3_fields s (rev4_fields s end)))))))))))

-- A coordinate lies in the weights, not the biases, of an expert.
unfoldable pub is_weight : ModelSpec → ℕ → Bool
is_weight spec j =
    let w1_end = spec.d_model * spec.d_ff in
    let b1_end = w1_end + spec.d_ff in
    let w2_end = b1_end + spec.d_ff * spec.d_model in ltb j w1_end || (leb b1_end j && ltb j w2_end)

module _ (p : Platform) where
  -- `ModelState.model_root`
  unfoldable pub model_root : ModelState → ℕ
  unfolding canonical_json
  model_root s = p.sha256 (p.dumps (canonical_json s))

  -- `page_state_root`; none where the page table is empty, and the assertion of `merkle.build` fails
  unfoldable pub page_state_root : List ℤ → ModelState → Option ℕ
  page_state_root w s =
      root p (map (λ (q : Page). p.tobytes (slice q.start (q.stop - q.start) w)) s.pages)

  -- One of the four 64-bit lanes of the digest of a block.
  unfoldable pub lane_value : ℕ → ℕ → ℕ → ℕ → ℕ
  lane_value trigger page_id blk lane =
      p.digest_int (
        ascii "sestrian-page-init|v1|"
        ++ (p.encode trigger
            ++ (ascii "|" ++ (p.decimal (pos page_id) ++ (ascii "|" ++ p.decimal (pos blk))))))
      / 2 ^ (64 * (3 - lane))
      % 2 ^ 64

  unfoldable pub init_value : ℕ → ℕ → ModelSpec → ℕ → ℤ
  unfolding lane_value is_weight
  init_value trigger page_id spec j =
      if is_weight spec j
      then pos (lane_value trigger page_id (j / 4) (j % 4) % 2_623) -ℤ pos 1_311
      else pos 0

  -- The coordinates from j on.
  unfoldable pub init_from : ℕ → ℕ → ModelSpec → ℕ → ℕ → List ℤ
  unfolding init_value
  init_from trigger page_id spec zero j = []
  init_from trigger page_id spec (suc n) j =
      init_value trigger page_id spec j ∷ init_from trigger page_id spec n (suc j)

  -- `page_init`
  unfoldable pub page_init : ℕ → ℕ → ModelSpec → List ℤ
  unfolding init_from
  page_init trigger page_id spec = init_from trigger page_id spec (expert_page_len spec) 0
