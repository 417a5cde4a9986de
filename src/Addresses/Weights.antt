-- ===== src/Addresses/Weights.antt =====
-- app/db/crud.py: the daily snapshots of the nodes' weights, read for one day or for a range of days, and
-- `_HistoryScope.weights_for` of app/services/address_history.py. Rows are of days since 2026-01-01.
pub mod Ranges
use vpn_panel.Prelude.{
  ℕ, ◌+◌, ◌-◌, max, Bool, ◌&&◌, Option, none, some, List, [], ◌∷◌, map, ◌==◌, if◌then◌else◌, get_or,
  filter, lookup, insert, keys,
}
use vpn_panel.Prelude.Int.{ℤ, pos, leb_ℤ, ltb_ℤ, ◌-ℤ◌}

-- NodeWeightSnapshot
pub record WeightRow (F : Type 0) : Type 0 where
  pub epoch_index : ℕ
  pub node_id : ℕ
  pub weight : F

-- WEIGHT_SNAPSHOT_MAX_AGE_DAYS
abbrev pub max_age_days : ℕ
max_age_days = 2

-- max(days), None of none
abbrev pub larger : Option ℕ → Option ℕ → Option ℕ
larger none b = b
larger (some a) none = some a
larger (some a) (some b) = some (max a b)

abbrev pub latest_day : (ℕ → Bool) → List ℕ → Option ℕ
latest_day fits [] = none
latest_day fits (day ∷ days) = larger (if fits day then some day else none) (latest_day fits days)

module _ {F : Type 0} where
  -- {row.node_id: row.weight for row in rows}, added to a dict
  abbrev pub weights_from : List (ℕ × F) → List (WeightRow F) → List (ℕ × F)
  weights_from weights [] = weights
  weights_from weights (row ∷ rows) = weights_from (insert row.node_id row.weight weights) rows

  abbrev pub day_of : WeightRow F → ℕ
  day_of row = row.epoch_index

  abbrev pub is_of_day : ℕ → WeightRow F → Bool
  is_of_day day row = row.epoch_index == day

  -- the weights of the latest day, unless it lies too far back
  abbrev pub unless_stale : ℤ → (ℕ → List (ℕ × F)) → Option ℕ → List (ℕ × F)
  unless_stale day weights_on none = []
  unless_stale day weights_on (some latest) =
      if ltb_ℤ (pos (latest + max_age_days)) day then [] else weights_on latest

  unfoldable pub get_weight_snapshot : List (WeightRow F) → ℤ → List (ℕ × F)
  get_weight_snapshot rows day =
      unless_stale day (λ latest. weights_from [] (filter (is_of_day latest) rows))
        (latest_day (λ d. leb_ℤ (pos d) day) (map day_of rows))

  -- by_day.setdefault(row.epoch_index, {})[row.node_id] = row.weight
  abbrev pub put_row : WeightRow F → List (ℕ × List (ℕ × F)) → List (ℕ × List (ℕ × F))
  put_row row by_day =
      insert row.epoch_index
        (insert row.node_id row.weight (get_or (lookup row.epoch_index by_day) [])) by_day

  abbrev pub by_day_from : List (ℕ × List (ℕ × F)) → List (WeightRow F) → List (ℕ × List (ℕ × F))
  by_day_from by_day [] = by_day
  by_day_from by_day (row ∷ rows) = by_day_from (put_row row by_day) rows

  abbrev pub is_in_range : ℤ → ℤ → WeightRow F → Bool
  is_in_range first last row =
      leb_ℤ (first -ℤ pos max_age_days) (pos row.epoch_index) && leb_ℤ (pos row.epoch_index) last

  unfoldable pub get_weight_snapshots_range : List (WeightRow F) → ℤ → ℤ → List (ℕ × List (ℕ × F))
  get_weight_snapshots_range rows first last = by_day_from [] (filter (is_in_range first last) rows)

  -- the rest of weights_for, of the day on which the epoch began
  unfoldable pub weights_on : List (ℕ × List (ℕ × F)) → ℤ → List (ℕ × F)
  weights_on snapshots day =
      unless_stale day (λ latest. get_or (lookup latest snapshots) [])
        (latest_day (λ d. leb_ℤ (pos d) day) (keys snapshots))
