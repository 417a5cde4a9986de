-- ===== src/Addresses/Journal/Pins.antt =====
-- The pins of a day, read out of the rows of a range of days.
use vpn_panel.Prelude.{
  ℕ, ◌≤◌, ◌≡◌, refl, ap, ◌∙◌, inl, inr, Bool, ◌&&◌, List, [], ◌∷◌, arith, ltb, Bool-cases, filter,
  insert,
}
use vpn_panel.Prelude.Sort.{sort_by, filter-sort_by}
use vpn_panel.Addresses.Pins.{UserNodePin, pin_before, latest_from, covers, get_pins_covering_day}
use vpn_panel.Addresses.Pins.Laws.{pin_total, pin_trans}
use vpn_panel.Addresses.Journal.{pins_from, pins_on_day, get_pins_covering_range}

abbrev holds_on : ℕ → ℕ → UserNodePin → Bool
holds_on day_start day_end p = ltb p.created_at day_end && ltb day_start p.expires_at

pins_from-latest :
    (day_start day_end : ℕ) (result : List (ℕ × List ℕ)) (rows : List UserNodePin)
    → pins_from day_start day_end result rows
      ≡ latest_from result (filter (holds_on day_start day_end) rows)
unfolding pins_from
pins_from-latest day_start day_end result [] = refl
pins_from-latest day_start day_end result (p ∷ rows) =
    elim (Bool-cases (holds_on day_start day_end p)) [
      | inl holds ↦
          rw holds (pins_from-latest day_start day_end (insert p.host_id p.node_ids result) rows)
      | inr not_then ↦ rw not_then (pins_from-latest day_start day_end result rows)
    ]

-- Of the rows that a range of moments selects, those of a day in the range are the day's.
filter-covers :
    (uid range_start range_end day_start day_end : ℕ) (rows : List UserNodePin)
    → range_start ≤ day_start
    → day_end ≤ range_end
    → filter (holds_on day_start day_end) (filter (covers uid range_start range_end) rows)
      ≡ filter (covers uid day_start day_end) rows
filter-covers uid range_start range_end day_start day_end [] early late = refl
filter-covers uid range_start range_end day_start day_end (p ∷ rows) early late =
    ground (
      arith,
      early,
      late,
      filter-covers uid range_start range_end day_start day_end rows early late,
    )

-- For a day that lies in the range, the journal reads out of the rows of the whole range the same pins as
-- the query for that day alone gives.
pub pins_on_day-range :
    (rows : List UserNodePin) (uid range_start range_end day_start day_end : ℕ)
    → range_start ≤ day_start
    → day_end ≤ range_end
    → pins_on_day (get_pins_covering_range rows uid range_start range_end) day_start day_end
      ≡ get_pins_covering_day rows uid day_start day_end
unfolding pins_on_day get_pins_covering_range get_pins_covering_day
pins_on_day-range rows uid range_start range_end day_start day_end early late =
    pins_from-latest day_start day_end []
      (sort_by pin_before (filter (covers uid range_start range_end) rows))
    ∙ ap (latest_from []) (
        filter-sort_by pin_before pin_total pin_trans (holds_on day_start day_end)
          (filter (covers uid range_start range_end) rows)
        ∙ ap (sort_by pin_before)
            (filter-covers uid range_start range_end day_start day_end rows early late))
