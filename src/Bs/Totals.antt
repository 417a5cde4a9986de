-- ===== src/Bs/Totals.antt =====
-- The totals of a month are sums over its rows, and a tick adds to them exactly what was measured.
use vpn_panel.Prelude.{
  ℕ, ◌+◌, ◌≡◌, ◌∙◌, Option, none, some, Bool, true, false, ◌&&◌, List, [], ◌∷◌, any, sum_of,
  if◌then◌else◌, ◌==◌, lookup, lookup-insert, insert, get_or, arith,
}
use vpn_panel.Users.{BsRow}
use vpn_panel.Bs.{is_period, aggregate_from, aggregate_bs_usage}

-- the bytes that the rows show for a user and a month
abbrev pub used_in : ℕ → ℕ → List BsRow → ℕ
used_in uid m =
    sum_of (λ r. if is_period m r.monthly_period && r.user_id == uid then r.monthly_used else 0)

abbrev pub has_row_in : ℕ → ℕ → List BsRow → Bool
has_row_in uid m = any (λ r. is_period m r.monthly_period && r.user_id == uid)

abbrev plus : Option ℕ → Bool → ℕ → Option ℕ
plus none false n = none
plus none true n = some n
plus (some t) b n = some (t + n)

aggregate_from_lem :
    (m uid : ℕ) (totals : List (ℕ × ℕ)) (rows : List BsRow)
    → lookup uid (aggregate_from m totals rows)
      ≡ plus (lookup uid totals) (has_row_in uid m rows) (used_in uid m rows)
unfolding aggregate_from
aggregate_from_lem m uid totals [] = ground arith
aggregate_from_lem m uid totals (r ∷ rows) =
    let grown = get_or (lookup r.user_id totals) 0 + r.monthly_used in
    ground (
      arith,
      aggregate_from_lem m uid totals rows,
      aggregate_from_lem m uid (insert r.user_id grown totals) rows,
      lookup-insert r.user_id uid grown totals,
    )

-- A user has a total for the month exactly when a row of that month is theirs, and it is the sum of
-- those rows; rows of other months and of other users do not count.
pub aggregate_bs_usage_lem :
    (m uid : ℕ) (rows : List BsRow)
    → lookup uid (aggregate_bs_usage rows m)
      ≡ (if has_row_in uid m rows then some (used_in uid m rows) else none)
unfolding aggregate_bs_usage
aggregate_bs_usage_lem m uid rows = aggregate_from_lem m uid [] rows ∙ ground arith
