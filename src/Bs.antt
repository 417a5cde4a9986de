-- ===== src/Bs.antt =====
-- app/xray/bs_limit.py: the monthly limit over the BS nodes, as pure functions over counters. Months
-- are the numbers YYYYMM of the keys 'YYYY-MM', which compare as the keys do; bytes are numbers.
pub mod Totals
pub mod Pool
pub mod Nodes
pub mod Record
use vpn_panel.Prelude.{
  ℕ, ◌+◌, ◌*◌, ◌-◌, ◌/◌, ◌%◌, ◌^◌, max, Option, none, some, Bool, true, false, ◌&&◌, not, List, [],
  ◌∷◌, filter, any, if◌then◌else◌, ◌==◌, leb, lookup, insert, get_or, or_zero, truthy,
}
use vpn_panel.Users.{BsRow}

-- period_keys(now)
abbrev pub period_keys : ℕ → ℕ → ℕ
period_keys year month = year * 100 + month

pub record Counter : Type 0 where
  pub monthly_used : ℕ
  pub monthly_period : Option ℕ

abbrev pub is_period : ℕ → Option ℕ → Bool
is_period m none = false
is_period m (some p) = p == m

base_of : Option Counter → ℕ → ℕ
base_of none m = 0
base_of (some c) m = if is_period m c.monthly_period then c.monthly_used else 0

-- the counter after a tick: a counter of another month begins anew
unfoldable pub bs_counter_step : Option Counter → ℕ → ℕ → Counter
unfolding base_of
bs_counter_step existing delta m = record {
  monthly_used = base_of existing m + delta;
  monthly_period = some m;
}

-- pairs (node_id, user_id)
abbrev pub same : ℕ × ℕ → ℕ × ℕ → Bool
same a b = a.0 == b.0 && a.1 == b.1

abbrev pub member : ℕ × ℕ → List (ℕ × ℕ) → Bool
member a = any (same a)

-- set difference
abbrev pub minus : List (ℕ × ℕ) → List (ℕ × ℕ) → List (ℕ × ℕ)
minus xs ys = filter (λ x. not (member x ys)) xs

-- (to_block, to_unblock)
unfoldable pub diff_blocks : List (ℕ × ℕ) → List (ℕ × ℕ) → List (ℕ × ℕ) × List (ℕ × ℕ)
diff_blocks desired current = (minus desired current, minus current desired)

-- the loop of aggregate_bs_usage, from the totals so far
aggregate_from : ℕ → List (ℕ × ℕ) → List BsRow → List (ℕ × ℕ)
aggregate_from m totals [] = totals
aggregate_from m totals (r ∷ rows) =
    aggregate_from m
      (if is_period m r.monthly_period
        then insert r.user_id (get_or (lookup r.user_id totals) 0 + r.monthly_used) totals
        else totals)
      rows

-- user_id -> bytes used in the month, over the rows of that month
unfoldable pub aggregate_bs_usage : List BsRow → ℕ → List (ℕ × ℕ)
unfolding aggregate_from
aggregate_bs_usage rows m = aggregate_from m [] rows

unfoldable pub over_limit : ℕ → Option ℕ → Bool
over_limit used limit = truthy limit && leb (or_zero limit) used

unfoldable pub monthly_effective_limit : ℕ → Option ℕ → ℕ
monthly_effective_limit limit extra = if limit == 0 then 0 else limit + or_zero extra

-- `a - b` stops at 0 where the source takes `max(0, a - b)`
unfoldable pub carry_over_pool : Option ℕ → ℕ → ℕ → ℕ
carry_over_pool pool prev_used limit =
    if limit == 0 then or_zero pool else or_zero pool - (prev_used - limit)

unfoldable pub over_limit_monthly_pool : ℕ → ℕ → Option ℕ → Bool
unfolding monthly_effective_limit
over_limit_monthly_pool used limit extra =
    if limit == 0 then false else leb (monthly_effective_limit limit extra) used

unfoldable pub pick_bs_bar : ℕ → ℕ → Option (ℕ × ℕ)
pick_bs_bar used limit = if limit == 0 then none else some (used, limit)

abbrev pub gib : ℕ
gib = 1024 ^ 3

-- format_gib_label: tenths of a GiB, rounded to the nearest
unfoldable pub tenths_of : ℕ → ℕ
tenths_of n = (n * 10 + gib / 2) / gib
