-- ===== src/Bs/Pool.antt =====
-- app/db/crud.py: the traffic bought on top of the monthly limit (the pool), its carry-over to a new
-- month, and the operations that set it. `BsDb` is the part of the database that they read; the
-- current month is an argument, as the source computes it once at the start of each operation.
pub mod Normal
pub mod Setting
use vpn_panel.Prelude.{
  ℕ, ◌+◌, ◌-◌, max, Option, none, some, Bool, true, false, ◌&&◌, ◌||◌, not, List, [], ◌∷◌, map,
  filter, sum_of, contains, if◌then◌else◌, ◌==◌, ltb, leb, lookup, get_or, or_zero, truthy,
}
use vpn_panel.Prelude.Raises.{Result, ok, err, value_error}
use vpn_panel.Users.{User, BsRow}
use vpn_panel.Bs.{aggregate_bs_usage, carry_over_pool, monthly_effective_limit}

pub record BsDb : Type 0 where
  pub users : List User
  pub usage : List BsRow
  pub bs_nodes : List ℕ  -- the ids of the nodes with is_bs
  pub bs_monthly_limit : ℕ  -- get_bs_monthly_limit

abbrev pub find_user : ℕ → List User → Option User
find_user uid [] = none
find_user uid (u ∷ us) = if u.id == uid then some u else find_user uid us

-- UPDATE users SET bs_extra = …, bs_extra_period = … WHERE id = uid
abbrev pub set_pool : ℕ → ℕ → ℕ → List User → List User
set_pool uid pool m [] = []
set_pool uid pool m (u ∷ us) =
    (if u.id == uid then record u { bs_extra = some pool; bs_extra_period = some m } else u)
    ∷ set_pool uid pool m us

abbrev pub with_pool : ℕ → ℕ → ℕ → BsDb → BsDb
with_pool uid pool m db = record db { users = set_pool uid pool m db.users }

-- crud.get_bs_usage_totals
unfoldable pub get_bs_usage_totals : BsDb → ℕ → ℕ → ℕ
get_bs_usage_totals db uid m =
    get_or
      (lookup uid (
        aggregate_bs_usage
          (filter (λ r. contains r.node_id db.bs_nodes && r.user_id == uid) db.usage) m))
      0

-- a month in [since, m) or after m; NULL is in no range
abbrev pub is_stale : ℕ → ℕ → Option ℕ → Bool
is_stale m since none = false
is_stale m since (some p) = not (p == m) && leb since p

-- crud.get_bs_usage_totals_stale
unfoldable pub get_bs_usage_totals_stale : BsDb → ℕ → ℕ → ℕ → ℕ
get_bs_usage_totals_stale db uid m since =
    sum_of (λ r. r.monthly_used)
      (filter
        (λ r.
          contains r.node_id db.bs_nodes && r.user_id == uid && is_stale m since r.monthly_period)
        db.usage)

-- `not period or period >= yyyymm`
abbrev pub is_current : ℕ → Option ℕ → Bool
is_current m none = true
is_current m (some p) = not (truthy (some p)) || leb m p

-- the new pool of a user whose period lags behind
abbrev pub carried : BsDb → ℕ → User → ℕ → ℕ
carried db uid u m =
    carry_over_pool (some (or_zero u.bs_extra))
      (get_bs_usage_totals_stale db uid m (or_zero u.bs_extra_period)) db.bs_monthly_limit

unfoldable pub normalized : BsDb → ℕ → ℕ → Bool → Option User → ℕ × BsDb
normalized db uid m persist none = (0, db)
normalized db uid m persist (some u) =
    if is_current m u.bs_extra_period
    then (or_zero u.bs_extra, db)
    else (carried db uid u m, if persist then with_pool uid (carried db uid u m) m db else db)

-- crud.normalize_bs_extra_period: the pool of the month, and the database after it
unfoldable pub normalize_bs_extra_period : BsDb → ℕ → ℕ → Bool → ℕ × BsDb
unfolding normalized
normalize_bs_extra_period db uid m persist = normalized db uid m persist (find_user uid db.users)

pub record BsState : Type 0 where
  pub monthly_used : ℕ
  pub monthly_limit : ℕ
  pub pool : ℕ
  pub limit_total : ℕ

-- crud.get_bs_state
unfoldable pub get_bs_state : BsDb → ℕ → ℕ → BsState
get_bs_state db uid m =
    let pool = (normalize_bs_extra_period db uid m false).0 in
    record {
      monthly_used = get_bs_usage_totals db uid m;
      monthly_limit = db.bs_monthly_limit;
      pool = pool;
      limit_total =
          if db.bs_monthly_limit == 0
          then 0
          else monthly_effective_limit db.bs_monthly_limit (some pool);
    }

-- crud.set_user_bs_extra_amount
unfoldable pub set_user_bs_extra_amount : BsDb → ℕ → ℕ → ℕ → Result BsDb
set_user_bs_extra_amount db uid m extra =
    if db.bs_monthly_limit == 0
    then if extra == 0 then ok (with_pool uid 0 m db) else err value_error
    else ok (with_pool uid extra m (normalize_bs_extra_period db uid m true).1)

-- crud.set_user_bs_limit_total
unfoldable pub set_user_bs_limit_total : BsDb → ℕ → ℕ → ℕ → Result BsDb
set_user_bs_limit_total db uid m total =
    if db.bs_monthly_limit == 0
    then if total == 0 then ok (with_pool uid 0 m db) else err value_error
    else if ltb total db.bs_monthly_limit
    then err value_error
    else ok
        (with_pool uid (total - db.bs_monthly_limit) m (normalize_bs_extra_period db uid m true).1)

-- crud.reset_user_bs_extra_pool
unfoldable pub reset_user_bs_extra_pool : BsDb → ℕ → ℕ → BsDb
reset_user_bs_extra_pool db uid m = with_pool uid 0 m db

-- crud.modify_user_bs_extra; `resets` is the bot's setting bs_extra_reset_pool_on_prolong
unfoldable pub modify_user_bs_extra : BsDb → ℕ → ℕ → Bool → Option ℕ → Bool → Result BsDb
unfolding reset_user_bs_extra_pool
modify_user_bs_extra db uid m resets delta true =
    ok (if resets then reset_user_bs_extra_pool db uid m else db)
modify_user_bs_extra db uid m resets none false = err value_error
modify_user_bs_extra db uid m resets (some delta) false =
    let (pool, db') = normalize_bs_extra_period db uid m true in
    ok (with_pool uid (pool + delta) m db')
