-- ===== src/Bs/Pool/Setting.antt =====
-- What is set is what is read afterwards.
use vpn_panel.Prelude.{
  ℕ, ◌+◌, ◌-◌, ◌<◌, ◌≡◌, ◌↔◌, ◌⊎◌, refl, ap, some, Bool, true, false, if◌then◌else◌, ◌==◌, arith,
}
use vpn_panel.Prelude.Raises.{ok, err, value_error}
use vpn_panel.Users.{User}
use vpn_panel.Bs.{monthly_effective_limit}
use vpn_panel.Bs.Pool.{
  BsDb, find_user, with_pool, normalize_bs_extra_period, get_bs_state, set_user_bs_extra_amount,
  set_user_bs_limit_total, modify_user_bs_extra,
}
use vpn_panel.Bs.Pool.Normal.{normalize_once, normalize_keeps, pool-with_pool}

-- the database that a setting writes to: the limit is that of before, and the user is still there
module _ (db : BsDb) (uid m : ℕ) (u : User) (there : find_user uid db.users ≡ some u) where
  abbrev fresh : BsDb
  fresh = (normalize_bs_extra_period db uid m true).1

  pool_after : (pool : ℕ) → (get_bs_state (with_pool uid pool m fresh) uid m).pool ≡ pool
  unfolding get_bs_state
  pool_after pool =
      let (v, f) = (normalize_keeps db uid m true u there).0 in
      rw (pool-with_pool fresh uid pool m false v f) refl

  pool_plain : (pool : ℕ) → (get_bs_state (with_pool uid pool m db) uid m).pool ≡ pool
  unfolding get_bs_state
  pool_plain pool = rw (pool-with_pool db uid pool m false u there) refl

  limit_after : fresh.bs_monthly_limit ≡ db.bs_monthly_limit
  limit_after = (normalize_keeps db uid m true u there).1

-- The state's total is the limit and the pool, or 0 without a limit.
total_of_state :
    (db : BsDb) (uid m : ℕ)
    → (get_bs_state db uid m).limit_total
      ≡ (if db.bs_monthly_limit == 0 then 0 else db.bs_monthly_limit + (get_bs_state db uid m).pool)
unfolding get_bs_state monthly_effective_limit
total_of_state db uid m = ground arith

-- An amount that is set for a user that exists is the pool that is read in the same month.
pub state-set_amount :
    (db db' : BsDb) (uid m extra : ℕ) (u : User)
    → find_user uid db.users ≡ some u
    → set_user_bs_extra_amount db uid m extra ≡ ok db'
    → (get_bs_state db' uid m).pool ≡ extra
unfolding set_user_bs_extra_amount
state-set_amount db db' uid m extra u f h =
    ground (arith, pool_after db uid m u f extra, pool_plain db uid m u f 0)

-- A total that is set for a user that exists is the total that is read in the same month.
pub state-set_total :
    (db db' : BsDb) (uid m total : ℕ) (u : User)
    → find_user uid db.users ≡ some u
    → set_user_bs_limit_total db uid m total ≡ ok db'
    → (get_bs_state db' uid m).limit_total ≡ total
unfolding set_user_bs_limit_total
state-set_total db db' uid m total u f h = ground (
  arith,
  total_of_state db' uid m,
  limit_after db uid m u f,
  pool_after db uid m u f (total - db.bs_monthly_limit),
)

-- A total is refused exactly when it is below the panel's limit, or positive without a limit.
pub set_total-raises :
    (db : BsDb) (uid m total : ℕ)
    → (set_user_bs_limit_total db uid m total ≡ err value_error)
      ↔ ((total < db.bs_monthly_limit) ⊎ ((db.bs_monthly_limit ≡ 0) × (0 < total)))
unfolding set_user_bs_limit_total
set_total-raises db uid m total = (ground arith, ground arith)

-- What is bought is added to the pool as carried over, for a user that exists.
pub state-modify :
    (db db' : BsDb) (uid m delta : ℕ) (resets : Bool) (u : User)
    → find_user uid db.users ≡ some u
    → modify_user_bs_extra db uid m resets (some delta) false ≡ ok db'
    → (get_bs_state db' uid m).pool ≡ (get_bs_state db uid m).pool + delta
unfolding modify_user_bs_extra
state-modify db db' uid m delta resets u f h = ground (
  arith,
  pool_after db uid m u f ((normalize_bs_extra_period db uid m true).0 + delta),
  carried_pool,
)
  where
    carried_pool : (get_bs_state db uid m).pool ≡ (normalize_bs_extra_period db uid m true).0
    carried_pool =
        unfold get_bs_state in ap (λ (p : ℕ × BsDb). p.0) (normalize_once db uid m true).0
