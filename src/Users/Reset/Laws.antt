-- ===== src/Users/Reset/Laws.antt =====
-- What the resets keep and what they clear.
use vpn_panel.Prelude.{
  Pairs, ℕ, ◌≡◌, refl, ◌↔◌, ◌⊎◌, ◌&&◌, Option, none, some, Bool, true, false, List, [], ◌∷◌, any,
  filter, sum_of-append, arith, ap, not, ◌==◌, if◌then◌else◌,
}
use vpn_panel.Prelude.Int.{ℤ, pos, ◌+ℤ◌, ◌-ℤ◌}
use vpn_panel.Prelude.Raises.{ok, err, type_error}
use vpn_panel.Users.{
  User, UserStatus, active, limited, disabled, expired, on_hold, NextPlan, UsageLog, BsRow,
  lifetime_used_traffic,
}
use vpn_panel.Users.Status.{owned_by, is_status}
use vpn_panel.Users.Reset.{
  reset_user_data_usage, reset_user_by_next, reset_all_users_data_usage, drop_rows,
}

abbrev logged : UsageLog → ℕ
logged log = log.used_traffic_at_reset

-- the rows of one user
abbrev pub rows_of : ℕ → List BsRow → List BsRow
rows_of uid = filter (λ r. r.user_id == uid)

pub rows_of-drop :
    (uid other : ℕ) (rows : List BsRow)
    → rows_of other (drop_rows (λ r. r.user_id == uid) rows)
      ≡ (if uid == other then [] else rows_of other rows)
rows_of-drop uid other [] = ground arith
rows_of-drop uid other (r ∷ rows) = ground (arith, rows_of-drop uid other rows)

any-drop :
    (p : ℕ → Bool) (uid : ℕ) (rows : List BsRow)
    → any (λ r. r.user_id == uid) (drop_rows (λ r. p r.user_id) rows)
      ≡ (any (λ r. r.user_id == uid) rows && not (p uid))
any-drop p uid [] = refl
any-drop p uid (r ∷ rows) = ground (arith, any-drop p uid rows, ap p)

+ℤ_zero : (n : ℕ) → pos n +ℤ pos 0 ≡ pos n
unfolding ◌+ℤ◌
+ℤ_zero n = ground arith

-- A reset of one user keeps the lifetime traffic, clears the counter of the period, removes the
-- user's BS counters and nobody else's, drops the planned tariff, keeps an expired user expired and makes
-- every other one active.
pub reset_user_data_usage_lem :
    (now : ℕ) (u : User) (rows : List BsRow) (other : ℕ)
    → let (u', rows') = reset_user_data_usage now u rows in
      (lifetime_used_traffic u' ≡ lifetime_used_traffic u)
      × (u'.used_traffic ≡ 0)
      × (u'.next_plan ≡ none)
      × (rows_of other rows' ≡ (if u.id == other then [] else rows_of other rows))
      × (u'.status ≡ (if is_status u.status expired then expired else active))
unfolding reset_user_data_usage
reset_user_data_usage_lem now u rows other = (
  omega (arith, sum_of-append logged u.usage_logs),
  refl,
  refl,
  rows_of-drop u.id other rows,
  ground arith,
)

-- A reset of one user makes a disabled or an on-hold user active.
pub reset-reactivates :
    (now : ℕ) (u : User) (rows : List BsRow)
    → (u.status ≡ disabled) ⊎ (u.status ≡ on_hold)
    → (reset_user_data_usage now u rows).0.status ≡ active
unfolding reset_user_data_usage
reset-reactivates now u rows h = ground arith

-- The reset by the planned tariff raises exactly when there is a plan without
-- `add_remaining_traffic` for a user without a data limit.
pub reset_user_by_next-raises :
    (now : ℕ) (u : User) (plan : NextPlan)
    → u.next_plan ≡ some plan
    → (reset_user_by_next now u ≡ err type_error)
      ↔ ((plan.add_remaining_traffic ≡ false) × (u.data_limit ≡ none))
unfolding reset_user_by_next
reset_user_by_next-raises now u plan h = (ground arith, ground arith)

-- The reset by the planned tariff keeps the lifetime traffic, starts a period that is active, empty
-- and without a plan, with the plan's expiry. With `add_remaining_traffic` the new limit is the
-- plan's alone; without it, the new limit exceeds the plan's by what was left of the old one
-- (falls short of it by the overrun).
pub reset_user_by_next_lem :
    (now : ℕ) (u u' : User) (plan : NextPlan)
    → u.next_plan ≡ some plan
    → reset_user_by_next now u ≡ ok u'
    → (lifetime_used_traffic u' ≡ lifetime_used_traffic u)
      × (u'.used_traffic ≡ 0)
      × (u'.status ≡ active)
      × (u'.next_plan ≡ none)
      × (u'.expire ≡ plan.expire)
      × (plan.add_remaining_traffic ≡ true → u'.data_limit ≡ some (pos plan.data_limit))
      × (plan.add_remaining_traffic ≡ false
          → (old : ℤ) → u.data_limit ≡ some old
          → u'.data_limit ≡ some (pos plan.data_limit +ℤ (old -ℤ pos u.used_traffic)))
unfolding reset_user_by_next
reset_user_by_next_lem now u u' plan hp h = (
  ground (
    arith,
    sum_of-append logged u.usage_logs
        (record { used_traffic_at_reset = u.used_traffic; reset_at = now } ∷ []),
  ),
  ground arith,
  ground arith,
  ground arith,
  ground arith,
  λ added. ground (arith, +ℤ_zero plan.data_limit),
  λ added old limited. ground arith,
)

abbrev is_kept : UserStatus → Bool
is_kept active = false
is_kept limited = false
is_kept _ = true

-- what the reset of all users leaves of one of them
pub record IsCleared (u u' : User) : Type 0 where
  pub unused : lifetime_used_traffic u' ≡ 0
  pub planless : u'.next_plan ≡ none
  pub kept : is_kept u.status ≡ true → u'.status ≡ u.status
  pub activated : is_kept u.status ≡ false → u'.status ≡ active

pub record IsResetBy (admin : Option ℕ) (u u' : User) : Type 0 where
  pub owned : owned_by admin u ≡ true → IsCleared u u'
  pub other : owned_by admin u ≡ false → u' ≡ u

-- The reset of all users of an admin (of all users without an admin) clears the period, the log of
-- resets and the plan of each of them, activates those that are active or limited, keeps the status
-- of the on-hold, expired and disabled ones, and leaves every other user as it was.
pub reset_all-IsResetBy :
    (admin : Option ℕ) (us : List User) (rows : List BsRow)
    → Pairs (IsResetBy admin) us (reset_all_users_data_usage admin us rows).0
unfolding reset_all_users_data_usage
reset_all-IsResetBy admin [] rows = tt
reset_all-IsResetBy admin (u ∷ us) rows = (
  record { owned = λ h. ground arith; other = λ h. ground arith },
  reset_all-IsResetBy admin us rows,
)

-- The BS counters that survive a reset of all users are those of the users not reset.
pub reset_all-rows :
    (admin : Option ℕ) (uid : ℕ) (us : List User) (rows : List BsRow)
    → any (λ r. r.user_id == uid) (reset_all_users_data_usage admin us rows).1 ≡ (
        any (λ r. r.user_id == uid) rows
        && not (any (λ u. u.id == uid) (filter (owned_by admin) us)))
unfolding reset_all_users_data_usage
reset_all-rows admin uid us rows =
    any-drop (λ k. any (λ u. u.id == k) (filter (owned_by admin) us)) uid rows
