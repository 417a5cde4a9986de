-- ===== src/Users/Periodic.antt =====
-- app/jobs/reset_user_data_usage.py: the hourly job that resets the traffic of users by their strategy.
pub mod Laws
use vpn_panel.Prelude.{
  ℕ, ◌-◌, ◌*◌, Bool, true, false, ◌&&◌, ◌||◌, List, [], ◌∷◌, ◌++◌, leb, if◌then◌else◌,
}
use vpn_panel.Users.{User, UserStatus, active, limited, UsageLog, BsRow}
use vpn_panel.Users.Reset.{reset_user_data_usage}
use vpn_panel.Users.Status.{is_status}

-- UserDataLimitResetStrategy
pub data ResetStrategy : Type 0 where
  no_reset day week month year : ResetStrategy

-- reset_strategy_to_days; the query leaves `no_reset` out
abbrev pub days_of : ResetStrategy → ℕ
days_of no_reset = 0
days_of day = 1
days_of week = 7
days_of month = 30
days_of year = 365

abbrev pub is_resetting : ResetStrategy → Bool
is_resetting no_reset = false
is_resetting day = true
is_resetting week = true
is_resetting month = true
is_resetting year = true

abbrev last_log : ℕ → List UsageLog → ℕ
last_log created_at [] = created_at
last_log created_at (log ∷ logs) = last_log log.reset_at logs

-- User.last_traffic_reset_time
unfoldable pub last_traffic_reset_time : User → ℕ
last_traffic_reset_time u = last_log u.created_at u.usage_logs

-- the query of the job, and (now - last_reset_time).days >= num_days_to_reset
unfoldable pub is_reset_due : ℕ → ResetStrategy → User → Bool
unfolding last_traffic_reset_time
is_reset_due now strategy u =
    is_resetting strategy
    && (is_status u.status active || is_status u.status limited)
    && leb (days_of strategy * 86400) (now - last_traffic_reset_time u)

-- the tables, and the users whom the job gives back to the xray cores
pub record ResetState : Type 0 where
  pub users : List (ResetStrategy × User)
  pub rows : List BsRow
  pub added : List ℕ

-- the body of the loop: the user's new state, the rows, and who is added
unfoldable pub reset_one_due : ℕ → ResetStrategy × User → ResetState → ResetState
unfolding is_reset_due
reset_one_due now (strategy, u) s =
    let (after, rows) = reset_user_data_usage now u s.rows in
    if is_reset_due now strategy u
    then record {
      users = s.users ++ ((strategy, after) ∷ []);
      rows = rows;
      added = if is_status after.status limited then s.added ++ (after.id ∷ []) else s.added;
    }
    else record s { users = s.users ++ ((strategy, u) ∷ []) }

-- the job: `users` of the state gathers the users that the loop has been through
unfoldable pub reset_due_users : ℕ → List (ResetStrategy × User) → ResetState → ResetState
unfolding reset_one_due
reset_due_users now [] s = s
reset_due_users now (entry ∷ entries) s = reset_due_users now entries (reset_one_due now entry s)
