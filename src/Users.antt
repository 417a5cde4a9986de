-- ===== src/Users.antt =====
-- app/db/models.py: the columns of a user that the modelled operations read or write, the tariff
-- planned for later, the log of resets and the per-node BS counters; app/models/user.py: the
-- statuses. Moments are seconds, months are the numbers YYYYMM that the keys 'YYYY-MM' stand for.
pub mod Reset
pub mod Status
pub mod Periodic
pub mod Autodelete
pub mod Modify
pub mod Usage
use vpn_panel.Prelude.{ℕ, ◌+◌, String, Option, List, Bool, sum_of}
use vpn_panel.Prelude.Int.{ℤ}

pub data UserStatus : Type 0 where
  active disabled limited expired on_hold : UserStatus

pub record NextPlan : Type 0 where
  pub data_limit : ℕ
  pub expire : Option ℕ
  pub add_remaining_traffic : Bool
  pub fire_on_either : Bool

pub record UsageLog : Type 0 where
  pub used_traffic_at_reset : ℕ
  pub reset_at : ℕ

pub record User : Type 0 where
  pub id : ℕ
  pub status : UserStatus
  pub used_traffic : ℕ
  pub node_usages : List ℕ
  pub data_limit : Option ℤ  -- `reset_user_by_next` can make it negative
  pub usage_logs : List UsageLog
  pub expire : Option ℕ
  pub admin_id : Option ℕ
  pub created_at : ℕ
  pub edit_at : Option ℕ
  pub online_at : Option ℕ
  pub on_hold_expire_duration : Option ℕ
  pub on_hold_timeout : Option ℕ
  pub auto_delete_in_days : Option ℤ
  pub last_status_change : Option ℕ
  pub next_plan : Option NextPlan
  pub subscription_token : Option String
  pub sub_revoked_at : Option ℕ
  pub bs_extra : Option ℕ
  pub bs_extra_period : Option ℕ
  pub bot_id : Option ℕ

pub record BsRow : Type 0 where
  pub node_id : ℕ
  pub user_id : ℕ
  pub monthly_used : ℕ
  pub monthly_period : Option ℕ

-- User.lifetime_used_traffic
abbrev pub lifetime_used_traffic : User → ℕ
lifetime_used_traffic u =
    sum_of (λ (log : UsageLog). log.used_traffic_at_reset) u.usage_logs + u.used_traffic
