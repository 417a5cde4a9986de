-- ===== src/Users/Reset.antt =====
-- app/db/crud.py: the resets of a user's traffic, for one user, by the planned tariff, and for all.
-- The BS counters of the user are rows of their own table.
pub mod Laws
use vpn_panel.Prelude.{
  ℕ, Option, none, some, Bool, true, false, ◌||◌, not, List, [], ◌∷◌, ◌++◌, map, filter, any,
  if◌then◌else◌, ◌==◌,
}
use vpn_panel.Prelude.Int.{ℤ, pos, ◌+ℤ◌, ◌-ℤ◌}
use vpn_panel.Prelude.Raises.{Result, ok, err, type_error, ◌>>=◌}
use vpn_panel.Users.{
  User, UserStatus, active, disabled, limited, expired, on_hold, NextPlan, UsageLog, BsRow,
}
use vpn_panel.Users.Status.{is_status, owned_by}

-- UserUsageResetLogs(user=dbuser, used_traffic_at_reset=dbuser.used_traffic)
abbrev log_reset : ℕ → User → List UsageLog
log_reset now u =
    u.usage_logs ++ record { used_traffic_at_reset = u.used_traffic; reset_at = now } ∷ []

abbrev pub drop_rows : (BsRow → Bool) → List BsRow → List BsRow
drop_rows p = filter (λ r. not (p r))

-- `dbuser.status not in (UserStatus.expired or UserStatus.disabled)`: the `or` of two members is the
-- first one, and `in` on it tests for a part of the text "expired", which only `expired` itself is.
abbrev status_after_reset : UserStatus → UserStatus
status_after_reset expired = expired
status_after_reset _ = active

-- crud.reset_user_data_usage
unfoldable pub reset_user_data_usage : ℕ → User → List BsRow → User × List BsRow
reset_user_data_usage now u rows = (
  record u {
    usage_logs = log_reset now u;
    used_traffic = 0;
    node_usages = [];
    status = status_after_reset u.status;
    next_plan = none;
  },
  drop_rows (λ r. r.user_id == u.id) rows,
)

-- `dbuser.data_limit - dbuser.used_traffic`; None has no `-`
abbrev pub remaining : Option ℤ → ℕ → Result ℤ
remaining none used = err type_error
remaining (some limit) used = ok (limit -ℤ pos used)

-- the conditional of the source: nothing is added when `add_remaining_traffic` is set
abbrev pub carried : NextPlan → User → Result ℤ
carried plan u =
    if plan.add_remaining_traffic then ok (pos 0) else remaining u.data_limit u.used_traffic

renewed : ℕ → User → Option NextPlan → Result User
renewed now u none = ok u
renewed now u (some plan) = do
  carry ← carried plan u
  ok (record u {
    usage_logs = log_reset now u;
    node_usages = [];
    status = active;
    data_limit = some (pos plan.data_limit +ℤ carry);
    expire = plan.expire;
    used_traffic = 0;
    next_plan = none;
  })

-- crud.reset_user_by_next
unfoldable pub reset_user_by_next : ℕ → User → Result User
unfolding renewed
reset_user_by_next now u = renewed now u u.next_plan

abbrev reset_one : User → User
reset_one u = record u {
  used_traffic = 0;
  status =
      if is_status u.status on_hold || is_status u.status expired || is_status u.status disabled
      then u.status
      else active;
  usage_logs = [];
  node_usages = [];
  next_plan = none;
}

-- crud.reset_all_users_data_usage
unfoldable pub reset_all_users_data_usage :
    Option ℕ → List User → List BsRow → List User × List BsRow
reset_all_users_data_usage admin us rows = (
  map (λ u. if owned_by admin u then reset_one u else u) us,
  drop_rows (λ r. any (λ u. u.id == r.user_id) (filter (owned_by admin) us)) rows,
)
