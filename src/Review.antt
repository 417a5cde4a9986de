-- ===== src/Review.antt =====
-- app/jobs/review_users.py: the periodic review of the active users (over the limit or expired) and
-- of the on-hold users (online again or timed out). Commits are counted; what goes to the logs, the
-- reports and the xray cores is a list of events. An error of a core is only logged by the source,
-- so the calls of `xray.operations` have no result here. `now` is the moment at which the job began,
-- used also where the source reads the clock again for a time stamp.
pub mod Active
pub mod OnHold
pub mod Batches
pub mod Job
use vpn_panel.Prelude.{
  ℕ, ◌+◌, Option, none, some, Bool, true, false, ◌&&◌, ◌||◌, not, List, [], ◌∷◌, ◌++◌,
  if◌then◌else◌, leb, truthy,
}
use vpn_panel.Prelude.Int.{ℤ, pos, leb_ℤ, truthy_ℤ}
use vpn_panel.Prelude.Raises.{Result, ok, err, value_error, ◌>>=◌}
use vpn_panel.Users.{User, UserStatus, active, limited, expired, NextPlan}
use vpn_panel.Users.Reset.{reset_user_by_next}
use vpn_panel.Users.Status.{update_user_status, start_user_expire}

-- BATCH_SIZE_ACTIVE, BATCH_SIZE_ONHOLD and REMOVE_BATCH_SIZE
abbrev pub batch_size : ℕ
batch_size = 500

abbrev pub remove_batch_size : ℕ
remove_batch_size = 50

pub data Event : Type 0 where
  renewed : User → Event  -- update_user on the cores and report.user_data_reset_by_next
  changed : User → Event  -- report.status_change
  reminded : User → Event  -- add_notification_reminders

pub record ReviewState : Type 0 where
  pub checked_active : ℕ
  pub applied_next : ℕ
  pub limited_count : ℕ
  pub expired_count : ℕ
  pub on_hold_activated : ℕ
  pub changed_in_batch : ℕ
  pub commits : ℕ
  pub users_to_remove : List User
  pub events : List Event

abbrev pub start : ReviewState
start = record {
  checked_active = 0;
  applied_next = 0;
  limited_count = 0;
  expired_count = 0;
  on_hold_activated = 0;
  changed_in_batch = 0;
  commits = 0;
  users_to_remove = [];
  events = [];
}

-- `user.data_limit and user.used_traffic >= user.data_limit`
abbrev reached : Option ℤ → ℕ → Bool
reached none used = false
reached (some l) used = truthy_ℤ (some l) && leb_ℤ l (pos used)

unfoldable pub is_limited : User → Bool
is_limited u = reached u.data_limit u.used_traffic

abbrev passed : Option ℕ → ℕ → Bool
passed none now = false
passed (some e) now = truthy (some e) && leb e now

-- `user.expire and user.expire <= now_ts`
unfoldable pub is_expired : ℕ → User → Bool
is_expired now u = passed u.expire now

-- the two branches that apply the planned tariff
abbrev fires : Bool → Bool → Option NextPlan → Bool
fires l e none = false
fires l e (some plan) = (l || e) && (plan.fire_on_either || (l && e))

unfoldable pub is_plan_due : ℕ → User → Bool
is_plan_due now u = fires (is_limited u) (is_expired now u) u.next_plan

-- reset_user_by_next_report and the count of it
unfoldable pub apply_next : ℕ → User → ReviewState → Result (User × ReviewState)
apply_next now u s = do
  u' ← reset_user_by_next now u
  ok (u', record s { applied_next = s.applied_next + 1; events = s.events ++ renewed u' ∷ [] })

-- a commit after a full batch
unfoldable pub commit_full : ReviewState → ReviewState
commit_full s =
    if leb batch_size s.changed_in_batch
    then record s { commits = s.commits + 1; changed_in_batch = 0 }
    else s

unfoldable pub demote : ℕ → UserStatus → User → ReviewState → User × ReviewState
unfolding commit_full update_user_status
demote now status u s =
    let u' = update_user_status now status u in
    (
      u',
      commit_full (record s {
        users_to_remove = s.users_to_remove ++ u' ∷ [];
        changed_in_batch = s.changed_in_batch + 1;
        events = s.events ++ changed u' ∷ [];
      }),
    )

-- whether WEBHOOK_ADDRESS is set, and which seconds datetime.fromtimestamp takes for a date
pub record Webhook : Type 0 where
  pub is_set : Bool
  pub is_date : ℕ → Bool

-- calculate_expiration_days(user.expire) has a date to count to; without an end it is not called
abbrev pub is_dated : Webhook → Option ℕ → Bool
is_dated webhook none = true
is_dated webhook (some expire) = not (truthy (some expire)) || webhook.is_date expire

-- one event stands for what it reports of the thresholds; fromtimestamp raises out of the range of dates
unfoldable pub add_notification_reminders : Webhook → User → ReviewState → Result ReviewState
add_notification_reminders webhook u s =
    if is_dated webhook u.expire
    then ok (record s { events = s.events ++ reminded u ∷ [] })
    else err value_error

-- a user who is left alone
unfoldable pub remind : Webhook → User → ReviewState → Result (User × ReviewState)
unfolding add_notification_reminders
remind webhook u s =
    if webhook.is_set
    then (do s' ← add_notification_reminders webhook u s; ok (u, s'))
    else ok (u, s)

-- the body of the loop over the active users
unfoldable pub review_user : Webhook → ℕ → User → ReviewState → Result (User × ReviewState)
unfolding apply_next demote remind
review_user webhook now u s₀ =
    let s = record s₀ { checked_active = s₀.checked_active + 1 } in
    if is_plan_due now u
    then apply_next now u s
    else if is_limited u
    then ok (demote now limited u (record s { limited_count = s.limited_count + 1 }))
    else if is_expired now u
    then ok (demote now expired u (record s { expired_count = s.expired_count + 1 }))
    else remind webhook u s

unfoldable pub review_active :
    Webhook → ℕ → List User → ReviewState → Result (List User × ReviewState)
review_active webhook now [] s = ok ([], s)
review_active webhook now (u ∷ us) s = do
  (u', s') ← review_user webhook now u s
  (us', s'') ← review_active webhook now us s'
  ok (u' ∷ us', s'')

abbrev online_since : ℕ → Option ℕ → Bool
online_since base none = false
online_since base (some t) = leb base t

abbrev timed_out : ℕ → Option ℕ → Bool
timed_out now none = false
timed_out now (some t) = leb t now

abbrev base_of : ℕ → Option ℕ → ℕ
base_of created none = created
base_of created (some t) = t

-- online after it was put on hold, or not in time
unfoldable pub is_started : ℕ → User → Bool
is_started now u =
    online_since (base_of u.created_at u.edit_at) u.online_at || timed_out now u.on_hold_timeout

-- the body of the loop over the on-hold users
unfoldable pub review_on_hold_user : ℕ → User → ReviewState → Result (User × ReviewState)
unfolding commit_full
review_on_hold_user now u s =
    if is_started now u
    then (do
      u' ← start_user_expire now (update_user_status now active u)
      let s' = commit_full (record s {
        on_hold_activated = s.on_hold_activated + 1;
        changed_in_batch = s.changed_in_batch + 1;
      })
      ok (u', record s' { events = s'.events ++ changed u' ∷ [] }))
    else ok (u, s)

unfoldable pub review_on_hold : ℕ → List User → ReviewState → Result (List User × ReviewState)
review_on_hold now [] s = ok ([], s)
review_on_hold now (u ∷ us) s = do
  (u', s') ← review_on_hold_user now u s
  (us', s'') ← review_on_hold now us s'
  ok (u' ∷ us', s'')
