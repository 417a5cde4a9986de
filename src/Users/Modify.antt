-- ===== src/Users/Modify.antt =====
-- update_user of app/db/crud.py, with the reminders that it takes back (NotificationReminder of
-- app/db/models.py). Left out are the proxies of the user and their excluded inbounds; the checks of
-- UserModify in app/models/user.py have been passed, which bring `bot_username` to its normal form, and UserStatusModify is a part of UserStatus.
pub mod Bought
pub mod Outcome
pub mod Refused
use vpn_panel.Prelude.{
  ℕ, ◌+◌, ◌*◌, String, Bool, true, false, ◌&&◌, ◌||◌, not, Option, none, some, List, [], ◌∷◌,
  filter, leb, ltb, ◌==◌, if◌then◌else◌, get_or, is_some,
}
use vpn_panel.Prelude.Int.{ℤ, pos}
use vpn_panel.Prelude.Text.{truthy_text}
use vpn_panel.Prelude.Names.{get_named}
use vpn_panel.Prelude.Raises.{Result, ok, err, value_error, integrity_error, ◌>>=◌}
use vpn_panel.Users.{User, UserStatus, active, disabled, expired, limited, on_hold, NextPlan}
use vpn_panel.Users.Status.{is_status}
use vpn_panel.Users.Periodic.{ResetStrategy}
use vpn_panel.Bs.Pool.{BsDb, find_user, set_user_bs_extra_amount, set_user_bs_limit_total}

pub data ReminderType : Type 0 where
  expiration_date data_usage : ReminderType

abbrev pub same_kind : ReminderType → ReminderType → Bool
same_kind expiration_date expiration_date = true
same_kind expiration_date data_usage = false
same_kind data_usage expiration_date = false
same_kind data_usage data_usage = true

pub record NotificationReminder : Type 0 where
  pub id : ℕ
  pub user_id : ℕ
  pub kind : ReminderType
  pub threshold : Option ℕ
  pub expires_at : Option ℕ

-- the clock, and what the source computes in floating-point numbers and with the local time zone
pub record Moment : Type 0 where
  pub utcnow : ℕ
  pub timestamp : ℕ  -- datetime.utcnow().timestamp()
  pub fromtimestamp : ℕ → Option ℕ  -- raises out of the range of dates
  pub is_percent_below : ℕ → ℕ → ℕ → Bool  -- used * 100 / limit < percent

abbrev has_threshold : ℕ → Option ℕ → Bool
has_threshold t none = false
has_threshold t (some threshold) = threshold == t

-- the query of get_notification_reminder
abbrev pub is_asked : ℕ → ReminderType → ℕ → NotificationReminder → Bool
is_asked uid kind t r = r.user_id == uid && same_kind r.kind kind && has_threshold t r.threshold

abbrev find_reminder :
    (NotificationReminder → Bool) → List NotificationReminder → Option NotificationReminder
find_reminder test [] = none
find_reminder test (r ∷ rows) = if test r then some r else find_reminder test rows

-- db.delete of a row, by its primary key
unfoldable pub delete_notification_reminder :
    NotificationReminder → List NotificationReminder → List NotificationReminder
delete_notification_reminder r rows = filter (λ row. not (row.id == r.id)) rows

abbrev is_over : ℕ → Option ℕ → Bool
is_over now none = false
is_over now (some at) = not (at == 0) && ltb at now

-- a reminder that is past is deleted by the reading
unfoldable pub get_notification_reminder :
    ℕ
    → ℕ
    → ReminderType
    → ℕ
    → List NotificationReminder
    → Option NotificationReminder × List NotificationReminder
unfolding delete_notification_reminder
get_notification_reminder now uid kind t rows = elim (find_reminder (is_asked uid kind t) rows) [
  | none ↦ (none, rows)
  | some r ↦
      if is_over now r.expires_at
      then (none, delete_notification_reminder r rows)
      else (some r, rows)
]

-- if reminder: delete_notification_reminder(db, reminder)
unfoldable pub delete_found :
    Option NotificationReminder × List NotificationReminder → List NotificationReminder
unfolding delete_notification_reminder
delete_found (none, rows) = rows
delete_found (some r, rows) = delete_notification_reminder r rows

-- the loop over the sorted thresholds of the configuration
unfoldable pub take_back :
    ℕ
    → ℕ
    → ReminderType
    → (ℕ → Bool)
    → List ℕ
    → List NotificationReminder
    → List NotificationReminder
unfolding get_notification_reminder delete_found
take_back now uid kind passed [] rows = rows
take_back now uid kind passed (t ∷ thresholds) rows =
    take_back now uid kind passed thresholds
      (if passed t then delete_found (get_notification_reminder now uid kind t rows) else rows)

-- the columns of a user that are in `User`, and the others that the operation changes
pub record Account : Type 0 where
  pub user : User
  pub data_limit_reset_strategy : ResetStrategy
  pub device_limit : Option ℕ
  pub note : Option String

pub record NextPlanModel : Type 0 where
  pub data_limit : Option ℕ
  pub expire : Option ℕ
  pub add_remaining_traffic : Bool
  pub fire_on_either : Bool

-- `next_plan` is absent, null or a plan
pub record UserModify : Type 0 where
  pub status : Option UserStatus
  pub data_limit : Option ℕ
  pub device_limit : Option ℕ
  pub expire : Option ℕ
  pub note : Option String
  pub bot_username : Option String
  pub data_limit_reset_strategy : Option ResetStrategy
  pub on_hold_timeout : Option ℕ
  pub on_hold_expire_duration : Option ℕ
  pub next_plan : Option (Option NextPlanModel)
  pub bs_extra : Option ℕ
  pub bs_limit_total : Option ℕ

-- `value or None`
abbrev pub or_none : ℕ → Option ℕ
or_none n = if n == 0 then none else some n

-- not dbuser.data_limit or dbuser.used_traffic < dbuser.data_limit
abbrev pub is_within : ℕ → Option ℕ → Bool
is_within used none = true
is_within used (some limit) = ltb used limit

abbrev below_percent : Moment → ℕ → Option ℕ → ℕ → Bool
below_percent moment used none percent = true
below_percent moment used (some limit) percent = moment.is_percent_below used limit percent

abbrev signed : Option ℕ → Option ℤ
signed none = none
signed (some n) = some (pos n)

unfoldable pub set_data_limit :
    Moment → List ℕ → Option ℕ → User × List NotificationReminder → User × List NotificationReminder
unfolding take_back
set_data_limit moment percents none (u, rows) = (u, rows)
set_data_limit moment percents (some n) (u, rows) =
    let limit = or_none n in
    let limited_to = record u { data_limit = signed limit } in
    if is_status u.status expired || is_status u.status disabled
    then (limited_to, rows)
    else if is_within u.used_traffic limit
    then (
      record limited_to { status = if is_status u.status on_hold then u.status else active },
      take_back moment.utcnow u.id data_usage (below_percent moment u.used_traffic limit) percents
          rows,
    )
    else (record limited_to { status = limited }, rows)

-- not dbuser.expire or dbuser.expire > datetime.utcnow().timestamp()
abbrev pub is_ahead : ℕ → Option ℕ → Bool
is_ahead timestamp none = true
is_ahead timestamp (some expire) = ltb timestamp expire

-- calculate_expiration_days(dbuser.expire) > days_left
abbrev has_days_left : Moment → Option ℕ → ℕ → Bool
has_days_left moment none days = true
has_days_left moment (some expire) days = elim (moment.fromtimestamp expire) [
  | none ↦ false
  | some at ↦ leb (moment.utcnow + (days + 1) * 86400) at
]

-- calculate_expiration_days raises: it is called where there is a threshold and an end
abbrev pub lacks_date : Moment → List ℕ → Option ℕ → Bool
lacks_date moment [] expire = false
lacks_date moment (days ∷ days_left) none = false
lacks_date moment (days ∷ days_left) (some expire) = not (is_some (moment.fromtimestamp expire))

unfoldable pub set_expire :
    Moment
    → List ℕ
    → Option ℕ
    → User × List NotificationReminder
    → Result (User × List NotificationReminder)
unfolding take_back
set_expire moment days_left none (u, rows) = ok (u, rows)
set_expire moment days_left (some n) (u, rows) =
    let expire = or_none n in
    let until = record u { expire = expire } in
    if is_status u.status active || is_status u.status expired
    then if is_ahead moment.timestamp expire
      then if lacks_date moment days_left expire
        then err value_error
        else ok (
          record until { status = active },
          take_back moment.utcnow u.id expiration_date (has_days_left moment expire) days_left rows,
        )
      else ok (record until { status = expired }, rows)
    else ok (until, rows)

-- the bots by their names; an empty name takes the bot away
unfoldable pub set_bot : List (String × ℕ) → Option String → User → Result User
unfolding get_named
set_bot bots none u = ok u
set_bot bots (some name) u =
    if truthy_text (some name)
    then elim (get_named name bots) [
      | none ↦ err value_error
      | some bot ↦ ok (record u { bot_id = some bot })
    ]
    else ok (record u { bot_id = none })

-- the column data_limit of a plan is NOT NULL
unfoldable pub set_plan : Option (Option NextPlanModel) → Option NextPlan → Result (Option NextPlan)
set_plan none old = ok old
set_plan (some none) old = ok none
set_plan (some (some plan)) old = elim plan.data_limit [
  | none ↦ err integrity_error
  | some limit ↦ ok (
      some (record {
        data_limit = limit;
        expire = plan.expire;
        add_remaining_traffic = plan.add_remaining_traffic;
        fire_on_either = plan.fire_on_either;
      }))
]

abbrev or_old : Option ℕ → Option ℕ → Option ℕ
or_old none old = old
or_old (some n) old = some n

-- the fields that are set as they come
abbrev set_fields : UserModify → Option NextPlan → User → User
set_fields modify plan u = record u {
  on_hold_timeout = or_old modify.on_hold_timeout u.on_hold_timeout;
  on_hold_expire_duration = or_old modify.on_hold_expire_duration u.on_hold_expire_duration;
  next_plan = plan;
}

-- the bought BS traffic, in the table that has the user's new row
unfoldable pub set_bs : ℕ → ℕ → UserModify → BsDb → Result BsDb
unfolding set_user_bs_extra_amount set_user_bs_limit_total
set_bs uid m modify db = elim modify.bs_extra [
  | some extra ↦ set_user_bs_extra_amount db uid m extra
  | none ↦ elim modify.bs_limit_total [
    | none ↦ ok db
    | some total ↦ set_user_bs_limit_total db uid m total
  ]
]

abbrev pub put_user : User → List User → List User
put_user u [] = []
put_user u (v ∷ vs) = (if v.id == u.id then u else v) ∷ put_user u vs

pub record Panel : Type 0 where
  pub db : BsDb
  pub reminders : List NotificationReminder

-- NOTIFY_REACHED_USAGE_PERCENT and NOTIFY_DAYS_LEFT, sorted
pub record Thresholds : Type 0 where
  pub percents : List ℕ
  pub days_left : List ℕ

-- the user's row and the reminders after the changes of the limits
abbrev pub set_limits :
    Moment
    → Thresholds
    → UserModify
    → User
    → List NotificationReminder
    → Result (User × List NotificationReminder)
set_limits moment thresholds modify u rows = set_expire moment thresholds.days_left modify.expire (
    set_data_limit moment thresholds.percents modify.data_limit
      (record u { status = get_or modify.status u.status }, rows))

abbrev or_none_note : Option String → Option String → Option String
or_none_note none old = old
or_none_note (some note) old = if truthy_text (some note) then some note else none

abbrev set_device_limit : Option ℕ → Option ℕ → Option ℕ
set_device_limit none old = old
set_device_limit (some n) old = or_none n

unfoldable pub update_user :
    Moment
    → Thresholds
    → List (String × ℕ)
    → ℕ
    → UserModify
    → Account
    → Panel
    → Result (Account × Panel)
unfolding set_data_limit set_expire set_bot set_plan set_bs
update_user moment thresholds bots m modify account panel =
    if is_some modify.bs_extra && is_some modify.bs_limit_total then err value_error else do
      (u, reminders) ← set_limits moment thresholds modify account.user panel.reminders
      with_bot ← set_bot bots modify.bot_username u
      plan ← set_plan modify.next_plan with_bot.next_plan
      let changed = record (set_fields modify plan with_bot) { edit_at = some moment.utcnow }
      db ← set_bs u.id m modify (record panel.db { users = put_user changed panel.db.users })
      ok (
        record {
          user = get_or (find_user u.id db.users) changed;
          data_limit_reset_strategy =
              get_or modify.data_limit_reset_strategy account.data_limit_reset_strategy;
          device_limit = set_device_limit modify.device_limit account.device_limit;
          note = or_none_note modify.note account.note;
        },
        record { db = db; reminders = reminders },
      )
