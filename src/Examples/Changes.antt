-- ===== src/Examples/Changes.antt =====
-- Runs of the change of a user.
use vpn_panel.Prelude.{
  ℕ, if◌then◌else◌, ◌*◌, String, ◌≡◌, refl, false, none, some, List, [], ◌∷◌, true, ltb, ◌&&◌, ◌||◌,
  is_some,
}
use vpn_panel.Prelude.Names.{get_named}
use vpn_panel.Prelude.Raises.{ok, is_err}
use vpn_panel.Users.{expired, limited}
use vpn_panel.Users.Periodic.{day}
use vpn_panel.Users.Modify.{
  data_usage, NotificationReminder, Moment, Account, UserModify, Panel, Thresholds, update_user,
  take_back,
}
use vpn_panel.Users.Modify.Bought.{is_bs_refused}
use vpn_panel.Users.Modify.Outcome.{is_reached, status_after, update_user-status}
use vpn_panel.Users.Modify.Refused.{is_undated, is_limitless, is_missing, update_user-raises}
use vpn_panel.Examples.Users.{alice, bob, rows}

abbrev moment : Moment
moment = record {
  utcnow = 950;
  timestamp = 950;
  fromtimestamp = λ expire. if ltb expire 253402300800 then some expire else none;
  is_percent_below = λ used limit percent. ltb (used * 100) (percent * limit);
}

abbrev thresholds : Thresholds
thresholds = record { percents = 80 ∷ []; days_left = 3 ∷ [] }

abbrev bots : List (String × ℕ)
bots = ("helper", 3) ∷ []

-- 50 bytes are fewer than alice has used
abbrev less : UserModify
less = record {
  status = none;
  data_limit = some 50;
  device_limit = some 0;
  expire = some 2000;
  note = none;
  bot_username = some "helper";
  data_limit_reset_strategy = none;
  on_hold_timeout = none;
  on_hold_expire_duration = none;
  next_plan = none;
  bs_extra = some 20;
  bs_limit_total = none;
}

abbrev account : Account
account = record {
  user = alice;
  data_limit_reset_strategy = day;
  device_limit = some 2;
  note = none;
}

abbrev warned : NotificationReminder
warned = record { id = 1; user_id = 7; kind = data_usage; threshold = some 80; expires_at = none }

abbrev panel : Panel
panel = record {
  db = record { users = alice ∷ bob ∷ []; usage = rows; bs_nodes = 1 ∷ []; bs_monthly_limit = 50 };
  reminders = warned ∷ [];
}

take_back_test :
    take_back 950 7 data_usage (λ percent. ltb (70 * 100) (percent * 100)) (80 ∷ []) (warned ∷ [])
    ≡ []
unfolding take_back
take_back_test = refl

status_test : status_after moment less alice ≡ limited
unfolding is_reached
status_test = refl

returns_test : is_err (update_user moment thresholds bots 202602 less account panel) ≡ false
unfolding get_named is_reached is_undated is_limitless
returns_test = update_user-raises moment thresholds bots 202602 less account panel

update_user-raises_example :
    is_err (update_user moment thresholds bots 202602 less account panel) ≡ (
      (is_some less.bs_extra && is_some less.bs_limit_total)
      || (is_undated moment thresholds.days_left less.expire limited
          || (is_missing bots less.bot_username
              || (is_limitless less.next_plan
                  || is_bs_refused panel.db.bs_monthly_limit less.bs_extra less.bs_limit_total))))
unfolding is_reached
update_user-raises_example = update_user-raises moment thresholds bots 202602 less account panel

-- only the end of alice is changed
abbrev later : UserModify
later = record less { data_limit = none; bot_username = none; bs_extra = none }

-- an end in milliseconds, of which datetime.fromtimestamp makes no date
abbrev endless : UserModify
endless = record later { expire = some 1700000000000 }

undated_test : is_err (update_user moment thresholds bots 202602 endless account panel) ≡ true
unfolding is_reached is_undated
undated_test = update_user-raises moment thresholds bots 202602 endless account panel

abbrev late : Account
late = record account { user = record alice { status = expired } }

abbrev revived : Account
revived = record late {
  user = record alice { expire = some 2000; edit_at = some 950 };
  device_limit = none;
}

abbrev after : Panel
after = record panel { db = record panel.db { users = revived.user ∷ bob ∷ [] } }

revived_test : update_user moment thresholds bots 202602 later late panel ≡ ok (revived, after)
unfolding update_user
revived_test = refl

update_user-status_example : revived.user.status ≡ status_after moment later late.user
update_user-status_example =
    update_user-status moment thresholds bots 202602 later late revived panel after revived_test
