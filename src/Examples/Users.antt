-- ===== src/Examples/Users.antt =====
-- Runs of the resets and of the bulk changes of status on concrete users.
use vpn_panel.Prelude.{◌≡◌, refl, inl, true, false, none, some, List, [], ◌∷◌, ◌++◌, arith}
use vpn_panel.Prelude.Int.{ℤ, pos, ◌+ℤ◌, ◌-ℤ◌}
use vpn_panel.Prelude.Raises.{ok}
use vpn_panel.Users.{User, active, on_hold, NextPlan, BsRow, lifetime_used_traffic}
use vpn_panel.Users.Reset.{reset_user_data_usage, reset_user_by_next}
use vpn_panel.Users.Reset.Laws.{rows_of, reset_user_data_usage_lem, reset_user_by_next_lem}
use vpn_panel.Users.Status.{disable_all_active_users, activate_all_disabled_users}
use vpn_panel.Users.Status.Bulk.{statuses, IsHoldConsistent, activate-disable}

-- an active user of admin 1 who used 70 of 100 bytes
abbrev pub alice : User
alice = record {
  id = 7;
  status = active;
  used_traffic = 70;
  node_usages = 70 ∷ [];
  data_limit = some (pos 100);
  usage_logs = record { used_traffic_at_reset = 30; reset_at = 5 } ∷ [];
  expire = some 1000;
  admin_id = some 1;
  created_at = 1;
  edit_at = none;
  online_at = some 900;
  on_hold_expire_duration = none;
  on_hold_timeout = none;
  auto_delete_in_days = none;
  last_status_change = none;
  next_plan = none;
  subscription_token = none;
  sub_revoked_at = none;
  bs_extra = some 40;
  bs_extra_period = some 202601;
  bot_id = some 3;
}

-- a user on hold who was never online
abbrev pub bob : User
bob = record alice {
  id = 8;
  status = on_hold;
  expire = none;
  online_at = none;
  on_hold_expire_duration = some 30;
  bot_id = none;
}

abbrev plan : NextPlan
plan = record {
  data_limit = 500;
  expire = some 2000;
  add_remaining_traffic = false;
  fire_on_either = true;
}

abbrev planned : User
planned = record alice { next_plan = some plan }

abbrev unlimited : User
unlimited = record planned { data_limit = none }

abbrev pub rows : List BsRow
rows =
    record { node_id = 1; user_id = 7; monthly_used = 60; monthly_period = some 202602 }
    ∷ record { node_id = 1; user_id = 8; monthly_used = 9; monthly_period = some 202601 }
    ∷ []

reset_user_data_usage_lem_example :
    let (u', rows') = reset_user_data_usage 9 alice rows in
    (lifetime_used_traffic u' ≡ 100)
    × (u'.used_traffic ≡ 0)
    × (u'.next_plan ≡ none)
    × (rows_of 8 rows' ≡ rows_of 8 rows)
    × (u'.status ≡ active)
unfolding reset_user_data_usage
reset_user_data_usage_lem_example = reset_user_data_usage_lem 9 alice rows 8

abbrev renewed : User
renewed = record planned {
  usage_logs = planned.usage_logs ++ record { used_traffic_at_reset = 70; reset_at = 9 } ∷ [];
  node_usages = [];
  status = active;
  data_limit = some (pos 500 +ℤ (pos 100 -ℤ pos 70));
  expire = some 2000;
  used_traffic = 0;
  next_plan = none;
}

reset_by_next_test : reset_user_by_next 9 planned ≡ ok renewed
unfolding reset_user_by_next
reset_by_next_test = refl

reset_user_by_next_lem_example :
    (lifetime_used_traffic renewed ≡ lifetime_used_traffic planned)
    × (renewed.used_traffic ≡ 0)
    × (renewed.status ≡ active)
    × (renewed.next_plan ≡ none)
    × (renewed.expire ≡ plan.expire)
    × (plan.add_remaining_traffic ≡ true → renewed.data_limit ≡ some (pos plan.data_limit))
    × (plan.add_remaining_traffic ≡ false
        → (old : ℤ) → planned.data_limit ≡ some old
        → renewed.data_limit ≡ some (pos plan.data_limit +ℤ (old -ℤ pos planned.used_traffic)))
reset_user_by_next_lem_example =
    reset_user_by_next_lem 9 planned renewed plan refl reset_by_next_test

alice_consistent : IsHoldConsistent alice
alice_consistent = record {
  waiting = λ e. ground (arith, e);
  running = λ e. inl refl;
  enabled = λ e. ground (arith, e);
}

bob_consistent : IsHoldConsistent bob
bob_consistent = record {
  waiting = λ e. (refl, refl, refl);
  running = λ e. ground (arith, e);
  enabled = λ e. ground (arith, e);
}

activate-disable_example :
    statuses (
      activate_all_disabled_users 20
        (some 1)
        (disable_all_active_users 10 (some 1) (alice ∷ bob ∷ [])))
    ≡ active ∷ on_hold ∷ []
activate-disable_example =
    activate-disable 10 20 (some 1) (alice ∷ bob ∷ []) (alice_consistent, (bob_consistent, tt))
