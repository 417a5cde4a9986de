-- ===== src/Users/Status.antt =====
-- app/db/crud.py: changes of status outside a reset, for one user and for all of them.
pub mod Bulk
use vpn_panel.Prelude.{
  ℕ, ◌+◌, Option, none, some, Bool, true, false, ◌&&◌, ◌||◌, not, List, [], ◌∷◌, map, if◌then◌else◌,
  ◌==◌, is_some,
}
use vpn_panel.Prelude.Raises.{Result, ok, err, type_error}
use vpn_panel.Users.{User, UserStatus, active, disabled, limited, expired, on_hold}

abbrev pub is_status : UserStatus → UserStatus → Bool
is_status active active = true
is_status disabled disabled = true
is_status limited limited = true
is_status expired expired = true
is_status on_hold on_hold = true
is_status _ _ = false

-- crud.update_user_status
unfoldable pub update_user_status : ℕ → UserStatus → User → User
update_user_status now status u = record u { status = status; last_status_change = some now }

started : ℕ → User → Option ℕ → Result User
started now u none = err type_error
started now u (some duration) = ok (record u {
  expire = some (now + duration);
  on_hold_expire_duration = none;
  on_hold_timeout = none;
})

-- crud.start_user_expire; adding None to a number raises
unfoldable pub start_user_expire : ℕ → User → Result User
unfolding started
start_user_expire now u = started now u u.on_hold_expire_duration

-- `admin` is None or the admin whose users are meant
abbrev pub owned_by : Option ℕ → User → Bool
owned_by none u = true
owned_by (some a) u = elim u.admin_id [ none ↦ false | some b ↦ b == a ]

abbrev disable_one : ℕ → User → User
disable_one now u =
    if is_status u.status active || is_status u.status on_hold
    then record u { status = disabled; last_status_change = some now }
    else u

-- crud.disable_all_active_users
unfoldable pub disable_all_active_users : ℕ → Option ℕ → List User → List User
disable_all_active_users now admin = map (λ u. if owned_by admin u then disable_one now u else u)

abbrev on_hold_one : ℕ → User → User
on_hold_one now u =
    if is_status u.status disabled
      && not (is_some u.expire)
      && is_some u.on_hold_expire_duration
      && not (is_some u.online_at)
    then record u { status = on_hold; last_status_change = some now }
    else u

abbrev activate_one : ℕ → User → User
activate_one now u =
    if is_status u.status disabled
    then record u { status = active; last_status_change = some now }
    else u

-- crud.activate_all_disabled_users: the update for on-hold users runs first
unfoldable pub activate_all_disabled_users : ℕ → Option ℕ → List User → List User
activate_all_disabled_users now admin us =
    map (λ u. if owned_by admin u then activate_one now u else u)
      (map (λ u. if owned_by admin u then on_hold_one now u else u) us)
