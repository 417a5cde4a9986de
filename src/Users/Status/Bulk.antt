-- ===== src/Users/Status/Bulk.antt =====
-- Disabling all users and activating them again.
use vpn_panel.Prelude.{
  ℕ, ◌≡◌, refl, ◌⊎◌, ◌≢◌, Option, none, true, List, [], ◌∷◌, map, All, arith, is_some,
}
use vpn_panel.Users.{User, UserStatus, active, disabled, on_hold}
use vpn_panel.Users.Status.{disable_all_active_users, activate_all_disabled_users}

-- An on-hold user has a duration, no expiry, and was never online; an active user is not like that.
pub record IsHoldConsistent (u : User) : Type 0 where
  pub waiting :
      u.status ≡ on_hold
      → (u.expire ≡ none) × (is_some u.on_hold_expire_duration ≡ true) × (u.online_at ≡ none)
  pub running :
      u.status ≡ active
      → (is_some u.expire ≡ true)
        ⊎ (u.on_hold_expire_duration ≡ none)
        ⊎ (is_some u.online_at ≡ true)
  pub enabled : u.status ≢ disabled

abbrev pub statuses : List User → List UserStatus
statuses = map (λ u. u.status)

-- Disabling all users of an admin (or all users) and activating them again gives each its status
-- back, if no user was disabled before and exactly the on-hold users look like waiting ones.
pub activate-disable :
    (then now : ℕ) (admin : Option ℕ) (us : List User)
    → All IsHoldConsistent us
    → statuses (activate_all_disabled_users now admin (disable_all_active_users then admin us))
      ≡ statuses us
unfolding disable_all_active_users activate_all_disabled_users
activate-disable then now admin [] h = refl
activate-disable then now admin (u ∷ us) h =
    ground (arith, activate-disable then now admin us h.1, h.0.waiting, h.0.running, h.0.enabled)
