-- ===== src/Examples/Jobs.antt =====
-- Runs of the periodic reset and of the deletion of expired users.
use vpn_panel.Prelude.{
  ℕ, ◌+◌, ◌*◌, if◌then◌else◌, ◌≡◌, refl, true, false, none, some, List, [], ◌∷◌, map, any, filter,
  not,
}
use vpn_panel.Prelude.Int.{pos, negsuc}
use vpn_panel.Prelude.Raises.{ok, is_err}
use vpn_panel.Users.{User, limited, expired}
use vpn_panel.Users.Periodic.{ResetStrategy, day, month, is_reset_due, reset_due_users}
use vpn_panel.Users.Periodic.Laws.{after_of, due_ids, rows_without, fresh, reset_due_users_lem}
use vpn_panel.Users.Autodelete.{autodelete_expired_users}
use vpn_panel.Users.Autodelete.Laws.{
  has_expired_for, is_undated, autodelete_expired_users_lem, autodelete_expired_users-raises,
}
use vpn_panel.Users.Usage.{Tick, admins_fail, admin_of, users_usage, Traffic, record_user_usages}
use vpn_panel.Users.Usage.Laws.{
  counted, share, are_users_written, are_admins_written, record_user_usages_lem,
}
use vpn_panel.Examples.Users.{alice, bob, rows}

abbrev full : User
full = record alice { id = 9; status = limited }

abbrev entries : List (ResetStrategy × User)
entries = (day, alice) ∷ (month, bob) ∷ (day, full) ∷ []

due_test : due_ids 90000 entries ≡ 7 ∷ 9 ∷ []
unfolding is_reset_due
due_test = refl

reset_due_users_lem_example :
    let once = reset_due_users 90000 entries (fresh rows []) in
    let twice = reset_due_users 90000 once.users (fresh once.rows once.added) in
    (once.users ≡ map (after_of 90000) entries)
    × (once.rows ≡ rows_without (due_ids 90000 entries) rows)
    × (once.added ≡ [])
    × (twice ≡ once)
reset_due_users_lem_example = reset_due_users_lem 90000 entries rows []

abbrev gone : User
gone = record alice { id = 10; status = expired; last_status_change = some 100 }

abbrev kept : User
kept = record gone { id = 11; auto_delete_in_days = some (negsuc 0) }

known_test : any (is_undated (pos 1) false) (gone ∷ kept ∷ alice ∷ []) ≡ false
unfolding is_undated
known_test = refl

deletes_test : has_expired_for 90000 (pos 1) false gone ≡ true
unfolding has_expired_for
deletes_test = refl

autodelete_expired_users_lem_example :
    autodelete_expired_users 90000 (pos 1) false (gone ∷ kept ∷ alice ∷ [])
    ≡ ok (
      filter (has_expired_for 90000 (pos 1) false) (gone ∷ kept ∷ alice ∷ []),
      filter (λ u. not (has_expired_for 90000 (pos 1) false u)) (gone ∷ kept ∷ alice ∷ []),
    )
autodelete_expired_users_lem_example =
    autodelete_expired_users_lem 90000 (pos 1) false (gone ∷ kept ∷ alice ∷ []) known_test

abbrev unknown : User
unknown = record gone { last_status_change = none }

-- 3000000 days reach past the year 9999
abbrev lasting : User
lasting = record gone { auto_delete_in_days = some (pos 3000000) }

undated_test :
    any (is_undated (pos 1) false) (lasting ∷ []) ≡ any (is_undated (pos 1) false) (unknown ∷ [])
unfolding is_undated
undated_test = refl

autodelete_expired_users-raises_example :
    is_err (autodelete_expired_users 90000 (pos 1) false (kept ∷ unknown ∷ []))
    ≡ any (is_undated (pos 1) false) (kept ∷ unknown ∷ [])
autodelete_expired_users-raises_example =
    autodelete_expired_users-raises 90000 (pos 1) false (kept ∷ unknown ∷ [])

abbrev doubled : ℕ → ℕ
doubled value = value * 2

abbrev ticks : List Tick
ticks =
    record { charge = λ value. value; answer = some ((7, 5) ∷ (8, 1) ∷ (7, 2) ∷ []) }
    ∷ record { charge = doubled; answer = some ((7, 10) ∷ []) }
    ∷ record { charge = doubled; answer = none }
    ∷ []

abbrev traffic : Traffic
traffic = record { users = alice ∷ bob ∷ []; admins = record { id = 1; users_usage = 100 } ∷ [] }

counted_test : counted 7 ticks ≡ 27
counted_test = refl

shared_test : share traffic.users 1 (users_usage [] ticks) ≡ 28
unfolding users_usage admin_of
shared_test = refl

record_user_usages_lem_example :
    let after = record_user_usages admins_fail 950 ticks traffic in
    (map (λ u. u.used_traffic) after.users
      ≡ map
          (λ u. u.used_traffic + (if are_users_written admins_fail then counted u.id ticks else 0))
          traffic.users)
    × (map (λ a. a.users_usage) after.admins
        ≡ map
            (λ a.
              a.users_usage
              + (if are_admins_written admins_fail
                  then share traffic.users a.id (users_usage [] ticks)
                  else 0))
            traffic.admins)
record_user_usages_lem_example = record_user_usages_lem admins_fail 950 ticks traffic
