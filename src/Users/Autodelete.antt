-- ===== src/Users/Autodelete.antt =====
-- autodelete_expired_users of app/db/crud.py, and app/jobs/remove_expired_users.py, which calls it.
pub mod Laws
use vpn_panel.Prelude.{
  ℕ, ◌+◌, ◌*◌, Bool, true, false, ◌&&◌, ◌||◌, not, Option, none, some, List, [], ◌∷◌, filter, leb,
  ltb, if◌then◌else◌, get_or, any, ◌==◌, map,
}
use vpn_panel.Prelude.Int.{ℤ, pos, negsuc}
use vpn_panel.Prelude.Raises.{Result, ok, err, type_error, overflow_error, ◌>>=◌}
use vpn_panel.Users.{User, UserStatus, expired, limited}
use vpn_panel.Users.Status.{is_status}

-- the days after which the user is deleted: negative values prevent it
abbrev pub days_left_of : ℤ → Option ℕ
days_left_of (pos days) = some days
days_left_of (negsuc n) = none

-- the query: a status that is meant, and a number of days that is not negative; `fallback` is
-- USERS_AUTODELETE_DAYS
unfoldable pub deletion_days : ℤ → Bool → User → Option ℕ
deletion_days fallback include_limited u =
    if is_status u.status expired || (include_limited && is_status u.status limited)
    then days_left_of (get_or u.auto_delete_in_days fallback)
    else none

-- datetime.max in seconds since 1970: the end of the year 9999
abbrev pub last_moment : ℕ
last_moment = 253402300799

-- user.last_status_change + timedelta(days=auto_delete) <= now; None has no `+`, and a sum after the last
-- moment is no date (nor is a timedelta of more than 999999999 days, which is longer than that)
unfoldable pub is_overdue : ℕ → Option ℕ → ℕ → Result Bool
is_overdue now none days = err type_error
is_overdue now (some changed) days =
    if ltb last_moment (changed + days * 86400)
    then err overflow_error
    else ok (leb (changed + days * 86400) now)

unfoldable pub is_deletable : ℕ → ℤ → Bool → User → Result Bool
unfolding deletion_days is_overdue
is_deletable now fallback include_limited u = elim (deletion_days fallback include_limited u) [
  | none ↦ ok false
  | some days ↦ is_overdue now u.last_status_change days
]

-- the users to delete, and those left
unfoldable pub split_expired : ℕ → ℤ → Bool → List User → Result (List User × List User)
unfolding is_deletable
split_expired now fallback include_limited [] = ok ([], [])
split_expired now fallback include_limited (u ∷ users) = do
  deletes ← is_deletable now fallback include_limited u
  rest ← split_expired now fallback include_limited users
  ok (if deletes then (u ∷ rest.0, rest.1) else (rest.0, u ∷ rest.1))

-- the users reported as deleted, and the table after remove_users
unfoldable pub autodelete_expired_users : ℕ → ℤ → Bool → List User → Result (List User × List User)
unfolding split_expired
autodelete_expired_users now fallback include_limited users =
    split_expired now fallback include_limited users
