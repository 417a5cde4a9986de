-- ===== src/Users/Usage.antt =====
-- record_user_usages of app/jobs/record_usages.py: what the cores have counted since the last tick is added to the
-- users and to their administrators. Left out is the detail by node, but for that of BS nodes in Bs/Record.
pub mod Laws
use vpn_panel.Prelude.{
  ℕ, ◌+◌, Bool, true, false, Option, none, some, List, [], ◌∷◌, lookup, get_or, is_some,
  if◌then◌else◌, ◌==◌, map,
}
use vpn_panel.Users.{User}
use vpn_panel.Bs.Pool.{find_user}
use vpn_panel.Bs.Record.{bump, tally}

-- the answer of a core, and int(value * coefficient) of its node; `none` where the reading fails
pub record Tick : Type 0 where
  pub charge : ℕ → ℕ
  pub answer : Option (List (ℕ × ℕ))

-- api_params
abbrev pub params_of : Tick → List (ℕ × ℕ)
params_of tick = get_or tick.answer []

-- users_usage, on top of the dict so far
unfoldable pub users_usage : List (ℕ × ℕ) → List Tick → List (ℕ × ℕ)
unfolding tally
users_usage deltas [] = deltas
users_usage deltas (tick ∷ ticks) = users_usage (tally tick.charge deltas (params_of tick)) ticks

-- user_admin_map.get
unfoldable pub admin_of : List User → ℕ → Option ℕ
admin_of users uid = elim (find_user uid users) [ none ↦ none | some u ↦ u.admin_id ]

-- if admin_id: admin_usage[admin_id] += value
abbrev pub credit_admin : Option ℕ → ℕ → List (ℕ × ℕ) → List (ℕ × ℕ)
credit_admin none value sums = sums
credit_admin (some admin) value sums = if admin == 0 then sums else bump admin value sums

unfoldable pub admin_usage : List User → List (ℕ × ℕ) → List (ℕ × ℕ) → List (ℕ × ℕ)
unfolding admin_of
admin_usage users sums [] = sums
admin_usage users sums ((uid, value) ∷ usage) =
    admin_usage users (credit_admin (admin_of users uid) value sums) usage

-- UPDATE users SET used_traffic = used_traffic + value, online_at = now WHERE id = uid
abbrev pub add_found : ℕ → User → Option ℕ → User
add_found now u none = u
add_found now u (some value) = record u {
  used_traffic = u.used_traffic + value;
  online_at = some now;
}

abbrev pub add_usage : ℕ → List (ℕ × ℕ) → User → User
add_usage now usage u = add_found now u (lookup u.id usage)

pub record AdminRow : Type 0 where
  pub id : ℕ
  pub users_usage : ℕ

abbrev pub add_admin_usage : List (ℕ × ℕ) → AdminRow → AdminRow
add_admin_usage sums a = record a { users_usage = a.users_usage + get_or (lookup a.id sums) 0 }

-- what the database refuses in this tick; each statement is committed by itself
pub data Outage : Type 0 where
  none_fails mapping_fails users_fail admins_fail : Outage

pub record Traffic : Type 0 where
  pub users : List User
  pub admins : List AdminRow

abbrev with_users : ℕ → List (ℕ × ℕ) → Traffic → Traffic
with_users now usage t = record t { users = map (add_usage now usage) t.users }

-- the two statements, under their `try`
unfoldable pub write_usage : Outage → ℕ → List (ℕ × ℕ) → Traffic → Traffic
unfolding admin_usage
write_usage none_fails now usage t = record (with_users now usage t) {
  admins = map (add_admin_usage (admin_usage t.users [] usage)) t.admins;
}
write_usage mapping_fails now usage t = with_users now usage t
write_usage users_fail now usage t = t
write_usage admins_fail now usage t = with_users now usage t

-- not users_usage
abbrev pub is_empty : List (ℕ × ℕ) → Bool
is_empty [] = true
is_empty (uv ∷ usage) = false

-- the tick, up to the detail by node
unfoldable pub record_user_usages : Outage → ℕ → List Tick → Traffic → Traffic
unfolding users_usage write_usage
record_user_usages outage now ticks t =
    let usage = users_usage [] ticks in if is_empty usage then t else write_usage outage now usage t
