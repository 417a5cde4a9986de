-- ===== src/Users/Usage/Laws.antt =====
-- What a tick adds to the users and to their administrators.
use vpn_panel.Prelude.{
  sum_of, ℕ, ◌+◌, ◌≡◌, refl, sym, ap, ◌∙◌, Bool, true, false, ◌&&◌, not, Option, none, some, List,
  [], ◌∷◌, map, arith, ◌==◌, if◌then◌else◌, get_or, lookup, lookup-insert,
}
use vpn_panel.Users.{User}
use vpn_panel.Bs.Record.{tally}
use vpn_panel.Bs.Record.Counters.{held, measured, held-tally}
use vpn_panel.Users.Usage.{
  Tick, params_of, users_usage, admin_of, credit_admin, admin_usage, add_found, add_usage, AdminRow,
  add_admin_usage, Outage, none_fails, mapping_fails, users_fail, admins_fail, Traffic, is_empty,
  write_usage, record_user_usages,
}

-- what the cores have counted for a user, by the coefficients of their nodes
abbrev pub counted : ℕ → List Tick → ℕ
counted uid = sum_of (λ tick. measured tick.charge uid (params_of tick))

held-users_usage :
    (uid : ℕ) (deltas : List (ℕ × ℕ)) (ticks : List Tick)
    → held uid (users_usage deltas ticks) ≡ held uid deltas + counted uid ticks
unfolding users_usage
held-users_usage uid deltas [] = omega arith
held-users_usage uid deltas (tick ∷ ticks) = ground (
  arith,
  held-users_usage uid (tally tick.charge deltas (params_of tick)) ticks,
  held-tally tick.charge uid deltas (params_of tick),
)

-- the users' sums of the administrators: of each amount, what goes to administrator `a`
abbrev pub share : List User → ℕ → List (ℕ × ℕ) → ℕ
share users a = sum_of (λ uv.
    if elim (admin_of users uv.0) [ none ↦ false | some b ↦ not (b == 0) && b == a ]
    then uv.1
    else 0)

held-credit :
    (a value : ℕ) (admin : Option ℕ) (sums : List (ℕ × ℕ))
    → held a (credit_admin admin value sums)
      ≡ held a sums
        + (if elim admin [ none ↦ false | some b ↦ not (b == 0) && b == a ] then value else 0)
held-credit a value none sums = omega arith
held-credit a value (some b) sums =
    ground (arith, lookup-insert b a (get_or (lookup b sums) 0 + value) sums)

plus_assoc : (a b c : ℕ) → a + b + c ≡ a + (b + c)
plus_assoc a b c = omega arith

held-admin_usage :
    (users : List User) (a : ℕ) (sums usage : List (ℕ × ℕ))
    → held a (admin_usage users sums usage) ≡ held a sums + share users a usage
unfolding admin_usage
held-admin_usage users a sums [] = omega arith
held-admin_usage users a sums ((uid, value) ∷ usage) =
    held-admin_usage users a (credit_admin (admin_of users uid) value sums) usage
    ∙ ap (λ n. n + share users a usage) (held-credit a value (admin_of users uid) sums)
    ∙ plus_assoc (held a sums) _ (share users a usage)

zero_plus : (n : ℕ) → 0 + n ≡ n
zero_plus n = omega arith

-- What the dict of a tick holds for a user is what was counted.
usage-counted : (uid : ℕ) (ticks : List Tick) → held uid (users_usage [] ticks) ≡ counted uid ticks
usage-counted uid ticks = held-users_usage uid [] ticks ∙ zero_plus (counted uid ticks)

usage-share :
    (users : List User) (a : ℕ) (usage : List (ℕ × ℕ))
    → held a (admin_usage users [] usage) ≡ share users a usage
usage-share users a usage = held-admin_usage users a [] usage ∙ zero_plus (share users a usage)

add_found-used :
    (now : ℕ) (u : User) (found : Option ℕ)
    → (add_found now u found).used_traffic ≡ u.used_traffic + get_or found 0
add_found-used now u none = omega arith
add_found-used now u (some value) = refl

used-add_usage :
    (now : ℕ) (usage : List (ℕ × ℕ)) (users : List User)
    → map (λ u. u.used_traffic) (map (add_usage now usage) users)
      ≡ map (λ u. u.used_traffic + held u.id usage) users
used-add_usage now usage [] = refl
used-add_usage now usage (u ∷ users) =
    rw (add_found-used now u (lookup u.id usage), used-add_usage now usage users) refl

plus_zero :
    {A : Type 0} (f g : A → ℕ) (xs : List A)
    → ((x : A) → g x ≡ 0)
    → map f xs ≡ map (λ x. f x + g x) xs
plus_zero f g [] h = refl
plus_zero f g (x ∷ xs) h =
    rw (h x, sym (plus_zero f g xs h)) (ap (λ n. n ∷ map f xs) (plus_none (f x)))
  where
    plus_none : (n : ℕ) → n ≡ n + 0
    plus_none n = omega arith

-- the statement for the users was committed
unfoldable pub are_users_written : Outage → Bool
are_users_written none_fails = true
are_users_written mapping_fails = true
are_users_written users_fail = false
are_users_written admins_fail = true

unfoldable pub are_admins_written : Outage → Bool
are_admins_written none_fails = true
are_admins_written mapping_fails = false
are_admins_written users_fail = false
are_admins_written admins_fail = false

write-used :
    (outage : Outage) (now : ℕ) (usage : List (ℕ × ℕ)) (t : Traffic)
    → map (λ u. u.used_traffic) (if is_empty usage then t else write_usage outage now usage t).users
      ≡ map
          (λ u. u.used_traffic + (if are_users_written outage then held u.id usage else 0))
          t.users
unfolding write_usage are_users_written
write-used none_fails now [] t = plus_zero (λ u. u.used_traffic) _ t.users (λ u. refl)
write-used mapping_fails now [] t = plus_zero (λ u. u.used_traffic) _ t.users (λ u. refl)
write-used users_fail now [] t = plus_zero (λ u. u.used_traffic) _ t.users (λ u. refl)
write-used admins_fail now [] t = plus_zero (λ u. u.used_traffic) _ t.users (λ u. refl)
write-used none_fails now (d ∷ usage) t = used-add_usage now (d ∷ usage) t.users
write-used mapping_fails now (d ∷ usage) t = used-add_usage now (d ∷ usage) t.users
write-used users_fail now (d ∷ usage) t = plus_zero (λ u. u.used_traffic) _ t.users (λ u. refl)
write-used admins_fail now (d ∷ usage) t = used-add_usage now (d ∷ usage) t.users

sums-add_admin_usage :
    (users : List User) (usage : List (ℕ × ℕ)) (admins : List AdminRow)
    → map (λ a. a.users_usage) (map (add_admin_usage (admin_usage users [] usage)) admins)
      ≡ map (λ a. a.users_usage + share users a.id usage) admins
sums-add_admin_usage users usage [] = refl
sums-add_admin_usage users usage (a ∷ admins) =
    rw (usage-share users a.id usage, sums-add_admin_usage users usage admins) refl

-- Without the statement for the administrators their sums stay.
unwritten :
    (outage : Outage) (now : ℕ) (usage : List (ℕ × ℕ)) (t : Traffic)
    → are_admins_written outage ≡ false
    → map (λ a. a.users_usage) (if is_empty usage then t else write_usage outage now usage t).admins
      ≡ map (λ a. a.users_usage + 0) t.admins
unfolding write_usage are_admins_written
unwritten none_fails now usage t h = ground (arith, h)
unwritten mapping_fails now [] t h = plus_zero (λ a. a.users_usage) _ t.admins (λ a. refl)
unwritten mapping_fails now (d ∷ usage) t h = plus_zero (λ a. a.users_usage) _ t.admins (λ a. refl)
unwritten users_fail now [] t h = plus_zero (λ a. a.users_usage) _ t.admins (λ a. refl)
unwritten users_fail now (d ∷ usage) t h = plus_zero (λ a. a.users_usage) _ t.admins (λ a. refl)
unwritten admins_fail now [] t h = plus_zero (λ a. a.users_usage) _ t.admins (λ a. refl)
unwritten admins_fail now (d ∷ usage) t h = plus_zero (λ a. a.users_usage) _ t.admins (λ a. refl)

counted-map :
    (outage : Outage) (ticks : List Tick) (users : List User)
    → map
        (λ u.
          u.used_traffic
          + (if are_users_written outage then held u.id (users_usage [] ticks) else 0))
        users
      ≡ map
          (λ u. u.used_traffic + (if are_users_written outage then counted u.id ticks else 0))
          users
counted-map outage ticks [] = refl
counted-map outage ticks (u ∷ users) =
    rw (usage-counted u.id ticks, counted-map outage ticks users) refl

write-sums :
    (outage : Outage) (now : ℕ) (usage : List (ℕ × ℕ)) (t : Traffic)
    → map (λ a. a.users_usage) (if is_empty usage then t else write_usage outage now usage t).admins
      ≡ map
          (λ a. a.users_usage + (if are_admins_written outage then share t.users a.id usage else 0))
          t.admins
unfolding write_usage are_admins_written
write-sums none_fails now [] t = plus_zero (λ a. a.users_usage) _ t.admins (λ a. refl)
write-sums mapping_fails now usage t = unwritten mapping_fails now usage t refl
write-sums users_fail now usage t = unwritten users_fail now usage t refl
write-sums admins_fail now usage t = unwritten admins_fail now usage t refl
write-sums none_fails now (d ∷ usage) t = sums-add_admin_usage t.users (d ∷ usage) t.admins

-- A tick adds to each user's traffic exactly what the cores have counted for the user, by the
-- coefficients of their nodes, unless the writing of the users fails; and to each administrator's sum
-- what is added to the administrator's users, unless any statement of the tick fails.
pub record_user_usages_lem :
    (outage : Outage) (now : ℕ) (ticks : List Tick) (t : Traffic)
    → let after = record_user_usages outage now ticks t in
      (map (λ u. u.used_traffic) after.users
        ≡ map
            (λ u. u.used_traffic + (if are_users_written outage then counted u.id ticks else 0))
            t.users)
      × (map (λ a. a.users_usage) after.admins
          ≡ map
              (λ a.
                a.users_usage
                + (if are_admins_written outage
                    then share t.users a.id (users_usage [] ticks)
                    else 0))
              t.admins)
unfolding record_user_usages
record_user_usages_lem outage now ticks t =
    let usage = users_usage [] ticks in
    (
      write-used outage now usage t ∙ counted-map outage ticks t.users,
      write-sums outage now usage t,
    )
