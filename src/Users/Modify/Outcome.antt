-- ===== src/Users/Modify/Outcome.antt =====
-- The status that a change of a user leads to.
use vpn_panel.Prelude.{
  subst, ℕ, zero, suc, String, ◌≡◌, refl, sym, ap, ◌∙◌, inl, inr, Bool, ◌&&◌, Option, none, some,
  List, [], ◌∷◌, arith, ltb, leb, ◌==◌, if◌then◌else◌, Bool-cases, get_or, is_some, ==_refl,
}
use vpn_panel.Prelude.Text.{truthy_text}
use vpn_panel.Prelude.Names.{get_named}
use vpn_panel.Prelude.Raises.{Result, ok, err, value_error, ◌>>=◌}
use vpn_panel.Users.{User, UserStatus, active, disabled, expired, limited, on_hold}
use vpn_panel.Bs.Pool.{BsDb}
use vpn_panel.Users.Modify.{
  NotificationReminder, Moment, Account, UserModify, set_data_limit, set_expire, set_bot, set_plan,
  set_fields, set_bs, put_user, Panel, Thresholds, set_limits, update_user,
}
use vpn_panel.Users.Modify.Bought.{status_in, after_step, bs_set-status, set_bs-eq}

-- the limit that is set has been reached; 0 is none
unfoldable pub is_reached : ℕ → Option ℕ → Option Bool
is_reached by none = none
is_reached by (some n) = some (ltb 0 n && leb n by)

-- the status after a new limit of traffic, by whether it has been reached
abbrev pub after_limit : UserStatus → Option Bool → UserStatus
after_limit status none = status
after_limit active (some reached) = if reached then limited else active
after_limit limited (some reached) = if reached then limited else active
after_limit on_hold (some reached) = if reached then limited else on_hold
after_limit disabled (some reached) = disabled
after_limit expired (some reached) = expired

-- the status after a new end, by whether it has come
abbrev pub after_end : UserStatus → Option Bool → UserStatus
after_end status none = status
after_end active (some reached) = if reached then expired else active
after_end expired (some reached) = if reached then expired else active
after_end limited (some reached) = limited
after_end on_hold (some reached) = on_hold
after_end disabled (some reached) = disabled

pub data-status :
    (moment : Moment) (percents : List ℕ) (d : Option ℕ) (u : User) (s : UserStatus)
    (rows : List NotificationReminder)
    → (set_data_limit moment percents d (record u { status = s }, rows)).0.status
      ≡ after_limit s (is_reached u.used_traffic d)
unfolding set_data_limit is_reached
data-status moment percents none u s rows = refl
data-status moment percents (some zero) u active rows = refl
data-status moment percents (some zero) u limited rows = refl
data-status moment percents (some zero) u on_hold rows = refl
data-status moment percents (some zero) u disabled rows = refl
data-status moment percents (some zero) u expired rows = refl
data-status moment percents (some (suc n)) u active rows = ground arith
data-status moment percents (some (suc n)) u limited rows = ground arith
data-status moment percents (some (suc n)) u on_hold rows = ground arith
data-status moment percents (some (suc n)) u disabled rows = refl
data-status moment percents (some (suc n)) u expired rows = refl

-- the status of a user in an answer; `s` where it raises
unfoldable user_status_or : UserStatus → Result (User × List NotificationReminder) → UserStatus
user_status_or s (ok w) = w.0.status
user_status_or s (err e) = s

end-status :
    (moment : Moment) (days_left : List ℕ) (e : Option ℕ) (w : User × List NotificationReminder)
    (s : UserStatus)
    → w.0.status ≡ s
    → let after = after_end s (is_reached moment.timestamp e) in
      user_status_or after (set_expire moment days_left e w) ≡ after
unfolding set_expire is_reached user_status_or
end-status moment days_left none (u, rows) s p = p
end-status moment days_left (some zero) (u, rows) active p = rw p (ground arith)
end-status moment days_left (some zero) (u, rows) limited p = rw p refl
end-status moment days_left (some zero) (u, rows) on_hold p = rw p refl
end-status moment days_left (some zero) (u, rows) disabled p = rw p refl
end-status moment days_left (some zero) (u, rows) expired p = rw p (ground arith)
end-status moment days_left (some (suc n)) (u, rows) active p = rw p (ground arith)
end-status moment days_left (some (suc n)) (u, rows) limited p = rw p refl
end-status moment days_left (some (suc n)) (u, rows) on_hold p = rw p refl
end-status moment days_left (some (suc n)) (u, rows) disabled p = rw p refl
end-status moment days_left (some (suc n)) (u, rows) expired p = rw p (ground arith)

-- the status that the changes of a user lead to
abbrev pub status_after : Moment → UserModify → User → UserStatus
status_after moment modify u =
    after_end
      (after_limit (get_or modify.status u.status) (is_reached u.used_traffic modify.data_limit))
      (is_reached moment.timestamp modify.expire)

limits-status :
    (moment : Moment) (thresholds : Thresholds) (modify : UserModify) (u : User)
    (rows : List NotificationReminder)
    → let after = status_after moment modify u in
      user_status_or after (set_limits moment thresholds modify u rows) ≡ after
limits-status moment thresholds modify u rows =
    end-status moment thresholds.days_left modify.expire
      (set_data_limit moment thresholds.percents modify.data_limit
        (record u { status = get_or modify.status u.status }, rows))
      _
      (data-status moment thresholds.percents modify.data_limit u (get_or modify.status u.status)
        rows)

find-put_user : (c : User) (users : List User) → status_in c.id c (put_user c users) ≡ c.status
find-put_user c [] = refl
find-put_user c (u ∷ users) = elim (Bool-cases (u.id == c.id)) [
  | inl same ↦ rw same (rw (status_in, ==_refl c.id) refl)
  | inr apart ↦ rw apart (rw (status_in, apart) (find-put_user c users))
]

bot_or : User → Result User → User
bot_or u (ok v) = v
bot_or u (err e) = u

-- the user without what may change here: the bot
abbrev kept_of : User → UserStatus × ℕ
kept_of u = (u.status, u.id)

found-kept :
    (u : User) (found : Option ℕ)
    → kept_of (
        bot_or u
          (elim found [ none ↦ err value_error | some bot ↦ ok (record u { bot_id = some bot }) ]))
      ≡ kept_of u
unfolding bot_or
found-kept u none = refl
found-kept u (some bot) = refl

set_bot-kept :
    (bots : List (String × ℕ)) (name : Option String) (u : User)
    → kept_of (bot_or u (set_bot bots name u)) ≡ kept_of u
unfolding set_bot bot_or
set_bot-kept bots none u = refl
set_bot-kept bots (some name) u = elim (Bool-cases (truthy_text (some name))) [
  | inl named ↦ rw named (found-kept u (get_named name bots))
  | inr empty ↦ rw empty refl
]

written-status :
    (i m : ℕ) (modify : UserModify) (c : User) (before after : BsDb)
    → c.id ≡ i
    → set_bs i m modify (record before { users = put_user c before.users }) ≡ ok after
    → status_in i c after.users ≡ c.status
written-status i m modify c before after own returns =
    let written = record before { users = put_user c before.users } in
    let stepped =
      sym (set_bs-eq i m modify modify.bs_extra modify.bs_limit_total written) ∙ returns in
    ap (λ r. status_in i c (after_step written.users r)) (sym stepped)
    ∙ bs_set-status i c modify.bs_extra modify.bs_limit_total written i m
    ∙ subst (λ n. status_in n c (put_user c before.users) ≡ c.status) own
        (find-put_user c before.users)

-- the status in an answer; `s` where it raises
unfoldable status_or : UserStatus → Result (Account × Panel) → UserStatus
status_or s (ok (account, panel)) = account.user.status
status_or s (err e) = s

status_or-bind :
    {A : Type 0} (s : UserStatus) (first : Result A) (next : A → Result (Account × Panel))
    → ((a : A) → first ≡ ok a → status_or s (next a) ≡ s)
    → status_or s (first >>= next) ≡ s
unfolding status_or
status_or-bind s (ok a) next h = h a refl
status_or-bind s (err e) next h = refl

update-status :
    (moment : Moment) (thresholds : Thresholds) (bots : List (String × ℕ)) (m : ℕ)
    (modify : UserModify) (account : Account) (panel : Panel)
    → let s = status_after moment modify account.user in
      status_or s (update_user moment thresholds bots m modify account panel) ≡ s
unfolding update_user status_or bot_or user_status_or
update-status moment thresholds bots m modify account panel =
    let s = status_after moment modify account.user in
    let limits = limits-status moment thresholds modify account.user panel.reminders in
    elim (Bool-cases (is_some modify.bs_extra && is_some modify.bs_limit_total)) [
      | inl both ↦ rw both refl
      | inr fine ↦ rw fine (
          status_or-bind s (set_limits moment thresholds modify account.user panel.reminders) _
            (λ w set.
              let u = w.0 in
              status_or-bind s (set_bot bots modify.bot_username u) _ (λ with_bot e.
                let kept =
                  ap (λ r. kept_of (bot_or u r)) (sym e)
                  ∙ set_bot-kept bots modify.bot_username u in
                status_or-bind s (set_plan modify.next_plan with_bot.next_plan) _ (λ plan planned.
                  let changed = record (set_fields modify plan with_bot) {
                    edit_at = some moment.utcnow;
                  } in
                  status_or-bind s (set_bs u.id m modify _) _ (λ db returns.
                    written-status u.id m modify changed panel.db db (ap (λ v. v.1) kept) returns
                    ∙ ap (λ v. v.0) kept
                    ∙ ap (user_status_or s) (sym set)
                    ∙ limits)))))
    ]

-- The change of a user that returns gives the user the status that a new status, a new limit and a new
-- end lead to, by clauses on them: a limit that has been reached stops the users who are active, limited or on
-- hold, an end that has come those who would be active, neither touches a disabled user, and a
-- new end alone revives an expired user; the bot, the plan and the bought traffic do not matter.
pub update_user-status :
    (moment : Moment) (thresholds : Thresholds) (bots : List (String × ℕ)) (m : ℕ)
    (modify : UserModify) (account after : Account) (panel panel' : Panel)
    → update_user moment thresholds bots m modify account panel ≡ ok (after, panel')
    → after.user.status ≡ status_after moment modify account.user
unfolding status_or
update_user-status moment thresholds bots m modify account after panel panel' returns =
    ap (status_or (status_after moment modify account.user)) (sym returns)
    ∙ update-status moment thresholds bots m modify account panel
