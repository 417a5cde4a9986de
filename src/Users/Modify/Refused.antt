-- ===== src/Users/Modify/Refused.antt =====
-- When the change of a user is refused.
use vpn_panel.Prelude.{
  ℕ, zero, suc, [], ◌∷◌, ltb, length, get_or, arith, String, ◌≡◌, refl, ap, ◌∙◌, inl, inr, Bool,
  false, ◌&&◌, ◌||◌, not, Option, none, some, List, Bool-cases, is_some,
}
use vpn_panel.Prelude.Text.{truthy_text}
use vpn_panel.Prelude.Names.{get_named}
use vpn_panel.Prelude.Raises.{ok, err, value_error, is_err, is_err-bind, is_err-last}
use vpn_panel.Users.{User, UserStatus, active, expired, NextPlan}
use vpn_panel.Users.Status.{is_status}
use vpn_panel.Users.Modify.Outcome.{after_limit, is_reached, data-status}
use vpn_panel.Users.Modify.{
  NextPlanModel, NotificationReminder, set_data_limit, set_expire, set_plan, set_limits, Moment,
  Account, UserModify, set_bot, set_bs, Panel, Thresholds, update_user,
}
use vpn_panel.Users.Modify.Bought.{set_bs-eq, is_bs_refused, bs_set-raises}

-- one of the names in use
abbrev pub is_missing : List (String × ℕ) → Option String → Bool
is_missing bots none = false
is_missing bots (some name) = truthy_text (some name) && not (is_some (get_named name bots))

found-raises :
    (u : User) (found : Option ℕ)
    → is_err {A = User}
        (elim found [ none ↦ err value_error | some bot ↦ ok (record u { bot_id = some bot }) ])
      ≡ not (is_some found)
found-raises u none = refl
found-raises u (some bot) = refl

set_bot-raises :
    (bots : List (String × ℕ)) (name : Option String) (u : User)
    → is_err (set_bot bots name u) ≡ is_missing bots name
unfolding set_bot
set_bot-raises bots none u = refl
set_bot-raises bots (some name) u = elim (Bool-cases (truthy_text (some name))) [
  | inl named ↦ rw named (found-raises u (get_named name bots))
  | inr empty ↦ rw empty refl
]

-- The new end is counted to, and is no date: where the user would be active, there is a threshold, and the end
-- has not come.
unfoldable pub is_undated : Moment → List ℕ → Option ℕ → UserStatus → Bool
is_undated moment days_left none status = false
is_undated moment days_left (some n) status =
    (is_status status active || is_status status expired)
    && ltb moment.timestamp n
    && ltb 0 (length days_left)
    && not (is_some (moment.fromtimestamp n))

-- the plan comes without a limit
unfoldable pub is_limitless : Option (Option NextPlanModel) → Bool
is_limitless none = false
is_limitless (some none) = false
is_limitless (some (some plan)) = not (is_some plan.data_limit)

set_plan-raises :
    (modified : Option (Option NextPlanModel)) (old : Option NextPlan)
    → is_err (set_plan modified old) ≡ is_limitless modified
unfolding set_plan is_limitless
set_plan-raises none old = refl
set_plan-raises (some none) old = refl
set_plan-raises (some (some plan)) old = ground arith

set_expire-raises :
    (moment : Moment) (days_left : List ℕ) (e : Option ℕ) (w : User × List NotificationReminder)
    → is_err (set_expire moment days_left e w) ≡ is_undated moment days_left e w.0.status
unfolding set_expire is_undated
set_expire-raises moment days_left none (u, rows) = refl
set_expire-raises moment [] (some zero) (u, rows) = ground arith
set_expire-raises moment (d ∷ ds) (some zero) (u, rows) = ground arith
set_expire-raises moment [] (some (suc n)) (u, rows) = ground arith
set_expire-raises moment (d ∷ ds) (some (suc n)) (u, rows) = ground arith

limits-raises :
    (moment : Moment) (thresholds : Thresholds) (modify : UserModify) (u : User)
    (rows : List NotificationReminder)
    → is_err (set_limits moment thresholds modify u rows)
      ≡ is_undated moment thresholds.days_left modify.expire (
          after_limit (get_or modify.status u.status) (is_reached u.used_traffic modify.data_limit))
limits-raises moment thresholds modify u rows =
    let w =
      set_data_limit moment thresholds.percents modify.data_limit
        (record u { status = get_or modify.status u.status }, rows) in
    set_expire-raises moment thresholds.days_left modify.expire w
    ∙ ap (is_undated moment thresholds.days_left modify.expire) (
        data-status moment thresholds.percents modify.data_limit u (get_or modify.status u.status)
          rows)

-- The change of a user raises exactly when both amounts of bought traffic are given, a new end that is counted
-- to is out of the range of dates, the bot is not known, the plan comes without a limit, or the amount
-- of bought traffic cannot be set.
pub update_user-raises :
    (moment : Moment) (thresholds : Thresholds) (bots : List (String × ℕ)) (m : ℕ)
    (modify : UserModify) (account : Account) (panel : Panel)
    → let status =
        after_limit
          (get_or modify.status account.user.status)
          (is_reached account.user.used_traffic modify.data_limit) in
      is_err (update_user moment thresholds bots m modify account panel) ≡ (
        (is_some modify.bs_extra && is_some modify.bs_limit_total)
        || (is_undated moment thresholds.days_left modify.expire status
            || (is_missing bots modify.bot_username
                || (is_limitless modify.next_plan
                    || is_bs_refused panel.db.bs_monthly_limit modify.bs_extra
                        modify.bs_limit_total))))
unfolding update_user
update_user-raises moment thresholds bots m modify account panel =
    elim (Bool-cases (is_some modify.bs_extra && is_some modify.bs_limit_total)) [
      | inl both ↦ rw both refl
      | inr fine ↦ rw fine (
          is_err-bind (set_limits moment thresholds modify account.user panel.reminders) _ _ _
            (limits-raises moment thresholds modify account.user panel.reminders)
            (λ w.
              is_err-bind (set_bot bots modify.bot_username w.0) _ _ _
                (set_bot-raises bots modify.bot_username w.0)
                (λ u.
                  is_err-bind (set_plan modify.next_plan u.next_plan) _ _ _
                    (set_plan-raises modify.next_plan u.next_plan)
                    (λ plan. is_err-last (set_bs _ m modify _) _ (
                      ap is_err (set_bs-eq _ m modify modify.bs_extra modify.bs_limit_total _)
                      ∙ bs_set-raises modify.bs_extra modify.bs_limit_total _ m _)))))
    ]
