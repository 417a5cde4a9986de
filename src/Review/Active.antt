-- ===== src/Review/Active.antt =====
-- The review of the active users: its outcome for one user, and the accounts of the whole loop.
use vpn_panel.Prelude.{
  subst, Pairs, any, filter, ℕ, ◌+◌, ◌*◌, ◌<◌, ◌≡◌, refl, sym, ap, ◌∙◌, inl, inr, ◌&&◌, ◌||◌, not,
  Bool, true, false, List, [], ◌∷◌, ◌++◌, length, length-append, arith, Bool-cases, if◌then◌else◌,
}
use vpn_panel.Prelude.Raises.{ok, >>=-ok, is_err, is_err-bind, is_err-last, ok-injective}
use vpn_panel.Users.{User, limited, expired}
use vpn_panel.Users.Reset.{reset_user_by_next}
use vpn_panel.Users.Status.{update_user_status}
use vpn_panel.Review.{
  ReviewState, Webhook, is_dated, is_limited, is_expired, is_plan_due, review_user, review_active,
  batch_size,
}

-- what the review makes of an active user
pub data Outcome (now : ℕ) (u u' : User) : Type 0 where
  kept : is_limited u ≡ false → is_expired now u ≡ false → u' ≡ u → Outcome now u u'
  renewed : is_plan_due now u ≡ true → reset_user_by_next now u ≡ ok u' → Outcome now u u'
  cut :
      is_plan_due now u ≡ false
      → is_limited u ≡ true
      → u' ≡ update_user_status now limited u
      → Outcome now u u'
  ended :
      is_plan_due now u ≡ false
      → is_limited u ≡ false
      → is_expired now u ≡ true
      → u' ≡ update_user_status now expired u
      → Outcome now u u'

-- the users whom the review makes limited, and those whom it makes expired
unfoldable pub is_cut : ℕ → User → Bool
is_cut now u = not (is_plan_due now u) && is_limited u

unfoldable pub is_ended : ℕ → User → Bool
is_ended now u = not (is_plan_due now u) && not (is_limited u) && is_expired now u

-- these users as the review leaves them, in their order
unfoldable pub demoted : ℕ → List User → List User
unfolding is_cut is_ended
demoted now [] = []
demoted now (u ∷ us) =
    let rest = demoted now us in
    if is_cut now u
    then update_user_status now limited u ∷ rest
    else if is_ended now u
    then update_user_status now expired u ∷ rest
    else rest

-- the counters and the batch of a state, which a step changes by what it did
pub record IsAccounted (now : ℕ) (us : List User) (s s' : ReviewState) : Type 0 where
  pub seen : s'.checked_active ≡ s.checked_active + length us
  pub removed : s'.users_to_remove ≡ s.users_to_remove ++ demoted now us
  pub renewed_by : s'.applied_next ≡ s.applied_next + length (filter (is_plan_due now) us)
  pub limited_by : s'.limited_count ≡ s.limited_count + length (filter (is_cut now) us)
  pub expired_by : s'.expired_count ≡ s.expired_count + length (filter (is_ended now) us)
  pub batch : s.changed_in_batch < batch_size → s'.changed_in_batch < batch_size
  pub settled :
      s'.commits * batch_size + s'.changed_in_batch
      ≡ s.commits * batch_size + s.changed_in_batch + length (demoted now us)

-- A review that returns leaves an active user alone exactly when it is neither over its limit nor
-- expired; else it applies the planned tariff if that is due, and else makes the user limited or
-- expired, limited first.
pub review_user-Outcome :
    (webhook : Webhook) (now : ℕ) (u u' : User) (s s' : ReviewState)
    → review_user webhook now u s ≡ ok (u', s')
    → Outcome now u u'
unfolding review_user
review_user-Outcome webhook now u u' s s' h = elim (Bool-cases (is_plan_due now u)) [
  | inl due ↦ renewed due (ground arith)
  | inr not_due ↦ elim (Bool-cases (is_limited u)) [
    | inl over ↦ cut not_due over (ground arith)
    | inr under ↦ elim (Bool-cases (is_expired now u)) [
      | inl late ↦ ended not_due under late (ground arith)
      | inr early ↦ kept under early (ground arith)
    ]
  ]
]

append-nil : (us : List User) → us ++ [] ≡ us
append-nil [] = refl
append-nil (u ∷ us) = ap (λ l. u ∷ l) (append-nil us)

review_user-IsAccounted :
    (webhook : Webhook) (now : ℕ) (u u' : User) (s s' : ReviewState)
    → s.changed_in_batch < batch_size
    → review_user webhook now u s ≡ ok (u', s')
    → IsAccounted now (u ∷ []) s s'
unfolding review_user is_cut is_ended demoted
review_user-IsAccounted webhook now u u' s s' b h = elim (Bool-cases (is_plan_due now u)) [
  | inl due ↦ ground (arith, append-nil s.users_to_remove)
  | inr not_due ↦ elim (Bool-cases (is_limited u)) [
    | inl over ↦ ground arith
    | inr under ↦ elim (Bool-cases (is_expired now u)) [
      | inl late ↦ ground arith
      | inr early ↦ ground (arith, append-nil s.users_to_remove)
    ]
  ]
]

append_assoc : (us vs ws : List User) → (us ++ vs) ++ ws ≡ us ++ (vs ++ ws)
append_assoc [] vs ws = refl
append_assoc (u ∷ us) vs ws = ap (λ l. u ∷ l) (append_assoc us vs ws)

demoted-cons :
    (now : ℕ) (u : User) (us : List User)
    → demoted now (u ∷ us) ≡ demoted now (u ∷ []) ++ demoted now us
unfolding demoted
demoted-cons now u us = ground arith

IsAccounted-step :
    (now : ℕ) (u : User) (us : List User) (s s' s'' : ReviewState)
    → IsAccounted now (u ∷ []) s s'
    → IsAccounted now us s' s''
    → IsAccounted now (u ∷ us) s s''
IsAccounted-step now u us s s' s'' a b = record {
  seen = omega (arith, a.seen, b.seen);
  removed =
      b.removed
      ∙ ap (λ l. l ++ demoted now us) a.removed
      ∙ append_assoc s.users_to_remove (demoted now (u ∷ [])) (demoted now us)
      ∙ ap (λ l. s.users_to_remove ++ l) (sym (demoted-cons now u us));
  renewed_by = ground (arith, a.renewed_by, b.renewed_by);
  limited_by = ground (arith, a.limited_by, b.limited_by);
  expired_by = ground (arith, a.expired_by, b.expired_by);
  batch = λ h. b.batch (a.batch h);
  settled = omega (
    arith,
    a.settled,
    b.settled,
    ap length (demoted-cons now u us),
    length-append (demoted now (u ∷ [])) (demoted now us),
  );
}

-- As many users are demoted as are made limited or expired.
pub length-demoted :
    (now : ℕ) (us : List User)
    → length (demoted now us) ≡ length (filter (is_cut now) us) + length (filter (is_ended now) us)
unfolding demoted is_cut is_ended
length-demoted now [] = refl
length-demoted now (u ∷ us) = ground (arith, length-demoted now us)

pub review_active_lem :
    (webhook : Webhook) (now : ℕ) (us us' : List User) (s s' : ReviewState)
    → s.changed_in_batch < batch_size
    → review_active webhook now us s ≡ ok (us', s')
    → Pairs (Outcome now) us us' × IsAccounted now us s s'
unfolding review_active demoted
review_active_lem webhook now [] us' s s' b h = ground (arith, append-nil s.users_to_remove)
review_active_lem webhook now (u ∷ us) us' s s' b h =
    let first = >>=-ok _ (review_user webhook now u s) h in
    let rest = >>=-ok _ (review_active webhook now us first.0.1) first.2 in
    let a = review_user-IsAccounted webhook now u first.0.0 s first.0.1 b first.1 in
    let ih = review_active_lem webhook now us rest.0.0 first.0.1 rest.0.1 (a.batch b) rest.1 in
    subst
      (λ (out : List User × ReviewState).
        Pairs (Outcome now) (u ∷ us) out.0 × IsAccounted now (u ∷ us) s out.1)
      (ok-injective rest.2)
      (
        (review_user-Outcome webhook now u first.0.0 s first.0.1 first.1, ih.0),
        IsAccounted-step now u us s first.0.1 rest.0.1 a ih.1,
      )

-- the plan is due, and the reset by it raises; or the user is left alone with an end that is no date
abbrev pub raises : Webhook → ℕ → User → Bool
raises webhook now u =
    (is_plan_due now u && is_err (reset_user_by_next now u))
    || (webhook.is_set
        && not (is_plan_due now u)
        && not (is_limited u)
        && not (is_expired now u)
        && not (is_dated webhook u.expire))

review_user-raises :
    (webhook : Webhook) (now : ℕ) (u : User) (s : ReviewState)
    → is_err (review_user webhook now u s) ≡ raises webhook now u
unfolding review_user
review_user-raises webhook now u s = ground arith

-- The review of the active users raises exactly when a planned tariff that is due cannot be applied
-- to its user, or when a webhook is set and the end of a user who is left alone is out of the range of dates;
-- else it returns.
pub review_active-raises :
    (webhook : Webhook) (now : ℕ) (us : List User) (s : ReviewState)
    → is_err (review_active webhook now us s) ≡ any (raises webhook now) us
unfolding review_active
review_active-raises webhook now [] s = refl
review_active-raises webhook now (u ∷ us) s =
    is_err-bind (review_user webhook now u s) _ _ _ (review_user-raises webhook now u s) (λ a.
      is_err-last (review_active webhook now us a.1) _ (review_active-raises webhook now us a.1))
