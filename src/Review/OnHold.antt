-- ===== src/Review/OnHold.antt =====
-- The review of the on-hold users.
use vpn_panel.Prelude.{
  ℕ, ◌+◌, ◌≡◌, refl, inl, inr, ◌&&◌, not, Option, none, some, Bool, true, false, List, [], ◌∷◌, any,
  Pairs, subst, arith, is_some, Bool-cases,
}
use vpn_panel.Prelude.Raises.{ok, is_err, is_err-bind, is_err-last, >>=-ok, ok-injective}
use vpn_panel.Users.{User, active}
use vpn_panel.Users.Status.{start_user_expire, update_user_status}
use vpn_panel.Review.{ReviewState, is_started, review_on_hold_user, review_on_hold}

-- what the review makes of an on-hold user
pub data Outcome (now : ℕ) (u u' : User) : Type 0 where
  waits : is_started now u ≡ false → u' ≡ u → Outcome now u u'
  starts :
      (duration : ℕ)
      → is_started now u ≡ true
      → u.on_hold_expire_duration ≡ some duration
      → u' ≡ record u {
        status = active;
        last_status_change = some now;
        expire = some (now + duration);
        on_hold_expire_duration = none;
        on_hold_timeout = none;
      }
      → Outcome now u u'

-- A review that returns leaves an on-hold user alone until it is online again or timed out; then
-- the user becomes active and expires after the duration that was on hold.
pub review_on_hold-Outcome :
    (now : ℕ) (u u' : User) (s s' : ReviewState)
    → review_on_hold_user now u s ≡ ok (u', s')
    → Outcome now u u'
unfolding review_on_hold_user start_user_expire update_user_status
review_on_hold-Outcome now u u' s s' h = elim (Bool-cases (is_started now u)) [
  | inr wait ↦ waits wait (ground arith)
  | inl go ↦ started u.on_hold_expire_duration refl go
]
  where
    started :
        (d : Option ℕ) → u.on_hold_expire_duration ≡ d → is_started now u ≡ true → Outcome now u u'
    started none e go = ground arith
    started (some d) e go = starts d go e (ground arith)

abbrev pub raises : ℕ → User → Bool
raises now u = is_started now u && not (is_some u.on_hold_expire_duration)

review_on_hold_user-raises :
    (now : ℕ) (u : User) (s : ReviewState) → is_err (review_on_hold_user now u s) ≡ raises now u
unfolding review_on_hold_user start_user_expire update_user_status
review_on_hold_user-raises now u s = ground arith

-- The review of the on-hold users raises exactly when one of them has started without a duration.
pub review_on_hold-raises :
    (now : ℕ) (us : List User) (s : ReviewState)
    → is_err (review_on_hold now us s) ≡ any (raises now) us
unfolding review_on_hold
review_on_hold-raises now [] s = refl
review_on_hold-raises now (u ∷ us) s =
    is_err-bind (review_on_hold_user now u s) _ _ _ (review_on_hold_user-raises now u s)
      (λ a. is_err-last (review_on_hold now us a.1) _ (review_on_hold-raises now us a.1))

-- an on-hold step touches the counters of the active users no more
pub record IsApart (s s' : ReviewState) : Type 0 where
  pub seen : s'.checked_active ≡ s.checked_active
  pub cut : s'.limited_count ≡ s.limited_count
  pub ended : s'.expired_count ≡ s.expired_count
  pub removed : s'.users_to_remove ≡ s.users_to_remove

review_on_hold-IsApart :
    (now : ℕ) (u u' : User) (s s' : ReviewState)
    → review_on_hold_user now u s ≡ ok (u', s')
    → IsApart s s'
unfolding review_on_hold_user start_user_expire update_user_status
review_on_hold-IsApart now u u' s s' h = ground arith

IsApart-trans : (s s' s'' : ReviewState) → IsApart s s' → IsApart s' s'' → IsApart s s''
IsApart-trans s s' s'' a b = ground arith

-- The loop over the on-hold users: every user has the outcome of its own review.
pub review_on_hold_lem :
    (now : ℕ) (us us' : List User) (s s' : ReviewState)
    → review_on_hold now us s ≡ ok (us', s')
    → Pairs (Outcome now) us us' × IsApart s s'
unfolding review_on_hold
review_on_hold_lem now [] us' s s' h = ground arith
review_on_hold_lem now (u ∷ us) us' s s' h =
    let first = >>=-ok _ (review_on_hold_user now u s) h in
    let rest = >>=-ok _ (review_on_hold now us first.0.1) first.2 in
    let a = review_on_hold-IsApart now u first.0.0 s first.0.1 first.1 in
    let ih = review_on_hold_lem now us rest.0.0 first.0.1 rest.0.1 rest.1 in
    subst (λ (out : List User × ReviewState). Pairs (Outcome now) (u ∷ us) out.0 × IsApart s out.1)
      (ok-injective rest.2)
      (
        (review_on_hold-Outcome now u first.0.0 s first.0.1 first.1, ih.0),
        IsApart-trans s first.0.1 rest.0.1 a ih.1,
      )
