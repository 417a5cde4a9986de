-- ===== src/Examples/Review.antt =====
-- Runs of the review of the users.
use vpn_panel.Prelude.{ℕ, ltb, ◌≡◌, refl, ◌∙◌, true, false, none, some, List, [], ◌∷◌, any}
use vpn_panel.Prelude.Raises.{ok, is_err}
use vpn_panel.Users.{User, active, expired}
use vpn_panel.Users.Reset.{reset_user_by_next}
use vpn_panel.Users.Status.{update_user_status, start_user_expire}
use vpn_panel.Review.{
  Webhook, ReviewState, apply_next, demote, commit_full, changed, start, is_started, is_plan_due,
  is_limited, is_expired, review_user, review_active, review_on_hold_user, review_on_hold,
}
use vpn_panel.Review.Active.{
  Outcome as ActiveOutcome, raises as active_raises, review_active-raises,
}
use vpn_panel.Review.OnHold.{raises as hold_raises, review_on_hold-raises}
use vpn_panel.Review.Batches.{batches, removal_batches}
use vpn_panel.Review.Job.{sort_by_id, committed, Reviewed, review, IsReviewed, review-IsReviewed}
use vpn_panel.Examples.Users.{alice, bob}

-- without a webhook, and with one
abbrev quiet : Webhook
quiet = record { is_set = false; is_date = λ expire. ltb expire 253402300800 }

abbrev loud : Webhook
loud = record quiet { is_set = true }

-- alice is late at 1500, and bob, on hold, was seen
abbrev late : User
late = record alice { status = expired; last_status_change = some 1500 }

abbrev seen : User
seen = record bob { online_at = some 50 }

abbrev running : User
running = record seen {
  status = active;
  last_status_change = some 1500;
  expire = some 1530;
  on_hold_expire_duration = none;
}

abbrev one_expired : ReviewState
one_expired = record start {
  checked_active = 1;
  expired_count = 1;
  changed_in_batch = 1;
  users_to_remove = late ∷ [];
  events = changed late ∷ [];
}

-- a plan that is due for a user without a data limit
abbrev stuck : User
stuck = record alice {
  data_limit = none;
  next_plan = some (record {
    data_limit = 500;
    expire = none;
    add_remaining_traffic = false;
    fire_on_either = true;
  });
}

stuck_raises : any (active_raises loud 1500) (alice ∷ stuck ∷ []) ≡ true
unfolding is_plan_due is_limited is_expired reset_user_by_next
stuck_raises = refl

review_active-raises_example : is_err (review_active loud 1500 (alice ∷ stuck ∷ []) start) ≡ true
review_active-raises_example =
    review_active-raises loud 1500 (alice ∷ stuck ∷ []) start ∙ stuck_raises

-- an end in milliseconds
abbrev endless_end : User
endless_end = record alice { expire = some 1700000000000 }

undated_test : any (active_raises loud 1500) (endless_end ∷ []) ≡ true
unfolding is_plan_due is_limited is_expired
undated_test = refl

abbrev one_started : ReviewState
one_started = record start {
  on_hold_activated = 1;
  changed_in_batch = 1;
  events = changed running ∷ [];
}

on_hold_test : review_on_hold 1500 (seen ∷ []) start ≡ ok (running ∷ [], one_started)
unfolding review_on_hold review_on_hold_user commit_full update_user_status start_user_expire
    is_started
on_hold_test = refl

abbrev endless : User
endless = record seen { on_hold_expire_duration = none }

endless_raises : any (hold_raises 1500) (seen ∷ endless ∷ []) ≡ true
unfolding is_started
endless_raises = refl

review_on_hold-raises_example : is_err (review_on_hold 1500 (seen ∷ endless ∷ []) start) ≡ true
review_on_hold-raises_example =
    review_on_hold-raises 1500 (seen ∷ endless ∷ []) start ∙ endless_raises

abbrev three : List ℕ
three = 1 ∷ 2 ∷ 3 ∷ []

abbrev reviewed : Reviewed
reviewed = record {
  active_users = late ∷ [];
  on_hold_users = running ∷ [];
  removals = (late ∷ []) ∷ [];
  state = record one_expired {
    on_hold_activated = 1;
    changed_in_batch = 0;
    commits = 2;
    events = changed late ∷ changed running ∷ [];
  };
}

review_test : review quiet 1500 (alice ∷ []) (seen ∷ []) ≡ ok reviewed
unfolding review committed sort_by_id removal_batches batches review_active review_user apply_next
    demote commit_full update_user_status is_plan_due is_limited is_expired review_on_hold
    review_on_hold_user start_user_expire is_started
review_test = refl

review-IsReviewed_example : IsReviewed 1500 (alice ∷ []) (seen ∷ []) reviewed
review-IsReviewed_example =
    review-IsReviewed quiet 1500 (alice ∷ []) (seen ∷ []) reviewed review_test
