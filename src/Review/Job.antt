-- ===== src/Review/Job.antt =====
-- The whole job: the active users, the removals from the cores, the on-hold users.
use mathlib.Core.List.{flatten, Perm}
use mathlib.Core.List.Perm
use vpn_panel.Prelude.Sort.{insert_by, sort_by, IsSortedBy, sort_by-IsSortedBy, length-sort_by}
use vpn_panel.Prelude.{
  ℕ, ◌+◌, ◌≡◌, ◌∙◌, ap, inl, inr, Bool-cases, Bool, List, [], ◌∷◌, length, Pairs, arith, leb, subst,
}
use vpn_panel.Prelude.Raises.{Result, ok, ◌>>=◌, >>=-ok, ok-injective}
use vpn_panel.Users.{User}
use vpn_panel.Review.{ReviewState, Webhook, start, review_active, review_on_hold}
use vpn_panel.Review.Active
use vpn_panel.Review.OnHold
use vpn_panel.Review.Batches.{removal_batches, removal_batches_lem}

-- `users.sort(key=lambda u: u.id)`, which keeps the order of equal keys
abbrev pub has_lower_id : User → User → Bool
has_lower_id u v = leb u.id v.id

unfoldable pub sort_by_id : List User → List User
sort_by_id = sort_by has_lower_id

pub record Reviewed : Type 0 where
  pub active_users : List User
  pub on_hold_users : List User
  pub removals : List (List User)
  pub state : ReviewState

unfoldable pub committed : ReviewState → ReviewState
committed s = record s { commits = s.commits + 1; changed_in_batch = 0 }

unfoldable pub review : Webhook → ℕ → List User → List User → Result Reviewed
unfolding committed
review webhook now actives holds = do
  (actives', s) ← review_active webhook now (sort_by_id actives) start
  (holds', s') ← review_on_hold now (sort_by_id holds) (committed s)
  ok (record {
    active_users = actives';
    on_hold_users = holds';
    removals = removal_batches s.users_to_remove;
    state = committed s';
  })

insert_by-Perm : (u : User) (us : List User) → Perm (insert_by has_lower_id u us) (u ∷ us)
insert_by-Perm u [] = Perm.refl (u ∷ [])
insert_by-Perm u (v ∷ vs) = elim (Bool-cases (has_lower_id u v)) [
  | inl first ↦ rw first (Perm.refl (u ∷ v ∷ vs))
  | inr later ↦ rw later (Perm.trans (Perm.cons v (insert_by-Perm u vs)) (Perm.swap u v vs))
]

-- Sorting loses no user and invents none.
sort_by_id-Perm : (us : List User) → Perm (sort_by_id us) us
unfolding sort_by_id
sort_by_id-Perm [] = Perm.refl []
sort_by_id-Perm (u ∷ us) =
    Perm.trans (insert_by-Perm u (sort_by_id us)) (Perm.cons u (sort_by_id-Perm us))

-- The users come in the order of their ids.
sort_by_id-IsSortedBy : (us : List User) → IsSortedBy has_lower_id (sort_by_id us)
unfolding sort_by_id
sort_by_id-IsSortedBy us =
    sort_by-IsSortedBy has_lower_id (λ u v h. ground (arith, h)) (λ u v w h k. ground (arith, h, k))
      us

length-sort_by_id : (us : List User) → length (sort_by_id us) ≡ length us
unfolding sort_by_id
length-sort_by_id us = length-sort_by has_lower_id us

-- what a finished job guarantees
pub record IsReviewed (now : ℕ) (actives holds : List User) (r : Reviewed) : Type 0 where
  pub active_each : Perm (sort_by_id actives) actives
  pub on_hold_each : Perm (sort_by_id holds) holds
  pub active_sorted : IsSortedBy has_lower_id (sort_by_id actives)
  pub on_hold_sorted : IsSortedBy has_lower_id (sort_by_id holds)
  pub active_done : Pairs (Active.Outcome now) (sort_by_id actives) r.active_users
  pub on_hold_done : Pairs (OnHold.Outcome now) (sort_by_id holds) r.on_hold_users
  pub removed_once : flatten r.removals ≡ Active.demoted now (sort_by_id actives)
  pub counted : length (flatten r.removals) ≡ r.state.limited_count + r.state.expired_count
  pub all_checked : r.state.checked_active ≡ length actives

-- A review that returns has reviewed every active and every on-hold user, none twice, in the order of
-- their ids, each with the outcome of its own. The batches of the removal hold once each, and in this order, exactly
-- the users who were made limited or expired, as many as are counted.
pub review-IsReviewed :
    (webhook : Webhook) (now : ℕ) (actives holds : List User) (r : Reviewed)
    → review webhook now actives holds ≡ ok r
    → IsReviewed now actives holds r
unfolding review
review-IsReviewed webhook now actives holds r h =
    let first = >>=-ok _ (review_active webhook now (sort_by_id actives) start) h in
    let rest = >>=-ok _ (review_on_hold now (sort_by_id holds) (committed first.0.1)) first.2 in
    let a =
      Active.review_active_lem webhook now (sort_by_id actives) first.0.0 start first.0.1
        (omega arith) first.1 in
    let b =
      OnHold.review_on_hold_lem now (sort_by_id holds) rest.0.0 (committed first.0.1) rest.0.1
        rest.1 in
    let flat = (removal_batches_lem first.0.1.users_to_remove).0 ∙ a.1.removed in
    subst (IsReviewed now actives holds) (ok-injective rest.2) (record {
      active_each = sort_by_id-Perm actives;
      on_hold_each = sort_by_id-Perm holds;
      active_sorted = sort_by_id-IsSortedBy actives;
      on_hold_sorted = sort_by_id-IsSortedBy holds;
      active_done = a.0;
      on_hold_done = b.0;
      removed_once = flat;
      counted =
          ap length flat
          ∙ Active.length-demoted now (sort_by_id actives)
          ∙ omega (arith, a.1.limited_by, a.1.expired_by, b.1.cut, b.1.ended);
      all_checked = omega (arith, a.1.seen, b.1.seen, length-sort_by_id actives);
    })
