-- ===== src/Bs/Nodes/Batch.antt =====
-- The pool of the review, computed for all users from grouped rows, is the canonical one.
use vpn_panel.Prelude.{
  ℕ, ◌+◌, ◌≡◌, refl, Option, none, some, false, ◌&&◌, List, [], ◌∷◌, filter, sum_of, contains,
  if◌then◌else◌, ◌==◌, leb, lookup, insert, get_or, or_zero, arith,
}
use vpn_panel.Users.{User, BsRow}
use vpn_panel.Bs.Pool.{
  BsDb, find_user, is_stale, get_bs_usage_totals_stale, normalize_bs_extra_period, normalized,
}
use vpn_panel.Bs.Nodes.{
  stale_used_since, effective_pool, stale_groups, batch_pool, info_extra, info_period,
}

-- adding to a group adds to the sum of the groups
stale-insert :
    (since p n : ℕ) (g : List (ℕ × ℕ))
    → stale_used_since (insert p (get_or (lookup p g) 0 + n) g) since
      ≡ stale_used_since g since + (if leb since p then n else 0)
unfolding stale_used_since
stale-insert since p n [] = ground arith
stale-insert since p n ((q, k) ∷ g) = ground (arith, stale-insert since p n g)

stale-groups_from :
    (db : BsDb) (uid m since : ℕ) (rows : List BsRow)
    → stale_used_since (stale_groups db uid m rows) since
      ≡ sum_of
          (λ r. r.monthly_used)
          (filter
            (λ r.
              contains r.node_id db.bs_nodes
              && r.user_id == uid
              && is_stale m since r.monthly_period)
            rows)
unfolding stale_groups
stale-groups_from db uid m since [] = unfold stale_used_since in refl
stale-groups_from db uid m since (r ∷ rows) = ground (
  arith,
  stale-groups_from db uid m since rows,
  stale-insert since (or_zero r.monthly_period) r.monthly_used (stale_groups db uid m rows),
)

effective_pool_of :
    (db : BsDb) (uid m : ℕ) (o : Option User)
    → effective_pool
        (info_extra o)
        (info_period o)
        m
        (stale_groups db uid m db.usage)
        db.bs_monthly_limit
      ≡ (normalized db uid m false o).0
unfolding effective_pool normalized get_bs_usage_totals_stale
effective_pool_of db uid m none = refl
effective_pool_of db uid m (some u) =
    ground (arith, stale-groups_from db uid m (or_zero u.bs_extra_period) db.usage)

-- The pool that the review of the BS nodes counts, from sums grouped by month, is the pool that the
-- canonical carry-over computes for the user, whether the user exists or not.
pub batch_pool-eq-normalize :
    (db : BsDb) (uid m : ℕ) → batch_pool db uid m ≡ (normalize_bs_extra_period db uid m false).0
unfolding batch_pool normalize_bs_extra_period
batch_pool-eq-normalize db uid m = effective_pool_of db uid m (find_user uid db.users)
