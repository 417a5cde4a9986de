-- ===== src/Bs/Nodes/Over.antt =====
-- Who is over the limit: the job's set is what the state of each user says.
use vpn_panel.Prelude.{
  ℕ, ◌+◌, ◌≡◌, refl, Option, none, some, Bool, false, ◌&&◌, ◌||◌, not, List, [], ◌∷◌, filter, any,
  contains, if◌then◌else◌, ◌==◌, leb, lookup, insert, get_or, arith, Bool-cases, inl, inr,
}
use vpn_panel.Users.{BsRow}
use vpn_panel.Bs.{is_period, aggregate_from, aggregate_bs_usage, over_limit_monthly_pool}
use vpn_panel.Bs.Totals.{used_in, has_row_in, aggregate_bs_usage_lem}
use vpn_panel.Bs.Pool.{BsDb, get_bs_usage_totals, get_bs_state}
use vpn_panel.Bs.Nodes.{batch_pool, over_users_of, over_users}
use vpn_panel.Bs.Nodes.Batch.{batch_pool-eq-normalize}

abbrev has_key : ℕ → List (ℕ × ℕ) → Bool
has_key k = any (λ e. e.0 == k)

abbrev HasUniqueKeys : List (ℕ × ℕ) → Type 0
HasUniqueKeys [] = Unit
HasUniqueKeys (e ∷ es) = (has_key e.0 es ≡ false) × HasUniqueKeys es

has_key-insert :
    (k j n : ℕ) (es : List (ℕ × ℕ)) → has_key j (insert k n es) ≡ ((k == j) || has_key j es)
has_key-insert k j n [] = ground arith
has_key-insert k j n ((i, v) ∷ es) = ground (arith, has_key-insert k j n es)

insert-HasUniqueKeys :
    (k n : ℕ) (es : List (ℕ × ℕ)) → HasUniqueKeys es → HasUniqueKeys (insert k n es)
insert-HasUniqueKeys k n [] h = (refl, tt)
insert-HasUniqueKeys k n ((i, v) ∷ es) h = elim (Bool-cases (i == k)) [
  | inl same ↦ rw same (ground arith, h.1)
  | inr other ↦ rw other (ground (arith, has_key-insert k i n es), insert-HasUniqueKeys k n es h.1)
]

aggregate-HasUniqueKeys :
    (m : ℕ) (ts : List (ℕ × ℕ)) (rows : List BsRow)
    → HasUniqueKeys ts
    → HasUniqueKeys (aggregate_from m ts rows)
unfolding aggregate_from
aggregate-HasUniqueKeys m ts [] h = h
aggregate-HasUniqueKeys m ts (r ∷ rows) h = elim (Bool-cases (is_period m r.monthly_period)) [
  | inl this ↦ rw this (
      aggregate-HasUniqueKeys m
        (insert r.user_id (get_or (lookup r.user_id ts) 0 + r.monthly_used) ts) rows
        (insert-HasUniqueKeys r.user_id (get_or (lookup r.user_id ts) 0 + r.monthly_used) ts h))
  | inr other ↦ rw other (aggregate-HasUniqueKeys m ts rows h)
]

-- the job's test at a total
abbrev is_over : BsDb → ℕ → ℕ → ℕ → Bool
is_over db m uid used =
    over_limit_monthly_pool used db.bs_monthly_limit (some (batch_pool db uid m))

abbrev over_at : BsDb → ℕ → ℕ → Option ℕ → Bool
over_at db m uid none = false
over_at db m uid (some used) = is_over db m uid used

contains-absent :
    (db : BsDb) (m uid : ℕ) (ts : List (ℕ × ℕ))
    → has_key uid ts ≡ false
    → contains uid (over_users_of db m ts) ≡ false
unfolding over_users_of
contains-absent db m uid [] h = refl
contains-absent db m uid ((k, used) ∷ ts) h = ground (arith, contains-absent db m uid ts)

contains-over_users_of :
    (db : BsDb) (m uid : ℕ) (ts : List (ℕ × ℕ))
    → HasUniqueKeys ts
    → contains uid (over_users_of db m ts) ≡ over_at db m uid (lookup uid ts)
unfolding over_users_of
contains-over_users_of db m uid [] h = refl
contains-over_users_of db m uid ((k, used) ∷ ts) h =
    ground (arith, contains-over_users_of db m uid ts h.1, contains-absent db m uid ts, h.0)

-- filtering by the user too leaves the user's rows
used_in-filter :
    (db : BsDb) (uid m : ℕ) (rows : List BsRow)
    → (used_in uid m (filter (λ r. contains r.node_id db.bs_nodes && r.user_id == uid) rows)
        ≡ used_in uid m (filter (λ r. contains r.node_id db.bs_nodes) rows))
      × (has_row_in uid m (filter (λ r. contains r.node_id db.bs_nodes && r.user_id == uid) rows)
          ≡ has_row_in uid m (filter (λ r. contains r.node_id db.bs_nodes) rows))
used_in-filter db uid m [] = (refl, refl)
used_in-filter db uid m (r ∷ rows) = ground (arith, used_in-filter db uid m rows)

no_row : (uid m : ℕ) (rows : List BsRow) → has_row_in uid m rows ≡ false → used_in uid m rows ≡ 0
no_row uid m [] h = refl
no_row uid m (r ∷ rows) h = ground (arith, no_row uid m rows)

-- The panel has a limit, and the month's use has reached the total that the user may use.
abbrev pub is_exhausted : BsDb → ℕ → ℕ → Bool
is_exhausted db uid m =
    let s = get_bs_state db uid m in not (s.monthly_limit == 0) && leb s.limit_total s.monthly_used

abbrev on_bs : BsDb → List BsRow
on_bs db = filter (λ r. contains r.node_id db.bs_nodes) db.usage

total-lookup :
    (db : BsDb) (uid m : ℕ)
    → lookup uid (aggregate_bs_usage (on_bs db) m)
      ≡ (if has_row_in uid m (on_bs db) then some (get_bs_usage_totals db uid m) else none)
unfolding get_bs_usage_totals
total-lookup db uid m = ground (
  arith,
  aggregate_bs_usage_lem m uid (on_bs db),
  aggregate_bs_usage_lem m uid
      (filter (λ r. contains r.node_id db.bs_nodes && r.user_id == uid) db.usage),
  used_in-filter db uid m db.usage,
)

total_zero :
    (db : BsDb) (uid m : ℕ) → has_row_in uid m (on_bs db) ≡ false → get_bs_usage_totals db uid m ≡ 0
unfolding get_bs_usage_totals
total_zero db uid m h = ground (
  arith,
  aggregate_bs_usage_lem m uid
      (filter (λ r. contains r.node_id db.bs_nodes && r.user_id == uid) db.usage),
  used_in-filter db uid m db.usage,
)

exhausted_lem :
    (db : BsDb) (uid m : ℕ)
    → is_exhausted db uid m ≡ is_over db m uid (get_bs_usage_totals db uid m)
unfolding get_bs_state over_limit_monthly_pool
exhausted_lem db uid m = ground (arith, batch_pool-eq-normalize db uid m)

not_over_zero : (db : BsDb) (uid m : ℕ) → is_over db m uid 0 ≡ false
unfolding over_limit_monthly_pool
not_over_zero db uid m = ground arith

-- The job finds a user over the limit exactly when the user's BS state says that it is exhausted.
pub contains-over_users :
    (db : BsDb) (uid m : ℕ) → contains uid (over_users db m) ≡ is_exhausted db uid m
unfolding over_users
contains-over_users db uid m = ground (
  arith,
  contains-over_users_of db m uid (aggregate_bs_usage (on_bs db) m)
      (unfold aggregate_bs_usage in aggregate-HasUniqueKeys m [] (on_bs db) tt),
  total-lookup db uid m,
  total_zero db uid m,
  exhausted_lem db uid m,
  not_over_zero db uid m,
)
