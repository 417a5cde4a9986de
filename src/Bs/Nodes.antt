-- ===== src/Bs/Nodes.antt =====
-- app/jobs/review_bs_nodes.py: the periodic review of the BS limit. The blocks are the pairs
-- (node_id, user_id) of node_user_blocks, which its unique constraint keeps single; a block is
-- deleted by the id of its row. Calls of the xray cores are a list; their errors are only logged.
pub mod Batch
pub mod Over
pub mod Outcome
use vpn_panel.Prelude.{
  ℕ, ◌+◌, Option, none, some, Bool, true, false, ◌&&◌, ◌||◌, not, List, [], ◌∷◌, ◌++◌, map, filter,
  any, sum_of, contains, keys, if◌then◌else◌, ◌==◌, leb, lookup, insert, get_or, or_zero, truthy,
}
use vpn_panel.Users.{User, UserStatus, active, on_hold, BsRow}
use vpn_panel.Users.Status.{is_status}
use vpn_panel.Bs.{
  aggregate_bs_usage, carry_over_pool, over_limit_monthly_pool, diff_blocks, same, member,
}
use vpn_panel.Bs.Pool.{BsDb, find_user}

-- _stale_used_since
unfoldable pub stale_used_since : List (ℕ × ℕ) → ℕ → ℕ
stale_used_since rows since = sum_of (λ r. if leb since r.0 then r.1 else 0) rows

-- _effective_pool
unfoldable pub effective_pool : ℕ → Option ℕ → ℕ → List (ℕ × ℕ) → ℕ → ℕ
effective_pool extra none m stale limit = extra
effective_pool extra (some p) m stale limit =
    if not (truthy (some p)) || leb m p
    then extra
    else carry_over_pool (some extra) (stale_used_since stale p) limit

abbrev other_month : ℕ → Option ℕ → Bool
other_month m none = false
other_month m (some p) = not (p == m)

-- one row into the groups (period, sum)
abbrev into_group : BsRow → List (ℕ × ℕ) → List (ℕ × ℕ)
into_group r g =
    insert (or_zero r.monthly_period)
      (get_or (lookup (or_zero r.monthly_period) g) 0 + r.monthly_used) g

-- the rows of other months on BS nodes of one user, grouped by month: stale.get(uid, [])
unfoldable pub stale_groups : BsDb → ℕ → ℕ → List BsRow → List (ℕ × ℕ)
stale_groups db uid m [] = []
stale_groups db uid m (r ∷ rows) =
    let rest = stale_groups db uid m rows in
    if contains r.node_id db.bs_nodes && r.user_id == uid && other_month m r.monthly_period
    then into_group r rest
    else rest

-- user_info.get(uid, (0, None))
abbrev info_extra : Option User → ℕ
info_extra none = 0
info_extra (some u) = or_zero u.bs_extra

abbrev info_period : Option User → Option ℕ
info_period none = none
info_period (some u) = u.bs_extra_period

-- the pool that the review counts for a user
unfoldable pub batch_pool : BsDb → ℕ → ℕ → ℕ
batch_pool db uid m =
    effective_pool (info_extra (find_user uid db.users)) (info_period (find_user uid db.users)) m
      (stale_groups db uid m db.usage) db.bs_monthly_limit

totals : BsDb → ℕ → List (ℕ × ℕ)
totals db m = aggregate_bs_usage (filter (λ r. contains r.node_id db.bs_nodes) db.usage) m

-- the loop that collects over_users
over_users_of : BsDb → ℕ → List (ℕ × ℕ) → List ℕ
over_users_of db m [] = []
over_users_of db m ((uid, used) ∷ ts) =
    let rest = over_users_of db m ts in
    if over_limit_monthly_pool used db.bs_monthly_limit (some (batch_pool db uid m))
    then uid ∷ rest
    else rest

unfoldable pub over_users : BsDb → ℕ → List ℕ
unfolding totals over_users_of
over_users db m = over_users_of db m (totals db m)

-- {(nid, uid) for uid in over_users for nid in bs_node_ids}
unfoldable pub desired_blocks : List ℕ → List ℕ → List (ℕ × ℕ)
desired_blocks nodes [] = []
desired_blocks nodes (uid ∷ uids) = map (λ nid. (nid, uid)) nodes ++ desired_blocks nodes uids

pub data XrayCall : Type 0 where
  remove_user_from_node add_user_to_node : ℕ → ℕ → XrayCall

pub record Blocks : Type 0 where
  pub rows : List (ℕ × ℕ)
  pub calls : List XrayCall

-- a block for a user that exists
abbrev pub block_one : BsDb → ℕ × ℕ → Blocks → Blocks
block_one db (nid, uid) b = elim (find_user uid db.users) [
  | none ↦ b
  | some u ↦ record b {
    rows = b.rows ++ (nid, uid) ∷ [];
    calls = b.calls ++ remove_user_from_node uid nid ∷ [];
  }
]

abbrev pub readmits : Option User → Bool
readmits none = false
readmits (some u) = is_status u.status active || is_status u.status on_hold

abbrev unblock_one : BsDb → ℕ × ℕ → Blocks → Blocks
unblock_one db (nid, uid) b = record b {
  rows = filter (λ p. not (same p (nid, uid))) b.rows;
  calls =
      if readmits (find_user uid db.users)
      then b.calls ++ add_user_to_node uid nid ∷ []
      else b.calls;
}

block_all : BsDb → List (ℕ × ℕ) → Blocks → Blocks
block_all db [] b = b
block_all db (p ∷ ps) b = block_all db ps (block_one db p b)

unblock_all : BsDb → List (ℕ × ℕ) → Blocks → Blocks
unblock_all db [] b = b
unblock_all db (p ∷ ps) b = unblock_all db ps (unblock_one db p b)

reconciled : BsDb → ℕ → Blocks → Blocks
unfolding block_all unblock_all
reconciled db m b =
    let (to_block, to_unblock) =
      diff_blocks (desired_blocks db.bs_nodes (over_users db m)) b.rows in
    unblock_all db to_unblock (block_all db to_block b)

review_over : BsDb → ℕ → List ℕ → Blocks → Blocks
unfolding reconciled
review_over db m [] b = b
review_over db m (n ∷ ns) b = reconciled db m b

-- the job: nothing happens without BS nodes
unfoldable pub review_bs_nodes : BsDb → ℕ → Blocks → Blocks
unfolding review_over
review_bs_nodes db m b = review_over db m db.bs_nodes b
