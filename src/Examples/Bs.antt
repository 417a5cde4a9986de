-- ===== src/Examples/Bs.antt =====
-- Runs of the BS limit: pools, blocks and the books of a tick.
use vpn_panel.Prelude.{
  ℕ, ◌≡◌, refl, true, false, ◌&&◌, ◌||◌, some, List, [], ◌∷◌, arith, is_some, contains,
}
use vpn_panel.Prelude.Raises.{ok}
use vpn_panel.Bs.{carry_over_pool, member}
use vpn_panel.Bs.Totals.{used_in}
use vpn_panel.Bs.Pool.{
  BsDb, find_user, with_pool, normalize_bs_extra_period, get_bs_usage_totals_stale,
  set_user_bs_extra_amount, set_user_bs_limit_total, modify_user_bs_extra,
}
use vpn_panel.Bs.Nodes.{batch_pool, Blocks, review_bs_nodes}
use vpn_panel.Bs.Nodes.Batch.{batch_pool-eq-normalize}
use vpn_panel.Bs.Nodes.Over.{is_exhausted}
use vpn_panel.Bs.Nodes.Outcome.{review_bs_nodes_lem}
use vpn_panel.Bs.Record.{Books, tally, bot_of, record_bot_bs_daily, record_bs_user_stats}
use vpn_panel.Bs.Record.Counters.{used_in-record}
use vpn_panel.Bs.Record.Bots.{billed, billed-record}
use vpn_panel.Examples.Users.{alice, bob, rows}

abbrev db : BsDb
db = record { users = alice ∷ bob ∷ []; usage = rows; bs_nodes = 1 ∷ []; bs_monthly_limit = 50 }

abbrev with_amount : BsDb
with_amount = with_pool 7 5 202602 (with_pool 7 40 202602 db)

amount_test : set_user_bs_extra_amount db 7 202602 5 ≡ ok with_amount
unfolding set_user_bs_extra_amount normalize_bs_extra_period get_bs_usage_totals_stale
    carry_over_pool
amount_test = refl

abbrev with_total : BsDb
with_total = with_pool 7 30 202602 (with_pool 7 40 202602 db)

total_test : set_user_bs_limit_total db 7 202602 80 ≡ ok with_total
unfolding set_user_bs_limit_total normalize_bs_extra_period get_bs_usage_totals_stale
    carry_over_pool
total_test = refl

abbrev with_more : BsDb
with_more = with_pool 7 46 202602 (with_pool 7 40 202602 db)

more_test : modify_user_bs_extra db 7 202602 true (some 6) false ≡ ok with_more
unfolding modify_user_bs_extra normalize_bs_extra_period get_bs_usage_totals_stale carry_over_pool
more_test = refl

batch_pool-eq-normalize_example :
    batch_pool db 7 202602 ≡ (normalize_bs_extra_period db 7 202602 false).0
batch_pool-eq-normalize_example = batch_pool-eq-normalize db 7 202602

abbrev blocks : Blocks
blocks = record { rows = (1, 8) ∷ []; calls = [] }

review_bs_nodes_lem_example : member (1, 8) (review_bs_nodes db 202602 blocks).rows ≡ (
    contains 1 db.bs_nodes
    && is_exhausted db 8 202602
    && (member (1, 8) blocks.rows || is_some (find_user 8 db.users)))
review_bs_nodes_lem_example = review_bs_nodes_lem db 202602 1 8 1 blocks refl

-- a tick of node 1 with two measurements of alice and one of bob
abbrev params : List (ℕ × ℕ)
params = (7, 10) ∷ (8, 4) ∷ (7, 1) ∷ []

abbrev books : Books
books = record { db = db; daily = [] }

used_in-record_example :
    used_in 7 202602 (record_bs_user_stats (λ n. n) 202602 31 true 1 params books).db.usage ≡ 71
used_in-record_example = used_in-record (λ n. n) 202602 31 true 1 7 params books (omega arith)

billed-record_example :
    billed 3 1 31 (record_bot_bs_daily 1 31 true db.users (tally (λ n. n) [] params) []) ≡ 11
unfolding bot_of
billed-record_example = billed-record (λ n. n) 1 31 3 true db.users params [] (λ bot. omega arith)
