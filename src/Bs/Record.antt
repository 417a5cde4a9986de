-- ===== src/Bs/Record.antt =====
-- app/jobs/record_usages.py: a tick of the traffic of one BS node, written to the counters of the users and,
-- in the same transaction, to the daily sums of the bots. `charge` is int(value * consumption_factor).
pub mod Counters
pub mod Bots
use vpn_panel.Prelude.{
  ℕ, zero, suc, ◌+◌, ◌-◌, ◌*◌, ◌/◌, ◌%◌, ◌^◌, ◌≤◌, ◌<◌, max, min, String, ◌≡◌, refl, sym, ap, ◌∙◌,
  ◌≢◌, ◌⊎◌, inl, inr, Bool, true, false, ◌&&◌, ◌||◌, not, Option, none, some, List, [], ◌∷◌, ◌++◌,
  map, arith, str_eq, ltb, leb, ◌==◌, if◌then◌else◌, Bool-cases, Option-cases, truthy, or_zero,
  get_or, is_some, some-injective, ==_refl, length, filter, any, All, take, drop, contains,
  contains-append, contains-filter, lookup, insert, keys, lookup-insert,
}
use vpn_panel.Prelude.Sort.{sort_by}
use vpn_panel.Users.{User, BsRow}
use vpn_panel.Bs.{Counter, bs_counter_step}
use vpn_panel.Bs.Pool.{BsDb, find_user, normalize_bs_extra_period}

pub record BotBsDaily : Type 0 where
  pub bot_id : ℕ
  pub node_id : ℕ
  pub day : ℕ
  pub used_bytes : ℕ
  pub billable : Bool

pub record Books : Type 0 where
  pub db : BsDb
  pub daily : List BotBsDaily

-- d[k] = d.get(k, 0) + x
abbrev pub bump : ℕ → ℕ → List (ℕ × ℕ) → List (ℕ × ℕ)
bump k x d = insert k (get_or (lookup k d) 0 + x) d

-- the deltas of a tick, on top of those so far
unfoldable pub tally : (ℕ → ℕ) → List (ℕ × ℕ) → List (ℕ × ℕ) → List (ℕ × ℕ)
tally charge deltas [] = deltas
tally charge deltas ((uid, value) ∷ params) = tally charge (bump uid (charge value) deltas) params

abbrev pub is_row : ℕ → ℕ → BsRow → Bool
is_row node uid r = r.node_id == node && r.user_id == uid

abbrev pub with_counter : BsRow → Counter → BsRow
with_counter r c = record r { monthly_used = c.monthly_used; monthly_period = c.monthly_period }

-- to_update: the rows of the node and of the measured users; (node_id, user_id) is the table's key
abbrev pub update_rows : ℕ → ℕ → List (ℕ × ℕ) → List BsRow → List BsRow
update_rows node m deltas [] = []
update_rows node m deltas (r ∷ rows) =
    let rest = update_rows node m deltas rows in
    let counter =
      some (record { monthly_used = r.monthly_used; monthly_period = r.monthly_period }) in
    (if r.node_id == node
      then elim (lookup r.user_id deltas) [
        | none ↦ r
        | some delta ↦ with_counter r (bs_counter_step counter delta m)
      ]
      else r)
    ∷ rest

-- to_insert: a row for each measured user without one
abbrev pub new_rows : ℕ → ℕ → List BsRow → List (ℕ × ℕ) → List BsRow
new_rows node m rows [] = []
new_rows node m rows ((uid, delta) ∷ deltas) =
    let rest = new_rows node m rows deltas in
    let c = bs_counter_step none delta m in
    if any (is_row node uid) rows
    then rest
    else record {
      node_id = node;
      user_id = uid;
      monthly_used = c.monthly_used;
      monthly_period = c.monthly_period;
    }
      ∷ rest

-- the users whose pool is of an earlier month
abbrev pub is_stale_pool : ℕ → List (ℕ × ℕ) → User → Bool
is_stale_pool m deltas u =
    is_some (lookup u.id deltas) && elim u.bs_extra_period [ none ↦ false | some p ↦ ltb p m ]

-- the pools carried over to the month, user by user
unfoldable pub carry_pools : ℕ → List User → BsDb → BsDb
carry_pools m [] db = db
carry_pools m (u ∷ us) db = carry_pools m us (normalize_bs_extra_period db u.id m true).1

abbrev pub user_by_id : User → User → Bool
user_by_id u v = leb u.id v.id

-- the bot of a user
unfoldable pub bot_of : ℕ → List User → Option ℕ
bot_of uid users = elim (find_user uid users) [ none ↦ none | some u ↦ u.bot_id ]

-- a user without a bot is passed over
abbrev pub credit : Option ℕ → ℕ → List (ℕ × ℕ) → List (ℕ × ℕ)
credit none delta sums = sums
credit (some b) delta sums = bump b delta sums

-- per_bot, on top of the sums so far
unfoldable pub per_bot : List User → List (ℕ × ℕ) → List (ℕ × ℕ) → List (ℕ × ℕ)
per_bot users sums [] = sums
per_bot users sums ((uid, delta) ∷ deltas) =
    per_bot users (credit (bot_of uid users) delta sums) deltas

abbrev pub is_daily : ℕ → ℕ → ℕ → BotBsDaily → Bool
is_daily bot node day r = r.bot_id == bot && r.node_id == node && r.day == day

-- INSERT … ON CONFLICT (bot_id, node_id, day) DO UPDATE SET used_bytes = used_bytes + …
abbrev pub add_to_row : ℕ → ℕ → ℕ → ℕ → List BotBsDaily → List BotBsDaily
add_to_row bot node day used [] = []
add_to_row bot node day used (r ∷ rows) =
    (if is_daily bot node day r then record r { used_bytes = r.used_bytes + used } else r)
    ∷ add_to_row bot node day used rows

unfoldable pub upsert : ℕ → ℕ → Bool → ℕ × ℕ → List BotBsDaily → List BotBsDaily
upsert node day billable (bot, used) rows =
    if any (is_daily bot node day) rows
    then add_to_row bot node day used rows
    else rows
      ++ (record { bot_id = bot; node_id = node; day = day; used_bytes = used; billable = billable }
          ∷ [])

unfoldable pub upsert_all : ℕ → ℕ → Bool → List (ℕ × ℕ) → List BotBsDaily → List BotBsDaily
upsert_all node day billable [] rows = rows
upsert_all node day billable (sum ∷ sums) rows =
    upsert_all node day billable sums (upsert node day billable sum rows)

unfoldable pub record_bot_bs_daily :
    ℕ → ℕ → Bool → List User → List (ℕ × ℕ) → List BotBsDaily → List BotBsDaily
record_bot_bs_daily node day billable users deltas rows =
    upsert_all node day billable (per_bot users [] deltas) rows

-- record_bs_user_stats in month `m` on day `day`
unfoldable pub record_bs_user_stats : (ℕ → ℕ) → ℕ → ℕ → Bool → ℕ → List (ℕ × ℕ) → Books → Books
record_bs_user_stats charge m day billable node params books =
    let deltas = tally charge [] params in
    let stale = sort_by user_by_id (filter (is_stale_pool m deltas) books.db.users) in
    let db = carry_pools m stale books.db in
    record {
      db = record db {
        usage = update_rows node m deltas db.usage ++ new_rows node m db.usage deltas;
      };
      daily = record_bot_bs_daily node day billable db.users deltas books.daily;
    }
