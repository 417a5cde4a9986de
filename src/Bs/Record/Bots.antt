-- ===== src/Bs/Record/Bots.antt =====
-- A tick adds to each bot's daily sum exactly what was measured for the bot's users.
use vpn_panel.Prelude.{
  ℕ, ◌+◌, ◌≤◌, ◌≡◌, refl, ap, inl, inr, Bool, false, ◌&&◌, Option, none, some, List, [], ◌∷◌, ◌++◌,
  arith, ◌==◌, if◌then◌else◌, Bool-cases, ==_refl, sum_of, sum_of-append, length, filter, any,
}
use vpn_panel.Users.{User}
use vpn_panel.Bs.Record.{
  BotBsDaily, bump, tally, bot_of, credit, per_bot, is_daily, add_to_row, upsert, upsert_all,
  record_bot_bs_daily,
}
use vpn_panel.Bs.Record.Counters.{amount, amount-bump}

abbrev pub billed : ℕ → ℕ → ℕ → List BotBsDaily → ℕ
billed bot node day = sum_of (λ r. if is_daily bot node day r then r.used_bytes else 0)

-- (bot_id, node_id, day) is a key of the table
abbrev pub HasUniqueDays : ℕ → ℕ → List BotBsDaily → Type 0
HasUniqueDays node day rows = (bot : ℕ) → length (filter (is_daily bot node day) rows) ≤ 1

absent :
    (bot node day : ℕ) (rows : List BotBsDaily)
    → length (filter (is_daily bot node day) rows) ≡ 0
    → any (is_daily bot node day) rows ≡ false
absent bot node day [] h = refl
absent bot node day (r ∷ rows) h = ground (arith, absent bot node day rows)

missing :
    (bot node day : ℕ) (rows : List BotBsDaily)
    → any (is_daily bot node day) rows ≡ false
    → length (filter (is_daily bot node day) rows) ≡ 0
missing bot node day [] h = refl
missing bot node day (r ∷ rows) h = ground (arith, missing bot node day rows)

billed-add_to_row :
    (b bot node day used : ℕ) (rows : List BotBsDaily)
    → length (filter (is_daily bot node day) rows) ≤ 1
    → billed b node day (add_to_row bot node day used rows)
      ≡ billed b node day rows + (if bot == b && any (is_daily bot node day) rows then used else 0)
billed-add_to_row b bot node day used [] h = ground arith
billed-add_to_row b bot node day used (r ∷ rows) h =
    ground (arith, billed-add_to_row b bot node day used rows, absent bot node day rows)

rows-add_to_row :
    (b bot node day used : ℕ) (rows : List BotBsDaily)
    → length (filter (is_daily b node day) (add_to_row bot node day used rows))
      ≡ length (filter (is_daily b node day) rows)
rows-add_to_row b bot node day used [] = refl
rows-add_to_row b bot node day used (r ∷ rows) =
    ground (arith, rows-add_to_row b bot node day used rows)

rows-append :
    (p : BotBsDaily → Bool) (rows more : List BotBsDaily)
    → length (filter p (rows ++ more)) ≡ length (filter p rows) + length (filter p more)
rows-append p [] more = omega arith
rows-append p (r ∷ rows) more = ground (arith, rows-append p rows more)

module _ (node day : ℕ) (billable : Bool) where
  billed-upsert :
      (b bot used : ℕ) (rows : List BotBsDaily)
      → HasUniqueDays node day rows
      → billed b node day (upsert node day billable (bot, used) rows)
        ≡ billed b node day rows + (if bot == b then used else 0)
  unfolding upsert
  billed-upsert b bot used rows h = elim (Bool-cases (any (is_daily bot node day) rows)) [
    | inl e ↦ rw e (ground (arith, billed-add_to_row b bot node day used rows (h bot), e))
    | inr e ↦
        let row : BotBsDaily = record {
          bot_id = bot;
          node_id = node;
          day = day;
          used_bytes = used;
          billable = billable;
        } in
        rw e (
          ground (
            arith,
            ==_refl node,
            ==_refl day,
            sum_of-append (λ (r : BotBsDaily). if is_daily b node day r then r.used_bytes else 0)
                rows (row ∷ []),
          ))
  ]

  upsert-HasUniqueDays :
      (bot used : ℕ) (rows : List BotBsDaily)
      → HasUniqueDays node day rows
      → HasUniqueDays node day (upsert node day billable (bot, used) rows)
  unfolding upsert
  upsert-HasUniqueDays bot used rows h b = elim (Bool-cases (any (is_daily bot node day) rows)) [
    | inl e ↦ rw e (ground (arith, rows-add_to_row b bot node day used rows, h b))
    | inr e ↦
        let row : BotBsDaily = record {
          bot_id = bot;
          node_id = node;
          day = day;
          used_bytes = used;
          billable = billable;
        } in
        rw e (
          ground (
            arith,
            rows-append (is_daily b node day) rows (row ∷ []),
            h b,
            missing bot node day rows,
          ))
  ]

  billed-upsert_all :
      (b : ℕ) (sums : List (ℕ × ℕ)) (rows : List BotBsDaily)
      → HasUniqueDays node day rows
      → billed b node day (upsert_all node day billable sums rows)
        ≡ billed b node day rows + amount b sums
  unfolding upsert_all
  billed-upsert_all b [] rows h = omega arith
  billed-upsert_all b ((bot, used) ∷ sums) rows h = omega (
    arith,
    billed-upsert b bot used rows h,
    billed-upsert_all b sums (upsert node day billable (bot, used) rows)
        (upsert-HasUniqueDays bot used rows h),
  )

-- what a list of measurements owes to a bot
abbrev pub is_bot : ℕ → Option ℕ → Bool
is_bot b none = false
is_bot b (some c) = c == b

abbrev pub owed : (ℕ → ℕ) → List User → ℕ → List (ℕ × ℕ) → ℕ
owed charge users b = sum_of (λ p. if is_bot b (bot_of p.0 users) then charge p.1 else 0)

chosen-bump :
    (q : ℕ → Bool) (u x : ℕ) (d : List (ℕ × ℕ))
    → sum_of (λ p. if q p.0 then p.1 else 0) (bump u x d)
      ≡ sum_of (λ p. if q p.0 then p.1 else 0) d + (if q u then x else 0)
chosen-bump q u x [] = ground arith
chosen-bump q u x ((i, v) ∷ d) = ground (arith, chosen-bump q u x d, ap q)

module _ (users : List User) (b : ℕ) where
  amount-credit :
      (bot : Option ℕ) (d : ℕ) (sums : List (ℕ × ℕ))
      → amount b (credit bot d sums) ≡ amount b sums + (if is_bot b bot then d else 0)
  amount-credit none d sums = omega arith
  amount-credit (some c) d sums = amount-bump b c d sums

  amount-per_bot :
      (sums deltas : List (ℕ × ℕ))
      → amount b (per_bot users sums deltas) ≡ amount b sums + owed (λ n. n) users b deltas
  unfolding per_bot
  amount-per_bot sums [] = omega arith
  amount-per_bot sums ((uid, d) ∷ deltas) = omega (
    arith,
    amount-per_bot (credit (bot_of uid users) d sums) deltas,
    amount-credit (bot_of uid users) d sums,
  )

  owed-bump :
      (u x : ℕ) (d : List (ℕ × ℕ))
      → owed (λ n. n) users b (bump u x d)
        ≡ owed (λ n. n) users b d + (if is_bot b (bot_of u users) then x else 0)
  owed-bump u x d = chosen-bump (λ i. is_bot b (bot_of i users)) u x d

  owed-tally :
      (charge : ℕ → ℕ) (d params : List (ℕ × ℕ))
      → owed (λ n. n) users b (tally charge d params)
        ≡ owed (λ n. n) users b d + owed charge users b params
  unfolding tally
  owed-tally charge d [] = omega arith
  owed-tally charge d ((u, v) ∷ params) =
      omega (arith, owed-tally charge (bump u (charge v) d) params, owed-bump u (charge v) d)

-- A tick adds to a bot's sum of the day what the node measured for the bot's users, and nothing for users without a bot or of
-- other bots. The table has one row for a bot, a node and a day.
pub billed-record :
    (charge : ℕ → ℕ) (node day b : ℕ) (billable : Bool) (users : List User) (params : List (ℕ × ℕ))
    (rows : List BotBsDaily)
    → HasUniqueDays node day rows
    → billed b node day (record_bot_bs_daily node day billable users (tally charge [] params) rows)
      ≡ billed b node day rows + owed charge users b params
unfolding record_bot_bs_daily
billed-record charge node day b billable users params rows h = omega (
  arith,
  billed-upsert_all node day billable b (per_bot users [] (tally charge [] params)) rows h,
  amount-per_bot users b [] (tally charge [] params),
  owed-tally users b charge [] params,
)
