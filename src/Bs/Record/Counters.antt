-- ===== src/Bs/Record/Counters.antt =====
-- A tick adds to each user's use of the month exactly what was measured for the user.
use vpn_panel.Prelude.{
  ℕ, ◌+◌, ◌≤◌, ◌≡◌, refl, ◌∙◌, inl, inr, Bool, true, false, ◌&&◌, List, [], ◌∷◌, arith, ◌==◌,
  if◌then◌else◌, Bool-cases, Option-cases, get_or, ==_refl, sum_of, sum_of-append, length, filter,
  any, lookup, lookup-insert,
}
use vpn_panel.Prelude.Sort.{sort_by}
use vpn_panel.Users.{User, BsRow}
use vpn_panel.Bs.{is_period, bs_counter_step}
use vpn_panel.Bs.Totals.{used_in}
use vpn_panel.Bs.Pool.{BsDb, find_user, normalize_bs_extra_period, normalized, is_current}
use vpn_panel.Bs.Record.{
  Books, bump, tally, is_row, update_rows, new_rows, carry_pools, is_stale_pool, user_by_id,
  record_bs_user_stats,
}

-- what a dict of numbers holds for a key
abbrev pub amount : ℕ → List (ℕ × ℕ) → ℕ
amount k = sum_of (λ kv. if kv.0 == k then kv.1 else 0)

-- what was measured for a user
abbrev pub measured : (ℕ → ℕ) → ℕ → List (ℕ × ℕ) → ℕ
measured charge uid = sum_of (λ p. if p.0 == uid then charge p.1 else 0)

abbrev pub held : ℕ → List (ℕ × ℕ) → ℕ
held k d = get_or (lookup k d) 0

pub amount-bump :
    (k j x : ℕ) (d : List (ℕ × ℕ)) → amount k (bump j x d) ≡ amount k d + (if j == k then x else 0)
amount-bump k j x [] = ground arith
amount-bump k j x ((i, v) ∷ d) = ground (arith, amount-bump k j x d)

pub held-tally :
    (charge : ℕ → ℕ) (uid : ℕ) (d params : List (ℕ × ℕ))
    → held uid (tally charge d params) ≡ held uid d + measured charge uid params
unfolding tally
held-tally charge uid d [] = omega arith
held-tally charge uid d ((u, v) ∷ params) = ground (
  arith,
  held-tally charge uid (bump u (charge v) d) params,
  lookup-insert u uid (get_or (lookup u d) 0 + charge v) d,
)

pub amount-tally :
    (charge : ℕ → ℕ) (uid : ℕ) (d params : List (ℕ × ℕ))
    → amount uid (tally charge d params) ≡ amount uid d + measured charge uid params
unfolding tally
amount-tally charge uid d [] = omega arith
amount-tally charge uid d ((u, v) ∷ params) =
    ground
      (arith, amount-tally charge uid (bump u (charge v) d) params, amount-bump uid u (charge v) d)

-- (node_id, user_id) is a key of the table
abbrev pub HasUniqueRows : ℕ → ℕ → List BsRow → Type 0
HasUniqueRows node uid rows = length (filter (is_row node uid) rows) ≤ 1

absent :
    (node uid : ℕ) (rows : List BsRow)
    → length (filter (is_row node uid) rows) ≡ 0
    → any (is_row node uid) rows ≡ false
absent node uid [] h = refl
absent node uid (r ∷ rows) h = ground (arith, absent node uid rows)

used_in-update_rows :
    (node m uid : ℕ) (deltas : List (ℕ × ℕ)) (rows : List BsRow)
    → HasUniqueRows node uid rows
    → used_in uid m (update_rows node m deltas rows)
      ≡ used_in uid m rows + (if any (is_row node uid) rows then held uid deltas else 0)
unfolding bs_counter_step
used_in-update_rows node m uid deltas [] h = omega arith
used_in-update_rows node m uid deltas (r ∷ rows) h =
    ground (arith, used_in-update_rows node m uid deltas rows, absent node uid rows, ==_refl m)

used_in-new_rows :
    (node m uid : ℕ) (rows : List BsRow) (deltas : List (ℕ × ℕ))
    → used_in uid m (new_rows node m rows deltas)
      ≡ (if any (is_row node uid) rows then 0 else amount uid deltas)
unfolding bs_counter_step
used_in-new_rows node m uid rows [] = ground arith
used_in-new_rows node m uid rows ((u, d) ∷ deltas) =
    ground (arith, used_in-new_rows node m uid rows deltas, ==_refl m)

usage-normalize :
    (db : BsDb) (uid m : ℕ) → (normalize_bs_extra_period db uid m true).1.usage ≡ db.usage
unfolding normalize_bs_extra_period normalized
usage-normalize db uid m = elim (Option-cases (find_user uid db.users)) [
  | inl none_found ↦ rw none_found refl
  | inr found ↦ rw found.1 (elim (Bool-cases (is_current m found.0.bs_extra_period)) [
    | inl e ↦ rw e refl
    | inr e ↦ rw e refl
  ])
]

usage-carry_pools : (m : ℕ) (us : List User) (db : BsDb) → (carry_pools m us db).usage ≡ db.usage
unfolding carry_pools
usage-carry_pools m [] db = refl
usage-carry_pools m (u ∷ us) db = usage-carry_pools m us _ ∙ usage-normalize db u.id m

-- A tick adds to a user's use of the month what the node measured for the user, and for nobody else: a counter of an earlier month
-- begins anew, a user without a counter gets one. The table has one counter for a node and a user.
pub used_in-record :
    (charge : ℕ → ℕ) (m day : ℕ) (billable : Bool) (node uid : ℕ) (params : List (ℕ × ℕ))
    (books : Books)
    → HasUniqueRows node uid books.db.usage
    → used_in uid m (record_bs_user_stats charge m day billable node params books).db.usage
      ≡ used_in uid m books.db.usage + measured charge uid params
unfolding record_bs_user_stats
used_in-record charge m day billable node uid params books h =
    let deltas = tally charge [] params in
    let rows = books.db.usage in
    let stale = sort_by user_by_id (filter (is_stale_pool m deltas) books.db.users) in
    rw (usage-carry_pools m stale books.db) (
      ground (
        arith,
        sum_of-append
            (λ (r : BsRow).
              if is_period m r.monthly_period && r.user_id == uid then r.monthly_used else 0)
            (update_rows node m deltas rows) (new_rows node m rows deltas),
        used_in-update_rows node m uid deltas rows h,
        used_in-new_rows node m uid rows deltas,
        held-tally charge uid [] params,
        amount-tally charge uid [] params,
      ))
