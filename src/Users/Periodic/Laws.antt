-- ===== src/Users/Periodic/Laws.antt =====
-- What the periodic reset changes.
use vpn_panel.Prelude.{
  ℕ, ◌*◌, ◌≡◌, refl, ap, ◌∙◌, inl, inr, true, false, ◌&&◌, not, List, [], ◌∷◌, ◌++◌, map, arith,
  leb, ◌==◌, if◌then◌else◌, Bool-cases, filter, contains,
}
use vpn_panel.Users.{User, limited, UsageLog, BsRow}
use vpn_panel.Users.Reset.{reset_user_data_usage, drop_rows}
use vpn_panel.Users.Status.{is_status}
use vpn_panel.Users.Periodic.{
  ResetStrategy, no_reset, day, week, month, year, days_of, is_resetting, last_log,
  last_traffic_reset_time, is_reset_due, ResetState, reset_one_due, reset_due_users,
}

-- a user after a reset at this moment
abbrev pub reset_of : ℕ → User → User
reset_of now u = (reset_user_data_usage now u []).0

abbrev pub after_of : ℕ → ResetStrategy × User → ResetStrategy × User
after_of now (strategy, u) = (strategy, if is_reset_due now strategy u then reset_of now u else u)

-- the users whom the job resets
abbrev pub due_ids : ℕ → List (ResetStrategy × User) → List ℕ
due_ids now [] = []
due_ids now ((strategy, u) ∷ entries) =
    let rest = due_ids now entries in if is_reset_due now strategy u then u.id ∷ rest else rest

-- The rows that are left when the counters of these users are cleared.
abbrev pub rows_without : List ℕ → List BsRow → List BsRow
rows_without ids = filter (λ r. not (contains r.user_id ids))

reset-rows :
    (now : ℕ) (u : User) (rows : List BsRow)
    → reset_user_data_usage now u rows ≡ (reset_of now u, drop_rows (λ r. r.user_id == u.id) rows)
unfolding reset_user_data_usage
reset-rows now u rows = refl

-- No user is limited after a reset.
reset-status : (now : ℕ) (u : User) → is_status (reset_of now u).status limited ≡ false
unfolding reset_user_data_usage
reset-status now u = ground arith

rows_without-drop :
    (i : ℕ) (ids : List ℕ) (rows : List BsRow)
    → rows_without ids (drop_rows (λ r. r.user_id == i) rows) ≡ rows_without (i ∷ ids) rows
rows_without-drop i ids [] = refl
rows_without-drop i ids (r ∷ rows) = ground (arith, rows_without-drop i ids rows)

rows_without-none : (rows : List BsRow) → rows_without [] rows ≡ rows
rows_without-none [] = refl
rows_without-none (r ∷ rows) = ap (λ l. r ∷ l) (rows_without-none rows)

append_assoc :
    {A : Type 0} (xs : List A) (y : A) (zs : List A) → (xs ++ (y ∷ [])) ++ zs ≡ xs ++ (y ∷ zs)
append_assoc [] y zs = refl
append_assoc (x ∷ xs) y zs = ap (λ l. x ∷ l) (append_assoc xs y zs)

append-nil : {A : Type 0} (xs : List A) → xs ++ [] ≡ xs
append-nil [] = refl
append-nil (x ∷ xs) = ap (λ l. x ∷ l) (append-nil xs)

step-due :
    (now : ℕ) (strategy : ResetStrategy) (u : User) (s : ResetState)
    → is_reset_due now strategy u ≡ true
    → reset_one_due now (strategy, u) s ≡ record {
      users = s.users ++ ((strategy, reset_of now u) ∷ []);
      rows = drop_rows (λ r. r.user_id == u.id) s.rows;
      added = s.added;
    }
unfolding reset_one_due
step-due now strategy u s due = rw (due, reset-rows now u s.rows, reset-status now u) refl

step-not_due :
    (now : ℕ) (strategy : ResetStrategy) (u : User) (s : ResetState)
    → is_reset_due now strategy u ≡ false
    → reset_one_due now (strategy, u) s ≡ record s { users = s.users ++ ((strategy, u) ∷ []) }
unfolding reset_one_due
step-not_due now strategy u s early = rw early refl

-- what the job makes of the tables
abbrev done_with : ℕ → List (ResetStrategy × User) → ResetState → ResetState
done_with now entries s = record {
  users = s.users ++ map (after_of now) entries;
  rows = rows_without (due_ids now entries) s.rows;
  added = s.added;
}

reset_due_users-done :
    (now : ℕ) (entries : List (ResetStrategy × User)) (s : ResetState)
    → reset_due_users now entries s ≡ done_with now entries s
unfolding reset_due_users
reset_due_users-done now [] s = rw (append-nil s.users, rows_without-none s.rows) refl
reset_due_users-done now ((strategy, u) ∷ entries) s =
    elim (Bool-cases (is_reset_due now strategy u)) [
      | inl due ↦
          ap (reset_due_users now entries) (step-due now strategy u s due)
          ∙ reset_due_users-done now entries _
          ∙ rw
              (
                due,
                append_assoc s.users (strategy, reset_of now u) (map (after_of now) entries),
                rows_without-drop u.id (due_ids now entries) s.rows,
              )
              refl
      | inr early ↦
          ap (reset_due_users now entries) (step-not_due now strategy u s early)
          ∙ reset_due_users-done now entries _
          ∙ rw (early, append_assoc s.users (strategy, u) (map (after_of now) entries)) refl
    ]

last_log-append :
    (created_at : ℕ) (logs : List UsageLog) (log : UsageLog)
    → last_log created_at (logs ++ (log ∷ [])) ≡ log.reset_at
last_log-append created_at [] log = refl
last_log-append created_at (l ∷ logs) log = last_log-append l.reset_at logs log

just_reset : (now : ℕ) (u : User) → last_traffic_reset_time (reset_of now u) ≡ now
unfolding reset_user_data_usage last_traffic_reset_time
just_reset now u = last_log-append u.created_at u.usage_logs _

never_at_once :
    (strategy : ResetStrategy) → (is_resetting strategy && leb (days_of strategy * 86400) 0) ≡ false
never_at_once no_reset = refl
never_at_once day = refl
never_at_once week = refl
never_at_once month = refl
never_at_once year = refl

not_due_again :
    (now : ℕ) (strategy : ResetStrategy) (u : User)
    → is_reset_due now strategy (reset_of now u) ≡ false
unfolding is_reset_due
not_due_again now strategy u = rw (just_reset now u) (ground (arith, never_at_once strategy))

after_of-again :
    (now : ℕ) (entry : ResetStrategy × User)
    → after_of now (after_of now entry) ≡ after_of now entry
after_of-again now (strategy, u) = elim (Bool-cases (is_reset_due now strategy u)) [
  | inl due ↦ rw due (rw (not_due_again now strategy u) refl)
  | inr early ↦ rw early (rw early refl)
]

map-after_of-again :
    (now : ℕ) (entries : List (ResetStrategy × User))
    → map (after_of now) (map (after_of now) entries) ≡ map (after_of now) entries
map-after_of-again now [] = refl
map-after_of-again now (entry ∷ entries) =
    rw (after_of-again now entry, map-after_of-again now entries) refl

due_ids-again :
    (now : ℕ) (entries : List (ResetStrategy × User))
    → due_ids now (map (after_of now) entries) ≡ []
due_ids-again now [] = refl
due_ids-again now ((strategy, u) ∷ entries) = elim (Bool-cases (is_reset_due now strategy u)) [
  | inl due ↦ rw due (rw (not_due_again now strategy u) (due_ids-again now entries))
  | inr early ↦ rw early (rw early (due_ids-again now entries))
]

-- The state in which a run of the job begins.
abbrev pub fresh : List BsRow → List ℕ → ResetState
fresh rows added = record { users = []; rows = rows; added = added }

-- A run of the job resets exactly the users whose reset is due and leaves the others as they were, clears the
-- BS counters of those reset and nobody else's, and gives no user back to the cores, a limited one
-- neither; a second run at the same moment changes nothing.
pub reset_due_users_lem :
    (now : ℕ) (entries : List (ResetStrategy × User)) (rows : List BsRow) (added : List ℕ)
    → let once = reset_due_users now entries (fresh rows added) in
      let twice = reset_due_users now once.users (fresh once.rows once.added) in
      (once.users ≡ map (after_of now) entries)
      × (once.rows ≡ rows_without (due_ids now entries) rows)
      × (once.added ≡ added)
      × (twice ≡ once)
reset_due_users_lem now entries rows added =
    let first = reset_due_users-done now entries (fresh rows added) in
    (
      ap (λ s. s.users) first,
      ap (λ s. s.rows) first,
      ap (λ s. s.added) first,
      rw first (
          reset_due_users-done now (map (after_of now) entries) _
          ∙ rw
              (
                map-after_of-again now entries,
                due_ids-again now entries,
                rows_without-none (rows_without (due_ids now entries) rows),
              )
              refl),
    )
