-- ===== src/Users/Autodelete/Laws.antt =====
-- Whom the deletion of expired users deletes.
use vpn_panel.Prelude.{
  ℕ, ◌+◌, ◌*◌, ◌≡◌, refl, ap, ◌∙◌, inl, inr, Bool, true, false, ◌&&◌, ◌||◌, not, Option, none, some,
  List, [], ◌∷◌, arith, leb, ltb, if◌then◌else◌, Bool-cases, get_or, filter, any,
}
use vpn_panel.Prelude.Int.{ℤ, pos, negsuc}
use vpn_panel.Prelude.Raises.{
  Error, ok, err, is_err, is_err-bind, is_err-last, type_error, overflow_error,
}
use vpn_panel.Users.{User, expired, limited}
use vpn_panel.Users.Status.{is_status}
use vpn_panel.Users.Autodelete.{
  last_moment, days_left_of, deletion_days, is_overdue, is_deletable, split_expired,
  autodelete_expired_users,
}

-- what the job may delete, by an independent reading: of the users meant, those whose status changed at least
-- as many days ago as are set for them
unfoldable pub has_expired_for : ℕ → ℤ → Bool → User → Bool
has_expired_for now fallback include_limited u =
    (is_status u.status expired || (include_limited && is_status u.status limited))
    && elim (get_or u.auto_delete_in_days fallback) [
      | negsuc n ↦ false
      | pos days ↦ elim u.last_status_change [
        | none ↦ false
        | some changed ↦ leb (changed + days * 86400) now
      ]
    ]

-- the moment `days` days after the last change is not known, or not a date
abbrev no_date : Option ℕ → ℕ → Bool
no_date none days = true
no_date (some changed) days = ltb last_moment (changed + days * 86400)

-- a user for whom the comparison raises
unfoldable pub is_undated : ℤ → Bool → User → Bool
is_undated fallback include_limited u =
    (is_status u.status expired || (include_limited && is_status u.status limited))
    && elim (get_or u.auto_delete_in_days fallback) [
      | negsuc n ↦ false
      | pos days ↦ no_date u.last_status_change days
    ]

-- what it raises
abbrev raised_by : Option ℕ → Error
raised_by none = type_error
raised_by (some changed) = overflow_error

is_deletable-meant :
    (meant : Bool) (now : ℕ) (days : ℤ) (changed : Option ℕ)
    → (elim (if meant then days_left_of days else none) [
      | none ↦ ok false
      | some n ↦ is_overdue now changed n
    ])
      ≡ (if meant && elim days [ negsuc n ↦ false | pos n ↦ no_date changed n ]
          then err (raised_by changed)
          else ok (
              meant && elim days [
                | negsuc n ↦ false
                | pos n ↦ elim changed [ none ↦ false | some at ↦ leb (at + n * 86400) now ]
              ]))
unfolding is_overdue
is_deletable-meant false now days changed = refl
is_deletable-meant true now (negsuc n) changed = refl
is_deletable-meant true now (pos n) none = refl
is_deletable-meant true now (pos n) (some at) = refl

is_deletable_lem :
    (now : ℕ) (fallback : ℤ) (include_limited : Bool) (u : User)
    → is_deletable now fallback include_limited u ≡ (
        if is_undated fallback include_limited u
        then err (raised_by u.last_status_change)
        else ok (has_expired_for now fallback include_limited u))
unfolding is_deletable deletion_days is_undated has_expired_for
is_deletable_lem now fallback include_limited u =
    is_deletable-meant
      (is_status u.status expired || (include_limited && is_status u.status limited)) now
      (get_or u.auto_delete_in_days fallback) u.last_status_change

-- Where for every user meant the last change is known and the end of the days set is not after the year 9999,
-- the users deleted are exactly those who have expired for long enough, in their order, and the others are left.
pub autodelete_expired_users_lem :
    (now : ℕ) (fallback : ℤ) (include_limited : Bool) (users : List User)
    → any (is_undated fallback include_limited) users ≡ false
    → autodelete_expired_users now fallback include_limited users
      ≡ ok (
        filter (has_expired_for now fallback include_limited) users,
        filter (λ u. not (has_expired_for now fallback include_limited u)) users,
      )
unfolding autodelete_expired_users split_expired
autodelete_expired_users_lem now fallback include_limited [] known = refl
autodelete_expired_users_lem now fallback include_limited (u ∷ users) known =
    elim (Bool-cases (is_undated fallback include_limited u)) [
      | inl lacks ↦ ground (arith, lacks, known)
      | inr has ↦
          let rest =
            autodelete_expired_users_lem now fallback include_limited users
              (ground (arith, has, known)) in
          rw (is_deletable_lem now fallback include_limited u, has, rest)
            (elim (Bool-cases (has_expired_for now fallback include_limited u)) [
              | inl e ↦ rw e refl
              | inr e ↦ rw e refl
            ])
    ]

is_deletable-raises :
    (now : ℕ) (fallback : ℤ) (include_limited : Bool) (u : User)
    → is_err (is_deletable now fallback include_limited u) ≡ is_undated fallback include_limited u
is_deletable-raises now fallback include_limited u =
    ap is_err (is_deletable_lem now fallback include_limited u)
    ∙ elim (Bool-cases (is_undated fallback include_limited u)) [
      | inl e ↦ rw e refl
      | inr e ↦ rw e refl
    ]

-- The deletion raises exactly when for a user who is meant the moment of the last change is missing, or the end of
-- the days set is after the year 9999.
pub autodelete_expired_users-raises :
    (now : ℕ) (fallback : ℤ) (include_limited : Bool) (users : List User)
    → is_err (autodelete_expired_users now fallback include_limited users)
      ≡ any (is_undated fallback include_limited) users
unfolding autodelete_expired_users split_expired
autodelete_expired_users-raises now fallback include_limited [] = refl
autodelete_expired_users-raises now fallback include_limited (u ∷ users) =
    is_err-bind (is_deletable now fallback include_limited u) _ _ _
      (is_deletable-raises now fallback include_limited u)
      (λ d.
        is_err-last (split_expired now fallback include_limited users) _
          (autodelete_expired_users-raises now fallback include_limited users))
