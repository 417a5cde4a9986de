-- ===== src/Users/Modify/Bought.antt =====
-- What the setting of the bought BS traffic leaves of the users, and when it is refused.
use vpn_panel.Prelude.{
  ℕ, ◌-◌, ◌≡◌, refl, ◌∙◌, inl, inr, Bool, true, false, ◌&&◌, ◌||◌, not, Option, none, some, List,
  [], ◌∷◌, arith, ltb, ◌==◌, Bool-cases, get_or,
}
use vpn_panel.Prelude.Raises.{Result, ok, err, is_err}
use vpn_panel.Users.{User, UserStatus}
use vpn_panel.Bs.Pool.{
  BsDb, find_user, set_pool, normalized, normalize_bs_extra_period, is_current,
  set_user_bs_extra_amount, set_user_bs_limit_total,
}
use vpn_panel.Users.Modify.{UserModify, set_bs}

-- the status of a user in a table; `u` where there is none
abbrev pub status_in : ℕ → User → List User → UserStatus
status_in i u users = (get_or (find_user i users) u).status

set_pool-status :
    (i uid pool m : ℕ) (c : User) (users : List User)
    → status_in i c (set_pool uid pool m users) ≡ status_in i c users
set_pool-status i uid pool m c [] = refl
set_pool-status i uid pool m c (u ∷ users) = elim (Bool-cases (u.id == uid)) [
  | inl same ↦ elim (Bool-cases (u.id == i)) [
    | inl found ↦ rw same (rw (status_in, found) refl)
    | inr other ↦ rw same (rw (status_in, other) (set_pool-status i uid pool m c users))
  ]
  | inr apart ↦ elim (Bool-cases (u.id == i)) [
    | inl found ↦ rw apart (rw (status_in, found) refl)
    | inr other ↦ rw apart (rw (status_in, other) (set_pool-status i uid pool m c users))
  ]
]

-- the table after a step that may raise; where it raises, the table before
abbrev pub after_step : List User → Result BsDb → List User
after_step users (ok db) = db.users
after_step users (err e) = users

normalized-status :
    (i : ℕ) (c : User) (db : BsDb) (uid m : ℕ) (found : Option User)
    → status_in i c (normalized db uid m true found).1.users ≡ status_in i c db.users
unfolding normalized
normalized-status i c db uid m none = refl
normalized-status i c db uid m (some u) = elim (Bool-cases (is_current m u.bs_extra_period)) [
  | inl current ↦ rw current refl
  | inr stale ↦ rw stale (set_pool-status i uid _ m c db.users)
]

normalize-status :
    (i : ℕ) (c : User) (db : BsDb) (uid m : ℕ)
    → status_in i c (normalize_bs_extra_period db uid m true).1.users ≡ status_in i c db.users
unfolding normalize_bs_extra_period
normalize-status i c db uid m = normalized-status i c db uid m (find_user uid db.users)

extra-status :
    (i : ℕ) (c : User) (db : BsDb) (uid m extra : ℕ)
    → status_in i c (after_step db.users (set_user_bs_extra_amount db uid m extra))
      ≡ status_in i c db.users
unfolding set_user_bs_extra_amount
extra-status i c db uid m extra = elim (Bool-cases (db.bs_monthly_limit == 0)) [
  | inl off ↦ elim (Bool-cases (extra == 0)) [
    | inl none_bought ↦ rw off (rw none_bought (set_pool-status i uid 0 m c db.users))
    | inr some_bought ↦ rw off (rw some_bought refl)
  ]
  | inr on ↦ rw on (
      set_pool-status i uid extra m c (normalize_bs_extra_period db uid m true).1.users
      ∙ normalize-status i c db uid m)
]

total-status :
    (i : ℕ) (c : User) (db : BsDb) (uid m total : ℕ)
    → status_in i c (after_step db.users (set_user_bs_limit_total db uid m total))
      ≡ status_in i c db.users
unfolding set_user_bs_limit_total
total-status i c db uid m total = elim (Bool-cases (db.bs_monthly_limit == 0)) [
  | inl off ↦ elim (Bool-cases (total == 0)) [
    | inl none_bought ↦ rw off (rw none_bought (set_pool-status i uid 0 m c db.users))
    | inr some_bought ↦ rw off (rw some_bought refl)
  ]
  | inr on ↦ elim (Bool-cases (ltb total db.bs_monthly_limit)) [
    | inl short ↦ rw on (rw short refl)
    | inr enough ↦ rw on (
        rw enough (
          set_pool-status i uid (total - db.bs_monthly_limit) m c
            (normalize_bs_extra_period db uid m true).1.users
          ∙ normalize-status i c db uid m))
  ]
]

-- The two amounts of the bought traffic that a change may set.
abbrev pub bs_set : Option ℕ → Option ℕ → ℕ → ℕ → BsDb → Result BsDb
bs_set (some extra) total uid m db = set_user_bs_extra_amount db uid m extra
bs_set none none uid m db = ok db
bs_set none (some total) uid m db = set_user_bs_limit_total db uid m total

pub bs_set-status :
    (i : ℕ) (c : User) (extra total : Option ℕ) (db : BsDb) (uid m : ℕ)
    → status_in i c (after_step db.users (bs_set extra total uid m db)) ≡ status_in i c db.users
bs_set-status i c (some extra) total db uid m = extra-status i c db uid m extra
bs_set-status i c none none db uid m = refl
bs_set-status i c none (some total) db uid m = total-status i c db uid m total

pub set_bs-eq :
    (uid m : ℕ) (modify : UserModify) (extra total : Option ℕ) (db : BsDb)
    → set_bs uid m (record modify { bs_extra = extra; bs_limit_total = total }) db
      ≡ bs_set extra total uid m db
unfolding set_bs
set_bs-eq uid m modify (some extra) total db = refl
set_bs-eq uid m modify none none db = refl
set_bs-eq uid m modify none (some total) db = refl

-- the bought traffic cannot be set: no limit is set for all, or the total is under it
abbrev pub is_bs_refused : ℕ → Option ℕ → Option ℕ → Bool
is_bs_refused limit none none = false
is_bs_refused limit (some extra) total = limit == 0 && not (extra == 0)
is_bs_refused limit none (some total) = (limit == 0 && not (total == 0)) || ltb total limit

pub bs_set-raises :
    (extra total : Option ℕ) (uid m : ℕ) (db : BsDb)
    → is_err (bs_set extra total uid m db) ≡ is_bs_refused db.bs_monthly_limit extra total
unfolding set_user_bs_extra_amount set_user_bs_limit_total
bs_set-raises none none uid m db = refl
bs_set-raises (some extra) total uid m db = ground arith
bs_set-raises none (some amount) uid m db = ground arith
