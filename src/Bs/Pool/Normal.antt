-- ===== src/Bs/Pool/Normal.antt =====
-- The carry-over happens once a month: writing it and only computing it agree, and again is no more.
use vpn_panel.Prelude.{
  ℕ, ◌≡◌, refl, Option, none, some, Bool, true, false, List, [], ◌∷◌, if◌then◌else◌, Bool-cases,
  inl, inr, arith,
}
use vpn_panel.Users.{User}
use vpn_panel.Bs.Pool.{
  BsDb, find_user, set_pool, with_pool, is_current, carried, normalized, normalize_bs_extra_period,
}

pub find_user-set_pool :
    (uid pool m : ℕ) (us : List User) (u : User)
    → find_user uid us ≡ some u
    → find_user uid (set_pool uid pool m us)
      ≡ some (record u { bs_extra = some pool; bs_extra_period = some m })
find_user-set_pool uid pool m [] u h = cc
find_user-set_pool uid pool m (v ∷ us) u h = ground (arith, find_user-set_pool uid pool m us u)

pub find_user-set_pool-none :
    (uid pool m : ℕ) (us : List User)
    → find_user uid us ≡ none
    → find_user uid (set_pool uid pool m us) ≡ none
find_user-set_pool-none uid pool m [] h = refl
find_user-set_pool-none uid pool m (v ∷ us) h =
    ground (arith, find_user-set_pool-none uid pool m us)

-- The month that was written is current.
current_now : (m : ℕ) → is_current m (some m) ≡ true
current_now m = ground arith

normalized_agree :
    (db : BsDb) (uid m : ℕ) (o : Option User)
    → ((normalized db uid m true o).0 ≡ (normalized db uid m false o).0)
      × ((normalized db uid m false o).1 ≡ db)
unfolding normalized
normalized_agree db uid m none = (refl, refl)
normalized_agree db uid m (some u) = ground arith

normalized_again :
    (db : BsDb) (uid m : ℕ) (persist : Bool) (o : Option User)
    → find_user uid db.users ≡ o
    → normalize_bs_extra_period (normalized db uid m true o).1 uid m persist
      ≡ normalized db uid m true o
unfolding normalize_bs_extra_period
normalized_again db uid m persist none h = rw h refl
normalized_again db uid m persist (some u) h = elim (Bool-cases (is_current m u.bs_extra_period)) [
  | inl current ↦ rw current (rw h (rw current refl))
  | inr late ↦
      rw late
        (rw (find_user-set_pool uid (carried db uid u m) m db.users u h) (rw (current_now m) refl))
]

-- Computing the carried pool gives what writing it gives, and only writing changes the database.
-- After it was written, doing either again changes nothing and gives the same pool.
pub normalize_once :
    (db : BsDb) (uid m : ℕ) (persist : Bool)
    → let (pool, db') = normalize_bs_extra_period db uid m true in
      (normalize_bs_extra_period db uid m false ≡ (pool, db))
      × (normalize_bs_extra_period db' uid m persist ≡ (pool, db'))
unfolding normalize_bs_extra_period
normalize_once db uid m persist = (
  ground (arith, normalized_agree db uid m (find_user uid db.users)),
  normalized_again db uid m persist (find_user uid db.users) refl,
)

normalized_keeps :
    (db : BsDb) (uid m : ℕ) (persist : Bool) (u : User) (o : Option User)
    → find_user uid db.users ≡ some u
    → find_user uid db.users ≡ o
    → ((v : User) × (find_user uid (normalized db uid m persist o).1.users ≡ some v))
      × ((normalized db uid m persist o).1.bs_monthly_limit ≡ db.bs_monthly_limit)
unfolding normalized
normalized_keeps db uid m persist u none f g = cc
normalized_keeps db uid m persist u (some v) f g =
    elim (Bool-cases (is_current m v.bs_extra_period)) [
      | inl current ↦ rw current ((u, f), refl)
      | inr late ↦ rw late (written persist)
    ]
  where
    written :
        (b : Bool)
        → ((w : User) × (find_user uid
                (if b then with_pool uid (carried db uid v m) m db else db).users
              ≡ some w))
          × ((if b then with_pool uid (carried db uid v m) m db else db).bs_monthly_limit
              ≡ db.bs_monthly_limit)
    written true = ((_, find_user-set_pool uid (carried db uid v m) m db.users v g), refl)
    written false = ((u, f), refl)

-- The carry-over loses no user and leaves the limit alone.
pub normalize_keeps :
    (db : BsDb) (uid m : ℕ) (persist : Bool) (u : User)
    → find_user uid db.users ≡ some u
    → ((v : User) × (find_user uid (normalize_bs_extra_period db uid m persist).1.users ≡ some v))
      × ((normalize_bs_extra_period db uid m persist).1.bs_monthly_limit ≡ db.bs_monthly_limit)
unfolding normalize_bs_extra_period
normalize_keeps db uid m persist u f =
    normalized_keeps db uid m persist u (find_user uid db.users) f refl

-- A pool that was written for this month is read as it stands.
pub pool-with_pool :
    (db : BsDb) (uid pool m : ℕ) (persist : Bool) (u : User)
    → find_user uid db.users ≡ some u
    → normalize_bs_extra_period (with_pool uid pool m db) uid m persist
      ≡ (pool, with_pool uid pool m db)
unfolding normalize_bs_extra_period normalized
pool-with_pool db uid pool m persist u f =
    rw (find_user-set_pool uid pool m db.users u f) (rw (current_now m) refl)
