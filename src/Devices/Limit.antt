-- ===== src/Devices/Limit.antt =====
-- Which devices the limit lets through: the first of them by the moment they were first seen.
use vpn_panel.Prelude.{
  ℕ, zero, suc, ◌<◌, ◌≡◌, refl, ap, ◌∙◌, ◌||◌, ◌&&◌, some, Bool, false, List, [], ◌∷◌, any, filter,
  take, ◌==◌, ==_refl, lt→ltb, arith, Bool-cases, inl, inr,
}
use vpn_panel.Devices.{
  UserDevice, index_of, is_below, by_first_seen, sort_by_first_seen, seen_before,
  active_devices_by_first_seen, is_device_within_limit, is_active,
}

abbrev pub has_id : ℕ → UserDevice → Bool
has_id i d = d.id == i

-- the primary key
abbrev pub HasUniqueIds : List UserDevice → Type 0
HasUniqueIds [] = Unit
HasUniqueIds (d ∷ ds) = (any (has_id d.id) ds ≡ false) × HasUniqueIds ds

any-by_first_seen :
    (p : UserDevice → Bool) (d : UserDevice) (ds : List UserDevice)
    → any p (by_first_seen d ds) ≡ (p d || any p ds)
any-by_first_seen p d [] = refl
any-by_first_seen p d (e ∷ ds) = ground (arith, any-by_first_seen p d ds)

any-sort : (p : UserDevice → Bool) (ds : List UserDevice) → any p (sort_by_first_seen ds) ≡ any p ds
any-sort p [] = refl
any-sort p (d ∷ ds) =
    any-by_first_seen p d (sort_by_first_seen ds) ∙ ap (λ b. p d || b) (any-sort p ds)

by_first_seen-HasUniqueIds :
    (d : UserDevice) (ds : List UserDevice)
    → any (has_id d.id) ds ≡ false
    → HasUniqueIds ds
    → HasUniqueIds (by_first_seen d ds)
by_first_seen-HasUniqueIds d [] f h = (refl, tt)
by_first_seen-HasUniqueIds d (e ∷ ds) f h = elim (Bool-cases (seen_before d e)) [
  | inl first ↦ rw first (f, h)
  | inr later ↦ rw later (
    rw (any-by_first_seen (has_id e.id) d ds) (ground arith),
    by_first_seen-HasUniqueIds d ds (ground arith) h.1,
  )
]

sort-HasUniqueIds : (ds : List UserDevice) → HasUniqueIds ds → HasUniqueIds (sort_by_first_seen ds)
sort-HasUniqueIds [] h = tt
sort-HasUniqueIds (d ∷ ds) h =
    by_first_seen-HasUniqueIds d (sort_by_first_seen ds) (any-sort (has_id d.id) ds ∙ h.0)
      (sort-HasUniqueIds ds h.1)

any-filter :
    (p q : UserDevice → Bool) (ds : List UserDevice)
    → any p ds ≡ false
    → any p (filter q ds) ≡ false
any-filter p q [] h = refl
any-filter p q (d ∷ ds) h = ground (arith, any-filter p q ds)

filter-HasUniqueIds :
    (q : UserDevice → Bool) (ds : List UserDevice) → HasUniqueIds ds → HasUniqueIds (filter q ds)
filter-HasUniqueIds q [] h = tt
filter-HasUniqueIds q (d ∷ ds) h = elim (Bool-cases (q d)) [
  | inl keep ↦ rw keep (any-filter (has_id d.id) q ds h.0, filter-HasUniqueIds q ds h.1)
  | inr drop ↦ rw drop (filter-HasUniqueIds q ds h.1)
]

-- behind a device with another id the places shift by one
filter-shift :
    (l : ℕ) (x : UserDevice) (xs ys : List UserDevice)
    → any (has_id x.id) ys ≡ false
    → filter (λ d. is_below (suc l) (index_of d.id (x ∷ xs))) ys
      ≡ filter (λ d. is_below l (index_of d.id xs)) ys
filter-shift l x xs [] h = refl
filter-shift l x xs (y ∷ ys) h = ground (arith, filter-shift l x xs ys)

none_below : (xs ys : List UserDevice) → filter (λ d. is_below 0 (index_of d.id xs)) ys ≡ []
none_below xs [] = refl
none_below xs (y ∷ ys) = ground (arith, none_below xs ys)

first_places :
    (l : ℕ) (xs : List UserDevice)
    → HasUniqueIds xs
    → filter (λ d. is_below l (index_of d.id xs)) xs ≡ take l xs
first_places zero xs h = none_below xs xs
first_places (suc l) [] h = refl
first_places (suc l) (x ∷ xs) h = rw (==_refl x.id) (
    rw (filter-shift l x xs xs h.0)
      (rw (first_places l xs h.1) (rw (lt→ltb 0 (suc l) (omega arith)) refl)))

abbrev pub active_of : ℕ → List UserDevice → List UserDevice
active_of uid = filter (λ d. d.user_id == uid && is_active d.status)

-- Of the active devices of a user, those within a limit are the first `limit` of them by the moment
-- they were first seen (then by id), so never more than the limit.
pub within_limit_first :
    (limit uid : ℕ) (ds : List UserDevice)
    → HasUniqueIds ds
    → 0 < limit
    → filter
        (λ d. is_device_within_limit (some limit) uid ds (some d))
        (active_devices_by_first_seen uid ds)
      ≡ take limit (active_devices_by_first_seen uid ds)
unfolding is_device_within_limit active_devices_by_first_seen
within_limit_first zero uid ds h p = absurd (omega arith)
within_limit_first (suc l) uid ds h p =
    first_places (suc l) (sort_by_first_seen (active_of uid ds))
      (sort-HasUniqueIds (active_of uid ds) (filter-HasUniqueIds _ ds h))
