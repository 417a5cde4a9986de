-- ===== src/Devices/Register.antt =====
-- What a registration does to the table, and what it answers.
use mathlib.Core.List.{append-nil}
use vpn_panel.Prelude.{
  All, some-injective, sym, ◌∙◌, ==_refl, subst, ℕ, ◌+◌, ◌≤◌, ◌<◌, ◌≡◌, refl, String, Option, none,
  some, Bool, true, false, List, [], ◌∷◌, ◌++◌, any, ◌==◌, eq_iff, arith, Bool-cases, inl, inr,
}
use vpn_panel.Devices.Outcome.{
  found, Outcome, refreshed, mismatched, blocked, inserted, register-Outcome,
}
use vpn_panel.Devices.{
  UserDevice, active, Request, has_key, set_device, update_device_metadata, add_device,
  register_user_device, get_user_device_by_hwid, hard_mode_blocks_new_device, hwid_of,
  count_user_devices,
}

-- In hard mode a device that is not in the table is refused when the user's active devices have
-- reached the limit, and the table stays as it was.
pub register-refuses :
    (now limit uid : ℕ) (r : Request) (concurrent ds : List UserDevice)
    → 0 < limit
    → limit ≤ count_user_devices uid ds
    → found uid r ds ≡ none
    → register_user_device now (some limit) true uid r concurrent ds ≡ (ds, (false, false))
unfolding hard_mode_blocks_new_device
register-refuses now limit uid r concurrent ds p h free =
    refused (register-Outcome now (some limit) true uid r concurrent ds)
  where
    refused :
        {out : List UserDevice × (Bool × Bool)}
        → Outcome now (some limit) true uid r concurrent ds out
        → out ≡ (ds, (false, false))
    refused (refreshed d f) = cc
    refused (mismatched d f) = cc
    refused (blocked f b) = refl
    refused (inserted f b) = ground arith

matching :
    (uid : ℕ) (hwid : String) (ds : List UserDevice) (d : UserDevice)
    → get_user_device_by_hwid uid hwid ds ≡ some d
    → has_key uid hwid d ≡ true
unfolding get_user_device_by_hwid
matching uid hwid [] d h = cc
matching uid hwid (e ∷ ds) d h = elim (Bool-cases (has_key uid hwid e)) [
  | inl there ↦
      let same : some e ≡ some d = rw there at h in
      subst (λ (x : UserDevice). has_key uid hwid x ≡ true) (some-injective same) there
  | inr other ↦ matching uid hwid ds d (rw other at h)
]

has_key-update :
    (now uid : ℕ) (hwid : String) (r : Request) (d : UserDevice)
    → has_key uid hwid (update_device_metadata now r d) ≡ has_key uid hwid d
unfolding update_device_metadata
has_key-update now uid hwid r d = refl

-- The look-up of a device whose row was updated finds the updated row.
found-set_device :
    (now uid : ℕ) (hwid : String) (r : Request) (ds : List UserDevice) (d : UserDevice)
    → get_user_device_by_hwid uid hwid ds ≡ some d
    → get_user_device_by_hwid uid hwid (set_device d.id (update_device_metadata now r) ds)
      ≡ some (update_device_metadata now r d)
unfolding get_user_device_by_hwid set_device
found-set_device now uid hwid r [] d h = cc
found-set_device now uid hwid r (e ∷ ds) d h = elim (Bool-cases (has_key uid hwid e)) [
  | inl there ↦
      let same : some e ≡ some d = rw there at h in
      subst
        (λ (x : UserDevice).
          get_user_device_by_hwid uid hwid (set_device x.id (update_device_metadata now r) (e ∷ ds))
          ≡ some (update_device_metadata now r x))
        (some-injective same)
        (rw (==_refl e.id) (rw (has_key-update now uid hwid r e ∙ there) refl))
  | inr other ↦
      let ih = found-set_device now uid hwid r ds d (rw other at h) in
      elim (Bool-cases (e.id == d.id)) [
        | inl same ↦ rw same (rw (has_key-update now uid hwid r e ∙ other) ih)
        | inr apart ↦ rw apart (rw other ih)
      ]
]

absent :
    (uid : ℕ) (hwid : String) (ds : List UserDevice)
    → any (has_key uid hwid) ds ≡ false
    → get_user_device_by_hwid uid hwid ds ≡ none
unfolding get_user_device_by_hwid
absent uid hwid [] h = refl
absent uid hwid (d ∷ ds) h = ground (arith, absent uid hwid ds)

found-append :
    (uid : ℕ) (hwid : String) (ds : List UserDevice) (d : UserDevice)
    → any (has_key uid hwid) ds ≡ false
    → has_key uid hwid d ≡ true
    → get_user_device_by_hwid uid hwid (ds ++ d ∷ []) ≡ some d
unfolding get_user_device_by_hwid
found-append uid hwid [] d h k = ground arith
found-append uid hwid (e ∷ ds) d h k = ground (arith, found-append uid hwid ds d)

found-append_none :
    (uid : ℕ) (hwid : String) (ds es : List UserDevice)
    → get_user_device_by_hwid uid hwid ds ≡ none
    → get_user_device_by_hwid uid hwid (ds ++ es) ≡ get_user_device_by_hwid uid hwid es
unfolding get_user_device_by_hwid
found-append_none uid hwid [] es h = refl
found-append_none uid hwid (d ∷ ds) es h = ground (arith, found-append_none uid hwid ds es)

found-active :
    (uid : ℕ) (hwid : String) (es : List UserDevice)
    → All (λ e. e.status ≡ active) es
    → any (has_key uid hwid) es ≡ true
    → (e : UserDevice) × (get_user_device_by_hwid uid hwid es ≡ some e) × (e.status ≡ active)
unfolding get_user_device_by_hwid
found-active uid hwid [] h p = cc
found-active uid hwid (e ∷ es) h p = elim (Bool-cases (has_key uid hwid e)) [
  | inl there ↦ (e, rw there refl, h.0)
  | inr other ↦ rw other (found-active uid hwid es h.1 (rw other at p))
]

any-of_found :
    (uid : ℕ) (hwid : String) (ds es : List UserDevice)
    → get_user_device_by_hwid uid hwid ds ≡ none
    → any (has_key uid hwid) (ds ++ es) ≡ any (has_key uid hwid) es
unfolding get_user_device_by_hwid
any-of_found uid hwid [] es h = refl
any-of_found uid hwid (d ∷ ds) es h = ground (arith, any-of_found uid hwid ds es)

-- the device under a key is there and active
abbrev pub IsRegistered : ℕ → String → List UserDevice → Type 0
IsRegistered uid hwid ds =
    (d : UserDevice) × (get_user_device_by_hwid uid hwid ds ≡ some d) × (d.status ≡ active)

add_device-IsRegistered :
    (now uid : ℕ) (hwid : String) (r : Request) (concurrent ds : List UserDevice)
    → get_user_device_by_hwid uid hwid ds ≡ none
    → All (λ e. e.status ≡ active) concurrent
    → IsRegistered uid hwid (add_device now uid hwid r concurrent ds)
unfolding add_device
add_device-IsRegistered now uid hwid r concurrent ds free h =
    elim (Bool-cases (any (has_key uid hwid) (ds ++ concurrent))) [
      | inl there ↦ rw there (
          rw (found-append_none uid hwid ds concurrent free) (
            found-active uid hwid concurrent h
              (sym (any-of_found uid hwid ds concurrent free) ∙ there)))
      | inr absent ↦ rw absent (
        _,
        found-append uid hwid (ds ++ concurrent) _ absent (ground (arith, eq_iff hwid hwid)),
        refl,
      )
    ]

-- After a registration that answers True the device of the request is in the table and active: it
-- was there and was updated (a revoked one becomes active again), it was added, or another
-- transaction had added it as active.
pub register-IsRegistered :
    (now : ℕ) (limit : Option ℕ) (hard_mode : Bool) (uid : ℕ) (r : Request)
    (concurrent ds : List UserDevice)
    → All (λ e. e.status ≡ active) concurrent
    → (register_user_device now limit hard_mode uid r concurrent ds).1.0 ≡ true
    → IsRegistered uid (hwid_of r) (register_user_device now limit hard_mode uid r concurrent ds).0
register-IsRegistered now limit hard_mode uid r concurrent ds h =
    there (register-Outcome now limit hard_mode uid r concurrent ds)
  where
    there :
        {out : List UserDevice × (Bool × Bool)}
        → Outcome now limit hard_mode uid r concurrent ds out
        → out.1.0 ≡ true
        → IsRegistered uid (hwid_of r) out.0
    there (refreshed d f) p = (
      update_device_metadata now r d,
      found-set_device now uid (hwid_of r) r ds d f,
      unfold update_device_metadata in refl,
    )
    there (mismatched d f) p = cc
    there (blocked f b) p = cc
    there (inserted f b) p = add_device-IsRegistered now uid (hwid_of r) r concurrent ds f h

count-append :
    (uid : ℕ) (ds : List UserDevice) (d : UserDevice)
    → count_user_devices uid (ds ++ d ∷ []) ≤ count_user_devices uid ds + 1
unfolding count_user_devices
count-append uid [] d = ground arith
count-append uid (e ∷ ds) d = ground (arith, count-append uid ds d)

count-set_device :
    (now uid : ℕ) (r : Request) (i : ℕ) (ds : List UserDevice)
    → All (λ e. e.id ≡ i → e.status ≡ active) ds
    → count_user_devices uid (set_device i (update_device_metadata now r) ds)
      ≡ count_user_devices uid ds
unfolding count_user_devices set_device update_device_metadata
count-set_device now uid r i [] h = refl
count-set_device now uid r i (e ∷ ds) h = ground (arith, count-set_device now uid r i ds h.1, h.0)

count-add_device :
    (now uid : ℕ) (hwid : String) (r : Request) (ds : List UserDevice)
    → count_user_devices uid (add_device now uid hwid r [] ds) ≤ count_user_devices uid ds + 1
unfolding add_device
count-add_device now uid hwid r ds = rw append-nil (elim (Bool-cases (any (has_key uid hwid) ds)) [
  | inl there ↦ rw there (omega arith)
  | inr absent ↦ rw absent (count-append uid ds _)
])

unblocked :
    (limit uid : ℕ) (ds : List UserDevice)
    → 0 < limit
    → hard_mode_blocks_new_device true (some limit) uid ds ≡ false
    → count_user_devices uid ds < limit
unfolding hard_mode_blocks_new_device
unblocked limit uid ds p b = ground arith

-- In hard mode, with no other transaction in between, a registration cannot take the user's active
-- devices past the limit, unless it activates a revoked device again.
pub register-count-le :
    (now limit uid : ℕ) (r : Request) (ds : List UserDevice)
    → 0 < limit
    → ((d : UserDevice) → found uid r ds ≡ some d → All (λ e. e.id ≡ d.id → e.status ≡ active) ds)
    → count_user_devices uid ds ≤ limit
    → count_user_devices uid (register_user_device now (some limit) true uid r [] ds).0 ≤ limit
register-count-le now limit uid r ds p live h =
    bounded (register-Outcome now (some limit) true uid r [] ds)
  where
    bounded :
        {out : List UserDevice × (Bool × Bool)}
        → Outcome now (some limit) true uid r [] ds out
        → count_user_devices uid out.0 ≤ limit
    bounded (refreshed d f) = omega (arith, count-set_device now uid r d.id ds (live d f))
    bounded (mismatched d f) = h
    bounded (blocked f b) = h
    bounded (inserted f b) =
        omega (arith, count-add_device now uid (hwid_of r) r ds, unblocked limit uid ds p b)
