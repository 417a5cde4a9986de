-- ===== src/Devices/Outcome.antt =====
-- The ways in which a registration can go.
use vpn_panel.Prelude.{
  ℕ, ◌≡◌, refl, Option, none, some, Bool, true, false, List, Bool-cases, inl, inr,
}
use vpn_panel.Prelude.Text.{truthy_text}
use vpn_panel.Devices.{
  UserDevice, Request, set_device, update_device_metadata, add_device, added, register_user_device,
  register_known, register_unknown, get_user_device_by_hwid, hard_mode_blocks_new_device,
  unknown_user_agents_match, hwid_of, unknown_device_hwid,
}

-- the look-up that the registration begins with
abbrev pub found : ℕ → Request → List UserDevice → Option UserDevice
found uid r ds = get_user_device_by_hwid uid (hwid_of r) ds

pub data Outcome (now : ℕ) (limit : Option ℕ) (hard_mode : Bool) (uid : ℕ) (r : Request)
    (concurrent ds : List UserDevice) : List UserDevice × (Bool × Bool) → Type 0 where
  refreshed :
      (d : UserDevice)
      → found uid r ds ≡ some d
      → Outcome now limit hard_mode uid r concurrent ds
          (set_device d.id (update_device_metadata now r) ds, (true, false))
  mismatched :
      (d : UserDevice)
      → found uid r ds ≡ some d
      → Outcome now limit hard_mode uid r concurrent ds (ds, (false, true))
  blocked :
      found uid r ds ≡ none
      → hard_mode_blocks_new_device hard_mode limit uid ds ≡ true
      → Outcome now limit hard_mode uid r concurrent ds (ds, (false, false))
  inserted :
      found uid r ds ≡ none
      → hard_mode_blocks_new_device hard_mode limit uid ds ≡ false
      → Outcome now limit hard_mode uid r concurrent ds
          (add_device now uid (hwid_of r) r concurrent ds, (true, false))

module _ (now : ℕ) (limit : Option ℕ) (hard_mode : Bool) (uid : ℕ) (r : Request)
    (concurrent ds : List UserDevice) where
  added-Outcome :
      found uid r ds ≡ none
      → Outcome now limit hard_mode uid r concurrent ds
          (added now limit hard_mode uid (hwid_of r) r concurrent ds)
  unfolding added
  added-Outcome f = elim (Bool-cases (hard_mode_blocks_new_device hard_mode limit uid ds)) [
    | inl b ↦ rw b (blocked f b)
    | inr b ↦ rw b (inserted f b)
  ]

  known-Outcome :
      (o : Option UserDevice)
      → found uid r ds ≡ o
      → Outcome now limit hard_mode uid r concurrent ds
          (register_known now limit hard_mode uid (hwid_of r) r concurrent ds o)
  unfolding register_known
  known-Outcome none f = added-Outcome f
  known-Outcome (some d) f = refreshed d f

  unknown-Outcome :
      (o : Option UserDevice)
      → hwid_of r ≡ unknown_device_hwid
      → found uid r ds ≡ o
      → Outcome now limit hard_mode uid r concurrent ds
          (register_unknown now limit hard_mode uid r concurrent ds o)
  unfolding register_unknown
  unknown-Outcome none e f = rw (← e) (added-Outcome f)
  unknown-Outcome (some d) e f =
      elim (Bool-cases (unknown_user_agents_match d.user_agent r.user_agent)) [
        | inl b ↦ rw b (refreshed d f)
        | inr b ↦ rw b (mismatched d f)
      ]

-- Every registration goes one of these ways.
pub register-Outcome :
    (now : ℕ) (limit : Option ℕ) (hard_mode : Bool) (uid : ℕ) (r : Request)
    (concurrent ds : List UserDevice)
    → Outcome now limit hard_mode uid r concurrent ds
        (register_user_device now limit hard_mode uid r concurrent ds)
unfolding register_user_device
register-Outcome now limit hard_mode uid r concurrent ds = elim (Bool-cases (truthy_text r.hwid)) [
  | inl b ↦ rw b (known-Outcome now limit hard_mode uid r concurrent ds _ refl)
  | inr b ↦ rw b (
      let e : hwid_of r ≡ unknown_device_hwid = unfold hwid_of in rw b refl in
      unknown-Outcome now limit hard_mode uid r concurrent ds _ e (rw e refl))
]
