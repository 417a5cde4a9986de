-- ===== src/Devices/Unique.antt =====
-- One row for each user and hardware id, whatever requests and concurrent insertions do.
use vpn_panel.Prelude.{
  ℕ, ◌≡◌, refl, String, Option, Bool, false, List, [], ◌∷◌, ◌++◌, any, any-append, eq_iff, arith,
  Bool-cases, inl, inr,
}
use vpn_panel.Devices.Outcome.{Outcome, refreshed, mismatched, blocked, inserted, register-Outcome}
use vpn_panel.Devices.{
  UserDevice, Request, has_key, set_device, update_device_metadata, add_device,
  register_user_device, hwid_of,
}

abbrev pub HasUniqueKeys : List UserDevice → Type 0
HasUniqueKeys [] = Unit
HasUniqueKeys (d ∷ ds) = (any (has_key d.user_id d.hwid) ds ≡ false) × HasUniqueKeys ds

any-set_device :
    (now : ℕ) (r : Request) (uid i : ℕ) (hwid : String) (ds : List UserDevice)
    → any (has_key uid hwid) (set_device i (update_device_metadata now r) ds)
      ≡ any (has_key uid hwid) ds
unfolding set_device update_device_metadata
any-set_device now r uid i hwid [] = refl
any-set_device now r uid i hwid (d ∷ ds) = ground (arith, any-set_device now r uid i hwid ds)

pub set_device-HasUniqueKeys :
    (now : ℕ) (r : Request) (i : ℕ) (ds : List UserDevice)
    → HasUniqueKeys ds
    → HasUniqueKeys (set_device i (update_device_metadata now r) ds)
unfolding set_device update_device_metadata
set_device-HasUniqueKeys now r i [] h = tt
set_device-HasUniqueKeys now r i (d ∷ ds) h = (
  ground (arith, any-set_device now r d.user_id i d.hwid ds),
  set_device-HasUniqueKeys now r i ds h.1,
)

append-HasUniqueKeys :
    (d : UserDevice) (ds : List UserDevice)
    → HasUniqueKeys ds
    → any (has_key d.user_id d.hwid) ds ≡ false
    → HasUniqueKeys (ds ++ d ∷ [])
append-HasUniqueKeys d [] h fresh = (refl, tt)
append-HasUniqueKeys d (e ∷ ds) h fresh = (
  ground (
    arith,
    any-append (has_key e.user_id e.hwid) ds (d ∷ []),
    eq_iff d.hwid e.hwid,
    eq_iff e.hwid d.hwid,
  ),
  append-HasUniqueKeys d ds h.1 (ground arith),
)

pub add_device-HasUniqueKeys :
    (now uid : ℕ) (hwid : String) (r : Request) (concurrent ds : List UserDevice)
    → HasUniqueKeys (ds ++ concurrent)
    → HasUniqueKeys (add_device now uid hwid r concurrent ds)
unfolding add_device
add_device-HasUniqueKeys now uid hwid r concurrent ds h =
    elim (Bool-cases (any (has_key uid hwid) (ds ++ concurrent))) [
      | inl there ↦ rw there h
      | inr free ↦ rw free (append-HasUniqueKeys _ (ds ++ concurrent) h free)
    ]

unique-left : (ds es : List UserDevice) → HasUniqueKeys (ds ++ es) → HasUniqueKeys ds
unique-left [] es h = tt
unique-left (d ∷ ds) es h =
    (ground (arith, any-append (has_key d.user_id d.hwid) ds es), unique-left ds es h.1)

-- Registration keeps the rows unique, if the rows of the other transactions are unique with them:
-- an insertion that comes second is rolled back.
pub register_user_device-HasUniqueKeys :
    (now : ℕ) (limit : Option ℕ) (hard_mode : Bool) (uid : ℕ) (r : Request)
    (concurrent ds : List UserDevice)
    → HasUniqueKeys (ds ++ concurrent)
    → HasUniqueKeys (register_user_device now limit hard_mode uid r concurrent ds).0
register_user_device-HasUniqueKeys now limit hard_mode uid r concurrent ds h =
    keeps (register-Outcome now limit hard_mode uid r concurrent ds)
  where
    keeps :
        {out : List UserDevice × (Bool × Bool)}
        → Outcome now limit hard_mode uid r concurrent ds out
        → HasUniqueKeys out.0
    keeps (refreshed d f) = set_device-HasUniqueKeys now r d.id ds (unique-left ds concurrent h)
    keeps (mismatched d f) = unique-left ds concurrent h
    keeps (blocked f b) = unique-left ds concurrent h
    keeps (inserted f b) = add_device-HasUniqueKeys now uid (hwid_of r) r concurrent ds h
