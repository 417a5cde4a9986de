-- ===== src/Devices.antt =====
-- app/db/crud.py and app/subscription/device_ua.py: the devices of users and their limit. A table is
-- the list of its rows. `concurrent` are the rows that another transaction adds between the look-up
-- of a device and the commit of the new one; the unique constraint on (user_id, hwid) is checked at
-- the commit. A new row takes the id after the greatest.
pub mod Outcome
pub mod Unique
pub mod Register
pub mod Limit
use vpn_panel.Prelude.{
  ℕ, zero, suc, ◌+◌, max, String, Option, none, some, Bool, true, false, ◌&&◌, ◌||◌, not, List, [],
  ◌∷◌, ◌++◌, map, any, filter, length, str_eq, if◌then◌else◌, ◌==◌, ltb, leb, truthy, or_zero,
  get_or,
}
use vpn_panel.Prelude.Text.{or_text, truthy_text, strip}

pub data DeviceStatus : Type 0 where
  active revoked : DeviceStatus

pub record UserDevice : Type 0 where
  pub id : ℕ
  pub user_id : ℕ
  pub hwid : String
  pub device_os : Option String
  pub ver_os : Option String
  pub device_model : Option String
  pub user_agent : Option String
  pub last_ip : Option String
  pub status : DeviceStatus
  pub first_seen : ℕ
  pub last_seen : ℕ

-- what a request tells of its device
pub record Request : Type 0 where
  pub hwid : Option String
  pub device_os : Option String
  pub ver_os : Option String
  pub device_model : Option String
  pub user_agent : Option String
  pub client_ip : Option String

abbrev pub unknown_device_hwid : String
unknown_device_hwid = "Неизвестное устройство"

abbrev pub is_active : DeviceStatus → Bool
is_active active = true
is_active revoked = false

abbrev pub has_key : ℕ → String → UserDevice → Bool
has_key uid hwid d = d.user_id == uid && str_eq d.hwid hwid

abbrev first_of : (UserDevice → Bool) → List UserDevice → Option UserDevice
first_of p [] = none
first_of p (d ∷ ds) = if p d then some d else first_of p ds

-- crud.get_user_device_by_hwid
unfoldable pub get_user_device_by_hwid : ℕ → String → List UserDevice → Option UserDevice
get_user_device_by_hwid uid hwid = first_of (has_key uid hwid)

-- crud.count_user_devices
unfoldable pub count_user_devices : ℕ → List UserDevice → ℕ
count_user_devices uid ds = length (filter (λ d. d.user_id == uid && is_active d.status) ds)

abbrev seen_before : UserDevice → UserDevice → Bool
seen_before d e = ltb d.first_seen e.first_seen || (d.first_seen == e.first_seen && leb d.id e.id)

abbrev by_first_seen : UserDevice → List UserDevice → List UserDevice
by_first_seen d [] = d ∷ []
by_first_seen d (e ∷ es) = if seen_before d e then d ∷ e ∷ es else e ∷ by_first_seen d es

abbrev sort_by_first_seen : List UserDevice → List UserDevice
sort_by_first_seen [] = []
sort_by_first_seen (d ∷ ds) = by_first_seen d (sort_by_first_seen ds)

-- crud.get_user_active_devices_by_first_seen
unfoldable pub active_devices_by_first_seen : ℕ → List UserDevice → List UserDevice
active_devices_by_first_seen uid ds =
    sort_by_first_seen (filter (λ d. d.user_id == uid && is_active d.status) ds)

-- the place of the device with this id, if there is one
abbrev pub index_of : ℕ → List UserDevice → Option ℕ
index_of i [] = none
index_of i (d ∷ ds) =
    if d.id == i then some 0 else elim (index_of i ds) [ none ↦ none | some n ↦ some (suc n) ]

abbrev is_below : ℕ → Option ℕ → Bool
is_below limit none = false
is_below limit (some index) = ltb index limit

-- crud.is_device_within_limit
unfoldable pub is_device_within_limit : Option ℕ → ℕ → List UserDevice → Option UserDevice → Bool
is_device_within_limit limit uid ds none = not (truthy limit)
is_device_within_limit limit uid ds (some d) =
    if truthy limit
    then is_below (or_zero limit) (index_of d.id (active_devices_by_first_seen uid ds))
    else true

-- crud._hard_mode_blocks_new_device
unfoldable pub hard_mode_blocks_new_device : Bool → Option ℕ → ℕ → List UserDevice → Bool
hard_mode_blocks_new_device hard_mode limit uid ds =
    hard_mode && truthy limit && leb (or_zero limit) (count_user_devices uid ds)

-- crud._update_device_metadata
unfoldable pub update_device_metadata : ℕ → Request → UserDevice → UserDevice
update_device_metadata now r d = record d {
  device_os = or_text r.device_os d.device_os;
  ver_os = or_text r.ver_os d.ver_os;
  device_model = or_text r.device_model d.device_model;
  user_agent = or_text r.user_agent d.user_agent;
  last_ip = or_text r.client_ip d.last_ip;
  status = active;
  last_seen = now;
}

-- the update of one row
pub set_device : ℕ → (UserDevice → UserDevice) → List UserDevice → List UserDevice
set_device i f = map (λ d. if d.id == i then f d else d)

abbrev pub fresh : List UserDevice → ℕ
fresh [] = 1
fresh (d ∷ ds) = max (d.id + 1) (fresh ds)

new_device : ℕ → ℕ → String → Request → ℕ → UserDevice
new_device now uid hwid r i = record {
  id = i;
  user_id = uid;
  hwid = hwid;
  device_os = r.device_os;
  ver_os = r.ver_os;
  device_model = r.device_model;
  user_agent = r.user_agent;
  last_ip = r.client_ip;
  status = active;
  first_seen = now;
  last_seen = now;
}

-- db.add(dbdevice); db.commit(), and the rollback on an IntegrityError: that of the unique key
-- (user_id, hwid); the user's own row is taken to stay, so that the foreign key cannot fail
unfoldable pub add_device :
    ℕ → ℕ → String → Request → List UserDevice → List UserDevice → List UserDevice
unfolding new_device
add_device now uid hwid r concurrent ds =
    let table = ds ++ concurrent in
    if any (has_key uid hwid) table
    then table
    else table ++ new_device now uid hwid r (fresh table) ∷ []

-- norm(v) of unknown_user_agents_match
abbrev norm : Option String → Option String
norm none = none
norm (some v) = let s = strip v in if str_eq s "" then none else some s

abbrev agents_match : Option String → Option String → Bool
agents_match none incoming = true
agents_match (some s) none = str_eq s "Неизвестно"
agents_match (some s) (some i) = str_eq s "Неизвестно" || str_eq s i

unfoldable pub unknown_user_agents_match : Option String → Option String → Bool
unknown_user_agents_match stored incoming = agents_match (norm stored) (norm incoming)

abbrev known : ℕ → Request → List UserDevice → UserDevice → List UserDevice × (Bool × Bool)
known now r ds d = (set_device d.id (update_device_metadata now r) ds, (true, false))

-- a device that is not in the table yet; a hard limit leaves the table alone
added :
    ℕ
    → Option ℕ
    → Bool
    → ℕ
    → String
    → Request
    → List UserDevice
    → List UserDevice
    → List UserDevice × (Bool × Bool)
added now limit hard_mode uid hwid r concurrent ds =
    if hard_mode_blocks_new_device hard_mode limit uid ds
    then (ds, (false, false))
    else (add_device now uid hwid r concurrent ds, (true, false))

register_unknown :
    ℕ
    → Option ℕ
    → Bool
    → ℕ
    → Request
    → List UserDevice
    → List UserDevice
    → Option UserDevice
    → List UserDevice × (Bool × Bool)
unfolding added
register_unknown now limit hard_mode uid r concurrent ds none =
    added now limit hard_mode uid unknown_device_hwid r concurrent ds
register_unknown now limit hard_mode uid r concurrent ds (some d) =
    if unknown_user_agents_match d.user_agent r.user_agent
    then known now r ds d
    else (ds, (false, true))

register_known :
    ℕ
    → Option ℕ
    → Bool
    → ℕ
    → String
    → Request
    → List UserDevice
    → List UserDevice
    → Option UserDevice
    → List UserDevice × (Bool × Bool)
unfolding added
register_known now limit hard_mode uid hwid r concurrent ds none =
    added now limit hard_mode uid hwid r concurrent ds
register_known now limit hard_mode uid hwid r concurrent ds (some d) = known now r ds d

-- x_hwid or crud.UNKNOWN_DEVICE_HWID
unfoldable pub hwid_of : Request → String
hwid_of r = if truthy_text r.hwid then get_or r.hwid unknown_device_hwid else unknown_device_hwid

-- crud.register_user_device: the table after it, and (registered, unsupported client)
unfoldable pub register_user_device :
    ℕ
    → Option ℕ
    → Bool
    → ℕ
    → Request
    → List UserDevice
    → List UserDevice
    → List UserDevice × (Bool × Bool)
unfolding register_unknown register_known
register_user_device now limit hard_mode uid r concurrent ds =
    if truthy_text r.hwid
    then register_known now limit hard_mode uid (hwid_of r) r concurrent ds
        (get_user_device_by_hwid uid (hwid_of r) ds)
    else register_unknown now limit hard_mode uid r concurrent ds
        (get_user_device_by_hwid uid unknown_device_hwid ds)

-- crud.revoke_user_device
unfoldable pub revoke_user_device : ℕ → UserDevice → List UserDevice → List UserDevice
revoke_user_device now d = set_device d.id (λ d. record d { status = revoked; last_seen = now })
