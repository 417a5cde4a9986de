-- ===== src/Addresses/Journal.antt =====
-- app/services/address_history.py: the journal that tells which addresses a user was given on a past day,
-- from the snapshots of hosts and weights, the rows of pins and today's settings of the hosts.
pub mod Payloads
pub mod Choice
pub mod Laws
pub mod Pins
use vpn_panel.Prelude.{
  ℕ, zero, suc, ◌+◌, ◌-◌, ◌*◌, String, Bool, true, false, ◌&&◌, ◌||◌, not, Option, none, some, List,
  [], ◌∷◌, map, ltb, leb, ◌==◌, if◌then◌else◌, get_or, is_some, length, filter, any, contains,
  lookup, insert,
}
use vpn_panel.Prelude.Int.{ℤ, pos, negsuc, ◌+ℤ◌}
use vpn_panel.Prelude.Sort.{sort_by}
use vpn_panel.Addresses.{Numerics}
use vpn_panel.Addresses.Policy.{Key, address, has_key, pick_keys}
use vpn_panel.Addresses.Epoch.{epoch_for, epoch_start_day}
use vpn_panel.Addresses.Weights.{weights_on}
use vpn_panel.Addresses.Pins.{UserNodePin, pin_before}
use vpn_panel.Addresses.Context.{
  SubsetSettings, settings_from_host, narrows, zip, weigh_evenly, choose_nodes,
  exhausted_from_snapshot,
}

pub data Source : Type 0 where
  pin auto unknown : Source

-- HostAssignment
pub record HostAssignment : Type 0 where
  pub host_id : ℕ
  pub remark : String
  pub source : Source
  pub restorable : Bool
  pub node_ids : List ℕ
  pub addresses : List String

-- what the journal reads of a host: its settings are today's
pub record HistoryHost : Type 0 where
  pub id : ℕ
  pub remark : String
  pub address_subset_enabled : Bool
  pub address_subset_size : Option ℤ
  pub address_rotation_days : Option ℤ

abbrev pub Payload : Type 0
Payload = List (Option ℕ × String)

-- _HistoryScope, with HOSTING_USAGE_CUTOFF_PERCENT; moments are seconds since 1970
pub record HistoryScope (F : Type 0) : Type 0 where
  pub user_id : ℕ
  pub offset : ℤ
  pub rotation_at : Option ℕ
  pub hosts : List HistoryHost
  pub composition : ℤ → List (ℕ × Payload)
  pub pins : List UserNodePin
  pub snapshots : List (ℕ × List (ℕ × F))
  pub node_limits : List (ℕ × ℕ)
  pub cutoff_percent : ℕ

-- the loop of pins_on_day
unfoldable pub pins_from : ℕ → ℕ → List (ℕ × List ℕ) → List UserNodePin → List (ℕ × List ℕ)
pins_from day_start day_end result [] = result
pins_from day_start day_end result (p ∷ rows) =
    pins_from day_start day_end
      (if ltb p.created_at day_end && ltb day_start p.expires_at
        then insert p.host_id p.node_ids result
        else result)
      rows

unfoldable pub pins_on_day : List UserNodePin → ℕ → ℕ → List (ℕ × List ℕ)
unfolding pins_from
pins_on_day rows day_start day_end = pins_from day_start day_end [] rows

-- get_pins_covering_range of app/db/crud.py
unfoldable pub get_pins_covering_range : List UserNodePin → ℕ → ℕ → ℕ → List UserNodePin
get_pins_covering_range rows uid range_start range_end = sort_by pin_before (
    filter (λ p. p.user_id == uid && ltb p.created_at range_end && ltb range_start p.expires_at)
      rows)

-- day_start_at: the start of a day, counted from 2026-01-01
unfoldable pub day_start_at : ℤ → ℕ
day_start_at (pos d) = 1767225600 + 86400 * d
day_start_at (negsuc d) = 1767225600 - 86400 * suc d

-- the node ids and the addresses of a payload
abbrev pub payload_ids : Payload → List ℕ
payload_ids [] = []
payload_ids ((none, a) ∷ items) = payload_ids items
payload_ids ((some i, a) ∷ items) = i ∷ payload_ids items

abbrev pub payload_addresses : Payload → List String
payload_addresses = map (λ item. item.1)

abbrev pub all_named : Payload → Bool
all_named [] = true
all_named ((i, a) ∷ items) = is_some i && all_named items

-- bool(node_ids_all) and all(nid is not None for nid in node_ids_all)
unfoldable pub payload_from_nodes : Payload → Bool
payload_from_nodes payload = ltb 0 (length payload) && all_named payload

abbrev pub unknown_of : HistoryHost → HostAssignment
unknown_of host = record {
  host_id = host.id;
  remark = host.remark;
  source = unknown;
  restorable = false;
  node_ids = [];
  addresses = [];
}

abbrev pub known_of : Source → HistoryHost → List ℕ → List String → HostAssignment
known_of source host node_ids addresses = record {
  host_id = host.id;
  remark = host.remark;
  source = source;
  restorable = true;
  node_ids = node_ids;
  addresses = addresses;
}

-- [(nid, addr) for nid, addr in zip(…) if nid in chosen], and the assignment of it
abbrev pub assigned : Source → HistoryHost → Payload → List ℕ → HostAssignment
assigned source host payload chosen =
    let kept =
      filter (λ p. contains p.1 chosen) (zip (payload_addresses payload) (payload_ids payload)) in
    known_of source host (map (λ p. p.1) kept) (map (λ p. p.0) kept)

abbrev pub history_settings : HistoryHost → SubsetSettings
history_settings host =
    settings_from_host host.address_subset_enabled host.address_subset_size
      host.address_rotation_days

-- datetime comparison: day_start >= rotation_at
unfoldable pub day_offset_known : Option ℕ → ℕ → Bool
day_offset_known none day_start = true
day_offset_known (some rotation_at) day_start = leb rotation_at day_start

-- set(pin_nodes) & set(node_ids_all), for a host whose addresses are those of nodes
unfoldable pub pinned_on : List (ℕ × List ℕ) → HistoryHost → Payload → List ℕ
unfolding payload_from_nodes
pinned_on pins host payload =
    if payload_from_nodes payload
    then filter (λ i. contains i (get_or (lookup host.id pins) [])) (payload_ids payload)
    else []

-- size <= 0 or len(addresses_all) <= size
unfoldable pub is_whole : SubsetSettings → ℕ → Bool
is_whole settings count =
    let size = if narrows settings then settings.size else 0 in leb size 0 || leb count size

module _ {F : Type 0} (num : Numerics F) where
  -- weights_for
  unfoldable pub weights_for : HistoryScope F → ℤ → ℕ → List (ℕ × F)
  unfolding weights_on
  weights_for scope day period_days =
      weights_on scope.snapshots (epoch_start_day num scope.user_id day period_days)

  unfoldable pub auto_by_nodes :
      HistoryScope F → ℤ → HistoryHost → Payload → List (ℕ × F) → HostAssignment
  auto_by_nodes scope day host payload weights =
      let settings = history_settings host in
      assigned auto host payload (
        choose_nodes num scope.user_id (payload_ids payload) weights
          (exhausted_from_snapshot num weights scope.node_limits scope.cutoff_percent) settings.size
          (epoch_for num scope.user_id day settings.rotation_days scope.offset))

  unfoldable pub auto_by_addresses : HistoryScope F → ℤ → HistoryHost → Payload → HostAssignment
  auto_by_addresses scope day host payload =
      let settings = history_settings host in
      let addresses = payload_addresses payload in
      let chosen =
        pick_keys num scope.user_id (weigh_evenly num.zero addresses) settings.size
          (epoch_for num scope.user_id day settings.rotation_days scope.offset) in
      known_of auto host [] (filter (λ a. has_key (address a) chosen) addresses)

  -- the choice where the host's setting cuts the list
  unfoldable pub narrowed :
      HistoryScope F → ℤ → Bool → HistoryHost → Payload → List (ℕ × F) → HostAssignment
  unfolding auto_by_nodes auto_by_addresses
  narrowed scope day offset_known host payload [] = unknown_of host
  narrowed scope day false host payload (w ∷ weights) = unknown_of host
  narrowed scope day true host payload (w ∷ weights) =
      if payload_from_nodes payload
      then auto_by_nodes scope day host payload (w ∷ weights)
      else auto_by_addresses scope day host payload

  -- the choice where no pin holds
  unfoldable pub automatic_on : HistoryScope F → ℤ → Bool → HistoryHost → Payload → HostAssignment
  unfolding narrowed weights_for is_whole
  automatic_on scope day offset_known host payload =
      let settings = history_settings host in
      if is_whole settings (length (payload_addresses payload))
      then known_of auto host (payload_ids payload) (payload_addresses payload)
      else narrowed scope day offset_known host payload
          (weights_for scope day settings.rotation_days)

  unfoldable pub reconstruct_host :
      HistoryScope F → ℤ → List (ℕ × List ℕ) → Bool → HistoryHost → Option Payload → HostAssignment
  unfolding automatic_on pinned_on
  reconstruct_host scope day pins offset_known host none = unknown_of host
  reconstruct_host scope day pins offset_known host (some payload) =
      let pinned = pinned_on pins host payload in
      if ltb 0 (length pinned)
      then assigned pin host payload pinned
      else automatic_on scope day offset_known host payload

  unfoldable pub reconstruct_day : HistoryScope F → ℤ → List HostAssignment
  unfolding reconstruct_host day_offset_known day_start_at pins_on_day
  reconstruct_day scope day =
      let day_start = day_start_at day in
      let pins = pins_on_day scope.pins day_start (day_start_at (day +ℤ pos 1)) in
      map
        (λ host.
          reconstruct_host scope day pins (day_offset_known scope.rotation_at day_start) host
            (lookup host.id (scope.composition day)))
        scope.hosts
