-- ===== src/Addresses/Archive.antt =====
-- app/jobs/snapshot_host_composition.py, app/db/crud.py: the daily snapshot of what stood behind each host.
-- Days are counted from 2026-01-01; the table's key is (epoch_index, host_id).
pub mod Laws
use vpn_panel.Prelude.{
  ℕ, zero, suc, ◌+◌, ◌-◌, ◌*◌, ◌/◌, ◌%◌, ◌^◌, ◌≤◌, ◌<◌, max, min, String, ◌≡◌, refl, sym, ap, ◌∙◌,
  ◌≢◌, ◌⊎◌, inl, inr, Bool, true, false, ◌&&◌, ◌||◌, not, Option, none, some, List, [], ◌∷◌, ◌++◌,
  map, arith, str_eq, ltb, leb, ◌==◌, if◌then◌else◌, Bool-cases, Option-cases, truthy, or_zero,
  get_or, is_some, some-injective, ==_refl, length, filter, any, All, take, drop, contains,
  contains-append, contains-filter, lookup, insert, keys, lookup-insert,
}
use vpn_panel.Prelude.Raises.{Result, ok, err, value_error, ◌>>=◌}
use vpn_panel.Addresses.Hosts.{
  Host, addresses_from_nodes, resolve_host_addresses, resolve_host_node_ids,
}

pub record Snapshot : Type 0 where
  pub epoch_index : ℕ
  pub host_id : ℕ
  pub payload : List (Option ℕ × String)
  pub is_composite : Bool
  pub is_hidden : Bool

-- a host of the job: what the classifier of composite hosts says of it comes with it
pub record Entry : Type 0 where
  pub id : ℕ
  pub host : Host
  pub composite : Bool
  pub is_disabled : Bool
  pub is_hidden : Bool

-- zip(node_ids, addresses, strict=True)
abbrev pub zip_strict : List ℕ → List String → Result (List (Option ℕ × String))
zip_strict [] [] = ok []
zip_strict [] (a ∷ addresses) = err value_error
zip_strict (i ∷ ids) [] = err value_error
zip_strict (i ∷ ids) (a ∷ addresses) = do rest ← zip_strict ids addresses; ok ((some i, a) ∷ rest)

unfoldable pub host_payload : Host → Result (List (Option ℕ × String))
host_payload h =
    if addresses_from_nodes h
    then zip_strict (resolve_host_node_ids h) (resolve_host_addresses h)
    else ok (map (λ a. (none, a)) (resolve_host_addresses h))

abbrev pub is_snapshot : ℕ → ℕ → Snapshot → Bool
is_snapshot epoch host s = s.epoch_index == epoch && s.host_id == host

abbrev pub find : ℕ → ℕ → List Snapshot → Option Snapshot
find epoch host [] = none
find epoch host (s ∷ table) =
    let rest = find epoch host table in if is_snapshot epoch host s then some s else rest

-- INSERT … ON CONFLICT DO NOTHING
unfoldable pub write_host_composition_snapshot : Snapshot → List Snapshot → List Snapshot
write_host_composition_snapshot s table =
    if any (is_snapshot s.epoch_index s.host_id) table then table else table ++ (s ∷ [])

-- the composition of the hosts on a day: composite and hidden hosts are left out
unfoldable pub get_host_composition : ℕ → List Snapshot → List (ℕ × List (Option ℕ × String))
get_host_composition epoch [] = []
get_host_composition epoch (s ∷ table) =
    let rest = get_host_composition epoch table in
    if s.epoch_index == epoch && not s.is_composite && not s.is_hidden
    then (s.host_id, s.payload) ∷ rest
    else rest

unfoldable pub prune_host_composition_snapshots : ℕ → ℕ → List Snapshot → List Snapshot
prune_host_composition_snapshots epoch retention_days =
    filter (λ s. not (ltb (s.epoch_index + retention_days) epoch))

-- the snapshot of a host
unfoldable pub snapshot_of : ℕ → Entry → Result Snapshot
snapshot_of epoch e = do
  payload ← if e.composite then ok [] else host_payload e.host
  ok (record {
    epoch_index = epoch;
    host_id = e.id;
    payload = payload;
    is_composite = e.composite;
    is_hidden = e.is_hidden;
  })

unfoldable pub write_all : ℕ → List Entry → List Snapshot → Result (List Snapshot)
write_all epoch [] table = ok table
write_all epoch (e ∷ es) table = do
  s ← snapshot_of epoch e
  write_all epoch es (write_host_composition_snapshot s table)

-- ARCHIVE_RETENTION_DAYS
abbrev pub archive_retention_days : ℕ
archive_retention_days = 90

-- a pass of the job snapshot_host_composition
unfoldable pub snapshot_host_composition : ℕ → List Entry → List Snapshot → Result (List Snapshot)
snapshot_host_composition epoch hosts table = do
  written ← write_all epoch (filter (λ e. not e.is_disabled) hosts) table
  ok (prune_host_composition_snapshots epoch archive_retention_days written)
