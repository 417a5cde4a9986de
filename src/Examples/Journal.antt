-- ===== src/Examples/Journal.antt =====
-- Runs of the journal of addresses, with numbers without fractions for floating-point ones.
use vpn_panel.Prelude.{
  ◌<◌, ℕ, ◌+◌, ◌-◌, ◌*◌, ◌/◌, ◌≤◌, String, ◌≡◌, refl, Bool, true, false, not, Option, none, some,
  List, [], ◌∷◌, arith, leb, All, contains, length,
}
use vpn_panel.Prelude.Int.{ℤ, pos, leb_ℤ}
use vpn_panel.Addresses.{Numerics}
use vpn_panel.Addresses.Context.{addresses_of, exhausted_from_snapshot, settings_from_host}
use vpn_panel.Addresses.Policy.{unit_hash, is_exhausted}
use vpn_panel.Addresses.Epoch.{epoch_start_day, smear, floor_div, scale}
use vpn_panel.Addresses.Weights.{
  WeightRow, get_weight_snapshot, get_weight_snapshots_range, weights_on,
}
use vpn_panel.Addresses.Weights.Ranges.{weights_on-range}
use vpn_panel.Addresses.Pins.{UserNodePin}
use vpn_panel.Addresses.Journal.{
  HistoryScope, HistoryHost, Payload, auto_by_nodes, automatic_on, is_whole, history_settings,
  narrowed, payload_addresses, payload_from_nodes, payload_ids, pinned_on, reconstruct_host,
  weights_for,
}
use vpn_panel.Addresses.Journal.Choice.{exhausted_on, live_choice_on}
use vpn_panel.Addresses.Journal.Laws.{reconstruct_host-pick, reconstruct_host-exhausted}

abbrev whole : Numerics ℕ
whole = record {
  zero = 0;
  one = 1;
  near_one = 0;
  of_ℕ = λ n. n;
  ratio = λ a b. a / b;
  times = λ a b. a * b;
  minus = λ a b. a - b;
  div = λ a b. a;
  neg_log = λ a. a;
  middle = λ a b. (a + b) / 2;
  floor = λ a. a;
  le = leb;
  digest = λ s. 5;
}

abbrev pinned : UserNodePin
pinned = record {
  id = 1;
  user_id = 7;
  host_id = 5;
  node_ids = 3 ∷ [];
  created_at = 100;
  expires_at = 900;
  created_by = "admin";
  note = none;
}

abbrev rows : List (WeightRow ℕ)
rows =
    record { epoch_index = 3; node_id = 1; weight = 50 }
    ∷ record { epoch_index = 9; node_id = 1; weight = 20 }
    ∷ record { epoch_index = 9; node_id = 2; weight = 0 }
    ∷ []

weights_on-range_example :
    weights_on (get_weight_snapshots_range rows (pos 5) (pos 20)) (pos 10)
    ≡ get_weight_snapshot rows (pos 10)
weights_on-range_example =
    weights_on-range (pos 5) (pos 20) (pos 10) (omega arith) (omega arith) rows

-- two nodes and as many addresses as the setting asks for
abbrev host : ℕ → HistoryHost
host size = record {
  id = 5;
  remark = "Server";
  address_subset_enabled = true;
  address_subset_size = some (pos size);
  address_rotation_days = some (pos 2);
}

abbrev payload : Payload
payload = (some 1, "a.example") ∷ (some 2, "b.example") ∷ []

abbrev scope : HistoryScope ℕ
scope = record {
  user_id = 7;
  offset = pos 0;
  rotation_at = none;
  hosts = host 2 ∷ [];
  composition = λ day. (5, payload) ∷ [];
  pins = [];
  snapshots = (9, (1, 20) ∷ (2, 0) ∷ []) ∷ [];
  node_limits = (1, 100) ∷ (2, 100) ∷ [];
  cutoff_percent = 90;
}

free_test : length (pinned_on [] (host 2) payload) ≡ 0
unfolding pinned_on payload_from_nodes
free_test = refl

-- node 2 has used up its limit, node 1 has not
abbrev cut_scope : HistoryScope ℕ
cut_scope = record scope { cutoff_percent = 100 }

exhausted_test : exhausted_on whole cut_scope (pos 10) (host 2) ≡ 2 ∷ []
unfolding weights_for weights_on settings_from_host epoch_start_day smear unit_hash floor_div scale
    is_exhausted exhausted_from_snapshot vpn_panel.Prelude.Int.◌+ℤ◌ vpn_panel.Prelude.Int.◌-ℤ◌
exhausted_test = refl

reconstruct_host-exhausted_example :
    let answer = reconstruct_host whole cut_scope (pos 10) [] true (host 2) (some payload) in
    let picked = live_choice_on whole cut_scope (pos 10) [] (host 2) payload in
    (answer.addresses ≡ payload_addresses payload)
    × (picked
        ≡ addresses_of
            (λ i. not (contains i (exhausted_on whole cut_scope (pos 10) (host 2))))
            (payload_addresses payload)
            (payload_ids payload))
    × (length picked < length answer.addresses)
unfolding payload_from_nodes settings_from_host
reconstruct_host-exhausted_example =
    reconstruct_host-exhausted whole cut_scope (pos 10) [] true (host 2) payload
      (ground (arith, free_test)) refl refl refl (rw exhausted_test refl) (rw exhausted_test refl)

-- the setting asks for one address of the two
cut_test :
    leb (length (payload_addresses payload)) (history_settings (host 1)).size ≡ true
    → All
        (λ i. not (contains i (exhausted_on whole scope (pos 10) (host 1))) ≡ true)
        (payload_ids payload)
unfolding settings_from_host
cut_test h = ground (arith, h)

restorable_test :
    (reconstruct_host whole scope (pos 10) [] true (host 1) (some payload)).restorable ≡ true
unfolding reconstruct_host pinned_on payload_from_nodes automatic_on is_whole narrowed auto_by_nodes
    weights_for weights_on settings_from_host epoch_start_day smear unit_hash floor_div scale
    vpn_panel.Prelude.Int.◌+ℤ◌ vpn_panel.Prelude.Int.◌-ℤ◌
restorable_test = refl

reconstruct_host-pick_example :
    (reconstruct_host whole scope (pos 10) [] true (host 1) (some payload)).addresses
    ≡ live_choice_on whole scope (pos 10) [] (host 1) payload
reconstruct_host-pick_example =
    reconstruct_host-pick whole scope (pos 10) [] true (host 1) payload cut_test restorable_test
