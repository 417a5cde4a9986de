-- ===== src/Examples/Addresses.antt =====
-- Runs of the choice of addresses, with numbers without fractions for floating-point ones, and of pins and
-- snapshots.
use vpn_panel.Prelude.{
  lookup, ℕ, ◌+◌, ◌-◌, ◌*◌, ◌/◌, ◌≤◌, ◌<◌, String, ◌≡◌, refl, Bool, true, false, not, none, some,
  List, [], ◌∷◌, map, arith, leb, ◌==◌, is_some, length, filter, All, contains,
}
use vpn_panel.Prelude.Int.{pos, negsuc}
use vpn_panel.Prelude.Raises.{ok}
use vpn_panel.Addresses.{Numerics}
use vpn_panel.Addresses.Texts.{show_ℕ, show_ℤ, join, digits, digit, text_leb}
use vpn_panel.Addresses.Policy.{Key, node, address, has_key, chosen, ranks_before, score, pick_keys}
use vpn_panel.Addresses.Policy.Bounds.{HasDistinctKeys, length-pick_keys}
use vpn_panel.Addresses.Policy.Stable.{keeping, pick_keys-keeps}
use vpn_panel.Addresses.Context.{
  AddressContext, SubsetSettings, alive_of, choose_nodes, pinned_nodes, pick,
}
use vpn_panel.Addresses.Context.Nodes.{choose_nodes-fresh}
use vpn_panel.Addresses.Context.Nonempty.{pick-nonempty}
use vpn_panel.Addresses.Hosts.{connected, Node, Host, visible_nodes}
use vpn_panel.Addresses.Pins.{UserNodePin, get_active_pins, create_user_node_pin}
use vpn_panel.Addresses.Pins.Laws.{create_user_node_pin_lem}
use vpn_panel.Addresses.Archive.{Snapshot, Entry, find, snapshot_host_composition}
use vpn_panel.Addresses.Archive.Laws.{snapshot_host_composition_lem}

join_test : join (show_ℕ 120 ∷ show_ℤ (negsuc 6) ∷ "a" ∷ []) ≡ "120:-7:a"
unfolding join show_ℕ show_ℤ digits digit
join_test = refl

abbrev whole : Numerics ℕ
whole = record {
  zero = 0;
  one = 1;
  near_one = 0;
  of_ℕ = λ n. n;
  ratio = λ a b. a / b;
  times = λ a b. a * b;
  minus = λ a b. a - b;
  div = λ a b. a;
  neg_log = λ a. a;
  middle = λ a b. (a + b) / 2;
  floor = λ a. a;
  le = leb;
  digest = λ s. 5;
}

le_total : (a b : ℕ) → leb a b ≡ false → leb b a ≡ true
le_total a b h = ground arith

le_trans : (a b c : ℕ) → leb a b ≡ true → leb b c ≡ true → leb a c ≡ true
le_trans a b c h k = ground arith

abbrev candidates : List (Key × ℕ)
candidates = (node 1, 10) ∷ (node 2, 30) ∷ (node 3, 20) ∷ []

candidates_distinct : HasDistinctKeys (map (λ c. c.0) candidates)
candidates_distinct (node n) = ground arith
candidates_distinct (address a) = omega arith

length-pick_keys_example : length (pick_keys whole 7 candidates 2 (pos 4)) ≡ 2
length-pick_keys_example = length-pick_keys whole 7 (pos 4) 2 candidates candidates_distinct

abbrev not_first : Key → Bool
not_first k = not (has_key k (node 1 ∷ []))

picked_test : pick_keys whole 7 candidates 2 (pos 4) ≡ node 2 ∷ node 3 ∷ []
unfolding pick_keys chosen ranks_before score text_leb show_ℕ
picked_test = refl

kept_test : All (λ k. not_first k ≡ true) (pick_keys whole 7 candidates 2 (pos 4))
kept_test = rw picked_test (refl, (refl, tt))

pick_keys-keeps_example :
    has_key (node 3) (pick_keys whole 7 (keeping not_first candidates) 2 (pos 4)) ≡ true
pick_keys-keeps_example =
    pick_keys-keeps whole 7 (pos 4) le_total le_trans not_first 2 candidates (node 3)
      (rw picked_test refl) refl

abbrev ctx : AddressContext ℕ
ctx = record {
  user_id = 7;
  day_index = pos 40;
  offset = pos 0;
  weights_by_day = λ day. (1, 10) ∷ (2, 30) ∷ [];
  exhausted = 2 ∷ [];
  enabled = true;
  pins = (5, 3 ∷ []) ∷ [];
}

abbrev narrow : SubsetSettings
narrow = record { enabled = true; size = 1; rotation_days = 3 }

abbrev addresses : List String
addresses = "a.example" ∷ "b.example" ∷ "c.example" ∷ []

abbrev ids : List ℕ
ids = 1 ∷ 2 ∷ 3 ∷ []

chosen_test : contains 1 (choose_nodes whole 7 ids [] (2 ∷ []) 2 (pos 4)) ≡ true
unfolding choose_nodes alive_of
chosen_test = refl

choose_nodes-fresh_example :
    (contains 1 ids ≡ true)
    × (contains 3 ids ≡ true → contains 3 (2 ∷ []) ≡ false → contains 1 (2 ∷ []) ≡ false)
choose_nodes-fresh_example = choose_nodes-fresh whole 7 [] (pos 4) 1 3 2 ids (2 ∷ []) chosen_test

ids_distinct : (i : ℕ) → length (filter (λ j. j == i) ids) ≤ 1
ids_distinct i = ground arith

free_test : length (pinned_nodes ctx true (some 6) ids) ≡ 0
unfolding pinned_nodes
free_test = refl

pick-nonempty_example : 0 < length (pick whole ctx addresses ids true (some 5) narrow)
pick-nonempty_example =
    pick-nonempty whole ctx addresses ids true (some 5) narrow (λ e. refl) (omega arith)

abbrev spot : Node
spot = record { id = 1; address = "a.example"; status = connected; is_bs = false }

abbrev host : Host
host = record { selected = false; address = none; nodes = spot ∷ []; balancer_nodes = [] }

host_test : 0 < length (visible_nodes host)
unfolding visible_nodes
host_test = omega arith

abbrev pin : UserNodePin
pin = record {
  id = 2;
  user_id = 7;
  host_id = 5;
  node_ids = 3 ∷ [];
  created_at = 20;
  expires_at = 90;
  created_by = "support";
  note = none;
}

abbrev pins : List UserNodePin
pins = record pin { id = 1; node_ids = 1 ∷ []; created_at = 10 } ∷ []

abbrev entries : List Entry
entries =
    record { id = 5; host = host; composite = false; is_disabled = false; is_hidden = false } ∷ []

snapshot_host_composition_lem_example :
    (after : List Snapshot) × (snapshot_host_composition 100 entries [] ≡ ok after)
    × ((d h : ℕ) (s : Snapshot) → find d h [] ≡ some s → 100 ≤ d + 90 → find d h after ≡ some s)
    × ((d h : ℕ) → d + 90 < 100 → find d h after ≡ none)
    × All (λ e. is_some (find 100 e.id after) ≡ true) (filter (λ e. not e.is_disabled) entries)
snapshot_host_composition_lem_example = snapshot_host_composition_lem 100 entries []

create_user_node_pin_lem_example :
    lookup 5 (get_active_pins (create_user_node_pin pins pin) 7 30) ≡ some (3 ∷ [])
create_user_node_pin_lem_example =
    create_user_node_pin_lem pins pin 7 5 30 ((omega arith, omega arith), tt)
