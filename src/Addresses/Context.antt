-- ===== src/Addresses/Context.antt =====
-- app/subscription/address_context.py: the part of a host's addresses that a user is given. Sets of ids are
-- lists that are asked for membership only; a mapping from days is a function.
pub mod Candidates
pub mod Nodes
pub mod Nonempty
pub mod Size
use vpn_panel.Prelude.{
  ℕ, zero, suc, ◌+◌, ◌-◌, ◌*◌, ◌/◌, ◌%◌, ◌^◌, ◌≤◌, ◌<◌, max, min, String, ◌≡◌, refl, sym, ap, ◌∙◌,
  ◌≢◌, ◌⊎◌, inl, inr, Bool, true, false, ◌&&◌, ◌||◌, not, Option, none, some, List, [], ◌∷◌, ◌++◌,
  map, arith, str_eq, ltb, leb, ◌==◌, if◌then◌else◌, Bool-cases, Option-cases, truthy, or_zero,
  get_or, is_some, some-injective, ==_refl, length, filter, any, All, take, drop, contains,
  contains-append, contains-filter, lookup, insert, keys, lookup-insert,
}
use vpn_panel.Prelude.Int.{ℤ, pos, pos_part, truthy_ℤ}
use vpn_panel.Prelude.Sort.{sort_by}
use vpn_panel.Addresses.{Numerics}
use vpn_panel.Addresses.Epoch.{epoch_for, epoch_start_day}
use vpn_panel.Addresses.Policy.{Key, node, address, has_key, is_exhausted, pick_keys}

-- HostSubsetSettings
pub record SubsetSettings : Type 0 where
  pub enabled : Bool
  pub size : ℕ
  pub rotation_days : ℕ

abbrev pub narrows : SubsetSettings → Bool
narrows s = s.enabled && ltb 0 s.size

abbrev pub disabled_settings : SubsetSettings
disabled_settings = record { enabled = false; size = 0; rotation_days = 1 }

-- settings_from_host, of the three values of the host's record
unfoldable pub settings_from_host : Bool → Option ℤ → Option ℤ → SubsetSettings
settings_from_host false size days = disabled_settings
settings_from_host true size days =
    let n = pos_part (get_or size (pos 0)) in
    let d = if truthy_ℤ days then pos_part (get_or days (pos 2)) else 2 in
    if n == 0
    then disabled_settings
    else record { enabled = true; size = n; rotation_days = max 1 d }

-- zip(xs, ys)
abbrev pub zip {ℓ κ} : {A : Type ℓ} {B : Type κ} → List A → List B → List (A × B)
zip [] ys = []
zip (x ∷ xs) [] = []
zip (x ∷ xs) (y ∷ ys) = (x, y) ∷ zip xs ys

-- [addr for addr, node_id in zip(addresses, node_ids) if keep(node_id)]
abbrev pub addresses_of : (ℕ → Bool) → List String → List ℕ → List String
addresses_of keep addresses ids = map (λ p. p.0) (filter (λ p. keep p.1) (zip addresses ids))

abbrev pub node_ids_of : List Key → List ℕ
node_ids_of [] = []
node_ids_of (node n ∷ ks) = n ∷ node_ids_of ks
node_ids_of (address a ∷ ks) = node_ids_of ks

module _ {F : Type 0} where
  -- [(addr, weight) for addr in addresses]
  abbrev pub weigh_evenly : F → List String → List (Key × F)
  weigh_evenly w = map (λ a. (address a, w))

  -- {id: f(id) for id in ids}, added to a dict
  abbrev pub dict_of : (ℕ → F) → List ℕ → List (ℕ × F) → List (ℕ × F)
  dict_of f [] d = d
  dict_of f (i ∷ ids) d = dict_of f ids (insert i (f i) d)

  abbrev pub known_weights : List (ℕ × F) → List ℕ → List F
  known_weights weights [] = []
  known_weights weights (i ∷ ids) =
      let rest = known_weights weights ids in
      elim (lookup i weights) [ none ↦ rest | some w ↦ w ∷ rest ]

  abbrev pub at : F → ℕ → List F → F
  at default n [] = default
  at default zero (x ∷ xs) = x
  at default (suc n) (x ∷ xs) = at default n xs

-- the nodes that are not exhausted, or all where none is left
unfoldable pub alive_of : List ℕ → List ℕ → List ℕ
alive_of exhausted ids =
    let alive = filter (λ i. not (contains i exhausted)) ids in
    if ltb 0 (length alive) then alive else ids

pub record AddressContext (F : Type 0) : Type 0 where
  pub user_id : ℕ
  pub day_index : ℤ
  pub offset : ℤ
  pub weights_by_day : ℤ → List (ℕ × F)
  pub exhausted : List ℕ
  pub enabled : Bool
  pub pins : List (ℕ × List ℕ)

-- the pinned nodes of a host that still stand behind it
unfoldable pub pinned_nodes : {F : Type 0} → AddressContext F → Bool → Option ℕ → List ℕ → List ℕ
pinned_nodes ctx true (some host) ids =
    filter (λ i. contains i (get_or (lookup host ctx.pins) [])) ids
pinned_nodes ctx true none ids = []
pinned_nodes ctx false host ids = []

module _ {F : Type 0} (num : Numerics F) where
  -- statistics.median of a list that is not empty
  unfoldable pub median : List F → F
  median values =
      let sorted = sort_by num.le values in
      let half = length values / 2 in
      if length values % 2 == 1
      then at num.zero half sorted
      else num.middle (at num.zero (half - 1) sorted) (at num.zero half sorted)

  -- the weight of a node: 0.0 where none is known, else its own or the median of those known
  weight_or : List (ℕ × F) → List F → ℕ → F
  weight_or weights [] i = num.zero
  weight_or weights (w ∷ ws) i = get_or (lookup i weights) (median (w ∷ ws))

  unfoldable pub weighted_candidates : List (ℕ × F) → List ℕ → List (ℕ × F)
  unfolding weight_or
  weighted_candidates weights ids = dict_of (weight_or weights (known_weights weights ids)) ids []

  unfoldable pub choose_nodes : ℕ → List ℕ → List (ℕ × F) → List ℕ → ℕ → ℤ → List ℕ
  choose_nodes uid ids weights exhausted size epoch =
      let alive = alive_of exhausted ids in
      if leb (length alive) size
      then alive
      else node_ids_of (
          pick_keys num uid (map (λ c. (node c.0, c.1)) (weighted_candidates weights alive)) size
            epoch)

  -- the nodes that had used up their limit at the time of a snapshot of what was left
  unfoldable pub exhausted_from_snapshot : List (ℕ × F) → List (ℕ × ℕ) → ℕ → List ℕ
  exhausted_from_snapshot [] limits percent = []
  exhausted_from_snapshot ((i, weight) ∷ weights) limits percent =
      let rest = exhausted_from_snapshot weights limits percent in
      elim (lookup i limits) [
        | none ↦ rest
        | some limit ↦
            if is_exhausted num (some (num.minus (num.of_ℕ limit) weight)) (some (num.of_ℕ limit))
              percent
            then i ∷ rest
            else rest
      ]

  abbrev pub epoch_of : AddressContext F → SubsetSettings → ℤ
  epoch_of ctx settings = epoch_for num ctx.user_id ctx.day_index settings.rotation_days ctx.offset

  -- _pick_by_nodes
  unfoldable pub pick_by_nodes :
      AddressContext F → List String → List ℕ → SubsetSettings → List String
  pick_by_nodes ctx addresses ids settings =
      let weights =
        ctx.weights_by_day (epoch_start_day num ctx.user_id ctx.day_index settings.rotation_days) in
      let chosen =
        choose_nodes ctx.user_id ids weights ctx.exhausted settings.size (epoch_of ctx settings) in
      addresses_of (λ i. contains i chosen) addresses ids

  -- the choice by the addresses themselves
  unfoldable pub pick_by_addresses : AddressContext F → List String → SubsetSettings → List String
  pick_by_addresses ctx addresses settings =
      let candidates = weigh_evenly num.zero addresses in
      let chosen = pick_keys num ctx.user_id candidates settings.size (epoch_of ctx settings) in
      if leb (length addresses) settings.size
      then addresses
      else filter (λ a. has_key (address a) chosen) addresses

  unfoldable pub automatic :
      AddressContext F → List String → List ℕ → Bool → SubsetSettings → List String
  automatic ctx addresses [] from_nodes settings = pick_by_addresses ctx addresses settings
  automatic ctx addresses (i ∷ ids) from_nodes settings =
      if from_nodes
      then pick_by_nodes ctx addresses (i ∷ ids) settings
      else pick_by_addresses ctx addresses settings

  unfoldable pub pick :
      AddressContext F → List String → List ℕ → Bool → Option ℕ → SubsetSettings → List String
  unfolding automatic
  pick ctx addresses ids from_nodes host settings =
      let pinned = pinned_nodes ctx from_nodes host ids in
      if ltb 0 (length pinned)
      then addresses_of (λ i. contains i pinned) addresses ids
      else if not (ctx.enabled && narrows settings)
      then addresses
      else automatic ctx addresses ids from_nodes settings
