-- ===== src/Addresses/Context/Size.antt =====
-- A narrowed host gives a user no more addresses than its setting says.
use vpn_panel.Prelude.{
  ℕ, ◌+◌, ◌≤◌, String, ◌≡◌, refl, sym, Bool, true, false, ◌&&◌, ◌||◌, Option, List, [], ◌∷◌, arith,
  ◌==◌, length, filter, contains,
}
use vpn_panel.Addresses.{Numerics}
use vpn_panel.Addresses.Epoch.{epoch_start_day}
use vpn_panel.Addresses.Context.{
  AddressContext, SubsetSettings, narrows, choose_nodes, epoch_of, pick_by_nodes, pick_by_addresses,
  pinned_nodes, automatic, pick,
}
use vpn_panel.Addresses.Context.Nodes.{length-choose_nodes}
use vpn_panel.Addresses.Context.Nonempty.{length-addresses_of}

-- how often an id stands in a list
abbrev times_in : ℕ → List ℕ → ℕ
times_in i ids = length (filter (λ j. j == i) ids)

abbrev pub HasDistinctIds : List ℕ → Type 0
HasDistinctIds ids = (i : ℕ) → times_in i ids ≤ 1

length-filter-or-le :
    (p q : ℕ → Bool) (xs : List ℕ)
    → length (filter (λ x. p x || q x) xs) ≤ length (filter p xs) + length (filter q xs)
length-filter-or-le p q [] = omega arith
length-filter-or-le p q (x ∷ xs) = ground (arith, length-filter-or-le p q xs)

times_flip : (i : ℕ) (ids : List ℕ) → length (filter (λ j. i == j) ids) ≡ times_in i ids
times_flip i [] = refl
times_flip i (j ∷ ids) = ground (arith, times_flip i ids)

length-filter-none : (ids : List ℕ) → length (filter (λ i. false) ids) ≡ 0
length-filter-none [] = refl
length-filter-none (i ∷ ids) = length-filter-none ids

length-filter-contains-le :
    (c ids : List ℕ) → HasDistinctIds ids → length (filter (λ i. contains i c) ids) ≤ length c
length-filter-contains-le [] ids h = omega (arith, length-filter-none ids)
length-filter-contains-le (i ∷ c) ids h = omega (
  arith,
  h i,
  times_flip i ids,
  length-filter-or-le (λ j. i == j) (λ j. contains j c) ids,
  length-filter-contains-le c ids h,
)

module _ {F : Type 0} (num : Numerics F) (ctx : AddressContext F) where
  by_nodes-le :
      (addresses : List String) (ids : List ℕ) (settings : SubsetSettings)
      → HasDistinctIds ids
      → length ids ≡ length addresses
      → length (pick_by_nodes num ctx addresses ids settings) ≤ settings.size
  unfolding pick_by_nodes
  by_nodes-le addresses ids settings distinct same =
      let weights =
        ctx.weights_by_day (epoch_start_day num ctx.user_id ctx.day_index settings.rotation_days) in
      let epoch = epoch_of num ctx settings in
      let c = choose_nodes num ctx.user_id ids weights ctx.exhausted settings.size epoch in
      omega (
        arith,
        length-addresses_of (λ i. contains i c) addresses ids same,
        length-filter-contains-le c ids distinct,
        length-choose_nodes num ctx.user_id weights epoch settings.size ids ctx.exhausted,
      )

  no_addresses :
      (addresses : List String) (settings : SubsetSettings)
      → length addresses ≡ 0
      → length (pick_by_addresses num ctx addresses settings) ≤ settings.size
  unfolding pick_by_addresses
  no_addresses [] settings h = ground arith
  no_addresses (a ∷ addresses) settings h = absurd (omega (arith, h))

  -- Where no pin of the user holds for the host and its nodes stand behind the addresses, a host that is
  -- narrowed to `size` gives that many addresses at most.
  pub length-pick-le :
      (addresses : List String) (ids : List ℕ) (host : Option ℕ) (settings : SubsetSettings)
      → HasDistinctIds ids
      → length ids ≡ length addresses
      → (ctx.enabled && narrows settings) ≡ true
      → length (pinned_nodes ctx true host ids) ≡ 0
      → length (pick num ctx addresses ids true host settings) ≤ settings.size
  unfolding pick automatic
  length-pick-le addresses [] host settings distinct same on free =
      rw free (rw on (no_addresses addresses settings (sym same)))
  length-pick-le addresses (i ∷ ids) host settings distinct same on free =
      rw free (rw on (by_nodes-le addresses (i ∷ ids) settings distinct same))
