-- ===== src/Addresses/Context/Nonempty.antt =====
-- A host that has addresses never leaves a user without one.
use vpn_panel.Prelude.{
  ℕ, suc, ◌<◌, String, ◌≡◌, refl, ap, ◌∙◌, inl, inr, Bool, true, false, ◌&&◌, Option, none, some,
  List, [], ◌∷◌, map, arith, ltb, Bool-cases, get_or, ==_refl, length, filter, contains,
  contains-filter, lookup,
}
use vpn_panel.Addresses.{Numerics}
use vpn_panel.Addresses.Policy.{Key, address, has_key, pick_keys}
use vpn_panel.Addresses.Policy.Stable.{pick_keys-some}
use vpn_panel.Addresses.Context.{
  AddressContext, SubsetSettings, narrows, addresses_of, epoch_of, weigh_evenly, pick_by_nodes,
  pick_by_addresses, pinned_nodes, automatic, pick,
}
use vpn_panel.Addresses.Context.Nodes.{some_member, choose_nodes-nonempty, choose_nodes-fresh}

pub length-addresses_of :
    (keep : ℕ → Bool) (addresses : List String) (ids : List ℕ)
    → length ids ≡ length addresses
    → length (addresses_of keep addresses ids) ≡ length (filter keep ids)
length-addresses_of keep [] [] h = refl
length-addresses_of keep [] (i ∷ ids) h = absurd (omega arith)
length-addresses_of keep (a ∷ list) [] h = absurd (omega arith)
length-addresses_of keep (a ∷ list) (i ∷ ids) h = ground (arith, length-addresses_of keep list ids)

some_kept :
    (c ids : List ℕ)
    → 0 < length c
    → ((i : ℕ) → contains i c ≡ true → contains i ids ≡ true)
    → 0 < length (filter (λ i. contains i c) ids)
some_kept [] ids h m = absurd (omega arith)
some_kept (i ∷ c) ids h m =
    let here : contains i (i ∷ c) ≡ true = ground (arith, ==_refl i) in
    some_member i (filter (λ j. contains j (i ∷ c)) ids)
      (contains-filter i (λ j. contains j (i ∷ c)) ids ∙ ground (arith, here, m i here))

module _ {F : Type 0} where
  length-by_address :
      (zero_weight : F) (p : Key → Bool) (list : List String)
      → length (filter (λ a. p (address a)) list)
        ≡ length (filter p (map (λ c. c.0) (weigh_evenly zero_weight list)))
  length-by_address w p [] = refl
  length-by_address w p (a ∷ list) = ground (arith, length-by_address w p list)

  length-candidates : (w : F) (list : List String) → length (weigh_evenly w list) ≡ length list
  length-candidates w [] = refl
  length-candidates w (a ∷ list) = ap suc (length-candidates w list)

module _ {F : Type 0} (num : Numerics F) (ctx : AddressContext F) where
  by_nodes :
      (list : List String) (ids : List ℕ) (settings : SubsetSettings)
      → length ids ≡ length list
      → 0 < length list
      → 0 < settings.size
      → 0 < length (pick_by_nodes num ctx list ids settings)
  unfolding pick_by_nodes
  by_nodes list ids settings same many size = rw (length-addresses_of _ list ids same) (
      some_kept _ ids
        (choose_nodes-nonempty num ctx.user_id _ _ settings.size ids ctx.exhausted size
          (omega arith))
        (λ i h. (choose_nodes-fresh num ctx.user_id _ _ i i settings.size ids ctx.exhausted h).0))

  by_addresses :
      (list : List String) (settings : SubsetSettings)
      → 0 < length list
      → 0 < settings.size
      → 0 < length (pick_by_addresses num ctx list settings)
  unfolding pick_by_addresses
  by_addresses list settings many size =
      let cs = weigh_evenly num.zero list in
      let epoch = epoch_of num ctx settings in
      ground (
        arith,
        many,
        length-candidates num.zero list,
        length-by_address num.zero
            (λ k. has_key k (pick_keys num ctx.user_id cs settings.size epoch)) list,
        pick_keys-some num ctx.user_id epoch settings.size cs size,
      )

  by_choice :
      (addresses : List String) (ids : List ℕ) (from_nodes : Bool) (settings : SubsetSettings)
      → (from_nodes ≡ true → length ids ≡ length addresses)
      → 0 < length addresses
      → 0 < settings.size
      → 0 < length (automatic num ctx addresses ids from_nodes settings)
  unfolding automatic
  by_choice addresses [] from_nodes settings same many size =
      by_addresses addresses settings many size
  by_choice addresses (i ∷ ids) true settings same many size =
      by_nodes addresses (i ∷ ids) settings (same refl) many size
  by_choice addresses (i ∷ ids) false settings same many size =
      by_addresses addresses settings many size

  by_pins :
      (from_nodes : Bool) (host : Option ℕ) (addresses : List String) (ids : List ℕ)
      → (from_nodes ≡ true → length ids ≡ length addresses)
      → 0 < length (pinned_nodes ctx from_nodes host ids)
      → 0
        < length
            (addresses_of (λ i. contains i (pinned_nodes ctx from_nodes host ids)) addresses ids)
  unfolding pinned_nodes
  by_pins false host addresses ids same h = absurd (omega (arith, h))
  by_pins true none addresses ids same h = absurd (omega (arith, h))
  by_pins true (some host) addresses ids same h =
      let pins = get_or (lookup host ctx.pins) [] in
      rw (length-addresses_of _ addresses ids (same refl))
        (some_kept _ ids h (λ i e. ground (arith, e, contains-filter i (λ j. contains j pins) ids)))

  -- A host with addresses gives a user an address at least, whatever is pinned, exhausted or narrowed.
  -- Where the addresses are those of its nodes, there are as many of them as nodes.
  pub pick-nonempty :
      (addresses : List String) (ids : List ℕ) (from_nodes : Bool) (host : Option ℕ)
      (settings : SubsetSettings)
      → (from_nodes ≡ true → length ids ≡ length addresses)
      → 0 < length addresses
      → 0 < length (pick num ctx addresses ids from_nodes host settings)
  unfolding pick
  pick-nonempty addresses ids from_nodes host settings same many =
      let pinned = pinned_nodes ctx from_nodes host ids in
      elim (Bool-cases (ltb 0 (length pinned))) [
        | inl e ↦ rw e (by_pins from_nodes host addresses ids same (ground arith))
        | inr e ↦ rw e (elim (Bool-cases (ctx.enabled && narrows settings)) [
          | inl n ↦ rw n (by_choice addresses ids from_nodes settings same many (ground (arith, n)))
          | inr n ↦ rw n many
        ])
      ]
