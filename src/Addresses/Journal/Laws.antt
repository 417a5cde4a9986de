-- ===== src/Addresses/Journal/Laws.antt =====
-- What the journal tells of a past day, and the live choice of addresses on the data recorded of that day.
use vpn_panel.Prelude.{
  &&_split, any, [], ◌∷◌, ◌<◌, ℕ, ◌≡◌, refl, sym, ap, ◌∙◌, inl, inr, Bool, true, false, not, some,
  List, arith, ltb, leb, Bool-cases, length, All, contains,
}
use vpn_panel.Prelude.Int.{ℤ}
use vpn_panel.Addresses.{Numerics}
use vpn_panel.Addresses.Context.{narrows, addresses_of, alive_of, pick_by_nodes, pick}
use vpn_panel.Addresses.Journal.{
  HistoryScope, HistoryHost, Payload, payload_ids, payload_addresses, payload_from_nodes, all_named,
  history_settings, is_whole, pinned_on, automatic_on, reconstruct_host,
}
use vpn_panel.Addresses.Journal.Payloads.{
  length-payload_ids, addresses_of-same, contains-alive_of, length-addresses_of, length-filter-lt,
}
use vpn_panel.Addresses.Journal.Choice.{
  exhausted_on, context_on, live_choice_on, choose_nodes-alive, pinned_same, nodes-automatic,
  automatic_on-whole, automatic_on-unpinned,
}

any-twice_negated : (p : ℕ → Bool) (xs : List ℕ) → any (λ x. not (not (p x))) xs ≡ any p xs
any-twice_negated p [] = refl
any-twice_negated p (x ∷ xs) = ground (arith, any-twice_negated p xs)

module _ {F : Type 0} (num : Numerics F) (scope : HistoryScope F) (day : ℤ)
    (pins : List (ℕ × List ℕ)) (offset_known : Bool) (host : HistoryHost) (payload : Payload) where
  reconstruct_host-free :
      ltb 0 (length (pinned_on pins host payload)) ≡ false
      → reconstruct_host num scope day pins offset_known host (some payload)
        ≡ automatic_on num scope day offset_known host payload
  unfolding reconstruct_host
  reconstruct_host-free free = rw free refl

  -- The journal's answer for a host on a past day, where it gives one, lists exactly the addresses that the live
  -- choice picks with the data recorded of that day (weights, pins, composition, with the setting, the offset and
  -- the limits of today), with a pin and without, for a host of nodes and for one of addresses; provided that no
  -- node of the host counts as exhausted where the host has no more addresses than its setting asks for.
  pub reconstruct_host-pick :
      (leb (length (payload_addresses payload)) (history_settings host).size ≡ true
        → All
            (λ i. not (contains i (exhausted_on num scope day host)) ≡ true)
            (payload_ids payload))
      → (reconstruct_host num scope day pins offset_known host (some payload)).restorable ≡ true
      → (reconstruct_host num scope day pins offset_known host (some payload)).addresses
        ≡ live_choice_on num scope day pins host payload
  unfolding reconstruct_host pick
  reconstruct_host-pick fresh h = elim (Bool-cases (ltb 0 (length (pinned_on pins host payload)))) [
    | inl pinned ↦ rw (pinned_same num scope day pins offset_known host payload, pinned) refl
    | inr free ↦
        rw (pinned_same num scope day pins offset_known host payload, free)
          (automatic_on-unpinned num scope day pins offset_known host payload fresh
            (ap (λ a. a.restorable) (sym (reconstruct_host-free free)) ∙ h))
  ]

  -- A host that is not cut is listed whole.
  whole_listed :
      ltb 0 (length (pinned_on pins host payload)) ≡ false
      → narrows (history_settings host) ≡ true
      → leb (length (payload_addresses payload)) (history_settings host).size ≡ true
      → (reconstruct_host num scope day pins offset_known host (some payload)).addresses
        ≡ payload_addresses payload
  unfolding is_whole
  whole_listed free narrow fits =
      ap (λ a. a.addresses)
        (reconstruct_host-free free
          ∙ automatic_on-whole num scope day pins offset_known host payload
              (ground (arith, narrow, fits)))

  -- The live choice picks the addresses of the nodes that are left.
  alive_picked :
      ltb 0 (length (pinned_on pins host payload)) ≡ false
      → narrows (history_settings host) ≡ true
      → payload_from_nodes payload ≡ true
      → leb (length (payload_addresses payload)) (history_settings host).size ≡ true
      → live_choice_on num scope day pins host payload
        ≡ addresses_of
            (λ i. contains i (alive_of (exhausted_on num scope day host) (payload_ids payload)))
            (payload_addresses payload)
            (payload_ids payload)
  unfolding payload_from_nodes pick pick_by_nodes
  alive_picked free narrow by_nodes fits =
      let settings = history_settings host in
      let named = (&&_split (ltb 0 (length payload)) (all_named payload) by_nodes).1 in
      rw
        (
          pinned_same num scope day pins offset_known host payload,
          free,
          narrow,
          by_nodes,
          nodes-automatic num scope day pins offset_known host payload
              (context_on num scope day pins host) (payload_addresses payload) settings payload
              by_nodes,
        )
        (rw
          (choose_nodes-alive num scope day pins offset_known host payload _
            (exhausted_on num scope day host) (payload_ids payload) settings.size _
            (ground (arith, fits, length-payload_ids payload named)))
          refl)

  -- For a host of nodes that has no more addresses than its setting asks for, no pin in force, and a node
  -- exhausted beside one that is not, the journal lists all its addresses, while the live choice with the
  -- recorded data picks exactly those of the nodes not exhausted, which are fewer.
  pub reconstruct_host-exhausted :
      ltb 0 (length (pinned_on pins host payload)) ≡ false
      → narrows (history_settings host) ≡ true
      → payload_from_nodes payload ≡ true
      → leb (length (payload_addresses payload)) (history_settings host).size ≡ true
      → any (λ i. contains i (exhausted_on num scope day host)) (payload_ids payload) ≡ true
      → any (λ i. not (contains i (exhausted_on num scope day host))) (payload_ids payload) ≡ true
      → let answer = reconstruct_host num scope day pins offset_known host (some payload) in
        let picked = live_choice_on num scope day pins host payload in
        (answer.addresses ≡ payload_addresses payload)
        × (picked
            ≡ addresses_of
                (λ i. not (contains i (exhausted_on num scope day host)))
                (payload_addresses payload)
                (payload_ids payload))
        × (length picked < length answer.addresses)
  unfolding payload_from_nodes
  reconstruct_host-exhausted free narrow by_nodes fits dead alive =
      let ids = payload_ids payload in
      let exhausted = exhausted_on num scope day host in
      let named = (&&_split (ltb 0 (length payload)) (all_named payload) by_nodes).1 in
      let listed = whole_listed free narrow fits in
      let picked =
        alive_picked free narrow by_nodes fits
        ∙ addresses_of-same (λ i. contains i (alive_of exhausted ids))
            (λ i. not (contains i exhausted)) payload named
            (contains-alive_of exhausted ids alive) in
      let fewer =
        length-filter-lt (λ i. not (contains i exhausted)) ids
          (any-twice_negated (λ i. contains i exhausted) ids ∙ dead) in
      (
        listed,
        picked,
        omega (
          arith,
          ap length listed,
          ap length picked,
          fewer,
          length-payload_ids payload named,
          length-addresses_of (λ i. not (contains i exhausted)) payload named,
        ),
      )
