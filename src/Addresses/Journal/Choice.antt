-- ===== src/Addresses/Journal/Choice.antt =====
-- The journal's choice where no pin holds is the live one.
use vpn_panel.Prelude.{
  length-filter-le, &&_split, ℕ, ◌≤◌, String, ◌≡◌, refl, sym, ap, ◌∙◌, inl, inr, Bool, true, false,
  not, none, some, List, [], ◌∷◌, arith, ltb, leb, if◌then◌else◌, Bool-cases, length, All, contains,
}
use vpn_panel.Prelude.Int.{ℤ}
use vpn_panel.Addresses.{Numerics}
use vpn_panel.Addresses.Weights.{weights_on}
use vpn_panel.Addresses.Context.{
  SubsetSettings, AddressContext, narrows, alive_of, choose_nodes, exhausted_from_snapshot,
  pinned_nodes, pick_by_nodes, pick_by_addresses, automatic, pick,
}
use vpn_panel.Addresses.Journal.{
  HistoryScope, HistoryHost, Payload, HostAssignment, payload_ids, payload_addresses,
  payload_from_nodes, all_named, history_settings, is_whole, known_of, auto, pinned_on, narrowed,
  auto_by_nodes, auto_by_addresses, automatic_on, weights_for,
}
use vpn_panel.Addresses.Journal.Payloads.{
  length-payload_ids, addresses_of-All, contains-each, filter-every, whole_fits, cut_narrows,
}

module _ {F : Type 0} (num : Numerics F) where
  -- the nodes that the journal takes for exhausted on a day, for the period of this host
  abbrev pub exhausted_on : HistoryScope F → ℤ → HistoryHost → List ℕ
  exhausted_on scope day host =
      exhausted_from_snapshot num (weights_for num scope day (history_settings host).rotation_days)
        scope.node_limits scope.cutoff_percent

  -- the context of the live choice with the data that are recorded of the day: the snapshots of weights and the pins;
  -- the setting of the host, the offset and the limits are those of today
  abbrev pub context_on : HistoryScope F → ℤ → List (ℕ × List ℕ) → HistoryHost → AddressContext F
  context_on scope day pins host = record {
    user_id = scope.user_id;
    day_index = day;
    offset = scope.offset;
    weights_by_day = λ d. weights_on scope.snapshots d;
    exhausted = exhausted_on scope day host;
    enabled = true;
    pins = pins;
  }

  -- the live choice of the host's addresses in that context; that the subscription was blocked, or a node
  -- crossed its limit later in the day, is in no record
  abbrev pub live_choice_on :
      HistoryScope F → ℤ → List (ℕ × List ℕ) → HistoryHost → Payload → List String
  live_choice_on scope day pins host payload =
      pick num (context_on scope day pins host) (payload_addresses payload) (payload_ids payload)
        (payload_from_nodes payload) (some host.id) (history_settings host)

  module _ (scope : HistoryScope F) (day : ℤ) (pins : List (ℕ × List ℕ)) (offset_known : Bool)
      (host : HistoryHost) (payload : Payload) where
    pub pinned_same :
        pinned_nodes
          (context_on scope day pins host)
          (payload_from_nodes payload)
          (some host.id)
          (payload_ids payload)
        ≡ pinned_on pins host payload
    unfolding pinned_nodes pinned_on
    pinned_same = elim (Bool-cases (payload_from_nodes payload)) [
      | inl by_nodes ↦ rw by_nodes refl
      | inr static ↦ rw static refl
    ]

    -- an answer that can be given where the setting cuts the list
    narrowed-restorable :
        (known : Bool) (weights : List (ℕ × F))
        → (narrowed num scope day known host payload weights).restorable ≡ true
        → narrowed num scope day known host payload weights ≡ (
            if payload_from_nodes payload
            then auto_by_nodes num scope day host payload weights
            else auto_by_addresses num scope day host payload)
    unfolding narrowed
    narrowed-restorable known [] h = ground (arith, h)
    narrowed-restorable false (w ∷ weights) h = ground (arith, h)
    narrowed-restorable true (w ∷ weights) h = refl

    length-alive_of-le : (exhausted ids : List ℕ) → length (alive_of exhausted ids) ≤ length ids
    unfolding alive_of
    length-alive_of-le exhausted ids =
        ground (arith, length-filter-le (λ i. not (contains i exhausted)) ids)

    pub choose_nodes-alive :
        (weights : List (ℕ × F)) (exhausted ids : List ℕ) (size : ℕ) (epoch : ℤ)
        → leb (length ids) size ≡ true
        → choose_nodes num scope.user_id ids weights exhausted size epoch ≡ alive_of exhausted ids
    unfolding choose_nodes
    choose_nodes-alive weights exhausted ids size epoch fits =
        ground (arith, fits, length-alive_of-le exhausted ids)

    auto_by_nodes-pick :
        (auto_by_nodes num scope day host payload
          (weights_for num scope day (history_settings host).rotation_days)).addresses
        ≡ pick_by_nodes num
            (context_on scope day pins host)
            (payload_addresses payload)
            (payload_ids payload)
            (history_settings host)
    unfolding auto_by_nodes pick_by_nodes weights_for
    auto_by_nodes-pick = refl

    auto_by_addresses-pick :
        ltb (history_settings host).size (length (payload_addresses payload)) ≡ true
        → (auto_by_addresses num scope day host payload).addresses
          ≡ pick_by_addresses num
              (context_on scope day pins host)
              (payload_addresses payload)
              (history_settings host)
    unfolding auto_by_addresses pick_by_addresses
    auto_by_addresses-pick cut = ground (arith, cut)

    static-automatic :
        (ctx : AddressContext F) (addresses : List String) (ids : List ℕ)
        (settings : SubsetSettings)
        → automatic num ctx addresses ids false settings
          ≡ pick_by_addresses num ctx addresses settings
    unfolding automatic
    static-automatic ctx addresses [] settings = refl
    static-automatic ctx addresses (i ∷ ids) settings = refl

    pub nodes-automatic :
        (ctx : AddressContext F) (addresses : List String) (settings : SubsetSettings)
        (items : Payload)
        → payload_from_nodes items ≡ true
        → automatic num ctx addresses (payload_ids items) true settings
          ≡ pick_by_nodes num ctx addresses (payload_ids items) settings
    unfolding automatic payload_from_nodes
    nodes-automatic ctx addresses settings [] h = ground (arith, h)
    nodes-automatic ctx addresses settings ((none, a) ∷ items) h = ground (arith, h)
    nodes-automatic ctx addresses settings ((some i, a) ∷ items) h = refl

    cut-automatic :
        ltb (history_settings host).size (length (payload_addresses payload)) ≡ true
        → let weights = weights_for num scope day (history_settings host).rotation_days in
          (narrowed num scope day offset_known host payload weights).restorable ≡ true
          → (narrowed num scope day offset_known host payload weights).addresses
            ≡ automatic num
                (context_on scope day pins host)
                (payload_addresses payload)
                (payload_ids payload)
                (payload_from_nodes payload)
                (history_settings host)
    cut-automatic cut h = elim (Bool-cases (payload_from_nodes payload)) [
      | inl by_nodes ↦
          rw
            (
              narrowed-restorable offset_known
                  (weights_for num scope day (history_settings host).rotation_days) h,
              by_nodes,
              nodes-automatic (context_on scope day pins host) (payload_addresses payload)
                  (history_settings host) payload by_nodes,
            )
            auto_by_nodes-pick
      | inr static ↦
          rw
            (
              narrowed-restorable offset_known
                  (weights_for num scope day (history_settings host).rotation_days) h,
              static,
              static-automatic (context_on scope day pins host) (payload_addresses payload)
                  (payload_ids payload) (history_settings host),
            )
            (auto_by_addresses-pick cut)
    ]

    choose_nodes-whole :
        (weights : List (ℕ × F)) (exhausted ids : List ℕ) (size : ℕ) (epoch : ℤ)
        → All (λ i. not (contains i exhausted) ≡ true) ids
        → leb (length ids) size ≡ true
        → choose_nodes num scope.user_id ids weights exhausted size epoch ≡ ids
    unfolding alive_of
    choose_nodes-whole weights exhausted ids size epoch fresh fits =
        choose_nodes-alive weights exhausted ids size epoch fits
        ∙ rw (filter-every (λ i. not (contains i exhausted)) ids fresh) (ground arith)

    nodes-whole :
        All (λ i. not (contains i (exhausted_on scope day host)) ≡ true) (payload_ids payload)
        → leb (length (payload_addresses payload)) (history_settings host).size ≡ true
        → all_named payload ≡ true
        → pick_by_nodes num
            (context_on scope day pins host)
            (payload_addresses payload)
            (payload_ids payload)
            (history_settings host)
          ≡ payload_addresses payload
    unfolding pick_by_nodes
    nodes-whole fresh fits named =
        rw
          (choose_nodes-whole _ (exhausted_on scope day host) (payload_ids payload)
            (history_settings host).size _ fresh
            (ground (arith, fits, length-payload_ids payload named)))
          (addresses_of-All (λ i. contains i (payload_ids payload)) payload named
            (contains-each [] (payload_ids payload)))

    addresses-whole :
        leb (length (payload_addresses payload)) (history_settings host).size ≡ true
        → pick_by_addresses num
            (context_on scope day pins host)
            (payload_addresses payload)
            (history_settings host)
          ≡ payload_addresses payload
    unfolding pick_by_addresses
    addresses-whole fits = ground (arith, fits)

    whole-automatic :
        All (λ i. not (contains i (exhausted_on scope day host)) ≡ true) (payload_ids payload)
        → leb (length (payload_addresses payload)) (history_settings host).size ≡ true
        → automatic num
            (context_on scope day pins host)
            (payload_addresses payload)
            (payload_ids payload)
            (payload_from_nodes payload)
            (history_settings host)
          ≡ payload_addresses payload
    unfolding payload_from_nodes
    whole-automatic fresh fits = elim (Bool-cases (payload_from_nodes payload)) [
      | inl by_nodes ↦
          rw
            (
              by_nodes,
              nodes-automatic (context_on scope day pins host) (payload_addresses payload)
                  (history_settings host) payload by_nodes,
            )
            (nodes-whole fresh fits
              (&&_split (ltb 0 (length payload)) (all_named payload) by_nodes).1)
      | inr static ↦
          rw
            (
              static,
              static-automatic (context_on scope day pins host) (payload_addresses payload)
                  (payload_ids payload) (history_settings host),
            )
            (addresses-whole fits)
    ]

    pub automatic_on-whole :
        is_whole (history_settings host) (length (payload_addresses payload)) ≡ true
        → automatic_on num scope day offset_known host payload
          ≡ known_of auto host (payload_ids payload) (payload_addresses payload)
    unfolding automatic_on
    automatic_on-whole whole = rw whole refl

    automatic_on-cut :
        is_whole (history_settings host) (length (payload_addresses payload)) ≡ false
        → automatic_on num scope day offset_known host payload
          ≡ narrowed num scope day offset_known host payload
              (weights_for num scope day (history_settings host).rotation_days)
    unfolding automatic_on
    automatic_on-cut cut = rw cut refl

    given_of :
        (answer : HostAssignment)
        → automatic_on num scope day offset_known host payload ≡ answer
        → (automatic_on num scope day offset_known host payload).restorable ≡ true
        → answer.restorable ≡ true
    given_of answer same h = ap (λ a. a.restorable) (sym same) ∙ h

    -- what the live choice gives where no pin holds
    abbrev unpinned : List String
    unpinned =
        if not (narrows (history_settings host))
        then payload_addresses payload
        else automatic num (context_on scope day pins host) (payload_addresses payload)
            (payload_ids payload) (payload_from_nodes payload) (history_settings host)

    whole-unpinned :
        (leb (length (payload_addresses payload)) (history_settings host).size ≡ true
          → All (λ i. not (contains i (exhausted_on scope day host)) ≡ true) (payload_ids payload))
        → is_whole (history_settings host) (length (payload_addresses payload)) ≡ true
        → payload_addresses payload ≡ unpinned
    unfolding is_whole
    whole-unpinned fresh whole = elim (Bool-cases (narrows (history_settings host))) [
      | inl narrow ↦
          let fits =
            whole_fits (history_settings host) (length (payload_addresses payload)) narrow whole in
          rw narrow (sym (whole-automatic (fresh fits) fits))
      | inr wide ↦ rw wide refl
    ]

    pub automatic_on-unpinned :
        (leb (length (payload_addresses payload)) (history_settings host).size ≡ true
          → All (λ i. not (contains i (exhausted_on scope day host)) ≡ true) (payload_ids payload))
        → (automatic_on num scope day offset_known host payload).restorable ≡ true
        → (automatic_on num scope day offset_known host payload).addresses ≡ unpinned
    automatic_on-unpinned fresh h =
        elim (Bool-cases (is_whole (history_settings host) (length (payload_addresses payload)))) [
          | inl whole ↦
              ap (λ a. a.addresses) (automatic_on-whole whole) ∙ whole-unpinned fresh whole
          | inr cut ↦
              let both =
                cut_narrows (history_settings host) (length (payload_addresses payload)) cut in
              ap (λ a. a.addresses) (automatic_on-cut cut)
              ∙ cut-automatic both.1 (given_of _ (automatic_on-cut cut) h)
              ∙ rw both.0 refl
        ]
