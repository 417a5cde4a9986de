-- ===== src/Addresses/Pins/Laws.antt =====
-- What a pin does to the hosts of a user, now and in the history.
use vpn_panel.Prelude.{
  ℕ, ◌≤◌, ◌<◌, ◌≡◌, refl, sym, ap, ◌∙◌, subst, inl, inr, Bool, true, false, Option, none, some,
  List, [], ◌∷◌, ◌++◌, map, arith, ◌==◌, if◌then◌else◌, Bool-cases, ==_refl, filter, All, lookup,
  insert, lookup-insert,
}
use vpn_panel.Prelude.Sort.{sort_by, insert_by, filter-sort_by}
use vpn_panel.Addresses.Pins.{
  UserNodePin, pin_before, latest_from, latest, is_active_pin, covers, get_active_pins,
  get_pins_covering_day, create_user_node_pin, is_pinned_now, expire_pin, delete_user_node_pin,
}

pub pin_total : (p q : UserNodePin) → pin_before p q ≡ false → pin_before q p ≡ true
pin_total p q h = ground arith

pub pin_trans :
    (p q r : UserNodePin) → pin_before p q ≡ true → pin_before q r ≡ true → pin_before p r ≡ true
pin_trans p q r h k = ground arith

abbrev of_host : ℕ → UserNodePin → Bool
of_host host p = p.host_id == host

-- A host's pins depend on the rows of that host only.
lookup-latest_from :
    (host : ℕ) (d e : List (ℕ × List ℕ)) (rows : List UserNodePin)
    → lookup host d ≡ lookup host e
    → lookup host (latest_from d rows) ≡ lookup host (latest_from e (filter (of_host host) rows))
lookup-latest_from host d e [] h = h
lookup-latest_from host d e (p ∷ rows) h = elim (Bool-cases (p.host_id == host)) [
  | inl same ↦ rw same (
      lookup-latest_from host (insert p.host_id p.node_ids d) (insert p.host_id p.node_ids e) rows (
        lookup-insert p.host_id host p.node_ids d
        ∙ rw same (sym (lookup-insert p.host_id host p.node_ids e ∙ rw same refl))))
  | inr other ↦ rw other (
      lookup-latest_from host (insert p.host_id p.node_ids d) e rows
        (lookup-insert p.host_id host p.node_ids d ∙ rw other h))
]

lookup-latest :
    (host : ℕ) (selects : UserNodePin → Bool) (rows : List UserNodePin)
    → lookup host (latest selects rows)
      ≡ lookup host
          (latest_from [] (sort_by pin_before (filter (of_host host) (filter selects rows))))
lookup-latest host selects rows =
    lookup-latest_from host [] [] (sort_by pin_before (filter selects rows)) refl
    ∙ ap (λ ps. lookup host (latest_from [] ps))
        (filter-sort_by pin_before pin_total pin_trans (of_host host) (filter selects rows))

module _ (uid host now : ℕ) where
  abbrev f : UserNodePin → UserNodePin
  f = expire_pin uid host now

  filter-expire :
      (selects : UserNodePin → Bool) (rows : List UserNodePin)
      → All (λ p. selects (f p) ≡ selects p) rows
      → filter selects (map f rows) ≡ map f (filter selects rows)
  filter-expire selects [] h = refl
  filter-expire selects (p ∷ rows) h = rw h.0 (elim (Bool-cases (selects p)) [
    | inl e ↦ rw e (ap (λ ps. f p ∷ ps) (filter-expire selects rows h.1))
    | inr e ↦ rw e (filter-expire selects rows h.1)
  ])

  insert-expire :
      (p : UserNodePin) (rows : List UserNodePin)
      → insert_by pin_before (f p) (map f rows) ≡ map f (insert_by pin_before p rows)
  insert-expire p [] = refl
  insert-expire p (q ∷ rows) = elim (Bool-cases (pin_before p q)) [
    | inl e ↦ rw e refl
    | inr e ↦ rw e (ap (λ ps. f q ∷ ps) (insert-expire p rows))
  ]

  sort-expire :
      (rows : List UserNodePin) → sort_by pin_before (map f rows) ≡ map f (sort_by pin_before rows)
  sort-expire [] = refl
  sort-expire (p ∷ rows) =
      ap (insert_by pin_before (f p)) (sort-expire rows) ∙ insert-expire p (sort_by pin_before rows)

  latest_from-expire :
      (d : List (ℕ × List ℕ)) (rows : List UserNodePin)
      → latest_from d (map f rows) ≡ latest_from d rows
  latest_from-expire d [] = refl
  latest_from-expire d (p ∷ rows) = latest_from-expire (insert p.host_id p.node_ids d) rows

  -- A selection that does not tell a pin from its expired self gives the same pins.
  latest-expire :
      (selects : UserNodePin → Bool) (rows : List UserNodePin)
      → All (λ p. selects (f p) ≡ selects p) rows
      → latest selects (map f rows) ≡ latest selects rows
  latest-expire selects rows h =
      ap (λ ps. latest_from [] (sort_by pin_before ps)) (filter-expire selects rows h)
      ∙ ap (latest_from []) (sort-expire (filter selects rows))
      ∙ latest_from-expire [] (sort_by pin_before (filter selects rows))

  none_left :
      (later : ℕ) (rows : List UserNodePin)
      → now ≤ later
      → filter (of_host host) (filter (is_active_pin uid later) (map f rows)) ≡ []
  none_left later [] h = refl
  none_left later (p ∷ rows) h = ground (arith, none_left later rows h)

  covers-expire :
      (day_start day_end : ℕ) (rows : List UserNodePin)
      → day_start < now
      → All (λ p. covers uid day_start day_end (f p) ≡ covers uid day_start day_end p) rows
  covers-expire day_start day_end [] h = tt
  covers-expire day_start day_end (p ∷ rows) h =
      (ground arith, covers-expire day_start day_end rows h)

  -- Taking off a user's pins of a host at a moment leaves the user without a pin there from that moment
  -- on, and does not change what the history tells of any day that began before.
  pub delete_user_node_pin_lem :
      (rows : List UserNodePin)
      → ((later : ℕ)
          → now ≤ later
          → lookup host (get_active_pins (delete_user_node_pin rows uid host now).1 uid later)
            ≡ none)
        × ((day_start day_end : ℕ)
            → day_start < now
            → get_pins_covering_day (delete_user_node_pin rows uid host now).1 uid day_start day_end
              ≡ get_pins_covering_day rows uid day_start day_end)
  unfolding delete_user_node_pin get_active_pins get_pins_covering_day
  delete_user_node_pin_lem rows = (
    (λ later h.
        lookup-latest host (is_active_pin uid later) (map f rows)
        ∙ ap (λ ps. lookup host (latest_from [] (sort_by pin_before ps))) (none_left later rows h)),
    (λ day_start day_end h.
        latest-expire (covers uid day_start day_end) rows (covers-expire day_start day_end rows h)),
  )

-- Where a pin is the youngest of its host, it is the last of the host's rows.
insert_last :
    (p pin : UserNodePin) (rows : List UserNodePin)
    → pin_before p pin ≡ true
    → insert_by pin_before p (rows ++ (pin ∷ [])) ≡ insert_by pin_before p rows ++ (pin ∷ [])
insert_last p pin [] h = rw h refl
insert_last p pin (q ∷ rows) h = elim (Bool-cases (pin_before p q)) [
  | inl e ↦ rw e refl
  | inr e ↦ rw e (ap (λ ps. q ∷ ps) (insert_last p pin rows h))
]

sort_last :
    (pin : UserNodePin) (rows : List UserNodePin)
    → All (λ p. pin_before p pin ≡ true) rows
    → sort_by pin_before (rows ++ (pin ∷ [])) ≡ sort_by pin_before rows ++ (pin ∷ [])
sort_last pin [] h = refl
sort_last pin (p ∷ rows) h =
    ap (insert_by pin_before p) (sort_last pin rows h.1)
    ∙ insert_last p pin (sort_by pin_before rows) h.0

latest_last :
    (d : List (ℕ × List ℕ)) (pin : UserNodePin) (rows : List UserNodePin)
    → lookup pin.host_id (latest_from d (rows ++ (pin ∷ []))) ≡ some pin.node_ids
latest_last d pin [] =
    lookup-insert pin.host_id pin.host_id pin.node_ids d ∙ rw (==_refl pin.host_id) refl
latest_last d pin (p ∷ rows) = latest_last (insert p.host_id p.node_ids d) pin rows

filter-append_last :
    (q : UserNodePin → Bool) (pin : UserNodePin) (rows : List UserNodePin)
    → filter q (rows ++ (pin ∷ [])) ≡ filter q rows ++ (if q pin then pin ∷ [] else [])
filter-append_last q pin [] = refl
filter-append_last q pin (p ∷ rows) = ground (arith, filter-append_last q pin rows)

-- Every pin was made no later than `pin` and has a smaller id.
abbrev pub IsYoungest : UserNodePin → List UserNodePin → Type 0
IsYoungest pin = All (λ p. p.created_at ≤ pin.created_at × p.id < pin.id)

older :
    (selects : UserNodePin → Bool) (pin : UserNodePin) (rows : List UserNodePin)
    → IsYoungest pin rows
    → All (λ p. pin_before p pin ≡ true) (filter (of_host pin.host_id) (filter selects rows))
older selects pin [] h = tt
older selects pin (p ∷ rows) h = elim (Bool-cases (selects p)) [
  | inl e ↦ rw e (elim (Bool-cases (p.host_id == pin.host_id)) [
    | inl same ↦ rw same (ground (arith, h.0), older selects pin rows h.1)
    | inr other ↦ rw other (older selects pin rows h.1)
  ])
  | inr e ↦ rw e (older selects pin rows h.1)
]

module _ (rows : List UserNodePin) (pin : UserNodePin) (selects : UserNodePin → Bool) where
  appended :
      (q : UserNodePin → Bool) (ps : List UserNodePin)
      → q pin ≡ true
      → filter q (ps ++ (pin ∷ [])) ≡ filter q ps ++ (pin ∷ [])
  appended q ps e = filter-append_last q pin ps ∙ rw e refl

  passed_over :
      (q : UserNodePin → Bool) (ps : List UserNodePin)
      → q pin ≡ false
      → filter q (ps ++ (pin ∷ [])) ≡ filter q ps
  passed_over q ps e = filter-append_last q pin ps ∙ rw e (append_nil (filter q ps))
    where
      append_nil : (xs : List UserNodePin) → xs ++ [] ≡ xs
      append_nil [] = refl
      append_nil (x ∷ xs) = ap (λ ys. x ∷ ys) (append_nil xs)

  abbrev of_rows : ℕ → List UserNodePin → Option (List ℕ)
  of_rows host ps = lookup host (latest_from [] (sort_by pin_before (filter (of_host host) ps)))

  latest-created :
      selects pin ≡ true
      → IsYoungest pin rows
      → lookup pin.host_id (latest selects (rows ++ (pin ∷ []))) ≡ some pin.node_ids
  latest-created s h =
      let mine = filter (of_host pin.host_id) (filter selects rows) in
      let own : filter (of_host pin.host_id) (filter selects rows ++ (pin ∷ []))
          ≡ mine ++ (pin ∷ []) =
        appended (of_host pin.host_id) (filter selects rows) (==_refl pin.host_id) in
      lookup-latest pin.host_id selects (rows ++ (pin ∷ []))
      ∙ ap (of_rows pin.host_id) (appended selects rows s)
      ∙ ap (λ ps. lookup pin.host_id (latest_from [] (sort_by pin_before ps))) own
      ∙ ap (λ ps. lookup pin.host_id (latest_from [] ps))
          (sort_last pin mine (older selects pin rows h))
      ∙ latest_last [] pin (sort_by pin_before mine)

  latest-unselected :
      (host : ℕ)
      → selects pin ≡ false
      → lookup host (latest selects (rows ++ (pin ∷ []))) ≡ lookup host (latest selects rows)
  latest-unselected host s =
      ap (λ ps. lookup host (latest_from [] (sort_by pin_before ps))) (passed_over selects rows s)

  latest-other_host :
      (host : ℕ)
      → selects pin ≡ true
      → (pin.host_id == host) ≡ false
      → lookup host (latest selects (rows ++ (pin ∷ []))) ≡ lookup host (latest selects rows)
  latest-other_host host s other =
      lookup-latest host selects (rows ++ (pin ∷ []))
      ∙ ap (of_rows host) (appended selects rows s)
      ∙ ap (λ ps. lookup host (latest_from [] (sort_by pin_before ps)))
          (passed_over (of_host host) (filter selects rows) other)
      ∙ sym (lookup-latest host selects rows)

-- A new pin, made no earlier than those there are, is the one that holds for its user and host until it
-- expires; it changes no other host and no other user.
pub create_user_node_pin_lem :
    (rows : List UserNodePin) (pin : UserNodePin) (uid host now : ℕ)
    → IsYoungest pin rows
    → lookup host (get_active_pins (create_user_node_pin rows pin) uid now) ≡ (
        if is_pinned_now uid host now pin
        then some pin.node_ids
        else lookup host (get_active_pins rows uid now))
unfolding create_user_node_pin get_active_pins
create_user_node_pin_lem rows pin uid host now h =
    let selects = is_active_pin uid now in
    elim (Bool-cases (selects pin)) [
      | inr e ↦ latest-unselected rows pin selects host e ∙ ground (arith, e)
      | inl e ↦ elim (Bool-cases (pin.host_id == host)) [
        | inr other ↦ latest-other_host rows pin selects host e other ∙ ground (arith, e, other)
        | inl same ↦
            let eq : pin.host_id ≡ host = ground arith in
            subst (λ i. lookup i (latest selects (rows ++ (pin ∷ []))) ≡ some pin.node_ids) eq
              (latest-created rows pin selects e h)
            ∙ ground (arith, e, same)
      ]
    ]
