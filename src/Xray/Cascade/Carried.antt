-- ===== src/Xray/Cascade/Carried.antt =====
-- The cascade of an entry node carries every route: its entry inbound has a rule to the route's outbound,
-- or to a balancer that selects among outbounds of which it is one.
use vpn_panel.Prelude.{
  get_or, &&_split, subst, String, ◌≡◌, refl, ap, inl, inr, Bool, true, false, ◌&&◌, ◌||◌, some,
  List, [], ◌∷◌, ◌++◌, arith, str_eq, ltb, if◌then◌else◌, Bool-cases, length, any, any-append, All,
  All-implied,
}
use vpn_panel.Prelude.Names.{text_in, text_in-append, str_eq_refl, str_eq→≡}
use vpn_panel.Xray.{Rule, Balancer, XrayConfig}
use vpn_panel.Xray.TagGraph.{same_tag}
use vpn_panel.Xray.Cascade.{
  Route, out_tag, Routing, build_routing_rule, build_balancer, build_balancer_rule,
  cascade_balancer_tag, single_rule, selector_of, add_group, add_groups, group_routes, with_entry,
  cascade_config, entry, CascadeClient,
}
use vpn_panel.Xray.Cascade.Groups.{
  OwnEntries, group_routes-OwnEntries, is_grouped, group_routes-is_grouped,
}

-- a rule sends the entry inbound's traffic to the tag, itself or by a balancer
unfoldable pub carries_by : List Balancer → String → String → Rule → Bool
unfolding same_tag text_in
carries_by balancers entry_tag tag rule =
    text_in entry_tag (get_or rule.inbound_tag [])
    && (same_tag rule.outbound_tag (some tag)
        || any (λ b. same_tag b.tag rule.balancer_tag && text_in tag b.selector) balancers)

unfoldable pub carries : List Rule → List Balancer → String → String → Bool
unfolding carries_by
carries rules balancers entry_tag tag = any (carries_by balancers entry_tag tag) rules

module _ (entry_tag tag : String) where
  carries_by-more :
      (balancers more : List Balancer) (rule : Rule)
      → carries_by balancers entry_tag tag rule ≡ true
      → carries_by (balancers ++ more) entry_tag tag rule ≡ true
  unfolding carries_by
  carries_by-more balancers more rule h = ground (
    arith,
    h,
    any-append (λ b. same_tag b.tag rule.balancer_tag && text_in tag b.selector) balancers more,
  )

  any-carries_by :
      (balancers more : List Balancer) (rules : List Rule)
      → any (carries_by balancers entry_tag tag) rules ≡ true
      → any (carries_by (balancers ++ more) entry_tag tag) rules ≡ true
  any-carries_by balancers more [] h = h
  any-carries_by balancers more (rule ∷ rules) h =
      ground (arith, h, carries_by-more balancers more rule, any-carries_by balancers more rules)

  -- What is carried stays carried when rules and balancers are added.
  carries-more :
      (rules new_rules : List Rule) (balancers more : List Balancer)
      → carries rules balancers entry_tag tag ≡ true
      → carries (rules ++ new_rules) (balancers ++ more) entry_tag tag ≡ true
  unfolding carries
  carries-more rules new_rules balancers more h = ground (
    arith,
    any-carries_by balancers more rules h,
    any-append (carries_by (balancers ++ more) entry_tag tag) rules new_rules,
  )

  carries-last :
      (rules new_rules : List Rule) (balancers : List Balancer)
      → carries new_rules balancers entry_tag tag ≡ true
      → carries (rules ++ new_rules) balancers entry_tag tag ≡ true
  unfolding carries
  carries-last rules new_rules balancers h =
      ground (arith, h, any-append (carries_by balancers entry_tag tag) rules new_rules)

-- The selector has the tags it begins with and those of the group.
selector_of-keeps :
    (tag : String) (selector : List String) (group : List Route)
    → text_in tag selector ≡ true
    → text_in tag (selector_of selector group) ≡ true
unfolding selector_of
selector_of-keeps tag selector [] h = h
selector_of-keeps tag selector (route ∷ group) h =
    elim (Bool-cases (text_in (out_tag route) selector)) [
      | inl old ↦ rw old (selector_of-keeps tag selector group h)
      | inr new ↦ rw new (
          selector_of-keeps tag (selector ++ (out_tag route ∷ [])) group
            (ground (arith, h, text_in-append tag selector (out_tag route ∷ []))))
    ]

selector_of-has :
    (tag : String) (selector : List String) (group : List Route)
    → any (λ r. str_eq (out_tag r) tag) group ≡ true
    → text_in tag (selector_of selector group) ≡ true
unfolding selector_of text_in
selector_of-has tag selector [] h = ground (arith, h)
selector_of-has tag selector (route ∷ group) h = elim (Bool-cases (str_eq (out_tag route) tag)) [
  | inl same ↦ elim (Bool-cases (text_in (out_tag route) selector)) [
    | inl old ↦ rw old (
        selector_of-keeps tag selector group
          (subst (λ t. text_in t selector ≡ true) (str_eq→≡ (out_tag route) tag same) old))
    | inr new ↦ rw new (
        selector_of-keeps tag (selector ++ (out_tag route ∷ [])) group
          (ground (arith, same, text_in-append tag selector (out_tag route ∷ []))))
  ]
  | inr other ↦
      selector_of-has tag
        (if text_in (out_tag route) selector then selector else selector ++ (out_tag route ∷ []))
        group (ground (arith, h, other))
]

selector_of-head :
    (first : String) (rest : List String) (group : List Route)
    → (others : List String) × (selector_of (first ∷ rest) group ≡ first ∷ others)
unfolding selector_of
selector_of-head first rest [] = (rest, refl)
selector_of-head first rest (route ∷ group) =
    elim (Bool-cases (text_in (out_tag route) (first ∷ rest))) [
      | inl old ↦ rw old (selector_of-head first rest group)
      | inr new ↦ rw new (selector_of-head first (rest ++ (out_tag route ∷ [])) group)
    ]

selector_of-first :
    (route : Route) (group : List Route)
    → (others : List String) × (selector_of [] (route ∷ group) ≡ out_tag route ∷ others)
unfolding selector_of text_in
selector_of-first route group = selector_of-head (out_tag route) [] group

one_element :
    (first tag : String) (rest : List String)
    → ltb 1 (length (first ∷ rest)) ≡ false
    → text_in tag (first ∷ rest) ≡ true
    → str_eq first tag ≡ true
unfolding text_in
one_element first tag [] short h = ground (arith, h)
one_element first tag (second ∷ rest) short h = ground (arith, short)

-- A group with one outbound for all its routes is carried by the rule of the first.
single_rule-carries :
    (balancers : List Balancer) (entry_tag name tag : String) (group : List Route)
    → All (λ r. str_eq r.entry_inbound_tag name ≡ true) group
    → str_eq name entry_tag ≡ true
    → ltb 1 (length (selector_of [] group)) ≡ false
    → any (λ r. str_eq (out_tag r) tag) group ≡ true
    → carries (single_rule group) balancers entry_tag tag ≡ true
unfolding carries carries_by single_rule build_routing_rule same_tag text_in
single_rule-carries balancers entry_tag name tag [] own here short h = ground (arith, h)
single_rule-carries balancers entry_tag name tag (route ∷ group) own here short h =
    let first = selector_of-first route group in
    let chosen : str_eq (out_tag route) tag ≡ true =
      one_element (out_tag route) tag first.0 (subst (λ s. ltb 1 (length s) ≡ false) first.1 short)
        (subst (λ s. text_in tag s ≡ true) first.1 (selector_of-has tag [] (route ∷ group) h)) in
    rw (str_eq→≡ route.entry_inbound_tag name own.0, here, chosen) refl

-- A group with several outbounds is carried by its balancer.
balancer-carries :
    (balancers : List Balancer) (entry_tag name tag strategy : String) (group : List Route)
    → str_eq name entry_tag ≡ true
    → any (λ r. str_eq (out_tag r) tag) group ≡ true
    → carries
        (build_balancer_rule name (cascade_balancer_tag name) ∷ [])
        (balancers
          ++ (build_balancer (cascade_balancer_tag name) (selector_of [] group) strategy ∷ []))
        entry_tag
        tag
      ≡ true
unfolding carries carries_by build_balancer_rule build_balancer same_tag text_in
balancer-carries balancers entry_tag name tag strategy group here h = ground (
  arith,
  here,
  any-append (λ b. same_tag b.tag (some (cascade_balancer_tag name)) && text_in tag b.selector)
      balancers (build_balancer (cascade_balancer_tag name) (selector_of [] group) strategy ∷ []),
  str_eq_refl (cascade_balancer_tag name),
  selector_of-has tag [] group h,
)

-- the loop's state carries the tag
abbrev is_carried : Routing → String → String → Bool
is_carried routing entry_tag tag = carries routing.rules routing.balancers entry_tag tag

add_group-is_carried :
    (strategy entry_tag name tag : String) (group : List Route) (routing : Routing)
    → All (λ r. str_eq r.entry_inbound_tag name ≡ true) group
    → str_eq name entry_tag ≡ true
    → any (λ r. str_eq (out_tag r) tag) group ≡ true
    → is_carried (add_group strategy (name, group) routing) entry_tag tag ≡ true
unfolding add_group
add_group-is_carried strategy entry_tag name tag group routing own here h =
    elim (Bool-cases (ltb 1 (length (selector_of [] group)))) [
      | inl several ↦ rw several (
          carries-last entry_tag tag routing.rules _ _
            (balancer-carries routing.balancers entry_tag name tag strategy group here h))
      | inr single ↦ rw single (
          carries-last entry_tag tag routing.rules (single_rule group) routing.balancers
            (single_rule-carries routing.balancers entry_tag name tag group own here single h))
    ]

append-nil : {A : Type 0} (xs : List A) → xs ++ [] ≡ xs
append-nil [] = refl
append-nil (x ∷ xs) = ap (λ ys. x ∷ ys) (append-nil xs)

add_group-keeps :
    (strategy entry_tag tag : String) (group : String × List Route) (routing : Routing)
    → is_carried routing entry_tag tag ≡ true
    → is_carried (add_group strategy group routing) entry_tag tag ≡ true
unfolding add_group
add_group-keeps strategy entry_tag tag (name, group) routing h =
    elim (Bool-cases (ltb 1 (length (selector_of [] group)))) [
      | inl several ↦ rw several (carries-more entry_tag tag routing.rules _ routing.balancers _ h)
      | inr single ↦ rw single (
          subst (λ bs. carries (routing.rules ++ single_rule group) bs entry_tag tag ≡ true)
            (append-nil routing.balancers)
            (carries-more entry_tag tag routing.rules (single_rule group) routing.balancers [] h))
    ]

add_groups-keeps :
    (strategy entry_tag tag : String) (groups : List (String × List Route)) (routing : Routing)
    → is_carried routing entry_tag tag ≡ true
    → is_carried (add_groups strategy groups routing) entry_tag tag ≡ true
unfolding add_groups
add_groups-keeps strategy entry_tag tag [] routing h = h
add_groups-keeps strategy entry_tag tag (group ∷ groups) routing h =
    add_groups-keeps strategy entry_tag tag groups (add_group strategy group routing)
      (add_group-keeps strategy entry_tag tag group routing h)

add_groups-is_carried :
    (strategy entry_tag tag : String) (groups : List (String × List Route)) (routing : Routing)
    → OwnEntries groups
    → is_grouped entry_tag tag groups ≡ true
    → is_carried (add_groups strategy groups routing) entry_tag tag ≡ true
unfolding add_groups is_grouped
add_groups-is_carried strategy entry_tag tag [] routing own h = ground (arith, h)
add_groups-is_carried strategy entry_tag tag ((name, group) ∷ groups) routing own h =
    elim (Bool-cases (str_eq name entry_tag && any (λ r. str_eq (out_tag r) tag) group)) [
      | inl here ↦
          let both =
            &&_split (str_eq name entry_tag) (any (λ r. str_eq (out_tag r) tag) group) here in
          add_groups-keeps strategy entry_tag tag groups (add_group strategy (name, group) routing)
            (add_group-is_carried strategy entry_tag name tag group routing own.0 both.0 both.1)
      | inr elsewhere ↦
          add_groups-is_carried strategy entry_tag tag groups
            (add_group strategy (name, group) routing) own.1 (ground (arith, h, elsewhere))
    ]

-- On an entry node every route is carried: the configuration has a rule for the route's entry inbound
-- that leads to the route's outbound, or to a balancer whose selector names it.
pub cascade_config-carries :
    (base : XrayConfig) (clients : List CascadeClient) (routes : List Route) (strategy : String)
    → let config = cascade_config base entry clients routes strategy in
      All (λ r. carries config.rules config.balancers r.entry_inbound_tag (out_tag r) ≡ true) routes
unfolding cascade_config with_entry
cascade_config-carries base clients [] strategy = tt
cascade_config-carries base clients (route ∷ routes) strategy =
    All-implied
      (λ r.
        add_groups-is_carried strategy r.entry_inbound_tag (out_tag r)
          (group_routes [] (route ∷ routes))
          (record { rules = base.rules; balancers = base.balancers; has_balancer = false })
          (group_routes-OwnEntries [] (route ∷ routes) tt))
      (route ∷ routes) (group_routes-is_grouped [] (route ∷ routes))
