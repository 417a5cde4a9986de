-- ===== src/Xray/Cascade/Closed.antt =====
-- The cascade of an entry node leaves a closed document closed.
use vpn_panel.Prelude.{
  String, ◌≡◌, refl, inl, inr, true, false, Option, none, some, List, [], ◌∷◌, ◌++◌, map, arith,
  str_eq, ltb, Bool-cases, length, All, All-append, All-implied, map-append,
}
use vpn_panel.Prelude.Names.{
  text_in, text_in-append, names_of, AreDistinct, str_eq_refl, str_eq_sym, str_eq-append,
}
use vpn_panel.Xray.{Balancer, XrayConfig}
use vpn_panel.Xray.TagGraph.{
  tags_of, same_tag, tag_in, resolves, finds_balancer, validate_composed_tag_graph,
}
use vpn_panel.Xray.TagGraph.Laws.{
  TagsDiffer, RuleResolves, BalancerResolves, OutboundResolves, IsClosedGraph,
  validate_composed_tag_graph_lem,
}
use vpn_panel.Xray.TagGraph.Growth.{
  tags_of-append, tag_in-append, RuleResolves-append, BalancerResolves-append,
  OutboundResolves-append, RuleResolves-more, selects-own, TagsDiffer-append,
}
use vpn_panel.Xray.Cascade.{
  Route, out_tag, Routing, build_routing_rule, build_balancer, build_balancer_rule,
  cascade_balancer_tag, single_rule, selector_of, add_group, add_groups, group_routes,
  add_outbounds, with_entry, cascade_config, entry, CascadeClient,
}
use vpn_panel.Xray.Cascade.Outbounds.{
  add_outbounds-OutboundResolves, add_outbounds-known, out_tag-truthy,
}
use vpn_panel.Xray.Cascade.Groups.{group_routes-All, group_routes-AreDistinct}

abbrev pub balancer_tags : List Balancer → List (Option String)
balancer_tags = map (λ b. b.tag)

same_tag_sym : (s t : Option String) → same_tag s t ≡ same_tag t s
unfolding same_tag
same_tag_sym none none = refl
same_tag_sym none (some t) = refl
same_tag_sym (some s) none = refl
same_tag_sym (some s) (some t) = str_eq_sym s t

-- what the loop over the groups keeps
abbrev IsClosedRouting : List String → Routing → Type 0
IsClosedRouting tags routing =
    TagsDiffer (balancer_tags routing.balancers)
    × All (RuleResolves tags (balancer_tags routing.balancers)) routing.rules
    × All (BalancerResolves tags) routing.balancers

-- no balancer has the tag of the balancer of this entry inbound
abbrev IsNewEntry : List Balancer → String → Type 0
IsNewEntry balancers name =
    tag_in (some (cascade_balancer_tag name)) (balancer_tags balancers) ≡ false

module _ (tags : List String) where
  HasOutbound : Route → Type 0
  HasOutbound route = text_in (out_tag route) tags ≡ true

  selector-resolves :
      (selector : List String) (group : List Route)
      → All (λ tag. text_in tag tags ≡ true) selector
      → All (λ r. text_in (out_tag r) tags ≡ true) group
      → All (λ tag. text_in tag tags ≡ true) (selector_of selector group)
  unfolding selector_of
  selector-resolves selector [] known h = known
  selector-resolves selector (route ∷ group) known h =
      elim (Bool-cases (text_in (out_tag route) selector)) [
        | inl old ↦ rw old (selector-resolves selector group known h.1)
        | inr new ↦ rw new (
            selector-resolves (selector ++ (out_tag route ∷ [])) group
              (All-append (λ tag. text_in tag tags ≡ true) selector (out_tag route ∷ []) known
                (h.0, tt))
              h.1)
      ]

  balancer-BalancerResolves :
      (tag strategy : String) (selector : List String)
      → ltb 1 (length selector) ≡ true
      → All (λ t. text_in t tags ≡ true) selector
      → BalancerResolves tags (build_balancer tag selector strategy)
  unfolding build_balancer resolves
  balancer-BalancerResolves tag strategy [] long h = ground (arith, long)
  balancer-BalancerResolves tag strategy (t ∷ selector) long h =
      (refl, selects-own t selector tags h.0)

  single_rule-All :
      (known : List (Option String)) (group : List Route)
      → All (λ r. text_in (out_tag r) tags ≡ true) group
      → All (RuleResolves tags known) (single_rule group)
  unfolding single_rule build_routing_rule resolves finds_balancer
  single_rule-All known [] h = tt
  single_rule-All known (route ∷ group) h = ((ground (arith, h.0, out_tag-truthy route), refl), tt)

  balancer_rule-RuleResolves :
      (known : List (Option String)) (name tag : String)
      → tag_in (some tag) known ≡ true
      → RuleResolves tags known (build_balancer_rule name tag)
  unfolding build_balancer_rule resolves finds_balancer
  balancer_rule-RuleResolves known name tag h = (refl, ground (arith, h))

  tag_in-last :
      (tag : String) (known : List (Option String))
      → tag_in (some tag) (known ++ (some tag ∷ [])) ≡ true
  unfolding tag_in same_tag
  tag_in-last tag known =
      ground (arith, tag_in-append (some tag) known (some tag ∷ []), str_eq_refl tag)

  -- the loop's state after a balancer and its rule are added
  with_balancer-IsClosed :
      (name strategy : String) (selector : List String) (routing : Routing)
      → IsNewEntry routing.balancers name
      → BalancerResolves tags (build_balancer (cascade_balancer_tag name) selector strategy)
      → IsClosedRouting tags routing
      → IsClosedRouting tags (record {
        rules = routing.rules ++ (build_balancer_rule name (cascade_balancer_tag name) ∷ []);
        balancers =
            routing.balancers
            ++ (build_balancer (cascade_balancer_tag name) selector strategy ∷ []);
        has_balancer = true;
      })
  unfolding build_balancer
  with_balancer-IsClosed name strategy selector routing new good h =
      let tag = some (cascade_balancer_tag name) in
      let before = balancer_tags routing.balancers in
      rw
        (map-append (λ b. b.tag) routing.balancers
          (build_balancer (cascade_balancer_tag name) selector strategy ∷ []))
        (
          TagsDiffer-append before tag same_tag_sym h.0 new,
          All-append (RuleResolves tags (before ++ (tag ∷ []))) routing.rules _
              (All-implied (RuleResolves-more tags before (tag ∷ [])) routing.rules h.1)
              (
                balancer_rule-RuleResolves (before ++ (tag ∷ [])) name (cascade_balancer_tag name)
                    (tag_in-last (cascade_balancer_tag name) before),
                tt,
              ),
          All-append (BalancerResolves tags) routing.balancers _ h.2 (good, tt),
        )

  add_group-IsClosed :
      (strategy name : String) (group : List Route) (routing : Routing)
      → IsNewEntry routing.balancers name
      → All (λ r. text_in (out_tag r) tags ≡ true) group
      → IsClosedRouting tags routing
      → IsClosedRouting tags (add_group strategy (name, group) routing)
  unfolding add_group
  add_group-IsClosed strategy name group routing new known h =
      elim (Bool-cases (ltb 1 (length (selector_of [] group)))) [
        | inl several ↦ rw several (
            with_balancer-IsClosed name strategy (selector_of [] group) routing new
              (balancer-BalancerResolves (cascade_balancer_tag name) strategy (selector_of [] group)
                several (selector-resolves [] group tt known))
              h)
        | inr single ↦ rw single (
          h.0,
          All-append (RuleResolves tags (balancer_tags routing.balancers)) routing.rules
              (single_rule group) h.1
              (single_rule-All (balancer_tags routing.balancers) group known),
          h.2,
        )
      ]

  -- A group makes no balancer with the tag of another entry inbound's.
  add_group-IsNewEntry :
      (strategy name other : String) (group : List Route) (routing : Routing)
      → str_eq name other ≡ false
      → IsNewEntry routing.balancers other
      → IsNewEntry (add_group strategy (name, group) routing).balancers other
  unfolding add_group build_balancer tag_in same_tag cascade_balancer_tag
  add_group-IsNewEntry strategy name other group routing apart new =
      elim (Bool-cases (ltb 1 (length (selector_of [] group)))) [
        | inl several ↦
            rw
              (
                several,
                map-append (λ b. b.tag) routing.balancers
                    (build_balancer (cascade_balancer_tag name) (selector_of [] group) strategy
                      ∷ []),
              )
              (ground (
                arith,
                tag_in-append (some (cascade_balancer_tag other)) (balancer_tags routing.balancers)
                    (some (cascade_balancer_tag name) ∷ []),
                str_eq-append "CASCADE_BAL_" name other,
                apart,
                new,
              ))
        | inr single ↦ rw single new
      ]

  still_new :
      (strategy name : String) (group : List Route) (groups : List (String × List Route))
      (routing : Routing)
      → text_in name (names_of groups) ≡ false
      → All
          (λ g. IsNewEntry routing.balancers g.0 × All (λ r. text_in (out_tag r) tags ≡ true) g.1)
          groups
      → All
          (λ g.
            IsNewEntry (add_group strategy (name, group) routing).balancers g.0
            × All (λ r. text_in (out_tag r) tags ≡ true) g.1)
          groups
  unfolding text_in
  still_new strategy name group [] routing once h = tt
  still_new strategy name group ((other, routes) ∷ groups) routing once h = (
    (
      add_group-IsNewEntry strategy name other group routing
          (ground (arith, once, str_eq_sym name other)) h.0.0,
      h.0.1,
    ),
    still_new strategy name group groups routing (ground (arith, once)) h.1,
  )

  add_groups-IsClosed :
      (strategy : String) (groups : List (String × List Route)) (routing : Routing)
      → AreDistinct (names_of groups)
      → All
          (λ g. IsNewEntry routing.balancers g.0 × All (λ r. text_in (out_tag r) tags ≡ true) g.1)
          groups
      → IsClosedRouting tags routing
      → IsClosedRouting tags (add_groups strategy groups routing)
  unfolding add_groups
  add_groups-IsClosed strategy [] routing once new h = h
  add_groups-IsClosed strategy ((name, group) ∷ groups) routing once new h =
      add_groups-IsClosed strategy groups (add_group strategy (name, group) routing) once.1
        (still_new strategy name group groups routing once.0 new.1)
        (add_group-IsClosed strategy name group routing new.0.0 new.0.1 h)

-- The two facts of each route that the groups need.
both_of :
    (base : List Balancer) (tags : List String) (routes : List Route)
    → All (λ r. IsNewEntry base r.entry_inbound_tag) routes
    → All (λ r. text_in (out_tag r) tags ≡ true) routes
    → All (λ r. IsNewEntry base r.entry_inbound_tag × (text_in (out_tag r) tags ≡ true)) routes
both_of base tags [] new known = tt
both_of base tags (r ∷ routes) new known =
    ((new.0, known.0), both_of base tags routes new.1 known.1)

text_in-behind :
    (front tags : List String) (tag : String)
    → text_in tag tags ≡ true
    → text_in tag (front ++ tags) ≡ true
text_in-behind front tags tag h = ground (arith, h, text_in-append tag front tags)

pub with_entry-IsClosedGraph :
    (base : XrayConfig) (routes : List Route) (strategy : String)
    → All
        (λ r.
          tag_in (some (cascade_balancer_tag r.entry_inbound_tag)) (balancer_tags base.balancers)
          ≡ false)
        routes
    → IsClosedGraph base
    → IsClosedGraph (with_entry base routes strategy)
unfolding with_entry IsClosedGraph
with_entry-IsClosedGraph base routes strategy new h =
    let old = tags_of base.outbounds in
    let added = add_outbounds [] routes in
    let tags = old ++ tags_of added in
    let known =
      All-implied (λ r. text_in-behind old (tags_of added) (out_tag r)) routes
        (add_outbounds-known [] routes) in
    let closed =
      add_groups-IsClosed tags strategy (group_routes [] routes)
        (record { rules = base.rules; balancers = base.balancers; has_balancer = false })
        (group_routes-AreDistinct [] routes tt)
        (group_routes-All (λ name. IsNewEntry base.balancers name)
          (λ r. text_in (out_tag r) tags ≡ true) [] routes
          (both_of base.balancers tags routes new known) tt)
        (
          h.0,
          All-implied (RuleResolves-append old (tags_of added) (balancer_tags base.balancers))
              base.rules h.1,
          All-implied (BalancerResolves-append old (tags_of added)) base.balancers h.2,
        ) in
    rw (tags_of-append base.outbounds added) (
      closed.0,
      closed.1,
      closed.2,
      All-append (OutboundResolves tags) base.outbounds added
          (All-implied (OutboundResolves-append old (tags_of added)) base.outbounds h.3)
          (add_outbounds-OutboundResolves tags [] routes),
    )

-- The cascade of an entry node keeps a document in which every tag leads somewhere such a document,
-- provided that the document has no balancer of its own with the tag that the cascade gives to the
-- balancer of one of the routes' entry inbounds: the check finds nothing before and finds nothing after.
pub cascade_config-validate :
    (base : XrayConfig) (clients : List CascadeClient) (routes : List Route) (strategy : String)
    → All
        (λ r.
          tag_in (some (cascade_balancer_tag r.entry_inbound_tag)) (balancer_tags base.balancers)
          ≡ false)
        routes
    → validate_composed_tag_graph base ≡ none
    → validate_composed_tag_graph (cascade_config base entry clients routes strategy) ≡ none
unfolding cascade_config
cascade_config-validate base clients [] strategy new h = h
cascade_config-validate base clients (route ∷ routes) strategy new h =
    (validate_composed_tag_graph_lem (with_entry base (route ∷ routes) strategy)).1 (
      with_entry-IsClosedGraph base (route ∷ routes) strategy new
        ((validate_composed_tag_graph_lem base).0 h))
