-- ===== src/Xray/Cascade/Groups.antt =====
-- The groups of routes by entry inbound.
use vpn_panel.Prelude.{
  String, ◌≡◌, refl, ◌∙◌, inl, inr, Bool, true, ◌&&◌, List, [], ◌∷◌, arith, str_eq, Bool-cases, any,
  any-append, All, All-append,
}
use vpn_panel.Prelude.Names.{
  append_to, names_of, AreDistinct, append_to-AreDistinct, str_eq_refl, str_eq_sym,
}
use vpn_panel.Xray.Cascade.{Route, out_tag, group_routes}

module _ (NameFits : String → Type 0) (RouteFits : Route → Type 0) where
  append_to-All :
      (route : Route) (groups : List (String × List Route))
      → NameFits route.entry_inbound_tag
      → RouteFits route
      → All (λ group. NameFits group.0 × All RouteFits group.1) groups
      → All
          (λ group. NameFits group.0 × All RouteFits group.1)
          (append_to route.entry_inbound_tag route groups)
  unfolding append_to
  append_to-All route [] fits good h = ((fits, (good, tt)), tt)
  append_to-All route ((name, group) ∷ groups) fits good h =
      elim (Bool-cases (str_eq name route.entry_inbound_tag)) [
        | inl same ↦
            rw same ((h.0.0, All-append RouteFits group (route ∷ []) h.0.1 (good, tt)), h.1)
        | inr other ↦ rw other (h.0, append_to-All route groups fits good h.1)
      ]

  -- What holds of every route and of its entry inbound holds of the groups.
  pub group_routes-All :
      (groups : List (String × List Route)) (routes : List Route)
      → All (λ route. NameFits route.entry_inbound_tag × RouteFits route) routes
      → All (λ group. NameFits group.0 × All RouteFits group.1) groups
      → All (λ group. NameFits group.0 × All RouteFits group.1) (group_routes groups routes)
  unfolding group_routes
  group_routes-All groups [] fits h = h
  group_routes-All groups (route ∷ routes) fits h =
      group_routes-All (append_to route.entry_inbound_tag route groups) routes fits.1
        (append_to-All route groups fits.0.0 fits.0.1 h)

-- Every entry inbound has one group.
pub group_routes-AreDistinct :
    (groups : List (String × List Route)) (routes : List Route)
    → AreDistinct (names_of groups)
    → AreDistinct (names_of (group_routes groups routes))
unfolding group_routes
group_routes-AreDistinct groups [] once = once
group_routes-AreDistinct groups (route ∷ routes) once =
    group_routes-AreDistinct (append_to route.entry_inbound_tag route groups) routes
      (append_to-AreDistinct route.entry_inbound_tag route groups once)

-- the groups hold a route of this entry inbound with this outbound
unfoldable pub is_grouped : String → String → List (String × List Route) → Bool
is_grouped entry tag groups =
    any (λ group. str_eq group.0 entry && any (λ r. str_eq (out_tag r) tag) group.1) groups

-- A route is in its group once it is put there.
is_grouped-new :
    (route : Route) (groups : List (String × List Route))
    → is_grouped route.entry_inbound_tag
        (out_tag route)
        (append_to route.entry_inbound_tag route groups)
      ≡ true
unfolding is_grouped append_to
is_grouped-new route [] = rw (str_eq_refl route.entry_inbound_tag, str_eq_refl (out_tag route)) refl
is_grouped-new route ((name, group) ∷ groups) =
    elim (Bool-cases (str_eq name route.entry_inbound_tag)) [
      | inl same ↦ rw same (
          ground (
            arith,
            same,
            any-append (λ r. str_eq (out_tag r) (out_tag route)) group (route ∷ []),
            str_eq_refl (out_tag route),
          ))
      | inr other ↦ rw other (ground (arith, other, is_grouped-new route groups))
    ]

-- A route in its group stays there when another is put into its own.
is_grouped-kept :
    (entry tag : String) (route : Route) (groups : List (String × List Route))
    → is_grouped entry tag groups ≡ true
    → is_grouped entry tag (append_to route.entry_inbound_tag route groups) ≡ true
unfolding is_grouped append_to
is_grouped-kept entry tag route [] h = ground (arith, h)
is_grouped-kept entry tag route ((name, group) ∷ groups) h =
    elim (Bool-cases (str_eq name route.entry_inbound_tag)) [
      | inl same ↦
          rw same (ground (arith, h, any-append (λ r. str_eq (out_tag r) tag) group (route ∷ [])))
      | inr other ↦ rw other (ground (arith, h, is_grouped-kept entry tag route groups))
    ]

is_grouped-later :
    (entry tag : String) (groups : List (String × List Route)) (routes : List Route)
    → is_grouped entry tag groups ≡ true
    → is_grouped entry tag (group_routes groups routes) ≡ true
unfolding group_routes
is_grouped-later entry tag groups [] h = h
is_grouped-later entry tag groups (route ∷ routes) h =
    is_grouped-later entry tag (append_to route.entry_inbound_tag route groups) routes
      (is_grouped-kept entry tag route groups h)

-- Every route is in the group of its entry inbound.
pub group_routes-is_grouped :
    (groups : List (String × List Route)) (routes : List Route)
    → All
        (λ route.
          is_grouped route.entry_inbound_tag (out_tag route) (group_routes groups routes) ≡ true)
        routes
unfolding group_routes
group_routes-is_grouped groups [] = tt
group_routes-is_grouped groups (route ∷ routes) = (
  is_grouped-later route.entry_inbound_tag (out_tag route)
      (append_to route.entry_inbound_tag route groups) routes (is_grouped-new route groups),
  group_routes-is_grouped (append_to route.entry_inbound_tag route groups) routes,
)

-- every route of a group has the group's entry inbound
abbrev pub OwnEntries : List (String × List Route) → Type 0
OwnEntries = All (λ group. All (λ r. str_eq r.entry_inbound_tag group.0 ≡ true) group.1)

append_to-OwnEntries :
    (route : Route) (groups : List (String × List Route))
    → OwnEntries groups
    → OwnEntries (append_to route.entry_inbound_tag route groups)
unfolding append_to
append_to-OwnEntries route [] h = ((str_eq_refl route.entry_inbound_tag, tt), tt)
append_to-OwnEntries route ((name, group) ∷ groups) h =
    elim (Bool-cases (str_eq name route.entry_inbound_tag)) [
      | inl same ↦ rw same (
        All-append (λ r. str_eq r.entry_inbound_tag name ≡ true) group (route ∷ []) h.0
            (str_eq_sym route.entry_inbound_tag name ∙ same, tt),
        h.1,
      )
      | inr other ↦ rw other (h.0, append_to-OwnEntries route groups h.1)
    ]

pub group_routes-OwnEntries :
    (groups : List (String × List Route)) (routes : List Route)
    → OwnEntries groups
    → OwnEntries (group_routes groups routes)
unfolding group_routes
group_routes-OwnEntries groups [] h = h
group_routes-OwnEntries groups (route ∷ routes) h =
    group_routes-OwnEntries (append_to route.entry_inbound_tag route groups) routes
      (append_to-OwnEntries route groups h)
