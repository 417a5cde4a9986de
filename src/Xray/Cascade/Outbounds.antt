-- ===== src/Xray/Cascade/Outbounds.antt =====
-- The outbounds of the routes: every route finds its own by the tag.
use vpn_panel.Prelude.{
  subst, String, ◌≡◌, refl, sym, inl, inr, true, false, some, List, [], ◌∷◌, ◌++◌, arith,
  Bool-cases, All, All-implied,
}
use vpn_panel.Prelude.Text.{truthy_text}
use vpn_panel.Prelude.Names.{text_in, text_in-append, str_eq_refl, truthy_text-append}
use vpn_panel.Xray.{Outbound}
use vpn_panel.Xray.TagGraph.{tags_of, resolves}
use vpn_panel.Xray.TagGraph.Laws.{OutboundResolves}
use vpn_panel.Xray.Cascade.{
  Route, out_tag, cascade_outbound_tag, build_cascade_outbound, add_outbounds,
}

outbound-OutboundResolves :
    (tags : List String) (route : Route) → OutboundResolves tags (build_cascade_outbound route)
unfolding build_cascade_outbound resolves
outbound-OutboundResolves tags route = (refl, refl)

-- The new outbounds name no other outbound.
pub add_outbounds-OutboundResolves :
    (tags seen : List String) (routes : List Route)
    → All (OutboundResolves tags) (add_outbounds seen routes)
unfolding add_outbounds
add_outbounds-OutboundResolves tags seen [] = tt
add_outbounds-OutboundResolves tags seen (route ∷ routes) =
    elim (Bool-cases (text_in (out_tag route) seen)) [
      | inl old ↦ rw old (add_outbounds-OutboundResolves tags seen routes)
      | inr new ↦ rw new (
        outbound-OutboundResolves tags route,
        add_outbounds-OutboundResolves tags (out_tag route ∷ seen) routes,
      )
    ]

pub out_tag-truthy : (route : Route) → truthy_text (some (out_tag route)) ≡ true
unfolding cascade_outbound_tag
out_tag-truthy route = truthy_text-append "CASCADE_OUT_" _ refl

tags_of-cascade :
    (route : Route) (outbounds : List Outbound)
    → tags_of (build_cascade_outbound route ∷ outbounds) ≡ out_tag route ∷ tags_of outbounds
unfolding tags_of build_cascade_outbound
tags_of-cascade route outbounds = rw (out_tag-truthy route) refl

-- The tags already seen and the tags of the new outbounds together.
abbrev known_after : List String → List Route → List String
known_after seen routes = seen ++ tags_of (add_outbounds seen routes)

-- A tag that is seen stays known.
seen-known :
    (tag : String) (seen : List String) (routes : List Route)
    → text_in tag seen ≡ true
    → text_in tag (known_after seen routes) ≡ true
seen-known tag seen routes h =
    ground (arith, h, text_in-append tag seen (tags_of (add_outbounds seen routes)))

-- A route's tag that goes from the new outbounds to those seen stays known.
known-step :
    (tag : String) (route : Route) (seen : List String) (routes : List Route)
    → text_in (out_tag route) seen ≡ false
    → text_in tag (known_after (out_tag route ∷ seen) routes) ≡ true
    → text_in tag (known_after seen (route ∷ routes)) ≡ true
unfolding text_in add_outbounds
known-step tag route seen routes new h =
    rw (new, tags_of-cascade route (add_outbounds (out_tag route ∷ seen) routes))
      (ground (
        arith,
        h,
        text_in-append tag seen (tags_of (add_outbounds (out_tag route ∷ seen) routes)),
        text_in-append tag seen
            (out_tag route ∷ tags_of (add_outbounds (out_tag route ∷ seen) routes)),
      ))

known_old :
    (route : Route) (seen : List String) (routes : List Route)
    → text_in (out_tag route) seen ≡ true
    → known_after seen (route ∷ routes) ≡ known_after seen routes
unfolding add_outbounds
known_old route seen routes old = rw old refl

text_in-head : (tag : String) (tags : List String) → text_in tag (tag ∷ tags) ≡ true
unfolding text_in
text_in-head tag tags = rw (str_eq_refl tag) refl

-- The tag of every route is that of an outbound seen before or of a new one.
pub add_outbounds-known :
    (seen : List String) (routes : List Route)
    → All
        (λ route. text_in (out_tag route) (seen ++ tags_of (add_outbounds seen routes)) ≡ true)
        routes
add_outbounds-known seen [] = tt
add_outbounds-known seen (route ∷ routes) = elim (Bool-cases (text_in (out_tag route) seen)) [
  | inl old ↦ (
    seen-known (out_tag route) seen (route ∷ routes) old,
    All-implied
        (λ r.
          subst (λ tags. text_in (out_tag r) tags ≡ true) (sym (known_old route seen routes old)))
        routes (add_outbounds-known seen routes),
  )
  | inr new ↦ (
    known-step (out_tag route) route seen routes new (
        seen-known (out_tag route) (out_tag route ∷ seen) routes
          (text_in-head (out_tag route) seen)),
    All-implied (λ r. known-step (out_tag r) route seen routes new) routes
        (add_outbounds-known (out_tag route ∷ seen) routes),
  )
]
