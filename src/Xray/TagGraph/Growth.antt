-- ===== src/Xray/TagGraph/Growth.antt =====
-- References that resolve in a document resolve in one with more outbounds and balancers.
use vpn_panel.Prelude.{
  String, ◌≡◌, refl, inl, inr, true, false, ◌||◌, Option, List, [], ◌∷◌, ◌++◌, arith, str_eq,
  Bool-cases, get_or, any, any-append,
}
use vpn_panel.Prelude.Text.{truthy_text}
use vpn_panel.Prelude.Names.{text_in, text_in-append, str_eq→≡}
use vpn_panel.Xray.{Outbound, Rule, Balancer}
use vpn_panel.Xray.Inbounds.{starts_with}
use vpn_panel.Xray.TagGraph.{tags_of, same_tag, tag_in, resolves, finds_balancer, selects_some}
use vpn_panel.Xray.TagGraph.Laws.{TagsDiffer, RuleResolves, BalancerResolves, OutboundResolves}

pub tags_of-append : (xs ys : List Outbound) → tags_of (xs ++ ys) ≡ tags_of xs ++ tags_of ys
unfolding tags_of
tags_of-append [] ys = refl
tags_of-append (x ∷ xs) ys = elim (Bool-cases (truthy_text x.tag)) [
  | inl named ↦ rw (named, tags_of-append xs ys) refl
  | inr unnamed ↦ rw unnamed (tags_of-append xs ys)
]

pub tag_in-append :
    (tag : Option String) (xs ys : List (Option String))
    → tag_in tag (xs ++ ys) ≡ (tag_in tag xs || tag_in tag ys)
unfolding tag_in
tag_in-append tag [] ys = refl
tag_in-append tag (x ∷ xs) ys = ground (arith, tag_in-append tag xs ys)

pub resolves-append :
    (tags more : List String) (tag : Option String)
    → resolves tags tag ≡ true
    → resolves (tags ++ more) tag ≡ true
unfolding resolves
resolves-append tags more tag h = ground (arith, h, text_in-append (get_or tag "") tags more)

finds_balancer-append :
    (tags more : List (Option String)) (rule : Rule)
    → finds_balancer tags rule ≡ true
    → finds_balancer (tags ++ more) rule ≡ true
unfolding finds_balancer
finds_balancer-append tags more rule h =
    ground (arith, h, tag_in-append rule.balancer_tag tags more)

any-either :
    (tags more : List String) (selector : List String)
    → selects_some selector tags ≡ true
    → selects_some selector (tags ++ more) ≡ true
unfolding selects_some
any-either tags more (prefix ∷ prefixes) h =
    ground (
      arith,
      h,
      any-either tags more prefixes,
      any-append (λ tag. starts_with prefix tag) tags more,
    )
any-either tags more [] h = h

module _ (tags more : List String) where
  pub RuleResolves-append :
      (balancer_tags : List (Option String)) (rule : Rule)
      → RuleResolves tags balancer_tags rule
      → RuleResolves (tags ++ more) balancer_tags rule
  RuleResolves-append balancer_tags rule h = (resolves-append tags more rule.outbound_tag h.0, h.1)

  pub BalancerResolves-append :
      (balancer : Balancer)
      → BalancerResolves tags balancer
      → BalancerResolves (tags ++ more) balancer
  BalancerResolves-append balancer h = (
    resolves-append tags more balancer.fallback_tag h.0,
    any-either tags more balancer.selector h.1,
  )

  pub OutboundResolves-append :
      (outbound : Outbound)
      → OutboundResolves tags outbound
      → OutboundResolves (tags ++ more) outbound
  OutboundResolves-append outbound h = (
    resolves-append tags more outbound.proxy_tag h.0,
    resolves-append tags more outbound.dialer_proxy h.1,
  )

pub RuleResolves-more :
    (tags : List String) (balancer_tags more : List (Option String)) (rule : Rule)
    → RuleResolves tags balancer_tags rule
    → RuleResolves tags (balancer_tags ++ more) rule
RuleResolves-more tags balancer_tags more rule h =
    (h.0, finds_balancer-append balancer_tags more rule h.1)

pub starts_with_refl : (s : String) → starts_with s s ≡ true
unfolding starts_with
starts_with_refl String.[] = refl
starts_with_refl (String.◌∷◌ c s) = ground (arith, starts_with_refl s)

any-own :
    (t : String) (ts : List String) → text_in t ts ≡ true → any (λ u. starts_with t u) ts ≡ true
unfolding text_in
any-own t [] h = h
any-own t (u ∷ us) h = elim (Bool-cases (str_eq u t)) [
  | inl same ↦ rw (str_eq→≡ u t same, starts_with_refl t) refl
  | inr other ↦ ground (arith, any-own t us, h, other)
]

-- A selector that names a tag of the document selects an outbound.
pub selects-own :
    (tag : String) (selector tags : List String)
    → text_in tag tags ≡ true
    → selects_some (tag ∷ selector) tags ≡ true
unfolding selects_some
selects-own tag selector tags h = rw (any-own tag tags h) refl

pub TagsDiffer-append :
    (tags : List (Option String)) (tag : Option String)
    → ((s t : Option String) → same_tag s t ≡ same_tag t s)
    → TagsDiffer tags
    → tag_in tag tags ≡ false
    → TagsDiffer (tags ++ (tag ∷ []))
unfolding tag_in
TagsDiffer-append [] tag symmetric once new = (refl, tt)
TagsDiffer-append (t ∷ ts) tag symmetric once new = (
  ground (arith, tag_in-append t ts (tag ∷ []), once.0, new, symmetric t tag),
  TagsDiffer-append ts tag symmetric once.1 (ground (arith, new)),
)
