-- ===== src/Xray/TagGraph/Laws.antt =====
-- When the check of a composed document passes, and what the document keeps when it grows.
use vpn_panel.Prelude.{
  ◌≤◌, String, ◌≡◌, refl, ◌↔◌, inl, inr, Bool, true, false, Option, none, some, List, [], ◌∷◌, map,
  arith, ◌==◌, Bool-cases, Option-cases, length, All,
}
use vpn_panel.Xray.{Outbound, Rule, Balancer, XrayConfig}
use vpn_panel.Xray.TagGraph.{
  tags_of, tag_in, tag_set, resolves, ◌then_check◌, require, check_each, finds_balancer,
  selects_some, check_rule, check_balancer, check_outbound, validate_composed_tag_graph,
  InjectionError,
}

-- no two balancers have the same tag
abbrev pub TagsDiffer : List (Option String) → Type 0
TagsDiffer [] = Unit
TagsDiffer (tag ∷ tags) = (tag_in tag tags ≡ false) × TagsDiffer tags

abbrev pub RuleResolves : List String → List (Option String) → Rule → Type 0
RuleResolves tags balancer_tags rule =
    (resolves tags rule.outbound_tag ≡ true) × (finds_balancer balancer_tags rule ≡ true)

abbrev pub BalancerResolves : List String → Balancer → Type 0
BalancerResolves tags balancer =
    (resolves tags balancer.fallback_tag ≡ true) × (selects_some balancer.selector tags ≡ true)

abbrev pub OutboundResolves : List String → Outbound → Type 0
OutboundResolves tags outbound =
    (resolves tags outbound.proxy_tag ≡ true) × (resolves tags outbound.dialer_proxy ≡ true)

-- every reference of the document leads somewhere, and no two balancers share a tag
unfoldable pub IsClosedGraph : XrayConfig → Type 0
IsClosedGraph config =
    TagsDiffer (map (λ b. b.tag) config.balancers)
    × All (RuleResolves (tags_of config.outbounds) (map (λ b. b.tag) config.balancers)) config.rules
    × All (BalancerResolves (tags_of config.outbounds)) config.balancers
    × All (OutboundResolves (tags_of config.outbounds)) config.outbounds

length-tag_set-le : (tags : List (Option String)) → length (tag_set tags) ≤ length tags
unfolding tag_set
length-tag_set-le [] = omega arith
length-tag_set-le (tag ∷ tags) = ground (arith, length-tag_set-le tags)

length-tag_set_iff :
    (tags : List (Option String))
    → ((length tags == length (tag_set tags)) ≡ true) ↔ TagsDiffer tags
unfolding tag_set
length-tag_set_iff [] = ((λ h. tt), λ h. refl)
length-tag_set_iff (tag ∷ tags) = (
  (λ h. elim (Bool-cases (tag_in tag tags)) [
    | inl seen ↦ ground (arith, seen, h, length-tag_set-le tags)
    | inr new ↦ (new, (length-tag_set_iff tags).0 (ground (arith, new, h)))
  ]),
  λ h. ground (arith, h.0, (length-tag_set_iff tags).1 h.1),
)

module _ {ℓ κ} {A : Type ℓ} (check : A → Option InjectionError) (Good : A → Type κ)
    (decides : (x : A) → (check x ≡ none) ↔ Good x) where
  check_each_iff : (xs : List A) → (check_each check xs ≡ none) ↔ All Good xs
  check_each_iff [] = ((λ h. tt), λ h. refl)
  check_each_iff (x ∷ xs) = (
    (λ h. elim (Option-cases (check x)) [
      | inl fine ↦ ((decides x).0 fine, (check_each_iff xs).0 (ground (arith, fine, h)))
      | inr raised ↦ ground (arith, raised.1, h)
    ]),
    λ h. ground (arith, (decides x).1 h.0, (check_each_iff xs).1 h.1),
  )

two_checks_iff :
    (a b : Bool) (e f : InjectionError)
    → ((require a e then_check require b f) ≡ none) ↔ ((a ≡ true) × (b ≡ true))
two_checks_iff true true e f = ground arith
two_checks_iff true false e f = ground arith
two_checks_iff false b e f = ground arith

then_check-none :
    (first later : Option InjectionError)
    → (first then_check later) ≡ none
    → (first ≡ none) × (later ≡ none)
then_check-none none later h = (refl, h)
then_check-none (some raised) later h = ground (arith, h)

check_rule_iff :
    (tags : List String) (balancer_tags : List (Option String)) (rule : Rule)
    → (check_rule tags balancer_tags rule ≡ none) ↔ RuleResolves tags balancer_tags rule
unfolding check_rule
check_rule_iff tags balancer_tags rule = two_checks_iff _ _ _ _

check_balancer_iff :
    (tags : List String) (balancer : Balancer)
    → (check_balancer tags balancer ≡ none) ↔ BalancerResolves tags balancer
unfolding check_balancer
check_balancer_iff tags balancer = two_checks_iff _ _ _ _

check_outbound_iff :
    (tags : List String) (outbound : Outbound)
    → (check_outbound tags outbound ≡ none) ↔ OutboundResolves tags outbound
unfolding check_outbound
check_outbound_iff tags outbound = two_checks_iff _ _ _ _

require-none : (holds : Bool) (e : InjectionError) → require holds e ≡ none → holds ≡ true
require-none true e h = refl
require-none false e h = ground (arith, h)

-- The check returns exactly for a document in which every outbound tag that a rule, a balancer or an
-- outbound names is the tag of an outbound, every balancer that a rule names is there, every balancer
-- selects an outbound, and no two balancers share a tag.
pub validate_composed_tag_graph_lem :
    (config : XrayConfig) → (validate_composed_tag_graph config ≡ none) ↔ IsClosedGraph config
unfolding validate_composed_tag_graph IsClosedGraph
validate_composed_tag_graph_lem config =
    let tags = tags_of config.outbounds in
    let balancer_tags = map (λ b. b.tag) config.balancers in
    let rules =
      check_each_iff (check_rule tags balancer_tags) _ (check_rule_iff tags balancer_tags)
        config.rules in
    let balancers =
      check_each_iff (check_balancer tags) _ (check_balancer_iff tags) config.balancers in
    let outbounds =
      check_each_iff (check_outbound tags) _ (check_outbound_iff tags) config.outbounds in
    (
      (λ h.
          let first = then_check-none _ _ h in
          let second = then_check-none _ _ first.1 in
          let third = then_check-none _ _ second.1 in
          (
            (length-tag_set_iff balancer_tags).0 (require-none _ _ first.0),
            rules.0 second.0,
            balancers.0 third.0,
            outbounds.0 third.1,
          )),
      λ h.
          rw
            (
              (length-tag_set_iff balancer_tags).1 h.0,
              rules.1 h.1,
              balancers.1 h.2,
              outbounds.1 h.3,
            )
            refl,
    )
