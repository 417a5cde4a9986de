-- ===== src/Xray/TagGraph.antt =====
-- app/xray/host_injection.py: validate_composed_tag_graph, the check of a composed document before it is
-- handed out.
pub mod Laws
pub mod Growth
use vpn_panel.Prelude.{
  ℕ, String, Bool, true, false, ◌&&◌, ◌||◌, not, Option, none, some, List, [], ◌∷◌, map, any,
  filter, str_eq, get_or, if◌then◌else◌, length, ◌==◌,
}
use vpn_panel.Prelude.Text.{truthy_text}
use vpn_panel.Prelude.Names.{text_in}
use vpn_panel.Xray.{Outbound, Rule, Balancer, XrayConfig}
use vpn_panel.Xray.Inbounds.{starts_with}

-- the codes of InjectionError
pub data InjectionError : Type 0 where
  conflicting_directives invalid_directive selector_timeout selector_input_too_long : InjectionError
  duplicate_balancer_tag unresolved_outbound_tag unresolved_balancer_tag : InjectionError
  empty_balancer_selector outbound_tag_collision too_many_endpoints : InjectionError
  duplicate_group_prefix : InjectionError

-- {item["tag"] for item in outbounds if item.get("tag")}
unfoldable pub tags_of : List Outbound → List String
tags_of [] = []
tags_of (o ∷ os) =
    let rest = tags_of os in if truthy_text o.tag then get_or o.tag "" ∷ rest else rest

-- equality of two values `str | None`
unfoldable pub same_tag : Option String → Option String → Bool
same_tag none none = true
same_tag (some s) (some t) = str_eq s t
same_tag none (some t) = false
same_tag (some s) none = false

unfoldable pub tag_in : Option String → List (Option String) → Bool
unfolding same_tag
tag_in tag [] = false
tag_in tag (other ∷ tags) = same_tag other tag || tag_in tag tags

-- set(tags)
unfoldable pub tag_set : List (Option String) → List (Option String)
unfolding tag_in
tag_set [] = []
tag_set (tag ∷ tags) = let rest = tag_set tags in if tag_in tag tags then rest else tag ∷ rest

-- require_tag does not raise
unfoldable pub resolves : List String → Option String → Bool
unfolding text_in
resolves tags tag = not (truthy_text tag) || text_in (get_or tag "") tags

-- the checks run in their order and the first that fails raises; `none` is a return
infixr 5 ◌then_check◌
abbrev pub ◌then_check◌ : Option InjectionError → Option InjectionError → Option InjectionError
none then_check later = later
some raised then_check later = some raised

abbrev pub require : Bool → InjectionError → Option InjectionError
require holds raised = if holds then none else some raised

abbrev pub check_each {ℓ} :
    {A : Type ℓ} → (A → Option InjectionError) → List A → Option InjectionError
check_each check [] = none
check_each check (x ∷ xs) = check x then_check check_each check xs

-- not rule.get("balancerTag") or rule["balancerTag"] in balancer_tags
unfoldable pub finds_balancer : List (Option String) → Rule → Bool
unfolding tag_in
finds_balancer balancer_tags rule =
    not (truthy_text rule.balancer_tag) || tag_in rule.balancer_tag balancer_tags

-- any(tag.startswith(prefix) for prefix in selector for tag in tags)
unfoldable pub selects_some : List String → List String → Bool
unfolding starts_with
selects_some selector tags = any (λ prefix. any (λ tag. starts_with prefix tag) tags) selector

unfoldable pub check_rule : List String → List (Option String) → Rule → Option InjectionError
unfolding resolves finds_balancer
check_rule tags balancer_tags rule =
    require (resolves tags rule.outbound_tag) unresolved_outbound_tag
    then_check require (finds_balancer balancer_tags rule) unresolved_balancer_tag

unfoldable pub check_balancer : List String → Balancer → Option InjectionError
unfolding resolves selects_some
check_balancer tags balancer =
    require (resolves tags balancer.fallback_tag) unresolved_outbound_tag
    then_check require (selects_some balancer.selector tags) empty_balancer_selector

unfoldable pub check_outbound : List String → Outbound → Option InjectionError
unfolding resolves
check_outbound tags outbound =
    require (resolves tags outbound.proxy_tag) unresolved_outbound_tag
    then_check require (resolves tags outbound.dialer_proxy) unresolved_outbound_tag

unfoldable pub validate_composed_tag_graph : XrayConfig → Option InjectionError
unfolding tags_of tag_set check_rule check_balancer check_outbound
validate_composed_tag_graph config =
    let tags = tags_of config.outbounds in
    let balancer_tags = map (λ b. b.tag) config.balancers in
    require (length balancer_tags == length (tag_set balancer_tags)) duplicate_balancer_tag
    then_check check_each (check_rule tags balancer_tags) config.rules
    then_check check_each (check_balancer tags) config.balancers
    then_check check_each (check_outbound tags) config.outbounds
