-- ===== src/Xray/HostBalancer/Laws.antt =====
-- What the managed balancing of a host makes of a document's rules.
use vpn_panel.Prelude.{
  subst, String, ◌≡◌, refl, sym, ap, ◌∙◌, inl, inr, Bool, true, false, ◌&&◌, ◌||◌, not, Option,
  some, List, [], ◌∷◌, map, arith, str_eq, if◌then◌else◌, Bool-cases, get_or, length, filter, All,
}
use vpn_panel.Prelude.Text.{truthy_text}
use vpn_panel.Xray.{Rule, XrayConfig}
use vpn_panel.Xray.TagGraph.{same_tag}
use vpn_panel.Xray.HostBalancer.{
  proxy_tag, balancer_tag, catch_all_rule, is_catch_all, Balancing, Probe, redirect, managed_rules,
  managed, observed, with_probe, apply_host_balancer,
}

-- The rule goes neither to the proxy itself nor to another balancer.
unfoldable pub is_managed : Rule → Bool
unfolding same_tag
is_managed rule =
    not (same_tag rule.outbound_tag (some proxy_tag))
    && (not (truthy_text rule.balancer_tag) || same_tag rule.balancer_tag (some balancer_tag))

is_managed-redirect : (rule : Rule) → is_managed (redirect rule) ≡ true
unfolding is_managed redirect same_tag
is_managed-redirect rule =
    elim (Bool-cases
      (truthy_text rule.balancer_tag || same_tag rule.outbound_tag (some proxy_tag))) [
        | inl sent ↦ rw sent refl
        | inr other ↦ rw other (ground (arith, other))
      ]

is_managed-catch_all : is_managed catch_all_rule ≡ true
unfolding is_managed catch_all_rule same_tag
is_managed-catch_all = refl

redirect-again : (rule : Rule) → redirect (redirect rule) ≡ redirect rule
unfolding redirect
redirect-again rule =
    elim (Bool-cases
      (truthy_text rule.balancer_tag || same_tag rule.outbound_tag (some proxy_tag))) [
        | inl sent ↦ rw sent refl
        | inr other ↦ rw other (rw other refl)
      ]

managed_rules-is_managed :
    (has : Bool) (rules : List Rule) → All (λ r. is_managed r ≡ true) (managed_rules has rules)
unfolding managed_rules
managed_rules-is_managed true [] = tt
managed_rules-is_managed false [] = (is_managed-catch_all, tt)
managed_rules-is_managed has (rule ∷ rules) =
    let rest = managed_rules-is_managed (has || is_catch_all (redirect rule)) rules in
    elim (Bool-cases (is_catch_all (redirect rule) && has)) [
      | inl again ↦ rw again rest
      | inr kept ↦ rw kept (is_managed-redirect rule, rest)
    ]

-- Exactly one rule takes all the traffic that is left.
catch_alls-managed_rules :
    (has : Bool) (rules : List Rule)
    → length (filter is_catch_all (managed_rules has rules)) ≡ (if has then 0 else 1)
unfolding managed_rules
catch_alls-managed_rules true [] = refl
catch_alls-managed_rules false [] = refl
catch_alls-managed_rules has (rule ∷ rules) =
    ground (arith, catch_alls-managed_rules (has || is_catch_all (redirect rule)) rules)

managed_rules-again :
    (has : Bool) (rules : List Rule)
    → managed_rules has (managed_rules has rules) ≡ managed_rules has rules
unfolding managed_rules
managed_rules-again true [] = refl
managed_rules-again false [] = refl
managed_rules-again true (rule ∷ rules) = elim (Bool-cases (is_catch_all (redirect rule))) [
  | inl catch ↦ rw catch (managed_rules-again true rules)
  | inr narrow ↦ rw narrow (
      rw (redirect-again rule, narrow)
        (ap (λ l. redirect rule ∷ l) (managed_rules-again true rules)))
]
managed_rules-again false (rule ∷ rules) = elim (Bool-cases (is_catch_all (redirect rule))) [
  | inl catch ↦ rw catch (
      rw (redirect-again rule, catch)
        (ap (λ l. redirect rule ∷ l) (managed_rules-again true rules)))
  | inr narrow ↦ rw narrow (
      rw (redirect-again rule, narrow)
        (ap (λ l. redirect rule ∷ l) (managed_rules-again false rules)))
]

-- what the managed mode leaves in a document
abbrev pub IsManaged : List String → XrayConfig → Type 0
IsManaged selectors config =
    (map {B = Option String × List String} (λ b. (b.tag, b.selector)) config.balancers
      ≡ (some balancer_tag, selectors) ∷ [])
    × All (λ r. is_managed r ≡ true) config.rules
    × (length (filter is_catch_all config.rules) ≡ 1)

observed-same :
    (balancing : Balancing) (probe : Probe) (selectors : List String) (config : XrayConfig)
    → ((observed balancing probe selectors config).rules ≡ config.rules)
      × ((observed balancing probe selectors config).balancers ≡ config.balancers)
unfolding observed
observed-same balancing probe selectors config =
    elim (Bool-cases (str_eq balancing.strategy "leastPing")) [
      | inl ping ↦ rw ping (refl, refl)
      | inr other ↦ elim (Bool-cases (str_eq balancing.strategy "leastLoad")) [
        | inl load ↦ rw (other, load) (refl, refl)
        | inr plain ↦ rw (other, plain) (refl, refl)
      ]
    ]

managed-IsManaged :
    (config : XrayConfig) (balancing : Balancing) (selectors : List String)
    → IsManaged selectors (managed config balancing selectors)
managed-IsManaged config balancing selectors =
    (refl, managed_rules-is_managed false config.rules, catch_alls-managed_rules false config.rules)

-- With a strategy of the host and its probe the document comes back with one balancer, over the participants
-- or the tag `proxy`; no rule goes to the proxy itself or to another balancer; exactly one rule takes all
-- the traffic that is left; and managing the rules once more changes nothing.
pub apply_host_balancer_lem :
    (config : XrayConfig) (balancing : Balancing) (probe : Probe)
    (participants : Option (List String))
    → let set = record balancing { probe = some probe } in
      (after : XrayConfig) × (apply_host_balancer config (some set) participants ≡ some after)
      × IsManaged (get_or participants (proxy_tag ∷ [])) after
      × (managed_rules false after.rules ≡ after.rules)
unfolding apply_host_balancer with_probe
apply_host_balancer_lem config balancing probe participants =
    let set = record balancing { probe = some probe } in
    let selectors = get_or participants (proxy_tag ∷ []) in
    let built = managed config set selectors in
    let same = observed-same set probe selectors built in
    (
      observed set probe selectors built,
      refl,
      (
        ap (map {B = Option String × List String} (λ b. (b.tag, b.selector))) same.1,
        subst (λ rs. All (λ r. is_managed r ≡ true) rs) (sym same.0)
            (managed-IsManaged config set selectors).1,
        ap (λ rs. length (filter is_catch_all rs)) same.0
            ∙ (managed-IsManaged config set selectors).2,
      ),
      subst (λ rs. managed_rules false rs ≡ rs) (sym same.0)
          (managed_rules-again false config.rules),
    )
