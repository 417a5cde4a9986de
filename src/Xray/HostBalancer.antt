-- ===== src/Xray/HostBalancer.antt =====
-- app/xray/host_balancer.py: the balancer in the client document of a host with several addresses. The
-- keys `network`, `ruleTag` and the like of a rule are among `other`.
pub mod Laws
use Prim.Native.String.{◌++◌ as text_append}
use vpn_panel.Prelude.{
  ℕ, ◌+◌, String, Bool, true, false, ◌&&◌, ◌||◌, not, Option, none, some, List, [], ◌∷◌, ◌++◌,
  str_eq, get_or, length, any, is_some, ltb, ◌==◌, if◌then◌else◌,
}
use vpn_panel.Prelude.Text.{truthy_text}
use vpn_panel.Prelude.Names.{text_in, get_named}
use vpn_panel.Addresses.Texts.{show_ℕ}
use vpn_panel.Xray.{Rule, Balancer, Observatory, BurstObservatory, XrayConfig}
use vpn_panel.Xray.TagGraph.{same_tag}

abbrev pub proxy_tag : String
proxy_tag = "proxy"

abbrev pub balancer_tag : String
balancer_tag = "proxy-balancer"

unfoldable pub proxy_outbound_tag : ℕ → String
proxy_outbound_tag index = if index == 0 then proxy_tag else text_append "proxy-" (show_ℕ index)

unfoldable pub default_balancer : Balancer
default_balancer = record {
  tag = some balancer_tag;
  selector = proxy_tag ∷ [];
  strategy = "leastPing";
  strategy_settings = none;
  fallback_tag = none;
}

unfoldable pub catch_all_rule : Rule
catch_all_rule = record {
  kind = "field";
  inbound_tag = none;
  outbound_tag = none;
  balancer_tag = some balancer_tag;
  other = ("network", "tcp,udp") ∷ [];
}

unfoldable pub default_observatory : Observatory
default_observatory = record {
  subject_selector = proxy_tag ∷ [];
  probe_url = "https://www.google.com/generate_204";
  probe_interval = "15s";
  enable_concurrency = none;
}

abbrev keys_among : List String → List (String × String) → Bool
keys_among names [] = true
keys_among names ((key, value) ∷ entries) = text_in key names && keys_among names entries

-- rule.get("network") in ("tcp,udp", "udp,tcp")
abbrev has_all_networks : Option String → Bool
has_all_networks none = false
has_all_networks (some network) = text_in network ("tcp,udp" ∷ "udp,tcp" ∷ [])

unfoldable pub is_catch_all : Rule → Bool
unfolding same_tag text_in get_named
is_catch_all rule =
    same_tag rule.balancer_tag (some balancer_tag)
    && has_all_networks (get_named "network" rule.other)
    && not (is_some rule.inbound_tag)
    && not (is_some rule.outbound_tag)
    && keys_among ("network" ∷ "ruleTag" ∷ []) rule.other

pub record Probe : Type 0 where
  pub url : String
  pub interval : String
  pub enable_concurrency : Bool
  pub timeout : String
  pub sampling : ℕ
  pub connectivity : String

-- the settings of a host: a strategy, its settings as their JSON text, the probe
pub record Balancing : Type 0 where
  pub strategy : String
  pub settings : Option String
  pub probe : Option Probe

-- a rule for the proxy, or for a balancer of the template, goes to the host's balancer
unfoldable pub redirect : Rule → Rule
unfolding same_tag
redirect rule =
    if truthy_text rule.balancer_tag || same_tag rule.outbound_tag (some proxy_tag)
    then record rule { outbound_tag = none; balancer_tag = some balancer_tag }
    else rule

-- the loop over the rules, with the rule that is appended where none is a catch-all
unfoldable pub managed_rules : Bool → List Rule → List Rule
unfolding redirect is_catch_all catch_all_rule
managed_rules has_catch_all [] = if has_catch_all then [] else catch_all_rule ∷ []
managed_rules has_catch_all (rule ∷ rules) =
    let rest = managed_rules (has_catch_all || is_catch_all (redirect rule)) rules in
    if is_catch_all (redirect rule) && has_catch_all then rest else redirect rule ∷ rest

-- without a setting of the host the template's balancers stay, or the default one is added
unfoldable pub with_default : XrayConfig → XrayConfig
unfolding default_balancer catch_all_rule default_observatory
with_default config = if ltb 0 (length config.balancers) then config else record config {
  balancers = default_balancer ∷ [];
  rules = config.rules ++ (catch_all_rule ∷ []);
  observatory =
      if not (is_some config.observatory) && not (is_some config.burst_observatory)
      then some default_observatory
      else config.observatory;
}

abbrev pub managed : XrayConfig → Balancing → List String → XrayConfig
managed config balancing selectors = record config {
  balancers =
      record {
        tag = some balancer_tag;
        selector = selectors;
        strategy = balancing.strategy;
        strategy_settings = balancing.settings;
        fallback_tag = none;
      }
      ∷ [];
  rules = managed_rules false config.rules;
  observatory = none;
  burst_observatory = none;
}

-- the observatories that the strategy asks for
unfoldable pub observed : Balancing → Probe → List String → XrayConfig → XrayConfig
observed balancing probe selectors config =
    if str_eq balancing.strategy "leastPing"
    then record config {
      observatory = some (record {
        subject_selector = selectors;
        probe_url = probe.url;
        probe_interval = probe.interval;
        enable_concurrency = some probe.enable_concurrency;
      });
    }
    else if str_eq balancing.strategy "leastLoad"
    then record config {
      burst_observatory = some (record {
        subject_selector = selectors;
        destination = probe.url;
        interval = probe.interval;
        connectivity = probe.connectivity;
        timeout = probe.timeout;
        sampling = probe.sampling;
      });
    }
    else config

-- `none` is the KeyError of a missing probe
unfoldable pub with_probe : Balancing → Option Probe → List String → XrayConfig → Option XrayConfig
unfolding observed
with_probe balancing none selectors config =
    if str_eq balancing.strategy "leastPing" || str_eq balancing.strategy "leastLoad"
    then none
    else some config
with_probe balancing (some probe) selectors config =
    some (observed balancing probe selectors config)

unfoldable pub apply_host_balancer :
    XrayConfig → Option Balancing → Option (List String) → Option XrayConfig
unfolding with_default managed_rules with_probe
apply_host_balancer config none participants = some (with_default config)
apply_host_balancer config (some balancing) participants =
    let selectors = get_or participants (proxy_tag ∷ []) in
    with_probe balancing balancing.probe selectors (managed config balancing selectors)
