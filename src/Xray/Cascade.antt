-- ===== src/Xray/Cascade.antt =====
-- app/xray/cascade_config.py: the part of a node's configuration that chains an entry node to exit nodes.
-- On the exit node a service client is written into inbounds of the catalogue; on the entry node each
-- route gets an outbound, and each entry inbound a rule to its outbound or to a balancer over several.
pub mod Outbounds
pub mod Groups
pub mod Closed
pub mod Carried
pub mod Exit
use Prim.Native.String.{◌++◌ as text_append}
use vpn_panel.Prelude.{
  ℕ, String, Bool, true, false, ◌&&◌, ◌||◌, not, Option, none, some, List, [], ◌∷◌, ◌++◌, map, any,
  str_eq, get_or, if◌then◌else◌, length, ltb,
}
use vpn_panel.Prelude.Text.{or_text}
use vpn_panel.Prelude.Names.{text_in, get_named, set_default, append_to}
use vpn_panel.Addresses.Texts.{show_ℕ}
use vpn_panel.Xray.{
  Client, InboundSettings, Inbound, RealityLink, other_body, reality_link, Outbound, Rule, Balancer,
  Observatory, BurstObservatory, XrayConfig,
}

abbrev pub cascade_client_flow : String
cascade_client_flow = "xtls-rprx-vision"

-- one element of entry_routes
pub record Route : Type 0 where
  pub exit_node_id : ℕ
  pub cascade_inbound_tag : String
  pub entry_inbound_tag : String
  pub address : String
  pub port : ℕ
  pub uuid : String
  pub sni : String
  pub public_key : String
  pub short_id : String
  pub fingerprint : Option String

-- one element of cascade_clients
pub record CascadeClient : Type 0 where
  pub inbound_tag : String
  pub uuid : String

pub data Role : Type 0 where
  exit entry direct : Role

unfoldable pub cascade_outbound_tag : ℕ → String → String
cascade_outbound_tag exit_node_id cascade_inbound_tag =
    text_append "CASCADE_OUT_"
      (text_append (show_ℕ exit_node_id) (text_append "_" cascade_inbound_tag))

abbrev pub out_tag : Route → String
out_tag route = cascade_outbound_tag route.exit_node_id route.cascade_inbound_tag

-- c.get("id") == uuid
unfoldable pub has_id : String → Client → Bool
has_id uuid client = elim client.id [ none ↦ false | some id ↦ str_eq id uuid ]

-- (inbound.get("settings") or {}).get("clients") or []
unfoldable pub clients_of : Inbound → List Client
clients_of inbound = elim inbound.settings [
  | none ↦ []
  | some settings ↦ get_or settings.clients []
]

abbrev pub service_client : String → Client
service_client uuid = record { id = some uuid; flow = some cascade_client_flow; email = none }

unfoldable pub with_client : String → List Client → List Client
unfolding has_id
with_client uuid clients =
    if any (has_id uuid) clients then clients else clients ++ (service_client uuid ∷ [])

unfoldable pub inject_cascade_client : Inbound → String → Inbound
unfolding clients_of with_client
inject_cascade_client inbound uuid = record inbound {
  settings = some (record {
    clients = some (with_client uuid (clients_of inbound));
    other = elim inbound.settings [ none ↦ [] | some settings ↦ settings.other ];
  });
}

-- the loop `uuid_by_tag.setdefault(c["inbound_tag"], c["uuid"])`
unfoldable pub uuid_by_tag : List (String × String) → List CascadeClient → List (String × String)
uuid_by_tag known [] = known
uuid_by_tag known (c ∷ cs) = uuid_by_tag (set_default c.inbound_tag c.uuid known) cs

unfoldable pub inject_into : List (String × String) → Inbound → Inbound
unfolding inject_cascade_client
inject_into known inbound = elim (get_named inbound.tag known) [
  | none ↦ inbound
  | some uuid ↦ inject_cascade_client inbound uuid
]

unfoldable pub build_cascade_outbound : Route → Outbound
unfolding cascade_outbound_tag
build_cascade_outbound route = record {
  tag = some (out_tag route);
  proxy_tag = none;
  dialer_proxy = none;
  body = reality_link (record {
    protocol = "vless";
    address = route.address;
    port = route.port;
    user_id = route.uuid;
    encryption = "none";
    flow = cascade_client_flow;
    network = "tcp";
    security = "reality";
    show = false;
    fingerprint = get_or (or_text route.fingerprint (some "chrome")) "";
    server_name = route.sni;
    public_key = route.public_key;
    short_id = route.short_id;
  });
}

unfoldable pub build_routing_rule : Route → Rule
unfolding cascade_outbound_tag
build_routing_rule route = record {
  kind = "field";
  inbound_tag = some (route.entry_inbound_tag ∷ []);
  outbound_tag = some (out_tag route);
  balancer_tag = none;
  other = [];
}

unfoldable pub cascade_balancer_tag : String → String
cascade_balancer_tag entry_inbound_tag = text_append "CASCADE_BAL_" entry_inbound_tag

unfoldable pub build_balancer : String → List String → String → Balancer
build_balancer balancer_tag selector strategy = record {
  tag = some balancer_tag;
  selector = selector;
  strategy =
      if text_in strategy ("random" ∷ "roundRobin" ∷ "leastPing" ∷ "leastLoad" ∷ [])
      then strategy
      else "random";
  strategy_settings = none;
  fallback_tag = none;
}

unfoldable pub build_balancer_rule : String → String → Rule
build_balancer_rule entry_inbound_tag balancer_tag = record {
  kind = "field";
  inbound_tag = some (entry_inbound_tag ∷ []);
  outbound_tag = none;
  balancer_tag = some balancer_tag;
  other = [];
}

abbrev pub probe_url : String
probe_url = "https://www.google.com/generate_204"

unfoldable pub build_observatory : Observatory
build_observatory = record {
  subject_selector = "CASCADE_OUT_" ∷ [];
  probe_url = probe_url;
  probe_interval = "10s";
  enable_concurrency = none;
}

unfoldable pub build_burst_observatory : BurstObservatory
build_burst_observatory = record {
  subject_selector = "CASCADE_OUT_" ∷ [];
  destination = probe_url;
  interval = "10s";
  connectivity = "";
  timeout = "3s";
  sampling = 3;
}

-- the loop that adds an outbound for each tag not seen before
unfoldable pub add_outbounds : List String → List Route → List Outbound
unfolding build_cascade_outbound
add_outbounds seen [] = []
add_outbounds seen (route ∷ routes) =
    (if text_in (out_tag route) seen then [] else build_cascade_outbound route ∷ [])
    ++ add_outbounds (if text_in (out_tag route) seen then seen else out_tag route ∷ seen) routes

-- the loop `groups.setdefault(route["entry_inbound_tag"], []).append(route)`
unfoldable pub group_routes : List (String × List Route) → List Route → List (String × List Route)
group_routes groups [] = groups
group_routes groups (route ∷ routes) =
    group_routes (append_to route.entry_inbound_tag route groups) routes

-- the tags of a group, each once, in their order
unfoldable pub selector_of : List String → List Route → List String
unfolding cascade_outbound_tag
selector_of selector [] = selector
selector_of selector (route ∷ routes) =
    selector_of
      (if text_in (out_tag route) selector then selector else selector ++ (out_tag route ∷ []))
      routes

-- what the loop over the groups changes
pub record Routing : Type 0 where
  pub rules : List Rule
  pub balancers : List Balancer
  pub has_balancer : Bool

-- group[0]: no group is empty
unfoldable pub single_rule : List Route → List Rule
unfolding build_routing_rule
single_rule [] = []
single_rule (route ∷ routes) = build_routing_rule route ∷ []

unfoldable pub add_group : String → String × List Route → Routing → Routing
unfolding selector_of build_balancer build_balancer_rule cascade_balancer_tag single_rule
add_group strategy (entry_tag, group) routing =
    if ltb 1 (length (selector_of [] group))
    then record {
      rules =
          routing.rules ++ (build_balancer_rule entry_tag (cascade_balancer_tag entry_tag) ∷ []);
      balancers =
          routing.balancers
          ++ (build_balancer (cascade_balancer_tag entry_tag) (selector_of [] group) strategy ∷ []);
      has_balancer = true;
    }
    else record routing { rules = routing.rules ++ single_rule group }

unfoldable pub add_groups : String → List (String × List Route) → Routing → Routing
unfolding add_group
add_groups strategy [] routing = routing
add_groups strategy (group ∷ groups) routing =
    add_groups strategy groups (add_group strategy group routing)

unfoldable pub with_exit : XrayConfig → List CascadeClient → XrayConfig
unfolding uuid_by_tag inject_into
with_exit base cascade_clients =
    let known = uuid_by_tag [] cascade_clients in
    record base { inbounds = map (inject_into known) base.inbounds }

unfoldable pub with_entry : XrayConfig → List Route → String → XrayConfig
unfolding add_outbounds group_routes add_groups build_observatory build_burst_observatory
with_entry base entry_routes strategy =
    let routing =
      add_groups strategy (group_routes [] entry_routes)
        (record { rules = base.rules; balancers = base.balancers; has_balancer = false }) in
    record base {
      outbounds = base.outbounds ++ add_outbounds [] entry_routes;
      rules = routing.rules;
      balancers = routing.balancers;
      observatory =
          if routing.has_balancer && str_eq strategy "leastPing"
          then some build_observatory
          else base.observatory;
      burst_observatory =
          if routing.has_balancer && str_eq strategy "leastLoad"
          then some build_burst_observatory
          else base.burst_observatory;
    }

unfoldable pub cascade_config :
    XrayConfig → Role → List CascadeClient → List Route → String → XrayConfig
unfolding with_exit with_entry
cascade_config base exit [] entry_routes strategy = base
cascade_config base exit (c ∷ cs) entry_routes strategy = with_exit base (c ∷ cs)
cascade_config base entry cascade_clients [] strategy = base
cascade_config base entry cascade_clients (r ∷ rs) strategy = with_entry base (r ∷ rs) strategy
cascade_config base direct cascade_clients entry_routes strategy = base
