-- ===== src/Examples/Xray.antt =====
-- Runs of the cascades and of the check of a document's tags.
use vpn_panel.Prelude.{ℕ, ◌≡◌, refl, ◌↔◌, true, false, none, some, List, [], ◌∷◌, All}
use vpn_panel.Xray.{Client, other_body, XrayConfig}
use vpn_panel.Xray.TagGraph.{
  tags_of, tag_set, tag_in, resolves, check_outbound, check_rule, finds_balancer,
  validate_composed_tag_graph,
}
use vpn_panel.Xray.TagGraph.Laws.{IsClosedGraph, validate_composed_tag_graph_lem}
use vpn_panel.Xray.Cascade.{
  Route, out_tag, CascadeClient, entry, cascade_balancer_tag, cascade_config,
}
use vpn_panel.Xray.Cascade.Closed.{balancer_tags, cascade_config-validate}
use vpn_panel.Xray.Cascade.Carried.{carries, cascade_config-carries}

abbrev to_exit : ℕ → Route
to_exit n = record {
  exit_node_id = n;
  cascade_inbound_tag = "REALITY";
  entry_inbound_tag = "ENTRY";
  address = "10.0.0.1";
  port = 443;
  uuid = "u-1";
  sni = "example.com";
  public_key = "key";
  short_id = "00";
  fingerprint = none;
}

abbrev routes : List Route
routes = to_exit 1 ∷ to_exit 2 ∷ []

abbrev own_client : Client
own_client = record { id = some "u-7"; flow = none; email = some "7.alice" }

abbrev pub base : XrayConfig
base = record {
  inbounds =
      record {
        tag = "REALITY";
        settings = some (record { clients = some (own_client ∷ []); other = [] });
        other = [];
      }
      ∷ [];
  outbounds =
      record { tag = some "DIRECT"; proxy_tag = none; dialer_proxy = none; body = other_body [] }
      ∷ [];
  rules =
      record {
        kind = "field";
        inbound_tag = some ("API" ∷ []);
        outbound_tag = some "DIRECT";
        balancer_tag = none;
        other = [];
      }
      ∷ [];
  balancers = [];
  observatory = none;
  burst_observatory = none;
  other = [];
}

valid_test : validate_composed_tag_graph base ≡ none
unfolding validate_composed_tag_graph tags_of tag_set check_rule check_outbound resolves
    finds_balancer
valid_test = refl

new_test :
    All
      (λ (r : Route).
        tag_in (some (cascade_balancer_tag r.entry_inbound_tag)) (balancer_tags base.balancers)
        ≡ false)
      routes
unfolding tag_in
new_test = (refl, (refl, tt))

cascade_config-validate_example :
    validate_composed_tag_graph (cascade_config base entry [] routes "leastPing") ≡ none
cascade_config-validate_example =
    cascade_config-validate base [] routes "leastPing" new_test valid_test

cascade_config-carries_example :
    All
      (λ (r : Route).
        carries
          (cascade_config base entry [] routes "random").rules
          (cascade_config base entry [] routes "random").balancers
          r.entry_inbound_tag
          (out_tag r)
        ≡ true)
      routes
cascade_config-carries_example = cascade_config-carries base [] routes "random"

abbrev services : List CascadeClient
services = record { inbound_tag = "REALITY"; uuid = "u-1" } ∷ []

validate_composed_tag_graph_lem_example :
    (validate_composed_tag_graph base ≡ none) ↔ IsClosedGraph base
validate_composed_tag_graph_lem_example = validate_composed_tag_graph_lem base
