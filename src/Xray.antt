-- ===== src/Xray.antt =====
-- The configuration document of an xray core, as far as the panel's own code reads and writes it
-- (app/xray/config.py: XRayConfig is a dict). A key that may be absent is an Option; what the code
-- carries along unread is `other`.
pub mod Inbounds
pub mod TagGraph
pub mod Cascade
pub mod Injection
pub mod HostBalancer
pub mod ClientConfigs
use vpn_panel.Prelude.{ℕ, String, Option, List, Bool}

-- a client of an inbound: the keys `id`, `flow`, `email`
pub record Client : Type 0 where
  pub id : Option String
  pub flow : Option String
  pub email : Option String

-- the key `settings` of an inbound: its key `clients`, and the keys that nothing here reads
pub record InboundSettings : Type 0 where
  pub clients : Option (List Client)
  pub other : List (String × String)

pub record Inbound : Type 0 where
  pub tag : String
  pub settings : Option InboundSettings
  pub other : List (String × String)

-- what build_cascade_outbound writes beside the tag
pub record RealityLink : Type 0 where
  pub protocol : String
  pub address : String
  pub port : ℕ
  pub user_id : String
  pub encryption : String
  pub flow : String
  pub network : String
  pub security : String
  pub show : Bool
  pub fingerprint : String
  pub server_name : String
  pub public_key : String
  pub short_id : String

pub data OutboundBody : Type 0 where
  other_body : List (String × String) → OutboundBody
  reality_link : RealityLink → OutboundBody

-- `proxy_tag` is proxySettings.tag, `dialer_proxy` is streamSettings.sockopt.dialerProxy
pub record Outbound : Type 0 where
  pub tag : Option String
  pub proxy_tag : Option String
  pub dialer_proxy : Option String
  pub body : OutboundBody

pub record Rule : Type 0 where
  pub kind : String
  pub inbound_tag : Option (List String)
  pub outbound_tag : Option String
  pub balancer_tag : Option String
  pub other : List (String × String)

pub record Balancer : Type 0 where
  pub tag : Option String
  pub selector : List String
  pub strategy : String
  pub strategy_settings : Option String
  pub fallback_tag : Option String

pub record Observatory : Type 0 where
  pub subject_selector : List String
  pub probe_url : String
  pub probe_interval : String
  pub enable_concurrency : Option Bool

pub record BurstObservatory : Type 0 where
  pub subject_selector : List String
  pub destination : String
  pub interval : String
  pub connectivity : String
  pub timeout : String
  pub sampling : ℕ

-- `routing` with its keys `rules` and `balancers`, absent keys as empty lists, as `.get(…, [])` reads them
pub record XrayConfig : Type 0 where
  pub inbounds : List Inbound
  pub outbounds : List Outbound
  pub rules : List Rule
  pub balancers : List Balancer
  pub observatory : Option Observatory
  pub burst_observatory : Option BurstObservatory
  pub other : List (String × String)
