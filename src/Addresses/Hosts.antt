-- ===== src/Addresses/Hosts.antt =====
-- app/xray/host_addresses.py: the nodes behind a host, its addresses, and the bots whose users see it.
pub mod Laws
use vpn_panel.Prelude.{
  ℕ, zero, suc, ◌+◌, ◌-◌, ◌*◌, ◌/◌, ◌%◌, ◌^◌, ◌≤◌, ◌<◌, max, min, String, ◌≡◌, refl, sym, ap, ◌∙◌,
  ◌≢◌, ◌⊎◌, inl, inr, Bool, true, false, ◌&&◌, ◌||◌, not, Option, none, some, List, [], ◌∷◌, ◌++◌,
  map, arith, str_eq, ltb, leb, ◌==◌, if◌then◌else◌, Bool-cases, Option-cases, truthy, or_zero,
  get_or, is_some, some-injective, ==_refl, length, filter, any, All, take, drop, contains,
  contains-append, contains-filter, lookup, insert, keys, lookup-insert,
}
use Prim.Native.Char.{code}
use vpn_panel.Prelude.Sort.{sort_by}
use vpn_panel.Prelude.Text.{strip, truthy_text}

pub data NodeStatus : Type 0 where
  connected connecting error disabled : NodeStatus

pub record Node : Type 0 where
  pub id : ℕ
  pub address : String
  pub status : NodeStatus
  pub is_bs : Bool

pub record Host : Type 0 where
  -- balancer_nodes_source == "selected"
  pub selected : Bool
  pub address : Option String
  pub nodes : List Node
  pub balancer_nodes : List Node

abbrev pub is_enabled : Node → Bool
is_enabled n = elim n.status [
  | disabled ↦ false
  | connected ↦ true
  | connecting ↦ true
  | error ↦ true
]

unfoldable pub addresses_from_nodes : Host → Bool
addresses_from_nodes h = h.selected || not (truthy_text h.address)

abbrev pub by_id : Node → Node → Bool
by_id m n = leb m.id n.id

unfoldable pub visible_nodes : Host → List Node
visible_nodes h =
    if h.selected
    then sort_by by_id (filter is_enabled h.balancer_nodes)
    else if truthy_text h.address
    then h.nodes
    else filter is_enabled h.nodes

-- text.split(",")
unfoldable pub split_commas : String → List String
split_commas String.[] = "" ∷ []
split_commas (String.◌∷◌ c s) = cut (split_commas s)
  where
    cut : List String → List String
    cut [] = []
    cut (p ∷ ps) = if code c == 44 then "" ∷ p ∷ ps else String.◌∷◌ c p ∷ ps

unfoldable pub resolve_host_addresses : Host → List String
resolve_host_addresses h =
    if addresses_from_nodes h
    then map (λ n. n.address) (visible_nodes h)
    else map strip (split_commas (get_or h.address ""))

unfoldable pub resolve_host_node_ids : Host → List ℕ
resolve_host_node_ids h = map (λ n. n.id) (visible_nodes h)

unfoldable pub host_has_bs_node : Host → Bool
host_has_bs_node h = any (λ n. n.is_bs) (visible_nodes h)

-- `name in names`
abbrev pub names : String → List String → Bool
names name = any (str_eq name)

unfoldable pub host_allowed_for_bot : List String → Option String → Bool
host_allowed_for_bot bot_usernames none = false
host_allowed_for_bot bot_usernames (some bot) = truthy_text (some bot) && names bot bot_usernames
