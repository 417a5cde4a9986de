-- ===== src/Xray/Inbounds.antt =====
-- app/xray/inbound_filter.py, and strip_blocked_clients of app/xray/bs_limit.py: the configuration of one
-- node, cut to the inbounds it serves and to the clients it may serve.
pub mod Laws
use Prim.Native.String.{◌++◌ as text_append}
use Prim.Native.Char.{code}
use vpn_panel.Prelude.{
  ℕ, String, Bool, true, false, ◌&&◌, ◌||◌, not, Option, none, some, List, [], ◌∷◌, map, any,
  filter, get_or, ◌==◌,
}
use vpn_panel.Prelude.Names.{text_in}
use vpn_panel.Addresses.Texts.{show_ℕ}
use vpn_panel.Xray.{Client, InboundSettings, Inbound, XrayConfig}

-- inbound["tag"] not in managed or inbound["tag"] in allowed
abbrev pub is_kept : List String → List String → Inbound → Bool
is_kept managed allowed inbound = not (text_in inbound.tag managed) || text_in inbound.tag allowed

unfoldable pub filtered_inbounds : List Inbound → List String → List String → List Inbound
filtered_inbounds inbounds managed allowed = filter (is_kept managed allowed) inbounds

-- `managed` is base_config.inbounds_by_tag.keys()
unfoldable pub apply_inbound_filter : XrayConfig → List String → List String → XrayConfig
unfolding filtered_inbounds
apply_inbound_filter base_config managed [] = base_config
apply_inbound_filter base_config managed (tag ∷ tags) = record base_config {
  inbounds = filtered_inbounds base_config.inbounds managed (tag ∷ tags);
}

-- text.startswith(prefix)
unfoldable pub starts_with : String → String → Bool
starts_with String.[] text = true
starts_with (String.◌∷◌ c prefix) String.[] = false
starts_with (String.◌∷◌ c prefix) (String.◌∷◌ d text) =
    let rest = starts_with prefix text in code c == code d && rest

-- f"{uid}."
unfoldable pub email_prefix : ℕ → String
email_prefix uid = text_append (show_ℕ uid) "."

-- str(c.get("email", "")).startswith(prefixes)
unfoldable pub is_blocked_client : List ℕ → Client → Bool
unfolding starts_with email_prefix
is_blocked_client uids client =
    any (λ uid. starts_with (email_prefix uid) (get_or client.email "")) uids

-- the inbound with the clients that may be served; one without clients is passed on as it is
unfoldable pub keep_unblocked : List ℕ → Inbound → InboundSettings → Option (List Client) → Inbound
unfolding is_blocked_client
keep_unblocked uids inbound settings none = inbound
keep_unblocked uids inbound settings (some []) = inbound
keep_unblocked uids inbound settings (some (client ∷ clients)) = record inbound {
  settings = some (record settings {
    clients = some (filter (λ c. not (is_blocked_client uids c)) (client ∷ clients));
  });
}

-- the body of the loop over the inbounds
unfoldable pub strip_clients : List ℕ → Inbound → Inbound
unfolding keep_unblocked
strip_clients uids inbound = elim inbound.settings [
  | none ↦ inbound
  | some settings ↦ keep_unblocked uids inbound settings settings.clients
]

unfoldable pub strip_blocked_clients : XrayConfig → List ℕ → XrayConfig
unfolding strip_clients
strip_blocked_clients config [] = config
strip_blocked_clients config (uid ∷ uids) = record config {
  inbounds = map (strip_clients (uid ∷ uids)) config.inbounds;
}
