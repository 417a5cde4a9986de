-- ===== src/Xray/Cascade/Exit.antt =====
-- The cascade of an exit node: the service client is there once, and the rest is as it was.
use vpn_panel.Prelude.{String, ◌≡◌, none, some, List, [], ◌∷◌, ◌++◌, if◌then◌else◌, any}
use vpn_panel.Prelude.Names.{get_named}
use vpn_panel.Xray.{Inbound}
use vpn_panel.Xray.Cascade.{has_id, clients_of, service_client}

-- the keys of an inbound's settings but for the clients
abbrev pub other_settings : Inbound → List (String × String)
other_settings inbound = elim inbound.settings [ none ↦ [] | some settings ↦ settings.other ]

-- what an inbound of an exit node becomes: one that no cascade uses stays, another has the service client
-- behind its own clients, unless it is there, and is the same else
abbrev pub ServesCascade : List (String × String) → Inbound → Inbound → Type 0
ServesCascade known before after = elim (get_named before.tag known) [
  | none ↦ after ≡ before
  | some uuid ↦
      (after.tag ≡ before.tag)
      × (after.other ≡ before.other)
      × (other_settings after ≡ other_settings before)
      × (clients_of after
          ≡ clients_of before
            ++ (if any (has_id uuid) (clients_of before) then [] else service_client uuid ∷ []))
]
