-- ===== src/Examples/Documents.antt =====
-- Runs of the balancing of a host and of the removal of blocked clients.
use vpn_panel.Prelude.{
  ℕ, String, ◌≡◌, refl, arith, true, false, none, some, List, [], ◌∷◌, Pairs, get_or, ◌≤◌, map, not,
}
use vpn_panel.Addresses.Texts.{show_ℕ}
use vpn_panel.Xray.{XrayConfig}
use vpn_panel.Xray.Cascade.{clients_of}
use vpn_panel.Xray.Inbounds.{strip_blocked_clients}
use vpn_panel.Xray.Inbounds.Laws.{email_of, ServesUsers, unblocked, strip_blocked_clients_lem}
use vpn_panel.Xray.HostBalancer.{proxy_tag, Probe, Balancing, managed_rules, apply_host_balancer}
use vpn_panel.Xray.HostBalancer.Laws.{IsManaged, apply_host_balancer_lem}
use vpn_panel.Prelude.Text.{truthy_text}
use vpn_panel.Xray.ClientConfigs.{Json, not_rendered, lookups, select_config, parse_json_object}
use vpn_panel.Xray.ClientConfigs.Laws.{document_of, lookups_lem}
use vpn_panel.Examples.Xray.{base}

abbrev probe : Probe
probe = record {
  url = "https://example.com";
  interval = "10s";
  enable_concurrency = true;
  timeout = "3s";
  sampling = 2;
  connectivity = "";
}

abbrev by_load : Balancing
by_load = record { strategy = "leastLoad"; settings = none; probe = none }

apply_host_balancer_lem_example :
    (after : XrayConfig) × (apply_host_balancer base
        (some (record by_load { probe = some probe }))
        (some ("proxy" ∷ "proxy-1" ∷ []))
      ≡ some after)
    × IsManaged (get_or (some ("proxy" ∷ "proxy-1" ∷ [])) (proxy_tag ∷ [])) after
    × (managed_rules false after.rules ≡ after.rules)
apply_host_balancer_lem_example =
    apply_host_balancer_lem base by_load probe (some ("proxy" ∷ "proxy-1" ∷ []))

abbrev served : List (List (ℕ × (String × String)))
served = ((7, ("alice", "u-7")) ∷ []) ∷ []

email_test : email_of 7 "alice" ≡ "7.alice"
unfolding show_ℕ
email_test = refl

served_test : Pairs ServesUsers served base.inbounds
unfolding clients_of show_ℕ
served_test = (refl, tt)

strip_blocked_clients_lem_example :
    Pairs
      (λ users. ServesUsers (unblocked (77 ∷ 7 ∷ []) users))
      served
      (strip_blocked_clients base (77 ∷ 7 ∷ [])).inbounds
strip_blocked_clients_lem_example =
    strip_blocked_clients_lem base (77 ∷ 7 ∷ []) served (omega arith, (omega arith, tt))
      ((omega arith, tt), tt) served_test

-- documents as texts
abbrev texts : Json String
texts = record {
  object_of = λ raw. some raw;
  is_blank = λ raw. not (truthy_text (some raw));
  empty = "{}";
  closed = "npvpn";
}

abbrev stored : List (ℕ × String)
stored = (1, "one") ∷ []

lookups_lem_example :
    ((lookups texts stored none (some "file") (some 2 ∷ some 1 ∷ none ∷ []) not_rendered).0
      ≡ map (document_of texts stored none (some "file")) (some 2 ∷ some 1 ∷ none ∷ []))
    × ((lookups texts stored none
          (some "file")
          (some 2 ∷ some 1 ∷ none ∷ [])
          not_rendered).1.renders
        ≤ 1)
lookups_lem_example = lookups_lem texts stored none (some "file") (some 2 ∷ some 1 ∷ none ∷ [])

documents_test :
    map (document_of texts stored none (some "file")) (some 2 ∷ some 1 ∷ none ∷ [])
    ≡ "file" ∷ "one" ∷ "file" ∷ []
unfolding select_config parse_json_object
documents_test = refl
