-- ===== src/Examples/Injection.antt =====
-- Runs of the choice of injected hosts and of the composition of their connections.
use vpn_panel.Prelude.{
  ◌+◌, ◌*◌, ℕ, String, ◌≡◌, refl, ◌≤◌, inl, inr, Bool, true, false, ◌||◌, Option, none, some, List,
  [], ◌∷◌, All, length, ◌==◌, contains,
}
use vpn_panel.Prelude.Text.{strip, truthy_text}
use vpn_panel.Prelude.Names.{names_of, AreDistinct, text_in, get_named}
use vpn_panel.Xray.Injection.{
  done, InjectionGroup, HostInjection, ids, all, Recipient, CatalogHost, is_candidate, select_by,
  select_injected_hosts,
}
use vpn_panel.Xray.Injection.Compose.{
  Candidate, compose_endpoints, compose_all, add_own, add_groups, add_hosts, add_item, add_source,
  add_available, add_endpoints, add_endpoint, tag_for, counted, is_refused, with_endpoint, numbered,
  set_count,
}
use vpn_panel.Xray.Injection.Compose.Composed.{compose_endpoints-tags}

abbrev host : ℕ → CatalogHost
host n = record {
  id = n;
  remark = some "Server";
  group_tag = some "eu";
  is_disabled = false;
  is_hidden = false;
  is_bs = false;
  order = none;
}

abbrev recipient : Recipient
recipient = record { id = some 9; group_tag = some "eu" }

abbrev group : InjectionGroup
group = record {
  selector = ids (4 ∷ 9 ∷ 3 ∷ []);
  select_from = all;
  tag_prefix = some "proxy";
  use_host_remark_as_tag = false;
  use_host_tag_as_tag = false;
}

abbrev catalogue : List CatalogHost
catalogue = host 3 ∷ host 4 ∷ host 9 ∷ []

-- the clock and the patterns are not asked here
abbrev silent : String → String → Option Bool
silent text value = none

abbrev in_time : ℕ → Bool
in_time n = false

abbrev IsListed : CatalogHost → Type 0
IsListed h = contains h.id (3 ∷ 4 ∷ 9 ∷ []) ≡ true

selected_test :
    select_injected_hosts silent in_time group recipient catalogue ≡ done (host 4 ∷ host 3 ∷ [])
unfolding select_injected_hosts select_by is_candidate
selected_test = refl

abbrev candidate : ℕ → Bool → Candidate ℕ
candidate n blocked = record {
  host = host n;
  blocked = blocked;
  endpoints = (n * 10) ∷ (n * 10 + 1) ∷ [];
  injection = none;
}

abbrev candidates : List (Candidate ℕ)
candidates = candidate 3 true ∷ candidate 4 false ∷ []

abbrev own : Candidate ℕ
own = candidate 9 false

abbrev injection : HostInjection
injection = record {
  enabled = true;
  inject_hosts = group ∷ [];
  add_virtual_host_as_outbound = true;
}

abbrev composed : List (String × ℕ) × (Bool × Bool)
composed = (("proxy", 90) ∷ ("proxy-2", 91) ∷ ("proxy-3", 40) ∷ ("proxy-4", 41) ∷ [], (false, true))

composed_test :
    compose_endpoints silent (λ n. in_time) recipient candidates injection own ≡ done composed
unfolding compose_endpoints compose_all add_own add_groups add_hosts add_item add_source
    add_available add_endpoints add_endpoint tag_for counted is_refused with_endpoint numbered
    set_count select_injected_hosts select_by is_candidate text_in get_named strip
    vpn_panel.Addresses.Texts.show_ℕ
composed_test = refl

abbrev IsFree : ℕ → Type 0
IsFree e = (e == 30 || e == 31) ≡ false

compose_endpoints-tags_example :
    AreDistinct (names_of composed.0)
    × (length composed.0 ≤ 512)
    × All (λ e. truthy_text (some (strip e.0)) ≡ true) composed.0
    × All (λ e. (e.1 == 30 || e.1 == 31) ≡ false) composed.0
compose_endpoints-tags_example =
    compose_endpoints-tags IsFree silent (λ n. in_time) recipient candidates
      (inl refl, (inr (refl, (refl, tt)), tt)) injection own composed (inr (refl, (refl, tt)))
      composed_test
