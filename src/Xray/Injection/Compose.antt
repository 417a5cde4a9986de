-- ===== src/Xray/Injection/Compose.antt =====
-- compose_endpoints of app/subscription/host_candidates.py, and app/subscription/bs_context.py: the
-- connections that a recipient hands out, each under a tag of its own.

pub mod Tags
pub mod Composed
use Prim.Native.String.{◌++◌ as text_append}
use vpn_panel.Prelude.{
  ℕ, zero, suc, ◌+◌, String, Bool, true, false, ◌&&◌, ◌||◌, not, Option, none, some, List, [], ◌∷◌,
  ◌++◌, map, any, str_eq, get_or, length, contains, lookup, insert, ltb, ◌==◌, if◌then◌else◌,
  or_zero,
}
use vpn_panel.Prelude.Text.{strip, truthy_text, or_text}
use vpn_panel.Prelude.Names.{text_in, get_named}
use vpn_panel.Addresses.Texts.{show_ℕ}
use vpn_panel.Xray.TagGraph.{outbound_tag_collision, too_many_endpoints, duplicate_group_prefix}
use vpn_panel.Xray.Injection.{
  Attempt, raised, done, ◌>>=◌, InjectionGroup, HostInjection, Recipient, CatalogHost,
  select_injected_hosts,
}

-- BsContext.is_blocked: a node of the host is one where the user has used up the BS limit
unfoldable pub is_blocked : List ℕ → List ℕ → Bool
is_blocked blocked_node_ids host_node_ids = any (λ i. contains i blocked_node_ids) host_node_ids

-- MAX_ENDPOINTS
abbrev pub max_endpoints : ℕ
max_endpoints = 512

-- one element of the candidates; what an endpoint is, is left open
pub record Candidate (E : Type 0) : Type 0 where
  pub host : CatalogHost
  pub blocked : Bool
  pub endpoints : List E
  pub injection : Option HostInjection

-- the variables that add_source shares with compose_endpoints
pub record Composition (E : Type 0) : Type 0 where
  pub selected : List (String × E)
  pub counts : List (String × ℕ)
  pub used : List String
  pub has_bs : Bool
  pub blocked : Bool
  pub unavailable : Bool

-- counts[prefix] = count
unfoldable pub set_count : String → ℕ → List (String × ℕ) → List (String × ℕ)
set_count k n [] = (k, n) ∷ []
set_count k n ((j, m) ∷ counts) =
    let rest = set_count k n counts in if str_eq j k then (k, n) ∷ counts else (j, m) ∷ rest

-- base, base-2, base-3, …
unfoldable pub numbered : String → ℕ → String
numbered base count = if count == 1 then base else text_append base (text_append "-" (show_ℕ count))

-- group.tagPrefix in prefixes, and prefixes.add(group.tagPrefix)
abbrev pub is_taken : Option String → List String → Bool
is_taken none prefixes = false
is_taken (some prefix) prefixes = text_in prefix prefixes

abbrev pub taken_with : Option String → List String → List String
taken_with none prefixes = prefixes
taken_with (some prefix) prefixes = prefix ∷ prefixes

module _ {E : Type 0} where
  -- counts.get(prefix, 0) + 1
  abbrev pub next_count : Composition E → String → ℕ
  next_count s prefix = or_zero (get_named prefix s.counts) + 1

  -- the tag of the endpoint at an index of its source
  unfoldable pub tag_for : Composition E → Option String → Option String → ℕ → String
  unfolding numbered
  tag_for s (some prefix) name index = numbered prefix (next_count s prefix)
  tag_for s none name index = numbered (get_or name "") (index + 1)

  unfoldable pub counted : Composition E → Option String → List (String × ℕ)
  unfolding set_count
  counted s (some prefix) = set_count prefix (next_count s prefix) s.counts
  counted s none = s.counts

  -- not tag or not tag.strip() or tag in used
  unfoldable pub is_refused : Composition E → String → Bool
  is_refused s tag =
      not (truthy_text (some tag)) || not (truthy_text (some (strip tag))) || text_in tag s.used

  unfoldable pub with_endpoint : Composition E → List (String × ℕ) → String → E → Composition E
  with_endpoint s counts tag endpoint = record s {
    selected = s.selected ++ ((tag, endpoint) ∷ []);
    counts = counts;
    used = tag ∷ s.used;
  }

  -- the body of the loop over the endpoints of a source
  unfoldable pub add_endpoint :
      Option String → Option String → ℕ → E → Composition E → Attempt (Composition E)
  unfolding tag_for counted is_refused with_endpoint
  add_endpoint prefix name index endpoint s =
      let tag = tag_for s prefix name index in
      let next = with_endpoint s (counted s prefix) tag endpoint in
      if is_refused s tag
      then raised outbound_tag_collision
      else if ltb max_endpoints (length next.selected)
      then raised too_many_endpoints
      else done next

  unfoldable pub add_endpoints :
      Option String → Option String → ℕ → List E → Composition E → Attempt (Composition E)
  unfolding add_endpoint
  add_endpoints prefix name index [] s = done s
  add_endpoints prefix name index (endpoint ∷ endpoints) s = do
    next ← add_endpoint prefix name index endpoint s
    add_endpoints prefix name (suc index) endpoints next

  unfoldable pub add_available :
      List E → Candidate E → Option String → Option String → Composition E → Attempt (Composition E)
  unfolding add_endpoints
  add_available [] item prefix name s = done (record s { unavailable = true })
  add_available (endpoint ∷ endpoints) item prefix name s =
      add_endpoints prefix name 0 (endpoint ∷ endpoints)
        (record s { has_bs = s.has_bs || item.host.is_bs })

  unfoldable pub add_source :
      Candidate E → Option String → Option String → Composition E → Attempt (Composition E)
  unfolding add_available
  add_source item prefix name s =
      if item.blocked
      then done (record s { blocked = true })
      else add_available item.endpoints item prefix name s

  -- by_id = {item["host"].get("id"): item for item in candidates}
  abbrev pub items_by_id : List (ℕ × Candidate E) → List (Candidate E) → List (ℕ × Candidate E)
  items_by_id known [] = known
  items_by_id known (item ∷ items) = items_by_id (insert item.host.id item known) items

  -- item["injection"] and not item["injection"].addVirtualHostAsOutbound
  abbrev pub is_virtual_source : Candidate E → Bool
  is_virtual_source item = elim item.injection [
    | none ↦ false
    | some h ↦ not h.add_virtual_host_as_outbound
  ]

  -- one chosen host: it is one of the candidates, so by_id finds it
  unfoldable pub add_item :
      InjectionGroup → CatalogHost → Option (Candidate E) → Composition E → Attempt (Composition E)
  unfolding add_source
  add_item group host none s = done s
  add_item group host (some item) s =
      if is_virtual_source item
      then done s
      else add_source item group.tag_prefix
          (or_text (if group.use_host_tag_as_tag then host.group_tag else none) host.remark) s

  -- the loop over the hosts of a group
  unfoldable pub add_hosts :
      List (ℕ × Candidate E)
      → InjectionGroup
      → List CatalogHost
      → Composition E
      → Attempt (Composition E)
  unfolding add_item
  add_hosts by_id group [] s = done s
  add_hosts by_id group (host ∷ hosts) s = do
    next ← add_item group host (lookup host.id by_id) s
    add_hosts by_id group hosts next

  abbrev pub empty_composition : Composition E
  empty_composition = record {
    selected = [];
    counts = [];
    used = [];
    has_bs = false;
    blocked = false;
    unavailable = false;
  }

  -- the recipient's own connections
  unfoldable pub add_own : Bool → Candidate E → Attempt (Composition E)
  unfolding add_source
  add_own true own = add_source own (some "proxy") none empty_composition
  add_own false own = done empty_composition

  module _ (search : String → String → Option Bool) (expired : ℕ → ℕ → Bool) (recipient : Recipient)
      (candidates : List (Candidate E)) where
    -- the loop over the groups; the clock's readings are told apart by the number of the group
    unfoldable pub add_groups :
        ℕ → List String → List InjectionGroup → Composition E → Attempt (Composition E)
    unfolding add_hosts
    add_groups number prefixes [] s = done s
    add_groups number prefixes (group ∷ groups) s =
        if is_taken group.tag_prefix prefixes then raised duplicate_group_prefix else do
          hosts ←
              select_injected_hosts search (expired number) group recipient
                (map (λ c. c.host) candidates)
          next ← add_hosts (items_by_id [] candidates) group hosts s
          add_groups (suc number) (taken_with group.tag_prefix prefixes) groups next

    unfoldable pub compose_all : HostInjection → Candidate E → Attempt (Composition E)
    unfolding add_groups add_own
    compose_all injection own = do
      start ← add_own injection.add_virtual_host_as_outbound own
      add_groups 0 [] injection.inject_hosts start

    -- the endpoints with their tags, whether a BS host is among them, and whether the limit alone took
    -- sources away
    unfoldable pub compose_endpoints :
        HostInjection → Candidate E → Attempt (List (String × E) × (Bool × Bool))
    unfolding compose_all
    compose_endpoints injection own = do
      s ← compose_all injection own
      done (s.selected, (s.has_bs, s.blocked && not s.unavailable))
