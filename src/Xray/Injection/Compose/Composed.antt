-- ===== src/Xray/Injection/Compose/Composed.antt =====
-- The whole composition keeps the tags apart and takes connections of sources that are not blocked.
use vpn_panel.Prelude.{
  subst, ℕ, suc, ◌≤◌, String, ◌≡◌, refl, ◌⊎◌, inl, inr, Bool, true, false, Option, none, some, List,
  [], ◌∷◌, map, arith, ◌==◌, if◌then◌else◌, Bool-cases, some-injective, length, All, lookup, insert,
}
use vpn_panel.Prelude.Text.{strip, truthy_text}
use vpn_panel.Prelude.Names.{names_of, AreDistinct}
use vpn_panel.Xray.Injection.{
  done, InjectionGroup, HostInjection, Recipient, CatalogHost, select_injected_hosts,
}
use vpn_panel.Xray.Injection.Chosen.{>>=-done, done-injective}
use vpn_panel.Xray.Injection.Compose.{
  Candidate, Composition, add_item, add_own, empty_composition, items_by_id, is_virtual_source,
  add_hosts, is_taken, taken_with, add_groups, compose_all, compose_endpoints,
}
use vpn_panel.Xray.Injection.Compose.Tags.{IsTagged, add_source-IsTagged}

-- What a conditional returns when its test fails.
else_returns {ℓ} :
    {A : Type ℓ} (test : Bool) (x : A) {y z : A}
    → test ≡ false
    → (if test then x else y) ≡ z
    → y ≡ z
else_returns true x fails returns = ground (arith, fails)
else_returns false x fails returns = returns

module _ {E : Type 0} (FromSource : E → Type 0) where
  -- Every candidate found by its id offers what the candidates offer.
  insert-Offers :
      (i : ℕ) (item : Candidate E) (known : List (ℕ × Candidate E))
      → (item.blocked ≡ true) ⊎ All FromSource item.endpoints
      → All (λ entry. (entry.1.blocked ≡ true) ⊎ All FromSource entry.1.endpoints) known
      → All
          (λ entry. (entry.1.blocked ≡ true) ⊎ All FromSource entry.1.endpoints)
          (insert i item known)
  insert-Offers i item [] good h = (good, tt)
  insert-Offers i item ((j, other) ∷ known) good h = elim (Bool-cases (j == i)) [
    | inl same ↦ rw same (good, h.1)
    | inr apart ↦ rw apart (h.0, insert-Offers i item known good h.1)
  ]

  items_by_id-Offers :
      (known : List (ℕ × Candidate E)) (items : List (Candidate E))
      → All (λ entry. (entry.1.blocked ≡ true) ⊎ All FromSource entry.1.endpoints) known
      → All (λ c. (c.blocked ≡ true) ⊎ All FromSource c.endpoints) items
      → All
          (λ entry. (entry.1.blocked ≡ true) ⊎ All FromSource entry.1.endpoints)
          (items_by_id known items)
  items_by_id-Offers known [] h good = h
  items_by_id-Offers known (item ∷ items) h good =
      items_by_id-Offers (insert item.host.id item known) items
        (insert-Offers item.host.id item known good.0 h) good.1

  lookup-Offers :
      (i : ℕ) (known : List (ℕ × Candidate E)) (item : Candidate E)
      → All (λ entry. (entry.1.blocked ≡ true) ⊎ All FromSource entry.1.endpoints) known
      → lookup i known ≡ some item
      → (item.blocked ≡ true) ⊎ All FromSource item.endpoints
  lookup-Offers i [] item h found = ground (arith, found)
  lookup-Offers i ((j, other) ∷ known) item h found = elim (Bool-cases (j == i)) [
    | inl same ↦
        subst (λ c. (c.blocked ≡ true) ⊎ All FromSource c.endpoints)
          (some-injective {a = other} {b = item} (ground (arith, found, same))) h.0
    | inr apart ↦ lookup-Offers i known item h.1 (ground (arith, found, apart))
  ]

  add_item-IsTagged :
      (group : InjectionGroup) (host : CatalogHost) (found : Option (Candidate E))
      (s last : Composition E)
      → ((item : Candidate E)
          → found ≡ some item
          → (item.blocked ≡ true) ⊎ All FromSource item.endpoints)
      → IsTagged FromSource s
      → add_item group host found s ≡ done last
      → IsTagged FromSource last
  unfolding add_item
  add_item-IsTagged group host none s last good h returns =
      subst (IsTagged FromSource) (done-injective returns) h
  add_item-IsTagged group host (some item) s last good h returns =
      elim (Bool-cases (is_virtual_source item)) [
        | inl virtual ↦
            subst (IsTagged FromSource)
              (done-injective {a = s} {b = last} (ground (arith, virtual, returns))) h
        | inr real ↦
            add_source-IsTagged FromSource item group.tag_prefix _ s last (good item refl) h
              (else_returns (is_virtual_source item) _ real returns)
      ]

  add_hosts-IsTagged :
      (by_id : List (ℕ × Candidate E)) (group : InjectionGroup) (hosts : List CatalogHost)
      (s last : Composition E)
      → All (λ entry. (entry.1.blocked ≡ true) ⊎ All FromSource entry.1.endpoints) by_id
      → IsTagged FromSource s
      → add_hosts by_id group hosts s ≡ done last
      → IsTagged FromSource last
  unfolding add_hosts
  add_hosts-IsTagged by_id group [] s last good h returns =
      subst (IsTagged FromSource) (done-injective returns) h
  add_hosts-IsTagged by_id group (host ∷ hosts) s last good h returns =
      let step = >>=-done _ (add_item group host (lookup host.id by_id) s) returns in
      add_hosts-IsTagged by_id group hosts step.0 last good
        (add_item-IsTagged group host (lookup host.id by_id) s step.0
          (λ item. lookup-Offers host.id by_id item good) h step.1)
        step.2

  module _ (search : String → String → Option Bool) (expired : ℕ → ℕ → Bool) (recipient : Recipient)
      (candidates : List (Candidate E))
      (offers : All (λ c. (c.blocked ≡ true) ⊎ All FromSource c.endpoints) candidates) where
    add_groups-IsTagged :
        (number : ℕ) (prefixes : List String) (groups : List InjectionGroup)
        (s last : Composition E)
        → IsTagged FromSource s
        → add_groups search expired recipient candidates number prefixes groups s ≡ done last
        → IsTagged FromSource last
    unfolding add_groups
    add_groups-IsTagged number prefixes [] s last h returns =
        subst (IsTagged FromSource) (done-injective returns) h
    add_groups-IsTagged number prefixes (group ∷ groups) s last h returns =
        elim (Bool-cases (is_taken group.tag_prefix prefixes)) [
          | inl taken ↦ ground (arith, taken, returns)
          | inr free ↦
              let begun = else_returns (is_taken group.tag_prefix prefixes) _ free returns in
              let chosen =
                >>=-done _
                  (select_injected_hosts search (expired number) group recipient
                    (map (λ c. c.host) candidates))
                  begun in
              let step =
                >>=-done _ (add_hosts (items_by_id [] candidates) group chosen.0 s) chosen.2 in
              add_groups-IsTagged (suc number) (taken_with group.tag_prefix prefixes) groups step.0
                last
                (add_hosts-IsTagged (items_by_id [] candidates) group chosen.0 s step.0
                  (items_by_id-Offers [] candidates tt offers) h step.1)
                step.2
        ]

    empty-IsTagged : IsTagged FromSource empty_composition
    empty-IsTagged = record {
      distinct = tt;
      used_same = λ t. refl;
      few = omega arith;
      named = tt;
      sources = tt;
    }

    add_own-IsTagged :
        (adds : Bool) (own : Candidate E) (start : Composition E)
        → (own.blocked ≡ true) ⊎ All FromSource own.endpoints
        → add_own adds own ≡ done start
        → IsTagged FromSource start
    unfolding add_own
    add_own-IsTagged true own start good returns =
        add_source-IsTagged FromSource own (some "proxy") none empty_composition start good
          empty-IsTagged returns
    add_own-IsTagged false own start good returns =
        subst (IsTagged FromSource) (done-injective returns) empty-IsTagged

    compose_all-IsTagged :
        (injection : HostInjection) (own : Candidate E) (last : Composition E)
        → (own.blocked ≡ true) ⊎ All FromSource own.endpoints
        → compose_all search expired recipient candidates injection own ≡ done last
        → IsTagged FromSource last
    unfolding compose_all
    compose_all-IsTagged injection own last good returns =
        let start = >>=-done _ (add_own injection.add_virtual_host_as_outbound own) returns in
        add_groups-IsTagged 0 [] injection.inject_hosts start.0 last
          (add_own-IsTagged injection.add_virtual_host_as_outbound own start.0 good start.1) start.2

    -- Where the composition of a recipient's connections returns, at most 512 are handed out, each under a tag
    -- of its own that is not blank, and each is a connection of a source that is not blocked: it has every
    -- property that all connections of the candidates and the recipient have which are not blocked.
    pub compose_endpoints-tags :
        (injection : HostInjection) (own : Candidate E)
        (composed : List (String × E) × (Bool × Bool))
        → (own.blocked ≡ true) ⊎ All FromSource own.endpoints
        → compose_endpoints search expired recipient candidates injection own ≡ done composed
        → AreDistinct (names_of composed.0)
          × (length composed.0 ≤ 512)
          × All (λ e. truthy_text (some (strip e.0)) ≡ true) composed.0
          × All (λ e. FromSource e.1) composed.0
    unfolding compose_endpoints
    compose_endpoints-tags injection own composed good returns =
        let all =
          >>=-done _ (compose_all search expired recipient candidates injection own) returns in
        let h = compose_all-IsTagged injection own all.0 good all.1 in
        subst
          (λ r.
            AreDistinct (names_of r.0)
            × (length r.0 ≤ 512)
            × All (λ e. truthy_text (some (strip e.0)) ≡ true) r.0
            × All (λ e. FromSource e.1) r.0)
          (done-injective all.2) (h.distinct, h.few, h.named, h.sources)
