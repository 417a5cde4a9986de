-- ===== src/Xray/Injection/Compose/Tags.antt =====
-- The composed document's tags, and where its connections come from.
use vpn_panel.Prelude.{
  subst, ℕ, suc, ◌≤◌, String, ◌≡◌, refl, ◌⊎◌, inl, inr, Bool, true, false, ◌||◌, Option, some, List,
  [], ◌∷◌, ◌++◌, arith, ltb, Bool-cases, length, All, All-append, map-append,
}
use vpn_panel.Prelude.Text.{strip, truthy_text}
use vpn_panel.Prelude.Names.{text_in, text_in-append, names_of, AreDistinct, str_eq_sym}
use vpn_panel.Xray.Injection.{done}
use vpn_panel.Xray.Injection.Chosen.{>>=-done, done-injective}
use vpn_panel.Xray.Injection.Compose.{
  Candidate, Composition, max_endpoints, add_endpoint, add_endpoints, add_available, add_source,
  is_refused, with_endpoint, tag_for, counted,
}

AreDistinct-append :
    (names : List String) (name : String)
    → AreDistinct names
    → text_in name names ≡ false
    → AreDistinct (names ++ (name ∷ []))
unfolding text_in
AreDistinct-append [] name once new = (refl, tt)
AreDistinct-append (n ∷ names) name once new = (
  ground (arith, text_in-append n names (name ∷ []), once.0, new, str_eq_sym n name),
  AreDistinct-append names name once.1 (ground (arith, new)),
)

module _ {E : Type 0} (FromSource : E → Type 0) where
  -- what holds of the connections gathered so far
  pub record IsTagged (s : Composition E) : Type 0 where
    pub distinct : AreDistinct (names_of s.selected)
    pub used_same : (t : String) → text_in t s.used ≡ text_in t (names_of s.selected)
    pub few : length s.selected ≤ max_endpoints
    pub named : All (λ e. truthy_text (some (strip e.0)) ≡ true) s.selected
    pub sources : All (λ e. FromSource e.1) s.selected

  with_endpoint-IsTagged :
      (s : Composition E) (counts : List (String × ℕ)) (tag : String) (endpoint : E)
      → FromSource endpoint
      → is_refused s tag ≡ false
      → ltb max_endpoints (length (with_endpoint s counts tag endpoint).selected) ≡ false
      → IsTagged s
      → IsTagged (with_endpoint s counts tag endpoint)
  unfolding is_refused with_endpoint text_in
  with_endpoint-IsTagged s counts tag endpoint good fresh short h = record {
    distinct = rw (map-append (λ e. e.0) s.selected ((tag, endpoint) ∷ [])) (
        AreDistinct-append (names_of s.selected) tag h.distinct
          (ground (arith, fresh, h.used_same tag)));
    used_same = λ t.
        rw (map-append (λ e. e.0) s.selected ((tag, endpoint) ∷ []))
          (ground (arith, h.used_same t, text_in-append t (names_of s.selected) (tag ∷ [])));
    few = ground (arith, short);
    named = All-append _ s.selected ((tag, endpoint) ∷ []) h.named (ground (arith, fresh), tt);
    sources = All-append _ s.selected ((tag, endpoint) ∷ []) h.sources (good, tt);
  }

  add_endpoint-IsTagged :
      (prefix name : Option String) (index : ℕ) (endpoint : E) (s next : Composition E)
      → FromSource endpoint
      → IsTagged s
      → add_endpoint prefix name index endpoint s ≡ done next
      → IsTagged next
  unfolding add_endpoint
  add_endpoint-IsTagged prefix name index endpoint s next good h returns =
      let tag = tag_for s prefix name index in
      let added = with_endpoint s (counted s prefix) tag endpoint in
      elim (Bool-cases (is_refused s tag)) [
        | inl refused ↦ ground (arith, refused, returns)
        | inr fresh ↦ elim (Bool-cases (ltb max_endpoints (length added.selected))) [
          | inl long ↦ ground (arith, fresh, long, returns)
          | inr short ↦
              subst IsTagged
                (done-injective {a = added} {b = next} (ground (arith, fresh, short, returns)))
                (with_endpoint-IsTagged s (counted s prefix) tag endpoint good fresh short h)
        ]
      ]

  add_endpoints-IsTagged :
      (prefix name : Option String) (index : ℕ) (endpoints : List E) (s last : Composition E)
      → All FromSource endpoints
      → IsTagged s
      → add_endpoints prefix name index endpoints s ≡ done last
      → IsTagged last
  unfolding add_endpoints
  add_endpoints-IsTagged prefix name index [] s last good h returns =
      subst IsTagged (done-injective returns) h
  add_endpoints-IsTagged prefix name index (endpoint ∷ endpoints) s last good h returns =
      let step = >>=-done _ (add_endpoint prefix name index endpoint s) returns in
      add_endpoints-IsTagged prefix name (suc index) endpoints step.0 last good.1
        (add_endpoint-IsTagged prefix name index endpoint s step.0 good.0 h step.1) step.2

  -- The flags are no part of what holds of the tags.
  flags-IsTagged :
      (s : Composition E) (has_bs blocked unavailable : Bool)
      → IsTagged s
      → IsTagged (record s { has_bs = has_bs; blocked = blocked; unavailable = unavailable })
  flags-IsTagged s has_bs blocked unavailable h = record {
    distinct = h.distinct;
    used_same = h.used_same;
    few = h.few;
    named = h.named;
    sources = h.sources;
  }

  -- a candidate is blocked, or all its connections are from a source
  abbrev Offers : Candidate E → Type 0
  Offers c = (c.blocked ≡ true) ⊎ All FromSource c.endpoints

  add_available-IsTagged :
      (endpoints : List E) (item : Candidate E) (prefix name : Option String)
      (s last : Composition E)
      → All FromSource endpoints
      → IsTagged s
      → add_available endpoints item prefix name s ≡ done last
      → IsTagged last
  unfolding add_available
  add_available-IsTagged [] item prefix name s last good h returns =
      subst IsTagged (done-injective returns) (flags-IsTagged s s.has_bs s.blocked true h)
  add_available-IsTagged (endpoint ∷ endpoints) item prefix name s last good h returns =
      add_endpoints-IsTagged prefix name 0 (endpoint ∷ endpoints) _ last good
        (flags-IsTagged s (s.has_bs || item.host.is_bs) s.blocked s.unavailable h) returns

  pub add_source-IsTagged :
      (item : Candidate E) (prefix name : Option String) (s last : Composition E)
      → (item.blocked ≡ true) ⊎ All FromSource item.endpoints
      → IsTagged s
      → add_source item prefix name s ≡ done last
      → IsTagged last
  unfolding add_source
  add_source-IsTagged item prefix name s last good h returns = elim (Bool-cases item.blocked) [
    | inl blocked ↦
        subst IsTagged
          (done-injective {a = record s { blocked = true }} {b = last}
            (ground (arith, blocked, returns)))
          (flags-IsTagged s s.has_bs true s.unavailable h)
    | inr opened ↦ elim good [
      | inl blocked ↦ ground (arith, opened, blocked)
      | inr offered ↦
          add_available-IsTagged item.endpoints item prefix name s last offered h
            (ground (arith, opened, returns))
    ]
  ]
