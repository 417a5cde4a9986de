-- ===== src/Xray/Injection/Chosen.antt =====
-- Which hosts are chosen for an injection.
use vpn_panel.Prelude.{
  subst, ℕ, suc, String, ◌≡◌, refl, ap, inl, inr, Bool, true, Option, none, some, List, [], ◌∷◌,
  arith, ◌==◌, Bool-cases, some-injective, filter, All, lookup, insert,
}
use vpn_panel.Prelude.Sort.{sort_by, All-sort_by}
use vpn_panel.Xray.Injection.{
  Attempt, raised, invalid, done, ◌>>=◌, InjectionGroup, Selector, ids, pattern,
  same_tag_as_recipient, PatternKey, Recipient, CatalogHost, is_candidate, order_before, catalog_of,
  with_found, found_of, has_group_tag, matches, matching, select_by, select_injected_hosts,
}

pub done-injective {ℓ} : {A : Type ℓ} {a b : A} → done a ≡ done b → a ≡ b
done-injective {a} p = ap (λ r. elim r [ done x ↦ x | raised e ↦ a | invalid ↦ a ]) p

-- A chain that returns has a first step that returns.
pub >>=-done {ℓ κ} :
    {V : Type ℓ} {W : Type κ} (next : V → Attempt W) {last : W} (first : Attempt V)
    → (first >>= next) ≡ done last
    → (value : V) × (first ≡ done value) × (next value ≡ done last)
>>=-done next (raised e) returns = cc
>>=-done next invalid returns = cc
>>=-done next (done value) returns = (value, refl, returns)

filter-passing {κ} :
    {A : Type 0} (P : A → Type κ) (p : A → Bool) (xs : List A)
    → All P xs
    → All (λ x. P x × (p x ≡ true)) (filter p xs)
filter-passing P p [] h = tt
filter-passing P p (x ∷ xs) h = elim (Bool-cases (p x)) [
  | inl passes ↦ rw passes ((h.0, passes), filter-passing P p xs h.1)
  | inr fails ↦ rw fails (filter-passing P p xs h.1)
]

filter-All {κ} :
    {A : Type 0} (P : A → Type κ) (p : A → Bool) (xs : List A) → All P xs → All P (filter p xs)
filter-All P p [] h = tt
filter-All P p (x ∷ xs) h = elim (Bool-cases (p x)) [
  | inl passes ↦ rw passes (h.0, filter-All P p xs h.1)
  | inr fails ↦ rw fails (filter-All P p xs h.1)
]

module _ {κ} (P : CatalogHost → Type κ) where
  -- the values of a dict of hosts
  abbrev AllValues : List (ℕ × CatalogHost) → Type κ
  AllValues = All (λ entry. P entry.1)

  insert-AllValues :
      (i : ℕ) (host : CatalogHost) (known : List (ℕ × CatalogHost))
      → P host
      → All (λ entry. P entry.1) known
      → All (λ entry. P entry.1) (insert i host known)
  insert-AllValues i host [] good h = (good, tt)
  insert-AllValues i host ((j, other) ∷ known) good h = elim (Bool-cases (j == i)) [
    | inl same ↦ rw same (good, h.1)
    | inr apart ↦ rw apart (h.0, insert-AllValues i host known good h.1)
  ]

  catalog_of-AllValues :
      (known : List (ℕ × CatalogHost)) (hosts : List CatalogHost)
      → All (λ entry. P entry.1) known
      → All P hosts
      → All (λ entry. P entry.1) (catalog_of known hosts)
  catalog_of-AllValues known [] h good = h
  catalog_of-AllValues known (host ∷ hosts) h good =
      catalog_of-AllValues (insert host.id host known) hosts
        (insert-AllValues host.id host known good.0 h) good.1

  lookup-AllValues :
      (i : ℕ) (known : List (ℕ × CatalogHost)) (host : CatalogHost)
      → All (λ entry. P entry.1) known
      → lookup i known ≡ some host
      → P host
  lookup-AllValues i [] host h found = ground (arith, found)
  lookup-AllValues i ((j, other) ∷ known) host h found = elim (Bool-cases (j == i)) [
    | inl same ↦ subst P (some-injective (ground (arith, found, same))) h.0
    | inr apart ↦ lookup-AllValues i known host h.1 (ground (arith, found, apart))
  ]

  with_found-All :
      (o : Option CatalogHost) (rest : List CatalogHost)
      → ((host : CatalogHost) → o ≡ some host → P host)
      → All P rest
      → All P (with_found o rest)
  with_found-All none rest good h = h
  with_found-All (some host) rest good h = (good host refl, h)

  found_of-All :
      (known : List (ℕ × CatalogHost)) (values : List ℕ)
      → All (λ entry. P entry.1) known
      → All P (found_of known values)
  found_of-All known [] h = tt
  found_of-All known (i ∷ is) h =
      with_found-All (lookup i known) (found_of known is) (λ host. lookup-AllValues i known host h)
        (found_of-All known is h)

  module _ (search : String → String → Option Bool) (expired : ℕ → Bool) where
    matching-All :
        (key : PatternKey) (text : String) (reading : ℕ) (hosts chosen : List CatalogHost)
        → All P hosts
        → matching search expired key text reading hosts ≡ done chosen
        → All P chosen
    unfolding matching
    matching-All key text reading [] chosen good returns = subst (All P) (done-injective returns) tt
    matching-All key text reading (host ∷ hosts) chosen good returns =
        let first = >>=-done _ (matches search expired key text reading host) returns in
        let second = >>=-done _ (matching search expired key text (suc reading) hosts) first.2 in
        let rest = matching-All key text (suc reading) hosts second.0 good.1 second.1 in
        subst (All P) (done-injective second.2) (elim (Bool-cases first.0) [
          | inl found ↦ rw found (good.0, rest)
          | inr not_found ↦ rw not_found rest
        ])

    select_by-All :
        (selector : Selector) (recipient : Recipient) (hosts chosen : List CatalogHost)
        → All P hosts
        → select_by search expired selector recipient hosts ≡ done chosen
        → All P chosen
    unfolding select_by
    select_by-All (ids values) recipient hosts chosen good returns =
        subst (All P) (done-injective returns)
          (found_of-All (catalog_of [] hosts) values (catalog_of-AllValues [] hosts tt good))
    select_by-All same_tag_as_recipient recipient hosts chosen good returns =
        subst (All P) (done-injective returns) (
          filter-All P (has_group_tag recipient.group_tag) (sort_by order_before hosts)
            (All-sort_by order_before P hosts good))
    select_by-All (pattern key text) recipient hosts chosen good returns =
        matching-All key text 1 (sort_by order_before hosts) chosen
          (All-sort_by order_before P hosts good) returns

-- Whatever the selector, the clock and the patterns answer: a host that is chosen is one of the catalogue
-- (it has every property that all the hosts of the catalogue have), is not the recipient, is not disabled
-- and is hidden or visible as the group asks.
pub select_injected_hosts-is_candidate :
    (search : String → String → Option Bool) (expired : ℕ → Bool) (group : InjectionGroup)
    (recipient : Recipient) (hosts chosen : List CatalogHost) (P : CatalogHost → Type 0)
    → All P hosts
    → select_injected_hosts search expired group recipient hosts ≡ done chosen
    → All (λ h. P h × (is_candidate group recipient h ≡ true)) chosen
unfolding select_injected_hosts
select_injected_hosts-is_candidate search expired group recipient hosts chosen P good returns =
    elim (Bool-cases (expired 0)) [
      | inl late ↦ ground (arith, late, returns)
      | inr in_time ↦
          select_by-All (λ h. P h × (is_candidate group recipient h ≡ true)) search expired
            group.selector recipient (filter (is_candidate group recipient) hosts) chosen
            (filter-passing P (is_candidate group recipient) hosts good)
            (ground (arith, in_time, returns))
    ]
