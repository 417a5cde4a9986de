-- ===== src/Addresses/Journal/Payloads.antt =====
-- The ids and addresses of a recorded composition, and when the setting of a host cuts it.
use vpn_panel.Prelude.{
  any, not, ◌∙◌, ◌<◌, All-implied, contains-filter, length-filter-le, subst, ℕ, ◌≡◌, refl, ap, inl,
  inr, Bool, true, false, none, some, List, [], ◌∷◌, ◌++◌, arith, ltb, leb, Bool-cases, length,
  filter, All, contains, contains-append,
}
use vpn_panel.Addresses.Context.{SubsetSettings, narrows, addresses_of, alive_of}
use vpn_panel.Addresses.Journal.{Payload, payload_ids, payload_addresses, all_named, is_whole}

-- The names of a payload whose items all have one are as many as its addresses.
pub length-payload_ids :
    (payload : Payload)
    → all_named payload ≡ true
    → length (payload_ids payload) ≡ length (payload_addresses payload)
length-payload_ids [] h = refl
length-payload_ids ((none, a) ∷ items) h = ground (arith, h)
length-payload_ids ((some i, a) ∷ items) h = ground (arith, length-payload_ids items h)

-- What keeps every node keeps every address.
pub addresses_of-All :
    (keep : ℕ → Bool) (payload : Payload)
    → all_named payload ≡ true
    → All (λ i. keep i ≡ true) (payload_ids payload)
    → addresses_of keep (payload_addresses payload) (payload_ids payload)
      ≡ payload_addresses payload
addresses_of-All keep [] named h = refl
addresses_of-All keep ((none, a) ∷ items) named h = ground (arith, named)
addresses_of-All keep ((some i, a) ∷ items) named h =
    rw (h.0, addresses_of-All keep items named h.1) refl

contains-own : (i : ℕ) (front back : List ℕ) → contains i (front ++ (i ∷ back)) ≡ true
contains-own i front back = ground (arith, contains-append i front (i ∷ back))

append_assoc :
    (front : List ℕ) (i : ℕ) (ids : List ℕ) → (front ++ (i ∷ [])) ++ ids ≡ front ++ (i ∷ ids)
append_assoc [] i ids = refl
append_assoc (j ∷ front) i ids = ap (λ l. j ∷ l) (append_assoc front i ids)

-- A list contains each of its elements.
pub contains-each : (front ids : List ℕ) → All (λ i. contains i (front ++ ids) ≡ true) ids
contains-each front [] = tt
contains-each front (i ∷ ids) = (
  contains-own i front ids,
  subst (λ l. All (λ j. contains j l ≡ true) ids) (append_assoc front i ids)
      (contains-each (front ++ (i ∷ [])) ids),
)

pub filter-every : (p : ℕ → Bool) (ids : List ℕ) → All (λ i. p i ≡ true) ids → filter p ids ≡ ids
filter-every p [] h = refl
filter-every p (i ∷ ids) h = rw (h.0, filter-every p ids h.1) refl

pub whole_fits :
    (settings : SubsetSettings) (count : ℕ)
    → narrows settings ≡ true
    → is_whole settings count ≡ true
    → leb count settings.size ≡ true
unfolding is_whole
whole_fits settings count narrow whole = ground (arith, narrow, whole)

pub cut_narrows :
    (settings : SubsetSettings) (count : ℕ)
    → is_whole settings count ≡ false
    → (narrows settings ≡ true) × (ltb settings.size count ≡ true)
unfolding is_whole
cut_narrows settings count cut = elim (Bool-cases (narrows settings)) [
  | inl narrow ↦ (narrow, ground (arith, narrow, cut))
  | inr wide ↦ ground (arith, wide, cut)
]

-- The addresses that are kept depend on the nodes of the payload alone.
pub addresses_of-same :
    (keep also : ℕ → Bool) (payload : Payload)
    → all_named payload ≡ true
    → All (λ i. keep i ≡ also i) (payload_ids payload)
    → addresses_of keep (payload_addresses payload) (payload_ids payload)
      ≡ addresses_of also (payload_addresses payload) (payload_ids payload)
addresses_of-same keep also [] named h = refl
addresses_of-same keep also ((none, a) ∷ items) named h = ground (arith, named)
addresses_of-same keep also ((some i, a) ∷ items) named h = elim (Bool-cases (also i)) [
  | inl kept ↦ rw (h.0, kept) (ap (λ l. a ∷ l) (addresses_of-same keep also items named h.1))
  | inr left ↦ rw (h.0, left) (addresses_of-same keep also items named h.1)
]

pub length-addresses_of :
    (keep : ℕ → Bool) (payload : Payload)
    → all_named payload ≡ true
    → length (addresses_of keep (payload_addresses payload) (payload_ids payload))
      ≡ length (filter keep (payload_ids payload))
length-addresses_of keep [] named = refl
length-addresses_of keep ((none, a) ∷ items) named = ground (arith, named)
length-addresses_of keep ((some i, a) ∷ items) named =
    ground (arith, length-addresses_of keep items named)

-- With a node left that is not exhausted, those are left.
pub alive_of-some :
    (exhausted ids : List ℕ)
    → any (λ i. not (contains i exhausted)) ids ≡ true
    → alive_of exhausted ids ≡ filter (λ i. not (contains i exhausted)) ids
unfolding alive_of
alive_of-some exhausted ids h = ground (arith, any-length (λ i. not (contains i exhausted)) ids h)
  where
    any-length :
        (p : ℕ → Bool) (xs : List ℕ) → any p xs ≡ true → ltb 0 (length (filter p xs)) ≡ true
    any-length p [] h = ground (arith, h)
    any-length p (x ∷ xs) h = ground (arith, h, any-length p xs)

-- What is left of the nodes are those that are not exhausted.
pub contains-alive_of :
    (exhausted ids : List ℕ)
    → any (λ i. not (contains i exhausted)) ids ≡ true
    → All (λ i. contains i (alive_of exhausted ids) ≡ not (contains i exhausted)) ids
contains-alive_of exhausted ids h = rw (alive_of-some exhausted ids h) (
    All-implied (λ i own. contains-filter i (λ j. not (contains j exhausted)) ids ∙ rw own refl) ids
      (contains-each [] ids))

-- A test that fails once keeps fewer.
pub length-filter-lt :
    (p : ℕ → Bool) (xs : List ℕ) → any (λ x. not (p x)) xs ≡ true → length (filter p xs) < length xs
length-filter-lt p [] h = ground (arith, h)
length-filter-lt p (x ∷ xs) h = ground (arith, h, length-filter-le p xs, length-filter-lt p xs)
