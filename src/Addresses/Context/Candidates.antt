-- ===== src/Addresses/Context/Candidates.antt =====
-- The weighted candidates: the ids they are for, each once.
use vpn_panel.Prelude.{
  ℕ, ◌+◌, ◌≤◌, String, ◌≡◌, refl, Bool, false, ◌&&◌, ◌||◌, not, List, [], ◌∷◌, map, arith, ◌==◌,
  if◌then◌else◌, length, filter, any, contains, insert,
}
use vpn_panel.Addresses.{Numerics}
use vpn_panel.Addresses.Policy.{Key, node, address, has_key}
use vpn_panel.Addresses.Policy.Bounds.{count, HasDistinctKeys}
use vpn_panel.Addresses.Context.{dict_of, weighted_candidates}

module _ {F : Type 0} where
  -- how often an id is a key
  abbrev pub times_in : ℕ → List (ℕ × F) → ℕ
  times_in i d = length (filter (λ c. c.0 == i) d)

  abbrev pub has_id : ℕ → List (ℕ × F) → Bool
  has_id i d = any (λ c. c.0 == i) d

  has_id-insert :
      (i j : ℕ) (v : F) (d : List (ℕ × F)) → has_id i (insert j v d) ≡ (has_id i d || (j == i))
  has_id-insert i j v [] = ground arith
  has_id-insert i j v ((k, w) ∷ d) = ground (arith, has_id-insert i j v d)

  no_times : (i : ℕ) (d : List (ℕ × F)) → has_id i d ≡ false → times_in i d ≡ 0
  no_times i [] h = refl
  no_times i ((k, w) ∷ d) h = ground (arith, no_times i d)

  times_in-insert :
      (i j : ℕ) (v : F) (d : List (ℕ × F))
      → times_in i (insert j v d) ≡ times_in i d + (if j == i && not (has_id i d) then 1 else 0)
  times_in-insert i j v [] = ground arith
  times_in-insert i j v ((k, w) ∷ d) = ground (arith, times_in-insert i j v d)

  times_in-dict_of :
      (f : ℕ → F) (ids : List ℕ) (d : List (ℕ × F)) (i : ℕ)
      → ((k : ℕ) → times_in k d ≤ 1)
      → times_in i (dict_of f ids d) ≤ 1
  times_in-dict_of f [] d i h = h i
  times_in-dict_of f (j ∷ ids) d i h =
      times_in-dict_of f ids (insert j (f j) d) i
        (λ k. ground (arith, h k, times_in-insert k j (f j) d, no_times k d))

  has_id-dict_of :
      (f : ℕ → F) (ids : List ℕ) (d : List (ℕ × F)) (i : ℕ)
      → has_id i (dict_of f ids d) ≡ (has_id i d || contains i ids)
  has_id-dict_of f [] d i = ground arith
  has_id-dict_of f (j ∷ ids) d i =
      ground (arith, has_id-dict_of f ids (insert j (f j) d) i, has_id-insert i j (f j) d)

  abbrev pub as_keys : List (ℕ × F) → List (Key × F)
  as_keys = map (λ c. (node c.0, c.1))

  count-as_keys :
      (k : ℕ) (d : List (ℕ × F)) → count (node k) (map (λ c. c.0) (as_keys d)) ≡ times_in k d
  count-as_keys k [] = refl
  count-as_keys k (c ∷ d) = ground (arith, count-as_keys k d)

  no_address : (a : String) (d : List (ℕ × F)) → count (address a) (map (λ c. c.0) (as_keys d)) ≡ 0
  no_address a [] = refl
  no_address a (c ∷ d) = no_address a d

  distinct_of :
      (d : List (ℕ × F))
      → ((k : ℕ) → times_in k d ≤ 1)
      → HasDistinctKeys (map (λ c. c.0) (as_keys d))
  distinct_of d h (node k) = omega (arith, h k, count-as_keys k d)
  distinct_of d h (address a) = omega (arith, no_address a d)

  pub has_key-as_keys :
      (k : ℕ) (d : List (ℕ × F)) → has_key (node k) (map (λ c. c.0) (as_keys d)) ≡ has_id k d
  has_key-as_keys k [] = refl
  has_key-as_keys k (c ∷ d) = ground (arith, has_key-as_keys k d)

  module _ (num : Numerics F) (weights : List (ℕ × F)) (ids : List ℕ) where
    pub weighted-distinct :
        HasDistinctKeys (map (λ c. c.0) (as_keys (weighted_candidates num weights ids)))
    unfolding weighted_candidates
    weighted-distinct = distinct_of _ (λ k. times_in-dict_of _ ids [] k (λ j. omega arith))

    pub has_id-weighted : (i : ℕ) → has_id i (weighted_candidates num weights ids) ≡ contains i ids
    unfolding weighted_candidates
    has_id-weighted i = has_id-dict_of _ ids [] i
