-- ===== src/Addresses/Context/Nodes.antt =====
-- `choose_nodes`: which nodes of a host a user is given.
use vpn_panel.Prelude.{
  ℕ, zero, suc, ◌≤◌, ◌<◌, ◌≡◌, refl, ap, ◌∙◌, Bool, true, false, not, List, [], ◌∷◌, map, arith,
  ==_refl, length, filter, contains, contains-filter,
}
use vpn_panel.Prelude.Int.{ℤ}
use vpn_panel.Addresses.{Numerics}
use vpn_panel.Addresses.Policy.{Key, node, address, has_key, chosen, pick_keys}
use vpn_panel.Addresses.Policy.Bounds.{length-pick_keys}
use vpn_panel.Addresses.Policy.Stable.{pick_keys-eq, pick_keys-from}
use vpn_panel.Addresses.Context.{weighted_candidates, node_ids_of, alive_of, choose_nodes}
use vpn_panel.Addresses.Context.Candidates.{
  has_id, as_keys, has_key-as_keys, weighted-distinct, has_id-weighted,
}

contains-node_ids_of : (i : ℕ) (ks : List Key) → contains i (node_ids_of ks) ≡ has_key (node i) ks
contains-node_ids_of i [] = refl
contains-node_ids_of i (node n ∷ ks) = ground (arith, contains-node_ids_of i ks)
contains-node_ids_of i (address a ∷ ks) = contains-node_ids_of i ks

length-node_ids_of-le : (ks : List Key) → length (node_ids_of ks) ≤ length ks
length-node_ids_of-le [] = omega arith
length-node_ids_of-le (node n ∷ ks) = omega (arith, length-node_ids_of-le ks)
length-node_ids_of-le (address a ∷ ks) = omega (arith, length-node_ids_of-le ks)

module _ {F : Type 0} where
  length-node_ids_of :
      (p : Key → Bool) (d : List (ℕ × F))
      → length (node_ids_of (filter p (map (λ c. c.0) (as_keys d))))
        ≡ length (filter p (map (λ c. c.0) (as_keys d)))
  length-node_ids_of p [] = refl
  length-node_ids_of p (c ∷ d) = ground (arith, length-node_ids_of p d)

  length-as_keys : (d : List (ℕ × F)) → length (as_keys d) ≡ length d
  length-as_keys [] = refl
  length-as_keys (c ∷ d) = ap suc (length-as_keys d)

  some_id : (i : ℕ) (d : List (ℕ × F)) → has_id i d ≡ true → 0 < length d
  some_id i [] h = ground arith
  some_id i (c ∷ d) h = omega arith

pub some_member : (i : ℕ) (xs : List ℕ) → contains i xs ≡ true → 0 < length xs
some_member i [] h = ground arith
some_member i (x ∷ xs) h = omega arith

-- Every node alive is one of the host's.
contains-alive_of :
    (i : ℕ) (exhausted ids : List ℕ)
    → contains i (alive_of exhausted ids) ≡ true
    → contains i ids ≡ true
unfolding alive_of
contains-alive_of i exhausted ids h =
    ground (arith, h, contains-filter i (λ j. not (contains j exhausted)) ids)

-- Where a node of the host is not exhausted, none of the exhausted is alive.
alive_of-exhausted :
    (i j : ℕ) (exhausted ids : List ℕ)
    → contains j ids ≡ true
    → contains j exhausted ≡ false
    → contains i (alive_of exhausted ids) ≡ true
    → contains i exhausted ≡ false
unfolding alive_of
alive_of-exhausted i j exhausted ids in_host fresh h =
    let alive = filter (λ k. not (contains k exhausted)) ids in
    ground (
      arith,
      h,
      contains-filter i (λ k. not (contains k exhausted)) ids,
      some_member j alive,
      contains-filter j (λ k. not (contains k exhausted)) ids,
    )

length-alive_of : (exhausted ids : List ℕ) → 0 < length ids → 0 < length (alive_of exhausted ids)
unfolding alive_of
length-alive_of exhausted ids h = ground (arith, h)

module _ {F : Type 0} (num : Numerics F) (uid : ℕ) (weights : List (ℕ × F)) (epoch : ℤ) where
  -- Every chosen node is one of those alive.
  choose_nodes-alive :
      (i size : ℕ) (ids exhausted : List ℕ)
      → contains i (choose_nodes num uid ids weights exhausted size epoch) ≡ true
      → contains i (alive_of exhausted ids) ≡ true
  unfolding choose_nodes
  choose_nodes-alive i size ids exhausted h =
      let alive = alive_of exhausted ids in
      let cs = as_keys (weighted_candidates num weights alive) in
      ground (
        arith,
        h,
        contains-node_ids_of i (pick_keys num uid cs size epoch),
        pick_keys-from num uid epoch size cs (node i),
        has_key-as_keys i (weighted_candidates num weights alive),
        has_id-weighted num weights alive i,
      )

  some_weighted : (ids : List ℕ) → 0 < length ids → 0 < length (weighted_candidates num weights ids)
  some_weighted [] h = absurd (omega arith)
  some_weighted (i ∷ ids) h =
      some_id i (weighted_candidates num weights (i ∷ ids))
        (has_id-weighted num weights (i ∷ ids) i ∙ ground (arith, ==_refl i))

  pub choose_nodes-nonempty :
      (size : ℕ) (ids exhausted : List ℕ)
      → 0 < size
      → 0 < length ids
      → 0 < length (choose_nodes num uid ids weights exhausted size epoch)
  unfolding choose_nodes
  choose_nodes-nonempty zero ids exhausted p q = absurd (omega arith)
  choose_nodes-nonempty (suc n) ids exhausted p q =
      let alive = alive_of exhausted ids in
      let d = weighted_candidates num weights alive in
      ground (
        arith,
        length-alive_of exhausted ids q,
        some_weighted alive,
        length-node_ids_of (λ k. has_key k (chosen num uid epoch (suc n) (as_keys d))) d,
        ap length (pick_keys-eq num uid epoch n (as_keys d)),
        ap (λ ks. length (node_ids_of ks)) (pick_keys-eq num uid epoch n (as_keys d)),
        length-pick_keys num uid epoch (suc n) (as_keys d) (weighted-distinct num weights alive),
        length-as_keys d,
      )

  pub length-choose_nodes :
      (size : ℕ) (ids exhausted : List ℕ)
      → length (choose_nodes num uid ids weights exhausted size epoch) ≤ size
  unfolding choose_nodes
  length-choose_nodes size ids exhausted =
      let alive = alive_of exhausted ids in
      let cs = as_keys (weighted_candidates num weights alive) in
      ground (
        arith,
        length-node_ids_of-le (pick_keys num uid cs size epoch),
        length-pick_keys num uid epoch size cs (weighted-distinct num weights alive),
      )

  -- Every chosen node is one of the host's, and while a node of the host is not exhausted, no exhausted
  -- node is chosen.
  pub choose_nodes-fresh :
      (i j size : ℕ) (ids exhausted : List ℕ)
      → contains i (choose_nodes num uid ids weights exhausted size epoch) ≡ true
      → (contains i ids ≡ true)
        × (contains j ids ≡ true → contains j exhausted ≡ false → contains i exhausted ≡ false)
  choose_nodes-fresh i j size ids exhausted h =
      let alive = choose_nodes-alive i size ids exhausted h in
      (
        contains-alive_of i exhausted ids alive,
        (λ in_host fresh. alive_of-exhausted i j exhausted ids in_host fresh alive),
      )
