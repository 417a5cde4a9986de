-- ===== src/Addresses/Policy.antt =====
-- app/xray/address_policy.py: the weighted rendezvous choice of `n` keys for a user. A key is the id of a
-- node or, for a host with a static address, the address.
pub mod Bounds
pub mod Stable
use vpn_panel.Prelude.{
  ℕ, zero, suc, ◌+◌, ◌-◌, ◌*◌, ◌/◌, ◌%◌, ◌^◌, ◌≤◌, ◌<◌, max, min, String, ◌≡◌, refl, sym, ap, ◌∙◌,
  ◌≢◌, ◌⊎◌, inl, inr, Bool, true, false, ◌&&◌, ◌||◌, not, Option, none, some, List, [], ◌∷◌, ◌++◌,
  map, arith, str_eq, ltb, leb, ◌==◌, if◌then◌else◌, Bool-cases, Option-cases, truthy, or_zero,
  get_or, is_some, some-injective, ==_refl, length, filter, any, All, take, drop, contains,
  contains-append, contains-filter, lookup, insert, keys, lookup-insert,
}
use vpn_panel.Prelude.Int.{ℤ}
use vpn_panel.Prelude.Sort.{sort_by}
use vpn_panel.Addresses.{Numerics}
use vpn_panel.Addresses.Texts.{show_ℕ, show_ℤ, join, text_leb}

pub data Key : Type 0 where
  node : ℕ → Key
  address : String → Key

-- str(key)
abbrev pub show : Key → String
show (node n) = show_ℕ n
show (address a) = a

abbrev pub same_key : Key → Key → Bool
same_key (node m) (node n) = m == n
same_key (node m) (address b) = false
same_key (address a) (node n) = false
same_key (address a) (address b) = str_eq a b

-- `k in chosen`
abbrev pub has_key : Key → List Key → Bool
has_key k = any (same_key k)

module _ {F : Type 0} (num : Numerics F) where
  -- cutoff_ratio: a percentage out of 1 to 100 counts as the whole
  abbrev pub cutoff_ratio : ℕ → F
  cutoff_ratio percent = if ltb 0 percent && leb percent 100 then num.ratio percent 100 else num.one

  unfoldable pub is_exhausted : Option F → Option F → ℕ → Bool
  is_exhausted used none percent = false
  is_exhausted none (some limit) percent = false
  is_exhausted (some used) (some limit) percent =
      if num.le limit num.zero then false else num.le (num.times limit (cutoff_ratio percent)) used

  hash_space : ℕ
  hash_space = 2 ^ 64

  -- _unit_hash: a number in (0, 1] of the parts of a key
  unfoldable pub unit_hash : List String → F
  unfolding hash_space
  unit_hash parts = num.ratio (num.digest (join parts) + 1) (hash_space + 1)

  -- _score: the higher, the earlier
  unfoldable pub score : ℕ → ℤ → Key × F → F
  score uid epoch candidate =
      let drawn = unit_hash (show_ℕ uid ∷ show candidate.0 ∷ show_ℤ epoch ∷ []) in
      let u = if num.le num.one drawn then num.near_one else drawn in
      let weight = if num.le num.one candidate.1 then candidate.1 else num.one in
      num.div weight (num.neg_log u)

  -- the order of `sorted` by (-score, str(key))
  unfoldable pub ranks_before : ℕ → ℤ → Key × F → Key × F → Bool
  ranks_before uid epoch a b =
      let sa = score uid epoch a in
      let sb = score uid epoch b in
      if num.le sa sb then num.le sb sa && text_leb (show a.0) (show b.0) else true

  -- the keys of the `n` best
  unfoldable pub chosen : ℕ → ℤ → ℕ → List (Key × F) → List Key
  chosen uid epoch n candidates =
      map (λ c. c.0) (take n (sort_by (ranks_before uid epoch) candidates))

  unfoldable pub pick_keys : ℕ → List (Key × F) → ℕ → ℤ → List Key
  pick_keys uid candidates zero epoch = []
  pick_keys uid [] (suc n) epoch = []
  pick_keys uid (c ∷ cs) (suc n) epoch =
      if leb (length (c ∷ cs)) (suc n)
      then map (λ x. x.0) (c ∷ cs)
      else filter (λ k. has_key k (chosen uid epoch (suc n) (c ∷ cs))) (map (λ x. x.0) (c ∷ cs))
