-- ===== src/Addresses/Policy/Bounds.antt =====
-- How many keys a choice has and where they come from.
use vpn_panel.Prelude.{
  ℕ, zero, suc, ◌+◌, ◌≤◌, min, ◌≡◌, refl, sym, ap, ◌∙◌, subst, inl, inr, Bool, true, false, ◌&&◌,
  ◌||◌, List, [], ◌∷◌, map, arith, Bool-cases, ==_refl, length, filter, any, All, take, length-take,
  length-filter-take, All-take,
}
use vpn_panel.Prelude.Int.{ℤ}
use text.Mathlib.TextEquality.{eq_iff}
use vpn_panel.Prelude.Sort.{sort_by, length-filter-sort_by, length-sort_by, All-sort_by}
use vpn_panel.Addresses.{Numerics}
use vpn_panel.Addresses.Policy.{
  Key, node, address, same_key, has_key, ranks_before, chosen, pick_keys,
}

pub same_key_refl : (k : Key) → same_key k k ≡ true
same_key_refl (node n) = ==_refl n
same_key_refl (address a) = ground (arith, eq_iff a a)

pub same_key-eq : (k j : Key) → same_key k j ≡ true → k ≡ j
same_key-eq (node m) (node n) h = ground arith
same_key-eq (address a) (address b) h = ground (arith, eq_iff a b)
same_key-eq (node m) (address b) h = ground arith
same_key-eq (address a) (node n) h = ground arith

abbrev pub count : Key → List Key → ℕ
count k ks = length (filter (same_key k) ks)

-- no key stands twice
abbrev pub HasDistinctKeys : List Key → Type 0
HasDistinctKeys ks = (k : Key) → count k ks ≤ 1

absent : (k : Key) (ks : List Key) → count k ks ≡ 0 → has_key k ks ≡ false
absent k [] h = refl
absent k (j ∷ ks) h = ground (arith, absent k ks)

present : (k : Key) (ks : List Key) → has_key k ks ≡ true → 1 ≤ count k ks
present k [] h = ground arith
present k (j ∷ ks) h = ground (arith, present k ks)

missing : (k : Key) (ks : List Key) → has_key k ks ≡ false → count k ks ≡ 0
missing k [] h = refl
missing k (j ∷ ks) h = ground (arith, missing k ks)

tail_distinct : (k : Key) (ks : List Key) → HasDistinctKeys (k ∷ ks) → HasDistinctKeys ks
tail_distinct k ks h j = ground (arith, h j)

head_absent : (k : Key) (ks : List Key) → HasDistinctKeys (k ∷ ks) → has_key k ks ≡ false
head_absent k ks h = absent k ks (ground (arith, h k, same_key_refl k))

module _ {ℓ} {A : Type ℓ} where
  length-filter-or :
      (p q : A → Bool) (xs : List A)
      → All (λ x. (p x && q x) ≡ false) xs
      → length (filter (λ x. p x || q x) xs) ≡ length (filter p xs) + length (filter q xs)
  length-filter-or p q [] h = refl
  length-filter-or p q (x ∷ xs) h = ground (arith, length-filter-or p q xs h.1, h.0)

  length-filter-All :
      (p : A → Bool) (xs : List A) → All (λ x. p x ≡ true) xs → length (filter p xs) ≡ length xs
  length-filter-All p [] h = refl
  length-filter-All p (x ∷ xs) h = ground (arith, length-filter-All p xs h.1, h.0)

  length-filter-none :
      (p : A → Bool) (xs : List A) → All (λ x. p x ≡ false) xs → length (filter p xs) ≡ 0
  length-filter-none p [] h = refl
  length-filter-none p (x ∷ xs) h = ground (arith, length-filter-none p xs h.1, h.0)

everywhere {κ} : (P : Key → Type κ) → ((k : Key) → P k) → (ks : List Key) → All P ks
everywhere P f [] = tt
everywhere P f (k ∷ ks) = (f k, everywhere P f ks)

same_key_sym : (k j : Key) → same_key k j ≡ same_key j k
same_key_sym (node m) (node n) = ground arith
same_key_sym (address a) (address b) = ground (arith, eq_iff a b, eq_iff b a)
same_key_sym (node m) (address b) = refl
same_key_sym (address a) (node n) = refl

count_flip : (k : Key) (ks : List Key) → length (filter (λ j. same_key j k) ks) ≡ count k ks
count_flip k [] = refl
count_flip k (j ∷ ks) = ground (arith, count_flip k ks, same_key_sym k j)

apart :
    (k : Key) (ks : List Key)
    → has_key k ks ≡ false
    → (j : Key) → (same_key j k && has_key j ks) ≡ false
apart k ks h j = elim (Bool-cases (same_key j k)) [
  | inl e ↦ rw e (subst (λ x. has_key x ks ≡ false) (sym (same_key-eq j k e)) h)
  | inr e ↦ rw e refl
]

-- As many keys of one list stand in the other as the other way round.
overlap :
    (ks js : List Key)
    → HasDistinctKeys ks
    → HasDistinctKeys js
    → length (filter (λ k. has_key k js) ks) ≡ length (filter (λ j. has_key j ks) js)
overlap [] js h d = sym (length-filter-none _ js (everywhere _ (λ j. refl) js))
overlap (k ∷ ks) js h d =
    let rest = overlap ks js (tail_distinct k ks h) d in
    let split =
      length-filter-or (λ j. same_key j k) (λ j. has_key j ks) js
        (everywhere _ (apart k ks (head_absent k ks h)) js) in
    let flip = count_flip k js in
    elim (Bool-cases (has_key k js)) [
      | inl e ↦ rw e (omega (arith, rest, split, flip, present k js e, d k))
      | inr e ↦ rw e (omega (arith, rest, split, flip, missing k js e))
    ]

module _ {F : Type 0} where
  key_count : Key → List (Key × F) → ℕ
  key_count k cs = count k (map (λ c. c.0) cs)

  pub count-map :
      (k : Key) (cs : List (Key × F))
      → count k (map (λ c. c.0) cs) ≡ length (filter (λ c. same_key k c.0) cs)
  count-map k [] = refl
  count-map k (c ∷ cs) = ground (arith, count-map k cs)

  pub has_key-map :
      (k : Key) (cs : List (Key × F)) → has_key k (map (λ c. c.0) cs) ≡ any (λ c. same_key k c.0) cs
  has_key-map k [] = refl
  has_key-map k (c ∷ cs) = ap (λ b. same_key k c.0 || b) (has_key-map k cs)

length-map : {F : Type 0} (cs : List (Key × F)) → length (map (λ c. c.0) cs) ≡ length cs
length-map [] = refl
length-map (c ∷ cs) = ap suc (length-map cs)

module _ {F : Type 0} where
  pub keys_present :
      (cs ds : List (Key × F))
      → All (λ c. any (λ d. same_key c.0 d.0) ds ≡ true) cs
      → All (λ k. has_key k (map (λ d. d.0) ds) ≡ true) (map (λ c. c.0) cs)
  keys_present [] ds h = tt
  keys_present (c ∷ cs) ds h = (has_key-map c.0 ds ∙ h.0, keys_present cs ds h.1)

  weaken :
      (d : Key × F) (cs ds : List (Key × F))
      → All (λ c. any (λ e. same_key c.0 e.0) ds ≡ true) cs
      → All (λ c. any (λ e. same_key c.0 e.0) (d ∷ ds) ≡ true) cs
  weaken d [] ds h = tt
  weaken d (c ∷ cs) ds h = (ground (arith, h.0), weaken d cs ds h.1)

  pub self_present : (cs : List (Key × F)) → All (λ c. any (λ e. same_key c.0 e.0) cs ≡ true) cs
  self_present [] = tt
  self_present (c ∷ cs) = (ground (arith, same_key_refl c.0), weaken c cs cs (self_present cs))

module _ {F : Type 0} (num : Numerics F) (uid : ℕ) (epoch : ℤ) where
  chosen-distinct :
      (n : ℕ) (cs : List (Key × F))
      → HasDistinctKeys (map (λ c. c.0) cs)
      → HasDistinctKeys (chosen num uid epoch n cs)
  unfolding chosen
  chosen-distinct n cs h k =
      let sorted = sort_by (ranks_before num uid epoch) cs in
      omega (
        arith,
        h k,
        count-map k cs,
        count-map k (take n sorted),
        length-filter-take (λ c. same_key k c.0) n sorted,
        length-filter-sort_by (ranks_before num uid epoch) (λ c. same_key k c.0) cs,
      )

  pub chosen-present :
      (n : ℕ) (cs : List (Key × F))
      → All (λ k. has_key k (map (λ c. c.0) cs) ≡ true) (chosen num uid epoch n cs)
  unfolding chosen
  chosen-present n cs =
      keys_present (take n (sort_by (ranks_before num uid epoch) cs)) cs
        (All-take _ n _ (All-sort_by (ranks_before num uid epoch) _ cs (self_present cs)))

  pub length-chosen :
      (n : ℕ) (cs : List (Key × F)) → length (chosen num uid epoch n cs) ≡ min n (length cs)
  unfolding chosen
  length-chosen n cs =
      let sorted = sort_by (ranks_before num uid epoch) cs in
      omega (
        arith,
        length-map (take n sorted),
        length-take n sorted,
        length-sort_by (ranks_before num uid epoch) cs,
      )

  -- Of candidates with distinct keys exactly `n` are picked, or all of them where there are fewer.
  pub length-pick_keys :
      (n : ℕ) (cs : List (Key × F))
      → HasDistinctKeys (map (λ c. c.0) cs)
      → length (pick_keys num uid cs n epoch) ≡ min n (length cs)
  unfolding pick_keys
  length-pick_keys zero cs h = omega arith
  length-pick_keys (suc n) [] h = omega arith
  length-pick_keys (suc n) (c ∷ cs) h =
      let ks = chosen num uid epoch (suc n) (c ∷ cs) in
      ground (
        arith,
        length-map (c ∷ cs),
        length-chosen (suc n) (c ∷ cs),
        overlap (map (λ x. x.0) (c ∷ cs)) ks h (chosen-distinct (suc n) (c ∷ cs) h),
        length-filter-All (λ k. has_key k (map (λ x. x.0) (c ∷ cs))) ks
            (chosen-present (suc n) (c ∷ cs)),
      )
