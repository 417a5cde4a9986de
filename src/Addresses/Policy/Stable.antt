-- ===== src/Addresses/Policy/Stable.antt =====
-- What a change of the candidates leaves of a choice: the point of rendezvous hashing.
use vpn_panel.Prelude.{
  ℕ, zero, suc, ◌≤◌, ◌<◌, ◌≡◌, refl, sym, ap, ◌∙◌, subst, inl, inr, Bool, true, false, ◌&&◌, List,
  [], ◌∷◌, map, arith, leb, Bool-cases, length, filter, any, All, take,
}
use vpn_panel.Prelude.Int.{ℤ}
use vpn_panel.Prelude.Sort.{sort_by, filter-sort_by, any-sort_by, length-sort_by}
use vpn_panel.Addresses.{Numerics}
use vpn_panel.Addresses.Texts.{text_leb_total, text_leb_trans}
use vpn_panel.Addresses.Policy.{
  Key, show, same_key, has_key, score, ranks_before, chosen, pick_keys,
}
use vpn_panel.Addresses.Policy.Bounds.{
  same_key-eq, same_key_refl, chosen-present, length-chosen, has_key-map, self_present,
  keys_present,
}

module _ {ℓ} {A : Type ℓ} where
  take_more :
      (q : A → Bool) (n : ℕ) (xs : List A)
      → any q (take n xs) ≡ true
      → any q (take (suc n) xs) ≡ true
  take_more q zero xs h = ground arith
  take_more q (suc n) [] h = h
  take_more q (suc n) (x ∷ xs) h = ground (arith, take_more q n xs)

  -- What is kept of the first `n` stands among the first `n` of what is kept.
  take_kept :
      (p q : A → Bool) (n : ℕ) (xs : List A)
      → any (λ x. q x && p x) (take n xs) ≡ true
      → any q (take n (filter p xs)) ≡ true
  take_kept p q zero xs h = ground arith
  take_kept p q (suc n) [] h = ground arith
  take_kept p q (suc n) (x ∷ xs) h = ground (arith, take_kept p q n xs, take_more q n (filter p xs))

  take_all : (n : ℕ) (xs : List A) → length xs ≤ n → take n xs ≡ xs
  take_all zero [] h = refl
  take_all zero (x ∷ xs) h = absurd (omega arith)
  take_all (suc n) [] h = refl
  take_all (suc n) (x ∷ xs) h = ap (λ ys. x ∷ ys) (take_all n xs (omega arith))

  filter-All : (p : A → Bool) (xs : List A) → All (λ x. p x ≡ true) xs → filter p xs ≡ xs
  filter-All p [] h = refl
  filter-All p (x ∷ xs) h = rw h.0 (ap (λ ys. x ∷ ys) (filter-All p xs h.1))

  -- The first `n` elements are the first `n` of what is kept, where all of them are kept.
  take_unmoved :
      (p : A → Bool) (n : ℕ) (xs : List A)
      → All (λ x. p x ≡ true) (take n xs)
      → take n (filter p xs) ≡ take n xs
  take_unmoved p zero xs h = refl
  take_unmoved p (suc n) [] h = refl
  take_unmoved p (suc n) (x ∷ xs) h = rw h.0 (ap (λ ys. x ∷ ys) (take_unmoved p n xs h.1))

-- A key that stands in a list has what all its keys have.
All-has_key :
    (p : Key → Bool) (k : Key) (ks : List Key)
    → All (λ j. p j ≡ true) ks
    → has_key k ks ≡ true
    → p k ≡ true
All-has_key p k [] h e = ground arith
All-has_key p k (j ∷ ks) h e = elim (Bool-cases (same_key k j)) [
  | inl same ↦ subst (λ i. p i ≡ true) (sym (same_key-eq k j same)) h.0
  | inr other ↦ All-has_key p k ks h.1 (ground arith)
]

pub has_key-filter :
    (p : Key → Bool) (k : Key) (ks : List Key)
    → has_key k ks ≡ true
    → p k ≡ true
    → has_key k (filter p ks) ≡ true
has_key-filter p k [] h e = h
has_key-filter p k (j ∷ ks) h e = elim (Bool-cases (same_key k j)) [
  | inl same ↦ rw (subst (λ i. p i ≡ true) (same_key-eq k j same) e) (ground arith)
  | inr other ↦ ground (arith, has_key-filter p k ks)
]

pub has_key-in_filter :
    (q : Key → Bool) (k : Key) (ks : List Key)
    → has_key k (filter q ks) ≡ true
    → (has_key k ks && q k) ≡ true
has_key-in_filter q k [] h = h
has_key-in_filter q k (j ∷ ks) h = elim (Bool-cases (same_key k j)) [
  | inl same ↦
      subst (λ i. has_key k (filter q (i ∷ ks)) ≡ true → (has_key k (i ∷ ks) && q k) ≡ true)
        (same_key-eq k j same) (λ g. ground (arith, same_key_refl k, has_key-in_filter q k ks)) h
  | inr other ↦ ground (arith, has_key-in_filter q k ks)
]

filter-filter :
    (q keep : Key → Bool) (ks : List Key)
    → ((k : Key) → q k ≡ true → keep k ≡ true)
    → filter q (filter keep ks) ≡ filter q ks
filter-filter q keep [] h = refl
filter-filter q keep (k ∷ ks) h = ground (arith, filter-filter q keep ks h, h k)

-- What all keys of `js` have, that stand in `ks` and that `js` is told to have of them.
All-chosen :
    (p : Key → Bool) (js ks all : List Key)
    → All (λ j. has_key j all ≡ true) js
    → All (λ k. p k ≡ true) (filter (λ k. has_key k ks) all)
    → All (λ j. has_key j ks ≡ true) js
    → All (λ j. p j ≡ true) js
All-chosen p [] ks all h e m = tt
All-chosen p (j ∷ js) ks all h e m = (
  All-has_key p j _ e (has_key-filter (λ k. has_key k ks) j all h.0 m.0),
  All-chosen p js ks all h.1 e m.1,
)

pub members : (ks : List Key) → All (λ k. has_key k ks ≡ true) ks
members ks = members_of ks ks (λ k h. h)
  where
    members_of :
        (js ks : List Key)
        → ((k : Key) → has_key k js ≡ true → has_key k ks ≡ true)
        → All (λ k. has_key k ks ≡ true) js
    members_of [] ks h = tt
    members_of (j ∷ js) ks h =
        (h j (ground (arith, same_key_refl j)), members_of js ks (λ k e. h k (ground arith)))

some_key : (k : Key) (ks : List Key) → has_key k ks ≡ true → 0 < length ks
some_key k [] h = ground arith
some_key k (j ∷ ks) h = omega arith

All-picked :
    (js ks all : List Key)
    → All (λ j. has_key j all ≡ true) js
    → All (λ j. has_key j ks ≡ true) js
    → All (λ j. has_key j (filter (λ k. has_key k ks) all) ≡ true) js
All-picked [] ks all h e = tt
All-picked (j ∷ js) ks all h e =
    (has_key-filter (λ k. has_key k ks) j all h.0 e.0, All-picked js ks all h.1 e.1)

-- the candidates whose keys are kept
abbrev pub keeping : {F : Type 0} → (Key → Bool) → List (Key × F) → List (Key × F)
keeping keep = filter (λ c. keep c.0)

module _ {F : Type 0} (num : Numerics F) (uid : ℕ) (epoch : ℤ) where
  abbrev ranks : Key × F → Key × F → Bool
  ranks = ranks_before num uid epoch

  sorted_present :
      (cs ds : List (Key × F))
      → All (λ c. any (λ d. same_key c.0 d.0) ds ≡ true) cs
      → All (λ c. any (λ d. same_key c.0 d.0) (sort_by ranks ds) ≡ true) cs
  sorted_present [] ds h = tt
  sorted_present (c ∷ cs) ds h =
      (any-sort_by ranks (λ d. same_key c.0 d.0) ds ∙ h.0, sorted_present cs ds h.1)

  chosen_when_few :
      (n : ℕ) (cs : List (Key × F))
      → length cs ≤ n
      → All (λ k. has_key k (chosen num uid epoch n cs) ≡ true) (map (λ c. c.0) cs)
  unfolding chosen
  chosen_when_few n cs h =
      rw (take_all n (sort_by ranks cs) (omega (arith, length-sort_by ranks cs)))
        (keys_present cs (sort_by ranks cs) (sorted_present cs cs (self_present cs)))

  abbrev pub chosen_of : ℕ → List (Key × F) → List Key
  chosen_of n cs = filter (λ k. has_key k (chosen num uid epoch n cs)) (map (λ c. c.0) cs)

  pub pick_keys-eq :
      (n : ℕ) (cs : List (Key × F)) → pick_keys num uid cs (suc n) epoch ≡ chosen_of (suc n) cs
  unfolding pick_keys
  pick_keys-eq n [] = refl
  pick_keys-eq n (c ∷ cs) = elim (Bool-cases (leb (length (c ∷ cs)) (suc n))) [
    | inl few ↦ rw few (
        sym (
          filter-All _ (map (λ x. x.0) (c ∷ cs)) (chosen_when_few (suc n) (c ∷ cs) (ground arith))))
    | inr many ↦ rw many refl
  ]

  none_picked : (cs : List (Key × F)) → pick_keys num uid cs 0 epoch ≡ []
  unfolding pick_keys
  none_picked cs = refl

  -- A picked key is a candidate's.
  pub pick_keys-from :
      (n : ℕ) (cs : List (Key × F)) (k : Key)
      → has_key k (pick_keys num uid cs n epoch) ≡ true
      → has_key k (map (λ c. c.0) cs) ≡ true
  pick_keys-from zero cs k h =
      let none : has_key k [] ≡ true = subst (λ ks. has_key k ks ≡ true) (none_picked cs) h in
      ground (arith, none)
  pick_keys-from (suc n) cs k h =
      let picked =
        has_key-in_filter (λ j. has_key j (chosen num uid epoch (suc n) cs)) k (map (λ c. c.0) cs)
          (subst (λ ks. has_key k ks ≡ true) (pick_keys-eq n cs) h) in
      ground (arith, picked)

  some_common :
      (js ks : List Key)
      → 0 < length js
      → All (λ j. has_key j ks ≡ true) js
      → (p : Key → Bool) → All (λ j. p j ≡ true) js
      → 0 < length (filter p ks)
  some_common [] ks h m p e = absurd (omega arith)
  some_common (j ∷ js) ks h m p e = some_key j (filter p ks) (has_key-filter p j ks m.0 e.0)

  -- Of candidates there are, one is picked at least, also where two have the same key.
  pub pick_keys-some :
      (n : ℕ) (cs : List (Key × F))
      → 0 < n
      → 0 < length cs
      → 0 < length (filter (λ k. has_key k (pick_keys num uid cs n epoch)) (map (λ c. c.0) cs))
  pick_keys-some zero cs p q = absurd (omega arith)
  pick_keys-some (suc n) cs p q =
      let ks = chosen num uid epoch (suc n) cs in
      let all = map (λ c. c.0) cs in
      let present = chosen-present num uid epoch (suc n) cs in
      rw (pick_keys-eq n cs) (
        some_common ks all (omega (arith, length-chosen num uid epoch (suc n) cs)) present
          (λ k. has_key k (filter (λ j. has_key j ks) all))
          (All-picked ks ks all present (members ks)))

  module _ (le_total : (a b : F) → num.le a b ≡ false → num.le b a ≡ true)
      (le_trans : (a b c : F) → num.le a b ≡ true → num.le b c ≡ true → num.le a c ≡ true) where
    ranks_total : (a b : Key × F) → ranks a b ≡ false → ranks b a ≡ true
    unfolding ranks_before
    ranks_total a b h = ground (
      arith,
      le_total (score num uid epoch a) (score num uid epoch b),
      text_leb_total (show a.0) (show b.0),
    )

    ranks_trans : (a b c : Key × F) → ranks a b ≡ true → ranks b c ≡ true → ranks a c ≡ true
    unfolding ranks_before
    ranks_trans a b c h k =
        let sa = score num uid epoch a in
        let sb = score num uid epoch b in
        let sc = score num uid epoch c in
        ground (
          arith,
          le_total sa sb,
          le_total sb sc,
          le_total sa sc,
          le_total sb sa,
          le_total sc sb,
          le_trans sa sb sc,
          le_trans sc sb sa,
          le_trans sb sc sa,
          le_trans sc sa sb,
          le_trans sa sc sb,
          le_trans sb sa sc,
          text_leb_trans (show a.0) (show b.0) (show c.0),
        )

    keys-keeping :
        (keep : Key → Bool) (cs : List (Key × F))
        → map (λ c. c.0) (keeping keep cs) ≡ filter keep (map (λ c. c.0) cs)
    keys-keeping keep [] = refl
    keys-keeping keep (c ∷ cs) = elim (Bool-cases (keep c.0)) [
      | inl e ↦ rw e (ap (λ ks. c.0 ∷ ks) (keys-keeping keep cs))
      | inr e ↦ rw e (keys-keeping keep cs)
    ]

    kept_of :
        (keep : Key → Bool) (cs : List (Key × F))
        → All (λ k. keep k ≡ true) (map (λ c. c.0) cs)
        → All (λ c. keep c.0 ≡ true) cs
    kept_of keep [] h = tt
    kept_of keep (c ∷ cs) h = (h.0, kept_of keep cs h.1)

    unmoved_chosen :
        (keep : Key → Bool) (n : ℕ) (cs : List (Key × F))
        → All (λ k. keep k ≡ true) (chosen num uid epoch n cs)
        → chosen num uid epoch n (keeping keep cs) ≡ chosen num uid epoch n cs
    unfolding chosen
    unmoved_chosen keep n cs h =
        rw (sym (filter-sort_by ranks ranks_total ranks_trans (λ c. keep c.0) cs)) (
          ap (map (λ c. c.0)) (
            take_unmoved (λ c. keep c.0) n (sort_by ranks cs)
              (kept_of keep (take n (sort_by ranks cs)) h)))

    -- A user keeps the same keys when candidates go that the user had not picked, where the comparison of
    -- scores is total and transitive.
    pub pick_keys-unmoved :
        (keep : Key → Bool) (n : ℕ) (cs : List (Key × F))
        → All (λ k. keep k ≡ true) (pick_keys num uid cs n epoch)
        → pick_keys num uid (keeping keep cs) n epoch ≡ pick_keys num uid cs n epoch
    pick_keys-unmoved keep zero cs h = none_picked (keeping keep cs) ∙ sym (none_picked cs)
    pick_keys-unmoved keep (suc n) cs h =
        let ks = chosen num uid epoch (suc n) cs in
        let all = map (λ c. c.0) cs in
        let kept =
          All-chosen keep ks ks all (chosen-present num uid epoch (suc n) cs)
            (subst (All (λ k. keep k ≡ true)) (pick_keys-eq n cs) h) (members ks) in
        rw (pick_keys-eq n (keeping keep cs)) (
          rw (pick_keys-eq n cs) (
            rw (unmoved_chosen keep (suc n) cs kept) (
              rw (keys-keeping keep cs) (
                filter-filter (λ k. has_key k ks) keep all (λ k e. All-has_key keep k ks kept e)))))

    any_kept :
        (keep : Key → Bool) (k : Key) (cs : List (Key × F))
        → any (λ c. same_key k c.0) cs ≡ true
        → keep k ≡ true
        → any (λ c. same_key k c.0 && keep c.0) cs ≡ true
    any_kept keep k [] h e = h
    any_kept keep k (c ∷ cs) h e = elim (Bool-cases (same_key k c.0)) [
      | inl same ↦ rw same (rw (subst (λ i. keep i ≡ true) (same_key-eq k c.0 same) e) refl)
      | inr other ↦ ground (arith, any_kept keep k cs)
    ]

    chosen-keeps :
        (keep : Key → Bool) (n : ℕ) (cs : List (Key × F)) (k : Key)
        → has_key k (chosen num uid epoch n cs) ≡ true
        → keep k ≡ true
        → has_key k (chosen num uid epoch n (keeping keep cs)) ≡ true
    unfolding chosen
    chosen-keeps keep n cs k h e =
        let sorted = sort_by ranks cs in
        rw (sym (filter-sort_by ranks ranks_total ranks_trans (λ c. keep c.0) cs)) (
          has_key-map k (take n (keeping keep sorted))
          ∙ take_kept (λ c. keep c.0) (λ c. same_key k c.0) n sorted
              (any_kept keep k (take n sorted) (sym (has_key-map k (take n sorted)) ∙ h) e))

    -- A key that a user had picked stays picked when other candidates go, where the comparison of scores
    -- is total and transitive.
    pub pick_keys-keeps :
        (keep : Key → Bool) (n : ℕ) (cs : List (Key × F)) (k : Key)
        → has_key k (pick_keys num uid cs n epoch) ≡ true
        → keep k ≡ true
        → has_key k (pick_keys num uid (keeping keep cs) n epoch) ≡ true
    pick_keys-keeps keep zero cs k h e =
        rw (none_picked (keeping keep cs)) (subst (λ ks. has_key k ks ≡ true) (none_picked cs) h)
    pick_keys-keeps keep (suc n) cs k h e =
        let all = map (λ c. c.0) cs in
        let picked =
          has_key-in_filter (λ j. has_key j (chosen num uid epoch (suc n) cs)) k all
            (subst (λ ks. has_key k ks ≡ true) (pick_keys-eq n cs) h) in
        rw (pick_keys-eq n (keeping keep cs)) (
          rw (keys-keeping keep cs) (
            has_key-filter (λ j. has_key j (chosen num uid epoch (suc n) (keeping keep cs))) k
              (filter keep all) (has_key-filter keep k all (ground (arith, picked)) e)
              (chosen-keeps keep (suc n) cs k (ground (arith, picked)) e)))
