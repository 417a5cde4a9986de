-- ===== src/Prelude/Sort.antt =====
-- `sorted(xs, key=…)` as a stable insertion sort by a Boolean `before`, and what it keeps.
use mathlib.Core.Path.{◌≡◌, refl, ◌∙◌, ap}
use mathlib.Core.Bool.{Bool, true, false, ◌||◌}
use mathlib.Core.List.{List, [], ◌∷◌}
use mathlib.Core.Logic.{inl, inr}
use Prim.Native.Nat.{suc}
use native.Mathlib.Omega.{arith}
use vpn_panel.Prelude.Tests.{if◌then◌else◌, Bool-cases}
use vpn_panel.Prelude.Lists.{filter, any, All, length}

module _ {ℓ} {A : Type ℓ} (before : A → A → Bool) where
  abbrev pub insert_by : A → List A → List A
  insert_by x [] = x ∷ []
  insert_by x (y ∷ ys) = let rest = insert_by x ys in if before x y then x ∷ y ∷ ys else y ∷ rest

  abbrev pub sort_by : List A → List A
  sort_by [] = []
  sort_by (x ∷ xs) = insert_by x (sort_by xs)

  pub any-insert_by :
      (p : A → Bool) (x : A) (ys : List A) → any p (insert_by x ys) ≡ (p x || any p ys)
  any-insert_by p x [] = refl
  any-insert_by p x (y ∷ ys) = ground (arith, any-insert_by p x ys)

  pub any-sort_by : (p : A → Bool) (xs : List A) → any p (sort_by xs) ≡ any p xs
  any-sort_by p [] = refl
  any-sort_by p (x ∷ xs) = any-insert_by p x (sort_by xs) ∙ ap (λ b. p x || b) (any-sort_by p xs)

  pub length-insert_by : (x : A) (ys : List A) → length (insert_by x ys) ≡ suc (length ys)
  length-insert_by x [] = refl
  length-insert_by x (y ∷ ys) = ground (arith, length-insert_by x ys)

  pub length-sort_by : (xs : List A) → length (sort_by xs) ≡ length xs
  length-sort_by [] = refl
  length-sort_by (x ∷ xs) = length-insert_by x (sort_by xs) ∙ ap suc (length-sort_by xs)

  length-filter-insert_by :
      (p : A → Bool) (x : A) (ys : List A)
      → length (filter p (insert_by x ys)) ≡ length (filter p (x ∷ ys))
  length-filter-insert_by p x [] = refl
  length-filter-insert_by p x (y ∷ ys) = ground (arith, length-filter-insert_by p x ys)

  -- Sorting keeps the number of elements that pass a test.
  pub length-filter-sort_by :
      (p : A → Bool) (xs : List A) → length (filter p (sort_by xs)) ≡ length (filter p xs)
  length-filter-sort_by p [] = refl
  length-filter-sort_by p (x ∷ xs) =
      ground (arith, length-filter-insert_by p x (sort_by xs), length-filter-sort_by p xs)

  pub All-insert_by {κ} :
      (P : A → Type κ) (x : A) (ys : List A) → P x → All P ys → All P (insert_by x ys)
  All-insert_by P x [] h hs = (h, tt)
  All-insert_by P x (y ∷ ys) h hs = elim (Bool-cases (before x y)) [
    | inl first ↦ rw first (h, hs)
    | inr later ↦ rw later (hs.0, All-insert_by P x ys h hs.1)
  ]

  pub All-sort_by {κ} : (P : A → Type κ) (xs : List A) → All P xs → All P (sort_by xs)
  All-sort_by P [] h = tt
  All-sort_by P (x ∷ xs) h = All-insert_by P x (sort_by xs) h.0 (All-sort_by P xs h.1)

  -- Every element stands before all behind it.
  abbrev pub IsSortedBy : List A → Type ℓ
  IsSortedBy [] = Unit
  IsSortedBy (x ∷ xs) = All (λ y. before x y ≡ true) xs × IsSortedBy xs

  module _ (total : (a b : A) → before a b ≡ false → before b a ≡ true)
      (transitive : (a b c : A) → before a b ≡ true → before b c ≡ true → before a c ≡ true) where
    before_each :
        (x y : A) (ys : List A)
        → before x y ≡ true
        → All (λ z. before y z ≡ true) ys
        → All (λ z. before x z ≡ true) ys
    before_each x y [] h hs = tt
    before_each x y (z ∷ ys) h hs = (transitive x y z h hs.0, before_each x y ys h hs.1)

    insert_by-IsSortedBy : (x : A) (ys : List A) → IsSortedBy ys → IsSortedBy (insert_by x ys)
    insert_by-IsSortedBy x [] h = (tt, tt)
    insert_by-IsSortedBy x (y ∷ ys) h = elim (Bool-cases (before x y)) [
      | inl first ↦ rw first ((first, before_each x y ys first h.0), h)
      | inr later ↦ rw later (
        All-insert_by (λ z. before y z ≡ true) x ys (total x y later) h.0,
        insert_by-IsSortedBy x ys h.1,
      )
    ]

    pub sort_by-IsSortedBy : (xs : List A) → IsSortedBy (sort_by xs)
    sort_by-IsSortedBy [] = tt
    sort_by-IsSortedBy (x ∷ xs) = insert_by-IsSortedBy x (sort_by xs) (sort_by-IsSortedBy xs)

    -- An element that stands before all of a list is inserted in front of what is kept of it.
    insert_front :
        (p : A → Bool) (x : A) (ys : List A)
        → All (λ z. before x z ≡ true) ys
        → insert_by x (filter p ys) ≡ x ∷ filter p ys
    insert_front p x [] h = refl
    insert_front p x (y ∷ ys) h = ground (arith, insert_front p x ys h.1, h.0)

    filter-insert_by :
        (p : A → Bool) (x : A) (ys : List A)
        → IsSortedBy ys
        → filter p (insert_by x ys) ≡ (if p x then insert_by x (filter p ys) else filter p ys)
    filter-insert_by p x [] h = ground arith
    filter-insert_by p x (y ∷ ys) h = elim (Bool-cases (before x y)) [
      | inl first ↦ ground (arith, insert_front p x (y ∷ ys) (first, before_each x y ys first h.0))
      | inr later ↦ ground (arith, filter-insert_by p x ys h.1)
    ]

    -- What is kept of a sorted list is the sorted list of what is kept.
    pub filter-sort_by :
        (p : A → Bool) (xs : List A) → filter p (sort_by xs) ≡ sort_by (filter p xs)
    filter-sort_by p [] = refl
    filter-sort_by p (x ∷ xs) =
        filter-insert_by p x (sort_by xs) (sort_by-IsSortedBy xs)
        ∙ rw (filter-sort_by p xs)
            (elim (Bool-cases (p x)) [ inl e ↦ rw e refl | inr e ↦ rw e refl ])
