-- ===== src/Review/Batches.antt =====
-- The removal of the changed users from the xray cores, in batches of at most 50.
use mathlib.Core.List.{flatten}
use vpn_panel.Prelude.{
  take, drop, ℕ, zero, suc, ◌-◌, ◌≤◌, ◌<◌, ◌≡◌, refl, List, [], ◌∷◌, ◌++◌, length, All, arith,
}
use vpn_panel.Review.{remove_batch_size}

module _ {ℓ} {A : Type ℓ} where
  -- `for batch_start in range(0, len(xs), size): batch = xs[batch_start : batch_start + size]`; the
  -- fuel counts the rounds, of which a list has no more than elements
  unfoldable pub batches : ℕ → ℕ → List A → List (List A)
  batches zero size xs = []
  batches (suc fuel) size [] = []
  batches (suc fuel) size (x ∷ xs) = take size (x ∷ xs) ∷ batches fuel size (drop size (x ∷ xs))

  unfoldable pub removal_batches : List A → List (List A)
  removal_batches xs = batches (length xs) remove_batch_size xs

  take-drop : (n : ℕ) (xs : List A) → take n xs ++ drop n xs ≡ xs
  take-drop zero xs = refl
  take-drop (suc n) [] = refl
  take-drop (suc n) (x ∷ xs) = ground (arith, take-drop n xs)

  length-take-le : (n : ℕ) (xs : List A) → length (take n xs) ≤ n
  length-take-le zero xs = omega arith
  length-take-le (suc n) [] = omega arith
  length-take-le (suc n) (x ∷ xs) = omega (arith, length-take-le n xs)

  length-drop : (n : ℕ) (xs : List A) → length (drop n xs) ≡ length xs - n
  length-drop zero xs = omega arith
  length-drop (suc n) [] = omega arith
  length-drop (suc n) (x ∷ xs) = omega (arith, length-drop n xs)

  batches_lem :
      (fuel size : ℕ) (xs : List A)
      → length xs ≤ fuel
      → (flatten (batches fuel (suc size) xs) ≡ xs)
        × All (λ b. (0 < length b) × (length b ≤ suc size)) (batches fuel (suc size) xs)
  unfolding batches flatten
  batches_lem zero size [] h = (refl, tt)
  batches_lem zero size (x ∷ xs) h = absurd (omega arith)
  batches_lem (suc fuel) size [] h = (refl, tt)
  batches_lem (suc fuel) size (x ∷ xs) h =
      let ih = batches_lem fuel size (drop size xs) (omega (arith, length-drop size xs)) in
      (
        rw ih.0 (ground (arith, take-drop size xs)),
        ((omega arith, omega (arith, length-take-le size xs)), ih.1),
      )

-- The batches hold the users to remove, each once and in order; none is empty, none has more than 50.
pub removal_batches_lem {ℓ} :
    {A : Type ℓ} (xs : List A)
    → (flatten (removal_batches xs) ≡ xs)
      × All (λ b. (0 < length b) × (length b ≤ remove_batch_size)) (removal_batches xs)
unfolding removal_batches
removal_batches_lem xs = batches_lem (length xs) 49 xs (omega arith)
