-- ===== src/Addresses/Epoch/Laws.antt =====
-- An epoch is a run of days of the length of the period, and it is told by the day on which it began.
use vpn_panel.Prelude.{ℕ, ◌+◌, ◌-◌, ◌*◌, ◌/◌, ◌<◌, ◌↔◌, max, ◌≡◌, ap, arith}
use native.Mathlib.Nat.{div-add-mod', mod-lt, mul-div_cancel}
use vpn_panel.Prelude.Int.{
  ℤ, pos, negsuc, pos_part, neg_part, ◌+ℤ◌, ◌-ℤ◌, ◌≤ℤ◌, +ℤ_parts, -ℤ_parts, eq_of_parts,
}
use vpn_panel.Addresses.{Numerics}
use vpn_panel.Addresses.Epoch.{floor_div, scale, smear, epoch_for, epoch_start_day}

floor_below : (a : ℤ) (p : ℕ) → 0 < p → scale (floor_div a p) p ≤ℤ a
unfolding floor_div scale
floor_below (pos a) p h = ground (arith, div-add-mod' a p)
floor_below (negsuc a) p h = ground (arith, div-add-mod' a p, mod-lt a h)

floor_above : (a : ℤ) (p : ℕ) → 0 < p → a +ℤ pos 1 ≤ℤ scale (floor_div a p) p +ℤ pos p
unfolding floor_div scale
floor_above (pos a) p h = ground (
  arith,
  +ℤ_parts (pos a) (pos 1),
  +ℤ_parts (pos (a / p * p)) (pos p),
  div-add-mod' a p,
  mod-lt a h,
)
floor_above (negsuc a) p h = ground (
  arith,
  +ℤ_parts (negsuc a) (pos 1),
  +ℤ_parts (negsuc (a / p * p + p - 1)) (pos p),
  div-add-mod' a p,
  mod-lt a h,
)

scale-injective : (a b : ℤ) (p : ℕ) → 0 < p → scale a p ≡ scale b p → a ≡ b
unfolding scale
scale-injective (pos a) (pos b) p h e =
    ground (arith, mul-div_cancel a h, mul-div_cancel b h, ap (λ x. x / p))
scale-injective (pos a) (negsuc b) p h e = ground arith
scale-injective (negsuc a) (pos b) p h e = ground arith
scale-injective (negsuc a) (negsuc b) p h e =
    let same : a * p ≡ b * p = ground arith in
    ground (arith, mul-div_cancel a h, mul-div_cancel b h, ap (λ x. x / p) same)

add_cancel : (a b c : ℤ) → a +ℤ c ≡ b +ℤ c → a ≡ b
add_cancel a b c e =
    eq_of_parts a b (omega (arith, +ℤ_parts a c, +ℤ_parts b c, ap pos_part e, ap neg_part e))

sub_cancel : (a b c : ℤ) → a -ℤ c ≡ b -ℤ c → a ≡ b
sub_cancel a b c e =
    eq_of_parts a b (omega (arith, -ℤ_parts a c, -ℤ_parts b c, ap pos_part e, ap neg_part e))

module _ {F : Type 0} (num : Numerics F) (uid period_days : ℕ) where
  -- A day lies in the epoch that began on its first day: not before that day, and less than a period after it.
  pub epoch_start_day-bounds :
      (day : ℤ)
      → (epoch_start_day num uid day period_days ≤ℤ day)
        × (day +ℤ pos 1 ≤ℤ epoch_start_day num uid day period_days +ℤ pos (max 1 period_days))
  unfolding epoch_start_day
  epoch_start_day-bounds day =
      let p = max 1 period_days in
      let s = smear num uid p in
      let shifted = day +ℤ pos s in
      let start = scale (floor_div shifted p) p in
      let low = floor_below shifted p (omega arith) in
      let high = floor_above shifted p (omega arith) in
      (
        omega (arith, low, +ℤ_parts day (pos s), -ℤ_parts start (pos s)),
        omega (
          arith,
          high,
          +ℤ_parts day (pos s),
          -ℤ_parts start (pos s),
          +ℤ_parts day (pos 1),
          +ℤ_parts shifted (pos 1),
          +ℤ_parts start (pos p),
          +ℤ_parts (start -ℤ pos s) (pos p),
        ),
      )

  -- Two days have the same epoch number, whatever the manual offset, exactly when their epochs began on
  -- the same day.
  pub epoch_for-eq_iff :
      (day later offset : ℤ)
      → (epoch_for num uid day period_days offset ≡ epoch_for num uid later period_days offset)
        ↔ (epoch_start_day num uid day period_days ≡ epoch_start_day num uid later period_days)
  unfolding epoch_for epoch_start_day
  epoch_for-eq_iff day later offset =
      let p = max 1 period_days in
      let s = smear num uid p in
      let m = floor_div (day +ℤ pos s) p in
      let n = floor_div (later +ℤ pos s) p in
      (
        (λ e. ap (λ k. scale k p -ℤ pos s) (add_cancel m n offset e)),
        (λ e.
            ap (λ k. k +ℤ offset)
              (scale-injective m n p (omega arith) (sub_cancel (scale m p) (scale n p) (pos s) e))),
      )
