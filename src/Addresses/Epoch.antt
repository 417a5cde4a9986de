-- ===== src/Addresses/Epoch.antt =====
-- `_smear`, `epoch_for` and `epoch_start_day` of app/xray/address_policy.py: when a user's addresses
-- rotate. Days are counted from a fixed date and may lie before it; `//` rounds down.
pub mod Laws
use vpn_panel.Prelude.{
  ℕ, zero, suc, ◌+◌, ◌-◌, ◌*◌, ◌/◌, ◌%◌, ◌^◌, ◌≤◌, ◌<◌, max, min, String, ◌≡◌, refl, sym, ap, ◌∙◌,
  ◌≢◌, ◌⊎◌, inl, inr, Bool, true, false, ◌&&◌, ◌||◌, not, Option, none, some, List, [], ◌∷◌, ◌++◌,
  map, arith, str_eq, ltb, leb, ◌==◌, if◌then◌else◌, Bool-cases, Option-cases, truthy, or_zero,
  get_or, is_some, some-injective, ==_refl, length, filter, any, All, take, drop, contains,
  contains-append, contains-filter, lookup, insert, keys, lookup-insert,
}
use vpn_panel.Prelude.Int.{ℤ, pos, negsuc, ◌+ℤ◌, ◌-ℤ◌}
use vpn_panel.Addresses.{Numerics}
use vpn_panel.Addresses.Texts.{show_ℕ}
use vpn_panel.Addresses.Policy.{unit_hash}

-- a // p for p > 0
unfoldable pub floor_div : ℤ → ℕ → ℤ
floor_div (pos a) p = pos (a / p)
floor_div (negsuc a) p = negsuc (a / p)

-- a * p
unfoldable pub scale : ℤ → ℕ → ℤ
scale (pos a) p = pos (a * p)
scale (negsuc a) p = negsuc (a * p + p - 1)

module _ {F : Type 0} (num : Numerics F) where
  unfoldable pub smear : ℕ → ℕ → ℕ
  smear uid period =
      num.floor (num.times (unit_hash num ("smear" ∷ show_ℕ uid ∷ [])) (num.of_ℕ period)) % period

  unfoldable pub epoch_for : ℕ → ℤ → ℕ → ℤ → ℤ
  epoch_for uid day period_days offset =
      let period = max 1 period_days in floor_div (day +ℤ pos (smear uid period)) period +ℤ offset

  unfoldable pub epoch_start_day : ℕ → ℤ → ℕ → ℤ
  epoch_start_day uid day period_days =
      let period = max 1 period_days in
      let s = smear uid period in scale (floor_div (day +ℤ pos s) period) period -ℤ pos s
