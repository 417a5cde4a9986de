-- ===== src/Addresses/Pins.antt =====
-- app/db/crud.py: the pins that tie a user to nodes of a host for a while. Rows are never deleted: they are
-- the history from which a past day is told.
pub mod Laws
use vpn_panel.Prelude.{
  ℕ, zero, suc, ◌+◌, ◌-◌, ◌*◌, ◌/◌, ◌%◌, ◌^◌, ◌≤◌, ◌<◌, max, min, String, ◌≡◌, refl, sym, ap, ◌∙◌,
  ◌≢◌, ◌⊎◌, inl, inr, Bool, true, false, ◌&&◌, ◌||◌, not, Option, none, some, List, [], ◌∷◌, ◌++◌,
  map, arith, str_eq, ltb, leb, ◌==◌, if◌then◌else◌, Bool-cases, Option-cases, truthy, or_zero,
  get_or, is_some, some-injective, ==_refl, length, filter, any, All, take, drop, contains,
  contains-append, contains-filter, lookup, insert, keys, lookup-insert,
}
use vpn_panel.Prelude.Sort.{sort_by}

pub record UserNodePin : Type 0 where
  pub id : ℕ
  pub user_id : ℕ
  pub host_id : ℕ
  pub node_ids : List ℕ
  pub created_at : ℕ
  pub expires_at : ℕ
  pub created_by : String
  pub note : Option String

-- ORDER BY host_id, created_at, id
abbrev pub pin_before : UserNodePin → UserNodePin → Bool
pin_before p q =
    ltb p.host_id q.host_id
    || (p.host_id == q.host_id
        && (ltb p.created_at q.created_at || (p.created_at == q.created_at && leb p.id q.id)))

-- the loop `pins[row.host_id] = row.node_ids`
abbrev pub latest_from : List (ℕ × List ℕ) → List UserNodePin → List (ℕ × List ℕ)
latest_from pins [] = pins
latest_from pins (p ∷ rows) = latest_from (insert p.host_id p.node_ids pins) rows

abbrev pub latest : (UserNodePin → Bool) → List UserNodePin → List (ℕ × List ℕ)
latest selects rows = latest_from [] (sort_by pin_before (filter selects rows))

abbrev pub is_active_pin : ℕ → ℕ → UserNodePin → Bool
is_active_pin uid now p = p.user_id == uid && ltb now p.expires_at

abbrev pub covers : ℕ → ℕ → ℕ → UserNodePin → Bool
covers uid day_start day_end p =
    p.user_id == uid && ltb p.created_at day_end && ltb day_start p.expires_at

unfoldable pub get_active_pins : List UserNodePin → ℕ → ℕ → List (ℕ × List ℕ)
get_active_pins rows uid now = latest (is_active_pin uid now) rows

unfoldable pub get_pins_covering_day : List UserNodePin → ℕ → ℕ → ℕ → List (ℕ × List ℕ)
get_pins_covering_day rows uid day_start day_end = latest (covers uid day_start day_end) rows

unfoldable pub create_user_node_pin : List UserNodePin → UserNodePin → List UserNodePin
create_user_node_pin rows pin = rows ++ (pin ∷ [])

abbrev pub is_pinned_now : ℕ → ℕ → ℕ → UserNodePin → Bool
is_pinned_now uid host now p = p.user_id == uid && p.host_id == host && ltb now p.expires_at

abbrev pub expire_pin : ℕ → ℕ → ℕ → UserNodePin → UserNodePin
expire_pin uid host now p = record p {
  expires_at = if is_pinned_now uid host now p then now else p.expires_at;
}

-- the number of pins taken off, and the table after it
unfoldable pub delete_user_node_pin : List UserNodePin → ℕ → ℕ → ℕ → ℕ × List UserNodePin
delete_user_node_pin rows uid host now =
    (length (filter (is_pinned_now uid host now) rows), map (expire_pin uid host now) rows)
