-- ===== src/Addresses/Weights/Ranges.antt =====
-- The weights of a day, read out of the rows of a range of days.
use vpn_panel.Prelude.{
  lt→ltb, ltb→lt, ==_iff, subst, ℕ, ◌+◌, max, ◌≡◌, refl, sym, ap, ◌∙◌, inl, inr, Bool, true, false,
  Option, none, some, List, [], ◌∷◌, map, arith, leb, ◌==◌, if◌then◌else◌, Bool-cases, get_or,
  filter, lookup, insert, keys, lookup-insert,
}
use vpn_panel.Prelude.Int.{ℤ, pos, pos_part, neg_part, leb_ℤ, ltb_ℤ, ◌-ℤ◌, ◌≤ℤ◌, -ℤ_parts}
use vpn_panel.Addresses.Weights.{
  WeightRow, max_age_days, larger, latest_day, weights_from, day_of, is_of_day, unless_stale,
  get_weight_snapshot, put_row, by_day_from, is_in_range, get_weight_snapshots_range, weights_on,
}

larger_assoc : (a b c : Option ℕ) → larger a (larger b c) ≡ larger (larger a b) c
larger_assoc none b c = refl
larger_assoc (some a) none c = refl
larger_assoc (some a) (some b) none = refl
larger_assoc (some a) (some b) (some c) = ap some (omega arith)

larger_comm : (a b : Option ℕ) → larger a b ≡ larger b a
larger_comm none none = refl
larger_comm none (some b) = refl
larger_comm (some a) none = refl
larger_comm (some a) (some b) = ap some (omega arith)

larger_self : (a : Option ℕ) → larger a a ≡ a
larger_self none = refl
larger_self (some a) = ap some (omega arith)

larger-again : (a b : Option ℕ) → larger a b ≡ larger (larger a b) a
larger-again a b =
    ap (λ c. larger c b) (sym (larger_self a))
    ∙ sym (larger_assoc a a b)
    ∙ larger_comm a (larger a b)

abbrev if_fits : (ℕ → Bool) → ℕ → Option ℕ
if_fits fits day = if fits day then some day else none

-- The latest day among the keys of a dict, after a key is put in.
latest_day-insert {ℓ} :
    {V : Type ℓ} (fits : ℕ → Bool) (day : ℕ) (v : V) (d : List (ℕ × V))
    → latest_day fits (keys (insert day v d)) ≡ larger (latest_day fits (keys d)) (if_fits fits day)
latest_day-insert fits day v [] = larger_comm (if_fits fits day) none
latest_day-insert fits day v ((j, w) ∷ d) = elim (Bool-cases (j == day)) [
  | inl same ↦
      rw (same, (==_iff j day).0 same) (larger-again (if_fits fits day) (latest_day fits (keys d)))
  | inr other ↦ rw other (
      ap (larger (if_fits fits j)) (latest_day-insert fits day v d)
      ∙ larger_assoc (if_fits fits j) (latest_day fits (keys d)) (if_fits fits day))
]

module _ {F : Type 0} where
  latest_day-by_day :
      (fits : ℕ → Bool) (by_day : List (ℕ × List (ℕ × F))) (rows : List (WeightRow F))
      → latest_day fits (keys (by_day_from by_day rows))
        ≡ larger (latest_day fits (keys by_day)) (latest_day fits (map day_of rows))
  latest_day-by_day fits by_day [] = larger_comm none (latest_day fits (keys by_day))
  latest_day-by_day fits by_day (row ∷ rows) =
      latest_day-by_day fits (put_row row by_day) rows
      ∙ ap (λ m. larger m (latest_day fits (map day_of rows)))
          (latest_day-insert fits row.epoch_index _ by_day)
      ∙ sym (
          larger_assoc (latest_day fits (keys by_day)) (if_fits fits row.epoch_index)
            (latest_day fits (map day_of rows)))

  -- The weights of one day in the dict are those of its rows.
  lookup-by_day :
      (day : ℕ) (by_day : List (ℕ × List (ℕ × F))) (rows : List (WeightRow F))
      → get_or (lookup day (by_day_from by_day rows)) []
        ≡ weights_from (get_or (lookup day by_day) []) (filter (is_of_day day) rows)
  lookup-by_day day by_day [] = refl
  lookup-by_day day by_day (row ∷ rows) =
      let put = insert row.node_id row.weight (get_or (lookup row.epoch_index by_day) []) in
      elim (Bool-cases (row.epoch_index == day)) [
        | inl same ↦
            lookup-by_day day (put_row row by_day) rows
            ∙ rw
                (
                  lookup-insert row.epoch_index day put by_day,
                  same,
                  (==_iff row.epoch_index day).0 same,
                )
                refl
        | inr other ↦
            lookup-by_day day (put_row row by_day) rows
            ∙ rw (lookup-insert row.epoch_index day put by_day, other) refl
      ]

-- The latest day among the rows of a range, and that among all rows: they differ only where the latter lies
-- before the range.
Agree : ℤ → (ℕ → Bool) → Option ℕ → Option ℕ → Type 0
Agree low fits none none = Unit
Agree low fits none (some k) = ltb_ℤ (pos k) low ≡ true
Agree low fits (some j) none = ⊥
Agree low fits (some j) (some k) = (j ≡ k) × (ltb_ℤ (pos k) low ≡ false) × (fits k ≡ true)

Agree-in :
    (low : ℤ) (fits : ℕ → Bool) (d : ℕ) (m n : Option ℕ)
    → ltb_ℤ (pos d) low ≡ false
    → fits d ≡ true
    → Agree low fits m n
    → Agree low fits (larger (some d) m) (larger (some d) n)
unfolding Agree
Agree-in low fits d none none inside good h = (refl, inside, good)
Agree-in low fits d none (some k) inside good h =
    let e : max d k ≡ d = ground (arith, h, inside) in rw e (refl, inside, good)
Agree-in low fits d (some j) none inside good h = elim h [ ]
Agree-in low fits d (some j) (some k) inside good h = elim (Bool-cases (leb d k)) [
  | inl below ↦ let e : max d k ≡ k = ground (arith, below) in rw e (ap (max d) h.0 ∙ e, h.1, h.2)
  | inr above ↦
      let e : max d k ≡ d = ground (arith, above) in rw e (ap (max d) h.0 ∙ e, inside, good)
]

Agree-out :
    (low : ℤ) (fits : ℕ → Bool) (d : ℕ) (m n : Option ℕ)
    → ltb_ℤ (pos d) low ≡ true
    → Agree low fits m n
    → Agree low fits m (larger (some d) n)
unfolding Agree
Agree-out low fits d none none outside h = outside
Agree-out low fits d none (some k) outside h = ground (arith, outside, h)
Agree-out low fits d (some j) none outside h = elim h [ ]
Agree-out low fits d (some j) (some k) outside h =
    let e : max d k ≡ k = ground (arith, outside, h.1) in rw e (h.0, h.1, h.2)

-- A day before the rows of a range is too old for every day in the range.
before-stale :
    (first day : ℤ) (d : ℕ)
    → first ≤ℤ day
    → ltb_ℤ (pos d) (first -ℤ pos max_age_days) ≡ true
    → ltb_ℤ (pos (d + max_age_days)) day ≡ true
before-stale first day d early outside =
    lt→ltb (d + 2 + neg_part day) (pos_part day + 0)
      (omega (arith, -ℤ_parts first (pos 2), ltb→lt _ _ outside, early))

module _ {F : Type 0} (first last day : ℤ) (early : first ≤ℤ day) (late : day ≤ℤ last) where
  row_in :
      (row : WeightRow F)
      → leb_ℤ (pos row.epoch_index) day ≡ true
      → ltb_ℤ (pos row.epoch_index) (first -ℤ pos max_age_days) ≡ false
      → is_in_range first last row ≡ true
  row_in row fits inside = ground (arith, fits, inside, late)

  row_out :
      (row : WeightRow F)
      → ltb_ℤ (pos row.epoch_index) (first -ℤ pos max_age_days) ≡ true
      → is_in_range first last row ≡ false
  row_out row outside = ground (arith, outside)

  rows-Agree :
      (rows : List (WeightRow F))
      → Agree
          (first -ℤ pos max_age_days)
          (λ d. leb_ℤ (pos d) day)
          (latest_day (λ d. leb_ℤ (pos d) day) (map day_of (filter (is_in_range first last) rows)))
          (latest_day (λ d. leb_ℤ (pos d) day) (map day_of rows))
  unfolding Agree
  rows-Agree [] = tt
  rows-Agree (row ∷ rows) = elim (Bool-cases (leb_ℤ (pos row.epoch_index) day)) [
    | inl fits ↦ elim (Bool-cases (ltb_ℤ (pos row.epoch_index) (first -ℤ pos max_age_days))) [
      | inl outside ↦
          rw (row_out row outside, fits)
            (Agree-out (first -ℤ pos max_age_days) (λ d. leb_ℤ (pos d) day) row.epoch_index _ _
              outside (rows-Agree rows))
      | inr inside ↦
          rw (row_in row fits inside, fits)
            (Agree-in (first -ℤ pos max_age_days) (λ d. leb_ℤ (pos d) day) row.epoch_index _ _
              inside fits (rows-Agree rows))
    ]
    | inr future ↦ elim (Bool-cases (is_in_range first last row)) [
      | inl listed ↦ rw (listed, future) (rows-Agree rows)
      | inr skipped ↦ rw (skipped, future) (rows-Agree rows)
    ]
  ]

  -- A day in the range has the same rows there.
  filter-day :
      (d : ℕ) (rows : List (WeightRow F))
      → leb_ℤ (pos d) day ≡ true
      → ltb_ℤ (pos d) (first -ℤ pos max_age_days) ≡ false
      → filter (is_of_day d) (filter (is_in_range first last) rows) ≡ filter (is_of_day d) rows
  filter-day d [] fits inside = refl
  filter-day d (row ∷ rows) fits inside = elim (Bool-cases (row.epoch_index == d)) [
    | inl same ↦
        let e = (==_iff row.epoch_index d).0 same in
        rw
          (
            row_in row (subst (λ n. leb_ℤ (pos n) day ≡ true) (sym e) fits)
                (subst (λ n. ltb_ℤ (pos n) (first -ℤ pos max_age_days) ≡ false) (sym e) inside),
            same,
          )
          (ap (λ l. row ∷ l) (filter-day d rows fits inside))
    | inr other ↦ elim (Bool-cases (is_in_range first last row)) [
      | inl listed ↦ rw (listed, other) (filter-day d rows fits inside)
      | inr skipped ↦ rw (skipped, other) (filter-day d rows fits inside)
    ]
  ]

  same_weights :
      (rows : List (WeightRow F)) (m n : Option ℕ)
      → Agree (first -ℤ pos max_age_days) (λ d. leb_ℤ (pos d) day) m n
      → unless_stale day
          (λ latest.
            get_or (lookup latest (by_day_from [] (filter (is_in_range first last) rows))) [])
          m
        ≡ unless_stale day (λ latest. weights_from [] (filter (is_of_day latest) rows)) n
  unfolding Agree
  same_weights rows none none h = refl
  same_weights rows none (some k) h = rw (before-stale first day k early h) refl
  same_weights rows (some j) none h = elim h [ ]
  same_weights rows (some j) (some k) h = rw h.0 (
      ap (λ weights. if ltb_ℤ (pos (k + max_age_days)) day then [] else weights)
        (lookup-by_day k [] (filter (is_in_range first last) rows)
          ∙ ap (weights_from []) (filter-day k rows h.2 h.1)))

  -- The weights that the journal finds for a day, in the snapshots it read once for a whole range of days
  -- around it, are those that the query for that day alone gives: of the latest day not after it, and none
  -- where that day lies more than two days back.
  pub weights_on-range :
      (rows : List (WeightRow F))
      → weights_on (get_weight_snapshots_range rows first last) day ≡ get_weight_snapshot rows day
  unfolding weights_on get_weight_snapshots_range get_weight_snapshot
  weights_on-range rows =
      rw (latest_day-by_day (λ d. leb_ℤ (pos d) day) [] (filter (is_in_range first last) rows))
        (same_weights rows _ _ (rows-Agree rows))
