-- ===== src/Notifications/Drain.antt =====
-- The loop over the queue: when it ends, and what it leaves to be sent.
use vpn_panel.Prelude.{
  subst, sum_of, sum_of-append, length-append, filter-append, leb→le, ℕ, zero, suc, ◌+◌, ◌-◌, ◌≤◌,
  ◌<◌, ◌≡◌, refl, sym, ap, ◌∙◌, inl, inr, Bool, true, false, ◌&&◌, none, some, List, [], ◌∷◌, ◌++◌,
  arith, ltb, leb, Bool-cases, some-injective, length, filter, any, any-append, All, All-append,
}
use vpn_panel.Notifications.{Notification, Draining, take_next, drain}

-- may still be sent
abbrev pub is_open : ℕ → Notification → Bool
is_open limit n = leb n.tries limit

module _ (limit : ℕ) (clock : ℕ → ℕ) where
  -- a notification that may still be sent, and for which every reading of the clock is too early
  abbrev pub waits : ℕ → Notification → Bool
  waits latest n = leb n.tries limit && ltb latest n.send_at

  module _ (latest : ℕ) (early : (i : ℕ) → clock i ≤ latest) where
    any-take_next :
        (n : Notification) (rest : List Notification) (s : Draining)
        → any (waits latest) (n ∷ rest) ≡ true
        → any (waits latest) (take_next limit clock n rest s).0 ≡ true
    unfolding take_next
    any-take_next n rest s h =
        ground (arith, h, early s.reading, any-append (waits latest) rest (n ∷ []))

    -- The loop does not end, however long it runs, while the queue has a notification that may still be sent
    -- and is scheduled for later than every reading of the clock: it is taken off and put back at once.
    pub drain-spins :
        (fuel : ℕ) (queue : List Notification) (s : Draining)
        → any (waits latest) queue ≡ true
        → drain limit clock fuel queue s ≡ none
    unfolding drain
    drain-spins fuel [] s h = ground (arith, h)
    drain-spins zero (n ∷ rest) s h = refl
    drain-spins (suc fuel) (n ∷ rest) s h =
        drain-spins fuel (take_next limit clock n rest s).0 (take_next limit clock n rest s).1
          (any-take_next n rest s h)

  -- Readings that are too early are before the k-th.
  too_early :
      (k reading : ℕ) (n : Notification)
      → ((i : ℕ) → k ≤ i → n.send_at ≤ clock i)
      → ltb (clock reading) n.send_at ≡ true
      → reading < k
  too_early k reading n due early = elim (Bool-cases (leb k reading)) [
    | inl late ↦ ground (arith, due reading (leb→le k reading late), early)
    | inr before ↦ ground (arith, before)
  ]

  take-used_up :
      (n : Notification) (rest : List Notification) (s : Draining)
      → ltb limit n.tries ≡ true
      → take_next limit clock n rest s ≡ (rest, s)
  unfolding take_next
  take-used_up n rest s used_up = rw used_up refl

  take-early :
      (n : Notification) (rest : List Notification) (s : Draining)
      → ltb limit n.tries ≡ false
      → ltb (clock s.reading) n.send_at ≡ true
      → take_next limit clock n rest s ≡ (rest ++ (n ∷ []), record s { reading = suc s.reading })
  unfolding take_next
  take-early n rest s opened early = rw (opened, early) refl

  take-now :
      (n : Notification) (rest : List Notification) (s : Draining)
      → ltb limit n.tries ≡ false
      → ltb (clock s.reading) n.send_at ≡ false
      → take_next limit clock n rest s
        ≡ (rest, record { to_send = s.to_send ++ (n ∷ []); reading = suc s.reading })
  unfolding take_next
  take-now n rest s opened now = rw (opened, now) refl

  -- The loop ends: where every notification's time has come from the k-th reading of the clock on, k rounds
  -- and one for each notification are enough.
  pub drain-ends :
      (k fuel : ℕ) (queue : List Notification) (s : Draining)
      → All (λ n. (i : ℕ) → k ≤ i → n.send_at ≤ clock i) queue
      → (k - s.reading) + length queue ≤ fuel
      → (last : Draining) × (drain limit clock fuel queue s ≡ some last)
  unfolding drain
  drain-ends k fuel [] s due enough = (s, refl)
  drain-ends k zero (n ∷ rest) s due enough = ground (arith, enough)
  drain-ends k (suc fuel) (n ∷ rest) s due enough =
      let Ends = λ (r : List Notification × Draining).
        (last : Draining) × (drain limit clock fuel r.0 r.1 ≡ some last) in
      elim (Bool-cases (ltb limit n.tries)) [
        | inl used_up ↦
            subst Ends (sym (take-used_up n rest s used_up))
              (drain-ends k fuel rest s due.1 (omega (arith, enough)))
        | inr opened ↦ elim (Bool-cases (ltb (clock s.reading) n.send_at)) [
          | inl early ↦ subst Ends (sym (take-early n rest s opened early)) (
              drain-ends k fuel (rest ++ (n ∷ [])) (record s { reading = suc s.reading })
                (All-append (λ m. (i : ℕ) → k ≤ i → m.send_at ≤ clock i) rest (n ∷ []) due.1
                  (due.0, tt))
                (omega (
                  arith,
                  enough,
                  too_early k s.reading n due.0 early,
                  length-append rest (n ∷ []),
                )))
          | inr now ↦ subst Ends (sym (take-now n rest s opened now)) (
              drain-ends k fuel rest
                (record { to_send = s.to_send ++ (n ∷ []); reading = suc s.reading }) due.1
                (omega (arith, enough)))
        ]
      ]

  sum_of-take_next :
      (weight : Notification → ℕ) (n : Notification) (rest : List Notification) (s : Draining)
      → let next = take_next limit clock n rest s in
        sum_of weight next.1.to_send + sum_of weight (filter (is_open limit) next.0)
        ≡ sum_of weight s.to_send + sum_of weight (filter (is_open limit) (n ∷ rest))
  unfolding take_next
  sum_of-take_next weight n rest s = elim (Bool-cases (ltb limit n.tries)) [
    | inl used_up ↦ ground (arith, used_up)
    | inr opened ↦ elim (Bool-cases (ltb (clock s.reading) n.send_at)) [
      | inl early ↦ ground (
        arith,
        opened,
        early,
        ap (sum_of weight) (filter-append (is_open limit) rest (n ∷ [])),
        sum_of-append weight (filter (is_open limit) rest) (n ∷ []),
      )
      | inr now ↦ ground (arith, opened, now, sum_of-append weight s.to_send (n ∷ []))
    ]
  ]

  -- What the loop leaves to be sent is what the queue held that may still be sent, each notification as often
  -- as it was there: so says every measure of notifications, summed up.
  pub sum_of-drain :
      (weight : Notification → ℕ) (fuel : ℕ) (queue : List Notification) (s last : Draining)
      → drain limit clock fuel queue s ≡ some last
      → sum_of weight last.to_send
        ≡ sum_of weight s.to_send + sum_of weight (filter (is_open limit) queue)
  unfolding drain
  sum_of-drain weight fuel [] s last returns =
      subst (λ l. sum_of weight l.to_send ≡ sum_of weight s.to_send + 0) (some-injective returns)
        (omega arith)
  sum_of-drain weight zero (n ∷ rest) s last returns = ground (arith, returns)
  sum_of-drain weight (suc fuel) (n ∷ rest) s last returns =
      sum_of-drain weight fuel (take_next limit clock n rest s).0 (take_next limit clock n rest s).1
        last returns
      ∙ sum_of-take_next weight n rest s
