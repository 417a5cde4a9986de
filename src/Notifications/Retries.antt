-- ===== src/Notifications/Retries.antt =====
-- How often a notification is tried: the runs of the job empty the queue.
use vpn_panel.Prelude.{
  sum_of, subst, ℕ, suc, ◌+◌, ◌-◌, ◌≤◌, ◌<◌, String, ◌≡◌, refl, ap, ◌∙◌, ◌⊎◌, inl, inr, Bool,
  Option, none, some, List, [], ◌∷◌, arith, if◌then◌else◌, Bool-cases, some-injective, length,
  filter,
}
use vpn_panel.Notifications.{
  Notification, Draining, drain, retry, send, send_all, finish, send_notifications,
}
use vpn_panel.Notifications.Drain.{is_open, sum_of-drain}

module _ (limit : ℕ) where
  -- how often a notification may still be sent
  abbrev pub remaining : Notification → ℕ
  remaining n = suc limit - n.tries

  abbrev one_if_open : Notification → ℕ
  one_if_open n = if is_open limit n then 1 else 0

  -- A failed sending takes one try of each notification.
  sum_of-retry :
      (clock : ℕ → ℕ) (timeout reading : ℕ) (sent : List Notification)
      → sum_of remaining (retry limit clock timeout reading sent) + sum_of one_if_open sent
        ≡ sum_of remaining sent
  unfolding retry
  sum_of-retry clock timeout reading [] = refl
  sum_of-retry clock timeout reading (n ∷ sent) =
      ground (arith, sum_of-retry clock timeout (suc reading) sent)

  sum_of-open :
      (queue : List Notification)
      → sum_of one_if_open (filter (is_open limit) queue) ≡ length (filter (is_open limit) queue)
  sum_of-open [] = refl
  sum_of-open (n ∷ queue) = ground (arith, sum_of-open queue)

  sum_of-ones : (queue : List Notification) → sum_of (λ n. 1) queue ≡ length queue
  sum_of-ones [] = refl
  sum_of-ones (n ∷ queue) = omega (arith, sum_of-ones queue)

  sum_of-filter-le :
      (queue : List Notification)
      → sum_of remaining (filter (is_open limit) queue) ≤ sum_of remaining queue
  sum_of-filter-le [] = omega arith
  sum_of-filter-le (n ∷ queue) = ground (arith, sum_of-filter-le queue)

  module _ (post : String → List Notification → Bool) (webhooks : List String) (timeout : ℕ) where
    -- what a run leaves, by what it had to send
    left_less :
        (clock : ℕ → ℕ) (queue sent : List Notification) (s : Draining)
        → s.to_send ≡ sent
        → sum_of (λ n. 1) sent ≡ sum_of (λ n. 1) (filter (is_open limit) queue)
        → sum_of one_if_open sent ≡ sum_of one_if_open (filter (is_open limit) queue)
        → sum_of remaining sent ≡ sum_of remaining (filter (is_open limit) queue)
        → (send_all limit clock post webhooks timeout sent s ≡ [])
          ⊎ (sum_of remaining (send_all limit clock post webhooks timeout sent s)
              < sum_of remaining queue)
    left_less clock queue [] s same ones opens rest = inl refl
    left_less clock queue (n ∷ ns) s same ones opens rest =
        elim (Bool-cases (send limit clock post webhooks (n ∷ ns))) [
          | inl taken ↦ inl (rw taken refl)
          | inr failed ↦
              rw (failed, same)
                (inr (
                  omega (
                    arith,
                    sum_of-retry clock timeout s.reading (n ∷ ns),
                    sum_of-ones (n ∷ ns),
                    sum_of-ones (filter (is_open limit) queue),
                    ones,
                    opens,
                    rest,
                    sum_of-open queue,
                    sum_of-filter-le queue,
                  )))
        ]

    finish_less :
        (fuel : ℕ) (clock : ℕ → ℕ) (queue left : List Notification) (end : Option Draining)
        → drain limit clock fuel queue (record { to_send = []; reading = 0 }) ≡ end
        → finish limit clock post webhooks timeout end ≡ some left
        → (left ≡ []) ⊎ (sum_of remaining left < sum_of remaining queue)
    finish_less fuel clock queue left none ends returns = ground (arith, returns)
    finish_less fuel clock queue left (some s) ends returns =
        let measured : (w : Notification → ℕ)
            → sum_of w s.to_send ≡ sum_of w (filter (is_open limit) queue) =
          λ w. omega (
            arith,
            sum_of-drain limit clock w fuel queue (record { to_send = []; reading = 0 }) s ends,
          ) in
        subst (λ l. (l ≡ []) ⊎ (sum_of remaining l < sum_of remaining queue))
          (some-injective returns)
          (left_less clock queue s.to_send s refl (measured (λ n. 1)) (measured one_if_open)
            (measured remaining))

    -- A run that ends leaves an empty queue, or one with fewer tries left.
    run_less :
        (fuel : ℕ) (clock : ℕ → ℕ) (queue left : List Notification)
        → send_notifications limit clock post webhooks timeout fuel queue ≡ some left
        → (left ≡ []) ⊎ (sum_of remaining left < sum_of remaining queue)
    unfolding send_notifications
    run_less fuel clock queue left returns = finish_less fuel clock queue left _ refl returns

    run_empty :
        (fuel : ℕ) (clock : ℕ → ℕ)
        → send_notifications limit clock post webhooks timeout fuel [] ≡ some []
    unfolding send_notifications drain
    run_empty fuel clock = refl

    abbrev next_run :
        Option (List Notification)
        → (List Notification → Option (List Notification))
        → Option (List Notification)
    next_run none rest = none
    next_run (some left) rest = rest left

    -- the job run again and again, with what each run has of the clock
    unfoldable pub run_all : List (ℕ × (ℕ → ℕ)) → List Notification → Option (List Notification)
    run_all [] queue = some queue
    run_all ((fuel, clock) ∷ runs) queue =
        next_run (send_notifications limit clock post webhooks timeout fuel queue)
          (λ left. run_all runs left)

    run_all-empty : (runs : List (ℕ × (ℕ → ℕ))) → run_all runs [] ≡ some []
    unfolding run_all
    run_all-empty [] = refl
    run_all-empty ((fuel, clock) ∷ runs) = rw (run_empty fuel clock) (run_all-empty runs)

    run_all-step :
        (fuel : ℕ) (clock : ℕ → ℕ) (runs : List (ℕ × (ℕ → ℕ))) (queue : List Notification)
        (left : Option (List Notification))
        → send_notifications limit clock post webhooks timeout fuel queue ≡ left
        → ((q : List Notification)
            → (q ≡ []) ⊎ (sum_of remaining q < sum_of remaining queue)
            → (run_all runs q ≡ none) ⊎ (run_all runs q ≡ some []))
        → (next_run left (λ q. run_all runs q) ≡ none)
          ⊎ (next_run left (λ q. run_all runs q) ≡ some [])
    run_all-step fuel clock runs queue none ends rest = inl refl
    run_all-step fuel clock runs queue (some q) ends rest =
        rest q (run_less fuel clock queue q ends)

    -- However often no webhook takes what is sent: more runs of the job than there are tries left empty the
    -- queue, unless a run has not ended within its rounds.
    pub run_all-empties :
        (runs : List (ℕ × (ℕ → ℕ))) (queue : List Notification)
        → sum_of remaining queue < length runs
        → (run_all runs queue ≡ none) ⊎ (run_all runs queue ≡ some [])
    unfolding run_all
    run_all-empties [] queue enough = ground (arith, enough)
    run_all-empties ((fuel, clock) ∷ runs) queue enough =
        run_all-step fuel clock runs queue _ refl λ q less. elim less [
          | inl emptied ↦ inr (ap (run_all runs) emptied ∙ run_all-empty runs)
          | inr fewer ↦ run_all-empties runs q (omega (arith, enough, fewer))
        ]
