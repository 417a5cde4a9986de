-- ===== src/Examples/Notifications.antt =====
-- Runs of the queue of notifications.
use vpn_panel.Prelude.{
  ℕ, ◌+◌, ◌≤◌, String, ◌≡◌, refl, ◌⊎◌, Bool, false, none, some, List, [], ◌∷◌, arith, All, filter,
  sum_of,
}
use vpn_panel.Notifications.{Notification, Draining, drain, take_next}
use vpn_panel.Notifications.Drain.{is_open, drain-ends, drain-spins, sum_of-drain}
use vpn_panel.Notifications.Retries.{run_all, run_all-empties}

abbrev note : ℕ → ℕ → Notification
note tries send_at = record { tries = tries; send_at = send_at; body = "user_expired" }

abbrev queue : List Notification
queue = note 0 5 ∷ note 4 0 ∷ note 1 2 ∷ []

-- each reading is one later
abbrev clock : ℕ → ℕ
clock i = i

abbrev start : Draining
start = record { to_send = []; reading = 0 }

due_test : All (λ n. (i : ℕ) → 5 ≤ i → n.send_at ≤ clock i) queue
due_test = (λ i h. omega (arith, h), (λ i h. omega arith, (λ i h. omega (arith, h), tt)))

drain-ends_example : (last : Draining) × (drain 3 clock 8 queue start ≡ some last)
drain-ends_example = drain-ends 3 clock 5 8 queue start due_test (omega arith)

drain-spins_example : drain 3 (λ i. 4) 60 queue start ≡ none
drain-spins_example = drain-spins 3 (λ i. 4) 4 (λ i. omega arith) 60 queue start refl

abbrev drained : Draining
drained = record { to_send = note 1 2 ∷ note 0 5 ∷ []; reading = 6 }

drained_test : drain 3 clock 20 queue start ≡ some drained
unfolding drain take_next
drained_test = refl

sum_of-drain_example :
    sum_of (λ n. n.tries) drained.to_send ≡ 0 + sum_of (λ n. n.tries) (filter (is_open 3) queue)
sum_of-drain_example = sum_of-drain 3 clock (λ n. n.tries) 20 queue start drained drained_test

abbrev runs : List (ℕ × (ℕ → ℕ))
runs =
    (9, λ i. 10)
    ∷ (9, λ i. 90)
    ∷ (9, λ i. 190)
    ∷ (9, λ i. 290)
    ∷ (9, λ i. 390)
    ∷ (9, λ i. 490)
    ∷ (9, λ i. 590)
    ∷ (9, λ i. 690)
    ∷ []

-- no webhook answers
abbrev deaf : String → List Notification → Bool
deaf webhook notifications = false

run_all-empties_example :
    (run_all 3 deaf ("https://hook.example" ∷ []) 60 runs queue ≡ none)
    ⊎ (run_all 3 deaf ("https://hook.example" ∷ []) 60 runs queue ≡ some [])
run_all-empties_example =
    run_all-empties 3 deaf ("https://hook.example" ∷ []) 60 runs queue (omega arith)
