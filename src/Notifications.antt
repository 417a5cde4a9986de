-- ===== src/Notifications.antt =====
-- app/jobs/send_notifications.py: the queue of notifications for the webhooks. A notification is put back
-- while its time has not come, and sent again later where no webhook took it.

pub mod Drain
pub mod Retries
use vpn_panel.Prelude.{
  ℕ, zero, suc, ◌+◌, String, Bool, true, false, ◌||◌, Option, none, some, List, [], ◌∷◌, ◌++◌, ltb,
  if◌then◌else◌, any,
}

-- a notification of app/utils/notification.py: what it says is left open
pub record Notification : Type 0 where
  pub tries : ℕ
  pub send_at : ℕ
  pub body : String

-- the loop's state beside the queue: what is to be sent, and how often the clock was read
pub record Draining : Type 0 where
  pub to_send : List Notification
  pub reading : ℕ

-- `limit` is NUMBER_OF_RECURRENT_NOTIFICATIONS; `clock` gives the readings of the clock in their order
module _ (limit : ℕ) (clock : ℕ → ℕ) where
  -- the body of the loop, for the notification at the head of the queue
  unfoldable pub take_next :
      Notification → List Notification → Draining → List Notification × Draining
  take_next n rest s =
      if ltb limit n.tries
      then (rest, s)
      else if ltb (clock s.reading) n.send_at
      then (rest ++ (n ∷ []), record s { reading = suc s.reading })
      else (rest, record { to_send = s.to_send ++ (n ∷ []); reading = suc s.reading })

  -- the loop, for as many rounds: it ends by the IndexError of an empty queue; `none` where it still runs
  unfoldable pub drain : ℕ → List Notification → Draining → Option Draining
  unfolding take_next
  drain fuel [] s = some s
  drain zero (n ∷ rest) s = none
  drain (suc fuel) (n ∷ rest) s = let next = take_next n rest s in drain fuel next.0 next.1

  -- the loop over what was not taken: one more try, later
  unfoldable pub retry : ℕ → ℕ → List Notification → List Notification
  retry timeout reading [] = []
  retry timeout reading (n ∷ sent) =
      let rest = retry timeout (suc reading) sent in
      if ltb limit (n.tries + 1)
      then rest
      else record n { tries = n.tries + 1; send_at = clock reading + timeout } ∷ rest

  -- send: every webhook is asked, and one that answers is enough
  abbrev pub send : (String → List Notification → Bool) → List String → List Notification → Bool
  send post webhooks notifications = any (λ webhook. post webhook notifications) webhooks

  abbrev pub after_sending : Bool → ℕ → Draining → List Notification
  after_sending true timeout s = []
  after_sending false timeout s = retry timeout s.reading s.to_send

  abbrev pub send_all :
      (String → List Notification → Bool)
      → List String
      → ℕ
      → List Notification
      → Draining
      → List Notification
  send_all post webhooks timeout [] s = []
  send_all post webhooks timeout (n ∷ ns) s = after_sending (send post webhooks (n ∷ ns)) timeout s

  abbrev pub finish :
      (String → List Notification → Bool)
      → List String
      → ℕ
      → Option Draining
      → Option (List Notification)
  finish post webhooks timeout none = none
  finish post webhooks timeout (some s) = some (send_all post webhooks timeout s.to_send s)

  -- the queue after a run of the job
  unfoldable pub send_notifications :
      (String → List Notification → Bool)
      → List String
      → ℕ
      → ℕ
      → List Notification
      → Option (List Notification)
  unfolding drain retry
  send_notifications post webhooks timeout fuel queue =
      finish post webhooks timeout (drain fuel queue (record { to_send = []; reading = 0 }))
