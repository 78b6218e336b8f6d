-- ===== src/Outbox/Dispatcher.antt =====
-- backend/src/services/notification.dispatcher.ts. The push provider is a function from what is sent
-- to what comes of it; a lookup of devices goes with it. A tick whose database call throws is none.
pub mod Delivery
pub mod Laws
use wall_e_campus_assistant.Prelude.{
  ℕ, ◌+◌, ◌-◌, ◌*◌, Bool, true, false, Option, none, some, List, [], ◌∷◌, length, ltb, leb,
  if◌then◌else◌,
}
use wall_e_campus_assistant.Text.{Text}
use wall_e_campus_assistant.Cohort.Semester.{codes}
use wall_e_campus_assistant.Database.{Prisma}
use wall_e_campus_assistant.Session.Window.{minute_ms}
use wall_e_campus_assistant.Outbox.{
  Notification, Notifications, cancel_overdue, claim_due, mark_sent, mark_failed,
}

pub data PushResult : Type 0 where
  delivered : PushResult
  rejected : Text → PushResult
  thrown : Text → PushResult

pub data DeliveryOutcome : Type 0 where
  sent failed retrying : DeliveryOutcome

pub record DispatchResult : Type 0 where
  pub cancelled : ℕ
  pub claimed : ℕ
  pub sent : ℕ
  pub failed : ℕ
  pub retrying : ℕ

-- result[outcome] += 1
unfoldable pub count_outcome : DispatchResult → DeliveryOutcome → DispatchResult
count_outcome r DeliveryOutcome.sent = record r { sent = r.sent + 1 }
count_outcome r DeliveryOutcome.failed = record r { failed = r.failed + 1 }
count_outcome r retrying = record r { retrying = r.retrying + 1 }

pub record DispatchConfig : Type 0 where
  pub batch_size : ℕ
  pub stale_after_minutes : ℕ
  pub max_attempts : ℕ
  pub lock_timeout_ms : ℕ

module _ (prisma : Prisma) (push : Notification → PushResult) (config : DispatchConfig) where
  abbrev pub last_chance : Notification → Bool
  last_chance n = leb config.max_attempts n.attempts

  abbrev pub with_outcome :
      DeliveryOutcome → Option Notifications → Option (Notifications × DeliveryOutcome)
  with_outcome outcome none = none
  with_outcome outcome (some rows) = some (rows, outcome)

  -- The catch of deliver.
  unfoldable pub caught :
      Notification → Text → Notifications → Option (Notifications × DeliveryOutcome)
  unfolding mark_failed
  caught n reason rows =
      with_outcome (if last_chance n then DeliveryOutcome.failed else retrying)
        (mark_failed prisma n.id reason (last_chance n) rows)

  -- A write of the try that throws is caught too.
  abbrev pub or_caught :
      Notification
      → Notifications
      → Option (Notifications × DeliveryOutcome)
      → Option (Notifications × DeliveryOutcome)
  or_caught n rows none = caught n (codes "Unknown delivery error") rows
  or_caught n rows (some r) = some r

  unfoldable pub deliver_result :
      PushResult → Notification → ℕ → Notifications → Option (Notifications × DeliveryOutcome)
  unfolding caught mark_sent mark_failed
  deliver_result delivered n now rows =
      or_caught n rows (with_outcome DeliveryOutcome.sent (mark_sent prisma n.id now rows))
  deliver_result (rejected detail) n now rows =
      or_caught n rows
        (with_outcome DeliveryOutcome.failed (mark_failed prisma n.id detail true rows))
  deliver_result (thrown reason) n now rows = caught n reason rows

  unfoldable pub deliver :
      Notification → ℕ → Notifications → Option (Notifications × DeliveryOutcome)
  unfolding deliver_result
  deliver n now rows = deliver_result (push n) n now rows

  unfoldable pub deliver_all :
      List Notification
      → ℕ
      → DispatchResult
      → Notifications
      → Option (Notifications × DispatchResult)
  unfolding deliver count_outcome
  deliver_all [] now result rows = some (rows, result)
  deliver_all (n ∷ claimed) now result rows = elim (deliver n now rows) [
    | none ↦ none
    | some (rows', outcome) ↦ deliver_all claimed now (count_outcome result outcome) rows'
  ]

  unfoldable pub tick : ℕ → ℕ → Notifications → Option (Notifications × DispatchResult)
  unfolding cancel_overdue claim_due deliver_all
  tick now token rows =
      let (rows', cancelled) =
        cancel_overdue prisma (now - config.stale_after_minutes * minute_ms)
          (codes "Missed its delivery window") rows in
      let (rows'', claimed) =
        claim_due prisma now token config.batch_size config.lock_timeout_ms rows' in
      deliver_all claimed now
        (record {
          cancelled = cancelled;
          claimed = length claimed;
          sent = 0;
          failed = 0;
          retrying = 0;
        })
        rows''
