-- ===== src/Mailing/Delivery.antt =====
-- src/runtime/mailing/delivery.ts: one attempt to deliver the first mail of the queue. The transport's
-- answer is a function of the mail; while it is awaited other code may change the queue, which is the
-- argument `meanwhile`.
pub mod Rounds
mod Tests
use blackcat_darkmesh_gatewa.Mailing.Transport.{
  MailTransportResult, MailDeliveryOutcome, success, retry, fail_permanent,
}
use blackcat_darkmesh_gatewa.Mailing.Queue.{
  MailQueueItem, MailQueue, MailRetrySchedule, dequeue_mail, enqueue_mail, get_mail_retry_schedule,
}
use blackcat_darkmesh_gatewa.Base.{
  ℕ, zero, suc, ◌+◌, ◌-◌, ◌*◌, ◌/◌, ◌%◌, ◌^◌, ◌≤◌, ◌<◌, min, max, ◌≡◌, refl, sym, ap, ◌∙◌, subst,
  ◌≢◌, ◌↔◌, ◌⊎◌, inl, inr, String, Bool, true, false, ◌&&◌, ◌||◌, not, Option, none, some, List, [],
  ◌∷◌, ◌++◌, map, ◌===◌, eq_iff, eq_refl, arith, ltb, leb, ◌==◌, if◌then◌else◌, is_some, or_else,
  option_map, Bool-cases, Option-cases, length, length-append, All, All-append, Any, leb→le, le→leb,
  ltb→lt, lt→ltb,
}

pub data DropReason : Type 0 where
  empty_queue : DropReason
  failed_for_good : DropReason

-- The last two numbers are the sizes of the queue before and after.
pub data MailDeliveryAction : Type 0 where
  delivered : MailQueueItem → MailTransportResult → ℕ → ℕ → MailDeliveryAction
  requeued :
      MailQueueItem
      → MailQueueItem
      → MailTransportResult
      → MailRetrySchedule
      → ℕ
      → ℕ
      → MailDeliveryAction
  dropped :
      DropReason → Option MailQueueItem → Option MailTransportResult → ℕ → ℕ → MailDeliveryAction

pub record MailDeliveryOptions : Type 0 where
  pub retry_backoff_ms : Option ℕ
  pub max_retry_backoff_ms : Option ℕ
  pub scheduled_at : Option String

module _ (parse : String → Option ℕ) (to_iso_string : ℕ → String)
    (options : MailDeliveryOptions) where
  abbrev pub next_attempt : MailQueueItem → ℕ
  next_attempt item = max 1 (or_else item.attempts 0 + 1)

  abbrev pub retry_schedule : MailQueueItem → MailRetrySchedule
  retry_schedule item =
      get_mail_retry_schedule parse to_iso_string options.retry_backoff_ms (next_attempt item)
        (or_else options.scheduled_at (or_else item.next_attempt_at item.queued_at))
        options.max_retry_backoff_ms

  -- The mail as it is queued again, but for the time of queueing.
  abbrev pub with_attempt : MailQueueItem → MailQueueItem
  with_attempt item = record item {
    attempts = some (next_attempt item);
    next_attempt_at = some (retry_schedule item).next_attempt_at;
  }

  -- What is done with the answer.
  unfoldable pub settle :
      MailDeliveryOutcome
      → MailQueue
      → MailQueueItem
      → MailTransportResult
      → ℕ
      → MailQueue × MailDeliveryAction
  settle success queue item result before =
      (queue, delivered item result before (length queue.items))
  settle retry queue item result before =
      let schedule = retry_schedule item in
      let (after, again) = enqueue_mail queue (with_attempt item) schedule.next_attempt_at in
      (after, requeued item again result schedule before (length after.items))
  settle fail_permanent queue item result before =
      (queue, dropped failed_for_good (some item) (some result) before (length queue.items))

  unfoldable pub deliver_taken :
      MailQueue × Option MailQueueItem
      → (MailQueueItem → MailTransportResult)
      → (MailQueue → MailQueue)
      → ℕ
      → MailQueue × MailDeliveryAction
  deliver_taken (rest, none) transport meanwhile before =
      (rest, dropped empty_queue none none before (length rest.items))
  deliver_taken (rest, some item) transport meanwhile before =
      settle (transport item).outcome (meanwhile rest) item (transport item) before

  unfoldable pub deliver_next_mail :
      MailQueue
      → (MailQueueItem → MailTransportResult)
      → (MailQueue → MailQueue)
      → MailQueue × MailDeliveryAction
  deliver_next_mail queue transport meanwhile =
      deliver_taken (dequeue_mail queue) transport meanwhile (length queue.items)
