-- ===== src/Mailing/Delivery/Tests.antt =====
-- A queue of two mails by example: queued, delivered, retried, pushed out.
use blackcat_darkmesh_gatewa.Mailing.Transport.{MailTransportResult, aborted, send, retry}
use blackcat_darkmesh_gatewa.Mailing.Queue.{
  MailQueueItem, MailQueue, create_mail_queue, enqueue_mail, get_mail_retry_delay_ms,
}
use blackcat_darkmesh_gatewa.Mailing.Delivery.{MailDeliveryOptions, deliver_next_mail}
use blackcat_darkmesh_gatewa.Mailing.Delivery.Rounds.{retried, deliver_next_mail-send}
use blackcat_darkmesh_gatewa.Base.{
  ℕ, ◌≡◌, refl, String, false, Option, none, some, [], ◌∷◌, ◌===◌, arith, ◌==◌, if◌then◌else◌,
}

abbrev mail : String → MailQueueItem
mail subject = record {
  request = record { to = "a" ∷ []; subject = subject; body = "b"; request_id = none };
  queued_at = "0";
  attempts = none;
  next_attempt_at = none;
}

-- Times that are the texts "0" and "later".
abbrev parse : String → Option ℕ
parse s = if s === "0" then some 0 else none

abbrev to_iso_string : ℕ → String
to_iso_string n = if n == 0 then "0" else "later"

abbrev options : MailDeliveryOptions
options = record { retry_backoff_ms = none; max_retry_backoff_ms = none; scheduled_at = none }

abbrev third : MailQueueItem
third = mail "three"

delays :
    (get_mail_retry_delay_ms none 2 (some 250) ≡ 200)
    × (get_mail_retry_delay_ms none 3 (some 250) ≡ 250)
unfolding get_mail_retry_delay_ms
delays = (refl, refl)

abbrev busy : MailQueueItem → MailTransportResult
busy item = record { ok = false; status = 503; outcome = retry }

-- During the attempt another mail is queued.
abbrev queued_third : MailQueue → MailQueue
queued_third queue = (enqueue_mail queue third "0").0

abbrev three : MailQueue
three = record (create_mail_queue 3) { items = mail "one" ∷ mail "two" ∷ [] }

kept_after_timeout :
    (deliver_next_mail parse to_iso_string options three (λ item. send aborted) (λ q. q)).0.items
    ≡ mail "two" ∷ retried parse to_iso_string options (mail "one") ∷ []
kept_after_timeout =
    deliver_next_mail-send parse to_iso_string options three aborted (λ q. q) (mail "one")
      (mail "two" ∷ []) refl (omega arith)
