-- ===== src/Mailing/Queue.antt =====
-- src/runtime/mailing/queue.ts: the bounded queue of mails and the times of retries. `Date.parse` and
-- `toISOString` are parameters where times are computed.
pub mod Bounds
pub mod Delays
use blackcat_darkmesh_gatewa.Mailing.Transport.{MailTransportRequest}
use blackcat_darkmesh_gatewa.Base.{
  ℕ, zero, suc, ◌+◌, ◌-◌, ◌*◌, ◌/◌, ◌%◌, ◌^◌, ◌≤◌, ◌<◌, min, max, ◌≡◌, refl, sym, ap, ◌∙◌, subst,
  ◌≢◌, ◌↔◌, ◌⊎◌, inl, inr, String, Bool, true, false, ◌&&◌, ◌||◌, not, Option, none, some, List, [],
  ◌∷◌, ◌++◌, map, ◌===◌, eq_iff, eq_refl, arith, ltb, leb, ◌==◌, if◌then◌else◌, is_some, or_else,
  option_map, Bool-cases, Option-cases, length, length-append, All, All-append, Any, leb→le, le→leb,
  ltb→lt, lt→ltb,
}

pub record MailQueueItem : Type 0 where
  pub request : MailTransportRequest
  pub queued_at : String
  pub attempts : Option ℕ
  pub next_attempt_at : Option String

pub record MailRetrySchedule : Type 0 where
  pub attempt : ℕ
  pub delay_ms : ℕ
  pub next_attempt_at : String

pub record MailQueue : Type 0 where
  pub max_items : ℕ
  pub items : List MailQueueItem

abbrev pub normalize_queue_cap : ℕ → ℕ
normalize_queue_cap max_items = if ltb max_items 1 then 1 else max_items

abbrev pub create_mail_queue : ℕ → MailQueue
create_mail_queue max_items = record { max_items = normalize_queue_cap max_items; items = [] }

-- `while (items.length > maxItems) items.shift()`
unfoldable pub shift_while : ℕ → List MailQueueItem → List MailQueueItem
shift_while max_items [] = []
shift_while max_items (item ∷ items) =
    let rest = shift_while max_items items in
    if ltb max_items (length (item ∷ items)) then rest else item ∷ items

-- The request may come with attempts and the time of the next one; `queuedAt` is set whatever it was.
unfoldable pub enqueue_mail : MailQueue → MailQueueItem → String → MailQueue × MailQueueItem
enqueue_mail queue request queued_at =
    let item = record request { queued_at = queued_at } in
    (record queue { items = shift_while queue.max_items (queue.items ++ item ∷ []) }, item)

unfoldable pub dequeue_mail : MailQueue → MailQueue × Option MailQueueItem
dequeue_mail queue = elim queue.items [
  | [] ↦ (queue, none)
  | item ∷ items ↦ (record queue { items = items }, some item)
]

abbrev pub peek_mail_queue : MailQueue → List MailQueueItem
peek_mail_queue queue = queue.items

abbrev pub default_retry_backoff_ms : ℕ
default_retry_backoff_ms = 100

abbrev pub max_retry_backoff_ms : ℕ
max_retry_backoff_ms = 5000

abbrev pub capped_backoff : Option ℕ → ℕ
capped_backoff none = max_retry_backoff_ms
capped_backoff (some limit) = if ltb 0 limit then limit else max_retry_backoff_ms

-- An argument that is left out has its default.
unfoldable pub get_mail_retry_delay_ms : Option ℕ → ℕ → Option ℕ → ℕ
get_mail_retry_delay_ms retry_backoff_ms attempt limit =
    let backoff = or_else retry_backoff_ms default_retry_backoff_ms in
    if backoff == 0 || ltb attempt 1
    then 0
    else min (backoff * 2 ^ (attempt - 1)) (capped_backoff limit)

module _ (parse : String → Option ℕ) (to_iso_string : ℕ → String) where
  unfoldable pub add_milliseconds : String → ℕ → String
  add_milliseconds iso_timestamp delay_ms = elim (parse iso_timestamp) [
    | none ↦ iso_timestamp
    | some timestamp ↦ to_iso_string (timestamp + delay_ms)
  ]

  unfoldable pub get_mail_retry_schedule : Option ℕ → ℕ → String → Option ℕ → MailRetrySchedule
  get_mail_retry_schedule retry_backoff_ms attempt scheduled_at limit =
      let delay_ms = get_mail_retry_delay_ms retry_backoff_ms attempt limit in
      record {
        attempt = attempt;
        delay_ms = delay_ms;
        next_attempt_at = add_milliseconds scheduled_at delay_ms;
      }
