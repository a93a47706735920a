-- ===== src/Mailing/Delivery/Rounds.antt =====
-- Deliveries of src/runtime/mailing/delivery.ts and what they leave in the queue.
use blackcat_darkmesh_gatewa.Mailing.Transport.{
  MailTransportResult, MailDeliveryOutcome, success, retry, fail_permanent, FetchAnswer, responded,
  aborted, failed, send, is_success, in_list, transient_mail_status_codes,
  classify_mail_delivery_outcome,
}
use blackcat_darkmesh_gatewa.Mailing.Queue.{MailQueueItem, MailQueue, dequeue_mail}
use blackcat_darkmesh_gatewa.Mailing.Queue.Bounds.{enqueue_mail_room}
use blackcat_darkmesh_gatewa.Mailing.Delivery.{
  MailDeliveryOptions, retry_schedule, with_attempt, settle, deliver_taken, deliver_next_mail,
}
use mathlib.Core.List.{append-nil, append_assoc}
use blackcat_darkmesh_gatewa.Base.{
  ℕ, zero, suc, ◌≤◌, ◌<◌, ◌≡◌, refl, sym, ap, ◌∙◌, inl, inr, String, Bool, true, false, ◌||◌, ◌==◌,
  Option, some, List, [], ◌∷◌, ◌++◌, map, arith, if◌then◌else◌, Bool-cases, length, length-append,
}

module _ (parse : String → Option ℕ) (to_iso_string : ℕ → String)
    (options : MailDeliveryOptions) where
  -- A mail after an attempt that is to be repeated.
  abbrev pub retried : MailQueueItem → MailQueueItem
  retried item = record (with_attempt parse to_iso_string options item) {
    queued_at = (retry_schedule parse to_iso_string options item).next_attempt_at;
  }

  -- What stays of the queue by the outcome of its first mail.
  abbrev pub left : MailDeliveryOutcome → MailQueueItem → List MailQueueItem → List MailQueueItem
  left success item items = items
  left retry item items = items ++ retried item ∷ []
  left fail_permanent item items = items

  settle-items :
      (outcome : MailDeliveryOutcome) (queue : MailQueue) (item : MailQueueItem)
      (result : MailTransportResult) (before : ℕ)
      → length queue.items < queue.max_items
      → ((settle parse to_iso_string options outcome queue item result before).0.items
          ≡ left outcome item queue.items)
        × ((settle parse to_iso_string options outcome queue item result before).0.max_items
            ≡ queue.max_items)
  unfolding settle
  settle-items success queue item result before room = (refl, refl)
  settle-items retry queue item result before room =
      let e =
        enqueue_mail_room queue (with_attempt parse to_iso_string options item)
          (retry_schedule parse to_iso_string options item).next_attempt_at room in
      (ap (λ (q : MailQueue). q.items) e, ap (λ (q : MailQueue). q.max_items) e)
  settle-items fail_permanent queue item result before room = (refl, refl)

  dequeued :
      (queue : MailQueue) (item : MailQueueItem) (items : List MailQueueItem)
      → queue.items ≡ item ∷ items
      → dequeue_mail queue ≡ (record queue { items = items }, some item)
  unfolding dequeue_mail
  dequeued queue item items held = rw (held, dequeue_mail) refl

  -- Whatever other code does with the queue during the attempt, if it then has room, the first mail has
  -- left it and, when it is to be retried, comes last; no other mail is lost or moved.
  deliver_next_mail-meanwhile :
      (queue : MailQueue) (transport : MailQueueItem → MailTransportResult)
      (meanwhile : MailQueue → MailQueue) (item : MailQueueItem) (items : List MailQueueItem)
      → queue.items ≡ item ∷ items
      → let rest = meanwhile (record queue { items = items }) in
        length rest.items < rest.max_items
        → let after = (deliver_next_mail parse to_iso_string options queue transport meanwhile).0 in
          (after.items ≡ left (transport item).outcome item rest.items)
          × (after.max_items ≡ rest.max_items)
  unfolding deliver_next_mail deliver_taken
  deliver_next_mail-meanwhile queue transport meanwhile item items held room =
      rw (dequeued queue item items held, deliver_next_mail)
        (settle-items (transport item).outcome (meanwhile (record queue { items = items })) item
          (transport item) (length queue.items) room)

  pub deliver_next_mail-items :
      (queue : MailQueue) (transport : MailQueueItem → MailTransportResult) (item : MailQueueItem)
      (items : List MailQueueItem)
      → queue.items ≡ item ∷ items
      → length queue.items ≤ queue.max_items
      → let after = (deliver_next_mail parse to_iso_string options queue transport (λ q. q)).0 in
        (after.items ≡ left (transport item).outcome item items)
        × (after.max_items ≡ queue.max_items)
  deliver_next_mail-items queue transport item items held fits =
      deliver_next_mail-meanwhile queue transport (λ q. q) item items held
        (omega (arith, ap length held, fits))

  unfoldable pub deliver_times : ℕ → (MailQueueItem → MailTransportResult) → MailQueue → MailQueue
  deliver_times zero transport queue = queue
  deliver_times (suc n) transport queue =
      deliver_times n transport
        (deliver_next_mail parse to_iso_string options queue transport (λ q. q)).0

  round_from :
      (items done : List MailQueueItem) (transport : MailQueueItem → MailTransportResult)
      (queue : MailQueue)
      → ((item : MailQueueItem) → (transport item).outcome ≡ retry)
      → queue.items ≡ items ++ done
      → length queue.items ≤ queue.max_items
      → (deliver_times (length items) transport queue).items ≡ done ++ map retried items
  unfolding deliver_times
  round_from [] done transport queue again held fits = held ∙ sym (append-nil done)
  round_from (item ∷ items) done transport queue again held fits =
      let next = (deliver_next_mail parse to_iso_string options queue transport (λ q. q)).0 in
      let (left_items, same) =
        deliver_next_mail-items queue transport item (items ++ done) held fits in
      let moved : next.items ≡ items ++ (done ++ retried item ∷ []) =
        left_items
        ∙ ap (λ o. left o item (items ++ done)) (again item)
        ∙ append_assoc items done (retried item ∷ []) in
      round_from items (done ++ retried item ∷ []) transport next again moved (
        omega (
          arith,
          same,
          fits,
          ap length held,
          ap length moved,
          length-append items done,
          length-append items (done ++ retried item ∷ []),
          length-append done (retried item ∷ []),
        ))
      ∙ append_assoc done (retried item ∷ []) (map retried items)

  -- A round of retries. If the transport asks to retry every mail, then as many attempts as there are mails
  -- leave, in a queue within its limit, the same mails in the same order, each with one more attempt counted and
  -- the time of the next one.
  pub deliver_times-retry :
      (queue : MailQueue) (transport : MailQueueItem → MailTransportResult)
      → ((item : MailQueueItem) → (transport item).outcome ≡ retry)
      → length queue.items ≤ queue.max_items
      → (deliver_times (length queue.items) transport queue).items ≡ map retried queue.items
  deliver_times-retry queue transport again fits =
      round_from queue.items [] transport queue again (sym (append-nil queue.items)) fits

  -- The answers after which a mail is kept: a timeout, another error, and the transient statuses.
  abbrev pub is_kept : FetchAnswer → Bool
  is_kept (responded status) =
      status == 0
      || status == 408
      || status == 425
      || status == 429
      || status == 500
      || status == 502
      || status == 503
      || status == 504
  is_kept aborted = true
  is_kept failed = true

  success-other : (status : ℕ) → is_success status ≡ true → is_kept (responded status) ≡ false
  success-other status good = ground arith

  listed-kept :
      (status : ℕ) → in_list status transient_mail_status_codes ≡ is_kept (responded status)
  listed-kept status = ground arith

  left-send :
      (answer : FetchAnswer) (item : MailQueueItem) (items : List MailQueueItem)
      → left (send answer).outcome item items
        ≡ (if is_kept answer then items ++ retried item ∷ [] else items)
  unfolding send classify_mail_delivery_outcome
  left-send (responded status) item items = elim (Bool-cases (is_success status)) [
    | inl good ↦ rw (success-other status good, good) refl
    | inr bad ↦ elim (Bool-cases (in_list status transient_mail_status_codes)) [
      | inl listed ↦ rw (← listed-kept status, bad, listed) refl
      | inr other ↦ rw (← listed-kept status, bad, other) refl
    ]
  ]
  left-send aborted item items = refl
  left-send failed item items = refl

  pub deliver_next_mail-send :
      (queue : MailQueue) (answer : FetchAnswer) (meanwhile : MailQueue → MailQueue)
      (item : MailQueueItem) (items : List MailQueueItem)
      → queue.items ≡ item ∷ items
      → length (meanwhile (record queue { items = items })).items
        < (meanwhile (record queue { items = items })).max_items
      → (deliver_next_mail parse to_iso_string options queue
          (λ mail. send answer)
          meanwhile).0.items
        ≡ (if is_kept answer
            then (meanwhile (record queue { items = items })).items ++ retried item ∷ []
            else (meanwhile (record queue { items = items })).items)
  deliver_next_mail-send queue answer meanwhile item items held room =
      (deliver_next_mail-meanwhile queue (λ mail. send answer) meanwhile item items held room).0
      ∙ left-send answer item (meanwhile (record queue { items = items })).items
