-- ===== src/Mailing/Queue/Bounds.antt =====
-- What the queue of src/runtime/mailing/queue.ts keeps.
use blackcat_darkmesh_gatewa.Mailing.Queue.{MailQueueItem, MailQueue, shift_while, enqueue_mail}
use blackcat_darkmesh_gatewa.Base.{
  ℕ, zero, suc, ◌+◌, ◌-◌, ◌≤◌, ◌<◌, min, ◌≡◌, refl, sym, ap, ◌∙◌, inl, inr, String, List, [], ◌∷◌,
  ◌++◌, arith, leb, Bool-cases, length, length-append,
}

-- The list without its first `n` elements.
unfoldable pub skip : ℕ → List MailQueueItem → List MailQueueItem
skip zero items = items
skip (suc n) [] = []
skip (suc n) (item ∷ items) = skip n items

shift_while_fits :
    (max_items : ℕ) (items : List MailQueueItem)
    → length items ≤ max_items
    → shift_while max_items items ≡ items
unfolding shift_while
shift_while_fits max_items [] fits = refl
shift_while_fits max_items (item ∷ items) fits = ground arith

shift_while_excess :
    (n max_items : ℕ) (items : List MailQueueItem)
    → length items ≡ n + max_items
    → shift_while max_items items ≡ skip n items
unfolding shift_while skip
shift_while_excess zero max_items items e = shift_while_fits max_items items (omega arith)
shift_while_excess (suc n) max_items [] e = refl
shift_while_excess (suc n) max_items (item ∷ items) e =
    ground (arith, shift_while_excess n max_items items)

pub length-skip : (n : ℕ) (items : List MailQueueItem) → length (skip n items) ≡ length items - n
unfolding skip
length-skip zero items = omega arith
length-skip (suc n) [] = omega arith
length-skip (suc n) (item ∷ items) = ground (arith, length-skip n items)

none_skipped : (n : ℕ) (items : List MailQueueItem) → n ≡ 0 → skip n items ≡ items
unfolding skip
none_skipped zero items e = refl
none_skipped (suc n) items e = absurd (omega arith)

pub shift_while-skip :
    (max_items : ℕ) (items : List MailQueueItem)
    → shift_while max_items items ≡ skip (length items - max_items) items
shift_while-skip max_items items = elim (Bool-cases (leb (length items) max_items)) [
  | inl fits ↦
      shift_while_fits max_items items (ground (arith, fits))
      ∙ sym (none_skipped (length items - max_items) items (ground (arith, fits)))
  | inr long ↦ shift_while_excess (length items - max_items) max_items items (ground (arith, long))
]

skip-append :
    (n : ℕ) (items : List MailQueueItem) (item : MailQueueItem)
    → n ≤ length items
    → skip n (items ++ item ∷ []) ≡ skip n items ++ item ∷ []
unfolding skip
skip-append zero items item le = refl
skip-append (suc n) [] item le = absurd (omega arith)
skip-append (suc n) (x ∷ items) item le = skip-append n items item (omega arith)

-- A mail that is queued comes last, behind what was queued less as many of the oldest as do not fit:
-- none while there is room. The queue keeps to its limit, which is positive.
pub enqueue_mail_lem :
    (queue : MailQueue) (request : MailQueueItem) (queued_at : String)
    → 0 < queue.max_items
    → let (after, item) = enqueue_mail queue request queued_at in
      (after.items ≡ skip (length queue.items + 1 - queue.max_items) queue.items ++ item ∷ [])
      × (length after.items ≡ min (length queue.items + 1) queue.max_items)
unfolding enqueue_mail
enqueue_mail_lem queue request queued_at room =
    let item = record request { queued_at = queued_at } in
    let all = queue.items ++ item ∷ [] in
    let size : length all ≡ length queue.items + 1 = length-append queue.items (item ∷ []) in
    let cut = shift_while-skip queue.max_items all in
    let split =
      skip-append (length queue.items + 1 - queue.max_items) queue.items item
        (omega (arith, room)) in
    (
      cut ∙ ap (λ n. skip (n - queue.max_items) all) size ∙ split,
      omega (arith, ap length cut, length-skip (length all - queue.max_items) all, size),
    )

pub enqueue_mail_room :
    (queue : MailQueue) (request : MailQueueItem) (queued_at : String)
    → length queue.items < queue.max_items
    → (enqueue_mail queue request queued_at).0
      ≡ record queue { items = queue.items ++ (record request { queued_at = queued_at }) ∷ [] }
unfolding enqueue_mail
enqueue_mail_room queue request queued_at room =
    ap (λ (items : List MailQueueItem). record queue { items = items })
      (shift_while_fits queue.max_items
        (queue.items ++ (record request { queued_at = queued_at }) ∷ [])
        (omega (
          arith,
          room,
          length-append queue.items ((record request { queued_at = queued_at }) ∷ []),
        )))
