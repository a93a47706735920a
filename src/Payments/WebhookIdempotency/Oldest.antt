-- ===== src/Payments/WebhookIdempotency/Oldest.antt =====
-- What `pruneOldest` of src/runtime/payments/webhookIdempotency.ts removes.
use blackcat_darkmesh_gatewa.Payments.WebhookIdempotency.{
  WebhookIdempotencyEntry, WebhookIdempotencyBoundary, oldest_from, oldest_key, prune_oldest,
}
use blackcat_darkmesh_gatewa.Base.{
  ℕ, ◌≤◌, ◌<◌, ◌≡◌, refl, ◌⊎◌, inl, inr, String, false, none, some, [], ◌∷◌, ◌===◌, eq_iff, eq_refl,
  arith, ltb, if◌then◌else◌, Bool-cases, All,
}
use blackcat_darkmesh_gatewa.JsMap.{JsMap, get, delete, has, size, IsUnique}

-- The time is not above that of any entry.
abbrev pub NotAbove : ℕ → JsMap WebhookIdempotencyEntry → Type 0
NotAbove t m = All (λ (x : String × WebhookIdempotencyEntry). t ≤ x.1.seen_at) m

oldest_from-le :
    (best : String × ℕ) (m : JsMap WebhookIdempotencyEntry)
    → ((oldest_from best m).1 ≤ best.1) × NotAbove (oldest_from best m).1 m
unfolding oldest_from
oldest_from-le best [] = (omega arith, tt)
oldest_from-le best ((k, e) ∷ m) =
    ground (arith, oldest_from-le (if ltb e.seen_at best.1 then (k, e.seen_at) else best) m)

-- The answer is the first candidate, or it is an entry's.
abbrev IsFrom : String × ℕ → JsMap WebhookIdempotencyEntry → String × ℕ → Type 0
IsFrom best m (k, t) =
    ((k, t) ≡ best) ⊎ ((e : WebhookIdempotencyEntry) × (get k m ≡ some e) × (e.seen_at ≡ t))

abbrev next : String × ℕ → String → WebhookIdempotencyEntry → String × ℕ
next best k e = if ltb e.seen_at best.1 then (k, e.seen_at) else best

IsFrom-cons :
    (best : String × ℕ) (k : String) (e : WebhookIdempotencyEntry)
    (m : JsMap WebhookIdempotencyEntry) (r : String × ℕ)
    → has k m ≡ false
    → IsFrom (next best k e) m r
    → IsFrom best ((k, e) ∷ m) r
unfolding get
IsFrom-cons (b, u) k e m (j, t) new (inl same) = elim (Bool-cases (ltb e.seen_at u)) [
  | inl before ↦ inr (e, ground (arith, same, eq_iff k j), ground (arith, same))
  | inr other ↦ inl (ground (arith, same))
]
IsFrom-cons best k e m (j, t) new (inr (d, held, at)) = inr (d, ground (arith, eq_iff k j), at)

oldest_from-IsFrom :
    (best : String × ℕ) (m : JsMap WebhookIdempotencyEntry)
    → IsUnique m
    → IsFrom best m (oldest_from best m)
unfolding oldest_from
oldest_from-IsFrom best [] u = inl refl
oldest_from-IsFrom best ((k, e) ∷ m) u =
    IsFrom-cons best k e m (oldest_from (next best k e) m) u.0
      (oldest_from-IsFrom (next best k e) m u.1)

oldest_key_lem :
    (m : JsMap WebhookIdempotencyEntry)
    → IsUnique m
    → 0 < size m
    → (k : String) × (e : WebhookIdempotencyEntry) × (oldest_key m ≡ some k)
      × (get k m ≡ some e)
      × NotAbove e.seen_at m
unfolding oldest_key get
oldest_key_lem [] u some_entry = absurd (omega arith)
oldest_key_lem ((k, e) ∷ m) u some_entry =
    let r = oldest_from (k, e.seen_at) m in
    let below = oldest_from-le (k, e.seen_at) m in
    elim (oldest_from-IsFrom (k, e.seen_at) m u.1) [
      | inl same ↦ (
        k,
        e,
        ground (arith, same),
        ground (arith, eq_refl k),
        (omega arith, ground (arith, below, same)),
      )
      | inr (d, held, at) ↦ (
        r.0,
        d,
        refl,
        ground (arith, held, eq_iff k r.0),
        (ground (arith, below, at), ground (arith, below, at)),
      )
    ]

get-NotAbove :
    (t : ℕ) (m : JsMap WebhookIdempotencyEntry) (j : String) (d : WebhookIdempotencyEntry)
    → NotAbove t m
    → get j m ≡ some d
    → t ≤ d.seen_at
unfolding get
get-NotAbove t [] j d h held = cc
get-NotAbove t ((k, e) ∷ m) j d h held = ground (arith, get-NotAbove t m j d)

-- With distinct keys that are not empty, and at least one of them, pruneOldest removes one entry, and
-- no entry was seen before it.
pub prune_oldest_lem :
    (b : WebhookIdempotencyBoundary)
    → IsUnique b.entries
    → get "" b.entries ≡ none
    → 0 < size b.entries
    → (k : String) × (e : WebhookIdempotencyEntry) × (prune_oldest b
        ≡ record b { entries = delete k b.entries })
      × (get k b.entries ≡ some e)
      × ((j : String) (d : WebhookIdempotencyEntry)
          → get j b.entries ≡ some d
          → e.seen_at ≤ d.seen_at)
unfolding prune_oldest
prune_oldest_lem b u named some_entry =
    let (k, e, found, held, first) = oldest_key_lem b.entries u some_entry in
    let given : (k === "") ≡ false = ground (arith, eq_iff k "", held, named) in
    (
      k,
      e,
      rw (found, given, prune_oldest) refl,
      held,
      λ j d here. get-NotAbove e.seen_at b.entries j d first here,
    )
