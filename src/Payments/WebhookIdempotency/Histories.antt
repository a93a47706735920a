-- ===== src/Payments/WebhookIdempotency/Histories.antt =====
-- Sequences of `classify` calls of src/runtime/payments/webhookIdempotency.ts, with the latest first.
use blackcat_darkmesh_gatewa.Payments.WebhookIdempotency.{
  WebhookIdempotencyEntry, WebhookIdempotencyBoundary, WebhookIdempotencyPolicy,
  WebhookIdempotencyDecision, is_expired, prune_expired, normalized, is_named, classify,
}
use blackcat_darkmesh_gatewa.Base.{
  ℕ, ◌+◌, ◌≤◌, ◌<◌, ◌≡◌, refl, ap, ◌∙◌, ◌⊎◌, inl, inr, String, true, Option, none, some, List, [],
  ◌∷◌, eq_iff, arith, Bool-cases, Option-cases, length, All,
}
use blackcat_darkmesh_gatewa.JsMap.{get, size}
use blackcat_darkmesh_gatewa.JsMap.Laws.{get-set}
use blackcat_darkmesh_gatewa.JsMap.Sizes.{size-set}
use blackcat_darkmesh_gatewa.JsMap.Sweeps.{size-delete_where-le}
use blackcat_darkmesh_gatewa.Payments.WebhookIdempotency.Classified.{
  IsValid, get-prune_expired, with_entry, accept_new_roomy, classify_unnamed, classify_prior,
  classify_fresh, classify-IsValid,
}

pub record Call : Type 0 where
  pub event_id : Option String
  pub fingerprint : String
  pub policy : WebhookIdempotencyPolicy
  pub now : ℕ
  pub later : ℕ

abbrev pub call : Call → WebhookIdempotencyBoundary → WebhookIdempotencyBoundary
call c b = (classify b c.event_id c.fingerprint c.policy c.now c.later).0

unfoldable pub after : WebhookIdempotencyBoundary → List Call → WebhookIdempotencyBoundary
after b [] = b
after b (c ∷ earlier) = call c (after b earlier)

size-prune_expired-le :
    (b : WebhookIdempotencyBoundary) (now : ℕ) → size (prune_expired b now).entries ≤ size b.entries
unfolding prune_expired
size-prune_expired-le b now = size-delete_where-le (is_expired b.ttl_ms now) b.entries b.entries 0

pub limits-prune_expired :
    (b : WebhookIdempotencyBoundary) (now : ℕ)
    → ((prune_expired b now).ttl_ms ≡ b.ttl_ms)
      × ((prune_expired b now).max_keys ≡ b.max_keys)
      × ((prune_expired b now).key_max_bytes ≡ b.key_max_bytes)
unfolding prune_expired
limits-prune_expired b now = (refl, refl, refl)

-- What a call with room for one more event leaves: the limits, at most one event more, and every event
-- that has not expired.
abbrev Keeps : WebhookIdempotencyBoundary → ℕ → WebhookIdempotencyBoundary → Type 0
Keeps b now r =
    (r.ttl_ms ≡ b.ttl_ms)
    × (r.max_keys ≡ b.max_keys)
    × (r.key_max_bytes ≡ b.key_max_bytes)
    × (size r.entries ≤ size b.entries + 1)

abbrev first : WebhookIdempotencyBoundary × WebhookIdempotencyDecision → WebhookIdempotencyBoundary
first r = r.0

module _ (b : WebhookIdempotencyBoundary) (c : Call) (v : IsValid b)
    (room : size b.entries < b.max_keys) where
  abbrev pruned : WebhookIdempotencyBoundary
  pruned = prune_expired b c.now

  fresh-call :
      is_named b (normalized c.event_id) ≡ true
      → get (normalized c.event_id) pruned.entries ≡ none
      → call c b
        ≡ with_entry pruned
            (normalized c.event_id)
            (record { fingerprint = c.fingerprint; seen_at = c.later })
  fresh-call named new =
      ap first (classify_fresh b c.event_id c.fingerprint c.policy c.now c.later named new)
      ∙ accept_new_roomy pruned (normalized c.event_id) c.fingerprint c.later
          (ground (arith, room, size-prune_expired-le b c.now, limits-prune_expired b c.now))

  abbrev pub new_entry : WebhookIdempotencyEntry
  new_entry = record { fingerprint = c.fingerprint; seen_at = c.later }

  call-cases :
      (call c b ≡ b)
      ⊎ ((call c b ≡ pruned)
          ⊎ ((get (normalized c.event_id) pruned.entries ≡ none)
              × (call c b ≡ with_entry pruned (normalized c.event_id) new_entry)))
  call-cases = elim (Bool-cases (is_named b (normalized c.event_id))) [
    | inr unnamed ↦
        inl (ap first (classify_unnamed b c.event_id c.fingerprint c.policy c.now c.later unnamed))
    | inl named ↦ elim (Option-cases (get (normalized c.event_id) pruned.entries)) [
      | inl new ↦ inr (inr (new, fresh-call named new))
      | inr (e, held) ↦ inr (
          inl (
            ap first
              (classify_prior b c.event_id c.fingerprint c.policy c.now c.later e named held)))
    ]
  ]

  pub call-Keeps : Keeps b c.now (call c b)
  call-Keeps =
      let le = size-prune_expired-le b c.now in
      let same = limits-prune_expired b c.now in
      elim call-cases [
        | inl e ↦ rw e (refl, refl, refl, omega arith)
        | inr (inl e) ↦ rw e (same.0, same.1, same.2, omega (arith, le))
        | inr (inr (new, e)) ↦ rw e (
          same.0,
          same.1,
          same.2,
          ground (arith, le, size-set (normalized c.event_id) new_entry pruned.entries),
        )
      ]

  pub call-kept :
      (j : String) (e : WebhookIdempotencyEntry)
      → get j b.entries ≡ some e
      → c.now ≤ e.seen_at + b.ttl_ms
      → get j (call c b).entries ≡ some e
  call-kept j e held runs =
      let stays : get j pruned.entries ≡ some e =
        ground (arith, get-prune_expired b c.now j v.unique, held, runs) in
      elim call-cases [
        | inl same ↦ rw same held
        | inr (inl same) ↦ rw same stays
        | inr (inr (new, same)) ↦ rw same (
            ground (
              arith,
              stays,
              new,
              eq_iff (normalized c.event_id) j,
              get-set (normalized c.event_id) j new_entry pruned.entries,
            ))
      ]

-- The call prunes not later than this.
abbrev pub RunsUntil : ℕ → Call → Type 0
RunsUntil last c = c.now ≤ last

module _ (b : WebhookIdempotencyBoundary) where
  pub after-Keeps :
      (calls : List Call)
      → IsValid b
      → size b.entries + length calls ≤ b.max_keys
      → IsValid (after b calls)
        × ((after b calls).ttl_ms ≡ b.ttl_ms)
        × ((after b calls).max_keys ≡ b.max_keys)
        × ((after b calls).key_max_bytes ≡ b.key_max_bytes)
        × (size (after b calls).entries ≤ size b.entries + length calls)
  unfolding after
  after-Keeps [] v room = (v, refl, refl, refl, omega arith)
  after-Keeps (c ∷ earlier) v room =
      let (w, ttl, keys, bytes, le) = after-Keeps earlier v (omega arith) in
      let s = after b earlier in
      let k = call-Keeps s c w (omega (arith, keys, le)) in
      (
        classify-IsValid s c.event_id c.fingerprint c.policy c.now c.later w,
        k.0 ∙ ttl,
        k.1 ∙ keys,
        k.2 ∙ bytes,
        omega (arith, k.3, le),
      )

  pub after-kept :
      (calls : List Call) (j : String) (e : WebhookIdempotencyEntry)
      → IsValid b
      → size b.entries + length calls ≤ b.max_keys
      → get j b.entries ≡ some e
      → All (RunsUntil (e.seen_at + b.ttl_ms)) calls
      → get j (after b calls).entries ≡ some e
  unfolding after
  after-kept [] j e v room held runs = held
  after-kept (c ∷ earlier) j e v room held (run, runs) =
      let (w, ttl, keys, bytes, le) = after-Keeps earlier v (omega arith) in
      call-kept (after b earlier) c w (omega (arith, keys, le)) j e
        (after-kept earlier j e v (omega arith) held runs) (omega (arith, ttl, run))
