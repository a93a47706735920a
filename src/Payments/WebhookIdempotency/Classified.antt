-- ===== src/Payments/WebhookIdempotency/Classified.antt =====
-- One call of `classify` of src/runtime/payments/webhookIdempotency.ts: its answer, what it leaves, and
-- how many events are kept.
use blackcat_darkmesh_gatewa.Payments.WebhookIdempotency.{
  WebhookIdempotencyEntry, WebhookIdempotencyBoundary, WebhookIdempotencyPolicy,
  WebhookIdempotencyDecision, is_expired, prune_expired, prune_oldest, missing, accept,
  decide_prior, accept_new, classify_pruned, normalized, is_named, classify,
}
use blackcat_darkmesh_gatewa.Base.{
  ℕ, ◌≤◌, ◌<◌, ◌≡◌, refl, sym, ap, ◌∙◌, inl, inr, String, true, false, Option, none, some, ◌===◌,
  eq_refl, arith, leb, if◌then◌else◌, Bool-cases, Option-cases,
}
use blackcat_darkmesh_gatewa.JsMap.{get, set, delete, size, IsUnique}
use blackcat_darkmesh_gatewa.JsMap.Laws.{get-set, get-delete, set-IsUnique, delete-IsUnique}
use blackcat_darkmesh_gatewa.JsMap.Sizes.{size-set, size-delete}
use blackcat_darkmesh_gatewa.JsMap.Sweeps.{
  get-delete_where, delete_where-IsUnique, size-delete_where-le,
}
use blackcat_darkmesh_gatewa.Payments.WebhookIdempotency.Oldest.{prune_oldest_lem}

-- The keys are distinct and not empty, and not more than the capacity, which is positive.
pub record IsValid (b : WebhookIdempotencyBoundary) : Type 0 where
  pub unique : IsUnique b.entries
  pub named : get "" b.entries ≡ none
  pub room : 0 < b.max_keys
  pub bounded : size b.entries ≤ b.max_keys

-- An entry that the pruning at `now` keeps.
abbrev pub live : ℕ → ℕ → Option WebhookIdempotencyEntry → Option WebhookIdempotencyEntry
live ttl_ms now none = none
live ttl_ms now (some e) = if is_expired ttl_ms now e then none else some e

pub get-prune_expired :
    (b : WebhookIdempotencyBoundary) (now : ℕ) (k : String)
    → IsUnique b.entries
    → get k (prune_expired b now).entries ≡ live b.ttl_ms now (get k b.entries)
unfolding prune_expired
get-prune_expired b now k u =
    ground (arith, get-delete_where (is_expired b.ttl_ms now) k b.entries 0 u)

pub prune_expired-IsValid :
    (b : WebhookIdempotencyBoundary) (now : ℕ) → IsValid b → IsValid (prune_expired b now)
unfolding prune_expired
prune_expired-IsValid b now v = record {
  unique = delete_where-IsUnique (is_expired b.ttl_ms now) b.entries b.entries 0 v.unique;
  named =
      ground (arith, v.named, get-delete_where (is_expired b.ttl_ms now) "" b.entries 0 v.unique);
  room = v.room;
  bounded =
      omega
        (arith, v.bounded, size-delete_where-le (is_expired b.ttl_ms now) b.entries b.entries 0);
}

abbrev pub with_entry :
    WebhookIdempotencyBoundary → String → WebhookIdempotencyEntry → WebhookIdempotencyBoundary
with_entry b k e = record b { entries = set k e b.entries }

with_entry-IsValid :
    (b : WebhookIdempotencyBoundary) (k : String) (e : WebhookIdempotencyEntry)
    → IsUnique b.entries
    → get "" b.entries ≡ none
    → (k === "") ≡ false
    → size b.entries < b.max_keys
    → IsValid (with_entry b k e)
with_entry-IsValid b k e unique named given room = record {
  unique = set-IsUnique k e b.entries unique;
  named = ground (arith, named, given, get-set k "" e b.entries);
  room = omega (arith, room);
  bounded = ground (arith, room, size-set k e b.entries);
}

accept_new_full :
    (b : WebhookIdempotencyBoundary) (k fingerprint : String) (later : ℕ)
    → leb b.max_keys (size b.entries) ≡ true
    → accept_new b k fingerprint later
      ≡ with_entry (prune_oldest b) k (record { fingerprint = fingerprint; seen_at = later })
unfolding accept_new
accept_new_full b k fingerprint later full = rw (full, accept_new) refl

pub accept_new_roomy :
    (b : WebhookIdempotencyBoundary) (k fingerprint : String) (later : ℕ)
    → leb b.max_keys (size b.entries) ≡ false
    → accept_new b k fingerprint later
      ≡ with_entry b k (record { fingerprint = fingerprint; seen_at = later })
unfolding accept_new
accept_new_roomy b k fingerprint later roomy = rw (roomy, accept_new) refl

accept_new-IsValid :
    (b : WebhookIdempotencyBoundary) (k fingerprint : String) (later : ℕ)
    → IsValid b
    → (k === "") ≡ false
    → IsValid (accept_new b k fingerprint later)
accept_new-IsValid b k fingerprint later v given =
    let new : WebhookIdempotencyEntry = record { fingerprint = fingerprint; seen_at = later } in
    elim (Bool-cases (leb b.max_keys (size b.entries))) [
      | inl full ↦
          let (j, e, gone, held, first) =
            prune_oldest_lem b v.unique v.named (ground (arith, v.room, full)) in
          rw (accept_new_full b k fingerprint later full, gone)
            (with_entry-IsValid (record b { entries = delete j b.entries }) k new
              (delete-IsUnique j b.entries v.unique)
              (ground (arith, v.named, get-delete j "" b.entries)) given
              (ground (arith, v.bounded, held, size-delete j b.entries v.unique)))
      | inr roomy ↦
          rw (accept_new_roomy b k fingerprint later roomy)
            (with_entry-IsValid b k new v.unique v.named given (ground (arith, roomy)))
    ]

pub accept_new-held :
    (b : WebhookIdempotencyBoundary) (k fingerprint : String) (later : ℕ)
    → IsValid b
    → let r = accept_new b k fingerprint later in
      (get k r.entries ≡ some (record { fingerprint = fingerprint; seen_at = later }))
      × (r.ttl_ms ≡ b.ttl_ms)
      × (r.max_keys ≡ b.max_keys)
      × (r.key_max_bytes ≡ b.key_max_bytes)
accept_new-held b k fingerprint later v =
    let new : WebhookIdempotencyEntry = record { fingerprint = fingerprint; seen_at = later } in
    elim (Bool-cases (leb b.max_keys (size b.entries))) [
      | inl full ↦
          let (j, e, gone, held, first) =
            prune_oldest_lem b v.unique v.named (ground (arith, v.room, full)) in
          rw (accept_new_full b k fingerprint later full, gone)
            (ground (arith, get-set k k new (delete j b.entries), eq_refl k), refl, refl, refl)
      | inr roomy ↦
          rw (accept_new_roomy b k fingerprint later roomy)
            (ground (arith, get-set k k new b.entries, eq_refl k), refl, refl, refl)
    ]

-- The answer as a function of the entry that is held and not expired.
abbrev pub answer :
    String → WebhookIdempotencyPolicy → Option WebhookIdempotencyEntry → WebhookIdempotencyDecision
answer fingerprint policy none = accept
answer fingerprint policy (some e) = decide_prior fingerprint policy e

module _ (b : WebhookIdempotencyBoundary) (event_id : Option String) (fingerprint : String)
    (policy : WebhookIdempotencyPolicy) (now later : ℕ) where
  pub classify_unnamed :
      is_named b (normalized event_id) ≡ false
      → classify b event_id fingerprint policy now later ≡ (b, missing)
  unfolding classify
  classify_unnamed named = rw (named, classify) refl

  pub classify_prior :
      (e : WebhookIdempotencyEntry)
      → is_named b (normalized event_id) ≡ true
      → get (normalized event_id) (prune_expired b now).entries ≡ some e
      → classify b event_id fingerprint policy now later
        ≡ (prune_expired b now, decide_prior fingerprint policy e)
  unfolding classify classify_pruned
  classify_prior e named held = rw (named, held, classify, classify_pruned) refl

  pub classify_fresh :
      is_named b (normalized event_id) ≡ true
      → get (normalized event_id) (prune_expired b now).entries ≡ none
      → classify b event_id fingerprint policy now later
        ≡ (accept_new (prune_expired b now) (normalized event_id) fingerprint later, accept)
  unfolding classify classify_pruned
  classify_fresh named held = rw (named, held, classify, classify_pruned) refl

  -- Every call on a boundary with distinct keys that are not empty, a positive capacity and at most
  -- that many keys leaves a boundary of that kind.
  pub classify-IsValid : IsValid b → IsValid (classify b event_id fingerprint policy now later).0
  classify-IsValid v = elim (Bool-cases (is_named b (normalized event_id))) [
    | inr unnamed ↦ rw (classify_unnamed unnamed) v
    | inl named ↦ elim (Option-cases (get (normalized event_id) (prune_expired b now).entries)) [
      | inl new ↦ rw (classify_fresh named new) (
          accept_new-IsValid (prune_expired b now) (normalized event_id) fingerprint later
            (prune_expired-IsValid b now v) (ground (arith, named)))
      | inr (e, held) ↦ rw (classify_prior e named held) (prune_expired-IsValid b now v)
    ]
  ]

  -- The answer of a call on such a boundary. Without an identifier, or with one that is too long, it is
  -- that the identifier is missing; else it depends on the entry held for it that has not expired: accepted
  -- without one, a duplicate if the fingerprint is the same, a conflict if it is not.
  pub classify_lem :
      IsValid b
      → (classify b event_id fingerprint policy now later).1 ≡ (
          if is_named b (normalized event_id)
          then answer fingerprint policy (live b.ttl_ms now (get (normalized event_id) b.entries))
          else missing)
  classify_lem v = elim (Bool-cases (is_named b (normalized event_id))) [
    | inr unnamed ↦ rw (classify_unnamed unnamed, unnamed) refl
    | inl named ↦ elim (Option-cases (get (normalized event_id) (prune_expired b now).entries)) [
      | inl new ↦
          rw (classify_fresh named new, named)
            (ap (answer fingerprint policy)
              (sym new ∙ get-prune_expired b now (normalized event_id) v.unique))
      | inr (e, held) ↦
          rw (classify_prior e named held, named)
            (ap (answer fingerprint policy)
              (sym held ∙ get-prune_expired b now (normalized event_id) v.unique))
    ]
  ]
