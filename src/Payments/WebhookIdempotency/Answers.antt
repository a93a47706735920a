-- ===== src/Payments/WebhookIdempotency/Answers.antt =====
-- What the answers of `classify` mean, src/runtime/payments/webhookIdempotency.ts, by their status and
-- HTTP status.
use Prim.Native.String.{len}
use blackcat_darkmesh_gatewa.Payments.WebhookIdempotency.{
  WebhookIdempotencyEntry, WebhookIdempotencyBoundary, WebhookIdempotencyPolicy,
  WebhookIdempotencyDecision, dedupe, reject, accepted, missing_id, duplicate, conflict, is_expired,
  accept, decide_duplicate, decide_prior, normalized, is_named, classify,
}
use blackcat_darkmesh_gatewa.Payments.WebhookIdempotency.Classified.{
  IsValid, live, answer, classify_lem,
}
use blackcat_darkmesh_gatewa.Base.{
  ℕ, ◌+◌, ◌≤◌, ◌<◌, ◌≡◌, refl, sym, ◌∙◌, subst, ◌≢◌, ◌⊎◌, inl, inr, String, Bool, true, false, ◌&&◌,
  not, Option, none, some, ◌===◌, eq_iff, arith, leb, Bool-cases, Option-cases, leb→le, ltb→lt,
}
use blackcat_darkmesh_gatewa.JsMap.{get}

-- A duplicate is confirmed under `dedupe` and refused under `reject`.
abbrev pub duplicate_status : WebhookIdempotencyPolicy → ℕ
duplicate_status dedupe = 200
duplicate_status reject = 409

abbrev pub IsDuplicate : WebhookIdempotencyPolicy → WebhookIdempotencyDecision → Type 0
IsDuplicate policy d = (d.status ≡ duplicate) × (d.http_status ≡ duplicate_status policy)

abbrev pub IsConflict : WebhookIdempotencyDecision → Type 0
IsConflict d = (d.status ≡ conflict) × (d.http_status ≡ 409)

-- By the fingerprint that was seen and the one of the call.
abbrev pub Again : String → String → WebhookIdempotencyPolicy → WebhookIdempotencyDecision → Type 0
Again seen fingerprint policy d =
    ((seen ≡ fingerprint) × IsDuplicate policy d) ⊎ ((seen ≢ fingerprint) × IsConflict d)

decide_duplicate-IsDuplicate :
    (policy : WebhookIdempotencyPolicy) → IsDuplicate policy (decide_duplicate policy)
decide_duplicate-IsDuplicate dedupe = (refl, refl)
decide_duplicate-IsDuplicate reject = (refl, refl)

pub decide_prior-Again :
    (fingerprint : String) (policy : WebhookIdempotencyPolicy) (e : WebhookIdempotencyEntry)
    → Again e.fingerprint fingerprint policy (decide_prior fingerprint policy e)
decide_prior-Again fingerprint policy e = elim (Bool-cases (e.fingerprint === fingerprint)) [
  | inl same ↦
      inl ((eq_iff e.fingerprint fingerprint).0 same, rw same (decide_duplicate-IsDuplicate policy))
  | inr other ↦ inr (
    λ same. refuted (sym other ∙ (eq_iff e.fingerprint fingerprint).1 same),
    rw other (refl, refl),
  )
]
  where
    refuted : false ≡ true → ⊥
    refuted e = cc

-- An identifier that is given and not longer than the boundary takes.
abbrev pub IsNamed : WebhookIdempotencyBoundary → String → Type 0
IsNamed b event_id = (event_id ≢ "") × (len event_id ≤ b.key_max_bytes)

-- No entry is held for it, or one whose time is over.
abbrev pub IsFree : WebhookIdempotencyBoundary → String → ℕ → Type 0
IsFree b event_id now =
    (get event_id b.entries ≡ none)
    ⊎ ((e : WebhookIdempotencyEntry) × (get event_id b.entries ≡ some e)
        × (e.seen_at + b.ttl_ms < now))

-- The answers: missing, accepted, or one about an entry whose time is not over.
abbrev pub Answers :
    WebhookIdempotencyBoundary
    → String
    → String
    → WebhookIdempotencyPolicy
    → ℕ
    → WebhookIdempotencyDecision
    → Type 0
Answers b event_id fingerprint policy now d =
    (((event_id ≡ "") ⊎ (b.key_max_bytes < len event_id))
      × (d.status ≡ missing_id)
      × (d.http_status ≡ 400))
    ⊎ ((IsNamed b event_id × IsFree b event_id now × (d.status ≡ accepted) × (d.http_status ≡ 200))
        ⊎ (IsNamed b event_id
            × ((e : WebhookIdempotencyEntry) × (get event_id b.entries ≡ some e)
                × (now ≤ e.seen_at + b.ttl_ms)
                × Again e.fingerprint fingerprint policy d)))

is_named-true :
    (b : WebhookIdempotencyBoundary) (event_id : String)
    → is_named b event_id ≡ true
    → IsNamed b event_id
is_named-true b event_id h =
    let (filled, short) = both (event_id === "") (leb (len event_id) b.key_max_bytes) h in
    (
      λ e. clash (sym filled ∙ (eq_iff event_id "").1 e),
      leb→le (len event_id) b.key_max_bytes short,
    )
  where
    both : (x y : Bool) → (not x && y) ≡ true → (x ≡ false) × (y ≡ true)
    both x y h = ground arith

    clash : false ≡ true → ⊥
    clash e = cc

is_named-false :
    (b : WebhookIdempotencyBoundary) (event_id : String)
    → is_named b event_id ≡ false
    → (event_id ≡ "") ⊎ (b.key_max_bytes < len event_id)
is_named-false b event_id h = elim (Bool-cases (event_id === "")) [
  | inl e ↦ inl ((eq_iff event_id "").0 e)
  | inr e ↦ inr (ground (arith, e, h))
]

module _ (b : WebhookIdempotencyBoundary) (event_id : Option String) (fingerprint : String)
    (policy : WebhookIdempotencyPolicy) (now later : ℕ) where
  answer-held :
      (e : WebhookIdempotencyEntry)
      → IsNamed b (normalized event_id)
      → get (normalized event_id) b.entries ≡ some e
      → Answers b
          (normalized event_id)
          fingerprint
          policy
          now
          (answer fingerprint policy (live b.ttl_ms now (some e)))
  answer-held e named held = elim (Bool-cases (is_expired b.ttl_ms now e)) [
    | inl over ↦
        rw over
          (inr (inl (named, inr (e, held, ltb→lt (e.seen_at + b.ttl_ms) now over), refl, refl)))
    | inr runs ↦
        rw runs
          (inr (inr (named, (e, held, ground arith, decide_prior-Again fingerprint policy e))))
  ]

  -- The answer of a call on a boundary with distinct keys that are not empty, a positive capacity and
  -- at most that many keys: 400 exactly without an identifier or with one that is longer than the
  -- boundary takes; else acceptance with 200 if no entry is held for it or `ttlMs` have passed since
  -- it was seen; else a duplicate, with 200 or 409 by the policy, if the fingerprint is the one
  -- that was seen, and a conflict with 409 if it is not.
  pub classify-Answers :
      IsValid b
      → Answers b
          (normalized event_id)
          fingerprint
          policy
          now
          (classify b event_id fingerprint policy now later).1
  classify-Answers v = elim (Bool-cases (is_named b (normalized event_id))) [
    | inr unnamed ↦
        rw (classify_lem b event_id fingerprint policy now later v, unnamed)
          (inl (is_named-false b (normalized event_id) unnamed, refl, refl))
    | inl named ↦ elim (Option-cases (get (normalized event_id) b.entries)) [
      | inl free ↦
          let said : (classify b event_id fingerprint policy now later).1 ≡ accept =
            classify_lem b event_id fingerprint policy now later v ∙ (rw (named, free) refl) in
          subst (λ d. Answers b (normalized event_id) fingerprint policy now d) (sym said)
            (inr (inl (is_named-true b (normalized event_id) named, inl free, refl, refl)))
      | inr (e, held) ↦
          let said : (classify b event_id fingerprint policy now later).1
              ≡ answer fingerprint policy (live b.ttl_ms now (some e)) =
            classify_lem b event_id fingerprint policy now later v ∙ (rw (named, held) refl) in
          subst (λ d. Answers b (normalized event_id) fingerprint policy now d) (sym said)
            (answer-held e (is_named-true b (normalized event_id) named) held)
    ]
  ]
