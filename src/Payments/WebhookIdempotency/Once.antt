-- ===== src/Payments/WebhookIdempotency/Once.antt =====
-- Calls for the event of an accepted call, src/runtime/payments/webhookIdempotency.ts.
use blackcat_darkmesh_gatewa.Payments.WebhookIdempotency.{
  WebhookIdempotencyEntry, WebhookIdempotencyBoundary, WebhookIdempotencyPolicy,
  WebhookIdempotencyDecision, dedupe, reject, prune_expired, accept, decide_prior, normalized,
  is_named, classify,
}
use blackcat_darkmesh_gatewa.Base.{
  ℕ, ◌+◌, ◌≤◌, ◌≡◌, refl, sym, ap, ◌∙◌, subst, inl, inr, String, true, Option, some, List, arith,
  Bool-cases, Option-cases, length, All,
}
use blackcat_darkmesh_gatewa.JsMap.{get, size}
use blackcat_darkmesh_gatewa.Payments.WebhookIdempotency.Classified.{
  IsValid, live, accept_new-held, prune_expired-IsValid, classify_unnamed, classify_prior,
  classify_fresh, classify-IsValid, classify_lem,
}
use blackcat_darkmesh_gatewa.Payments.WebhookIdempotency.Answers.{Again, decide_prior-Again}
use blackcat_darkmesh_gatewa.Payments.WebhookIdempotency.Histories.{
  Call, call, after, RunsUntil, after-Keeps, after-kept, limits-prune_expired,
}

decide_prior-accepts :
    (fingerprint : String) (policy : WebhookIdempotencyPolicy) (e : WebhookIdempotencyEntry)
    → (decide_prior fingerprint policy e ≡ accept)
    → ⊥
decide_prior-accepts fingerprint dedupe e h =
    ground (arith, ap (λ (d : WebhookIdempotencyDecision). d.status) h)
decide_prior-accepts fingerprint reject e h =
    ground (arith, ap (λ (d : WebhookIdempotencyDecision). d.status) h)

module _ (b : WebhookIdempotencyBoundary) (event_id : Option String) (fingerprint : String)
    (policy : WebhookIdempotencyPolicy) (now later : ℕ) where
  -- What an accepted call leaves.
  pub classify-accepted :
      IsValid b
      → (classify b event_id fingerprint policy now later).1 ≡ accept
      → let r = (classify b event_id fingerprint policy now later).0 in
        (is_named b (normalized event_id) ≡ true)
        × (get (normalized event_id) r.entries
            ≡ some (record { fingerprint = fingerprint; seen_at = later }))
        × (r.ttl_ms ≡ b.ttl_ms)
        × (r.max_keys ≡ b.max_keys)
        × (r.key_max_bytes ≡ b.key_max_bytes)
  classify-accepted v taken = elim (Bool-cases (is_named b (normalized event_id))) [
    | inr unnamed ↦ ground (
      arith,
      taken,
      ap (λ (d : WebhookIdempotencyDecision). d.status) taken,
      classify_unnamed b event_id fingerprint policy now later unnamed,
    )
    | inl named ↦ elim (Option-cases (get (normalized event_id) (prune_expired b now).entries)) [
      | inl new ↦
          let pruned = prune_expired b now in
          let same = limits-prune_expired b now in
          let r =
            accept_new-held pruned (normalized event_id) fingerprint later
              (prune_expired-IsValid b now v) in
          rw (classify_fresh b event_id fingerprint policy now later named new)
            (named, r.0, r.1 ∙ same.0, r.2 ∙ same.1, r.3 ∙ same.2)
      | inr (e, held) ↦ absurd (
          decide_prior-accepts fingerprint policy e (
            ap (λ (r : WebhookIdempotencyBoundary × WebhookIdempotencyDecision). r.1)
              (sym (classify_prior b event_id fingerprint policy now later e named held))
            ∙ taken))
    ]
  ]

-- Accepted once. On a boundary with distinct keys that are not empty, a positive capacity and at most that many keys,
-- let a call be accepted, and then calls come that read the clock not later than `ttlMs` after it, as many
-- as there is room for. Then a call with the same identifier in that time is not accepted: it is answered
-- as a duplicate, with 200 or 409 by its policy, if its fingerprint is that of the accepted call, and as a
-- conflict with 409 if it is not.
pub accepted_once :
    (b : WebhookIdempotencyBoundary) (first : Call) (calls : List Call) (again : Call)
    → IsValid b
    → (classify b first.event_id first.fingerprint first.policy first.now first.later).1 ≡ accept
    → size (call first b).entries + length calls ≤ b.max_keys
    → All (RunsUntil (first.later + b.ttl_ms)) calls
    → normalized again.event_id ≡ normalized first.event_id
    → again.now ≤ first.later + b.ttl_ms
    → Again first.fingerprint again.fingerprint again.policy
        (classify
          (after (call first b) calls)
          again.event_id
          again.fingerprint
          again.policy
          again.now
          again.later).1
accepted_once b first calls again v taken room runs same before =
    let s = call first b in
    let (named, held, ttl, keys, bytes) =
      classify-accepted b first.event_id first.fingerprint first.policy first.now first.later v
        taken in
    let w =
      classify-IsValid b first.event_id first.fingerprint first.policy first.now first.later v in
    let roomy : size s.entries + length calls ≤ s.max_keys = omega (arith, keys, room) in
    let e : WebhookIdempotencyEntry = record {
      fingerprint = first.fingerprint;
      seen_at = first.later;
    } in
    let (x, ttl2, keys2, bytes2, le) = after-Keeps s calls w roomy in
    let kept =
      after-kept s calls (normalized first.event_id) e w roomy held
        (subst (λ t. All (RunsUntil (first.later + t)) calls) (sym ttl) runs) in
    let said =
      classify_lem (after s calls) again.event_id again.fingerprint again.policy again.now
        again.later x in
    let t = after s calls in
    let long : is_named t (normalized again.event_id) ≡ true = rw (same, bytes2 ∙ bytes) named in
    let runs_still : live t.ttl_ms again.now (get (normalized again.event_id) t.entries) ≡ some e =
      ground (arith, same, kept, ttl2, ttl, before) in
    let answered : (classify t again.event_id again.fingerprint again.policy again.now
          again.later).1
        ≡ decide_prior again.fingerprint again.policy e =
      said ∙ (rw (long, runs_still) refl) in
    subst (λ d. Again first.fingerprint again.fingerprint again.policy d) (sym answered)
      (decide_prior-Again again.fingerprint again.policy e)
