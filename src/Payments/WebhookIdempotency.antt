-- ===== src/Payments/WebhookIdempotency.antt =====
-- src/runtime/payments/webhookIdempotency.ts: the events of a payment provider that were seen. The
-- clock is read twice in `classify`, which makes the arguments `now` and `later`.
pub mod Oldest
pub mod Classified
pub mod Answers
pub mod Histories
pub mod Once
mod Tests
use Prim.Native.String.{len}
use blackcat_darkmesh_gatewa.Text.{trim}
use blackcat_darkmesh_gatewa.Base.{
  ℕ, zero, suc, ◌+◌, ◌-◌, ◌*◌, ◌/◌, ◌%◌, ◌^◌, ◌≤◌, ◌<◌, min, max, ◌≡◌, refl, sym, ap, ◌∙◌, subst,
  ◌≢◌, ◌↔◌, ◌⊎◌, inl, inr, String, Bool, true, false, ◌&&◌, ◌||◌, not, Option, none, some, List, [],
  ◌∷◌, ◌++◌, map, ◌===◌, eq_iff, eq_refl, arith, ltb, leb, ◌==◌, if◌then◌else◌, is_some, or_else,
  option_map, Bool-cases, Option-cases, length, length-append, All, All-append, Any, leb→le, le→leb,
  ltb→lt, lt→ltb,
}
use blackcat_darkmesh_gatewa.JsMap.{
  JsMap, get, set, delete, has, size, first_key, delete_where, delete_oldest_while, IsUnique,
}

pub data WebhookIdempotencyPolicy : Type 0 where
  dedupe : WebhookIdempotencyPolicy
  reject : WebhookIdempotencyPolicy

pub data WebhookIdempotencyStatus : Type 0 where
  accepted : WebhookIdempotencyStatus
  missing_id : WebhookIdempotencyStatus
  duplicate : WebhookIdempotencyStatus
  conflict : WebhookIdempotencyStatus

pub record WebhookIdempotencyDecision : Type 0 where
  pub status : WebhookIdempotencyStatus
  pub http_status : ℕ
  pub body : String

pub record WebhookIdempotencyEntry : Type 0 where
  pub fingerprint : String
  pub seen_at : ℕ

pub record WebhookIdempotencyBoundaryOptions : Type 0 where
  pub ttl_ms : ℕ
  pub max_keys : ℕ
  pub key_max_bytes : ℕ

pub record WebhookIdempotencyBoundary : Type 0 where
  pub ttl_ms : ℕ
  pub max_keys : ℕ
  pub key_max_bytes : ℕ
  pub entries : JsMap WebhookIdempotencyEntry

abbrev pub positive_int : ℕ → ℕ → ℕ
positive_int value fallback = if ltb 0 value then value else fallback

abbrev pub init : WebhookIdempotencyBoundaryOptions → WebhookIdempotencyBoundary
init options = record {
  ttl_ms = positive_int options.ttl_ms 600000;
  max_keys = positive_int options.max_keys 10000;
  key_max_bytes = positive_int options.key_max_bytes 512;
  entries = [];
}

abbrev pub is_expired : ℕ → ℕ → WebhookIdempotencyEntry → Bool
is_expired ttl_ms now entry = ltb (entry.seen_at + ttl_ms) now

unfoldable pub prune_expired : WebhookIdempotencyBoundary → ℕ → WebhookIdempotencyBoundary
prune_expired b now = record b {
  entries = (delete_where (is_expired b.ttl_ms now) b.entries b.entries 0).0;
}

-- The search of `pruneOldest` with the best key so far; the first of equal times wins.
unfoldable pub oldest_from : String × ℕ → JsMap WebhookIdempotencyEntry → String × ℕ
oldest_from best [] = best
oldest_from best ((key, entry) ∷ entries) =
    oldest_from (if ltb entry.seen_at best.1 then (key, entry.seen_at) else best) entries

unfoldable pub oldest_key : JsMap WebhookIdempotencyEntry → Option String
unfolding oldest_from
oldest_key [] = none
oldest_key ((key, entry) ∷ entries) = some (oldest_from (key, entry.seen_at) entries).0

-- An empty key is no key: `if (oldestKey)`.
unfoldable pub prune_oldest : WebhookIdempotencyBoundary → WebhookIdempotencyBoundary
prune_oldest b = elim (oldest_key b.entries) [
  | none ↦ b
  | some oldest ↦ if oldest === "" then b else record b { entries = delete oldest b.entries }
]

abbrev pub missing : WebhookIdempotencyDecision
missing = record { status = missing_id; http_status = 400; body = "missing event id" }

abbrev pub accept : WebhookIdempotencyDecision
accept = record { status = accepted; http_status = 200; body = "ok" }

abbrev pub decide_duplicate : WebhookIdempotencyPolicy → WebhookIdempotencyDecision
decide_duplicate reject = record {
  status = duplicate;
  http_status = 409;
  body = "duplicate event id";
}
decide_duplicate dedupe = record { status = duplicate; http_status = 200; body = "replay" }

abbrev pub decide_prior :
    String → WebhookIdempotencyPolicy → WebhookIdempotencyEntry → WebhookIdempotencyDecision
decide_prior fingerprint policy prior =
    if prior.fingerprint === fingerprint then decide_duplicate policy else record {
      status = conflict;
      http_status = 409;
      body = "conflicting event payload for event id";
    }

unfoldable pub accept_new :
    WebhookIdempotencyBoundary → String → String → ℕ → WebhookIdempotencyBoundary
accept_new b event_id fingerprint later =
    let room = if leb b.max_keys (size b.entries) then prune_oldest b else b in
    record room {
      entries = set event_id (record { fingerprint = fingerprint; seen_at = later }) room.entries;
    }

unfoldable pub classify_pruned :
    WebhookIdempotencyBoundary
    → String
    → String
    → WebhookIdempotencyPolicy
    → ℕ
    → WebhookIdempotencyBoundary × WebhookIdempotencyDecision
classify_pruned b event_id fingerprint policy later = elim (get event_id b.entries) [
  | some prior ↦ (b, decide_prior fingerprint policy prior)
  | none ↦ (accept_new b event_id fingerprint later, accept)
]

abbrev pub normalized : Option String → String
normalized none = ""
normalized (some event_id) = trim event_id

-- There is an identifier, and it is not too long.
abbrev pub is_named : WebhookIdempotencyBoundary → String → Bool
is_named b event_id = not (event_id === "") && leb (len event_id) b.key_max_bytes

unfoldable pub classify :
    WebhookIdempotencyBoundary
    → Option String
    → String
    → WebhookIdempotencyPolicy
    → ℕ
    → ℕ
    → WebhookIdempotencyBoundary × WebhookIdempotencyDecision
classify b event_id fingerprint policy now later =
    if is_named b (normalized event_id)
    then classify_pruned (prune_expired b now) (normalized event_id) fingerprint policy later
    else (b, missing)
