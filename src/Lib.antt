-- ===== src/Lib.antt =====
-- The gateway between browsers and the AO network, and its two Cloudflare workers: a model of the parts
-- that keep state or decide, by shallow embedding, with theorems about them.
--
-- The program. A request reaches src/handler.ts, which asks the rate limit (src/ratelimit.ts), the
-- replay store (src/runtime/sessions/replayStore.ts), the response cache (src/cache.ts) and, for
-- payment webhooks, src/runtime/payments/webhookIdempotency.ts, and counts in src/metrics.ts. What it
-- serves is checked against a manifest by src/integrity/verifier.ts. Mails go through
-- src/runtime/mailing. workers/async-worker refreshes and probes the hosts that the gateway serves and
-- keeps a record for each in a KV store, from the TXT record and the signed config of the host;
-- workers/secrets-worker issues and verifies route assertions, whose nonces are claimed against replay.
--
-- The files.
--   Base, JsMap, Text: what the sources use of the language: tests on numbers, the `Map` as a list in
--     insertion order, trimming, splitting and prefixes of texts. Letters are lower-cased in ASCII
--     only; Text/Letters and Text/Spaces hold the lemmas on letters and white space.
--   Json: values of JSON and their printing. Json/Canonical is src/runtime/core/canonicalJson.ts with
--     the order of keys in Json/Keys, Json/Stable the stableStringify of the secrets worker.
--   Metrics: src/metrics.ts (inc, gauge, reset, the audit sequence).
--   Cache: src/cache.ts. `put` is Cache/Admission, `fetch_entry`, `get_value`, `sweep`, `drop_key` and
--     `forget_subject` are the functions of these names; Subjects, Linking, Coherence, Forget, Reads,
--     Storing, Rooms, Puts and Calls hold the proofs.
--   RateLimit: src/ratelimit.ts (`check`, `prune`, `effective_max_for_key`, `reset_all` for _reset).
--   Integrity/Verifier: src/integrity/verifier.ts.
--   Sessions/ReplayStore: the class ReplayStore, src/runtime/sessions/replayStore.ts.
--   Sessions/Lifecycle: src/runtime/sessions/lifecycle.ts, the service over its in-memory store.
--   Payments/WebhookIdempotency: src/runtime/payments/webhookIdempotency.ts (`classify`).
--   Auth: src/runtime/auth/policy.ts. SignatureRefs: src/runtime/crypto/signatureRefs.ts.
--   Mailing/Queue, Mailing/Delivery, Mailing/Transport: src/runtime/mailing/queue.ts, delivery.ts and
--     transport.ts.
--   DomainMap: the record of workers/async-worker/src/domainMapStore.ts, with the state machine and the
--     schedule of domainStateMachine.ts in its children Machine and Schedule; Store is the class
--     DomainMapStore with the reading and writing of records as JSON.
--   DnsTxt: workers/async-worker/src/dnsTxtParser.ts.
--   SiteConfig: workers/async-worker/src/configValidator.ts is its child Validator, and
--     configSignatureVerifier.ts the children Keys and Signature. Domain, Formed, Accepted, Fixed,
--     Genuine, Unsigned and ShortKeys hold the proofs; ShortKeys takes from index.ts the options with
--     which a config is verified.
--   RouteAssertions: workers/secrets-worker/src. Issue and Inputs are routeAssertion.ts, Verify and
--     VerifyInput are routeAssertionVerify.ts, Replay is routeAssertionReplay.ts; Outcome and Domains
--     hold what the first two share, Journey follows an assertion from the one to the other.
-- Functions keep the sources' names in snake case. Objects are values that a function takes and
-- returns; where the sources wait (`await`), what other code does meanwhile is an argument
-- (Mailing/Delivery) or the wait ends a step, and steps interleave in any order (RouteAssertions/Replay).
-- What throws returns an outcome, which is a value or the error.
--
-- Arguments in place of the surroundings: the clock, the identifier that a factory makes, the answer of
-- `fetch`, the configuration constants, `Date.parse` and `toISOString`, the URL parser, signatures and
-- hashes, `JSON.parse` where a text is read back, and the KV stores. Numbers are whole and, but for
-- those of JSON, not negative, without an upper bound: the sources' times and counters stay far below
-- 2^53, where numbers of the language are exact. A subtraction that could go below zero stands under a
-- `max`.
--
-- Loops are recursion on the list that they walk. `while (map.size > limit)` has fuel, the size of the
-- map, which is enough because each round removes an entry (delete_oldest_while_stops in JsMap/Sweeps);
-- the loop that strips prefixes in Integrity/Verifier has one more than the length of the text, which
-- is enough because each round shortens it.
--
-- Not modelled: routing and HTTP (src/handler.ts, src/server.ts, workers' index.ts), the template API
-- and the resolution of sites, reading the environment, telemetry, cryptography, the client and the
-- checkpoint of src/integrity, the client SDKs, scripts and operations. They are input and output,
-- calls of libraries, or code that a later extension of this library takes up. Floating-point jitter,
-- error texts for people and the text that metrics print are left out of the parts that are modelled.
pub mod Auth
pub mod Base
pub mod Integrity
pub mod JsMap
pub mod Json
pub mod Metrics
pub mod Cache
pub mod SignatureRefs
pub mod Text
pub mod RateLimit
pub mod Sessions
pub mod SiteConfig
pub mod RouteAssertions
pub mod Mailing
pub mod Payments
pub mod DnsTxt
pub mod DomainMap
