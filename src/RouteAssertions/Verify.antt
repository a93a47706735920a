-- ===== src/RouteAssertions/Verify.antt =====
-- workers/secrets-worker/src/routeAssertionVerify.ts: the verification of a signed route assertion, up to
-- the claim of its nonce and the answer to it. Times are whole seconds. A clock skew written "-0" counts
-- as none. The error that a failed check throws is the answer's code.
pub mod Sound
mod Tests
use Prim.Native.String.{◌++◌ as ◌+++◌}
use blackcat_darkmesh_gatewa.Text.{trim, to_lower, parse_positive}
use blackcat_darkmesh_gatewa.Json.{
  Json, null, undefined, bool, num, text, arr, obj, non_plain, Fields, end, field, Number, whole,
  negative, not_finite,
}
use blackcat_darkmesh_gatewa.Json.Stable.{stable_stringify}
use blackcat_darkmesh_gatewa.RouteAssertions.Outcome.{
  Failure, refused, type_error, Outcome, ok, err, ◌>>=◌, ◌>>◌, require, field_of, body_field,
  clean_env, or_setting, AssertEnv, Platform,
}
use blackcat_darkmesh_gatewa.RouteAssertions.Domains.{
  normalize_verify_domain, check_domain_like, DomainResult, missing, invalid, host,
}
use blackcat_darkmesh_gatewa.RouteAssertions.Issue.{RouteAssertion, IssuedAssertion, assertion_json}
use blackcat_darkmesh_gatewa.RouteAssertions.Inputs.{is_hex_text}
use blackcat_darkmesh_gatewa.RouteAssertions.Replay
use blackcat_darkmesh_gatewa.RouteAssertions.VerifyInput.{failed, parse_verify_input, text_or_empty}
use blackcat_darkmesh_gatewa.Base.{
  ℕ, zero, suc, ◌+◌, ◌-◌, ◌*◌, ◌/◌, ◌%◌, ◌^◌, ◌≤◌, ◌<◌, min, max, ◌≡◌, refl, sym, ap, ◌∙◌, subst,
  ◌≢◌, ◌↔◌, ◌⊎◌, inl, inr, String, Bool, true, false, ◌&&◌, ◌||◌, not, Option, none, some, List, [],
  ◌∷◌, ◌++◌, map, ◌===◌, eq_iff, eq_refl, arith, ltb, leb, ◌==◌, if◌then◌else◌, is_some, or_else,
  option_map, Bool-cases, Option-cases, length, length-append, All, All-append, Any, leb→le, le→leb,
  ltb→lt, lt→ltb,
}

abbrev pub at_most : Number → Number → Bool
at_most (whole a) (whole b) = leb a b
at_most (whole a) (negative b) = false
at_most (negative a) (whole b) = true
at_most (negative a) (negative b) = leb b a
at_most not_finite b = false
at_most (whole a) not_finite = false
at_most (negative a) not_finite = false

unfoldable pub allowed_skew : AssertEnv → ℕ
unfolding clean_env parse_positive
allowed_skew env = or_else (parse_positive (clean_env env.route_assert_verify_skew_sec)) 30

unfoldable pub verify_window : RouteAssertion → AssertEnv → ℕ → Option String
unfolding allowed_skew
verify_window a env now =
    if not (a.v === "dm-route-assert/1")
    then some "bad_shape"
    else if at_most a.exp a.iat
    then some "bad_shape"
    else if not (at_most a.exp a.challenge_exp)
    then some "bad_shape"
    else if at_most a.exp (whole now)
    then some "expired_assertion"
    else if not (at_most a.iat (whole (now + allowed_skew env)))
    then some "assertion_not_yet_valid"
    else none

abbrev pub window_error : Option String → Outcome (Unit {0})
window_error none = ok tt
window_error (some code) = err (failed 409 code)

abbrev pub expect : String → String → DomainResult → Outcome (Unit {0})
expect actual code (host expected) = require (actual === expected) (failed 409 code)
expect actual code other = err (failed 400 "bad_shape")

-- An expected name that is missing or blank is not checked.
unfoldable pub check_expected : Platform → Json → String → String → Outcome (Unit {0})
unfolding trim check_domain_like
check_expected p (text value) actual code =
    if trim value === "" then ok tt else expect actual code (check_domain_like p value)
check_expected p other actual code = ok tt

unfoldable pub read_hex : String → ℕ → Failure → Outcome String
unfolding is_hex_text
read_hex digits n failure = if is_hex_text (2 * n) digits then ok digits else err failure

unfoldable pub resolve_verify_public_key : Platform → AssertEnv → Outcome String
unfolding clean_env read_hex
resolve_verify_public_key p env =
    let pub_hex = clean_env env.route_assert_verify_pub_hex in
    let private_hex =
      clean_env (or_setting env.route_assert_signing_key_hex env.worker_ed25519_priv_hex) in
    if not (pub_hex === "")
    then read_hex pub_hex 32 (failed 500 "invalid_verify_pubkey")
    else if private_hex === ""
    then err (failed 500 "missing_verify_key")
    else read_hex private_hex 32 (failed 500 "invalid_verify_privkey") >>= λ key.
        ok (p.public_key key)

-- `!signature || !sigAlg || !signatureRef` is refused.
unfoldable pub is_complete : Json → Json → Json → Bool
unfolding text_or_empty to_lower
is_complete signature alg ref = not (
    (text_or_empty signature === "")
    || (to_lower (text_or_empty alg) === "")
    || (text_or_empty ref === ""))

unfoldable pub is_ed25519 : Json → Bool
unfolding text_or_empty to_lower
is_ed25519 alg = to_lower (text_or_empty alg) === "ed25519"

abbrev pub is_expected_ref : String → String → Bool
is_expected_ref expected actual = (expected === "") || actual === expected

-- `if (expectedSigRef && signatureRef !== expectedSigRef)` is refused.
unfoldable pub is_known_ref : AssertEnv → Json → Bool
unfolding clean_env text_or_empty
is_known_ref env ref =
    is_expected_ref (clean_env (or_setting env.route_assert_signature_ref env.worker_signature_ref))
      (text_or_empty ref)

-- The checks of a body that could be parsed, before the claim of its nonce.
unfoldable pub check_body : Platform → AssertEnv → ℕ → Json → Outcome RouteAssertion
unfolding body_field text_or_empty is_complete is_ed25519 is_known_ref parse_verify_input
    verify_window check_expected resolve_verify_public_key read_hex assertion_json stable_stringify
check_body p env now body = do
  signature_value ← body_field "signature" body
  sig_alg_value ← body_field "sigAlg" body
  ref_value ← body_field "signatureRef" body
  require (is_complete signature_value sig_alg_value ref_value) (failed 400 "bad_shape")
  require (is_ed25519 sig_alg_value) (failed 400 "unsupported_sigalg")
  require (is_known_ref env ref_value) (failed 409 "signature_ref_mismatch")
  assertion ← parse_verify_input p body
  window_error (verify_window assertion env now)
  expected_domain ← body_field "expectedDomain" body
  check_expected p expected_domain assertion.domain "domain_mismatch"
  expected_host ← body_field "expectedHbHost" body
  check_expected p expected_host assertion.hb_host "hbhost_mismatch"
  verify_key ← resolve_verify_public_key p env
  signature ← read_hex (text_or_empty signature_value) 64 (failed 401 "invalid_sig")
  require (p.verify signature (stable_stringify (assertion_json assertion)) verify_key)
      (failed 401 "invalid_sig")
  ok assertion

unfoldable pub check_request : Platform → AssertEnv → ℕ → Option Json → Outcome RouteAssertion
unfolding check_body
check_request p env now none = err (failed 400 "bad_shape")
check_request p env now (some body) = check_body p env now body

-- The answer after the claim: the hash of the payload, or a refusal.
unfoldable pub answer_claim : Platform → RouteAssertion → Replay.ReplayClaimResult → Outcome String
unfolding assertion_json stable_stringify
answer_claim p a Replay.fresh = ok (p.digest (stable_stringify (assertion_json a)))
answer_claim p a Replay.replayed = err (failed 409 "replay_detected")
answer_claim p a (Replay.refused code) = err (failed 500 code)

abbrev pub whole_part : Number → ℕ
whole_part (whole n) = n
whole_part other = 0

-- What the claim is given; an assertion in force expires at a whole number.
abbrev pub claimed_of : RouteAssertion → Replay.Assertion
claimed_of a = record {
  challenge_nonce = a.challenge_nonce;
  domain = a.domain;
  cfg_tx = a.cfg_tx;
  exp = whole_part a.exp;
}

abbrev pub answered :
    Platform
    → RouteAssertion
    → Replay.Service × Option Replay.ReplayClaimResult
    → Replay.Service × Option (Outcome String)
answered p a (service, none) = (service, none)
answered p a (service, some result) = (service, some (answer_claim p a result))

abbrev pub claimed :
    Platform
    → Replay.Env
    → String
    → ℕ
    → Replay.Service
    → Outcome RouteAssertion
    → Replay.Service × Option (Outcome String)
claimed p replay_env id now service (err failure) = (service, some (err failure))
claimed p replay_env id now service (ok a) =
    answered p a (Replay.claim_route_assertion_replay replay_env (claimed_of a) id now service)

-- The handler up to its answer, or to its first wait for the store, for which there is no answer yet: when
-- the claim comes to its result (RouteAssertions/Replay), `answer_claim` of it is the answer.
unfoldable pub handle_route_assert_verify :
    Platform
    → AssertEnv
    → Replay.Env
    → String
    → ℕ
    → Option Json
    → Replay.Service
    → Replay.Service × Option (Outcome String)
unfolding check_request answer_claim
handle_route_assert_verify p env replay_env id now request service =
    claimed p replay_env id now service (check_request p env now request)
