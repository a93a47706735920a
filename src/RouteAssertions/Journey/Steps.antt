-- ===== src/RouteAssertions/Journey/Steps.antt =====
-- The steps of the verifier on an assertion that the worker issued.
use blackcat_darkmesh_gatewa.Json.{Json, undefined, text}
use blackcat_darkmesh_gatewa.Json.Stable.{stable_stringify}
use blackcat_darkmesh_gatewa.RouteAssertions.Outcome.{
  Failure, Outcome, ok, bind_ok, require_ok, body_field, clean_env, or_setting, AssertEnv, Platform,
}
use blackcat_darkmesh_gatewa.RouteAssertions.Issue.{
  RouteAssertion, IssuedAssertion, assertion_json, response_json, signature_ref_of, or_text,
}
use blackcat_darkmesh_gatewa.RouteAssertions.Inputs.{is_hex_text}
use blackcat_darkmesh_gatewa.RouteAssertions.Issue.Bounds.{Lives}
use blackcat_darkmesh_gatewa.RouteAssertions.Verify.{
  allowed_skew, verify_window, window_error, check_expected, read_hex, resolve_verify_public_key,
  is_complete, is_ed25519, is_known_ref, is_expected_ref, check_body, check_request,
}
use blackcat_darkmesh_gatewa.RouteAssertions.VerifyInput.{failed, text_or_empty, parse_verify_input}
use blackcat_darkmesh_gatewa.RouteAssertions.Journey.Parsing.{
  IsClean, IsSendable, parse_verify_input-response_json,
}
use blackcat_darkmesh_gatewa.RouteAssertions.Journey.Fields.{
  is_hex_text-IsClean, signature_ref_of-IsClean, IsKey,
}
use blackcat_darkmesh_gatewa.Base.{
  ℕ, ◌+◌, ◌≤◌, ◌<◌, ◌≡◌, refl, ap, ◌∙◌, inl, inr, String, true, not, Option, none, some, ◌===◌,
  eq_refl, arith, leb, if◌then◌else◌, Bool-cases,
}

pub verify_window_open :
    (a : RouteAssertion) (env : AssertEnv) (issued later : ℕ)
    → (a.v === "dm-route-assert/1") ≡ true
    → (l : Lives issued a) → issued ≤ later
    → later < l.until
    → verify_window a env later ≡ none
unfolding verify_window
verify_window_open a env issued later v l after before =
    rw (v, l.issued_now, l.expires, l.challenged)
      (times issued later l.until l.challenge (allowed_skew env) l.later l.within after before)
  where
    times :
        (i t u c s : ℕ)
        → i < u
        → u ≤ c
        → i ≤ t
        → t < u
        → ◌≡◌ {A = Option String}
            (if leb u i
              then some "bad_shape"
              else if not (leb u c)
              then some "bad_shape"
              else if leb u t
              then some "expired_assertion"
              else if not (leb i (t + s))
              then some "assertion_not_yet_valid"
              else none)
            none
    times i t u c s h1 h2 h3 h4 = ground arith

pub resolve_verify_public_key_own :
    (p : Platform) (env : AssertEnv) (key : String)
    → IsKey env key
    → clean_env env.route_assert_verify_pub_hex ≡ ""
    → resolve_verify_public_key p env ≡ ok (p.public_key key)
unfolding resolve_verify_public_key read_hex
resolve_verify_public_key_own p env key k unset = rw (unset, k.found, k.filled, k.hex) refl

read_hex_whole : (s : String) (f : Failure) → is_hex_text 128 s ≡ true → read_hex s 64 f ≡ ok s
unfolding read_hex
read_hex_whole s f h = rw h refl

text_or_empty_clean : (s : String) → IsClean s → text_or_empty (text s) ≡ s
unfolding text_or_empty
text_or_empty_clean s c = c.trimmed

is_complete_clean :
    (s r : String) → IsClean s → IsClean r → is_complete (text s) (text "ed25519") (text r) ≡ true
unfolding is_complete text_or_empty
is_complete_clean s r c d = rw (c.trimmed, d.trimmed, c.filled, d.filled) refl

is_known_ref_own : (env : AssertEnv) → is_known_ref env (text (signature_ref_of env)) ≡ true
unfolding is_known_ref signature_ref_of
is_known_ref_own env =
    rw (text_or_empty_clean (signature_ref_of env) (signature_ref_of-IsClean env))
      (own (clean_env (or_setting env.route_assert_signature_ref env.worker_signature_ref)))
  where
    own : (s : String) → is_expected_ref s (or_text s "worker-ed25519") ≡ true
    own s = elim (Bool-cases (s === "")) [ inl e ↦ rw e refl | inr e ↦ rw (e, eq_refl s) refl ]

check_expected_absent :
    (p : Platform) (actual code : String) → check_expected p undefined actual code ≡ ok tt
unfolding check_expected
check_expected_absent p actual code = refl

module _ (i : IssuedAssertion) where
  -- The fields of the response that the verifier reads.
  body_field-response_json :
      (body_field "signature" (response_json i) ≡ ok (text i.signature))
      × (body_field "sigAlg" (response_json i) ≡ ok (text "ed25519"))
      × (body_field "signatureRef" (response_json i) ≡ ok (text i.signature_ref))
      × (body_field "expectedDomain" (response_json i) ≡ ok undefined)
      × (body_field "expectedHbHost" (response_json i) ≡ ok undefined)
  unfolding body_field response_json
  body_field-response_json = (refl, refl, refl, refl, refl)

is_ed25519_own : is_ed25519 (text "ed25519") ≡ true
unfolding is_ed25519
is_ed25519_own = refl

-- An expected name that the request does not give, as a value of which only that is known.
pub record NotGiven (p : Platform) (i : IssuedAssertion) (domain hb_host : Json) : Type 0 where
  pub no_domain : body_field "expectedDomain" (response_json i) ≡ ok domain
  pub domain_free : check_expected p domain i.assertion.domain "domain_mismatch" ≡ ok tt
  pub no_host : body_field "expectedHbHost" (response_json i) ≡ ok hb_host
  pub host_free : check_expected p hb_host i.assertion.hb_host "hbhost_mismatch" ≡ ok tt

pub check_given-response_json :
    (p : Platform) (env : AssertEnv) (later : ℕ) (i : IssuedAssertion) (key : String)
    (domain hb_host : Json)
    → NotGiven p i domain hb_host
    → IsSendable p i.assertion
    → verify_window i.assertion env later ≡ none
    → i.signature_ref ≡ signature_ref_of env
    → is_hex_text 128 i.signature ≡ true
    → resolve_verify_public_key p env ≡ ok key
    → p.verify i.signature (stable_stringify (assertion_json i.assertion)) key ≡ true
    → check_body p env later (response_json i) ≡ ok i.assertion
unfolding check_body
check_given-response_json p env later i key domain hb_host free sendable window ref hex resolved
      verified =
    let (signature, alg, signature_ref, _, _) = body_field-response_json i in
    let clean_signature = is_hex_text-IsClean 128 i.signature (omega arith) hex in
    let own : is_known_ref env (text i.signature_ref) ≡ true = rw ref (is_known_ref_own env) in
    let clean_ref : IsClean i.signature_ref = rw ref (signature_ref_of-IsClean env) in
    let done : Outcome RouteAssertion = ok i.assertion in
    let body = response_json i in
    let read : read_hex (text_or_empty (text i.signature)) 64 (failed 401 "invalid_sig")
        ≡ ok i.signature =
      ap (λ t. read_hex t 64 (failed 401 "invalid_sig"))
        (text_or_empty_clean i.signature clean_signature)
      ∙ read_hex_whole i.signature (failed 401 "invalid_sig") hex in
    bind_ok (body_field "signature" body) (text i.signature) _ done signature (
      bind_ok (body_field "sigAlg" body) (text "ed25519") _ done alg (
        bind_ok (body_field "signatureRef" body) (text i.signature_ref) _ done signature_ref (
          require_ok (is_complete (text i.signature) (text "ed25519") (text i.signature_ref))
            (failed 400 "bad_shape") _ done
            (is_complete_clean i.signature i.signature_ref clean_signature clean_ref)
            (require_ok (is_ed25519 (text "ed25519")) (failed 400 "unsupported_sigalg") _ done
              is_ed25519_own
              (require_ok (is_known_ref env (text i.signature_ref))
                (failed 409 "signature_ref_mismatch") _ done own
                (bind_ok (parse_verify_input p body) i.assertion _ done
                  (parse_verify_input-response_json p i sendable)
                  (bind_ok (window_error (verify_window i.assertion env later)) tt _ done
                    (ap window_error window)
                    (bind_ok (body_field "expectedDomain" body) domain _ done free.no_domain (
                      bind_ok (check_expected p domain i.assertion.domain "domain_mismatch") tt _
                        done free.domain_free
                        (bind_ok (body_field "expectedHbHost" body) hb_host _ done free.no_host (
                          bind_ok (check_expected p hb_host i.assertion.hb_host "hbhost_mismatch")
                            tt _ done free.host_free
                            (bind_ok (resolve_verify_public_key p env) key _ done resolved (
                              bind_ok
                                (read_hex (text_or_empty (text i.signature)) 64
                                  (failed 401 "invalid_sig"))
                                i.signature _ done read
                                (require_ok
                                  (p.verify i.signature
                                    (stable_stringify (assertion_json i.assertion)) key)
                                  (failed 401 "invalid_sig") _ done verified refl))))))))))))))

pub response_json-NotGiven : (p : Platform) (i : IssuedAssertion) → NotGiven p i undefined undefined
response_json-NotGiven p i =
    let (_, _, _, domain, hb_host) = body_field-response_json i in
    record {
      no_domain = domain;
      domain_free = check_expected_absent p i.assertion.domain "domain_mismatch";
      no_host = hb_host;
      host_free = check_expected_absent p i.assertion.hb_host "hbhost_mismatch";
    }

pub check_request-some :
    (p : Platform) (env : AssertEnv) (later : ℕ) (body : Json)
    → check_request p env later (some body) ≡ check_body p env later body
unfolding check_request
check_request-some p env later body = refl
