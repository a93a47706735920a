-- ===== src/RouteAssertions/Verify/Sound.antt =====
-- What a verified assertion is known to be.
use blackcat_darkmesh_gatewa.Text.{trim}
use blackcat_darkmesh_gatewa.JsMap.{IsUnique}
use blackcat_darkmesh_gatewa.Json.{
  Json, null, undefined, bool, num, text, arr, obj, non_plain, Number, whole, negative, not_finite,
}
use blackcat_darkmesh_gatewa.RouteAssertions.Inputs.{is_hex_text}
use blackcat_darkmesh_gatewa.RouteAssertions.Replay.Guard.{IsGuarded, claim-IsGuarded}
use blackcat_darkmesh_gatewa.Json.Stable.{stable_stringify}
use blackcat_darkmesh_gatewa.RouteAssertions.Outcome.{
  Failure, Outcome, ok, err, bind_then, require_then, ok_inj, body_field, AssertEnv, Platform,
}
use blackcat_darkmesh_gatewa.RouteAssertions.Issue.{RouteAssertion, assertion_json}
use blackcat_darkmesh_gatewa.RouteAssertions.Verify.{
  at_most, allowed_skew, verify_window, window_error, check_expected, read_hex,
  resolve_verify_public_key, is_complete, is_ed25519, is_known_ref, check_body, check_request,
  answer_claim, claimed_of, answered, claimed, handle_route_assert_verify,
}
use blackcat_darkmesh_gatewa.RouteAssertions.VerifyInput.{failed, text_or_empty, parse_verify_input}
use blackcat_darkmesh_gatewa.RouteAssertions.Replay
use blackcat_darkmesh_gatewa.Base.{
  ℕ, ◌+◌, ◌≤◌, ◌<◌, ◌≡◌, refl, sym, ap, ◌∙◌, subst, ◌⊎◌, inl, inr, String, Bool, true, false, not,
  Option, none, some, ◌===◌, eq_iff, arith, leb, if◌then◌else◌, Bool-cases, leb→le,
}

-- A number at or before a natural one, and one before it.
abbrev pub IsBy : Number → ℕ → Type 0
IsBy (whole m) n = m ≤ n
IsBy (negative m) n = Unit {0}
IsBy not_finite n = ⊥

abbrev pub IsEarlier : Number → ℕ → Type 0
IsEarlier (whole m) n = m < n
IsEarlier (negative m) n = Unit {0}
IsEarlier not_finite n = ⊥

-- The version is the one of the protocol, and the times are in order: issued before the end and at most
-- the skew ahead of now, now before the end, and the end not after that of the challenge.
pub record InForce (env : AssertEnv) (now : ℕ) (a : RouteAssertion) : Type 0 where
  pub versioned : a.v ≡ "dm-route-assert/1"
  pub until : ℕ
  pub challenge : ℕ
  pub expires : a.exp ≡ whole until
  pub challenge_ends : a.challenge_exp ≡ whole challenge
  pub lasting : IsEarlier a.iat until
  pub challenged : until ≤ challenge
  pub unexpired : now < until
  pub started : IsBy a.iat (now + allowed_skew env)

end_of :
    (exp challenge : Number) (now : ℕ)
    → at_most exp challenge ≡ true
    → at_most exp (whole now) ≡ false
    → (until : ℕ) × (last : ℕ) × (exp ≡ whole until)
      × (challenge ≡ whole last)
      × (until ≤ last)
      × (now < until)
end_of (whole e) (whole c) now h k = (e, c, refl, refl, leb→le e c h, ground arith)
end_of (whole e) (negative c) now h k = cc
end_of (whole e) not_finite now h k = cc
end_of (negative e) challenge now h k = cc
end_of not_finite challenge now h k = cc

by : (iat : Number) (n : ℕ) → at_most iat (whole n) ≡ true → IsBy iat n
by (whole i) n h = leb→le i n h
by (negative i) n h = tt
by not_finite n h = cc

earlier :
    (exp iat : Number) (until n : ℕ)
    → exp ≡ whole until
    → IsBy iat n
    → at_most exp iat ≡ false
    → IsEarlier iat until
earlier exp (whole i) until n e started h =
    let later : leb until i ≡ false = sym (ap (λ x. at_most x (whole i)) e) ∙ h in ground arith
earlier exp (negative i) until n e started h = tt
earlier exp not_finite until n e started h = started

five_tests :
    {A : Type 0} (b c d e f : Bool) (u v w x y : A)
    → (if not b
        then some u
        else if c
        then some v
        else if not d
        then some w
        else if e
        then some x
        else if not f
        then some y
        else none)
      ≡ none
    → (b ≡ true) × (c ≡ false) × (d ≡ true) × (e ≡ false) × (f ≡ true)
five_tests false c d e f u v w x y h = cc
five_tests true true d e f u v w x y h = cc
five_tests true false false e f u v w x y h = cc
five_tests true false true true f u v w x y h = cc
five_tests true false true false false u v w x y h = cc
five_tests true false true false true u v w x y h = (refl, refl, refl, refl, refl)

pub verify_window-InForce :
    (a : RouteAssertion) (env : AssertEnv) (now : ℕ)
    → verify_window a env now ≡ none
    → InForce env now a
unfolding verify_window
verify_window-InForce a env now h =
    let (b, c, d, e, f) =
      five_tests (a.v === "dm-route-assert/1") (at_most a.exp a.iat) (at_most a.exp a.challenge_exp)
        (at_most a.exp (whole now)) (at_most a.iat (whole (now + allowed_skew env))) "bad_shape"
        "bad_shape" "bad_shape" "expired_assertion" "assertion_not_yet_valid" h in
    let (until, last, expires, challenge_ends, challenged, unexpired) =
      end_of a.exp a.challenge_exp now d e in
    let started = by a.iat (now + allowed_skew env) f in
    record {
      versioned = (eq_iff a.v "dm-route-assert/1").0 b;
      until = until;
      challenge = last;
      expires = expires;
      challenge_ends = challenge_ends;
      lasting = earlier a.exp a.iat until (now + allowed_skew env) expires started c;
      challenged = challenged;
      unexpired = unexpired;
      started = started;
    }

window_error-none : (o : Option String) (u : Unit {0}) → window_error o ≡ ok u → o ≡ none
window_error-none none u h = refl
window_error-none (some code) u h = cc

-- The assertion of a request that is in force, with the signature of that request, which the key of the
-- environment verifies over the assertion's canonical text.
pub record Genuine (p : Platform) (env : AssertEnv) (now : ℕ) (body : Json) (a : RouteAssertion)
    : Type 0 where
  pub parsed : parse_verify_input p body ≡ ok a
  pub in_force : InForce env now a
  pub key : String
  pub signature : String
  pub given : body_field "signature" body ≡ ok (text signature)
  pub resolved : resolve_verify_public_key p env ≡ ok key
  pub verified : p.verify (trim signature) (stable_stringify (assertion_json a)) key ≡ true

-- What is read as a signature is a text.
signature_text :
    (v : Json) (f : Failure) (s : String)
    → read_hex (text_or_empty v) 64 f ≡ ok s
    → (t : String) × (v ≡ text t) × (trim t ≡ s)
unfolding read_hex text_or_empty is_hex_text
signature_text (text t) f s h = elim (Bool-cases (is_hex_text 128 (trim t))) [
  | inl e ↦ (t, refl, ok_inj (trim t) s (sym (rw e refl) ∙ h))
  | inr e ↦ absurd (refusal f s (sym (rw e refl) ∙ h))
]
  where
    refusal : (f : Failure) (s : String) → ◌≡◌ {A = Outcome String} (err f) (ok s) → ⊥
    refusal f s e = cc
signature_text null f s h = cc
signature_text undefined f s h = cc
signature_text (bool b) f s h = cc
signature_text (num n) f s h = cc
signature_text (arr items) f s h = cc
signature_text (obj fields) f s h = cc
signature_text (non_plain fields) f s h = cc

module _ (p : Platform) (env : AssertEnv) (now : ℕ) (a : RouteAssertion) where
  check_body-Genuine : (body : Json) → check_body p env now body ≡ ok a → Genuine p env now body a
  unfolding check_body
  check_body-Genuine body h =
      bind_then (body_field "signature" body) _ a h λ signature_value given h.
        bind_then (body_field "sigAlg" body) _ a h λ sig_alg_value _ h.
          bind_then (body_field "signatureRef" body) _ a h λ ref_value _ h.
            require_then (is_complete signature_value sig_alg_value ref_value)
              (failed 400 "bad_shape") _ a h
              λ _ h.
                require_then (is_ed25519 sig_alg_value) (failed 400 "unsupported_sigalg") _ a h
                  λ _ h.
                    require_then (is_known_ref env ref_value) (failed 409 "signature_ref_mismatch")
                      _ a h
                      λ _ h. bind_then (parse_verify_input p body) _ a h λ assertion parsed h.
                        bind_then (window_error (verify_window assertion env now)) _ a h
                          λ u window h.
                            bind_then (body_field "expectedDomain" body) _ a h
                              λ expected_domain _ h.
                                bind_then
                                  (check_expected p expected_domain assertion.domain
                                    "domain_mismatch")
                                  _ a h
                                  λ _ _ h.
                                    bind_then (body_field "expectedHbHost" body) _ a h
                                      λ expected_host _ h.
                                        bind_then
                                          (check_expected p expected_host assertion.hb_host
                                            "hbhost_mismatch")
                                          _ a h
                                          λ _ _ h.
                                            bind_then (resolve_verify_public_key p env) _ a h
                                              λ key resolved h.
                                                bind_then
                                                  (read_hex (text_or_empty signature_value) 64
                                                    (failed 401 "invalid_sig"))
                                                  _ a h
                                                  λ signature read h.
                                                    require_then
                                                      (p.verify signature
                                                        (stable_stringify
                                                          (assertion_json assertion))
                                                        key)
                                                      (failed 401 "invalid_sig") _ a h
                                                      λ verified h.
                                                        let same : assertion ≡ a =
                                                          ok_inj assertion a h in
                                                        let (t, is_text, trimmed) =
                                                          signature_text signature_value
                                                            (failed 401 "invalid_sig") signature
                                                            read in
                                                        subst (Genuine p env now body) same
                                                          (record {
                                                            parsed = parsed;
                                                            in_force =
                                                            verify_window-InForce assertion env now
                                                            (window_error-none
                                                            (verify_window assertion env now) u
                                                            window);
                                                            key = key;
                                                            signature = t;
                                                            given =
                                                            given ∙ ap (λ (x : Json). ok x) is_text;
                                                            resolved = resolved;
                                                            verified = rw trimmed verified;
                                                          })

  check_request-Genuine :
      (request : Option Json)
      → check_request p env now request ≡ ok a
      → (body : Json) × (request ≡ some body) × Genuine p env now body a
  unfolding check_request
  check_request-Genuine none h = cc
  check_request-Genuine (some body) h = (body, refl, check_body-Genuine body h)

answer_claim-ok :
    (p : Platform) (a : RouteAssertion) (r : Replay.ReplayClaimResult) (hash : String)
    → answer_claim p a r ≡ ok hash
    → (r ≡ Replay.fresh) × (hash ≡ p.digest (stable_stringify (assertion_json a)))
unfolding answer_claim
answer_claim-ok p a Replay.fresh hash h = (refl, ground arith)
answer_claim-ok p a Replay.replayed hash h = cc
answer_claim-ok p a (Replay.refused code) hash h = cc

answered-ok :
    (p : Platform) (a : RouteAssertion) (r : Replay.Service × Option Replay.ReplayClaimResult)
    (after : Replay.Service) (hash : String)
    → answered p a r ≡ (after, some (ok hash))
    → (r ≡ (after, some Replay.fresh)) × (hash ≡ p.digest (stable_stringify (assertion_json a)))
answered-ok p a (service, none) after hash h = cc
answered-ok p a (service, some result) after hash h =
    let (fresh, hashed) = answer_claim-ok p a result hash (ground arith) in
    let same : service ≡ after = ground arith in (rw (same, fresh) refl, hashed)

-- Every answer that an assertion is verified, given before any wait for the KV store and on a memory with
-- distinct keys, is about the assertion of the request: it is in force, and the request's signature
-- is one of its canonical text by the key of the environment. The hash that is returned is that of
-- the signed text. If the replay guard is on, the nonce was free in the memory of the process and is
-- held from then on; if it is off, nothing is claimed.
pub handle_route_assert_verify-Genuine :
    (p : Platform) (env : AssertEnv) (replay_env : Replay.Env) (id : String) (now : ℕ)
    (request : Option Json) (service after : Replay.Service) (hash : String)
    → IsUnique service.memory_replay
    → handle_route_assert_verify p env replay_env id now request service ≡ (after, some (ok hash))
    → (body : Json) × (a : RouteAssertion) × (request ≡ some body)
      × Genuine p env now body a
      × IsGuarded replay_env (Replay.replay_key (claimed_of a)) now service after
      × (hash ≡ p.digest (stable_stringify (assertion_json a)))
unfolding handle_route_assert_verify
handle_route_assert_verify-Genuine p env replay_env id now request service after hash unique h =
    elim (Outcome-cases (check_request p env now request)) [
      | inl (a, e) ↦
          let (fresh, hashed) =
            answered-ok p a
              (Replay.claim_route_assertion_replay replay_env (claimed_of a) id now service) after
              hash (ap (claimed p replay_env id now service) (sym e) ∙ h) in
          let (body, given, genuine) = check_request-Genuine p env now a request e in
          (
            body,
            a,
            given,
            genuine,
            claim-IsGuarded replay_env (claimed_of a) id now service after unique fresh,
            hashed,
          )
      | inr (f, e) ↦ absurd (refusal f (ap (claimed p replay_env id now service) (sym e) ∙ h))
    ]
  where
    Outcome-cases :
        (o : Outcome RouteAssertion)
        → ((a : RouteAssertion) × (o ≡ ok a)) ⊎ ((f : Failure) × (o ≡ err f))
    Outcome-cases (ok a) = inl (a, refl)
    Outcome-cases (err f) = inr (f, refl)

    refusal :
        (f : Failure)
        → ◌≡◌ {A = Replay.Service × Option (Outcome String)}
            (service, some (err f))
            (after, some (ok hash))
        → ⊥
    refusal f e = cc
