-- ===== src/RouteAssertions/Journey/RoundTrip.antt =====
-- What the issuer signs, the verifier of the same worker accepts.
use blackcat_darkmesh_gatewa.Text.{trim, chars}
use blackcat_darkmesh_gatewa.Json.{Json, undefined, whole, Number}
use blackcat_darkmesh_gatewa.Json.Stable.{stable_stringify}
use blackcat_darkmesh_gatewa.RouteAssertions.Outcome.{
  ok, clean_env, or_setting, AssertEnv, Platform,
}
use blackcat_darkmesh_gatewa.RouteAssertions.Domains.Fixed.{
  HostIsStable, normalize_domain_like-IsHost, normalize_verify_domain-normalize_domain_like,
}
use blackcat_darkmesh_gatewa.RouteAssertions.Issue.{
  RouteAssertion, IssuedAssertion, new_assertion, assertion_json, response_json,
  handle_route_assert,
}
use blackcat_darkmesh_gatewa.RouteAssertions.Inputs.{is_hex_text, optional_value, route_assert_ttl}
use blackcat_darkmesh_gatewa.RouteAssertions.Issue.Bounds.{
  Checked, handle_route_assert-Checked, issue-Signed, Lives, new_assertion-Lives,
}
use blackcat_darkmesh_gatewa.RouteAssertions.Verify.{at_most, check_request}
use blackcat_darkmesh_gatewa.RouteAssertions.Journey.Parsing.{IsClean, IsSendable}
use blackcat_darkmesh_gatewa.RouteAssertions.Journey.Fields.{
  is_arweave_id-IsClean, is_nonce-IsClean, IsHost-IsClean, optional_value-IsFilled,
  or_root-IsFilled, signing_key-IsKey,
}
use blackcat_darkmesh_gatewa.RouteAssertions.Journey.Steps.{
  verify_window_open, resolve_verify_public_key_own, check_given-response_json,
  response_json-NotGiven, check_request-some,
}
use blackcat_darkmesh_gatewa.Base.{
  ℕ, ◌+◌, ◌≤◌, ◌<◌, min, ◌≡◌, refl, sym, ap, ◌∙◌, subst, String, true, false, Option, some, ◌===◌,
  arith, leb,
}

-- Ed25519: a signature is 64 bytes, and the public key of the key that signed verifies it.
abbrev pub SignsRight : Platform → Type 0
SignsRight p =
    (key payload : String)
    → is_hex_text 64 key ≡ true
    → (is_hex_text 128 (p.sign key payload) ≡ true)
      × (p.verify (p.sign key payload) payload (p.public_key key) ≡ true)

version-IsClean : IsClean "dm-route-assert/1"
unfolding trim
version-IsClean = record { trimmed = refl; filled = refl }

new_assertion-IsSendable :
    (p : Platform) (env : AssertEnv) (now : ℕ) (header : Option String) (i : IssuedAssertion)
    → HostIsStable p
    → (c : Checked p env now header i) → chars c.domain ≤ 253
    → chars c.hb_host ≤ 253
    → IsSendable p (new_assertion env now c.domain c.cfg_tx c.hb_host c.nonce c.challenge_exp)
unfolding new_assertion
new_assertion-IsSendable p env now header i stable c short_domain short_host = record {
  v_clean = version-IsClean;
  nonce_clean = is_nonce-IsClean c.nonce c.nonce_checked;
  cfg_clean = is_arweave_id-IsClean c.cfg_tx c.cfg_checked;
  domain_clean =
      IsHost-IsClean p c.domain
        (normalize_domain_like-IsHost p stable c.domain_text "domain" c.domain c.domain_checked);
  host_clean =
      IsHost-IsClean p c.hb_host
        (normalize_domain_like-IsHost p stable c.host_text "hbHost" c.hb_host c.host_checked);
  domain_kept =
      normalize_verify_domain-normalize_domain_like p stable c.domain_text "domain" c.domain
        c.domain_checked short_domain;
  host_kept =
      normalize_verify_domain-normalize_domain_like p stable c.host_text "hbHost" c.hb_host
        c.host_checked short_host;
  issued = now;
  until = min c.challenge_exp (now + route_assert_ttl env);
  challenge = c.challenge_exp;
  iat_whole = refl;
  exp_whole = refl;
  challenge_whole = refl;
  site_filled =
      optional_value-IsFilled (or_setting env.route_assert_site_process env.ao_site_process_id);
  write_filled =
      optional_value-IsFilled (or_setting env.route_assert_write_process env.write_process_id);
  entry_filled =
      or_root-IsFilled (optional_value env.route_assert_entry_path)
        (optional_value-IsFilled env.route_assert_entry_path);
}

module _ (env : AssertEnv) (now : ℕ) (domain cfg_tx hb_host nonce : String)
    (challenge_exp : ℕ) where
  -- Three fields of a new assertion.
  new_assertion_fields :
      ((new_assertion env now domain cfg_tx hb_host nonce challenge_exp).domain ≡ domain)
      × ((new_assertion env now domain cfg_tx hb_host nonce challenge_exp).hb_host ≡ hb_host)
      × (((new_assertion env now domain cfg_tx hb_host nonce challenge_exp).v
            === "dm-route-assert/1")
          ≡ true)
  unfolding new_assertion
  new_assertion_fields = (refl, refl, refl)

unexpired : (x : Number) (n later : ℕ) → x ≡ whole n → at_most x (whole later) ≡ false → later < n
unexpired x n later e h =
    let h' : leb n later ≡ false = ap (λ y. at_most y (whole later)) (sym e) ∙ h in ground arith

-- What the worker issues, it verifies: the response of a successful issue, sent back as it is while the
-- assertion has not expired, passes every check before the claim of its nonce and yields the same
-- assertion. The conditions: the worker has no separate public key configured, host names are at
-- most 253 characters long, the URL parser keeps the hosts of http URLs, and the signatures
-- are right.
pub check_request-handle_route_assert :
    (p : Platform) (env : AssertEnv) (now : ℕ) (header : Option String) (request : Option Json)
    (i : IssuedAssertion) (later : ℕ)
    → HostIsStable p
    → SignsRight p
    → clean_env env.route_assert_verify_pub_hex ≡ ""
    → handle_route_assert p env now header request ≡ ok i
    → chars i.assertion.domain ≤ 253
    → chars i.assertion.hb_host ≤ 253
    → now ≤ later
    → at_most i.assertion.exp (whole later) ≡ false
    → check_request p env later (some (response_json i)) ≡ ok i.assertion
check_request-handle_route_assert p env now header request i later stable right unset h short_domain
      short_host after open_still =
    let c = handle_route_assert-Checked p env now header request i h in
    let a = new_assertion env now c.domain c.cfg_tx c.hb_host c.nonce c.challenge_exp in
    let s = issue-Signed p env a i c.signed in
    let k = signing_key-IsKey env s.key s.keyed in
    let lives : Lives now i.assertion =
      subst (Lives now) (sym s.asserted) (
        new_assertion-Lives env now c.domain c.cfg_tx c.hb_host c.nonce c.challenge_exp c.living) in
    let signs = right s.key (stable_stringify (assertion_json a)) k.hex in
    let (named, hosted, versioned) =
      new_assertion_fields env now c.domain c.cfg_tx c.hb_host c.nonce c.challenge_exp in
    let domain : i.assertion.domain ≡ c.domain =
      ap (λ (x : RouteAssertion). x.domain) s.asserted ∙ named in
    let hb_host : i.assertion.hb_host ≡ c.hb_host =
      ap (λ (x : RouteAssertion). x.hb_host) s.asserted ∙ hosted in
    let v : (i.assertion.v === "dm-route-assert/1") ≡ true =
      ap (λ (x : RouteAssertion). x.v === "dm-route-assert/1") s.asserted ∙ versioned in
    let sendable =
      new_assertion-IsSendable p env now header i stable c
        (subst (λ t. chars t ≤ 253) domain short_domain)
        (subst (λ t. chars t ≤ 253) hb_host short_host) in
    check_request-some p env later (response_json i)
    ∙ check_given-response_json p env later i (p.public_key s.key) undefined undefined
        (response_json-NotGiven p i) (subst (IsSendable p) (sym s.asserted) sendable)
        (verify_window_open i.assertion env now later v lives after
          (unexpired i.assertion.exp lives.until later lives.expires open_still))
        s.referred (ap (is_hex_text 128) s.signature ∙ signs.0)
        (resolve_verify_public_key_own p env s.key k unset)
        (ap (λ t. p.verify t (stable_stringify (assertion_json i.assertion)) (p.public_key s.key))
            s.signature
          ∙ (ap
                (λ (x : RouteAssertion).
                  p.verify (p.sign s.key (stable_stringify (assertion_json a)))
                    (stable_stringify (assertion_json x)) (p.public_key s.key))
                s.asserted
              ∙ signs.1))
