-- ===== src/RouteAssertions/Issue.antt =====
-- workers/secrets-worker/src/routeAssertion.ts: the issue of a signed route assertion. `now` is in whole
-- seconds, the body of the request is its JSON, or `none` where it cannot be parsed.
pub mod Bearer
pub mod Bounds
mod Tests
use Prim.Native.Char.{code}
use Prim.Native.String.{◌++◌ as ◌+++◌}
use blackcat_darkmesh_gatewa.Auth.{add, includes}
use blackcat_darkmesh_gatewa.DnsTxt.{is_arweave_id}
use blackcat_darkmesh_gatewa.Text.{
  trim, to_lower, split, is_digit, is_space, all_chars, strip_prefix_ignore_case, chars,
  parse_positive,
}
use blackcat_darkmesh_gatewa.Json.{
  Json, null, undefined, bool, num, text, obj, Fields, end, field, Number, whole, negative,
  not_finite,
}
use blackcat_darkmesh_gatewa.Json.Stable.{stable_stringify}
use blackcat_darkmesh_gatewa.RouteAssertions.Outcome.{
  Failure, refused, type_error, Outcome, ok, err, ◌>>=◌, ◌>>◌, require, body_field, clean_env,
  or_setting, AssertEnv, Platform,
}
use blackcat_darkmesh_gatewa.RouteAssertions.Domains.{normalize_domain_like, check_domain_like}
use blackcat_darkmesh_gatewa.RouteAssertions.Inputs.{
  is_hex_text, is_nonce, optional_value, parse_challenge_exp, read_required_string, rejected,
  require_route_assert_token, resolve_allowed_hb_hosts, route_assert_ttl,
}
use blackcat_darkmesh_gatewa.Base.{
  ℕ, zero, suc, ◌+◌, ◌-◌, ◌*◌, ◌/◌, ◌%◌, ◌^◌, ◌≤◌, ◌<◌, min, max, ◌≡◌, refl, sym, ap, ◌∙◌, subst,
  ◌≢◌, ◌↔◌, ◌⊎◌, inl, inr, String, Bool, true, false, ◌&&◌, ◌||◌, not, Option, none, some, List, [],
  ◌∷◌, ◌++◌, map, ◌===◌, eq_iff, eq_refl, arith, ltb, leb, ◌==◌, if◌then◌else◌, is_some, or_else,
  option_map, Bool-cases, Option-cases, length, length-append, All, All-append, Any, leb→le, le→leb,
  ltb→lt, lt→ltb,
}

pub record RouteAssertion : Type 0 where
  pub v : String
  pub iat : Number
  pub exp : Number
  pub challenge_nonce : String
  pub challenge_exp : Number
  pub domain : String
  pub cfg_tx : String
  pub hb_host : String
  pub site_process : Option String
  pub write_process : Option String
  pub entry_path : Option String

-- What the handler answers; `sigAlg` is always "ed25519".
pub record IssuedAssertion : Type 0 where
  pub assertion : RouteAssertion
  pub signature : String
  pub signature_ref : String

abbrev pub read_body : Option Json → Outcome Json
read_body none = err (rejected 400 "invalid_json")
read_body (some body) = ok body

abbrev pub optional_field : String → Option String → Fields → Fields
optional_field key none fields = fields
optional_field key (some value) fields = field key (text value) fields

unfoldable pub assertion_fields : RouteAssertion → Fields
assertion_fields a = field "v" (text a.v) (
    field "iat" (num a.iat) (
      field "exp" (num a.exp) (
        field "challengeNonce" (text a.challenge_nonce) (
          field "challengeExp" (num a.challenge_exp) (
            field "domain" (text a.domain) (
              field "cfgTx" (text a.cfg_tx) (
                field "hbHost" (text a.hb_host) (
                  optional_field "siteProcess" a.site_process (
                    optional_field "writeProcess" a.write_process
                      (optional_field "entryPath" a.entry_path end))))))))))

-- The assertion as the value that is signed and sent.
unfoldable pub assertion_json : RouteAssertion → Json
unfolding assertion_fields
assertion_json a = obj (assertion_fields a)

-- `c.json(…)`
unfoldable pub response_json : IssuedAssertion → Json
unfolding assertion_json
response_json i = obj (
    field "ok" (bool true) (
      field "assertion" (assertion_json i.assertion) (
        field "signature" (text i.signature)
          (field "sigAlg" (text "ed25519") (field "signatureRef" (text i.signature_ref) end)))))

unfoldable pub signing_key : AssertEnv → Outcome String
unfolding clean_env is_hex_text
signing_key env =
    let key = clean_env (or_setting env.route_assert_signing_key_hex env.worker_ed25519_priv_hex) in
    if key === ""
    then err
        (refused (some "worker_route_assert_fail_total") 500 "missing_route_assert_signing_key")
    else if is_hex_text 64 key
    then ok key
    else err (refused none 500 "invalid_route_assert_signing_key")

abbrev pub or_text : String → String → String
or_text value fallback = if value === "" then fallback else value

unfoldable pub new_assertion :
    AssertEnv → ℕ → String → String → String → String → ℕ → RouteAssertion
unfolding optional_value
new_assertion env now domain cfg_tx hb_host nonce challenge_exp = record {
  v = "dm-route-assert/1";
  iat = whole now;
  exp = whole (min challenge_exp (now + route_assert_ttl env));
  challenge_nonce = nonce;
  challenge_exp = whole challenge_exp;
  domain = domain;
  cfg_tx = cfg_tx;
  hb_host = hb_host;
  site_process = optional_value (or_setting env.route_assert_site_process env.ao_site_process_id);
  write_process = optional_value (or_setting env.route_assert_write_process env.write_process_id);
  entry_path = some (or_else (optional_value env.route_assert_entry_path) "/");
}

unfoldable pub signature_ref_of : AssertEnv → String
unfolding clean_env
signature_ref_of env =
    or_text (clean_env (or_setting env.route_assert_signature_ref env.worker_signature_ref))
      "worker-ed25519"

-- The part after the checks of the request: the assertion, signed.
unfoldable pub issue : Platform → AssertEnv → RouteAssertion → Outcome IssuedAssertion
unfolding signing_key signature_ref_of assertion_json stable_stringify
issue p env assertion = do
  key ← signing_key env
  ok (record {
    assertion = assertion;
    signature = p.sign key (stable_stringify (assertion_json assertion));
    signature_ref = signature_ref_of env;
  })

unfoldable pub handle_route_assert :
    Platform → AssertEnv → ℕ → Option String → Option Json → Outcome IssuedAssertion
unfolding require_route_assert_token body_field read_required_string normalize_domain_like
    is_arweave_id resolve_allowed_hb_hosts is_nonce parse_challenge_exp route_assert_ttl
    new_assertion issue
handle_route_assert p env now header request = do
  require_route_assert_token env header
  body ← read_body request
  domain_value ← body_field "domain" body
  domain_text ← read_required_string domain_value "domain"
  domain ← normalize_domain_like p domain_text "domain"
  cfg_value ← body_field "cfgTx" body
  cfg_tx ← read_required_string cfg_value "cfgTx"
  require (is_arweave_id cfg_tx) (rejected 400 "invalid_cfgTx")
  host_value ← body_field "hbHost" body
  host_text ← read_required_string host_value "hbHost"
  hb_host ← normalize_domain_like p host_text "hbHost"
  require (includes hb_host (resolve_allowed_hb_hosts p env))
      (rejected 403 "hb_host_not_allowlisted")
  nonce_value ← body_field "challengeNonce" body
  nonce ← read_required_string nonce_value "challengeNonce"
  require (is_nonce nonce) (rejected 400 "invalid_challengeNonce")
  exp_value ← body_field "challengeExp" body
  challenge_exp ← parse_challenge_exp exp_value
  require (ltb now challenge_exp) (rejected 400 "challenge_expired")
  require (ltb now (min challenge_exp (now + route_assert_ttl env)))
      (rejected 400 "invalid_assertion_ttl")
  issue p env (new_assertion env now domain cfg_tx hb_host nonce challenge_exp)
