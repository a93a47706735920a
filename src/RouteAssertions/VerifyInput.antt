-- ===== src/RouteAssertions/VerifyInput.antt =====
-- workers/secrets-worker/src/routeAssertionVerify.ts: the body of a request read as an assertion.
use blackcat_darkmesh_gatewa.Text.{trim}
use blackcat_darkmesh_gatewa.Json.{Json, num, text, obj, non_plain, Fields, Number, whole, negative}
use blackcat_darkmesh_gatewa.RouteAssertions.Outcome.{
  Failure, refused, Outcome, ok, err, ◌>>=◌, field_of, body_field, Platform,
}
use blackcat_darkmesh_gatewa.RouteAssertions.Domains.{normalize_verify_domain}
use blackcat_darkmesh_gatewa.RouteAssertions.Issue.{RouteAssertion}
use blackcat_darkmesh_gatewa.Base.{ℕ, String, Option, none, some, ◌===◌, if◌then◌else◌}

-- `fail(c, status, code)`
abbrev pub failed : ℕ → String → Failure
failed status code = refused (some "worker_route_assert_verify_fail_total") status code

-- `typeof value === 'string' ? value.trim() : ''`
unfoldable pub text_or_empty : Json → String
unfolding trim
text_or_empty (text value) = trim value
text_or_empty other = ""

unfoldable pub require_string : String → Fields → Outcome String
unfolding field_of text_or_empty
require_string key fields =
    let value = text_or_empty (field_of key fields) in
    if value === "" then err (failed 400 "bad_shape") else ok value

abbrev pub finite_number : Json → Outcome Number
finite_number (num (whole n)) = ok (whole n)
finite_number (num (negative n)) = ok (negative n)
finite_number other = err (failed 400 "bad_shape")

unfoldable pub require_number : String → Fields → Outcome Number
unfolding field_of
require_number key fields = finite_number (field_of key fields)

abbrev pub filled_text : Json → Option String
filled_text (text value) = if value === "" then none else some value
filled_text other = none

abbrev pub object_fields : Json → Outcome Fields
object_fields (obj fields) = ok fields
object_fields (non_plain fields) = ok fields
object_fields other = err (failed 400 "bad_shape")

unfoldable pub parse_fields : Platform → Fields → Outcome RouteAssertion
unfolding require_string require_number normalize_verify_domain field_of
parse_fields p fields = do
  v ← require_string "v" fields
  iat ← require_number "iat" fields
  exp ← require_number "exp" fields
  challenge_nonce ← require_string "challengeNonce" fields
  challenge_exp ← require_number "challengeExp" fields
  domain_text ← require_string "domain" fields
  domain ← normalize_verify_domain p domain_text "domain"
  cfg_tx ← require_string "cfgTx" fields
  host_text ← require_string "hbHost" fields
  hb_host ← normalize_verify_domain p host_text "hbHost"
  ok (record {
    v = v;
    iat = iat;
    exp = exp;
    challenge_nonce = challenge_nonce;
    challenge_exp = challenge_exp;
    domain = domain;
    cfg_tx = cfg_tx;
    hb_host = hb_host;
    site_process = filled_text (field_of "siteProcess" fields);
    write_process = filled_text (field_of "writeProcess" fields);
    entry_path = filled_text (field_of "entryPath" fields);
  })

unfoldable pub parse_verify_input : Platform → Json → Outcome RouteAssertion
unfolding body_field parse_fields
parse_verify_input p body = do
  assertion ← body_field "assertion" body
  fields ← object_fields assertion
  parse_fields p fields
