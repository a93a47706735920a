-- ===== src/RouteAssertions/Journey/Tests.antt =====
-- A journey by example: an assertion is issued at 1000 and verified at 1100.
use blackcat_darkmesh_gatewa.Text.{chars}
use blackcat_darkmesh_gatewa.Json.{whole}
use blackcat_darkmesh_gatewa.RouteAssertions.Outcome.{ok, clean_env}
use blackcat_darkmesh_gatewa.RouteAssertions.Issue.{
  RouteAssertion, IssuedAssertion, response_json, handle_route_assert,
}
use blackcat_darkmesh_gatewa.RouteAssertions.Inputs.{is_hex_text}
use blackcat_darkmesh_gatewa.RouteAssertions.Verify.{check_request}
use blackcat_darkmesh_gatewa.RouteAssertions.Journey.RoundTrip.{
  SignsRight, check_request-handle_route_assert,
}
use blackcat_darkmesh_gatewa.RouteAssertions.Samples.{
  shop, gateway, some_signature, sample_platform, sample_platform-HostIsStable, sample_env,
  sample_request, sample_header,
}
use blackcat_darkmesh_gatewa.Base.{◌≡◌, refl, none, some, arith}

abbrev assertion : RouteAssertion
assertion = record {
  v = "dm-route-assert/1";
  iat = whole 1000;
  exp = whole 1300;
  challenge_nonce = "nonce-0001";
  challenge_exp = whole 5000;
  domain = shop;
  cfg_tx = "abcdefghijklmnopqrstuvwxyz-_ABCDEF";
  hb_host = gateway;
  site_process = some "site";
  write_process = none;
  entry_path = some "/";
}

abbrev issued : IssuedAssertion
issued = record {
  assertion = assertion;
  signature = some_signature;
  signature_ref = "worker-ed25519";
}

issued_at :
    handle_route_assert sample_platform sample_env 1000 sample_header (some sample_request)
    ≡ ok issued
unfolding handle_route_assert
issued_at = refl

verified_at :
    check_request sample_platform sample_env 1100 (some (response_json issued)) ≡ ok assertion
unfolding check_request response_json
verified_at = refl

sample_platform-SignsRight : SignsRight sample_platform
unfolding is_hex_text
sample_platform-SignsRight key payload h = (refl, refl)

check_request-handle_route_assert_example :
    check_request sample_platform sample_env 1100 (some (response_json issued)) ≡ ok assertion
unfolding chars clean_env
check_request-handle_route_assert_example =
    check_request-handle_route_assert sample_platform sample_env 1000 sample_header
      (some sample_request) issued 1100 sample_platform-HostIsStable sample_platform-SignsRight refl
      issued_at (omega arith) (omega arith) (omega arith) refl
