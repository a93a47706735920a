-- ===== src/RouteAssertions/Issue/Tests.antt =====
-- Issue by example, and its refusals.
use blackcat_darkmesh_gatewa.Json.{null, whole}
use blackcat_darkmesh_gatewa.RouteAssertions.Outcome.{ok, err, refused, type_error}
use blackcat_darkmesh_gatewa.RouteAssertions.Issue.{
  IssuedAssertion, handle_route_assert, RouteAssertion,
}
use blackcat_darkmesh_gatewa.RouteAssertions.Inputs.{rejected, resolve_allowed_hb_hosts}
use blackcat_darkmesh_gatewa.RouteAssertions.Issue.Bearer.{IsBearer}
use blackcat_darkmesh_gatewa.RouteAssertions.Issue.Bounds.{Lives, handle_route_assert_lem}
use blackcat_darkmesh_gatewa.RouteAssertions.Samples.{
  shop, gateway, some_signature, sample_platform, sample_env, sample_request, sample_header,
}
use blackcat_darkmesh_gatewa.Base.{Any, ◌≡◌, refl, none, some}

wrong_token :
    handle_route_assert sample_platform sample_env 1000 (some "Bearer other") (some sample_request)
    ≡ err (refused (some "worker_route_assert_auth_failed_total") 401 "unauthorized")
unfolding handle_route_assert
wrong_token = refl

no_body :
    handle_route_assert sample_platform sample_env 1000 sample_header none
    ≡ err (rejected 400 "invalid_json")
unfolding handle_route_assert
no_body = refl

null_body :
    handle_route_assert sample_platform sample_env 1000 sample_header (some null) ≡ err type_error
unfolding handle_route_assert
null_body = refl

other_host :
    handle_route_assert sample_platform
      (record sample_env { hb_allowed_hosts = some "a.org, B.org" })
      1000
      sample_header
      (some sample_request)
    ≡ err (rejected 403 "hb_host_not_allowlisted")
unfolding handle_route_assert
other_host = refl

expired :
    handle_route_assert sample_platform sample_env 5000 sample_header (some sample_request)
    ≡ err (rejected 400 "challenge_expired")
unfolding handle_route_assert
expired = refl

abbrev assertion : RouteAssertion
assertion = record {
  v = "dm-route-assert/1";
  iat = whole 4900;
  exp = whole 5000;
  challenge_nonce = "nonce-0001";
  challenge_exp = whole 5000;
  domain = shop;
  cfg_tx = "abcdefghijklmnopqrstuvwxyz-_ABCDEF";
  hb_host = gateway;
  site_process = some "site";
  write_process = none;
  entry_path = some "/";
}

abbrev issued : IssuedAssertion
issued = record {
  assertion = assertion;
  signature = some_signature;
  signature_ref = "worker-ed25519";
}

issued_late :
    handle_route_assert sample_platform sample_env 4900 sample_header (some sample_request)
    ≡ ok issued
unfolding handle_route_assert
issued_late = refl

handle_route_assert_lem_example :
    Lives 4900 assertion
    × Any (λ allowed. allowed ≡ gateway) (resolve_allowed_hb_hosts sample_platform sample_env)
    × IsBearer sample_env.route_assert_token sample_header
handle_route_assert_lem_example =
    handle_route_assert_lem sample_platform sample_env 4900 sample_header (some sample_request)
      issued issued_late
