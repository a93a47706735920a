-- ===== src/RouteAssertions/Verify/Tests.antt =====
-- Verification by example: the same request twice, and too late.
use blackcat_darkmesh_gatewa.Json.{Json, whole}
use blackcat_darkmesh_gatewa.Json.Stable.{stable_stringify}
use blackcat_darkmesh_gatewa.RouteAssertions.Outcome.{ok, err}
use blackcat_darkmesh_gatewa.RouteAssertions.Issue.{RouteAssertion, response_json, assertion_json}
use blackcat_darkmesh_gatewa.RouteAssertions.Verify.{claimed_of, handle_route_assert_verify}
use blackcat_darkmesh_gatewa.RouteAssertions.VerifyInput.{failed}
use blackcat_darkmesh_gatewa.RouteAssertions.Verify.Sound.{
  Genuine, handle_route_assert_verify-Genuine,
}
use blackcat_darkmesh_gatewa.RouteAssertions.Replay
use blackcat_darkmesh_gatewa.RouteAssertions.Samples.{
  shop, gateway, some_signature, sample_platform, sample_env,
}
use blackcat_darkmesh_gatewa.JsMap.{get, set, delete_where, IsUnique}
use blackcat_darkmesh_gatewa.RouteAssertions.Replay.Guard.{IsGuarded}
use blackcat_darkmesh_gatewa.Base.{◌≡◌, refl, String, true, false, none, some, [], ◌∷◌}

abbrev assertion : RouteAssertion
assertion = record {
  v = "dm-route-assert/1";
  iat = whole 1000;
  exp = whole 1300;
  challenge_nonce = "nonce-0001";
  challenge_exp = whole 5000;
  domain = shop;
  cfg_tx = "abcdefghijklmnopqrstuvwxyz-_ABCDEF";
  hb_host = gateway;
  site_process = some "site";
  write_process = none;
  entry_path = some "/";
}

abbrev request : Json
request =
    response_json (record {
      assertion = assertion;
      signature = some_signature;
      signature_ref = "worker-ed25519";
    })

abbrev replay_env : Replay.Env
replay_env = record {
  route_assert_verify_replay_enabled = Replay.a_boolean true;
  test_in_memory_kv = Replay.no_value;
  route_assert_verify_replay_ttl_sec = Replay.no_value;
  has_inbox_kv = false;
}

abbrev before : Replay.Service
before = record {
  memory_replay = [];
  world = record { local_claim_locks = []; kv = []; tasks = []; answers = [] };
}

abbrev after : Replay.Service
after = record before {
  memory_replay =
      ("route-assert:verify:shop.example.org:abcdefghijklmnopqrstuvwxyz-_ABCDEF:nonce-0001", 1300)
      ∷ [];
}

verified :
    handle_route_assert_verify sample_platform sample_env replay_env "1" 1100 (some request) before
    ≡ (after, some (ok "digest"))
unfolding handle_route_assert_verify response_json Replay.claim_route_assertion_replay
    Replay.claim_in_memory Replay.replay_ttl Replay.parse_boolean_like get set delete_where
verified = refl

verified_again :
    handle_route_assert_verify sample_platform sample_env replay_env "2" 1101 (some request) after
    ≡ (after, some (err (failed 409 "replay_detected")))
unfolding handle_route_assert_verify response_json Replay.claim_route_assertion_replay
    Replay.claim_in_memory Replay.replay_ttl Replay.parse_boolean_like get set delete_where
verified_again = refl

too_late :
    handle_route_assert_verify sample_platform sample_env replay_env "3" 1300 (some request) before
    ≡ (before, some (err (failed 409 "expired_assertion")))
unfolding handle_route_assert_verify response_json
too_late = refl

before-IsUnique : IsUnique before.memory_replay
before-IsUnique = tt

handle_route_assert_verify-Genuine_example :
    (body : Json) × (a : RouteAssertion) × (some request ≡ some body)
    × Genuine sample_platform sample_env 1100 body a
    × IsGuarded replay_env (Replay.replay_key (claimed_of a)) 1100 before after
    × (◌≡◌ {A = String} "digest" (sample_platform.digest (stable_stringify (assertion_json a))))
handle_route_assert_verify-Genuine_example =
    handle_route_assert_verify-Genuine sample_platform sample_env replay_env "1" 1100 (some request)
      before after "digest" before-IsUnique verified
