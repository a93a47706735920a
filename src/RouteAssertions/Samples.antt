-- ===== src/RouteAssertions/Samples.antt =====
-- A platform, an environment and a request for the tests: two hosts, one signature.
use blackcat_darkmesh_gatewa.Json.{Json, text, num, whole, obj, end, field}
use blackcat_darkmesh_gatewa.RouteAssertions.Outcome.{AssertEnv, Platform}
use Prim.Native.String.{◌++◌ as ◌+++◌}
use blackcat_darkmesh_gatewa.Text.{to_lower}
use blackcat_darkmesh_gatewa.RouteAssertions.Domains.Fixed.{HostIsStable}
use blackcat_darkmesh_gatewa.Base.{
  String, Option, none, some, ◌===◌, if◌then◌else◌, ◌≡◌, refl, ◌⊎◌, inl, inr, arith, Bool-cases,
}

abbrev pub shop : String
shop = "shop.example.org"

abbrev pub gateway : String
gateway = "hyperbeam.darkmesh.fun"

abbrev pub some_signature : String
some_signature =
    "0123456789abcdef0123456789abcdef0123456789abcdef0123456789abcdef0123456789abcdef0123456789abcdef0123456789abcdef0123456789abcdef"

abbrev pub some_key : String
some_key = "00112233445566778899aabbccddeeff00112233445566778899aabbccddeeff"

abbrev pub sample_hostname : String → Option String
sample_hostname url =
    if url === "http://shop.example.org"
    then some shop
    else if url === "http://hyperbeam.darkmesh.fun"
    then some gateway
    else none

abbrev pub sample_platform : Platform
sample_platform = record {
  hostname = sample_hostname;
  public_key = λ key. key;
  sign = λ key payload. some_signature;
  verify = λ signature payload key. signature === some_signature;
  digest = λ payload. "digest";
}

abbrev pub sample_env : AssertEnv
sample_env = record {
  route_assert_token = some " secret ";
  hb_allowed_hosts = none;
  ao_hb_url = none;
  route_assert_ttl_sec = some "600";
  route_assert_site_process = none;
  ao_site_process_id = some "site";
  route_assert_write_process = none;
  write_process_id = none;
  route_assert_entry_path = none;
  route_assert_signing_key_hex = some some_key;
  worker_ed25519_priv_hex = none;
  route_assert_signature_ref = none;
  worker_signature_ref = none;
  route_assert_verify_pub_hex = none;
  route_assert_verify_skew_sec = none;
}

abbrev pub sample_request : Json
sample_request = obj (
    field "domain" (text " Shop.Example.org. ") (
      field "cfgTx" (text "abcdefghijklmnopqrstuvwxyz-_ABCDEF") (
        field "hbHost" (text "hyperbeam.darkmesh.fun") (
          field "challengeNonce" (text "nonce-0001")
            (field "challengeExp" (num (whole 5000)) end)))))

abbrev pub sample_header : Option String
sample_header = some "bearer  secret"

sample_hostname-cases :
    (url name : String) → sample_hostname url ≡ some name → (name ≡ shop) ⊎ (name ≡ gateway)
sample_hostname-cases url name h = elim (Bool-cases (url === "http://shop.example.org")) [
  | inl e ↦ inl (ground arith)
  | inr e ↦ elim (Bool-cases (url === "http://hyperbeam.darkmesh.fun")) [
    | inl f ↦ inr (ground arith)
    | inr f ↦ absurd (ground arith)
  ]
]

pub sample_platform-HostIsStable : HostIsStable sample_platform
unfolding to_lower
sample_platform-HostIsStable written name h =
    elim (sample_hostname-cases ("http://" +++ written) name h) [
      | inl e ↦ rw e (refl, refl)
      | inr e ↦ rw e (refl, refl)
    ]
