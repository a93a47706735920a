-- ===== src/SiteConfig/Signature.antt =====
-- workers/async-worker/src/configSignatureVerifier.ts, and the two functions of configValidator.ts that call
-- it. Bytes, keys and the verifiers of the two algorithms are the module Keys.
use Prim.Native.String.{◌++◌ as ◌+++◌}
use blackcat_darkmesh_gatewa.Json.{Json, decimal, quote}
use blackcat_darkmesh_gatewa.RouteAssertions.Outcome.{Platform}
use blackcat_darkmesh_gatewa.SiteConfig.{
  sig_invalid_payload, sig_invalid_public_key, sig_invalid_signature_encoding,
  sig_unsupported_algorithm, sig_window_not_started, sig_window_expired, sig_verification_failed,
  ConfigResult, ok, fail, thrown, ◌>>=◌, DmConfigV1,
}
use blackcat_darkmesh_gatewa.SiteConfig.Validator.{validate_dm_config_json}
use blackcat_darkmesh_gatewa.SiteConfig.Keys.{
  Bytes, Subtle, Algorithm, ed25519, rsa_pss, KeySource, base64_url_to_bytes, normalize_public_key,
  verify_ed25519_signature, verify_rsa_pss_sha256_signature,
}
use blackcat_darkmesh_gatewa.Base.{
  ℕ, ◌/◌, String, Bool, true, false, ◌||◌, Option, none, some, ◌===◌, ltb, if◌then◌else◌, or_else,
}

-- `v` is always "dm1".
pub record DmConfigSignatureBlock : Type 0 where
  pub domain : String
  pub owner : String
  pub valid_from : ℕ
  pub valid_to : ℕ
  pub nonce : String
  pub sig_alg : String
  pub sig : String
  pub public_key : Option KeySource

-- `clock` is `Date.now()`.
pub record VerifyOptions : Type 0 where
  pub public_key : Option KeySource
  pub now : Option ℕ
  pub clock : ℕ

-- `options.publicKey ?? config.publicKey`
abbrev pub key_source : Option KeySource → Option KeySource → Option KeySource
key_source none own = own
key_source (some given) own = some given

unfoldable pub key_of : Subtle → Option KeySource → Option Bytes
unfolding normalize_public_key
key_of p none = none
key_of p (some source) = normalize_public_key p source

unfoldable pub resolve_public_key : Subtle → DmConfigSignatureBlock → VerifyOptions → Option Bytes
unfolding key_of
resolve_public_key p config options = key_of p (key_source options.public_key config.public_key)

unfoldable pub payload_text : DmConfigSignatureBlock → String
unfolding quote decimal
payload_text config =
    "{\"domain\":"
    +++ quote config.domain
    +++ ",\"nonce\":"
    +++ quote config.nonce
    +++ ",\"owner\":"
    +++ quote config.owner
    +++ ",\"sigAlg\":"
    +++ quote config.sig_alg
    +++ ",\"v\":\"dm1\",\"validFrom\":"
    +++ decimal config.valid_from
    +++ ",\"validTo\":"
    +++ decimal config.valid_to
    +++ "}"

unfoldable pub build_dm1_signature_payload : DmConfigSignatureBlock → ConfigResult String
unfolding payload_text
build_dm1_signature_payload config =
    if (config.domain === "") || (config.owner === "") || (config.nonce === "")
    then fail sig_invalid_payload none
    else ok (payload_text config)

-- What `SUPPORTED_SIGNATURE_VERIFIERS[name]` is: one of its own two, or what every object inherits. Called
-- without a `this`, `constructor` and `toString` return an object and a text, and the others throw.
pub data Verifier : Type 0 where
  own : Algorithm → Verifier
  truthy : Verifier
  throwing : Verifier

abbrev is_inherited : String → Bool
is_inherited name =
    name === "valueOf"
    || name === "toLocaleString"
    || name === "hasOwnProperty"
    || name === "isPrototypeOf"
    || name === "propertyIsEnumerable"
    || name === "__proto__"
    || name === "__defineGetter__"
    || name === "__defineSetter__"
    || name === "__lookupGetter__"
    || name === "__lookupSetter__"

unfoldable pub supported_signature_verifier : String → Option Verifier
supported_signature_verifier name =
    if name === "ed25519"
    then some (own ed25519)
    else if name === "rsa-pss-sha256"
    then some (own rsa_pss)
    else if name === "constructor" || name === "toString"
    then some truthy
    else if is_inherited name
    then some throwing
    else none

-- Whether what the verifier returns counts as true.
unfoldable pub call_verifier : Subtle → Verifier → String → Bytes → Bytes → ConfigResult Bool
unfolding verify_ed25519_signature verify_rsa_pss_sha256_signature
call_verifier p (own ed25519) payload signature public_key =
    ok (verify_ed25519_signature p payload signature public_key)
call_verifier p (own rsa_pss) payload signature public_key =
    ok (verify_rsa_pss_sha256_signature p payload signature public_key)
call_verifier p truthy payload signature public_key = ok true
call_verifier p throwing payload signature public_key = thrown

abbrev pub supported : Option Verifier → ConfigResult Verifier
supported (some verifier) = ok verifier
supported none = fail sig_unsupported_algorithm (some "sigAlg")

abbrev pub now_of : VerifyOptions → ℕ
now_of options = or_else options.now (options.clock / 1000)

unfoldable pub check_window : ℕ → ℕ → ℕ → ConfigResult (Unit {0})
check_window now valid_from valid_to =
    if ltb now valid_from
    then fail sig_window_not_started (some "validFrom")
    else if ltb valid_to now
    then fail sig_window_expired (some "validTo")
    else ok tt

abbrev pub known_key : Option Bytes → ConfigResult Bytes
known_key (some bytes) = ok bytes
known_key none = fail sig_invalid_public_key (some "publicKey")

abbrev pub known_signature : Option Bytes → ConfigResult Bytes
known_signature (some bytes) = ok bytes
known_signature none = fail sig_invalid_signature_encoding (some "sig")

abbrev pub verdict : String → Bool → ConfigResult String
verdict payload true = ok payload
verdict payload false = fail sig_verification_failed (some "sig")

unfoldable pub verify_dm_config_signature :
    Subtle → DmConfigSignatureBlock → VerifyOptions → ConfigResult String
unfolding supported_signature_verifier check_window build_dm1_signature_payload resolve_public_key
    base64_url_to_bytes call_verifier
verify_dm_config_signature p config options = do
  verifier ← supported (supported_signature_verifier config.sig_alg)
  in_window ← check_window (now_of options) config.valid_from config.valid_to
  payload ← build_dm1_signature_payload config
  public_key ← known_key (resolve_public_key p config options)
  signature ← known_signature (base64_url_to_bytes p config.sig)
  verified ← call_verifier p verifier payload signature public_key
  verdict payload verified

-- What the verifier reads of a config, which holds no key of its own.
abbrev pub block_of : DmConfigV1 → DmConfigSignatureBlock
block_of config = record {
  domain = config.domain;
  owner = config.owner;
  valid_from = config.valid_from;
  valid_to = config.valid_to;
  nonce = config.nonce;
  sig_alg = config.sig_alg;
  sig = config.sig;
  public_key = none;
}

unfoldable pub verify_validated_dm_config_signature :
    Subtle → DmConfigV1 → VerifyOptions → ConfigResult DmConfigV1
unfolding verify_dm_config_signature
verify_validated_dm_config_signature p config options =
    verify_dm_config_signature p (block_of config) options >>= λ payload. ok config

unfoldable pub validate_and_verify_dm_config :
    Platform → Subtle → Json → VerifyOptions → ConfigResult DmConfigV1
unfolding validate_dm_config_json verify_validated_dm_config_signature
validate_and_verify_dm_config p subtle input options = validate_dm_config_json p input >>= λ config.
    verify_validated_dm_config_signature subtle config options
