-- ===== src/SiteConfig/Tests.antt =====
-- A config by example, with white space around its fields and a signature by Ed25519.
use blackcat_darkmesh_gatewa.Json.{Json, text, num, whole, obj, Fields, end, field}
use Prim.Native.Char.{code}
use blackcat_darkmesh_gatewa.Text.{
  all_chars, chars, trim, trim_start, trim_end, to_lower, cut, split, leading_digits,
}
use blackcat_darkmesh_gatewa.JsMap.{get, set}
use blackcat_darkmesh_gatewa.DnsTxt
use blackcat_darkmesh_gatewa.DnsTxt.{
  DmTxtEnvelope, parse_segments, parse_pairs, parse_dm_txt_payload, is_arweave_id, is_number,
  validate_dm_txt_envelope, parse_and_validate_dm_txt_envelope,
}
use blackcat_darkmesh_gatewa.SiteConfig.ShortKeys.{DecodesByFours, resolve_public_key-short}
use blackcat_darkmesh_gatewa.RouteAssertions.Samples.{
  shop, some_signature, sample_platform, sample_platform-HostIsStable,
}
use blackcat_darkmesh_gatewa.SiteConfig.{
  config_invalid_field, config_invalid_time_window, config_missing_field, domain_invalid,
  config_invalid_type, sig_window_expired, sig_window_not_started, sig_unsupported_algorithm, ok,
  fail, thrown, DmConfigV1,
}
use blackcat_darkmesh_gatewa.SiteConfig.Validator.{
  canonicalize_domain, validate_dm_config_json, config_fields,
}
use blackcat_darkmesh_gatewa.SiteConfig.Formed.{IsFormed}
use blackcat_darkmesh_gatewa.SiteConfig.Accepted.{validate_dm_config_json-IsFormed}
use blackcat_darkmesh_gatewa.SiteConfig.Fixed.{validate_dm_config_json-config_fields}
use blackcat_darkmesh_gatewa.SiteConfig.Keys.{Bytes, Subtle, key_text, base64_url_to_bytes}
use blackcat_darkmesh_gatewa.SiteConfig.Signature.{
  VerifyOptions, DmConfigSignatureBlock, resolve_public_key, payload_text,
  verify_dm_config_signature, block_of, verify_validated_dm_config_signature,
  validate_and_verify_dm_config,
}
use blackcat_darkmesh_gatewa.SiteConfig.Genuine.{Genuine}
use blackcat_darkmesh_gatewa.SiteConfig.Unsigned.{
  retargeted, verify_validated_dm_config_signature-retargeted, verify_dm_config_signature-inherited,
}
use blackcat_darkmesh_gatewa.Base.{
  ℕ, suc, ◌*◌, ◌≤◌, ◌≡◌, refl, inl, String, Bool, true, false, none, some, [], ◌∷◌, arith, ◌==◌,
  length,
}

abbrev site : String
site = "site_process-0123456789"

abbrev fields_of : String → String → ℕ → Fields
fields_of domain sig_alg valid_to = field "v" (text " dm1") (
    field "domain" (text domain) (
      field "siteProcess" (text site) (
        field "writeProcess" (text "write_process-0123456789 ") (
          field "entryPath" (text "/index") (
            field "validFrom" (num (whole 1000)) (
              field "validTo" (num (whole valid_to)) (
                field "sigAlg" (text sig_alg) (
                  field "sig" (text some_signature)
                    (field "owner" (text " owner ") (field "nonce" (text "n-1") end))))))))))

abbrev input : Json
input = obj (fields_of " SHOP.example.org. " "ed25519" 2000)

abbrev config : DmConfigV1
config = record {
  domain = shop;
  site_process = site;
  write_process = "write_process-0123456789";
  entry_path = "/index";
  valid_from = 1000;
  valid_to = 2000;
  sig_alg = "ed25519";
  sig = some_signature;
  owner = "owner";
  nonce = "n-1";
  kid = none;
}

-- Keys import as 7, and verify everything.
abbrev subtle : Subtle
subtle = record {
  import_key = λ format algorithm bytes. some 7;
  verify = λ algorithm key signature payload. some (key == 7);
  atob = λ s. some (1 ∷ 2 ∷ []);
}

-- No signature is right.
abbrev refusing : Subtle
refusing = record {
  import_key = λ format algorithm bytes. none;
  verify = λ algorithm key signature payload. none;
  atob = λ s. some (1 ∷ 2 ∷ []);
}

abbrev at : ℕ → VerifyOptions
at now = record { public_key = some (key_text "a2V5"); now = some now; clock = 0 }

validated : validate_dm_config_json sample_platform input ≡ ok config
unfolding validate_dm_config_json
validated = refl

empty_window :
    validate_dm_config_json sample_platform (obj (fields_of shop "ed25519" 1000))
    ≡ fail config_invalid_time_window (some "validTo")
unfolding validate_dm_config_json
empty_window = refl

other_algorithm :
    validate_dm_config_json sample_platform (obj (fields_of shop "constructor" 2000))
    ≡ fail config_invalid_field (some "sigAlg")
unfolding validate_dm_config_json
other_algorithm = refl

no_domain :
    validate_dm_config_json sample_platform (obj (fields_of "  " "ed25519" 2000))
    ≡ fail config_missing_field (some "domain")
unfolding validate_dm_config_json
no_domain = refl

no_object :
    validate_dm_config_json sample_platform (text "{}") ≡ fail config_invalid_type (some "config")
unfolding validate_dm_config_json
no_object = refl

with_path :
    canonicalize_domain sample_platform (text "shop.example.org/a")
    ≡ fail domain_invalid (some "domain")
unfolding canonicalize_domain
with_path = refl

payload :
    payload_text (block_of config)
    ≡ "{\"domain\":\"shop.example.org\",\"nonce\":\"n-1\",\"owner\":\"owner\",\"sigAlg\":\"ed25519\",\"v\":\"dm1\",\"validFrom\":1000,\"validTo\":2000}"
unfolding payload_text
payload = refl

early :
    validate_and_verify_dm_config sample_platform subtle input (at 999)
    ≡ fail sig_window_not_started (some "validFrom")
unfolding validate_and_verify_dm_config
early = refl

late :
    validate_and_verify_dm_config sample_platform subtle input (at 2001)
    ≡ fail sig_window_expired (some "validTo")
unfolding validate_and_verify_dm_config
late = refl

abbrev by_algorithm : String → DmConfigSignatureBlock
by_algorithm name = record (block_of config) { sig_alg = name }

unknown_algorithm :
    verify_dm_config_signature refusing (by_algorithm "none") (at 1500)
    ≡ fail sig_unsupported_algorithm (some "sigAlg")
unfolding verify_dm_config_signature
unknown_algorithm = refl

inherited_algorithm :
    verify_dm_config_signature refusing (by_algorithm "valueOf") (at 1500) ≡ thrown
unfolding verify_dm_config_signature
inherited_algorithm = refl

abbrev txt_envelope : DmTxtEnvelope
txt_envelope = record { cfg = "cfg"; kid = "owner"; ttl = 60 }

validate_dm_config_json-IsFormed_example : IsFormed sample_platform config
validate_dm_config_json-IsFormed_example =
    validate_dm_config_json-IsFormed sample_platform sample_platform-HostIsStable input config
      validated

validate_dm_config_json-config_fields_example :
    validate_dm_config_json sample_platform (obj (config_fields config)) ≡ ok config
validate_dm_config_json-config_fields_example =
    validate_dm_config_json-config_fields sample_platform sample_platform-HostIsStable input config
      validated

accepted_signature : verify_validated_dm_config_signature subtle config (at 1500) ≡ ok config
unfolding verify_validated_dm_config_signature
accepted_signature = refl

verify_validated_dm_config_signature-retargeted_example :
    verify_validated_dm_config_signature subtle
      (retargeted config "other" "evil" "/x" none)
      (at 1500)
    ≡ ok (retargeted config "other" "evil" "/x" none)
verify_validated_dm_config_signature-retargeted_example =
    verify_validated_dm_config_signature-retargeted subtle config (at 1500) accepted_signature
      "other" "evil" "/x" none

verify_dm_config_signature-inherited_example :
    verify_dm_config_signature refusing (by_algorithm "constructor") (at 1500)
    ≡ ok (payload_text (by_algorithm "constructor"))
unfolding resolve_public_key base64_url_to_bytes
verify_dm_config_signature-inherited_example =
    verify_dm_config_signature-inherited refusing (by_algorithm "constructor") (at 1500)
      (1 ∷ 2 ∷ []) (1 ∷ 2 ∷ []) (inl refl) (omega arith) (omega arith) refl refl refl refl refl

-- A decoder for the test: it keeps every other character.
every_other : Bool → String → Bytes
every_other keep String.[] = []
every_other true (String.◌∷◌ c s) = code c ∷ every_other false s
every_other false (String.◌∷◌ c s) = every_other true s

every_other-short :
    (s : String)
    → (2 * length (every_other false s) ≤ chars s)
      × (2 * length (every_other true s) ≤ suc (chars s))
unfolding every_other chars
every_other-short String.[] = (omega arith, omega arith)
every_other-short (String.◌∷◌ c s) =
    let (drops, keeps) = every_other-short s in (omega arith, omega arith)

abbrev halving : Subtle
halving = record {
  import_key = λ format algorithm bytes. some 7;
  verify = λ algorithm key signature payload. some true;
  atob = λ s. some (every_other false s);
}

halving-DecodesByFours : DecodesByFours halving
halving-DecodesByFours s bytes h =
    let (drops, keeps) = every_other-short s in
    let same : every_other false s ≡ bytes = cc in rw (← same) (omega arith)

abbrev txt : String
txt = "v=dm1;cfg=abcdefghijklmnopqrstuvwxyz-_ABCDEF;kid=0123456789abcdef0123456789abcdef;ttl=300"

abbrev envelope : DmTxtEnvelope
envelope = record {
  cfg = "abcdefghijklmnopqrstuvwxyz-_ABCDEF";
  kid = "0123456789abcdef0123456789abcdef";
  ttl = 300;
}

txt-parsed : parse_and_validate_dm_txt_envelope (some txt) ≡ DnsTxt.ok envelope
unfolding parse_and_validate_dm_txt_envelope parse_dm_txt_payload parse_pairs parse_segments
    validate_dm_txt_envelope is_arweave_id is_number all_chars trim trim_start trim_end to_lower cut
    split leading_digits get set
txt-parsed = refl

abbrev txt_key : Bytes
txt_key =
    b'1' ∷ b'3' ∷ b'5' ∷ b'7' ∷ b'9' ∷ b'b' ∷ b'd' ∷ b'f' ∷ b'1' ∷ b'3' ∷ b'5' ∷ b'7' ∷ b'9' ∷ b'b'
    ∷ b'd' ∷ b'f' ∷ []

resolve_public_key-short_example : length txt_key ≤ 96
unfolding resolve_public_key base64_url_to_bytes every_other
resolve_public_key-short_example =
    resolve_public_key-short halving halving-DecodesByFours txt envelope txt-parsed
      (block_of config) 0 txt_key refl
