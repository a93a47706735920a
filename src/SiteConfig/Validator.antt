-- ===== src/SiteConfig/Validator.antt =====
-- The validator of workers/async-worker/src/configValidator.ts, one function per field, and the test of the
-- key identifier against the TXT record.
use Prim.Native.String.{◌++◌ as ◌+++◌}
use blackcat_darkmesh_gatewa.Text.{
  trim, to_lower, is_digit, all_chars, includes_text, starts_with, drop_trailing, chars,
}
use blackcat_darkmesh_gatewa.Json.{
  Json, undefined, num, text, obj, non_plain, whole, Fields, end, field,
}
use blackcat_darkmesh_gatewa.DnsTxt.{DmTxtEnvelope}
use blackcat_darkmesh_gatewa.RouteAssertions.Outcome.{Platform, field_of}
use blackcat_darkmesh_gatewa.RouteAssertions.Domains.{DomainResult, invalid, host, checked_host}
use blackcat_darkmesh_gatewa.SiteConfig.{
  DmConfigErrorCode, domain_invalid, config_invalid_type, config_missing_field,
  config_invalid_field, config_invalid_time_window, config_kid_mismatch, ConfigResult, ok, fail,
  ◌>>=◌, DmConfigV1,
}
use blackcat_darkmesh_gatewa.Base.{
  ℕ, suc, String, Bool, ◌&&◌, ◌||◌, not, Option, none, some, ◌===◌, ltb, leb, ◌==◌, if◌then◌else◌,
  or_else,
}

abbrev pub is_letter : ℕ → Bool
is_letter c = (leb b'A' c && leb c b'Z') || (leb b'a' c && leb c b'z')

-- `PROCESS_ID_RE`
unfoldable pub is_process_id : String → Bool
unfolding all_chars chars
is_process_id s =
    all_chars (λ c. is_letter c || is_digit c || c == b'_' || c == b'-') s
    && leb 20 (chars s)
    && leb (chars s) 128

-- `[A-Za-z0-9+/_=-]`
abbrev pub is_base64_char : ℕ → Bool
is_base64_char c =
    is_letter c || is_digit c || c == b'+' || c == b'/' || c == b'_' || c == b'=' || c == b'-'

-- `SIG_RE`
unfoldable pub is_sig : String → Bool
unfolding all_chars chars
is_sig s = all_chars is_base64_char s && leb 32 (chars s) && leb (chars s) 8192

abbrev pub missing_field : String → ConfigResult String
missing_field name = fail config_missing_field (some name)

abbrev pub filled_string : String → String → ConfigResult String
filled_string name trimmed = if trimmed === "" then missing_field name else ok trimmed

unfoldable pub read_required_string : String → Json → ConfigResult String
unfolding trim
read_required_string name (text s) = filled_string name (trim s)
read_required_string name other = missing_field name

unfoldable pub read_required_integer : String → Json → ConfigResult ℕ
read_required_integer name (num (whole (suc n))) = ok (suc n)
read_required_integer name other = fail config_invalid_field (some name)

-- The test of one field that follows its reading.
abbrev pub accept : DmConfigErrorCode → String → (String → Bool) → String → ConfigResult String
accept code name test s = if test s then ok s else fail code (some name)

-- What the URL parser made of the name.
abbrev pub fqdn : Option String → DomainResult
fqdn none = invalid
fqdn (some name) =
    let canonical_host = to_lower name in
    if (canonical_host === "") || ltb 253 (chars canonical_host)
    then invalid
    else checked_host canonical_host

unfoldable pub without_trailing_dot : Platform → String → DomainResult
unfolding checked_host chars to_lower
without_trailing_dot p name =
    if name === "" then invalid else fqdn (p.hostname ("http://" +++ name))

unfoldable pub canonical_host_of : Platform → String → DomainResult
unfolding without_trailing_dot trim to_lower includes_text drop_trailing
canonical_host_of p input =
    let trimmed = to_lower (trim input) in
    if trimmed === ""
    then invalid
    else if includes_text "://" trimmed
        || includes_text "/" trimmed
        || includes_text "?" trimmed
        || includes_text "#" trimmed
    then invalid
    else without_trailing_dot p (drop_trailing b'.' trimmed)

abbrev pub domain_result : DomainResult → ConfigResult String
domain_result (host name) = ok name
domain_result other = fail domain_invalid (some "domain")

unfoldable pub canonicalize_domain : Platform → Json → ConfigResult String
unfolding canonical_host_of
canonicalize_domain p (text input) = domain_result (canonical_host_of p input)
canonicalize_domain p other = fail domain_invalid (some "domain")

unfoldable pub read_version : Json → ConfigResult String
unfolding read_required_string
read_version v = read_required_string "v" v >>= accept config_invalid_field "v" (λ s. s === "dm1")

unfoldable pub read_domain : Platform → Json → ConfigResult String
unfolding read_required_string canonicalize_domain
read_domain p v = read_required_string "domain" v >>= λ s. canonicalize_domain p (text s)

unfoldable pub read_process : String → Json → ConfigResult String
unfolding read_required_string is_process_id
read_process name v = read_required_string name v >>= accept config_invalid_field name is_process_id

unfoldable pub read_entry_path : Json → ConfigResult String
unfolding read_required_string starts_with
read_entry_path v =
    read_required_string "entryPath" v >>= accept config_invalid_field "entryPath" (starts_with "/")

abbrev pub end_after : ℕ → ℕ → ConfigResult ℕ
end_after valid_from valid_to =
    if leb valid_to valid_from
    then fail config_invalid_time_window (some "validTo")
    else ok valid_to

unfoldable pub read_valid_to : ℕ → Json → ConfigResult ℕ
unfolding read_required_integer
read_valid_to valid_from v = read_required_integer "validTo" v >>= end_after valid_from

abbrev pub is_sig_alg : String → Bool
is_sig_alg s = s === "ed25519" || s === "rsa-pss-sha256"

unfoldable pub read_sig_alg : Json → ConfigResult String
unfolding read_required_string
read_sig_alg v = read_required_string "sigAlg" v >>= accept config_invalid_field "sigAlg" is_sig_alg

unfoldable pub read_sig : Json → ConfigResult String
unfolding read_required_string is_sig
read_sig v = read_required_string "sig" v >>= accept config_invalid_field "sig" is_sig

abbrev pub filled_kid : String → ConfigResult (Option String)
filled_kid trimmed =
    if trimmed === "" then fail config_invalid_field (some "kid") else ok (some trimmed)

unfoldable pub read_kid : Json → ConfigResult (Option String)
unfolding trim
read_kid undefined = ok none
read_kid (text s) = filled_kid (trim s)
read_kid other = fail config_invalid_field (some "kid")

unfoldable pub validate_fields : Platform → Fields → ConfigResult DmConfigV1
unfolding read_version read_domain read_process read_entry_path read_required_integer read_valid_to
    read_sig_alg read_sig read_required_string read_kid field_of
validate_fields p input = do
  version ← read_version (field_of "v" input)
  domain ← read_domain p (field_of "domain" input)
  site_process ← read_process "siteProcess" (field_of "siteProcess" input)
  write_process ← read_process "writeProcess" (field_of "writeProcess" input)
  entry_path ← read_entry_path (field_of "entryPath" input)
  valid_from ← read_required_integer "validFrom" (field_of "validFrom" input)
  valid_to ← read_valid_to valid_from (field_of "validTo" input)
  sig_alg ← read_sig_alg (field_of "sigAlg" input)
  sig ← read_sig (field_of "sig" input)
  owner ← read_required_string "owner" (field_of "owner" input)
  nonce ← read_required_string "nonce" (field_of "nonce" input)
  kid ← read_kid (field_of "kid" input)
  ok (record {
    domain = domain;
    site_process = site_process;
    write_process = write_process;
    entry_path = entry_path;
    valid_from = valid_from;
    valid_to = valid_to;
    sig_alg = sig_alg;
    sig = sig;
    owner = owner;
    nonce = nonce;
    kid = kid;
  })

unfoldable pub validate_dm_config_json : Platform → Json → ConfigResult DmConfigV1
unfolding validate_fields
validate_dm_config_json p (obj input) = validate_fields p input
validate_dm_config_json p (non_plain input) = validate_fields p input
validate_dm_config_json p other = fail config_invalid_type (some "config")

abbrev pub kid_json : Option String → Json
kid_json none = undefined
kid_json (some kid) = text kid

-- A config as the object that it is.
unfoldable pub config_fields : DmConfigV1 → Fields
config_fields c = field "v" (text "dm1") (
    field "domain" (text c.domain) (
      field "siteProcess" (text c.site_process) (
        field "writeProcess" (text c.write_process) (
          field "entryPath" (text c.entry_path) (
            field "validFrom" (num (whole c.valid_from)) (
              field "validTo" (num (whole c.valid_to)) (
                field "sigAlg" (text c.sig_alg) (
                  field "sig" (text c.sig) (
                    field "owner" (text c.owner)
                      (field "nonce" (text c.nonce) (field "kid" (kid_json c.kid) end)))))))))))

abbrev pub kid_or_owner : DmConfigV1 → String
kid_or_owner config = or_else config.kid config.owner

unfoldable pub validate_config_kid_against_txt :
    DmConfigV1 → DmTxtEnvelope → ConfigResult DmConfigV1
validate_config_kid_against_txt config txt_envelope =
    let candidate = kid_or_owner config in
    if not (candidate === "") && not (candidate === txt_envelope.kid)
    then fail config_kid_mismatch (some "kid")
    else ok config
