-- ===== src/DomainMap/Store.antt =====
-- workers/async-worker/src/domainMapStore.ts: the codec of persisted records and the operations on the
-- KV store. A stored text is kept as what `JSON.parse` makes of it, so that `JSON.stringify` is the
-- value itself; persisted numbers are whole, and times are not negative. An error that is thrown is `none`.
pub mod Operations
pub mod RoundTrip
pub mod Corrupted
pub mod Dots
mod Tests
use Prim.Native.String.{◌++◌ as ◌+++◌}
use blackcat_darkmesh_gatewa.Text.{trim, to_lower, drop_last, starts_with}
use blackcat_darkmesh_gatewa.Json.{
  Json, null, undefined, bool, num, text, arr, obj, non_plain, Fields, end, field, Number, whole,
  negative, not_finite, decimal,
}
use blackcat_darkmesh_gatewa.Json.Keys.{sort_entries}
use blackcat_darkmesh_gatewa.DomainMap.{
  DomainMapStatus, valid, stale, invalid, DomainMapError, DomainMapEntry, normalize_domain_host,
  create_empty_domain_map_entry,
}
use blackcat_darkmesh_gatewa.Base.{
  ℕ, zero, suc, ◌+◌, ◌-◌, ◌*◌, ◌/◌, ◌%◌, ◌^◌, ◌≤◌, ◌<◌, min, max, ◌≡◌, refl, sym, ap, ◌∙◌, subst,
  ◌≢◌, ◌↔◌, ◌⊎◌, inl, inr, String, Bool, true, false, ◌&&◌, ◌||◌, not, Option, none, some, List, [],
  ◌∷◌, ◌++◌, map, ◌===◌, eq_iff, eq_refl, arith, ltb, leb, ◌==◌, if◌then◌else◌, is_some, or_else,
  option_map, Bool-cases, Option-cases, length, length-append, All, All-append, Any, leb→le, le→leb,
  ltb→lt, lt→ltb,
}
use blackcat_darkmesh_gatewa.JsMap.{
  JsMap, get, set, delete, has, size, first_key, delete_where, delete_oldest_while, IsUnique,
}

pub data Stored : Type 0 where
  empty_text : Stored
  no_json : Stored
  stored : Json → Stored

unfoldable pub domain_map_key : String → Option String
unfolding normalize_domain_host
domain_map_key host =
    option_map (λ normalized. "domain:" +++ normalized) (normalize_domain_host host)

-- `value[key]` of a record that has the key once.
unfoldable pub member : String → Fields → Json
member key end = undefined
member key (field k x fields) = if k === key then x else member key fields

abbrev pub as_nullable_string : Json → Option String
as_nullable_string (text value) = some value
as_nullable_string other = none

abbrev pub as_nullable_number : Json → Option ℕ
as_nullable_number (num (whole n)) = some n
as_nullable_number other = none

-- `none` for the fallback. `Math.floor` leaves whole numbers as they are; that it takes fractions to the
-- number below is left out, as fractions are.
abbrev pub as_non_negative_int : Json → Option ℕ
as_non_negative_int (num (whole n)) = some n
as_non_negative_int other = none

abbrev pub status_of_text : String → DomainMapStatus
status_of_text value =
    if value === "valid"
    then DomainMapStatus.valid
    else if value === "stale"
    then DomainMapStatus.stale
    else DomainMapStatus.invalid

abbrev pub as_status : Json → DomainMapStatus
as_status (text value) = status_of_text value
as_status other = DomainMapStatus.invalid

abbrev pub host_candidate : Json → Option String → String
host_candidate (text host) hint = host
host_candidate other hint = or_else hint "invalid.local"

unfoldable pub safe_normalize_domain_host : Json → Option String → String
unfolding normalize_domain_host
safe_normalize_domain_host host hint =
    or_else (normalize_domain_host (host_candidate host hint)) "invalid.local"

abbrev pub error_of : Fields → ℕ → DomainMapError
error_of fields now_ms = record {
  code = or_else (as_nullable_string (member "code" fields)) "error";
  message = or_else (as_nullable_string (member "message" fields)) "unknown_error";
  at = or_else (as_nullable_number (member "at" fields)) now_ms;
}

unfoldable pub parse_domain_map_error : Json → ℕ → Option DomainMapError
unfolding member
parse_domain_map_error (obj fields) now_ms = some (error_of fields now_ms)
parse_domain_map_error (non_plain fields) now_ms = some (error_of fields now_ms)
parse_domain_map_error other now_ms = none

abbrev pub corrupted : String → String → ℕ → DomainMapEntry → DomainMapEntry
corrupted code message now_ms entry = record entry {
  status = DomainMapStatus.invalid;
  last_error = some (record { code = code; message = message; at = now_ms });
  last_error_at = some now_ms;
  last_error_code = some code;
  updated_at = now_ms;
}

unfoldable pub make_corrupted_domain_map_entry :
    Option String → ℕ → String → String → Option DomainMapEntry
unfolding create_empty_domain_map_entry
make_corrupted_domain_map_entry host_hint now_ms code message =
    option_map (corrupted code message now_ms)
      (create_empty_domain_map_entry (or_else host_hint "invalid.local") now_ms)

-- `a ?? b` of values that may be null.
abbrev pub or_value {ℓ} : {A : Type ℓ} → Option A → Option A → Option A
or_value none b = b
or_value (some a) b = some a

abbrev pub error_at : Option DomainMapError → Option ℕ
error_at none = none
error_at (some e) = some e.at

abbrev pub error_code : Option DomainMapError → Option String
error_code none = none
error_code (some e) = some e.code

-- The fields of a record that are read one by one.
unfoldable pub read_record : Fields → ℕ → DomainMapEntry → DomainMapEntry
unfolding member parse_domain_map_error
read_record parsed now_ms entry = record entry {
  schema_version = 2;
  status = as_status (member "status" parsed);
  cfg_tx = as_nullable_string (member "cfgTx" parsed);
  resolved_target = as_nullable_string (member "resolvedTarget" parsed);
  write_process = as_nullable_string (member "writeProcess" parsed);
  config_hash = as_nullable_string (member "configHash" parsed);
  verified_at = as_nullable_number (member "verifiedAt" parsed);
  expires_at = as_nullable_number (member "expiresAt" parsed);
  hb_verified_at = as_nullable_number (member "hbVerifiedAt" parsed);
  hard_expires_at = as_nullable_number (member "hardExpiresAt" parsed);
  last_error = parse_domain_map_error (member "lastError" parsed) now_ms;
  last_success_at = as_nullable_number (member "lastSuccessAt" parsed);
  last_error_at = as_nullable_number (member "lastErrorAt" parsed);
  last_error_code = as_nullable_string (member "lastErrorCode" parsed);
  refresh_attempts = or_else (as_non_negative_int (member "refreshAttempts" parsed)) 0;
  updated_at = or_else (as_nullable_number (member "updatedAt" parsed)) now_ms;
}

-- The defaults from the last error, and those of versions 0 and 1.
abbrev pub fill_error : DomainMapEntry → DomainMapEntry
fill_error entry = record entry {
  last_error_at = or_value entry.last_error_at (error_at entry.last_error);
  last_error_code = or_value entry.last_error_code (error_code entry.last_error);
}

abbrev pub fill_success : ℕ → DomainMapEntry → DomainMapEntry
fill_success version entry =
    if leb version 1
    then record entry { last_success_at = or_value entry.last_success_at entry.verified_at }
    else entry

unfoldable pub migrate_persisted_record : Fields → ℕ → Option String → ℕ → Option DomainMapEntry
unfolding member safe_normalize_domain_host create_empty_domain_map_entry read_record
migrate_persisted_record parsed version host_hint now_ms =
    option_map (λ entry. fill_success version (fill_error (read_record parsed now_ms entry)))
      (create_empty_domain_map_entry (safe_normalize_domain_host (member "host" parsed) host_hint)
        now_ms)

-- `undefined` is version 0; `none` stands for a negative version.
abbrev pub version_of : Json → Option ℕ
version_of undefined = some 0
version_of other = as_non_negative_int other

unfoldable pub parse_version : Option ℕ → Fields → Option String → ℕ → Option DomainMapEntry
unfolding make_corrupted_domain_map_entry migrate_persisted_record safe_normalize_domain_host member
    decimal
parse_version none parsed host_hint now_ms =
    make_corrupted_domain_map_entry host_hint now_ms "invalid_schema_version"
      "Persisted domain record has invalid schemaVersion."
parse_version (some version) parsed host_hint now_ms =
    if ltb 2 version
    then make_corrupted_domain_map_entry
        (some (safe_normalize_domain_host (member "host" parsed) host_hint)) now_ms
        "unsupported_schema_version"
        ("Persisted domain record schemaVersion "
          +++ (decimal version +++ " is newer than supported 2."))
    else migrate_persisted_record parsed version host_hint now_ms

abbrev pub parse_json : Json → Option String → ℕ → Option DomainMapEntry
parse_json (obj fields) host_hint now_ms =
    parse_version (version_of (member "schemaVersion" fields)) fields host_hint now_ms
parse_json (non_plain fields) host_hint now_ms =
    parse_version (version_of (member "schemaVersion" fields)) fields host_hint now_ms
parse_json other host_hint now_ms =
    make_corrupted_domain_map_entry host_hint now_ms "invalid_shape"
      "Persisted domain record is not an object."

unfoldable pub parse_domain_map_entry : Stored → Option String → ℕ → Option DomainMapEntry
unfolding parse_version make_corrupted_domain_map_entry member
parse_domain_map_entry (stored value) host_hint now_ms = parse_json value host_hint now_ms
parse_domain_map_entry raw host_hint now_ms =
    make_corrupted_domain_map_entry host_hint now_ms "corrupt_json"
      "Failed to parse persisted domain record JSON."

abbrev pub status_text : DomainMapStatus → String
status_text DomainMapStatus.valid = "valid"
status_text DomainMapStatus.stale = "stale"
status_text DomainMapStatus.invalid = "invalid"

abbrev pub text_or_null : Option String → Json
text_or_null none = null
text_or_null (some s) = text s

abbrev pub number_or_null : Option ℕ → Json
number_or_null none = null
number_or_null (some n) = num (whole n)

abbrev pub error_or_null : Option DomainMapError → Json
error_or_null none = null
error_or_null (some e) = obj (
    field "code" (text e.code)
      (field "message" (text e.message) (field "at" (num (whole e.at)) end)))

-- The entry as `JSON.stringify` writes it.
unfoldable pub entry_fields : DomainMapEntry → Fields
entry_fields entry = field "schemaVersion" (num (whole entry.schema_version)) (
    field "host" (text entry.host) (
      field "status" (text (status_text entry.status)) (
        field "cfgTx" (text_or_null entry.cfg_tx) (
          field "resolvedTarget" (text_or_null entry.resolved_target) (
            field "writeProcess" (text_or_null entry.write_process) (
              field "configHash" (text_or_null entry.config_hash) (
                field "verifiedAt" (number_or_null entry.verified_at) (
                  field "expiresAt" (number_or_null entry.expires_at) (
                    field "hbVerifiedAt" (number_or_null entry.hb_verified_at) (
                      field "hardExpiresAt" (number_or_null entry.hard_expires_at) (
                        field "lastError" (error_or_null entry.last_error) (
                          field "lastSuccessAt" (number_or_null entry.last_success_at) (
                            field "lastErrorAt" (number_or_null entry.last_error_at) (
                              field "lastErrorCode" (text_or_null entry.last_error_code) (
                                field "refreshAttempts" (num (whole entry.refresh_attempts)) (
                                  field "updatedAt" (num (whole entry.updated_at))
                                    end))))))))))))))))
