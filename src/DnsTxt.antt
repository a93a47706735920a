-- ===== src/DnsTxt.antt =====
-- workers/async-worker/src/dnsTxtParser.ts: the TXT record in which a domain names its configuration. A
-- failure is its code; the message for people and the field are left out.
pub mod Sound
pub mod Accepted
mod Tests
use Prim.Native.Char.{Char, code}
use blackcat_darkmesh_gatewa.Text.{
  chars, all_chars, trim, to_lower, cut, split, is_digit, leading_digits,
}
use blackcat_darkmesh_gatewa.Base.{
  ℕ, zero, suc, ◌+◌, ◌-◌, ◌*◌, ◌/◌, ◌%◌, ◌^◌, ◌≤◌, ◌<◌, min, max, ◌≡◌, refl, sym, ap, ◌∙◌, subst,
  ◌≢◌, ◌↔◌, ◌⊎◌, inl, inr, String, Bool, true, false, ◌&&◌, ◌||◌, not, Option, none, some, List, [],
  ◌∷◌, ◌++◌, map, ◌===◌, eq_iff, eq_refl, arith, ltb, leb, ◌==◌, if◌then◌else◌, is_some, or_else,
  option_map, Bool-cases, Option-cases, length, length-append, All, All-append, Any, leb→le, le→leb,
  ltb→lt, lt→ltb,
}
use blackcat_darkmesh_gatewa.JsMap.{
  JsMap, get, set, delete, has, size, first_key, delete_where, delete_oldest_while, IsUnique,
}

pub data DmTxtErrorCode : Type 0 where
  txt_invalid_type : DmTxtErrorCode
  txt_empty : DmTxtErrorCode
  txt_invalid_pair : DmTxtErrorCode
  txt_duplicate_key : DmTxtErrorCode
  txt_unknown_key : DmTxtErrorCode
  txt_missing_field : DmTxtErrorCode
  txt_invalid_version : DmTxtErrorCode
  txt_invalid_cfg : DmTxtErrorCode
  txt_invalid_kid : DmTxtErrorCode
  txt_invalid_ttl : DmTxtErrorCode

pub data ValidationResult (T : Type 0) : Type 0 where
  ok : T → ValidationResult T
  fail : DmTxtErrorCode → ValidationResult T

-- `v` is always "dm1".
pub record DmTxtEnvelope : Type 0 where
  pub cfg : String
  pub kid : String
  pub ttl : ℕ

abbrev pub is_txt_key : String → Bool
is_txt_key key = key === "v" || key === "cfg" || key === "kid" || key === "ttl"

-- A segment `key=value` that is not empty: the separator is neither first nor last.
abbrev pub pair_of : Option (String × String) → ValidationResult (String × String)
pair_of none = fail txt_invalid_pair
pair_of (some (before, behind)) =
    if (before === "") || (behind === "")
    then fail txt_invalid_pair
    else ok (to_lower (trim before), trim behind)

abbrev pub add_pair :
    ValidationResult (String × String) → JsMap String → ValidationResult (JsMap String)
add_pair (fail code) result = fail code
add_pair (ok (key, value)) result =
    if not (is_txt_key key)
    then fail txt_unknown_key
    else if has key result
    then fail txt_duplicate_key
    else ok (set key value result)

abbrev pub add_segment : String → JsMap String → ValidationResult (JsMap String)
add_segment trimmed result =
    if trimmed === "" then ok result else add_pair (pair_of (cut b'=' trimmed)) result

unfoldable pub parse_segments :
    List String → ValidationResult (JsMap String) → ValidationResult (JsMap String)
parse_segments segments (fail code) = fail code
parse_segments [] (ok result) = ok result
parse_segments (segment ∷ segments) (ok result) =
    parse_segments segments (add_segment (trim segment) result)

unfoldable pub parse_pairs : String → ValidationResult (JsMap String)
parse_pairs raw_txt = parse_segments (split b';' raw_txt) (ok [])

-- `!value[key]`: a field that is missing or empty.
abbrev pub is_missing : Option String → Bool
is_missing none = true
is_missing (some value) = value === ""

pub record ParsedTxtPairs : Type 0 where
  pub v : String
  pub cfg : String
  pub kid : String
  pub ttl : String

abbrev pub required : ValidationResult (JsMap String) → ValidationResult ParsedTxtPairs
required (fail code) = fail code
required (ok pairs) =
    if is_missing (get "v" pairs)
      || is_missing (get "cfg" pairs)
      || is_missing (get "kid" pairs)
      || is_missing (get "ttl" pairs)
    then fail txt_missing_field
    else ok (record {
      v = or_else (get "v" pairs) "";
      cfg = or_else (get "cfg" pairs) "";
      kid = or_else (get "kid" pairs) "";
      ttl = or_else (get "ttl" pairs) "";
    })

-- What is no text is `none`.
unfoldable pub parse_dm_txt_payload : Option String → ValidationResult ParsedTxtPairs
parse_dm_txt_payload none = fail txt_invalid_type
parse_dm_txt_payload (some raw) =
    if trim raw === "" then fail txt_empty else required (parse_pairs (trim raw))

-- `[A-Za-z0-9_-]`
abbrev pub is_id_char : ℕ → Bool
is_id_char c =
    (leb b'A' c && leb c b'Z') || (leb b'a' c && leb c b'z') || is_digit c || c == b'_' || c == b'-'

-- CFG_TX_RE and KID_RE
unfoldable pub is_arweave_id : String → Bool
unfolding all_chars chars
is_arweave_id s = all_chars is_id_char s && leb 32 (chars s) && leb (chars s) 128

-- `/^\d+$/`
unfoldable pub is_number : String → Bool
unfolding all_chars
is_number s = not (s === "") && all_chars is_digit s

abbrev pub min_ttl_seconds : ℕ
min_ttl_seconds = 60

abbrev pub max_ttl_seconds : ℕ
max_ttl_seconds = 86400

unfoldable pub validate_dm_txt_envelope : ParsedTxtPairs → ValidationResult DmTxtEnvelope
validate_dm_txt_envelope parsed =
    let ttl = or_else (leading_digits none parsed.ttl) 0 in
    if not (parsed.v === "dm1")
    then fail txt_invalid_version
    else if not (is_arweave_id parsed.cfg)
    then fail txt_invalid_cfg
    else if not (is_arweave_id parsed.kid)
    then fail txt_invalid_kid
    else if not (is_number parsed.ttl)
    then fail txt_invalid_ttl
    else if ltb ttl min_ttl_seconds || ltb max_ttl_seconds ttl
    then fail txt_invalid_ttl
    else ok (record { cfg = parsed.cfg; kid = parsed.kid; ttl = ttl })

abbrev pub then_validate : ValidationResult ParsedTxtPairs → ValidationResult DmTxtEnvelope
then_validate (fail code) = fail code
then_validate (ok parsed) = validate_dm_txt_envelope parsed

unfoldable pub parse_and_validate_dm_txt_envelope : Option String → ValidationResult DmTxtEnvelope
parse_and_validate_dm_txt_envelope raw = then_validate (parse_dm_txt_payload raw)
