-- ===== src/SiteConfig/Fixed.antt =====
-- A config that the validator accepted is accepted again, as it is.
use blackcat_darkmesh_gatewa.Text.{starts_with}
use blackcat_darkmesh_gatewa.Text.Spaces.{trim_id}
use blackcat_darkmesh_gatewa.Json.{Json, text, obj, num, whole, Fields}
use blackcat_darkmesh_gatewa.RouteAssertions.Outcome.{Platform, field_of}
use blackcat_darkmesh_gatewa.RouteAssertions.Domains.Fixed.{HostIsStable, dotted-filled}
use blackcat_darkmesh_gatewa.RouteAssertions.Domains.Hosts.{all_labels-chars, host_chars-space}
use blackcat_darkmesh_gatewa.SiteConfig.{config_invalid_field, ok, ◌>>=◌, found_ok, DmConfigV1}
use blackcat_darkmesh_gatewa.SiteConfig.Validator.{
  is_process_id, is_sig, read_required_string, read_required_integer, accept, read_version,
  read_domain, read_process, read_entry_path, read_valid_to, is_sig_alg, read_sig_alg, read_sig,
  read_kid, validate_fields, validate_dm_config_json, kid_json, config_fields,
}
use blackcat_darkmesh_gatewa.SiteConfig.Domain.{IsCanonical, canonicalize_domain_fixed}
use blackcat_darkmesh_gatewa.SiteConfig.Formed.{IsField, IsTested, IsKid, IsFormed}
use blackcat_darkmesh_gatewa.SiteConfig.Accepted.{validate_dm_config_json-IsFormed}
use blackcat_darkmesh_gatewa.Base.{
  ℕ, zero, suc, ◌≤◌, ◌<◌, ◌≡◌, refl, String, Bool, false, Option, none, some, arith, leb,
}

field_fixed : (name s : String) → IsField s → read_required_string name (text s) ≡ ok s
unfolding read_required_string
field_fixed name s i = rw (i.trimmed, i.filled) refl

tested_fixed :
    (name : String) (test : String → Bool) (s : String)
    → IsTested test s
    → (read_required_string name (text s) >>= accept config_invalid_field name test) ≡ ok s
tested_fixed name test s i = rw (field_fixed name s i.form, i.passes) refl

process_fixed : (name s : String) → IsTested is_process_id s → read_process name (text s) ≡ ok s
unfolding read_process
process_fixed name s i = tested_fixed name is_process_id s i

path_fixed : (s : String) → IsTested (starts_with "/") s → read_entry_path (text s) ≡ ok s
unfolding read_entry_path
path_fixed s i = tested_fixed "entryPath" (starts_with "/") s i

sig_alg_fixed : (s : String) → IsTested is_sig_alg s → read_sig_alg (text s) ≡ ok s
unfolding read_sig_alg
sig_alg_fixed s i = tested_fixed "sigAlg" is_sig_alg s i

sig_fixed : (s : String) → IsTested is_sig s → read_sig (text s) ≡ ok s
unfolding read_sig
sig_fixed s i = tested_fixed "sig" is_sig s i

version_fixed : read_version (text "dm1") ≡ ok "dm1"
unfolding read_version
version_fixed = refl

-- A canonical host is filled and has no white space.
canonical-IsField : (p : Platform) (s : String) → IsCanonical p s → IsField s
canonical-IsField p s i = record {
  trimmed = trim_id s (host_chars-space s (all_labels-chars s i.labelled.labelled));
  filled = dotted-filled s i.labelled.dotted;
}

domain_fixed : (p : Platform) (s : String) → IsCanonical p s → read_domain p (text s) ≡ ok s
unfolding read_domain
domain_fixed p s i =
    rw (field_fixed "domain" s (canonical-IsField p s i)) (canonicalize_domain_fixed p s i)

integer_fixed : (name : String) (n : ℕ) → 1 ≤ n → read_required_integer name (num (whole n)) ≡ ok n
unfolding read_required_integer
integer_fixed name zero h = absurd (omega arith)
integer_fixed name (suc n) h = refl

not_before : (start n : ℕ) → start < n → leb n start ≡ false
not_before start n h = ground arith

valid_to_fixed : (start n : ℕ) → start < n → read_valid_to start (num (whole n)) ≡ ok n
unfolding read_valid_to
valid_to_fixed start n h = rw (integer_fixed "validTo" n (omega arith), not_before start n h) refl

kid_fixed : (o : Option String) → IsKid o → read_kid (kid_json o) ≡ ok o
unfolding read_kid
kid_fixed none i = refl
kid_fixed (some s) i = rw (i.trimmed, i.filled) refl

-- The reads that make a config, one after the other.
record Reads (p : Platform) (input : Fields) (c : DmConfigV1) : Type 0 where
  version : read_version (field_of "v" input) ≡ ok "dm1"
  domain : read_domain p (field_of "domain" input) ≡ ok c.domain
  site : read_process "siteProcess" (field_of "siteProcess" input) ≡ ok c.site_process
  write : read_process "writeProcess" (field_of "writeProcess" input) ≡ ok c.write_process
  path : read_entry_path (field_of "entryPath" input) ≡ ok c.entry_path
  start : read_required_integer "validFrom" (field_of "validFrom" input) ≡ ok c.valid_from
  stop : read_valid_to c.valid_from (field_of "validTo" input) ≡ ok c.valid_to
  alg : read_sig_alg (field_of "sigAlg" input) ≡ ok c.sig_alg
  sig : read_sig (field_of "sig" input) ≡ ok c.sig
  owner : read_required_string "owner" (field_of "owner" input) ≡ ok c.owner
  nonce : read_required_string "nonce" (field_of "nonce" input) ≡ ok c.nonce
  kid : read_kid (field_of "kid" input) ≡ ok c.kid

validate_fields-Reads :
    (p : Platform) (input : Fields) (c : DmConfigV1)
    → Reads p input c
    → validate_fields p input ≡ ok c
unfolding validate_fields
validate_fields-Reads p input c r =
    found_ok (read_version (field_of "v" input)) "dm1" _ _ r.version (
      found_ok (read_domain p (field_of "domain" input)) c.domain _ _ r.domain (
        found_ok (read_process "siteProcess" (field_of "siteProcess" input)) c.site_process _ _
          r.site
          (found_ok (read_process "writeProcess" (field_of "writeProcess" input)) c.write_process _
            _ r.write
            (found_ok (read_entry_path (field_of "entryPath" input)) c.entry_path _ _ r.path (
              found_ok (read_required_integer "validFrom" (field_of "validFrom" input)) c.valid_from
                _ _ r.start
                (found_ok (read_valid_to c.valid_from (field_of "validTo" input)) c.valid_to _ _
                  r.stop
                  (found_ok (read_sig_alg (field_of "sigAlg" input)) c.sig_alg _ _ r.alg (
                    found_ok (read_sig (field_of "sig" input)) c.sig _ _ r.sig (
                      found_ok (read_required_string "owner" (field_of "owner" input)) c.owner _ _
                        r.owner
                        (found_ok (read_required_string "nonce" (field_of "nonce" input)) c.nonce _
                          _ r.nonce
                          (found_ok (read_kid (field_of "kid" input)) c.kid _ _ r.kid
                            refl)))))))))))

Reads-config_fields : (p : Platform) (c : DmConfigV1) → IsFormed p c → Reads p (config_fields c) c
unfolding config_fields field_of
Reads-config_fields p c i = record {
  version = version_fixed;
  domain = domain_fixed p c.domain i.domain;
  site = process_fixed "siteProcess" c.site_process i.site_process;
  write = process_fixed "writeProcess" c.write_process i.write_process;
  path = path_fixed c.entry_path i.entry_path;
  start = integer_fixed "validFrom" c.valid_from i.positive;
  stop = valid_to_fixed c.valid_from c.valid_to i.lasting;
  alg = sig_alg_fixed c.sig_alg i.sig_alg;
  sig = sig_fixed c.sig i.sig;
  owner = field_fixed "owner" c.owner i.owner;
  nonce = field_fixed "nonce" c.nonce i.nonce;
  kid = kid_fixed c.kid i.kid;
}

-- Where the URL parser keeps the hosts of http URLs, the config that the validator answers for
-- an input passes it again, as an object of its own fields, and is answered unchanged.
pub validate_dm_config_json-config_fields :
    (p : Platform)
    → HostIsStable p
    → (input : Json) (c : DmConfigV1) → validate_dm_config_json p input ≡ ok c
    → validate_dm_config_json p (obj (config_fields c)) ≡ ok c
unfolding validate_dm_config_json
validate_dm_config_json-config_fields p stable input c h =
    validate_fields-Reads p (config_fields c) c
      (Reads-config_fields p c (validate_dm_config_json-IsFormed p stable input c h))
