-- ===== src/SiteConfig/Accepted.antt =====
-- Accepted configs are well formed.
use blackcat_darkmesh_gatewa.Json.{
  Json, null, undefined, bool, num, text, arr, obj, non_plain, Fields,
}
use blackcat_darkmesh_gatewa.RouteAssertions.Outcome.{Platform, field_of}
use blackcat_darkmesh_gatewa.RouteAssertions.Domains.Fixed.{HostIsStable}
use blackcat_darkmesh_gatewa.SiteConfig.{ok, found_then, ok_inj, DmConfigV1}
use blackcat_darkmesh_gatewa.SiteConfig.Validator.{
  read_required_string, read_required_integer, read_version, read_domain, read_process,
  read_entry_path, read_valid_to, read_sig_alg, read_sig, read_kid, validate_fields,
  validate_dm_config_json,
}
use blackcat_darkmesh_gatewa.SiteConfig.Formed.{
  IsFormed, read_required_string-IsField, read_process-IsTested, read_entry_path-IsTested,
  read_sig_alg-IsTested, read_sig-IsTested, read_domain-IsCanonical, read_required_integer-positive,
  read_valid_to-later, read_kid-IsKid,
}
use blackcat_darkmesh_gatewa.Base.{◌≡◌}

module _ (p : Platform) (stable : HostIsStable p) (c : DmConfigV1) where
  validate_fields-IsFormed : (input : Fields) → validate_fields p input ≡ ok c → IsFormed p c
  unfolding validate_fields
  validate_fields-IsFormed input h =
      found_then (read_version (field_of "v" input)) _ c h λ version _ h.
        found_then (read_domain p (field_of "domain" input)) _ c h λ domain d h.
          found_then (read_process "siteProcess" (field_of "siteProcess" input)) _ c h λ site s h.
            found_then (read_process "writeProcess" (field_of "writeProcess" input)) _ c h
              λ write w h.
                found_then (read_entry_path (field_of "entryPath" input)) _ c h λ path e h.
                  found_then (read_required_integer "validFrom" (field_of "validFrom" input)) _ c h
                    λ start f h.
                      found_then (read_valid_to start (field_of "validTo" input)) _ c h λ end t h.
                        found_then (read_sig_alg (field_of "sigAlg" input)) _ c h λ alg a h.
                          found_then (read_sig (field_of "sig" input)) _ c h λ sig g h.
                            found_then (read_required_string "owner" (field_of "owner" input)) _ c h
                              λ owner o h.
                                found_then (read_required_string "nonce" (field_of "nonce" input)) _
                                  c h
                                  λ nonce n h.
                                    found_then (read_kid (field_of "kid" input)) _ c h λ kid k h.
                                      rw (← ok_inj _ c h) (record {
                                        domain =
                                            read_domain-IsCanonical p stable
                                              (field_of "domain" input) domain d;
                                        site_process =
                                            read_process-IsTested "siteProcess"
                                              (field_of "siteProcess" input) site s;
                                        write_process =
                                            read_process-IsTested "writeProcess"
                                              (field_of "writeProcess" input) write w;
                                        entry_path =
                                            read_entry_path-IsTested (field_of "entryPath" input)
                                              path e;
                                        positive =
                                            read_required_integer-positive "validFrom"
                                              (field_of "validFrom" input) start f;
                                        lasting =
                                            read_valid_to-later start (field_of "validTo" input) end
                                              t;
                                        sig_alg =
                                            read_sig_alg-IsTested (field_of "sigAlg" input) alg a;
                                        sig = read_sig-IsTested (field_of "sig" input) sig g;
                                        owner =
                                            read_required_string-IsField "owner"
                                              (field_of "owner" input) owner o;
                                        nonce =
                                            read_required_string-IsField "nonce"
                                              (field_of "nonce" input) nonce n;
                                        kid = read_kid-IsKid (field_of "kid" input) kid k;
                                      })

-- Where the URL parser keeps the hosts of http URLs, every config that the validator accepts
-- has a canonical host of at most 253 characters, process identifiers, a path, a signature and an
-- algorithm of their forms, texts that are filled and trimmed, and a time window that is not empty.
pub validate_dm_config_json-IsFormed :
    (p : Platform)
    → HostIsStable p
    → (input : Json) (c : DmConfigV1) → validate_dm_config_json p input ≡ ok c
    → IsFormed p c
unfolding validate_dm_config_json
validate_dm_config_json-IsFormed p stable (obj input) c h =
    validate_fields-IsFormed p stable c input h
validate_dm_config_json-IsFormed p stable (non_plain input) c h =
    validate_fields-IsFormed p stable c input h
validate_dm_config_json-IsFormed p stable null c h = cc
validate_dm_config_json-IsFormed p stable undefined c h = cc
validate_dm_config_json-IsFormed p stable (bool b) c h = cc
validate_dm_config_json-IsFormed p stable (num n) c h = cc
validate_dm_config_json-IsFormed p stable (text s) c h = cc
validate_dm_config_json-IsFormed p stable (arr items) c h = cc
