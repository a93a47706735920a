-- ===== src/DomainMap/Store/RoundTrip.antt =====
-- An entry that is put is read back as it is.
use Prim.Native.String.{◌++◌ as ◌+++◌}
use blackcat_darkmesh_gatewa.Json.{num, text, obj, whole}
use blackcat_darkmesh_gatewa.DomainMap.{
  DomainMapStatus, DomainMapError, DomainMapEntry, empty_entry, normalize_domain_host,
  create_empty_domain_map_entry,
}
use blackcat_darkmesh_gatewa.DomainMap.Store.{
  Stored, stored, domain_map_key, member, as_nullable_string, as_nullable_number, as_status,
  status_text, text_or_null, number_or_null, error_or_null, safe_normalize_domain_host,
  parse_domain_map_error, or_value, error_at, error_code, read_record, fill_error,
  migrate_persisted_record, parse_domain_map_entry, parse_version, version_of, entry_fields,
}
use blackcat_darkmesh_gatewa.DomainMap.Store.Operations.{get_domain_map_entry, put_domain_map_entry}
use blackcat_darkmesh_gatewa.JsMap.Laws.{get-set}
use blackcat_darkmesh_gatewa.Base.{ℕ, ◌≡◌, refl, sym, ap, ◌∙◌, String, Option, none, some, eq_refl}
use blackcat_darkmesh_gatewa.JsMap.{JsMap, set}

-- What is known of the last error has its time and its code.
abbrev IsDated : Option DomainMapError → Option ℕ → Option String → Type 0
IsDated none at code = Unit {0}
IsDated (some e) none code = ⊥
IsDated (some e) (some at) none = ⊥
IsDated (some e) (some at) (some code) = Unit {0}

pub record IsStorable (entry : DomainMapEntry) : Type 0 where
  pub current : entry.schema_version ≡ 2
  pub named : normalize_domain_host entry.host ≡ some entry.host
  pub dated : IsDated entry.last_error entry.last_error_at entry.last_error_code

as_nullable_string-text_or_null : (o : Option String) → as_nullable_string (text_or_null o) ≡ o
as_nullable_string-text_or_null none = refl
as_nullable_string-text_or_null (some s) = refl

as_nullable_number-number_or_null : (o : Option ℕ) → as_nullable_number (number_or_null o) ≡ o
as_nullable_number-number_or_null none = refl
as_nullable_number-number_or_null (some n) = refl

as_status-status_text : (s : DomainMapStatus) → as_status (text (status_text s)) ≡ s
as_status-status_text DomainMapStatus.valid = refl
as_status-status_text DomainMapStatus.stale = refl
as_status-status_text DomainMapStatus.invalid = refl

parse_domain_map_error-error_or_null :
    (o : Option DomainMapError) (now_ms : ℕ) → parse_domain_map_error (error_or_null o) now_ms ≡ o
unfolding parse_domain_map_error
parse_domain_map_error-error_or_null none now_ms = refl
parse_domain_map_error-error_or_null (some e) now_ms = refl

filled_at :
    (e : Option DomainMapError) (at : Option ℕ) (code : Option String)
    → IsDated e at code
    → (or_value at (error_at e) ≡ at) × (or_value code (error_code e) ≡ code)
filled_at none none none d = (refl, refl)
filled_at none none (some c) d = (refl, refl)
filled_at none (some t) none d = (refl, refl)
filled_at none (some t) (some c) d = (refl, refl)
filled_at (some e) none code d = elim d [ ]
filled_at (some e) (some t) none d = elim d [ ]
filled_at (some e) (some t) (some c) d = (refl, refl)

module _ (entry : DomainMapEntry) where
  read_record-entry_fields :
      (now_ms : ℕ)
      → entry.schema_version ≡ 2
      → read_record (entry_fields entry) now_ms (empty_entry entry.host now_ms) ≡ entry
  unfolding read_record entry_fields
  read_record-entry_fields now_ms current =
      rw
        (
          as_status-status_text entry.status,
          as_nullable_string-text_or_null entry.cfg_tx,
          as_nullable_string-text_or_null entry.resolved_target,
          as_nullable_string-text_or_null entry.write_process,
          as_nullable_string-text_or_null entry.config_hash,
          as_nullable_number-number_or_null entry.verified_at,
          as_nullable_number-number_or_null entry.expires_at,
          as_nullable_number-number_or_null entry.hb_verified_at,
          as_nullable_number-number_or_null entry.hard_expires_at,
          parse_domain_map_error-error_or_null entry.last_error now_ms,
          as_nullable_number-number_or_null entry.last_success_at,
          as_nullable_number-number_or_null entry.last_error_at,
          as_nullable_string-text_or_null entry.last_error_code,
        )
        (ap (λ (n : ℕ). record entry { schema_version = n }) (sym current))

  fill_error_dated :
      IsDated entry.last_error entry.last_error_at entry.last_error_code → fill_error entry ≡ entry
  fill_error_dated d =
      let (at, code) = filled_at entry.last_error entry.last_error_at entry.last_error_code d in
      rw (at, code) refl

  create_empty-own :
      (now_ms : ℕ)
      → normalize_domain_host entry.host ≡ some entry.host
      → create_empty_domain_map_entry entry.host now_ms ≡ some (empty_entry entry.host now_ms)
  unfolding create_empty_domain_map_entry
  create_empty-own now_ms named = rw named refl

  safe_normalize-own :
      (hint : Option String)
      → normalize_domain_host entry.host ≡ some entry.host
      → safe_normalize_domain_host (text entry.host) hint ≡ entry.host
  unfolding safe_normalize_domain_host
  safe_normalize-own hint named = rw named refl

  members :
      (member "schemaVersion" (entry_fields entry) ≡ num (whole entry.schema_version))
      × (member "host" (entry_fields entry) ≡ text entry.host)
  unfolding member entry_fields
  members = (refl, refl)

  migrate-entry_fields :
      IsStorable entry
      → (hint : Option String) (now_ms : ℕ)
      → migrate_persisted_record (entry_fields entry) 2 hint now_ms ≡ some entry
  unfolding migrate_persisted_record
  migrate-entry_fields s hint now_ms =
      rw (members.1, safe_normalize-own hint s.named, create_empty-own now_ms s.named)
        (ap (λ (e : DomainMapEntry). some e)
          (ap fill_error (read_record-entry_fields now_ms s.current) ∙ fill_error_dated s.dated))

  parse_domain_map_entry-entry_fields :
      IsStorable entry
      → (hint : Option String) (now_ms : ℕ)
      → parse_domain_map_entry (stored (obj (entry_fields entry))) hint now_ms ≡ some entry
  unfolding parse_domain_map_entry
  parse_domain_map_entry-entry_fields s hint now_ms =
      ap (λ x. parse_version (version_of x) (entry_fields entry) hint now_ms) members.0
      ∙ (ap (λ n. parse_version (some n) (entry_fields entry) hint now_ms) s.current
          ∙ migrate-entry_fields s hint now_ms)

  domain_map_key-own :
      IsStorable entry → domain_map_key entry.host ≡ some ("domain:" +++ entry.host)
  unfolding domain_map_key
  domain_map_key-own s = rw s.named refl

-- An entry of the current version whose host is in normal form, and whose last error has its time
-- and its code, can be put, and a read of its host then answers that entry with every field as it was.
pub get-put :
    (kv : JsMap Stored) (entry : DomainMapEntry) (clock : ℕ)
    → IsStorable entry
    → (kv' : JsMap Stored) × (put_domain_map_entry kv entry ≡ some kv')
      × (get_domain_map_entry kv' entry.host clock ≡ some (some entry))
unfolding put_domain_map_entry get_domain_map_entry
get-put kv entry clock s =
    let key = "domain:" +++ entry.host in
    let raw = stored (obj (entry_fields entry)) in
    (
      set key raw kv,
      rw (domain_map_key-own entry s) refl,
      rw
          (
            domain_map_key-own entry s,
            get-set key key raw kv,
            eq_refl key,
            parse_domain_map_entry-entry_fields entry s (some entry.host) clock,
          )
          refl,
    )
