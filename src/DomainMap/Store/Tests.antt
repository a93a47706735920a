-- ===== src/DomainMap/Store/Tests.antt =====
-- The store of domain records by example.
use blackcat_darkmesh_gatewa.Text.{trim, to_lower, drop_last}
use blackcat_darkmesh_gatewa.Json.{Json, num, text, arr, obj, nil, end, field, whole, negative}
use blackcat_darkmesh_gatewa.DomainMap.{
  DomainMapStatus, DomainMapEntry, empty_entry, normalize_domain_host,
}
use blackcat_darkmesh_gatewa.DomainMap.Store.{
  Stored, empty_text, no_json, stored, entry_fields, parse_domain_map_entry,
}
use blackcat_darkmesh_gatewa.DomainMap.Store.Operations.{
  get_domain_map_entry, put_domain_map_entry, delete_domain_map_entry, list_domain_map_entries,
  upsert_domain_status_metadata, DomainStatusMetadataPatch,
}
use blackcat_darkmesh_gatewa.DomainMap.Store.RoundTrip.{IsStorable, get-put}
use blackcat_darkmesh_gatewa.DomainMap.Store.Corrupted.{no_record, Flawed, get-flaw}
use blackcat_darkmesh_gatewa.DomainMap.Store.Dots.{get-upsert_missed}
use blackcat_darkmesh_gatewa.Base.{◌≡◌, refl, none, some, [], ◌∷◌}
use blackcat_darkmesh_gatewa.JsMap.{JsMap, get}

abbrev entry : DomainMapEntry
entry = record (empty_entry "shop.org" 500) {
  status = DomainMapStatus.stale;
  resolved_target = some "target";
  verified_at = some 100;
  last_error = some (record { code = "timeout"; message = "late"; at = 400 });
  last_error_at = some 400;
  last_error_code = some "timeout";
  refresh_attempts = 2;
}

-- A record of version 0: the success time is that of the verification, the error's fields are filled in.
abbrev old_record : Json
old_record = obj (
    field "host" (text " Shop.org.") (
      field "status" (text "valid") (
        field "verifiedAt" (num (whole 70)) (
          field "lastError" (obj (field "code" (text "x") end))
            (field "refreshAttempts" (num (negative 0)) end)))))

migrated :
    parse_domain_map_entry (stored old_record) none 900
    ≡ some (record (empty_entry "shop.org" 900) {
      status = DomainMapStatus.valid;
      verified_at = some 70;
      last_error = some (record { code = "x"; message = "unknown_error"; at = 900 });
      last_error_at = some 900;
      last_error_code = some "x";
      last_success_at = some 70;
    })
unfolding parse_domain_map_entry drop_last to_lower trim
migrated = refl

abbrev blank_patch : DomainStatusMetadataPatch
blank_patch = record {
  status = some none;
  verified_at = none;
  expires_at = none;
  hb_verified_at = none;
  hard_expires_at = none;
  last_error = none;
  last_success_at = none;
  last_error_at = none;
  last_error_code = none;
  refresh_attempts = some (some 3);
  now_ms = some 800;
}

abbrev patched : DomainMapEntry
patched = record entry { status = DomainMapStatus.invalid; refresh_attempts = 3; updated_at = 800 }

abbrev kv : JsMap Stored
kv = ("domain:shop.org", stored (obj (entry_fields entry))) ∷ []

upserted :
    upsert_domain_status_metadata kv "SHOP.org" blank_patch 900
    ≡ some (("domain:shop.org", stored (obj (entry_fields patched))) ∷ [], patched)
unfolding upsert_domain_status_metadata drop_last to_lower trim
upserted = refl

listed :
    list_domain_map_entries (("domain:z", empty_text) ∷ ("other", no_json) ∷ kv) none 900
    ≡ some (entry ∷ [])
unfolding list_domain_map_entries entry_fields drop_last to_lower trim
listed = refl

deleted : delete_domain_map_entry kv "shop.org." ≡ some []
unfolding delete_domain_map_entry drop_last to_lower trim
deleted = refl

entry-IsStorable : IsStorable entry
unfolding normalize_domain_host trim to_lower drop_last
entry-IsStorable = record { current = refl; named = refl; dated = tt }

get-put_example :
    (kv' : JsMap Stored) × (put_domain_map_entry [] entry ≡ some kv')
    × (get_domain_map_entry kv' "shop.org" 900 ≡ some (some entry))
get-put_example = get-put [] entry 900 entry-IsStorable

get-flaw_example :
    (found : DomainMapEntry) × (get_domain_map_entry
        (("domain:shop.org", stored (arr nil)) ∷ [])
        "Shop.org"
        900
      ≡ some (some found))
    × Flawed no_record 900 "shop.org" found
unfolding normalize_domain_host trim to_lower drop_last get
get-flaw_example =
    get-flaw (("domain:shop.org", stored (arr nil)) ∷ []) "Shop.org" "shop.org" (stored (arr nil))
      no_record 900 refl refl refl

get-upsert_missed_example :
    (kv' : JsMap Stored) × (found : DomainMapEntry) × (upsert_domain_status_metadata [] "shop.org.."
        blank_patch 900
      ≡ some (kv', found))
    × (found.host ≡ "shop.org")
    × (get "domain:shop.org" kv' ≡ some (stored (obj (entry_fields found))))
    × (get_domain_map_entry kv' "shop.org.." 900 ≡ some none)
unfolding normalize_domain_host trim to_lower drop_last get
get-upsert_missed_example =
    get-upsert_missed [] "shop.org.." "shop.org." "shop.org" blank_patch 900 refl refl (λ e. cc)
      refl refl
