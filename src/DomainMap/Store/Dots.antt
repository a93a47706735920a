-- ===== src/DomainMap/Store/Dots.antt =====
-- Hosts whose normal form is not normal again, as those with two dots at the end.
use Prim.Native.String.{◌++◌ as ◌+++◌}
use blackcat_darkmesh_gatewa.Json.{obj}
use blackcat_darkmesh_gatewa.DomainMap.{
  DomainMapEntry, DomainMapError, empty_entry, normalize_domain_host, create_empty_domain_map_entry,
}
use blackcat_darkmesh_gatewa.DomainMap.Store.{Stored, stored, domain_map_key, entry_fields}
use blackcat_darkmesh_gatewa.DomainMap.Store.Operations.{
  bind_some, get_domain_map_entry, parse_found, filled_raw, DomainStatusMetadataPatch, apply_patch,
  patched_error, parse_or_create, upsert_domain_status_metadata,
}
use blackcat_darkmesh_gatewa.JsMap.Laws.{get-set}
use blackcat_darkmesh_gatewa.Base.{
  ℕ, ◌≡◌, refl, ap, ◌∙◌, ◌≢◌, inl, inr, String, false, none, some, ◌===◌, eq_iff, eq_refl, Option,
  or_else, Bool-cases,
}
use blackcat_darkmesh_gatewa.JsMap.{JsMap, get, set}

domain_map_key-named :
    (host n : String)
    → normalize_domain_host host ≡ some n
    → domain_map_key host ≡ some ("domain:" +++ n)
unfolding domain_map_key
domain_map_key-named host n named = rw named refl

differ : (k j : String) → k ≢ j → (k === j) ≡ false
differ k j ne = elim (Bool-cases (k === j)) [ inl e ↦ absurd (ne ((eq_iff k j).0 e)) | inr e ↦ e ]

created :
    (n m : String) (now_ms : ℕ)
    → normalize_domain_host n ≡ some m
    → create_empty_domain_map_entry n now_ms ≡ some (empty_entry m now_ms)
unfolding create_empty_domain_map_entry
created n m now_ms twice = rw twice refl

patched_host :
    (patch : DomainStatusMetadataPatch) (now_ms : ℕ) (entry : DomainMapEntry)
    → (apply_patch patch now_ms entry).host ≡ entry.host
unfolding apply_patch
patched_host patch now_ms entry = of_error patch.last_error _
  where
    of_error :
        (e : Option (Option DomainMapError)) (entry : DomainMapEntry)
        → (patched_error e entry).host ≡ entry.host
    of_error none entry = refl
    of_error (some none) entry = refl
    of_error (some (some e)) entry = refl

-- Where normalising the host twice gives another key than normalising it once, an upsert into a store
-- without either key succeeds and leaves an entry, for the host normalised twice, under that key,
-- and a read of the same host finds none.
pub get-upsert_missed :
    (kv : JsMap Stored) (host n m : String) (patch : DomainStatusMetadataPatch) (clock : ℕ)
    → normalize_domain_host host ≡ some n
    → normalize_domain_host n ≡ some m
    → ("domain:" +++ m) ≢ ("domain:" +++ n)
    → get ("domain:" +++ n) kv ≡ none
    → get ("domain:" +++ m) kv ≡ none
    → (kv' : JsMap Stored) × (entry : DomainMapEntry) × (upsert_domain_status_metadata kv host patch
          clock
        ≡ some (kv', entry))
      × (entry.host ≡ m)
      × (get ("domain:" +++ m) kv' ≡ some (stored (obj (entry_fields entry))))
      × (get_domain_map_entry kv' host clock ≡ some none)
unfolding upsert_domain_status_metadata get_domain_map_entry
get-upsert_missed kv host n m patch clock once twice ne no_n no_m =
    let entry =
      apply_patch patch (or_else patch.now_ms clock) (empty_entry m (or_else patch.now_ms clock)) in
    let raw = stored (obj (entry_fields entry)) in
    (
      set ("domain:" +++ m) raw kv,
      entry,
      bind_some (normalize_domain_host host) n _ (some (set ("domain:" +++ m) raw kv, entry)) once (
          bind_some (domain_map_key n) ("domain:" +++ m) _
            (some (set ("domain:" +++ m) raw kv, entry)) (domain_map_key-named n m twice)
            (bind_some
              (parse_or_create (filled_raw (get ("domain:" +++ m) kv)) n clock
                (or_else patch.now_ms clock))
              (empty_entry m (or_else patch.now_ms clock)) _
              (some (set ("domain:" +++ m) raw kv, entry))
              (ap (λ o. parse_or_create (filled_raw o) n clock (or_else patch.now_ms clock)) no_m
                ∙ created n m (or_else patch.now_ms clock) twice)
              refl)),
      patched_host patch (or_else patch.now_ms clock) (empty_entry m (or_else patch.now_ms clock)),
      get-set ("domain:" +++ m) ("domain:" +++ m) raw kv ∙ rw (eq_refl ("domain:" +++ m)) refl,
      bind_some (domain_map_key host) ("domain:" +++ n) _ (some none)
          (domain_map_key-named host n once)
          (ap (λ o. parse_found (filled_raw o) host clock) (missed raw)),
    )
  where
    missed : (raw : Stored) → get ("domain:" +++ n) (set ("domain:" +++ m) raw kv) ≡ none
    missed raw =
        get-set ("domain:" +++ m) ("domain:" +++ n) raw kv
        ∙ (rw (differ ("domain:" +++ m) ("domain:" +++ n) ne) no_n)
