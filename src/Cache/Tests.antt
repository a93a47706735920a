-- ===== src/Cache/Tests.antt =====
-- Runs of src/cache.ts on small inputs.
use blackcat_darkmesh_gatewa.Cache.{
  Cache, CacheConfig, CacheEntry, CacheIntegrityMeta, ArrayBuffer, evict_lru, hit, miss, sweep,
  sweep_entries, fetch_entry, remove_key, touch_key, forget_subject, link, attach_key_to_subject,
  detach_key_from_subjects, evict_oldest_key,
}
use blackcat_darkmesh_gatewa.Cache.Admission.{
  SubjectOrOptions, a_subject, nothing, options, put, put_swept, make_room, store_entry,
  set_subject, put_admitted, keep_subject,
}
use blackcat_darkmesh_gatewa.Cache.Subjects.{owns, set_size}
use blackcat_darkmesh_gatewa.Cache.Reads.{fetch_entry_verified}
use blackcat_darkmesh_gatewa.Cache.Forget.{forget_subject_wipes}
use blackcat_darkmesh_gatewa.Cache.Puts.{IsPositive, IsValid, put-IsValid, put_stores, new_entry}
use blackcat_darkmesh_gatewa.Cache.Calls.{
  Call, a_put, a_forget, a_fetch, call, empty, run, run-IsValid, empty-IsValid, put_then_fetch,
  forgotten_is_missed,
}
use blackcat_darkmesh_gatewa.Base.{
  ◌+◌, ◌≤◌, ◌≡◌, refl, inr, Bool, true, false, none, some, List, [], ◌∷◌, ◌===◌, arith,
  if◌then◌else◌,
}
use blackcat_darkmesh_gatewa.JsMap.{get, set, delete, has, size}

abbrev small : CacheConfig
small = record {
  ttl_ms = 100;
  max_entry_bytes = 3;
  max_entries = 2;
  max_keys_per_subject = 2;
  admission_mode = evict_lru;
}

small-IsPositive : IsPositive small
small-IsPositive = omega arith

abbrev bytes : ArrayBuffer
bytes = 1 ∷ 2 ∷ []

abbrev script : List Call
script =
    a_put "k" bytes (a_subject "alice") 5
    ∷ a_put "l" bytes (a_subject "bob") 6
    ∷ a_fetch "k" false 7
    ∷ a_put "m" bytes nothing 8
    ∷ a_forget "alice"
    ∷ []

run-IsValid_example : IsValid small (run small script empty)
run-IsValid_example = run-IsValid small script small-IsPositive

accepted : (put small "k" bytes (a_subject "alice") 5 empty).1 ≡ true
unfolding put put_swept make_room put_admitted sweep sweep_entries get
accepted = refl

refused : (put small "k" (1 ∷ 2 ∷ 3 ∷ 4 ∷ []) nothing 5 empty).1 ≡ false
unfolding put put_swept make_room sweep sweep_entries get
refused = refl

put_stores_example :
    get "k" (put small "k" bytes (a_subject "alice") 5 empty).0.store
    ≡ some (new_entry small "k" bytes (a_subject "alice") 5 empty)
put_stores_example =
    put_stores small "k" bytes (a_subject "alice") 5 empty "k" small-IsPositive
      (empty-IsValid small) accepted

alice-named : ◌≡◌ {A = Bool} ("alice" === "") false
alice-named = refl

forgotten_is_missed_example :
    (fetch_entry "k" false 6
      (forget_subject "alice" (put small "k" bytes (a_subject "alice") 5 empty).0).0).1
    ≡ miss
forgotten_is_missed_example =
    forgotten_is_missed small "k" bytes "alice" 5 6 empty false small-IsPositive
      (empty-IsValid small) alice-named accepted

abbrev stored : Cache
stored = (put small "k" bytes (a_subject "alice") 5 empty).0

forget_subject_wipes_example :
    (get "k" (forget_subject "alice" stored).0.store
      ≡ (if owns "alice" (get "k" stored.key_subject) then none else get "k" stored.store))
    × ((forget_subject "alice" stored).1 ≡ set_size (get "alice" stored.subjects))
    × (size (forget_subject "alice" stored).0.store + (forget_subject "alice" stored).1
        ≡ size stored.store)
forget_subject_wipes_example =
    forget_subject_wipes 2 stored "alice" "k"
      (put-IsValid small "k" bytes (a_subject "alice") 5 empty small-IsPositive
        (empty-IsValid small)).coherent

abbrev meta : CacheIntegrityMeta
meta = record { verified = true; root = none; hash = none; verified_at = none }

abbrev signed : Cache
signed =
    (put small "k" bytes (options (record { subject = none; integrity = some meta })) 5 empty).0

signed_served : (fetch_entry "k" true 50 signed).1 ≡ hit bytes (some meta)
unfolding put put_swept make_room put_admitted store_entry set_subject keep_subject fetch_entry
    sweep sweep_entries get set delete
signed_served = refl

fetch_entry_verified_example :
    (entry : CacheEntry) × (m : CacheIntegrityMeta) × (get "k" signed.store ≡ some entry)
    × (entry.value ≡ bytes)
    × (entry.integrity ≡ some m)
    × (some meta ≡ some m)
    × (m.verified ≡ true)
    × (50 ≤ entry.expires_at)
fetch_entry_verified_example =
    fetch_entry_verified 2 "k" true 50 signed bytes (some meta) refl signed_served

abbrev with_meta : SubjectOrOptions
with_meta = options (record { subject = none; integrity = some meta })

accepted_with_meta : (put small "k" bytes with_meta 5 empty).1 ≡ true
unfolding put put_swept make_room put_admitted store_entry set_subject keep_subject sweep
    sweep_entries get set delete
accepted_with_meta = refl

put_then_fetch_example :
    (fetch_entry "k" true 105 (put small "k" bytes with_meta 5 empty).0).1 ≡ hit bytes (some meta)
put_then_fetch_example =
    put_then_fetch small "k" bytes with_meta true 5 105 empty small-IsPositive (empty-IsValid small)
      accepted_with_meta (omega arith) (inr (meta, refl, refl))

-- The read of "k" saves it: the third entry evicts "l".
least_recent :
    let c =
      run small
        (a_put "k" bytes (a_subject "alice") 5
          ∷ a_put "l" bytes (a_subject "bob") 6
          ∷ a_fetch "k" false 7
          ∷ a_put "m" bytes nothing 8
          ∷ [])
        empty in
    (has "k" c.store ≡ true)
    × (has "l" c.store ≡ false)
    × (has "m" c.store ≡ true)
    × (has "bob" c.subjects ≡ false)
unfolding run call put put_swept make_room put_admitted store_entry set_subject keep_subject
    attach_key_to_subject link detach_key_from_subjects evict_oldest_key remove_key touch_key
    fetch_entry sweep sweep_entries get set delete
least_recent = (refl, refl, refl, refl)
