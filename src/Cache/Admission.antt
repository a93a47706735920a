-- ===== src/Cache/Admission.antt =====
-- `put` of src/cache.ts, with its admission limits. The clock is read for the sweep and for the expiry
-- time within one call that waits for nothing, so that `now` stands for both.
use blackcat_darkmesh_gatewa.Metrics.{inc}
use blackcat_darkmesh_gatewa.Cache.{
  Cache, CacheConfig, CacheEntry, PutOptions, ArrayBuffer, KeySet, AdmissionMode, evict_lru, note,
  note_size, sweep, evict_oldest_key, link, attach_key_to_subject,
}
use blackcat_darkmesh_gatewa.Base.{
  ℕ, ◌+◌, String, Bool, true, false, ◌&&◌, ◌||◌, not, Option, none, some, ◌===◌, ltb, leb,
  if◌then◌else◌, length,
}
use blackcat_darkmesh_gatewa.JsMap.{get, set, delete, has, size}

-- The third argument of `put`.
pub data SubjectOrOptions : Type 0 where
  nothing : SubjectOrOptions
  a_subject : String → SubjectOrOptions
  options : PutOptions → SubjectOrOptions

abbrev pub to_options : SubjectOrOptions → PutOptions
to_options nothing = record { subject = none; integrity = none }
to_options (a_subject s) = record { subject = some s; integrity = none }
to_options (options o) = o

-- A subject that is truthy.
abbrev pub truthy : Option String → Option String
truthy none = none
truthy (some s) = if s === "" then none else some s

unfoldable pub reject_put : String → Cache → Cache × Bool
reject_put reason c = (note (inc reason) (note (inc "gateway_cache_store_reject") c), false)

-- The previous subject is kept if only the value is refreshed.
unfoldable pub keep_subject : String → Option String → Cache → Cache
keep_subject key none c = c
keep_subject key (some subject) c = if subject === "" then c else link key subject c

unfoldable pub set_subject : String → Option String → Bool → Cache → Cache
set_subject key (some subject) existed c = attach_key_to_subject key subject c
set_subject key none existed c = if existed then keep_subject key (get key c.key_subject) c else c

unfoldable pub store_entry : String → CacheEntry → Option String → Cache → Cache
store_entry key entry subject c =
    set_subject key subject (has key c.store)
      (record c { store = set key entry (delete key c.store) })

unfoldable pub put_admitted : String → CacheEntry → Option String → Cache × Bool → Cache × Bool
put_admitted key entry subject (c, true) = (note_size (store_entry key entry subject c), true)
put_admitted key entry subject (c, false) = (c, false)

module _ (cfg : CacheConfig) where
  unfoldable pub admits : String → Option KeySet → Bool
  admits key none = true
  admits key (some keys) = has key keys || ltb (size keys) cfg.max_keys_per_subject

  unfoldable pub can_admit_subject_key : String → String → Cache → Bool
  unfolding admits
  can_admit_subject_key key subject c = admits key (get subject c.subjects)

  unfoldable pub can_admit : String → Option String → Cache → Bool
  unfolding can_admit_subject_key
  can_admit key none c = true
  can_admit key (some subject) c = can_admit_subject_key key subject c

  unfoldable pub make_room_by : AdmissionMode → Cache → Cache × Bool
  unfolding reject_put
  make_room_by evict_lru c =
      let (c', evicted) = evict_oldest_key c in
      if evicted then (c', true) else reject_put "gateway_cache_store_reject_capacity" c'
  make_room_by AdmissionMode.reject c = reject_put "gateway_cache_store_reject_capacity" c

  -- Room for one more entry: the second part says whether the entry may be stored.
  unfoldable pub make_room : String → Cache → Cache × Bool
  unfolding make_room_by
  make_room key c =
      if not (has key c.store) && leb cfg.max_entries (size c.store)
      then make_room_by cfg.admission_mode c
      else (c, true)

  unfoldable pub put_swept : String → CacheEntry → Option String → Cache → Cache × Bool
  unfolding can_admit reject_put put_admitted
  put_swept key entry subject c =
      if ltb cfg.max_entry_bytes (length entry.value)
      then reject_put "gateway_cache_store_reject_size" c
      else if not (can_admit key subject c)
      then reject_put "gateway_cache_store_reject_subject" c
      else put_admitted key entry subject (make_room key c)

  unfoldable pub put : String → ArrayBuffer → SubjectOrOptions → ℕ → Cache → Cache × Bool
  put key value args now c =
      put_swept key
        (record {
          value = value;
          expires_at = now + cfg.ttl_ms;
          integrity = (to_options args).integrity;
        })
        (truthy (to_options args).subject) (sweep now c)
