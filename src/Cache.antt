-- ===== src/Cache.antt =====
-- src/cache.ts: the cache of encrypted envelopes, with its subjects. `Date.now()` is the argument
-- `now`, in milliseconds; the constants read from the environment are a `CacheConfig`. A set of
-- keys is a map to the unit type. The empty string is falsy, as in the source.
pub mod Admission
pub mod Subjects
pub mod Linking
pub mod Coherence
pub mod Forget
pub mod Reads
pub mod Storing
pub mod Rooms
pub mod Puts
pub mod Calls
mod Tests
use blackcat_darkmesh_gatewa.Metrics.{Metrics, inc, inc_by, gauge}
use blackcat_darkmesh_gatewa.Base.{
  ℕ, zero, suc, ◌+◌, ◌-◌, ◌*◌, ◌/◌, ◌%◌, ◌^◌, ◌≤◌, ◌<◌, min, max, ◌≡◌, refl, sym, ap, ◌∙◌, subst,
  ◌≢◌, ◌↔◌, ◌⊎◌, inl, inr, String, Bool, true, false, ◌&&◌, ◌||◌, not, Option, none, some, List, [],
  ◌∷◌, ◌++◌, map, ◌===◌, eq_iff, eq_refl, arith, ltb, leb, ◌==◌, if◌then◌else◌, is_some, or_else,
  Bool-cases, Option-cases, length, length-append, All, All-append, Any, leb→le, le→leb, ltb→lt,
  lt→ltb,
}
use blackcat_darkmesh_gatewa.JsMap.{
  JsMap, get, set, delete, has, size, first_key, delete_where, delete_oldest_while, IsUnique,
}

pub record CacheIntegrityMeta : Type 0 where
  pub verified : Bool
  pub root : Option String
  pub hash : Option String
  pub verified_at : Option ℕ

-- An `ArrayBuffer` is the list of its bytes.
abbrev pub ArrayBuffer : Type 0
ArrayBuffer = List ℕ

pub record CacheEntry : Type 0 where
  pub value : ArrayBuffer
  pub expires_at : ℕ
  pub integrity : Option CacheIntegrityMeta

pub record PutOptions : Type 0 where
  pub subject : Option String
  pub integrity : Option CacheIntegrityMeta

pub data AdmissionMode : Type 0 where
  reject evict_lru : AdmissionMode

pub record CacheConfig : Type 0 where
  pub ttl_ms : ℕ
  pub max_entry_bytes : ℕ
  pub max_entries : ℕ
  pub max_keys_per_subject : ℕ
  pub admission_mode : AdmissionMode

abbrev pub KeySet : Type 0
KeySet = JsMap (Unit {0})

pub record Cache : Type 0 where
  pub store : JsMap CacheEntry
  pub subjects : JsMap KeySet
  pub key_subject : JsMap String
  pub metrics : Metrics

abbrev pub note : (Metrics → Metrics) → Cache → Cache
note f c = record c { metrics = f c.metrics }

abbrev pub note_size : Cache → Cache
note_size c = note (gauge "gateway_cache_size" (size c.store)) c

-- The set of the subject without the key; an empty set is dropped.
unfoldable pub detach_from : String → String → Option KeySet → JsMap KeySet → JsMap KeySet
detach_from key subject none subjects = subjects
detach_from key subject (some keys) subjects =
    if size (delete key keys) == 0
    then delete subject subjects
    else set subject (delete key keys) subjects

unfoldable pub detach_owned : String → Option String → Cache → Cache
unfolding detach_from
detach_owned key none c = c
detach_owned key (some subject) c = if subject === "" then c else record c {
  subjects = detach_from key subject (get subject c.subjects) c.subjects;
  key_subject = delete key c.key_subject;
}

unfoldable pub detach_key_from_subjects : String → Cache → Cache
unfolding detach_owned
detach_key_from_subjects key c = detach_owned key (get key c.key_subject) c

-- `const set = subjects.get(subject) || new Set(); set.add(key); subjects.set(subject, set);
-- keySubject.set(key, subject)`, which stands in two places of the source.
unfoldable pub link : String → String → Cache → Cache
link key subject c = record c {
  subjects = set subject (set key tt (or_else (get subject c.subjects) [])) c.subjects;
  key_subject = set key subject c.key_subject;
}

unfoldable pub attach_key_to_subject : String → String → Cache → Cache
attach_key_to_subject key subject c = link key subject (detach_key_from_subjects key c)

unfoldable pub touch_key : String → Cache → Cache
touch_key key c = elim (get key c.store) [
  | none ↦ c
  | some entry ↦ record c { store = set key entry (delete key c.store) }
]

-- `store.delete(key); detachKeyFromSubjects(key)`
unfoldable pub remove_key : String → Cache → Cache
remove_key key c = detach_key_from_subjects key (record c { store = delete key c.store })

unfoldable pub evict_key : Option String → Cache → Cache × Bool
evict_key none c = (c, false)
evict_key (some oldest) c =
    if oldest === ""
    then (c, false)
    else (note (inc "gateway_cache_evict_lru") (remove_key oldest c), true)

unfoldable pub evict_oldest_key : Cache → Cache × Bool
unfolding evict_key
evict_oldest_key c = evict_key (first_key c.store) c

-- The loop of `sweep` over the entries that the map held when it began.
unfoldable pub sweep_entries : ℕ → JsMap CacheEntry → Cache → ℕ → Cache × ℕ
sweep_entries now [] c removed = (c, removed)
sweep_entries now ((k, v) ∷ entries) c removed =
    sweep_entries now entries (if leb v.expires_at now then remove_key k c else c)
      (if leb v.expires_at now then removed + 1 else removed)

abbrev note_swept : ℕ → Cache → Cache
note_swept removed c =
    if ltb 0 removed then note_size (note (inc_by "gateway_cache_swept" removed) c) else c

unfoldable pub sweep : ℕ → Cache → Cache
sweep now c = let (c', removed) = sweep_entries now c.store c 0 in note_swept removed c'

pub data CacheFetchResult : Type 0 where
  hit : ArrayBuffer → Option CacheIntegrityMeta → CacheFetchResult
  miss expired unverified : CacheFetchResult

-- `entry.integrity?.verified`
abbrev pub is_verified : Option CacheIntegrityMeta → Bool
is_verified none = false
is_verified (some i) = i.verified

fetch_found : String → Bool → ℕ → Option CacheEntry → Cache → Cache × CacheFetchResult
fetch_found key require_verified now none c = (note (inc "gateway_cache_miss") c, miss)
fetch_found key require_verified now (some entry) c =
    if ltb entry.expires_at now
    then (note_size (note (inc "gateway_cache_expired") (remove_key key c)), expired)
    else if require_verified && not (is_verified entry.integrity)
    then (note (inc "gateway_integrity_unverified_block") c, unverified)
    else (note (inc "gateway_cache_hit") (touch_key key c), hit entry.value entry.integrity)

unfoldable pub fetch_entry : String → Bool → ℕ → Cache → Cache × CacheFetchResult
unfolding fetch_found
fetch_entry key require_verified now c = fetch_found key require_verified now (get key c.store) c

abbrev hit_value : CacheFetchResult → Option ArrayBuffer
hit_value (hit value integrity) = some value
hit_value _ = none

-- The exported `get`.
unfoldable pub get_value : String → ℕ → Cache → Cache × Option ArrayBuffer
get_value key now c = let (c', result) = fetch_entry key false now c in (c', hit_value result)

unfoldable pub drop_key : String → Cache → Cache × Bool
drop_key key c = if has key c.store then (note_size (remove_key key c), true) else (c, false)

-- The loop of `forgetSubject`.
unfoldable pub forget_keys : KeySet → Cache → ℕ → Cache × ℕ
forget_keys [] c removed = (c, removed)
forget_keys ((key, _) ∷ keys) c removed =
    forget_keys keys
      (if has key c.store
        then record c { store = delete key c.store; key_subject = delete key c.key_subject }
        else c)
      (if has key c.store then removed + 1 else removed)

forget_set : String → Option KeySet → Cache → Cache × ℕ
forget_set subject none c = (c, 0)
forget_set subject (some keys) c =
    let (c', removed) = forget_keys keys c 0 in
    (note_size (record c' { subjects = delete subject c'.subjects }), removed)

unfoldable pub forget_subject : String → Cache → Cache × ℕ
unfolding forget_set
forget_subject subject c = forget_set subject (get subject c.subjects) c
