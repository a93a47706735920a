-- ===== src/Cache/Rooms.antt =====
-- The admission step of `put` in src/cache.ts: the capacity and the eviction of the oldest key.
use blackcat_darkmesh_gatewa.Cache.{
  Cache, CacheConfig, AdmissionMode, reject, evict_lru, evict_key, evict_oldest_key,
}
use blackcat_darkmesh_gatewa.Cache.Admission.{make_room, make_room_by}
use blackcat_darkmesh_gatewa.Cache.Subjects.{lists, set_size}
use blackcat_darkmesh_gatewa.Cache.Coherence.{
  IsCoherent, store-remove_key, remove_key-IsCoherent, set_size-remove_key-le,
}
use blackcat_darkmesh_gatewa.Cache.Reads.{metrics-IsCoherent}
use blackcat_darkmesh_gatewa.Cache.Storing.{SubjectRoom}
use blackcat_darkmesh_gatewa.Base.{
  ℕ, ◌+◌, ◌≤◌, ◌<◌, ◌≡◌, ◌⊎◌, inl, inr, String, Bool, true, false, ◌&&◌, not, Option, none, some,
  [], ◌∷◌, ◌===◌, eq_iff, arith, leb, if◌then◌else◌, Bool-cases, Option-cases,
}
use blackcat_darkmesh_gatewa.JsMap.{JsMap, get, has, size, first_key, IsUnique}
use blackcat_darkmesh_gatewa.JsMap.Laws.{get-delete, delete-IsUnique}
use blackcat_darkmesh_gatewa.JsMap.Sizes.{size-delete, size-delete-le}

has-first_key : {V : Type 0} (m : JsMap V) (k : String) → first_key m ≡ some k → has k m ≡ true
unfolding get
has-first_key [] k e = cc
has-first_key ((j, v) ∷ m) k e = ground (arith, eq_iff j k)

abbrev pub is_key : String → Option String → Bool
is_key j none = false
is_key j (some k) = k === j

module _ (most : ℕ) (c : Cache) where
  evict_oldest_key-IsCoherent : IsCoherent most c → IsCoherent most (evict_oldest_key c).0
  unfolding evict_oldest_key
  evict_oldest_key-IsCoherent h = elim (Option-cases (first_key c.store)) [
    | inl e ↦ rw (e, evict_key) h
    | inr (oldest, e) ↦ elim (Bool-cases (oldest === "")) [
      | inl empty ↦ rw (e, empty, evict_key) h
      | inr named ↦
          rw (e, named, evict_key) (metrics-IsCoherent _ (remove_key-IsCoherent most oldest c h))
    ]
  ]

  -- An eviction takes out the oldest entry, unless its key is the empty text.
  evict_oldest_key_lem :
      (j : String)
      → IsUnique c.store
      → (evict_oldest_key c).1 ≡ true
      → (get j (evict_oldest_key c).0.store
          ≡ (if is_key j (first_key c.store) then none else get j c.store))
        × (size (evict_oldest_key c).0.store + 1 ≡ size c.store)
  unfolding evict_oldest_key
  evict_oldest_key_lem j u evicted = elim (Option-cases (first_key c.store)) [
    | inl e ↦ ground arith
    | inr (oldest, e) ↦ ground (
      arith,
      store-remove_key most oldest c,
      get-delete oldest j c.store,
      size-delete oldest c.store u,
      has-first_key c.store oldest e,
    )
  ]

  size-evict_oldest_key-le : size (evict_oldest_key c).0.store ≤ size c.store
  unfolding evict_oldest_key
  size-evict_oldest_key-le = elim (Option-cases (first_key c.store)) [
    | inl e ↦ ground arith
    | inr (oldest, e) ↦
        ground (arith, store-remove_key most oldest c, size-delete-le oldest c.store)
  ]

  set_size-evict_oldest_key-le :
      (s : String) → set_size (get s (evict_oldest_key c).0.subjects) ≤ set_size (get s c.subjects)
  unfolding evict_oldest_key
  set_size-evict_oldest_key-le s = elim (Option-cases (first_key c.store)) [
    | inl e ↦ ground arith
    | inr (oldest, e) ↦ ground (arith, set_size-remove_key-le most oldest c s)
  ]

module _ (cfg : CacheConfig) (key : String) (c : Cache) where
  abbrev most_keys : ℕ
  most_keys = cfg.max_keys_per_subject

  abbrev evicted : Cache × Bool
  evicted = evict_oldest_key c

  unlisted_if_gone :
      IsCoherent most_keys c
      → has key c.store ≡ false
      → (s : String) → lists key (get s c.subjects) ≡ false
  unlisted_if_gone h gone s = ground (arith, h.agree.same key s, h.stored key)

  make_room_by-IsCoherent :
      (mode : AdmissionMode)
      → IsCoherent most_keys c
      → IsCoherent most_keys (make_room_by cfg mode c).0
  unfolding make_room_by
  make_room_by-IsCoherent evict_lru h = elim (Bool-cases (evict_oldest_key c).1) [
    | inl done ↦ rw (done, make_room_by) (evict_oldest_key-IsCoherent most_keys c h)
    | inr stuck ↦
        rw (stuck, make_room_by) (metrics-IsCoherent _ (evict_oldest_key-IsCoherent most_keys c h))
  ]
  make_room_by-IsCoherent reject h = metrics-IsCoherent _ h

  pub make_room-IsCoherent : IsCoherent most_keys c → IsCoherent most_keys (make_room cfg key c).0
  unfolding make_room
  make_room-IsCoherent h =
      elim (Bool-cases (not (has key c.store) && leb cfg.max_entries (size c.store))) [
        | inl full ↦ rw (full, make_room) (make_room_by-IsCoherent cfg.admission_mode h)
        | inr fits ↦ rw (fits, make_room) h
      ]

  -- The capacity is met before the entry is stored, and other keys keep their entries unless the
  -- oldest has to go.
  pub make_room_lem :
      (j : String)
      → 0 < cfg.max_entries
      → IsUnique c.store
      → size c.store ≤ cfg.max_entries
      → (make_room cfg key c).1 ≡ true
      → let c' = (make_room cfg key c).0 in
        ((has key c.store ≡ true) ⊎ (size c'.store < cfg.max_entries))
        × (size c'.store ≤ cfg.max_entries)
        × (get j c'.store ≡ (
            if not (has key c.store)
              && leb cfg.max_entries (size c.store)
              && is_key j (first_key c.store)
            then none
            else get j c.store))
  unfolding make_room
  make_room_lem j positive u bounded admitted = ground (arith, evict_oldest_key_lem most_keys c j u)

  pub IsUnique-make_room : IsUnique c.store → IsUnique (make_room cfg key c).0.store
  unfolding make_room evict_oldest_key
  IsUnique-make_room u = elim (Option-cases (first_key c.store)) [
    | inl e ↦ ground arith
    | inr (oldest, e) ↦
        ground (arith, store-remove_key most_keys oldest c, delete-IsUnique oldest c.store)
  ]

  -- A subject that had room for the key still has it.
  pub make_room-SubjectRoom :
      (subject : Option String)
      → IsCoherent most_keys c
      → SubjectRoom most_keys key subject c
      → SubjectRoom most_keys key subject (make_room cfg key c).0
  unfolding make_room
  make_room-SubjectRoom none h room = tt
  make_room-SubjectRoom (some s) h room = elim (Bool-cases (has key c.store)) [
    | inl here ↦ ground arith
    | inr gone ↦
        let unlisted : lists key (get s c.subjects) ≡ false = unlisted_if_gone h gone s in
        let fewer = set_size-evict_oldest_key-le most_keys c s in
        elim room [ inl listed ↦ ground arith | inr below ↦ inr (ground (arith, fewer, below)) ]
  ]

  -- A refusal leaves the entries alone.
  pub store-make_room_refused :
      (make_room cfg key c).1 ≡ false → (make_room cfg key c).0.store ≡ c.store
  unfolding make_room evict_oldest_key
  store-make_room_refused refused = elim (Option-cases (first_key c.store)) [
    | inl e ↦ ground arith
    | inr (oldest, e) ↦ ground arith
  ]
