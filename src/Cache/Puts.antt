-- ===== src/Cache/Puts.antt =====
-- `put` of src/cache.ts: coherence, limits, and what is stored.
use blackcat_darkmesh_gatewa.Cache.{Cache, CacheConfig, CacheEntry, ArrayBuffer, sweep}
use blackcat_darkmesh_gatewa.Cache.Admission.{
  SubjectOrOptions, to_options, truthy, can_admit, make_room, put_admitted, put_swept, put,
}
use blackcat_darkmesh_gatewa.Cache.Coherence.{IsCoherent, is_expired}
use blackcat_darkmesh_gatewa.Cache.Reads.{
  metrics-IsCoherent, sweep-IsCoherent, size-sweep-le, get-sweep,
}
use blackcat_darkmesh_gatewa.Cache.Rooms.{
  is_key, make_room-IsCoherent, make_room_lem, make_room-SubjectRoom, store-make_room_refused,
}
use blackcat_darkmesh_gatewa.Cache.Storing.{
  IsNamed, truthy-IsNamed, SubjectRoom, store_entry-IsCoherent, store-store_entry, size-store_entry,
}
use blackcat_darkmesh_gatewa.Base.{
  ℕ, ◌+◌, ◌≤◌, ◌<◌, ◌≡◌, ◌⊎◌, inl, inr, String, Bool, true, false, ◌&&◌, ◌||◌, not, Option, none,
  some, ◌===◌, arith, ltb, leb, if◌then◌else◌, Bool-cases, Option-cases, length,
}
use blackcat_darkmesh_gatewa.JsMap.{get, has, size, first_key}

-- The limits that are read from the environment are positive.
pub record IsPositive (cfg : CacheConfig) : Type 0 where
  pub entries : 0 < cfg.max_entries
  pub keys : 0 < cfg.max_keys_per_subject

-- What holds of the cache between two calls.
pub record IsValid (cfg : CacheConfig) (c : Cache) : Type 0 where
  pub coherent : IsCoherent cfg.max_keys_per_subject c
  pub bounded : size c.store ≤ cfg.max_entries

module _ (cfg : CacheConfig) (key : String) (c : Cache) where
  -- The admission test gives the subject room for the key.
  can_admit-SubjectRoom :
      (subject : Option String)
      → 0 < cfg.max_keys_per_subject
      → can_admit cfg key subject c ≡ true
      → SubjectRoom cfg.max_keys_per_subject key subject c
  unfolding can_admit
  can_admit-SubjectRoom none positive admitted = tt
  can_admit-SubjectRoom (some s) positive admitted = elim (Option-cases (get s c.subjects)) [
    | inl e ↦ inr (ground arith)
    | inr (keys, e) ↦ elim (Bool-cases (has key keys)) [
      | inl listed ↦ inl (ground arith)
      | inr unlisted ↦ inr (ground arith)
    ]
  ]

module _ (cfg : CacheConfig) (p : IsPositive cfg) (key : String) (entry : CacheEntry)
    (subject : Option String) (c : Cache) where
  abbrev room : Cache × Bool
  room = make_room cfg key c

  -- After the admission step the entry fits.
  room_for_entry :
      IsValid cfg c
      → room.1 ≡ true
      → (has key room.0.store ≡ true) ⊎ (size room.0.store < cfg.max_entries)
  room_for_entry v stored =
      ground (arith, make_room_lem cfg key c key p.entries v.coherent.unique v.bounded stored)

  put_admitted-IsValid :
      IsNamed subject
      → IsValid cfg c
      → can_admit cfg key subject c ≡ true
      → IsValid cfg (put_admitted key entry subject room).0
  unfolding put_admitted
  put_admitted-IsValid named v admitted = elim (Bool-cases room.1) [
    | inl stored ↦
        let h = make_room-IsCoherent cfg key c v.coherent in
        let r =
          make_room-SubjectRoom cfg key c subject v.coherent
            (can_admit-SubjectRoom cfg key c subject p.keys admitted) in
        rw (stored, put_admitted)
          (record {
            coherent = metrics-IsCoherent _ (
                store_entry-IsCoherent cfg.max_keys_per_subject key entry subject room.0 named
                  p.keys r h);
            bounded = ground (
              arith,
              size-store_entry cfg.max_keys_per_subject key entry subject room.0 h.unique,
              make_room_lem cfg key c key p.entries v.coherent.unique v.bounded stored,
              room_for_entry v stored,
            );
          })
    | inr refused ↦
        rw (refused, put_admitted)
          (record {
            coherent = make_room-IsCoherent cfg key c v.coherent;
            bounded = rw (store-make_room_refused cfg key c refused) v.bounded;
          })
  ]

  put_swept-IsValid :
      IsNamed subject → IsValid cfg c → IsValid cfg (put_swept cfg key entry subject c).0
  unfolding put_swept
  put_swept-IsValid named v = elim (Bool-cases (ltb cfg.max_entry_bytes (length entry.value))) [
    | inl large ↦
        rw (large, put_swept)
          (record { coherent = metrics-IsCoherent _ v.coherent; bounded = v.bounded })
    | inr small ↦ elim (Bool-cases (can_admit cfg key subject c)) [
      | inl admitted ↦ rw (small, admitted, put_swept) (put_admitted-IsValid named v admitted)
      | inr refused ↦
          rw (small, refused, put_swept)
            (record { coherent = metrics-IsCoherent _ v.coherent; bounded = v.bounded })
    ]
  ]

  -- An accepted entry is stored; another entry stays, unless the oldest has to make room.
  get-put_swept :
      (j : String)
      → IsValid cfg c
      → (put_swept cfg key entry subject c).1 ≡ true
      → get j (put_swept cfg key entry subject c).0.store ≡ (
          if key === j
          then some entry
          else if not (has key c.store)
              && leb cfg.max_entries (size c.store)
              && is_key j (first_key c.store)
          then none
          else get j c.store)
  unfolding put_swept put_admitted
  get-put_swept j v accepted = ground (
    arith,
    make_room_lem cfg key c j p.entries v.coherent.unique v.bounded,
    store-store_entry cfg.max_keys_per_subject key entry subject room.0 j,
  )

  store-put_swept_refused :
      (put_swept cfg key entry subject c).1 ≡ false
      → (put_swept cfg key entry subject c).0.store ≡ c.store
  unfolding put_swept put_admitted
  store-put_swept_refused refused = ground (arith, store-make_room_refused cfg key c)

module _ (cfg : CacheConfig) (key : String) (value : ArrayBuffer) (args : SubjectOrOptions)
    (now : ℕ) (c : Cache) where
  abbrev pub new_entry : CacheEntry
  new_entry = record {
    value = value;
    expires_at = now + cfg.ttl_ms;
    integrity = (to_options args).integrity;
  }

  abbrev pub swept : Cache
  swept = sweep now c

  pub sweep-IsValid : IsValid cfg c → IsValid cfg (sweep now c)
  sweep-IsValid v = record {
    coherent = sweep-IsCoherent cfg.max_keys_per_subject now c v.coherent;
    bounded = omega (arith, size-sweep-le cfg.max_keys_per_subject now c, v.bounded);
  }

  -- With positive limits `put` keeps the cache valid: the maps between keys and subjects agree,
  -- every key with a subject is stored, each subject has at most its number of keys, and there are
  -- at most `MAX_ENTRIES` entries.
  pub put-IsValid : IsPositive cfg → IsValid cfg c → IsValid cfg (put cfg key value args now c).0
  unfolding put
  put-IsValid p v =
      put_swept-IsValid cfg p key new_entry (truthy (to_options args).subject) swept
        (truthy-IsNamed (to_options args).subject) (sweep-IsValid v)

  -- What an accepted `put` leaves in the store: the new entry under its key; nothing under a key
  -- whose entry had expired; nothing under the oldest key of the swept store if that store was full
  -- and did not hold the key; and every other entry as it was.
  pub put_stores :
      (j : String)
      → IsPositive cfg
      → IsValid cfg c
      → (put cfg key value args now c).1 ≡ true
      → get j (put cfg key value args now c).0.store ≡ (
          if key === j
          then some new_entry
          else if (not (has key swept.store)
                && leb cfg.max_entries (size swept.store)
                && is_key j (first_key swept.store))
              || is_expired now (get j c.store)
          then none
          else get j c.store)
  unfolding put
  put_stores j p v accepted = ground (
    arith,
    get-put_swept cfg p key new_entry (truthy (to_options args).subject) swept j (sweep-IsValid v)
        accepted,
    get-sweep cfg.max_keys_per_subject now c j v.coherent.unique,
  )

  -- A refused `put` does no more than the sweep: every entry that has not expired is as it was.
  pub put_refused :
      (j : String)
      → IsPositive cfg
      → IsValid cfg c
      → (put cfg key value args now c).1 ≡ false
      → get j (put cfg key value args now c).0.store
        ≡ (if is_expired now (get j c.store) then none else get j c.store)
  unfolding put
  put_refused j p v refused = ground (
    arith,
    store-put_swept_refused cfg p key new_entry (truthy (to_options args).subject) swept refused,
    get-sweep cfg.max_keys_per_subject now c j v.coherent.unique,
  )
