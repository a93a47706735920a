-- ===== src/Cache/Calls.antt =====
-- Sequences of calls of src/cache.ts, from the empty cache on, and what a read shows after a `put`
-- or a `forgetSubject`.
use blackcat_darkmesh_gatewa.Metrics
use blackcat_darkmesh_gatewa.Cache.{
  Cache, CacheConfig, CacheIntegrityMeta, ArrayBuffer, hit, miss, sweep, fetch_entry, drop_key,
  forget_subject, is_verified,
}
use blackcat_darkmesh_gatewa.Cache.Admission.{
  SubjectOrOptions, a_subject, to_options, put, put_swept, put_admitted, make_room,
}
use blackcat_darkmesh_gatewa.Cache.Forget.{forget_subject-IsCoherent, forget_subject_wipes}
use blackcat_darkmesh_gatewa.Cache.Reads.{
  drop_key-IsCoherent, size-drop_key-le, fetch_entry-IsCoherent, size-fetch_entry-le,
  fetch_entry_lem,
}
use blackcat_darkmesh_gatewa.Cache.Rooms.{make_room-IsCoherent}
use blackcat_darkmesh_gatewa.Cache.Storing.{key_subject-store_entry}
use blackcat_darkmesh_gatewa.Cache.Puts.{
  IsPositive, IsValid, sweep-IsValid, put-IsValid, put_stores,
}
use blackcat_darkmesh_gatewa.Base.{
  ℕ, ◌+◌, ◌≤◌, ◌≡◌, refl, ◌⊎◌, inl, inr, String, Bool, true, false, ◌&&◌, not, Option, none, some,
  List, [], ◌∷◌, ◌===◌, eq_iff, arith,
}
use blackcat_darkmesh_gatewa.JsMap.{get}

abbrev pub empty : Cache
empty = record { store = []; subjects = []; key_subject = []; metrics = Metrics.empty }

-- The exported functions with their arguments; `get` is a fetch that requires nothing.
pub data Call : Type 0 where
  a_put : String → ArrayBuffer → SubjectOrOptions → ℕ → Call
  a_fetch : String → Bool → ℕ → Call
  a_drop : String → Call
  a_sweep : ℕ → Call
  a_forget : String → Call

module _ (cfg : CacheConfig) where
  unfoldable pub call : Call → Cache → Cache
  call (a_put key value args now) c = (put cfg key value args now c).0
  call (a_fetch key require_verified now) c = (fetch_entry key require_verified now c).0
  call (a_drop key) c = (drop_key key c).0
  call (a_sweep now) c = sweep now c
  call (a_forget subject) c = (forget_subject subject c).0

  unfoldable pub run : List Call → Cache → Cache
  run [] c = c
  run (x ∷ calls) c = run calls (call x c)

  call-IsValid : (x : Call) (c : Cache) → IsPositive cfg → IsValid cfg c → IsValid cfg (call x c)
  unfolding call
  call-IsValid (a_put key value args now) c p v = put-IsValid cfg key value args now c p v
  call-IsValid (a_fetch key require_verified now) c p v = record {
    coherent =
        fetch_entry-IsCoherent cfg.max_keys_per_subject key require_verified now c v.coherent;
    bounded = omega (
      arith,
      v.bounded,
      size-fetch_entry-le cfg.max_keys_per_subject key require_verified now c v.coherent.unique,
    );
  }
  call-IsValid (a_drop key) c p v = record {
    coherent = drop_key-IsCoherent cfg.max_keys_per_subject key c v.coherent;
    bounded = omega (arith, v.bounded, size-drop_key-le cfg.max_keys_per_subject key c);
  }
  call-IsValid (a_sweep now) c p v = sweep-IsValid cfg "" [] (a_subject "") now c v
  call-IsValid (a_forget subject) c p v = record {
    coherent = forget_subject-IsCoherent cfg.max_keys_per_subject c subject v.coherent;
    bounded = omega (
      arith,
      v.bounded,
      forget_subject_wipes cfg.max_keys_per_subject c subject subject v.coherent,
    );
  }

  run-IsValid_from :
      (calls : List Call) (c : Cache) → IsPositive cfg → IsValid cfg c → IsValid cfg (run calls c)
  unfolding run
  run-IsValid_from [] c p v = v
  run-IsValid_from (x ∷ calls) c p v = run-IsValid_from calls (call x c) p (call-IsValid x c p v)

  pub empty-IsValid : IsValid cfg empty
  unfolding get
  empty-IsValid = record {
    coherent = record {
      agree = record { same = λ k s. refl; named = λ k e. cc; sets = λ s. tt };
      unique = tt;
      stored = λ k e. cc;
    };
    bounded = omega arith;
  }

  -- Whatever calls are made of the empty cache under positive limits, the cache is valid: the maps
  -- between keys and subjects agree, every key with a subject is stored, each subject has at most
  -- its number of keys, and there are at most `MAX_ENTRIES` entries.
  pub run-IsValid : (calls : List Call) → IsPositive cfg → IsValid cfg (run calls empty)
  run-IsValid calls p = run-IsValid_from calls empty p empty-IsValid

  -- The metadata that a value was stored with mark it verified.
  abbrev pub IsMarked : Option CacheIntegrityMeta → Type 0
  IsMarked integrity =
      (meta : CacheIntegrityMeta) × (integrity ≡ some meta) × (meta.verified ≡ true)

  marked-verified :
      (integrity : Option CacheIntegrityMeta) → IsMarked integrity → is_verified integrity ≡ true
  marked-verified none (meta, e, v) = cc
  marked-verified (some m) (meta, e, v) = ground (arith, e, v)

  -- A value that `put` accepts into a valid cache under positive limits is served with its metadata until
  -- its expiry time, by a read that does not require a verified entry, and by one that does if the
  -- metadata mark it verified.
  pub put_then_fetch :
      (key : String) (value : ArrayBuffer) (args : SubjectOrOptions) (strict : Bool) (now later : ℕ)
      (c : Cache)
      → IsPositive cfg
      → IsValid cfg c
      → (put cfg key value args now c).1 ≡ true
      → later ≤ now + cfg.ttl_ms
      → (strict ≡ false) ⊎ IsMarked (to_options args).integrity
      → (fetch_entry key strict later (put cfg key value args now c).0).1
        ≡ hit value (to_options args).integrity
  put_then_fetch key value args strict now later c p v accepted fresh allowed = ground (
    arith,
    put_stores cfg key value args now c key p v accepted,
    fetch_entry_lem cfg.max_keys_per_subject key strict later (put cfg key value args now c).0 key,
    eq_iff key key,
    unblocked strict (to_options args).integrity allowed,
  )
    where
      unblocked :
          (strict : Bool) (integrity : Option CacheIntegrityMeta)
          → (strict ≡ false) ⊎ IsMarked integrity
          → (strict && not (is_verified integrity)) ≡ false
      unblocked strict integrity (inl e) = rw e refl
      unblocked strict integrity (inr m) = rw (marked-verified integrity m) (ground arith)

  -- An accepted `put` with a subject that is not the empty text gives the key that subject.
  key_subject-put :
      (key : String) (value : ArrayBuffer) (subject : String) (now : ℕ) (c : Cache)
      → IsValid cfg c
      → (subject === "") ≡ false
      → (put cfg key value (a_subject subject) now c).1 ≡ true
      → get key (put cfg key value (a_subject subject) now c).0.key_subject ≡ some subject
  unfolding put put_swept put_admitted
  key_subject-put key value subject now c v named accepted = ground (
    arith,
    key_subject-store_entry cfg.max_keys_per_subject key
        (record { value = value; expires_at = now + cfg.ttl_ms; integrity = none }) subject
        (make_room cfg key (sweep now c)).0
        (make_room-IsCoherent cfg key (sweep now c)
          (sweep-IsValid cfg key value (a_subject subject) now c v).coherent),
  )

  -- What was stored for a subject cannot be read once the subject is forgotten: after an accepted
  -- `put` into a valid cache for a subject that is not the empty text, and `forgetSubject` of it, a
  -- read of the key is a miss at every time.
  pub forgotten_is_missed :
      (key : String) (value : ArrayBuffer) (subject : String) (now later : ℕ) (c : Cache)
      (strict : Bool)
      → IsPositive cfg
      → IsValid cfg c
      → (subject === "") ≡ false
      → (put cfg key value (a_subject subject) now c).1 ≡ true
      → let stored = (put cfg key value (a_subject subject) now c).0 in
        (fetch_entry key strict later (forget_subject subject stored).0).1 ≡ miss
  forgotten_is_missed key value subject now later c strict p v named accepted =
      let stored = (put cfg key value (a_subject subject) now c).0 in
      let v' = put-IsValid cfg key value (a_subject subject) now c p v in
      ground (
        arith,
        key_subject-put key value subject now c v named accepted,
        forget_subject_wipes cfg.max_keys_per_subject stored subject key v'.coherent,
        fetch_entry_lem cfg.max_keys_per_subject key strict later (forget_subject subject stored).0
            key,
        eq_iff subject subject,
      )
