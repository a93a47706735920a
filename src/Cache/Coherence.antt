-- ===== src/Cache/Coherence.antt =====
-- What holds of the cache of src/cache.ts between two calls, for the private steps.
use blackcat_darkmesh_gatewa.Cache.{Cache, CacheEntry, remove_key, touch_key, sweep_entries}
use blackcat_darkmesh_gatewa.Cache.Subjects.{
  Agree, lists, set_size, detach-Agree, store-detach, get-detach_key_subject, lists-detach,
  set_size-detach-le,
}
use blackcat_darkmesh_gatewa.Base.{
  ℕ, ◌+◌, ◌≤◌, ◌≡◌, refl, inl, inr, String, Bool, true, false, Option, none, some, [], ◌∷◌, ◌===◌,
  eq_iff, arith, leb, if◌then◌else◌, Bool-cases, Option-cases,
}
use blackcat_darkmesh_gatewa.JsMap.{JsMap, get, delete, has, size, IsUnique}
use blackcat_darkmesh_gatewa.JsMap.Laws.{get-set, get-delete, set-IsUnique, delete-IsUnique}
use blackcat_darkmesh_gatewa.JsMap.Sizes.{size-set, size-delete, size-delete-le}

-- `most` is the largest size of a subject's set. Every key with a subject is stored.
pub record IsCoherent (most : ℕ) (c : Cache) : Type 0 where
  pub agree : Agree most c
  pub unique : IsUnique c.store
  pub stored : (key : String) → has key c.key_subject ≡ true → has key c.store ≡ true

module _ (most : ℕ) (key : String) (c : Cache) where
  pub store-remove_key : (remove_key key c).store ≡ delete key c.store
  unfolding remove_key
  store-remove_key = store-detach key most (record c { store = delete key c.store })

  pub key_subject-remove_key :
      (k : String)
      → Agree most c
      → get k (remove_key key c).key_subject ≡ (if key === k then none else get k c.key_subject)
  unfolding remove_key
  key_subject-remove_key k a =
      get-detach_key_subject key most (record c { store = delete key c.store }) k
        (record { same = a.same; named = a.named; sets = a.sets })

  pub lists-remove_key :
      (k subject : String)
      → Agree most c
      → lists k (get subject (remove_key key c).subjects)
        ≡ (if key === k then false else lists k (get subject c.subjects))
  unfolding remove_key
  lists-remove_key k subject a =
      lists-detach key most (record c { store = delete key c.store }) k subject
        (record { same = a.same; named = a.named; sets = a.sets })

  pub set_size-remove_key-le :
      (subject : String)
      → set_size (get subject (remove_key key c).subjects) ≤ set_size (get subject c.subjects)
  unfolding remove_key
  set_size-remove_key-le subject =
      set_size-detach-le key most (record c { store = delete key c.store }) subject

  -- Removing a key keeps the maps coherent.
  pub remove_key-IsCoherent : IsCoherent most c → IsCoherent most (remove_key key c)
  remove_key-IsCoherent h = record {
    agree =
        unfold remove_key in
        detach-Agree key most (record c { store = delete key c.store })
          (record { same = h.agree.same; named = h.agree.named; sets = h.agree.sets });
    unique = rw store-remove_key (delete-IsUnique key c.store h.unique);
    stored = λ k held.
        rw store-remove_key
          (ground (arith, key_subject-remove_key k h.agree, get-delete key k c.store, h.stored k));
  }

module _ (most : ℕ) (key : String) (c : Cache) where
  pub touch_key-IsCoherent : IsCoherent most c → IsCoherent most (touch_key key c)
  unfolding touch_key
  touch_key-IsCoherent h = elim (Option-cases (get key c.store)) [
    | inl e ↦ rw (e, touch_key) h
    | inr (entry, e) ↦
        rw (e, touch_key)
          (record {
            agree = record { same = h.agree.same; named = h.agree.named; sets = h.agree.sets };
            unique =
                set-IsUnique key entry (delete key c.store) (delete-IsUnique key c.store h.unique);
            stored = λ k held. ground (
              arith,
              h.stored k held,
              get-set key k entry (delete key c.store),
              get-delete key k c.store,
            );
          })
  ]

  -- A read that touches a key moves its entry, and every key keeps its entry.
  pub get-touch_key : (k : String) → get k (touch_key key c).store ≡ get k c.store
  unfolding touch_key
  get-touch_key k = elim (Option-cases (get key c.store)) [
    | inl e ↦ rw (e, touch_key)
    | inr (entry, e) ↦
        ground
          (arith, get-set key k entry (delete key c.store), get-delete key k c.store, eq_iff key k)
  ]

  pub size-touch_key : IsUnique c.store → size (touch_key key c).store ≡ size c.store
  unfolding touch_key
  size-touch_key u = elim (Option-cases (get key c.store)) [
    | inl e ↦ rw (e, touch_key)
    | inr (entry, e) ↦ ground (
      arith,
      size-set key entry (delete key c.store),
      size-delete key c.store u,
      get-delete key key c.store,
      eq_iff key key,
    )
  ]

abbrev pub is_expired : ℕ → Option CacheEntry → Bool
is_expired now none = false
is_expired now (some e) = leb e.expires_at now

module _ (most now : ℕ) where
  pub sweep_entries-IsCoherent :
      (entries : JsMap CacheEntry) (c : Cache) (n : ℕ)
      → IsCoherent most c
      → IsCoherent most (sweep_entries now entries c n).0
  unfolding sweep_entries
  sweep_entries-IsCoherent [] c n h = h
  sweep_entries-IsCoherent ((k, v) ∷ es) c n h = elim (Bool-cases (leb v.expires_at now)) [
    | inl old ↦
        rw (old, sweep_entries)
          (sweep_entries-IsCoherent es (remove_key k c) (n + 1) (remove_key-IsCoherent most k c h))
    | inr fresh ↦ rw (fresh, sweep_entries) (sweep_entries-IsCoherent es c n h)
  ]

  pub get-sweep_entries :
      (j : String) (entries : JsMap CacheEntry) (c : Cache) (n : ℕ)
      → IsUnique entries
      → get j (sweep_entries now entries c n).0.store
        ≡ (if is_expired now (get j entries) then none else get j c.store)
  unfolding sweep_entries get
  get-sweep_entries j [] c n u = refl
  get-sweep_entries j ((k, v) ∷ es) c n u = ground (
    arith,
    get-sweep_entries j es c n,
    get-sweep_entries j es (remove_key k c) (n + 1),
    store-remove_key most k c,
    get-delete k j c.store,
    eq_iff k j,
  )

  pub size-sweep_entries-le :
      (entries : JsMap CacheEntry) (c : Cache) (n : ℕ)
      → size (sweep_entries now entries c n).0.store ≤ size c.store
  unfolding sweep_entries
  size-sweep_entries-le [] c n = omega arith
  size-sweep_entries-le ((k, v) ∷ es) c n = ground (
    arith,
    size-sweep_entries-le es c n,
    size-sweep_entries-le es (remove_key k c) (n + 1),
    store-remove_key most k c,
    size-delete-le k c.store,
  )
